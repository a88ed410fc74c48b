-- ===== src/Schema/Label.antt =====
-- The keys `name` and `name#m` that the entity builder gives to records of one name.
use Prim.Native.Char.{code}
use text.Mathlib.TextLemmas.{cons-append, nil-append}
use sopdet.Prelude.{
  ℕ, String, ◌<>◌, ◌≡◌, refl, ap, sym, ◌∙◌, Bool, true, false, arith, ◌==◌, if◌then◌else◌,
  Bool-cases, inl, inr,
}
use sopdet.Prelude.Decimal.{itoa, itoa-injective, all_digits, all_digits-itoa}

abbrev pub has_hash : String → Bool
has_hash String.[] = false
has_hash (String.◌∷◌ c s) = if code c == 35 then true else has_hash s

-- The text before the first `#`, and the text behind it.
before_hash : String → String
before_hash String.[] = String.[]
before_hash (String.◌∷◌ c s) =
    let rest = String.◌∷◌ c (before_hash s) in if code c == 35 then String.[] else rest

after_hash : String → String
after_hash String.[] = String.[]
after_hash (String.◌∷◌ c s) = if code c == 35 then s else after_hash s

before_hash_self : (s : String) → has_hash s ≡ false → before_hash s ≡ s
unfolding before_hash
before_hash_self String.[] h = refl
before_hash_self (String.◌∷◌ c s) h = ground (arith, before_hash_self s)

abbrev hashed : String → String → String
hashed s t = s <> ("#" <> t)

before_hash-hashed : (s t : String) → has_hash s ≡ false → before_hash (hashed s t) ≡ s
unfolding before_hash
before_hash-hashed String.[] t h = rw (nil-append, cons-append)
before_hash-hashed (String.◌∷◌ c s) t h = rw cons-append (ground (arith, before_hash-hashed s t))

after_hash-hashed : (s t : String) → has_hash s ≡ false → after_hash (hashed s t) ≡ t
unfolding after_hash
after_hash-hashed String.[] t h = rw (nil-append, cons-append, nil-append)
after_hash-hashed (String.◌∷◌ c s) t h = rw cons-append (ground (arith, after_hash-hashed s t))

has_hash-hashed : (s t : String) → has_hash (hashed s t) ≡ true
has_hash-hashed String.[] t = rw (nil-append, cons-append)
has_hash-hashed (String.◌∷◌ c s) t = rw cons-append (ground (arith, has_hash-hashed s t))

-- `name`, `name#2`, `name#3`, …
unfoldable pub label : String → ℕ → String
label name m = if m == 1 then name else hashed name (itoa m)

-- The number in a label, as text.
number_of : String → String
number_of s = if has_hash s then after_hash s else itoa 1

before_hash-label : (s : String) (m : ℕ) → has_hash s ≡ false → before_hash (label s m) ≡ s
unfolding label
before_hash-label s m h = elim (Bool-cases (m == 1)) [
  | inl one ↦ rw one (before_hash_self s h)
  | inr more ↦ rw more (before_hash-hashed s (itoa m) h)
]

number_of-label : (s : String) (m : ℕ) → has_hash s ≡ false → number_of (label s m) ≡ itoa m
unfolding label number_of
number_of-label s m h = elim (Bool-cases (m == 1)) [
  | inl one ↦ rw (one, h) (ap itoa (ground arith))
  | inr more ↦ rw (more, has_hash-hashed) (after_hash-hashed s (itoa m) h)
]

pub label-injective :
    (s t : String) (m n : ℕ)
    → has_hash s ≡ false
    → has_hash t ≡ false
    → label s m ≡ label t n
    → (s ≡ t) × (m ≡ n)
label-injective s t m n hs ht e = (
  sym (before_hash-label s m hs) ∙ ap before_hash e ∙ before_hash-label t n ht,
  itoa-injective m n (sym (number_of-label s m hs) ∙ ap number_of e ∙ number_of-label t n ht),
)

has_hash_of_all_digits : (s : String) → all_digits s ≡ true → has_hash s ≡ false
has_hash_of_all_digits String.[] h = refl
has_hash_of_all_digits (String.◌∷◌ c s) h = ground (arith, has_hash_of_all_digits s)

has_hash-append :
    (s t : String) → has_hash s ≡ false → has_hash t ≡ false → has_hash (s <> t) ≡ false
has_hash-append String.[] t h k = rw nil-append k
has_hash-append (String.◌∷◌ c s) t h k = rw cons-append (ground (arith, has_hash-append s t))

-- The keys that the builder invents hold no `#`.
pub has_hash-item : (i : ℕ) → has_hash ("item:" <> itoa i) ≡ false
has_hash-item i =
    has_hash-append "item:" (itoa i) refl (has_hash_of_all_digits (itoa i) (all_digits-itoa i))
