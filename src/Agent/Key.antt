-- ===== src/Agent/Key.antt =====
-- internal/agent/state.go: the format of device keys, and the device id inside of a key.
use Prim.Native.Char.{code}
use sopdet.Prelude.{
  ℕ, zero, suc, ◌-◌, String, ◌<>◌, ◌≡◌, refl, ap, sym, ◌∙◌, Bool, true, false, ◌&&◌, ◌||◌, Option,
  none, some, List, [], ◌∷◌, ◌++◌, arith, ◌==◌, leb, ◌=ˢ◌, eq_iff, if◌then◌else◌, length, replicate,
}
use mathlib.Core.Path.{ap₂}
use text.Mathlib.TextEquality.{Char-path}
use text.Mathlib.TextLemmas.{cons-append, nil-append}
use sopdet.Prelude.Text.{text_take, text_drop, text_take-drop, count_chars, count_chars-text_take}

abbrev CharClass : Type 0
CharClass = ℕ → Bool

abbrev is_hex : CharClass
is_hex c = (leb b'0' c && leb c b'9') || (leb b'a' c && leb c b'f')

-- `[A-Za-z0-9_-]`
abbrev is_secret : CharClass
is_secret c =
    (leb b'A' c && leb c b'Z')
    || (leb b'a' c && leb c b'z')
    || (leb b'0' c && leb c b'9')
    || c == b'_'
    || c == b'-'

abbrev is_dash : CharClass
is_dash c = c == b'-'

abbrev is_underscore : CharClass
is_underscore c = c == b'_'

-- The 36 characters of a UUID.
abbrev uuid_classes : List CharClass
uuid_classes =
    replicate 8 is_hex
    ++ (is_dash
        ∷ (replicate 4 is_hex
            ++ (is_dash
                ∷ (replicate 4 is_hex
                    ++ (is_dash ∷ (replicate 4 is_hex ++ (is_dash ∷ replicate 12 is_hex)))))))

-- What stands behind the first four characters of a key.
abbrev key_classes : List CharClass
key_classes = is_underscore ∷ (uuid_classes ++ (is_underscore ∷ replicate 43 is_secret))

-- A text with one character for each class, and no more.
unfoldable pub matches : List CharClass → String → Bool
matches [] String.[] = true
matches [] (String.◌∷◌ c s) = false
matches (p ∷ ps) String.[] = false
matches (p ∷ ps) (String.◌∷◌ c s) = p (code c) && matches ps s

-- `keyPattern.MatchString(raw)`
unfoldable pub matches_key : String → Bool
unfolding matches text_take text_drop
matches_key raw =
    let kind = text_take 4 raw in
    (kind =ˢ "bfdk" || kind =ˢ "bfck" || kind =ˢ "bfen") && matches key_classes (text_drop 4 raw)

abbrev pub device_key_prefix : String
device_key_prefix = "bfdk_"

unfoldable pub valid_device_key_format : String → Bool
unfolding matches_key
valid_device_key_format raw = matches_key raw && (text_take 5 raw =ˢ device_key_prefix)

-- `raw[5:41]`
unfoldable pub parse_device_key_id : String → Option String
unfolding valid_device_key_format
parse_device_key_id raw =
    if valid_device_key_format raw then some (text_take 36 (text_drop 5 raw)) else none

count_chars-matches :
    (ps : List CharClass) (s : String) → matches ps s ≡ true → count_chars s ≡ length ps
unfolding matches
count_chars-matches [] String.[] h = refl
count_chars-matches [] (String.◌∷◌ c s) h = cc h
count_chars-matches (p ∷ ps) String.[] h = cc h
count_chars-matches (p ∷ ps) (String.◌∷◌ c s) h =
    ap suc (count_chars-matches ps s (ground (arith, h)))

count_chars-text_drop : (n : ℕ) (s : String) → count_chars (text_drop n s) ≡ count_chars s - n
unfolding text_drop
count_chars-text_drop zero s = omega arith
count_chars-text_drop (suc n) String.[] = omega arith
count_chars-text_drop (suc n) (String.◌∷◌ c s) = omega (arith, count_chars-text_drop n s)

text_drop_empty : (n : ℕ) → text_drop n "" ≡ ""
unfolding text_drop
text_drop_empty zero = refl
text_drop_empty (suc n) = refl

text_drop-suc :
    (n m : ℕ) (s : String) → text_drop (suc n) (text_drop m s) ≡ text_drop n (text_drop (suc m) s)
unfolding text_drop
text_drop-suc n zero String.[] = sym (text_drop_empty n)
text_drop-suc n zero (String.◌∷◌ c s) = refl
text_drop-suc n (suc m) String.[] = sym (text_drop_empty n)
text_drop-suc n (suc m) (String.◌∷◌ c s) = text_drop-suc n m s

matches-text_drop :
    (ps qs : List CharClass) (s : String)
    → matches (ps ++ qs) s ≡ true
    → matches qs (text_drop (length ps) s) ≡ true
unfolding matches text_drop
matches-text_drop [] qs s h = h
matches-text_drop (p ∷ ps) qs String.[] h = cc h
matches-text_drop (p ∷ ps) qs (String.◌∷◌ c s) h = matches-text_drop ps qs s (ground (arith, h))

-- A text that starts with a character of one value.
underscore_first :
    (ps : List CharClass) (s : String)
    → matches (is_underscore ∷ ps) s ≡ true
    → (rest : String) × (s ≡ "_" <> rest) × (matches ps rest ≡ true)
unfolding matches
underscore_first ps String.[] h = absurd (ground (arith, h))
underscore_first ps (String.◌∷◌ c s) h =
    let e : code c ≡ 95 = ground (arith, h) in
    (
      s,
      ap (λ d. String.◌∷◌ d s) (Char-path c "_" e)
          ∙ sym (cons-append "_" "" s ∙ ap (String.◌∷◌ "_") (nil-append s)),
      ground (arith, h),
    )

matches_of_valid :
    (raw : String)
    → valid_device_key_format raw ≡ true
    → (matches key_classes (text_drop 4 raw) ≡ true) × (text_take 5 raw ≡ device_key_prefix)
unfolding valid_device_key_format
matches_of_valid raw h = ground (arith, h, eq_iff (text_take 5 raw) device_key_prefix)

-- A valid key has 85 characters, so the slice of its id is in range.
pub count_chars-valid : (raw : String) → valid_device_key_format raw ≡ true → count_chars raw ≡ 85
count_chars-valid raw h = omega (
  arith,
  count_chars-matches key_classes (text_drop 4 raw) (matches_of_valid raw h).0,
  count_chars-text_drop 4 raw,
)

secret_of_valid :
    (raw : String)
    → valid_device_key_format raw ≡ true
    → matches (is_underscore ∷ replicate 43 is_secret) (text_drop 36 (text_drop 5 raw)) ≡ true
secret_of_valid raw good = rw (text_drop-suc 36 4 raw) at (
    matches-text_drop (is_underscore ∷ uuid_classes) (is_underscore ∷ replicate 43 is_secret)
      (text_drop 4 raw) (matches_of_valid raw good).0)

-- The id that is read from a valid key.
pub parse_device_key_id_valid :
    (raw id : String)
    → parse_device_key_id raw ≡ some id
    → (valid_device_key_format raw ≡ true) × (text_take 36 (text_drop 5 raw) ≡ id)
unfolding parse_device_key_id
parse_device_key_id_valid raw id h = ground arith

-- A key is its prefix, the id that is read from it, and a secret of 43 characters.
parse_device_key_id_parts :
    (raw id : String)
    → parse_device_key_id raw ≡ some id
    → (secret : String) × (raw ≡ device_key_prefix <> (id <> ("_" <> secret)))
      × (count_chars id ≡ 36)
      × (count_chars secret ≡ 43)
parse_device_key_id_parts raw id h =
    let (good, same) = parse_device_key_id_valid raw id h in
    let (secret, e, s) =
      underscore_first (replicate 43 is_secret) (text_drop 36 (text_drop 5 raw))
        (secret_of_valid raw good) in
    let rest = text_drop 5 raw in
    (
      secret,
      sym (text_take-drop 5 raw)
          ∙ ap₂ (λ a b. a <> b) (matches_of_valid raw good).1
              (sym (text_take-drop 36 rest) ∙ ap₂ (λ a b. a <> b) same e),
      ap count_chars (sym same)
          ∙ count_chars-text_take 36 rest
              (omega (arith, count_chars-text_drop 5 raw, count_chars-valid raw good)),
      count_chars-matches (replicate 43 is_secret) secret s,
    )
