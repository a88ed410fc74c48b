-- ===== src/Schema/Keys.antt =====
-- The keys of a built collection.
use text.Mathlib.TextPositions.{eq_refl}
use text.Mathlib.TextLemmas.{append-eq-nil_iff, append_cancel_left, append-nil as text_append-nil}
use sopdet.Prelude.Decimal.{itoa}
use sopdet.Prelude.{
  ℕ, ◌+◌, ◌≤◌, ◌<◌, String, ◌≡◌, ◌≢◌, ◌<>◌, refl, ◌∙◌, false, Bool-cases, ◌=ˢ◌, if◌then◌else◌,
  eq_iff, All-map, Option, none, some, List, [], ◌∷◌, map, arith, All, Distinct, Option-cases, inl,
  inr,
}
use sopdet.Prelude.GoMap.{lookup, insert, lookup-insert, map_laws}
use sopdet.Schema.Types.{Record, text_field}
use sopdet.Schema.Fingerprint.{Encoder}
use sopdet.Schema.Label.{has_hash, label, label-injective, has_hash-item}
use sopdet.Schema.Entity.{
  Seen, base_key, unique_key, mark_seen, complete, complete_records, build_entity,
}

key_of : Record → String
key_of rec = text_field "key" rec

-- How often a name was met.
times : Seen → String → ℕ
times seen s = elim (lookup s seen) [ none ↦ 0 | some n ↦ n ]

key_of-complete :
    (e : Encoder) (at key : String) (rec : Record) → key_of (complete e at key rec) ≡ key
unfolding key_of complete text_field
key_of-complete e at key rec = simp map_laws

-- Every count is positive.
abbrev Counted : Seen → Type 0
Counted seen = (s : String) (n : ℕ) → lookup s seen ≡ some n → 1 ≤ n

times-mark_seen :
    (seen : Seen) (s t : String)
    → times (mark_seen seen s) t ≡ (if s =ˢ t then times seen s + 1 else times seen t)
unfolding times mark_seen
times-mark_seen seen s t = elim (Option-cases (lookup s seen)) [
  | inl e ↦ ground (arith, eq_iff s t, lookup-insert s t 1 seen, e)
  | inr (n, e) ↦ ground (arith, eq_iff s t, lookup-insert s t (n + 1) seen, e)
]

Counted-nil : Counted []
unfolding lookup
Counted-nil s n p = ground arith

mark_seen-Counted : (seen : Seen) (s : String) → Counted seen → Counted (mark_seen seen s)
unfolding mark_seen
mark_seen-Counted seen s h t n = elim (Option-cases (lookup s seen)) [
  | inl e ↦ ground (arith, lookup-insert s t 1 seen, e, h t n)
  | inr (m, e) ↦ ground (arith, lookup-insert s t (m + 1) seen, e, h t n)
]

named : (i : ℕ) (rec : Record) (k : String) → k ≢ "" → text_field "key" rec ≡ k → base_key i rec ≡ k
unfolding base_key
named i rec k h e = ground (arith, eq_iff k "")

-- The name that a record gets is its name with the next number.
unique_key-label :
    (seen : Seen) (s : String) → Counted seen → unique_key seen s ≡ label s (times seen s + 1)
unfolding unique_key times label
unique_key-label seen s h = elim (Option-cases (lookup s seen)) [
  | inl e ↦ ground (arith, e)
  | inr (n, e) ↦ let p : 1 ≤ n = h s n e in ground (arith, e)
]

-- `k` is a name without `#`, with a number that is not taken.
Fresh : Seen → String → Type 0
Fresh seen k = (s : String) × (m : ℕ) × (k ≡ label s m) × (has_hash s ≡ false) × (times seen s < m)

Fresh-mark_seen : (seen : Seen) (s k : String) → Fresh (mark_seen seen s) k → Fresh seen k
unfolding Fresh
Fresh-mark_seen seen s k (t, m, e, plain, lt) =
    (t, m, e, plain, ground (arith, times-mark_seen seen s t, eq_iff s t))

Fresh-ne :
    (seen : Seen) (s k : String)
    → has_hash s ≡ false
    → Fresh (mark_seen seen s) k
    → label s (times seen s + 1) ≢ k
unfolding Fresh
Fresh-ne seen s k plain (t, m, e, plain', lt) same =
    let both = label-injective s t (times seen s + 1) m plain plain' (same ∙ e) in
    ground (arith, times-mark_seen seen s t, eq_iff s t, both.0, both.1)

-- A raw record whose key, if it has one, holds no `#`.
abbrev pub IsPlain : Option Record → Type 0
IsPlain none = Unit
IsPlain (some rec) = has_hash (text_field "key" rec) ≡ false

has_hash-base_key : (i : ℕ) (rec : Record) → IsPlain (some rec) → has_hash (base_key i rec) ≡ false
unfolding base_key
has_hash-base_key i rec h = elim (Bool-cases (text_field "key" rec =ˢ "")) [
  | inl e ↦ rw e (has_hash-item i)
  | inr e ↦ rw e h
]

longer_ne : (k t : String) → k ≢ "" → k <> t ≢ ""
longer_ne k t h e = h (append-eq-nil_iff.0 e).0

first_name : (k : String) → (unique_key [] k ≡ k) × (mark_seen [] k ≡ (k, 1) ∷ [])
unfolding unique_key mark_seen lookup insert
first_name k = (refl, refl)

second_name :
    (k : String)
    → (unique_key ((k, 1) ∷ []) k ≡ k <> "#2") × (mark_seen ((k, 1) ∷ []) k ≡ (k, 2) ∷ [])
unfolding unique_key mark_seen lookup insert itoa
second_name k = ground (arith, eq_refl k)

other_name : (k : String) → (k =ˢ (k <> "#2")) ≡ false
other_name k = elim (Bool-cases (k =ˢ (k <> "#2"))) [
  | inr e ↦ e
  | inl e ↦
      let p : ◌≡◌ {A = String} "" "#2" =
        append_cancel_left k "" "#2" (text_append-nil k ∙ (eq_iff k (k <> "#2")).0 e) in
      cc p
]

third_name : (k : String) → unique_key ((k, 2) ∷ []) (k <> "#2") ≡ k <> "#2"
unfolding unique_key lookup
third_name k = ground (arith, other_name k)

module _ (e : Encoder) (at : String) where
  built_keys : ℕ → Seen → List (Option Record) → List String
  built_keys i seen recs = map key_of (complete_records e at i seen recs)

  built_keys-Fresh :
      (i : ℕ) (seen : Seen) (recs : List (Option Record))
      → Counted seen
      → All IsPlain recs
      → All (Fresh seen) (built_keys i seen recs)
  unfolding built_keys complete_records Fresh
  built_keys-Fresh i seen [] c h = tt
  built_keys-Fresh i seen (none ∷ recs) c h = built_keys-Fresh (i + 1) seen recs c h.1
  built_keys-Fresh i seen (some rec ∷ recs) c h =
      let s = base_key i rec in
      (
        (
          s,
          times seen s + 1,
          key_of-complete e at (unique_key seen s) rec ∙ unique_key-label seen s c,
          has_hash-base_key i rec h.0,
          omega arith,
        ),
        All-map (Fresh-mark_seen seen s) (built_keys (i + 1) (mark_seen seen s) recs)
            (built_keys-Fresh (i + 1) (mark_seen seen s) recs (mark_seen-Counted seen s c) h.1),
      )

  built_keys-Distinct :
      (i : ℕ) (seen : Seen) (recs : List (Option Record))
      → Counted seen
      → All IsPlain recs
      → Distinct (built_keys i seen recs)
  unfolding built_keys complete_records
  built_keys-Distinct i seen [] c h = tt
  built_keys-Distinct i seen (none ∷ recs) c h = built_keys-Distinct (i + 1) seen recs c h.1
  built_keys-Distinct i seen (some rec ∷ recs) c h =
      let s = base_key i rec in
      let c' = mark_seen-Counted seen s c in
      (
        All-map
            (λ k fresh.
              rw (key_of-complete, unique_key-label seen s c)
                (Fresh-ne seen s k (has_hash-base_key i rec h.0) fresh))
            (built_keys (i + 1) (mark_seen seen s) recs)
            (built_keys-Fresh (i + 1) (mark_seen seen s) recs c' h.1),
        built_keys-Distinct (i + 1) (mark_seen seen s) recs c' h.1,
      )

  -- If no raw key holds a `#`, no two records of a built collection have the same key.
  pub build_entity-Distinct :
      (recs : List (Option Record))
      → All IsPlain recs
      → Distinct (map (text_field "key") (build_entity e at recs).records)
  unfolding build_entity built_keys key_of
  build_entity-Distinct recs h = built_keys-Distinct 0 [] recs Counted-nil h

  key-complete : (s : String) (r : Record) → text_field "key" (complete e at s r) ≡ s
  key-complete s r = unfold key_of in key_of-complete e at s r

  build_entity-keys :
      (recs : List (Option Record))
      → map (text_field "key") (build_entity e at recs).records
        ≡ map (text_field "key") (complete_records e at 0 [] recs)
  unfolding build_entity
  build_entity-keys recs = refl

  -- A raw key `k#2` behind two records of the key `k` is given away twice.
  pub build_entity_repeats :
      (k : String) (a b c : Record)
      → k ≢ ""
      → text_field "key" a ≡ k
      → text_field "key" b ≡ k
      → text_field "key" c ≡ k <> "#2"
      → map (text_field "key") (build_entity e at (some a ∷ some b ∷ some c ∷ [])).records
        ≡ k ∷ (k <> "#2") ∷ (k <> "#2") ∷ []
  build_entity_repeats k a b c h ka kb kc =
      let nc = named 2 c (k <> "#2") (longer_ne k "#2" h) kc in
      build_entity-keys (some a ∷ some b ∷ some c ∷ [])
      ∙ (unfold complete_records in
          simp (
            key-complete,
            named 0 a k h ka,
            named 1 b k h kb,
            nc,
            (first_name k).0,
            (first_name k).1,
            (second_name k).0,
            (second_name k).1,
            third_name k,
          ))
