-- ===== src/Schema/Fingerprint.antt =====
-- internal/schema/fingerprint.go. `json.Marshal` and SHA-256 enter as parameters.
use mathlib.Core.List.{Perm}
use sopdet.Prelude.{
  ℕ, String, ◌≡◌, ap, Bool, false, none, List, [], ◌∷◌, ◌=ˢ◌, ◌||◌, arith, if◌then◌else◌, eq_iff,
  Bool-cases, inl, inr,
}
use sopdet.Prelude.GoMap.{lookup}
use sopdet.Prelude.Sort.{sort_texts, sort_texts-perm}
use sopdet.Schema.Types.{Record}

-- The outcome of `json.Marshal`: the document, or the text of the error.
pub data Encoded : Type 0 where
  json : String → Encoded
  failed : String → Encoded

-- What the package calls of the standard library.
pub record Encoder : Type 0 where
  pub marshal_record : Record → Encoded
  pub marshal_rollup : ℕ → List String → Encoded
  -- `hex.EncodeToString` of `sha256.Sum256`
  pub sha256_hex : String → String

-- `encoding/json` writes a map by its sorted keys: maps with the same entries have the same text.
pub record IsCanonical (e : Encoder) : Type 0 where
  pub same_entries :
      (a b : Record)
      → ((k : String) → lookup k a ≡ lookup k b)
      → e.marshal_record a ≡ e.marshal_record b

-- `if err != nil { b = []byte(err.Error()) }`
abbrev bytes_of : Encoded → String
bytes_of (json b) = b
bytes_of (failed message) = message

abbrev volatile_keys : List String
volatile_keys =
    "free_bytes" ∷ "used_percent" ∷ "percent_remaining" ∷ "run_time_minutes" ∷ "uptime_seconds"
    ∷ "ram_free_bytes" ∷ "ram_usage_percent" ∷ "estimated_charge_remaining" ∷ "signal_percent"
    ∷ "signal_dbm" ∷ "neighbor_state" ∷ "days_remaining" ∷ []

abbrev pub has : String → List String → Bool
has k [] = false
has k (j ∷ js) = (j =ˢ k) || has k js

unfoldable pub is_volatile : String → Bool
is_volatile k = has k volatile_keys

-- The loop that copies the record without its telemetry.
unfoldable stable_part : Record → Record
stable_part [] = []
stable_part ((k, v) ∷ rec) =
    let rest = stable_part rec in if is_volatile k then rest else (k, v) ∷ rest

module _ (e : Encoder) where
  unfoldable pub fingerprint : Record → String
  unfolding stable_part is_volatile
  fingerprint rec = e.sha256_hex (bytes_of (e.marshal_record (stable_part rec)))

  unfoldable pub rollup_fingerprint : ℕ → List String → String
  rollup_fingerprint count fingerprints =
      e.sha256_hex (bytes_of (e.marshal_rollup count (sort_texts fingerprints)))

lookup-stable_part :
    (k : String) (rec : Record)
    → lookup k (stable_part rec) ≡ (if is_volatile k then none else lookup k rec)
unfolding stable_part lookup
lookup-stable_part k [] = ground arith
lookup-stable_part k ((j, v) ∷ rec) =
    ground (arith, eq_iff j k, lookup-stable_part k rec, ap is_volatile {x = j} {y = k})

module _ (e : Encoder) (canonical : IsCanonical e) where
  -- Two records that agree on every key which is not volatile have the same fingerprint, whatever
  -- their telemetry and the order of their entries.
  pub fingerprint_ignores_volatile :
      (a b : Record)
      → ((k : String) → is_volatile k ≡ false → lookup k a ≡ lookup k b)
      → fingerprint e a ≡ fingerprint e b
  unfolding fingerprint
  fingerprint_ignores_volatile a b agree =
      ap (λ m. e.sha256_hex (bytes_of m))
        (canonical.same_entries (stable_part a) (stable_part b) same)
    where
      same : (k : String) → lookup k (stable_part a) ≡ lookup k (stable_part b)
      same k = elim (Bool-cases (is_volatile k)) [
        | inl h ↦ rw (lookup-stable_part, lookup-stable_part, h)
        | inr h ↦ ground (arith, lookup-stable_part k a, lookup-stable_part k b, agree k h, h)
      ]

-- The fingerprint of a collection does not depend on the order of its records.
pub rollup_fingerprint-perm :
    (e : Encoder) (n : ℕ) {xs ys : List String}
    → Perm xs ys
    → rollup_fingerprint e n xs ≡ rollup_fingerprint e n ys
unfolding rollup_fingerprint
rollup_fingerprint-perm e n p =
    ap (λ l. e.sha256_hex (bytes_of (e.marshal_rollup n l))) (sort_texts-perm p)
