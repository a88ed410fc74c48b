-- ===== src/Schema/Entity.antt =====
-- internal/schema/entity.go: a collection is built from the raw records of a collector.
use sopdet.Prelude.{
  ℕ, ◌+◌, String, ◌<>◌, Option, none, some, List, [], ◌∷◌, map, ◌=ˢ◌, if◌then◌else◌, length, false,
}
use sopdet.Prelude.Decimal.{itoa}
use sopdet.Prelude.GoMap.{GoMap, lookup, insert}
use sopdet.Schema.Types.{str, Record, text_field, EntityCollection}
use sopdet.Schema.Fingerprint.{Encoder, fingerprint, rollup_fingerprint}

-- `seen` counts how often each name has been met. The builder's name for the next record of `name`,
-- and the new count.
abbrev pub Seen : Type 0
Seen = GoMap ℕ

unfoldable pub base_key : ℕ → Record → String
base_key i rec = let key = text_field "key" rec in if key =ˢ "" then "item:" <> itoa i else key

unfoldable pub unique_key : Seen → String → String
unique_key seen key = elim (lookup key seen) [ none ↦ key | some n ↦ key <> ("#" <> itoa (n + 1)) ]

unfoldable pub mark_seen : Seen → String → Seen
mark_seen seen key = elim (lookup key seen) [
  | none ↦ insert key 1 seen
  | some n ↦ insert key (n + 1) seen
]

module _ (e : Encoder) (observed_at : String) where
  -- The fields that the builder sets, in its order: the fingerprint is taken with the key in place.
  unfoldable pub complete : String → Record → Record
  complete key rec =
      let r = insert "key" (str key) rec in
      insert "observed_at" (str observed_at) (insert "fingerprint" (str (fingerprint e r)) r)

  -- The loop over the records; a nil record is passed over, but it has an index.
  unfoldable pub complete_records : ℕ → Seen → List (Option Record) → List Record
  complete_records i seen [] = []
  complete_records i seen (none ∷ recs) = complete_records (i + 1) seen recs
  complete_records i seen (some rec ∷ recs) =
      complete (unique_key seen (base_key i rec)) rec
      ∷ complete_records (i + 1) (mark_seen seen (base_key i rec)) recs

  unfoldable pub build_entity : List (Option Record) → EntityCollection
  unfolding complete_records complete base_key unique_key mark_seen
  build_entity records =
      let out = complete_records 0 [] records in
      let fps = map (text_field "fingerprint") out in
      record {
        count = length out;
        fingerprint = rollup_fingerprint e (length out) fps;
        records = out;
        summarized = false;
        omitted = 0;
      }
