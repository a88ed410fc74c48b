-- ===== src/State/Delta.antt =====
-- internal/state/state.go: `BuildDelta` and `Snapshot`. A `range` over a map visits the entries in the
-- order of the list that stands for the map.
use sopdet.Prelude.{ℕ, ◌+◌, String, none, some, List, [], ◌∷◌, ◌++◌, ◌=ˢ◌, if◌then◌else◌, length}
use sopdet.Prelude.GoMap.{GoMap, lookup, insert}
use sopdet.Schema.Types.{Record, text_field, EntityCollection, EntityDelta, RemovedStub}

abbrev pub Fingerprints : Type 0
Fingerprints = GoMap String

pub record State : Type 0 where
  pub schema_version : ℕ
  pub scan_id : String
  pub observed_at : String
  pub agent : String
  pub fingerprint_algo : String
  pub entities : GoMap Fingerprints

abbrev pub key_of : Record → String
key_of rec = text_field "key" rec

abbrev pub print_of : Record → String
print_of rec = text_field "fingerprint" rec

-- The loop that fills `cur`, also that of `Snapshot`.
unfoldable pub index_prints : Fingerprints → List Record → Fingerprints
index_prints cur [] = cur
index_prints cur (rec ∷ recs) = index_prints (insert (key_of rec) (print_of rec) cur) recs

-- The part of the loop that fills `byKey`.
unfoldable pub index_records : GoMap Record → List Record → GoMap Record
index_records by_key [] = by_key
index_records by_key (rec ∷ recs) = index_records (insert (key_of rec) rec by_key) recs

-- `byKey[key]`: the nil record where the key is missing.
abbrev pub record_at : String → GoMap Record → Record
record_at key by_key = elim (lookup key by_key) [ none ↦ [] | some rec ↦ rec ]

-- One round of the loop over `cur`.
unfoldable pub classify : Fingerprints → Record → String → String → EntityDelta → EntityDelta
classify old rec key fp d = elim (lookup key old) [
  | none ↦ record d { added = d.added ++ (rec ∷ []) }
  | some before ↦
      if before =ˢ fp
      then record d { unchanged = d.unchanged + 1 }
      else record d { changed = d.changed ++ (rec ∷ []) }
]

unfoldable pub classify_all : Fingerprints → GoMap Record → Fingerprints → EntityDelta → EntityDelta
classify_all old by_key [] d = d
classify_all old by_key ((key, fp) ∷ cur) d =
    classify_all old by_key cur (classify old (record_at key by_key) key fp d)

-- The loop over `old`.
unfoldable pub find_removed : Fingerprints → Fingerprints → List RemovedStub
find_removed cur [] = []
find_removed cur ((key, fp) ∷ old) =
    let rest = find_removed cur old in
    elim (lookup key cur) [
      | none ↦ record { key = key; previous_fingerprint = fp } ∷ rest
      | some now ↦ rest
    ]

unfoldable pub delta_of : List Record → Fingerprints → EntityDelta
unfolding index_prints index_records classify_all classify find_removed
delta_of recs old =
    let cur = index_prints [] recs in
    let start : EntityDelta = record {
      count = length cur;
      added = [];
      changed = [];
      removed = [];
      unchanged = 0;
    } in
    let d = classify_all old (index_records [] recs) cur start in
    record d { removed = find_removed cur old }

-- `prev[name]`: the nil map where the name is missing.
abbrev pub previous : String → GoMap Fingerprints → Fingerprints
previous name prev = elim (lookup name prev) [ none ↦ [] | some old ↦ old ]

unfoldable pub build_delta : GoMap EntityCollection → GoMap Fingerprints → GoMap EntityDelta
unfolding delta_of
build_delta [] prev = []
build_delta ((name, coll) ∷ entities) prev =
    (name, delta_of coll.records (previous name prev)) ∷ build_delta entities prev

unfoldable pub snapshot_maps : GoMap EntityCollection → GoMap Fingerprints
snapshot_maps [] = []
snapshot_maps ((name, coll) ∷ entities) =
    (name, index_prints [] coll.records) ∷ snapshot_maps entities

unfoldable pub snapshot : String → String → String → String → GoMap EntityCollection → State
unfolding snapshot_maps index_prints
snapshot scan_id observed_at agent algo entities = record {
  schema_version = 2;
  scan_id = scan_id;
  observed_at = observed_at;
  agent = agent;
  fingerprint_algo = algo;
  entities = snapshot_maps entities;
}
