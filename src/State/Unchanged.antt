-- ===== src/State/Unchanged.antt =====
-- A second scan that finds the same records sends an empty delta.
use sopdet.Prelude.{
  String, ◌≡◌, ◌≢◌, refl, Bool, true, false, some, List, [], ◌∷◌, eq_iff, arith, is_some, All,
}
use sopdet.Prelude.GoMap.{GoMap, lookup, IsMap, keys, lookup_absent}
use sopdet.Schema.Types.{Record, EntityDelta, EntityCollection}
use sopdet.State.Delta.{
  Fingerprints, index_prints, index_records, find_removed, delta_of, previous, build_delta,
  snapshot_maps, snapshot,
}
use sopdet.State.Patch.{pick, delta_of_lem, is_new, is_changed, index_prints-IsMap, count-delta_of}

abbrev pub IsEmptyDelta : EntityDelta → Type 0
IsEmptyDelta d = (d.added ≡ []) × (d.changed ≡ []) × (d.removed ≡ []) × (d.unchanged ≡ d.count)

pick_none :
    (p : String → String → Bool) (by_key : GoMap Record) (cur : Fingerprints)
    → IsMap cur
    → ((k fp : String) → lookup k cur ≡ some fp → p k fp ≡ false)
    → pick p by_key cur ≡ []
unfolding pick lookup
pick_none p by_key [] m h = refl
pick_none p by_key ((key, fp) ∷ cur) m h =
    let here : p key fp ≡ false = h key fp (ground (arith, eq_iff key key)) in
    rw here (
      pick_none p by_key cur m.1
        λ k fp' e. h k fp' (ground (arith, eq_iff key k, lookup_absent key cur m.0)))

find_removed_none :
    (cur old : Fingerprints)
    → IsMap old
    → ((k fp : String) → lookup k old ≡ some fp → is_some (lookup k cur) ≡ true)
    → find_removed cur old ≡ []
unfolding find_removed lookup
find_removed_none cur [] m h = refl
find_removed_none cur ((key, fp) ∷ old) m h =
    let here : is_some (lookup key cur) ≡ true = h key fp (ground (arith, eq_iff key key)) in
    let rest =
      find_removed_none cur old m.1
        λ k fp' e. h k fp' (ground (arith, eq_iff key k, lookup_absent key old m.0)) in
    ground (arith, here, rest)

delta_of_same : (recs : List Record) → IsEmptyDelta (delta_of recs (index_prints [] recs))
delta_of_same recs =
    ground (arith, delta_of_lem recs old, count-delta_of recs old, new, changed, gone)
  where
    old : Fingerprints
    old = index_prints [] recs

    new : pick (is_new old) (index_records [] recs) old ≡ []
    new =
        pick_none (is_new old) (index_records [] recs) old (index_prints-IsMap [] recs tt)
          λ k fp h. ground (arith, h)

    changed : pick (is_changed old) (index_records [] recs) old ≡ []
    changed =
        pick_none (is_changed old) (index_records [] recs) old (index_prints-IsMap [] recs tt)
          λ k fp h. ground (arith, h, eq_iff fp fp)

    gone : find_removed old old ≡ []
    gone = find_removed_none old old (index_prints-IsMap [] recs tt) λ k fp h. ground (arith, h)

-- The state holds the fingerprints of a collection under its name.
abbrev Remembers : GoMap Fingerprints → String × EntityCollection → Type 0
Remembers prev (name, coll) = previous name prev ≡ index_prints [] coll.records

Remembers-cons :
    (name : String) (old : Fingerprints) (prev : GoMap Fingerprints) (es : GoMap EntityCollection)
    → All (λ i. name ≢ i) (keys es)
    → All (Remembers prev) es
    → All (Remembers ((name, old) ∷ prev)) es
unfolding lookup
Remembers-cons name old prev [] h r = tt
Remembers-cons name old prev ((n, coll) ∷ es) h r =
    (ground (arith, eq_iff name n, r.0), Remembers-cons name old prev es h.1 r.1)

Remembers-snapshot_maps :
    (es : GoMap EntityCollection) → IsMap es → All (Remembers (snapshot_maps es)) es
unfolding snapshot_maps lookup
Remembers-snapshot_maps [] m = tt
Remembers-snapshot_maps ((name, coll) ∷ es) m = (
  ground (arith, eq_iff name name),
  Remembers-cons name (index_prints [] coll.records) (snapshot_maps es) es m.0
      (Remembers-snapshot_maps es m.1),
)

build_delta_same :
    (es : GoMap EntityCollection) (prev : GoMap Fingerprints)
    → All (Remembers prev) es
    → All (λ entry. IsEmptyDelta (entry.1)) (build_delta es prev)
unfolding build_delta
build_delta_same [] prev r = tt
build_delta_same ((name, coll) ∷ es) prev r =
    (rw r.0 (delta_of_same coll.records), build_delta_same es prev r.1)

-- The delta of a scan against the snapshot of the same collections adds, changes and removes nothing,
-- in any of them.
pub build_delta-snapshot :
    (scan_id observed_at agent algo : String) (es : GoMap EntityCollection)
    → IsMap es
    → All
        (λ entry. IsEmptyDelta (entry.1))
        (build_delta es (snapshot scan_id observed_at agent algo es).entities)
unfolding snapshot
build_delta-snapshot scan_id observed_at agent algo es m =
    build_delta_same es (snapshot_maps es) (Remembers-snapshot_maps es m)
