-- ===== src/State/Patch.antt =====
-- A delta brings the receiver of the previous fingerprints to the present ones.
use sopdet.Prelude.{
  ℕ, ◌+◌, String, ◌≡◌, refl, ◌∙◌, Bool, false, not, ◌&&◌, none, some, List, [], ◌∷◌, ◌++◌,
  append_assoc, append-nil, ◌=ˢ◌, eq_iff, arith, if◌then◌else◌, length, is_some, Option-cases,
  Bool-cases, inl, inr,
}
use sopdet.Prelude.GoMap.{
  GoMap, lookup, insert, remove, IsMap, lookup-insert, lookup-remove, insert-IsMap, lookup_absent,
}
use sopdet.Schema.Types.{Record, EntityDelta, RemovedStub}
use sopdet.State.Delta.{
  Fingerprints, key_of, print_of, index_prints, index_records, record_at, classify, classify_all,
  find_removed, delta_of,
}

-- What a receiver does with the records of a delta, and with its stubs.
unfoldable pub put_all : List Record → Fingerprints → Fingerprints
put_all [] m = m
put_all (rec ∷ recs) m = put_all recs (insert (key_of rec) (print_of rec) m)

unfoldable pub drop_all : List RemovedStub → Fingerprints → Fingerprints
drop_all [] m = m
drop_all (stub ∷ stubs) m = drop_all stubs (remove stub.key m)

abbrev pub apply_delta : EntityDelta → Fingerprints → Fingerprints
apply_delta d old = put_all d.changed (put_all d.added (drop_all d.removed old))

abbrev pub is_new : Fingerprints → String → String → Bool
is_new old key fp = not (is_some (lookup key old))

abbrev pub is_changed : Fingerprints → String → String → Bool
is_changed old key fp = elim (lookup key old) [ none ↦ false | some before ↦ not (before =ˢ fp) ]

-- The records of `cur` that pass a test.
unfoldable pub pick : (String → String → Bool) → GoMap Record → Fingerprints → List Record
pick p by_key [] = []
pick p by_key ((key, fp) ∷ cur) =
    let rest = pick p by_key cur in if p key fp then record_at key by_key ∷ rest else rest

pub count_same : Fingerprints → Fingerprints → ℕ
count_same old [] = 0
count_same old ((key, fp) ∷ cur) =
    let rest = count_same old cur in
    if is_new old key fp then rest else if is_changed old key fp then rest else rest + 1

classify_all_lem :
    (old : Fingerprints) (by_key : GoMap Record) (cur : Fingerprints) (d : EntityDelta)
    → classify_all old by_key cur d ≡ record d {
      added = d.added ++ pick (is_new old) by_key cur;
      changed = d.changed ++ pick (is_changed old) by_key cur;
      unchanged = d.unchanged + count_same old cur;
    }
unfolding classify_all pick count_same
classify_all_lem old by_key [] d = ground (arith, append-nil d.added, append-nil d.changed)
classify_all_lem old by_key ((key, fp) ∷ cur) d =
    classify_all_lem old by_key cur (classify old (record_at key by_key) key fp d)
    ∙ (unfold classify in
        ground (
          arith,
          append_assoc d.added (record_at key by_key ∷ []) (pick (is_new old) by_key cur),
          append_assoc d.changed (record_at key by_key ∷ []) (pick (is_changed old) by_key cur),
        ))

-- The record that is kept for a key has that key and its fingerprint.
Consistent : GoMap Record → Fingerprints → Type 0
Consistent by_key cur =
    (k fp : String)
    → lookup k cur ≡ some fp
    → (key_of (record_at k by_key) ≡ k) × (print_of (record_at k by_key) ≡ fp)

Consistent-insert :
    (by_key : GoMap Record) (cur : Fingerprints) (rec : Record)
    → Consistent by_key cur
    → Consistent (insert (key_of rec) rec by_key) (insert (key_of rec) (print_of rec) cur)
unfolding Consistent
Consistent-insert by_key cur rec c k fp h = ground (
  arith,
  lookup-insert (key_of rec) k (print_of rec) cur,
  lookup-insert (key_of rec) k rec by_key,
  eq_iff (key_of rec) k,
  c k fp,
)

index-Consistent :
    (by_key : GoMap Record) (cur : Fingerprints) (recs : List Record)
    → Consistent by_key cur
    → Consistent (index_records by_key recs) (index_prints cur recs)
unfolding index_records index_prints
index-Consistent by_key cur [] c = c
index-Consistent by_key cur (rec ∷ recs) c =
    index-Consistent (insert (key_of rec) rec by_key) (insert (key_of rec) (print_of rec) cur) recs
      (Consistent-insert by_key cur rec c)

pub index_prints-IsMap :
    (cur : Fingerprints) (recs : List Record) → IsMap cur → IsMap (index_prints cur recs)
unfolding index_prints
index_prints-IsMap cur [] h = h
index_prints-IsMap cur (rec ∷ recs) h =
    index_prints-IsMap (insert (key_of rec) (print_of rec) cur) recs
      (insert-IsMap (key_of rec) (print_of rec) cur h)

Consistent-tail :
    (by_key : GoMap Record) (key fp : String) (cur : Fingerprints)
    → IsMap ((key, fp) ∷ cur)
    → Consistent by_key ((key, fp) ∷ cur)
    → Consistent by_key cur
unfolding Consistent lookup
Consistent-tail by_key key fp cur m c k fp' h =
    ground (arith, c k fp', eq_iff key k, lookup_absent key cur m.0)

Consistent-head :
    (by_key : GoMap Record) (key fp : String) (cur : Fingerprints)
    → Consistent by_key ((key, fp) ∷ cur)
    → (key_of (record_at key by_key) ≡ key) × (print_of (record_at key by_key) ≡ fp)
unfolding Consistent lookup
Consistent-head by_key key fp cur c = c key fp (ground (arith, eq_iff key key))

-- A key of `cur` that passes the test is written; any other keeps its value.
lookup-put_pick :
    (p : String → String → Bool) (by_key : GoMap Record) (cur : Fingerprints) (k : String)
    (m : Fingerprints)
    → IsMap cur
    → Consistent by_key cur
    → lookup k (put_all (pick p by_key cur) m)
      ≡ elim (lookup k cur) [ none ↦ lookup k m | some fp ↦ if p k fp then some fp else lookup k m ]
unfolding put_all pick lookup
lookup-put_pick p by_key [] k m h c = refl
lookup-put_pick p by_key ((key, fp) ∷ cur) k m h c =
    let tail = Consistent-tail by_key key fp cur h c in
    let head = Consistent-head by_key key fp cur c in
    let rec = record_at key by_key in
    elim (Bool-cases (p key fp)) [
      | inl e ↦ ground (
        arith,
        e,
        head.0,
        head.1,
        eq_iff key k,
        lookup_absent key cur h.0,
        lookup-insert key k fp m,
        lookup-put_pick p by_key cur k (insert (key_of rec) (print_of rec) m) h.1 tail,
      )
      | inr e ↦ ground (
        arith,
        e,
        eq_iff key k,
        lookup_absent key cur h.0,
        lookup-put_pick p by_key cur k m h.1 tail,
      )
    ]

lookup-drop_all :
    (cur old m : Fingerprints) (k : String)
    → lookup k (drop_all (find_removed cur old) m)
      ≡ (if is_some (lookup k old) && not (is_some (lookup k cur)) then none else lookup k m)
unfolding drop_all find_removed lookup
lookup-drop_all cur [] m k = refl
lookup-drop_all cur ((key, fp) ∷ old) m k = elim (Option-cases (lookup key cur)) [
  | inl e ↦
      ground
        (arith, e, eq_iff key k, lookup-remove key k m, lookup-drop_all cur old (remove key m) k)
  | inr (now, e) ↦ ground (arith, e, eq_iff key k, lookup-drop_all cur old m k)
]

pub delta_of_lem :
    (recs : List Record) (old : Fingerprints)
    → let cur = index_prints [] recs in
      let by_key = index_records [] recs in
      delta_of recs old ≡ record {
        count = length cur;
        added = pick (is_new old) by_key cur;
        changed = pick (is_changed old) by_key cur;
        removed = find_removed cur old;
        unchanged = count_same old cur;
      }
unfolding delta_of
delta_of_lem recs old = rw classify_all_lem (ground arith)

start-Consistent : Consistent [] []
unfolding Consistent lookup
start-Consistent k fp h = ground arith

-- The previous fingerprints, patched by the delta, are at every key those of the present records.
pub apply_delta-delta_of :
    (recs : List Record) (old : Fingerprints) (k : String)
    → lookup k (apply_delta (delta_of recs old) old) ≡ lookup k (index_prints [] recs)
apply_delta-delta_of recs old k =
    let cur = index_prints [] recs in
    let by_key = index_records [] recs in
    let m = drop_all (find_removed cur old) old in
    let m' = put_all (pick (is_new old) by_key cur) m in
    let is_map = index_prints-IsMap [] recs tt in
    let consistent = index-Consistent [] [] recs start-Consistent in
    let p = lookup-put_pick (is_changed old) by_key cur k m' is_map consistent in
    let q = lookup-put_pick (is_new old) by_key cur k m is_map consistent in
    let r = lookup-drop_all cur old old k in
    rw delta_of_lem (elim (Option-cases (lookup k cur)) [
      | inl e ↦ ground (arith, e, p, q, r)
      | inr (fp, e) ↦ elim (Option-cases (lookup k old)) [
        | inl f ↦ ground (arith, e, f, p, q, r)
        | inr (before, f) ↦ ground (arith, e, f, p, q, r, eq_iff before fp)
      ]
    ])

length-pick :
    (old : Fingerprints) (by_key : GoMap Record) (cur : Fingerprints)
    → length cur
      ≡ length (pick (is_new old) by_key cur)
        + length (pick (is_changed old) by_key cur)
        + count_same old cur
unfolding pick count_same
length-pick old by_key [] = omega arith
length-pick old by_key ((key, fp) ∷ cur) = ground (arith, length-pick old by_key cur)

-- The count of a delta is that of its three kinds of present records.
pub count-delta_of :
    (recs : List Record) (old : Fingerprints)
    → let d = delta_of recs old in d.count ≡ length d.added + length d.changed + d.unchanged
count-delta_of recs old =
    rw delta_of_lem (length-pick old (index_records [] recs) (index_prints [] recs))
