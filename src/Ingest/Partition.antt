-- ===== src/Ingest/Partition.antt =====
-- The groups of `Send` split the entities: nothing is lost, nothing is sent twice, and a group that is
-- too large holds one entity.
use mathlib.Core.List.{flatten, Perm}
use mathlib.Core.List.Perm
use mathlib.Core.Path.{subst}
use sopdet.Prelude.{
  ℕ, ◌≤◌, ◌<◌, String, ◌≡◌, ◌≢◌, refl, ap, sym, ◌∙◌, Bool, true, false, not, ◌&&◌, ◌||◌, List, [],
  ◌∷◌, ◌++◌, append_assoc, append-nil, map, arith, ltb, leb, ◌==◌, eq_iff, length, All, Distinct,
  Bool-cases, ◌⊎◌, inl, inr,
}
use sopdet.Prelude.GoMap.{lookup, insert, keys, IsMap}
use sopdet.Prelude.Sort.{sort_texts, sort_texts-Distinct, perm-sort_texts}
use sopdet.Schema.Types.{Entity}
use sopdet.Ingest.Chunks.{Group, entity_at, is_empty, fill_groups, make_groups}

-- The entry of a name.
abbrev entry : Group → String → String × Entity
entry entities n = (n, entity_at n entities)

insert_new :
    (n : String) (v : Entity) (cur : Group)
    → All (λ i. n ≢ i) (keys cur)
    → insert n v cur ≡ cur ++ ((n, v) ∷ [])
unfolding insert
insert_new n v [] h = refl
insert_new n v ((i, w) ∷ cur) h = ground (arith, eq_iff i n, insert_new n v cur h.1)

-- Names that are still to come are not in the group.
abbrev Apart : Group → List String → Type 0
Apart cur names = All (λ n. All (λ i. n ≢ i) (keys cur)) names

keys-append :
    (cur : Group) (n : String) (v : Entity) → keys (cur ++ ((n, v) ∷ [])) ≡ keys cur ++ (n ∷ [])
keys-append [] n v = refl
keys-append ((i, w) ∷ cur) n v = ap (λ l. i ∷ l) (keys-append cur n v)

All-ne-append :
    (m n : String) (v : Entity) (cur : Group)
    → m ≢ n
    → All (λ i. m ≢ i) (keys cur)
    → All (λ i. m ≢ i) (keys (cur ++ ((n, v) ∷ [])))
All-ne-append m n v [] h a = (h, tt)
All-ne-append m n v ((i, w) ∷ cur) h a = (a.0, All-ne-append m n v cur h a.1)

Apart-append :
    (cur : Group) (n : String) (v : Entity) (names : List String)
    → All (λ m. n ≢ m) names
    → Apart cur names
    → Apart (cur ++ ((n, v) ∷ [])) names
Apart-append cur n v [] h a = tt
Apart-append cur n v (m ∷ names) h a =
    (All-ne-append m n v cur (λ e. h.0 (sym e)) a.0, Apart-append cur n v names h.1 a.1)

Apart-one :
    (n : String) (v : Entity) (names : List String)
    → All (λ m. n ≢ m) names
    → Apart ((n, v) ∷ []) names
Apart-one n v [] h = tt
Apart-one n v (m ∷ names) h = (((λ e. h.0 (sym e)), tt), Apart-one n v names h.1)

-- No group was empty when it was closed.
nonempty : (cur : Group) → not (is_empty cur) ≡ true → cur ≢ []
nonempty [] h e = cc h
nonempty (x ∷ cur) h e = cc e

-- A group fits into a chunk, or it holds one entity that cannot be split.
abbrev pub Fits : (Group → ℕ) → ℕ → Group → Type 0
Fits size chunk_bytes g = (size g ≤ chunk_bytes) ⊎ (length g ≡ 1)

module _ (size : Group → ℕ) (chunk_bytes : ℕ) (entities : Group) where
  -- Whether the group is closed before the name is added.
  closes : Group → String → Bool
  closes cur n = ltb chunk_bytes (size (insert n (entity_at n entities) cur)) && not (is_empty cur)

  fill_groups_closed :
      (cur : Group) (n : String) (names : List String)
      → closes cur n ≡ true
      → fill_groups size chunk_bytes entities cur (n ∷ names)
        ≡ cur ∷ fill_groups size chunk_bytes entities (entry entities n ∷ []) names
  unfolding fill_groups closes
  fill_groups_closed cur n names h = ground (arith, h)

  fill_groups_added :
      (cur : Group) (n : String) (names : List String)
      → closes cur n ≡ false
      → All (λ i. n ≢ i) (keys cur)
      → fill_groups size chunk_bytes entities cur (n ∷ names)
        ≡ fill_groups size chunk_bytes entities (cur ++ (entry entities n ∷ [])) names
  unfolding fill_groups closes
  fill_groups_added cur n names h a = ground (arith, h, insert_new n (entity_at n entities) cur a)

  flatten-fill_groups :
      (cur : Group) (names : List String)
      → Distinct names
      → Apart cur names
      → flatten (fill_groups size chunk_bytes entities cur names)
        ≡ cur ++ map (entry entities) names
  unfolding flatten
  flatten-fill_groups [] [] d a = unfold fill_groups in refl
  flatten-fill_groups (e ∷ cur) [] d a = unfold fill_groups in refl
  flatten-fill_groups cur (n ∷ names) d a =
      let v = entity_at n entities in
      elim (Bool-cases (closes cur n)) [
        | inl split ↦ rw (fill_groups_closed cur n names split) (
            ap (λ l. cur ++ l)
              (flatten-fill_groups ((n, v) ∷ []) names d.1 (Apart-one n v names d.0)))
        | inr more ↦ rw (fill_groups_added cur n names more a.0) (
            flatten-fill_groups (cur ++ ((n, v) ∷ [])) names d.1
              (Apart-append cur n v names d.0 a.1)
            ∙ append_assoc cur ((n, v) ∷ []) (map (entry entities) names))
      ]

  Fits-added :
      (cur : Group) (n : String)
      → closes cur n ≡ false
      → All (λ i. n ≢ i) (keys cur)
      → Fits size chunk_bytes (cur ++ (entry entities n ∷ []))
  unfolding closes
  Fits-added [] n h a = inr refl
  Fits-added (e ∷ cur) n h a = ground (arith, h, insert_new n (entity_at n entities) (e ∷ cur) a)

  fill_groups-Fits :
      (cur : Group) (names : List String)
      → Distinct names
      → Apart cur names
      → (cur ≢ [] → Fits size chunk_bytes cur)
      → All
          (λ g. (g ≢ []) × Fits size chunk_bytes g)
          (fill_groups size chunk_bytes entities cur names)
  fill_groups-Fits [] [] d a f = unfold fill_groups in tt
  fill_groups-Fits (e ∷ cur) [] d a f =
      let some_entity : (e ∷ cur) ≢ [] = λ p. cc p in
      unfold fill_groups in ((some_entity, f some_entity), tt)
  fill_groups-Fits cur (n ∷ names) d a f =
      let v = entity_at n entities in
      elim (Bool-cases (closes cur n)) [
        | inl split ↦
            let full : cur ≢ [] = nonempty cur (unfold closes in ground (arith, split)) in
            rw (fill_groups_closed cur n names split) (
              (full, f full),
              fill_groups-Fits ((n, v) ∷ []) names d.1 (Apart-one n v names d.0) (λ _. inr refl),
            )
        | inr more ↦ rw (fill_groups_added cur n names more a.0) (
            fill_groups-Fits (cur ++ ((n, v) ∷ [])) names d.1 (Apart-append cur n v names d.0 a.1)
              (λ _. Fits-added cur n more a.0))
      ]

entry_cons :
    (k : String) (v : Entity) (m : Group) (names : List String)
    → All (λ i. k ≢ i) names
    → map (entry ((k, v) ∷ m)) names ≡ map (entry m) names
unfolding lookup
entry_cons k v m [] h = refl
entry_cons k v m (n ∷ names) h = ground (arith, eq_iff k n, entry_cons k v m names h.1)

-- The entries of a map, looked up by its keys.
map-entry : (m : Group) → IsMap m → map (entry m) (keys m) ≡ m
unfolding lookup
map-entry [] d = refl
map-entry ((k, v) ∷ m) d =
    ground (arith, eq_iff k k, entry_cons k v m (keys m) d.0, map-entry m d.1)

Apart-nil : (names : List String) → Apart [] names
Apart-nil [] = tt
Apart-nil (n ∷ names) = (tt, Apart-nil names)

-- Together the groups hold each entity of the envelope once, and nothing else, whatever the sizes and
-- the limit are.
pub flatten-make_groups :
    (size : Group → ℕ) (chunk_bytes : ℕ) (entities : Group) (whole_size : ℕ)
    → IsMap entities
    → Perm (flatten (make_groups size chunk_bytes entities whole_size)) entities
unfolding make_groups flatten
flatten-make_groups size chunk_bytes entities whole_size m =
    elim (Bool-cases (chunk_bytes == 0 || leb whole_size chunk_bytes)) [
      | inl whole ↦ rw (whole, append-nil) (Perm.refl entities)
      | inr split ↦ rw split (
          rw
            (flatten-fill_groups size chunk_bytes entities [] (sort_texts (keys entities))
              (sort_texts-Distinct (keys entities) m) (Apart-nil (sort_texts (keys entities))))
            (subst (λ l. Perm (map (entry entities) (sort_texts (keys entities))) l)
              (map-entry entities m) (Perm.map (entry entities) (perm-sort_texts (keys entities)))))
    ]

-- Of an envelope that is over the limit, no group is empty, and each group fits into a chunk or holds
-- one entity.
pub make_groups-Fits :
    (size : Group → ℕ) (chunk_bytes : ℕ) (entities : Group) (whole_size : ℕ)
    → IsMap entities
    → 0 < chunk_bytes
    → chunk_bytes < whole_size
    → All
        (λ g. (g ≢ []) × Fits size chunk_bytes g)
        (make_groups size chunk_bytes entities whole_size)
unfolding make_groups
make_groups-Fits size chunk_bytes entities whole_size m p q =
    let split : (chunk_bytes == 0 || leb whole_size chunk_bytes) ≡ false = ground arith in
    rw split (
      fill_groups-Fits size chunk_bytes entities [] (sort_texts (keys entities))
        (sort_texts-Distinct (keys entities) m) (Apart-nil (sort_texts (keys entities)))
        (λ h. absurd (h refl)))
