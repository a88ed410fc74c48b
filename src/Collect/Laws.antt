-- ===== src/Collect/Laws.antt =====
-- What a run of the collectors leaves.
use sopdet.Prelude.{
  ℕ, ◌+◌, ◌≤◌, ◌<◌, String, ◌≡◌, refl, true, false, Option, none, some, List, [], ◌∷◌, All, length,
  length-take_le, arith, eq_iff, ◌=ˢ◌, if◌then◌else◌, Bool-cases, is_some, ◌⊎◌, inl, inr,
}
use sopdet.Prelude.GoMap.{GoMap, lookup, insert, lookup-insert}
use sopdet.Schema.Types.{Record, EntityCollection, EntityError}
use sopdet.Schema.Fingerprint.{Encoder}
use sopdet.Schema.Entity.{Seen, base_key, mark_seen, complete_records, build_entity}
use sopdet.Collect.Defs.{
  is_none, plan_event, looks_gated, Collector, Session, Collected, limited, add_entity, add_error,
  run_one, run_all, run_plan,
}

-- A collector's name has a collection or an error.
abbrev pub IsAccounted : String → Collected → Type 0
IsAccounted name w =
    (is_some (lookup name w.entities) ≡ true) ⊎ (is_some (lookup name w.errors) ≡ true)

is_some-insert {ℓ} :
    {V : Type ℓ} (k j : String) (v : V) (m : GoMap V)
    → is_some (lookup j m) ≡ true
    → is_some (lookup j (insert k v m)) ≡ true
is_some-insert k j v m h = ground (arith, lookup-insert k j v m, h)

is_some-insert_self {ℓ} :
    {V : Type ℓ} (k : String) (v : V) (m : GoMap V) → is_some (lookup k (insert k v m)) ≡ true
is_some-insert_self k v m = ground (arith, lookup-insert k k v m, eq_iff k k)

module _ (e : Encoder) (to_lower : ℕ → ℕ) (at : String) (s : Session) where
  collection : Collector → EntityCollection
  collection c = build_entity e at (limited s c.records)

  entity_error : Collector → String → EntityError
  entity_error c m = record {
    error = m;
    gated = looks_gated to_lower m;
    duration_ms = c.duration_ms;
  }

  run_one-IsAccounted :
      (i total : ℕ) (name : String) (c : Collector) (w : Collected)
      → IsAccounted name w
      → IsAccounted name (run_one e to_lower at s i total c w)
  unfolding run_one add_entity add_error collection entity_error
  run_one-IsAccounted i total name c w h = from c.failure refl
    where
      from :
          (o : Option String)
          → c.failure ≡ o
          → IsAccounted name (run_one e to_lower at s i total c w)
      from none f = ground (arith, f, h, lookup-insert c.name name (collection c) w.entities)
      from (some m) f = ground (
        arith,
        f,
        h,
        lookup-insert c.name name (collection c) w.entities,
        lookup-insert c.name name (entity_error c m) w.errors,
      )

  run_one-IsAccounted_self :
      (i total : ℕ) (c : Collector) (w : Collected)
      → IsAccounted c.name (run_one e to_lower at s i total c w)
  unfolding run_one add_entity add_error collection entity_error
  run_one-IsAccounted_self i total c w = from c.failure refl
    where
      from :
          (o : Option String)
          → c.failure ≡ o
          → IsAccounted c.name (run_one e to_lower at s i total c w)
      from none f =
          ground
            (arith, f, eq_iff c.name c.name, lookup-insert c.name c.name (collection c) w.entities)
      from (some m) f = ground (
        arith,
        f,
        eq_iff c.name c.name,
        lookup-insert c.name c.name (collection c) w.entities,
        lookup-insert c.name c.name (entity_error c m) w.errors,
      )

  run_all_keeps :
      (i total : ℕ) (name : String) (cs : List Collector) (w : Collected)
      → IsAccounted name w
      → IsAccounted name (run_all e to_lower at s i total cs w)
  unfolding run_all
  run_all_keeps i total name [] w h = h
  run_all_keeps i total name (c ∷ cs) w h =
      run_all_keeps (i + 1) total name cs (run_one e to_lower at s i total c w)
        (run_one-IsAccounted i total name c w h)

  run_all-IsAccounted :
      (i total : ℕ) (cs : List Collector) (w : Collected)
      → All (λ c. IsAccounted c.name (run_all e to_lower at s i total cs w)) cs
  unfolding run_all
  run_all-IsAccounted i total [] w = tt
  run_all-IsAccounted i total (c ∷ cs) w =
      let w' = run_one e to_lower at s i total c w in
      (
        run_all_keeps (i + 1) total c.name cs w' (run_one-IsAccounted_self i total c w),
        run_all-IsAccounted (i + 1) total cs w',
      )

  -- Every collector of a plan leaves a collection or an error under its name, also one that panics, and
  -- whatever the other collectors do.
  pub run_plan-IsAccounted :
      (plan : List Collector) → All (λ c. IsAccounted c.name (run_plan e to_lower at s plan)) plan
  unfolding run_plan
  run_plan-IsAccounted plan =
      run_all-IsAccounted 0 (length plan) plan
        (record { entities = []; errors = []; events = plan_event (length plan) ∷ [] })

  -- At most as many records as the bound, and a count that is their number.
  abbrev pub IsSized : EntityCollection → Type 0
  IsSized c = (length c.records ≤ s.max_list_items) × (c.count ≡ length c.records)

  abbrev pub IsBounded : String × EntityCollection → Type 0
  IsBounded entry = IsSized (entry.1)

  length-complete_records :
      (i : ℕ) (seen : Seen) (recs : List (Option Record))
      → length (complete_records e at i seen recs) ≤ length recs
  unfolding complete_records
  length-complete_records i seen [] = omega arith
  length-complete_records i seen (none ∷ recs) =
      omega (arith, length-complete_records (i + 1) seen recs)
  length-complete_records i seen (some r ∷ recs) =
      omega (arith, length-complete_records (i + 1) (mark_seen seen (base_key i r)) recs)

  collection-IsBounded : (c : Collector) → 0 < s.max_list_items → IsSized (collection c)
  unfolding collection build_entity limited
  collection-IsBounded c pos = ground (
    arith,
    length-complete_records 0 [] (limited s c.records),
    length-take_le s.max_list_items c.records,
  )

  insert-IsBounded :
      (k : String) (v : EntityCollection) (m : GoMap EntityCollection)
      → IsSized v
      → All IsBounded m
      → All IsBounded (insert k v m)
  unfolding insert
  insert-IsBounded k v [] h a = (h, tt)
  insert-IsBounded k v ((j, x) ∷ m) h a =
      elim (j =ˢ k) as (λ b. All IsBounded (if b then (k, v) ∷ m else (j, x) ∷ insert k v m)) [
        | true ↦ (h, a.1)
        | false ↦ (a.0, insert-IsBounded k v m h a.1)
      ]

  run_one-IsBounded :
      (i total : ℕ) (c : Collector) (w : Collected)
      → 0 < s.max_list_items
      → All IsBounded w.entities
      → All IsBounded (run_one e to_lower at s i total c w).entities
  unfolding run_one add_entity add_error collection
  run_one-IsBounded i total c w pos h =
      let added =
        insert-IsBounded c.name (collection c) w.entities (collection-IsBounded c pos) h in
      from c.failure refl added
    where
      from :
          (o : Option String)
          → c.failure ≡ o
          → All IsBounded (insert c.name (collection c) w.entities)
          → All IsBounded (run_one e to_lower at s i total c w).entities
      from none f added = rw (f) added
      from (some m) f added = elim (Bool-cases (is_none c.records)) [
        | inl q ↦ rw (f, q) h
        | inr q ↦ rw (f, q) added
      ]

  run_all-IsBounded :
      (i total : ℕ) (cs : List Collector) (w : Collected)
      → 0 < s.max_list_items
      → All IsBounded w.entities
      → All IsBounded (run_all e to_lower at s i total cs w).entities
  unfolding run_all
  run_all-IsBounded i total [] w pos h = h
  run_all-IsBounded i total (c ∷ cs) w pos h =
      run_all-IsBounded (i + 1) total cs (run_one e to_lower at s i total c w) pos
        (run_one-IsBounded i total c w pos h)

  -- With a positive bound on the items of a list, no collection of a run has more records than it, and the count of
  -- each is the number of its records.
  pub run_plan-IsBounded :
      (plan : List Collector)
      → 0 < s.max_list_items
      → All IsBounded (run_plan e to_lower at s plan).entities
  unfolding run_plan
  run_plan-IsBounded plan pos =
      run_all-IsBounded 0 (length plan) plan
        (record { entities = []; errors = []; events = plan_event (length plan) ∷ [] }) pos tt
