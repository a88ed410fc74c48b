-- ===== src/App/Budget.antt =====
-- internal/app/run.go: `enforceBudget`. The size of the entities in JSON is a parameter, none where the
-- marshaller fails. A `range` over the entities visits them in the order of the list.
use sopdet.Prelude.{
  ℕ, zero, suc, ◌+◌, ◌-◌, ◌/◌, String, ◌<>◌, Bool, true, false, ◌||◌, Option, none, some, List, [],
  ◌∷◌, ◌++◌, ltb, leb, ◌==◌, ◌=ˢ◌, if◌then◌else◌, length, take,
}
use sopdet.Prelude.Decimal.{itoa}
use sopdet.Prelude.GoMap.{GoMap}
use sopdet.Schema.Types.{EntityCollection}

abbrev pub Entities : Type 0
Entities = GoMap EntityCollection

-- The loop that looks for the largest collection.
unfoldable pub largest : String → ℕ → Entities → String × ℕ
largest name best [] = (name, best)
largest name best ((n, c) ∷ entities) =
    if ltb best (length c.records)
    then largest n (length c.records) entities
    else largest name best entities

-- `best / 2`, and at least 1.
abbrev pub half : ℕ → ℕ
half best = if best / 2 == 0 then 1 else best / 2

abbrev pub trim_collection : ℕ → EntityCollection → EntityCollection
trim_collection best c = record c {
  records = take (half best) c.records;
  summarized = true;
  omitted = c.omitted + (best - half best);
}

-- `entities[name]` is changed through its pointer.
unfoldable pub trim_entity : String → ℕ → Entities → Entities
trim_entity name best [] = []
trim_entity name best ((n, c) ∷ entities) =
    if n =ˢ name
    then (n, trim_collection best c) ∷ entities
    else (n, c) ∷ trim_entity name best entities

abbrev pub trim_note : String → ℕ → String
trim_note name best = name <> (".records summarized (-" <> (itoa (best - half best) <> ")"))

pub record Budget : Type 0 where
  pub entities : Entities
  pub truncated : List String
  pub summarized : Bool

-- Whether the entities are small enough, or cannot be measured.
abbrev pub is_done : (Entities → Option ℕ) → ℕ → Entities → Bool
is_done size max entities = elim (size entities) [ none ↦ true | some n ↦ leb n max ]

abbrev pub max_rounds : ℕ
max_rounds = 40

module _ (size : Entities → Option ℕ) (max : ℕ) where
  -- One round, for the collection that was found.
  unfoldable pub trim : String → ℕ → Budget → Budget
  trim name best b = record {
    entities = trim_entity name best b.entities;
    truncated = b.truncated ++ (trim_note name best ∷ []);
    summarized = true;
  }

  -- The loop, with the rounds that are left.
  unfoldable pub trim_rounds : ℕ → Budget → Budget
  trim_rounds zero b = b
  trim_rounds (suc left) b =
      let (name, best) = largest "" 0 b.entities in
      let rest = trim_rounds left (trim name best b) in
      if is_done size max b.entities then b else if (name =ˢ "") || leb best 1 then b else rest

  -- A maximum that is not positive is 0 here.
  unfoldable pub enforce_budget : Entities → List String → Budget
  enforce_budget entities truncated =
      let b : Budget = record { entities = entities; truncated = truncated; summarized = false } in
      if max == 0 then b else trim_rounds max_rounds b
