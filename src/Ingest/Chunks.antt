-- ===== src/Ingest/Chunks.antt =====
-- internal/ingest/ingest.go: the part of `Send` that splits the entities into groups. The size of a
-- trial group, `len(wire(json(candidate)))`, is a parameter here; `Send` passes its own.
use sopdet.Prelude.{
  ℕ, String, Bool, true, false, not, ◌&&◌, ◌||◌, none, some, List, [], ◌∷◌, ltb, leb, ◌==◌,
  if◌then◌else◌,
}
use sopdet.Prelude.GoMap.{GoMap, lookup, insert, keys}
use sopdet.Prelude.Sort.{sort_texts}
use sopdet.Schema.Types.{Entity, nil}

abbrev pub Group : Type 0
Group = GoMap Entity

-- `env.Entities[n]`
abbrev pub entity_at : String → Group → Entity
entity_at n entities = elim (lookup n entities) [ none ↦ nil | some v ↦ v ]

abbrev pub is_empty {ℓ} : {A : Type ℓ} → List A → Bool
is_empty [] = true
is_empty (x ∷ xs) = false

module _ (size : Group → ℕ) (chunk_bytes : ℕ) (entities : Group) where
  -- The loop over the names, with the group that is being filled.
  unfoldable pub fill_groups : Group → List String → List Group
  fill_groups cur [] = if is_empty cur then [] else cur ∷ []
  fill_groups cur (n ∷ names) =
      let trial = insert n (entity_at n entities) cur in
      elim (ltb chunk_bytes (size trial) && not (is_empty cur)) [
        | true ↦ cur ∷ fill_groups ((n, entity_at n entities) ∷ []) names
        | false ↦ fill_groups trial names
      ]

  -- A limit that is not positive is 0 here: both mean that nothing is split.
  unfoldable pub make_groups : ℕ → List Group
  unfolding fill_groups
  make_groups whole_size =
      if chunk_bytes == 0 || leb whole_size chunk_bytes
      then entities ∷ []
      else fill_groups [] (sort_texts (keys entities))
