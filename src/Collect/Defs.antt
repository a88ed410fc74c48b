-- ===== src/Collect/Defs.antt =====
-- internal/collect/collect.go: the plan of the collectors and its run. What the collectors of a platform
-- return is a parameter.
use sopdet.Prelude.{
  ℕ, ◌+◌, String, Bool, true, false, not, ◌&&◌, ◌||◌, Option, none, some, List, [], ◌∷◌, ◌++◌, map,
  keep, take, length, ltb, leb, ◌=ˢ◌, if◌then◌else◌,
}
use sopdet.Prelude.Text.{codes, contains_codes}
use sopdet.Prelude.GoMap.{GoMap, insert}
use sopdet.Schema.Types.{Record, EntityCollection, EntityError}
use sopdet.Schema.Fingerprint.{Encoder}
use sopdet.Schema.Entity.{build_entity}

-- A collector with what its `Collect` returns: the records, perhaps nil ones, beside the message of an
-- error or of a panic, and the time that it takes in milliseconds.
pub record Collector : Type 0 where
  pub name : String
  pub level : ℕ
  pub records : List (Option Record)
  pub failure : Option String
  pub duration_ms : ℕ

-- A bound that is not positive is 0 here.
pub record Session : Type 0 where
  pub max_list_items : ℕ
  pub include_appx : Bool
  pub include_processes : Bool

-- The progress events; the last fields are the success and the number of records.
pub data Event : Type 0 where
  plan_event : ℕ → Event
  entity_event : String → ℕ → ℕ → ℕ → Bool → ℕ → Event

pub record Collected : Type 0 where
  pub entities : GoMap EntityCollection
  pub errors : GoMap EntityError
  pub events : List Event

abbrev gated_words : List String
gated_words =
    "access is denied" ∷ "access denied" ∷ "permission denied" ∷ "operation not permitted"
    ∷ "not authorized" ∷ "not allowed" ∷ "privilege" ∷ "requires elevation" ∷ "0x80070005" ∷ []

abbrev holds_any : List ℕ → List String → Bool
holds_any m [] = false
holds_any m (word ∷ words) = contains_codes m (codes word) || holds_any m words

-- `unicode.ToLower` of a character is a parameter.
unfoldable pub looks_gated : (ℕ → ℕ) → String → Bool
unfolding contains_codes
looks_gated to_lower msg = holds_any (map to_lower (codes msg)) gated_words

-- The collectors that `planCollectors` does not pass over.
abbrev pub is_eligible : ℕ → Session → Collector → Bool
is_eligible level s c =
    leb c.level level
    && not ((c.name =ˢ "appx_packages") && not s.include_appx)
    && not ((c.name =ˢ "processes") && not s.include_processes)

unfoldable pub plan_collectors : ℕ → Session → List Collector → List Collector
plan_collectors level s all = keep (is_eligible level s) all

-- `recs[:s.MaxListItems]`, where the records are more and the bound is positive.
unfoldable pub limited : Session → List (Option Record) → List (Option Record)
limited s recs =
    if ltb s.max_list_items (length recs) && ltb 0 s.max_list_items
    then take s.max_list_items recs
    else recs

abbrev pub is_none : List (Option Record) → Bool
is_none [] = true
is_none (r ∷ rs) = false

module _ (e : Encoder) (to_lower : ℕ → ℕ) (at : String) (s : Session) where
  -- The entry of a collection.
  unfoldable pub add_entity : Collector → Collected → Collected
  unfolding limited
  add_entity c w = record w {
    entities = insert c.name (build_entity e at (limited s c.records)) w.entities;
  }

  unfoldable pub add_error : Collector → String → Collected → Collected
  unfolding looks_gated
  add_error c message w = record w {
    errors =
        insert c.name
          (record {
            error = message;
            gated = looks_gated to_lower message;
            duration_ms = c.duration_ms;
          })
          w.errors;
  }

  abbrev pub emit : Event → Collected → Collected
  emit event w = record w { events = w.events ++ (event ∷ []) }

  -- One round of the loop, for the collector with index `i` of `total`.
  unfoldable pub run_one : ℕ → ℕ → Collector → Collected → Collected
  run_one i total c w = elim c.failure [
    | some message ↦
        let failed =
          emit (entity_event c.name c.level (i + 1) total false 0) (add_error c message w) in
        if is_none c.records then failed else add_entity c failed
    | none ↦
        emit (entity_event c.name c.level (i + 1) total true (length (limited s c.records)))
          (add_entity c w)
  ]

  unfoldable pub run_all : ℕ → ℕ → List Collector → Collected → Collected
  run_all i total [] w = w
  run_all i total (c ∷ cs) w = run_all (i + 1) total cs (run_one i total c w)

  unfoldable pub run_plan : List Collector → Collected
  unfolding run_all
  run_plan plan =
      run_all 0 (length plan) plan
        (record { entities = []; errors = []; events = plan_event (length plan) ∷ [] })

  -- `Run`
  unfoldable pub run : ℕ → List Collector → Collected
  run level all = run_plan (plan_collectors level s all)
