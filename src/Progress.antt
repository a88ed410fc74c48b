-- ===== src/Progress.antt =====
-- internal/progress/progress.go: the events of a run and what becomes of one. A sink is what it does to the world.
use sopdet.Prelude.{ℕ, String, Bool, Option, none, some, List, [], ◌∷◌, ◌==◌, if◌then◌else◌}
use sopdet.Prelude.GoMap.{GoMap}
use sopdet.Schema.Types.{Value}

pub record Event : Type 0 where
  pub ts : ℕ
  pub kind : String
  pub stage : String
  pub entity : String
  pub level : ℕ
  pub ok : Option Bool
  pub count : ℕ
  pub ms : ℕ
  pub index : ℕ
  pub total : ℕ
  pub message : String
  pub payload : GoMap Value

module _ {ℓ} (World : Type ℓ) where
  abbrev pub Sink : Type ℓ
  Sink = Event → World → World

  -- `Emit` of a reporter, none for a nil reporter or a nil function, at a reading of the clock.
  unfoldable pub emit : ℕ → Option Sink → Event → World → World
  emit now none e w = w
  emit now (some fn) e w = fn (if e.ts == 0 then record e { ts = now } else e) w

  -- The function of `Multi`: every sink that is not nil gets the event.
  unfoldable pub multi : List (Option Sink) → Sink
  multi [] e w = w
  multi (none ∷ sinks) e w = multi sinks e w
  multi (some sink ∷ sinks) e w = multi sinks e (sink e w)
