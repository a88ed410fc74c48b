-- ===== src/Agent/Runner/Stream.antt =====
-- internal/agent/runner.go: the two output streams of a job, with one byte budget and one sequence
-- counter. Every method holds the lock of what it changes, so a run is a sequence of calls in any order;
-- the log is in the order of the sequence numbers, and Calls has the order in which the log function gets its entries.
-- A byte is a number.
use sopdet.Prelude.{
  ℕ, ◌+◌, ◌-◌, Bool, true, false, List, [], ◌∷◌, ◌++◌, ltb, leb, if◌then◌else◌, length, take,
}

pub data Stream : Type 0 where
  stdout stderr : Stream

abbrev pub Bytes : Type 0
Bytes = List ℕ

pub record LogEntry : Type 0 where
  pub seq : ℕ
  pub stream : Stream
  pub text : Bytes

pub record OutputBudget : Type 0 where
  pub max : ℕ
  pub observed : ℕ
  pub truncated : Bool

-- The allowed prefix of a chunk, and the budget after it.
unfoldable pub take_budget : OutputBudget → Bytes → Bytes × OutputBudget
take_budget b chunk =
    if leb b.max b.observed
    then ([], record b { truncated = true })
    else let room = b.max - b.observed in
      if ltb room (length chunk)
      then (take room chunk, record b { observed = b.max; truncated = true })
      else (chunk, record b { observed = b.observed + length chunk })

-- The state that the pumps share, with the pending bytes of each, the entries that were emitted, and
-- whether there is a log function.
pub record Pumps : Type 0 where
  pub seq : ℕ
  pub budget : OutputBudget
  pub out_pending : Bytes
  pub err_pending : Bytes
  pub logs : List LogEntry
  pub max_buf : ℕ
  pub on_logs : Bool

abbrev pub pending : Stream → Pumps → Bytes
pending stdout p = p.out_pending
pending stderr p = p.err_pending

abbrev pub set_pending : Stream → Bytes → Pumps → Pumps
set_pending stdout bytes p = record p { out_pending = bytes }
set_pending stderr bytes p = record p { err_pending = bytes }

abbrev pub is_empty {ℓ} : {A : Type ℓ} → List A → Bool
is_empty [] = true
is_empty (x ∷ xs) = false

unfoldable pub emit : Stream → Bytes → Pumps → Pumps
emit stream text p =
    if is_empty text
    then p
    else if p.on_logs
    then record p {
      seq = p.seq + 1;
      logs = p.logs ++ (record { seq = p.seq + 1; stream = stream; text = text } ∷ []);
    }
    else p

-- `flush`, also `flushLocked`.
unfoldable pub flush : Stream → Pumps → Pumps
unfolding emit
flush stream p =
    if is_empty (pending stream p)
    then p
    else emit stream (pending stream p) (set_pending stream [] p)

-- What `add` does before its test of the size.
unfoldable pub accept : Stream → Bytes → Pumps → Pumps
accept stream chunk p =
    let (allowed, budget) = take_budget p.budget chunk in
    let p' = record p { budget = budget } in
    if is_empty allowed then p' else set_pending stream (pending stream p ++ allowed) p'

unfoldable pub add : Stream → Bytes → Pumps → Pumps
add stream chunk p =
    let p' = accept stream chunk p in
    if leb p'.max_buf (length (pending stream p')) then flush stream p' else p'

-- What happens to the pumps: a read of the reader, or a tick of the interval.
pub data Event : Type 0 where
  read : Stream → Bytes → Event
  tick : Stream → Event

unfoldable pub step : Event → Pumps → Pumps
step (read stream chunk) p = add stream chunk p
step (tick stream) p = flush stream p

unfoldable pub run_events : List Event → Pumps → Pumps
run_events [] p = p
run_events (e ∷ es) p = run_events es (step e p)

-- The end of `Run`: both pumps are flushed.
unfoldable pub finish : List Event → Pumps → Pumps
finish es p = flush stderr (flush stdout (run_events es p))

unfoldable pub start : ℕ → ℕ → Pumps
start max_output max_buf = record {
  seq = 0;
  budget = record { max = max_output; observed = 0; truncated = false };
  out_pending = [];
  err_pending = [];
  logs = [];
  max_buf = max_buf;
  on_logs = true;
}
