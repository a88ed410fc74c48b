-- ===== src/Agent/Loop/Cancel.antt =====
-- internal/agent/loop.go: the claim loop and the heartbeat goroutine side by side, with the cancel function that
-- they share and the context of the serve loop (`Run`, `setCurrent`, `clearCurrent`, `cancelCurrent`, `heartbeatLoop`, the
-- frame of `process`). A request to the server is answered at any later step or never.
use sopdet.Prelude.{
  ℕ, suc, ◌+◌, ◌≡◌, Bool, true, false, Option, none, some, List, [], ◌∷◌, ◌==◌, if◌then◌else◌,
}

-- Where the claim loop stands: it waits, it has called `Claim`, that has returned a job, the job runs in a context that
-- is cancelled or not, the run is over and the context of the serve loop was not cancelled when it was read then, the
-- job is left, reported as cancelled or not, or the loop has returned.
pub data Phase : Type 0 where
  idle : Phase
  claiming : Phase
  claimed : ℕ → Phase
  running : ℕ → Bool → Phase
  checked : ℕ → Bool → Phase
  leaving : ℕ → Bool → Phase
  ended : Phase

-- Where the heartbeat goroutine stands: between ticks, in `Heartbeat`, after an answer, with its `CancelRequested`, or in
-- `cancelCurrent` with the cancel function that it has read there.
pub data Beat : Type 0 where
  waiting : Beat
  asking : Beat
  answered : Bool → Beat
  holding : Option ℕ → Beat

-- `current` names the job whose cancel function is in `curCancel`, and `shut` says whether the context of the serve loop
-- is cancelled; a job is named by the number of claims before its own. The last three are no state of the program: the
-- number of claims, the jobs with whether they were reported as cancelled, and the number of answers with
-- `CancelRequested`.
pub record Serve : Type 0 where
  pub current : Option ℕ
  pub shut : Bool
  pub phase : Phase
  pub beat : Beat
  pub taken : ℕ
  pub finished : List (ℕ × Bool)
  pub flags : ℕ

abbrev pub start : Serve
start = record {
  current = none;
  shut = false;
  phase = idle;
  beat = waiting;
  taken = 0;
  finished = [];
  flags = 0;
}

-- A cancel function cancels the context of its own job, as long as that context is read later.
abbrev pub cancel_job : ℕ → Phase → Phase
cancel_job j idle = idle
cancel_job j claiming = claiming
cancel_job j (claimed k) = claimed k
cancel_job j (running k c) = running k (if j == k then true else c)
cancel_job j (checked k c) = checked k (if j == k then true else c)
cancel_job j (leaving k c) = leaving k c
cancel_job j ended = ended

-- The context of a job is a child of that of the serve loop, and ends with it.
abbrev pub cancel_child : Phase → Phase
cancel_child idle = idle
cancel_child claiming = claiming
cancel_child (claimed k) = claimed k
cancel_child (running k c) = running k true
cancel_child (checked k c) = checked k true
cancel_child (leaving k c) = leaving k c
cancel_child ended = ended

unfoldable pub set_current : ℕ → Serve → Serve
set_current j s = record s { current = some j }

unfoldable pub clear_current : Serve → Serve
clear_current s = record s { current = none }

-- The first half of `cancelCurrent`, under the lock, if the answer asks for it.
unfoldable pub read_current : Bool → Serve → Serve
read_current flag s = record s { beat = holding (if flag then s.current else none) }

-- The second half, without the lock: `cancel()`.
unfoldable pub cancel_current : Option ℕ → Serve → Serve
cancel_current none s = record s { beat = waiting }
cancel_current (some j) s = record s { phase = cancel_job j s.phase; beat = waiting }

-- The answer to a heartbeat arrives.
unfoldable pub hear : Bool → Serve → Serve
hear flag s = record s { beat = answered flag; flags = if flag then 1 + s.flags else s.flags }

-- The context of the serve loop is cancelled.
unfoldable pub shut_down : Serve → Serve
shut_down s = record s { shut = true; phase = cancel_child s.phase }

-- One step of one of the two goroutines, or the shutdown. The phase and the beat of a state are indices of the step they
-- allow. `fail` is a run that returns an error, after which the job is reported as failed or not at all; `abandon` and
-- `pass` are the two ways out of the test of the serve context, and `decide` is the test of the job's context.
pub data Step : Serve → Serve → Type 0 where
  ask : {s : Serve} → s.phase ≡ idle → s.shut ≡ false → Step s (record s { phase = claiming })
  no_job : {s : Serve} → s.phase ≡ claiming → Step s (record s { phase = idle })
  take_job :
      {s : Serve}
      → s.phase ≡ claiming
      → Step s (record s { phase = claimed s.taken; taken = suc s.taken })
  begin :
      {s : Serve} (j : ℕ)
      → s.phase ≡ claimed j
      → Step s (set_current j (record s { phase = running j s.shut }))
  fail :
      {s : Serve} (j : ℕ) (c : Bool)
      → s.phase ≡ running j c
      → Step s (record s { phase = leaving j false })
  abandon :
      {s : Serve} (j : ℕ) (c : Bool)
      → s.phase ≡ running j c
      → s.shut ≡ true
      → Step s (record s { phase = leaving j false })
  pass :
      {s : Serve} (j : ℕ) (c : Bool)
      → s.phase ≡ running j c
      → s.shut ≡ false
      → Step s (record s { phase = checked j c })
  decide :
      {s : Serve} (j : ℕ) (c : Bool)
      → s.phase ≡ checked j c
      → Step s (record s { phase = leaving j c })
  settle :
      {s : Serve} (j : ℕ) (c : Bool)
      → s.phase ≡ leaving j c
      → Step s (clear_current (record s { phase = idle; finished = (j, c) ∷ s.finished }))
  quit : {s : Serve} → s.phase ≡ idle → s.shut ≡ true → Step s (record s { phase = ended })
  call : {s : Serve} → s.beat ≡ waiting → s.shut ≡ false → Step s (record s { beat = asking })
  miss : {s : Serve} → s.beat ≡ asking → Step s (record s { beat = waiting })
  answer : {s : Serve} (flag : Bool) → s.beat ≡ asking → Step s (hear flag s)
  obey : {s : Serve} (flag : Bool) → s.beat ≡ answered flag → Step s (read_current flag s)
  strike : {s : Serve} (o : Option ℕ) → s.beat ≡ holding o → Step s (cancel_current o s)
  shutdown : {s : Serve} → s.shut ≡ false → Step s (shut_down s)

pub data Reach (s : Serve) : Serve → Type 0 where
  here : Reach s s
  next : {t u : Serve} → Reach s t → Step t u → Reach s u
