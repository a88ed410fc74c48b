-- ===== src/Agent/Loop/Turn.antt =====
-- Runs of the two goroutines that exist.
use mathlib.Core.Path.{subst}
use sopdet.Prelude.{ℕ, suc, none, some, ◌≡◌, refl, Bool, true, false, ◌∷◌, arith}
use sopdet.Agent.Loop.Cancel.{
  Step, claimed, idle, running, waiting, asking, Serve, cancel_job, set_current, clear_current,
  cancel_current, hear, read_current, shut_down, ask, take_job, begin, pass, decide, settle, call,
  obey, strike, shutdown, Reach, here, next,
}

struck : (b : ℕ) → cancel_job b (running b false) ≡ running b true
struck b = ground arith

begin_up :
    {s : Serve} (j : ℕ)
    → s.phase ≡ claimed j
    → s.shut ≡ false
    → Step s (set_current j (record s { phase = running j false }))
begin_up {s} j p up =
    subst (λ b. Step s (set_current j (record s { phase = running j b }))) up (begin j p)

-- The claim loop takes the next job.
next_job :
    {r s : Serve}
    → Reach r s
    → s.phase ≡ idle
    → s.shut ≡ false
    → Reach r
        (record s { phase = running s.taken false; taken = suc s.taken; current = some s.taken })
unfolding set_current
next_job {r} {s} to_s p up =
    next (next (next to_s (ask p up)) (take_job refl)) (begin_up s.taken refl up)

-- The run of a job is over before the shutdown, and nothing happens to its context meanwhile.
end_job :
    {r s : Serve} (j : ℕ) (c : Bool)
    → Reach r s
    → s.phase ≡ running j c
    → s.shut ≡ false
    → Reach r (record s { phase = idle; current = none; finished = (j, c) ∷ s.finished })
unfolding clear_current
end_job j c to_s p up = next (next (next to_s (pass j c p up)) (decide j c refl)) (settle j c refl)

-- From every state before the shutdown in which both goroutines are free, the next job can run, and while it does, an
-- answer with `CancelRequested` can arrive after which this job is settled as not cancelled, and the job after it as
-- cancelled.
pub cancel_strikes_later_job :
    (s : Serve)
    → s.phase ≡ idle
    → s.beat ≡ waiting
    → s.shut ≡ false
    → (t : Serve) × Reach s t
      × (t.phase ≡ running s.taken false)
      × (t.beat ≡ asking)
      × ((u : Serve) × Reach (hear true t) u
          × (u.finished ≡ (suc s.taken, true) ∷ (s.taken, false) ∷ s.finished))
unfolding set_current clear_current hear read_current cancel_current
cancel_strikes_later_job s p q up = (
  _,
  next (next_job here p up) (call q up),
  refl,
  refl,
  (
    _,
    end_job (suc s.taken) true
        (next (next (next_job (end_job s.taken false here refl up) refl up) (obey true refl))
          (strike (some (suc s.taken)) refl))
        (struck (suc s.taken)) up,
    refl,
  ),
)

-- From every state before the shutdown in which the claim loop is free, the next job can be settled as cancelled although
-- no heartbeat was answered: the context of the serve loop is cancelled between the two tests behind the run.
pub shutdown_looks_cancelled :
    (s : Serve)
    → s.phase ≡ idle
    → s.shut ≡ false
    → (t : Serve) × Reach s t × (t.finished ≡ (s.taken, true) ∷ s.finished) × (t.flags ≡ s.flags)
unfolding shut_down clear_current
shutdown_looks_cancelled s p up = (
  _,
  next
      (next (next (next (next_job here p up) (pass s.taken false refl up)) (shutdown up))
        (decide s.taken true refl))
      (settle s.taken true refl),
  refl,
  refl,
)
