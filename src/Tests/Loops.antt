-- ===== src/Tests/Loops.antt =====
-- The claim loop beside the heartbeats at concrete inputs.
use sopdet.Prelude.{◌+◌, ◌≤◌, ◌≡◌, refl, some, true, false, [], ◌∷◌}
use sopdet.Agent.Loop.Cancel.{
  running, asking, Serve, start, hear, set_current, read_current, cancel_current, ask, take_job,
  begin, call, answer, obey, strike, Reach, here, next,
}
use sopdet.Agent.Loop.Race.{hit, cancelled, cancelled-Reach}
use sopdet.Agent.Loop.Turn.{cancel_strikes_later_job, shutdown_looks_cancelled}

abbrev stopped : Serve
stopped = cancel_current (some 0) (
    read_current true (
      hear true (record (set_current 0 (record start { phase = running 0 false; taken = 1 })) {
        beat = asking;
      })))

-- A job is claimed and cancelled while it runs.
stopped-Reach : Reach start stopped
unfolding read_current hear set_current cancel_current
stopped-Reach =
    next
      (next
        (next
          (next (next (next (next here (ask refl refl)) (take_job refl)) (begin 0 refl))
            (call refl refl))
          (answer true refl))
        (obey true refl))
      (strike (some 0) refl)

cancelled-Reach_example : cancelled stopped.finished ≤ stopped.flags + hit stopped.shut
cancelled-Reach_example = cancelled-Reach stopped-Reach

cancel_strikes_later_job_example :
    (t : Serve) × Reach start t
    × (t.phase ≡ running 0 false)
    × (t.beat ≡ asking)
    × ((u : Serve) × Reach (hear true t) u × (u.finished ≡ (1, true) ∷ (0, false) ∷ []))
cancel_strikes_later_job_example = cancel_strikes_later_job start refl refl refl

shutdown_looks_cancelled_example :
    (t : Serve) × Reach start t × (t.finished ≡ (0, true) ∷ []) × (t.flags ≡ 0)
shutdown_looks_cancelled_example = shutdown_looks_cancelled start refl refl
