-- ===== src/Agent/Loop/Laws.antt =====
-- What a job's run reports.
use sopdet.Prelude.{zero, suc, ◌≡◌, ◌≢◌, refl, String, false, Option, none, some, arith, eq_iff}
use sopdet.Agent.Client.Post.{unobserved, exit_status, ResultPayload, World, Client}
use sopdet.Agent.Client.Spool.{Disk}
use sopdet.Agent.Client.Calls.{Done, done, error, ClaimedJob, Codec, report_running}
use sopdet.Agent.Loop.Defs.{
  WaitResult, exited, exit_error, wait_error, Execution, job_done, outcome_of, run,
  payload_of_outcome, verdict,
}

-- The process was waited for and its exit code was 0.
abbrev pub IsCleanExit : WaitResult → Type 0
IsCleanExit exited = Unit
IsCleanExit (exit_error e) = e ≡ exit_status 0
IsCleanExit wait_error = ⊥

not_timeout : ◌≢◌ {A = String} "timeout" "succeeded"
not_timeout h = ground (arith, eq_iff "timeout" "succeeded", h)

not_failed : ◌≢◌ {A = String} "failed" "succeeded"
not_failed h = ground (arith, eq_iff "failed" "succeeded", h)

not_cancelled : ◌≢◌ {A = String} "cancelled" "succeeded"
not_cancelled h = ground (arith, eq_iff "cancelled" "succeeded", h)

succeeded_outcome :
    (codec : Codec) (job : ClaimedJob) (x : Execution) (r : WaitResult)
    → x.wait ≡ r
    → (payload_of_outcome codec job (outcome_of job x)).status ≡ "succeeded"
    → (x.deadline_exceeded ≡ false) × (job_done x ≡ false) × IsCleanExit r
unfolding payload_of_outcome outcome_of
succeeded_outcome codec job x exited e h = ground (arith, e, h, not_timeout, not_failed)
succeeded_outcome codec job x (exit_error (exit_status zero)) e h =
    ground (arith, e, h, not_timeout, not_failed)
succeeded_outcome codec job x (exit_error (exit_status (suc n))) e h =
    ground (arith, e, h, not_timeout, not_failed)
succeeded_outcome codec job x (exit_error unobserved) e h =
    ground (arith, e, h, not_timeout, not_failed)
succeeded_outcome codec job x wait_error e h = ground (arith, e, h, not_timeout, not_failed)

-- `process` reports a job as succeeded only if the process was started, the server has accepted the report
-- of it, the deadline has not passed, neither context was cancelled, and the exit code is 0.
pub verdict_succeeded :
    (codec : Codec) (disk : Disk) (c : Client) (job : ClaimedJob) (x : Execution) (w : World)
    (p : ResultPayload)
    → verdict codec job x (run codec disk c job x w).0 ≡ some p
    → p.status ≡ "succeeded"
    → (x.spawn_error ≡ none)
      × ((report_running codec disk c job.job_id job.claim_token w).0 ≡ done)
      × (x.deadline_exceeded ≡ false)
      × (job_done x ≡ false)
      × IsCleanExit x.wait
unfolding run verdict
verdict_succeeded codec disk c job x w p h k =
    from x.spawn_error (report_running codec disk c job.job_id job.claim_token w).0 refl refl
  where
    from :
        (s : Option String) (d : Done)
        → x.spawn_error ≡ s
        → (report_running codec disk c job.job_id job.claim_token w).0 ≡ d
        → (x.spawn_error ≡ none)
          × ((report_running codec disk c job.job_id job.claim_token w).0 ≡ done)
          × (x.deadline_exceeded ≡ false)
          × (job_done x ≡ false)
          × IsCleanExit x.wait
    from (some why) d a b = absurd (ground (arith, a, h, k, not_failed))
    from none (error e) a b = absurd (ground (arith, a, b, h, k))
    from none done a b =
        let status : (payload_of_outcome codec job (outcome_of job x)).status ≡ "succeeded" =
          ground (arith, a, b, h, k, not_cancelled) in
        let (d, q, clean) = succeeded_outcome codec job x x.wait refl status in (a, b, d, q, clean)
