-- ===== src/Agent/Loop/Defs.antt =====
-- internal/agent/runner.go: what `Run` makes of its process, and internal/agent/loop.go: `process`,
-- `reportTerminal` and the claim loop `Run`.
use sopdet.Prelude.{
  ℕ, ◌*◌, ◌^◌, ◌⊎◌, inl, inr, String, ◌<>◌, Bool, true, false, ◌||◌, Option, none, some, List, [],
  ◌∷◌, ◌==◌, if◌then◌else◌,
}
use sopdet.Agent.Runner.Stream.{LogEntry, Pumps, Event, start, finish}
use sopdet.Agent.Runner.Calls.{Delay, calls}
use sopdet.Agent.Client.Post.{ExitCode, unobserved, exit_status, ResultPayload, World, Client}
use sopdet.Agent.Client.Spool.{Disk, sweep_spool}
use sopdet.Agent.Client.Calls.{
  CallError, done, error, ClaimedJob, Codec, claim, report_running, post_logs, report_result,
}

-- `RunOutcome` without its duration.
pub record RunOutcome : Type 0 where
  pub exit_code : ExitCode
  pub timed_out : Bool
  pub cancelled : Bool
  pub truncated : Bool
  pub bytes_observed : ℕ

-- How `cmd.Wait` ends: with no error, with the exit code of the process, or with another error.
pub data WaitResult : Type 0 where
  exited : WaitResult
  exit_error : ExitCode → WaitResult
  wait_error : WaitResult

-- What happens to a job outside of the program: the preparation of the script, the pipes or the spawn
-- fail with a message, or the process starts, what its pipes and the ticks do, the delays of the calls of the log
-- function, how it ends, whether the deadline of the run has passed by then, and whether the job's and the serve's context are cancelled.
pub record Execution : Type 0 where
  pub spawn_error : Option String
  pub events : List Event
  pub delays : ℕ → Delay
  pub wait : WaitResult
  pub deadline_exceeded : Bool
  pub job_cancelled : Bool
  pub serve_cancelled : Bool

-- The context of a job ends with the context of the serve loop.
abbrev pub job_done : Execution → Bool
job_done x = x.job_cancelled || x.serve_cancelled

-- The `switch` at the end of `Run`.
unfoldable pub classify_exit : Execution → RunOutcome → RunOutcome
classify_exit x o =
    if x.deadline_exceeded
    then record o { timed_out = true; exit_code = unobserved }
    else if job_done x
    then record o { cancelled = true; exit_code = unobserved }
    else elim x.wait [
      | exited ↦ record o { exit_code = exit_status 0 }
      | exit_error status ↦ record o { exit_code = status }
      | wait_error ↦ record o { exit_code = unobserved }
    ]

-- A number that is not positive is 0 here, and is replaced by its default.
abbrev pub or_default : ℕ → ℕ → ℕ
or_default n d = if n == 0 then d else n

abbrev default_batch_bytes : ℕ
default_batch_bytes = 32 * 1024

-- The errors of `Run`: the server has rejected the notification, or the script never started.
pub data RunError : Type 0 where
  running_rejected : CallError → RunError
  not_started : String → RunError

-- The log entries are handed to the log function one by one.
unfoldable pub post_entries : Codec → Disk → Client → ClaimedJob → List LogEntry → World → World
post_entries codec disk c job [] w = w
post_entries codec disk c job (e ∷ es) w =
    post_entries codec disk c job es
      (post_logs codec disk c job.job_id job.claim_token (e ∷ []) w).1

unfoldable pub pumps_of : ClaimedJob → Execution → Pumps
pumps_of job x =
    finish x.events (start (or_default job.max_output_bytes (2 ^ 20)) default_batch_bytes)

unfoldable pub outcome_of : ClaimedJob → Execution → RunOutcome
unfolding classify_exit
outcome_of job x =
    let p = pumps_of job x in
    classify_exit x (record {
      exit_code = exit_status 0;
      timed_out = false;
      cancelled = false;
      truncated = p.budget.truncated;
      bytes_observed = p.budget.observed;
    })

-- `Runner.Run` with the two functions that `process` gives it.
unfoldable pub run :
    Codec → Disk → Client → ClaimedJob → Execution → World → (RunOutcome ⊎ RunError) × World
run codec disk c job x w = elim x.spawn_error [
  | some why ↦ (inr (not_started why), w)
  | none ↦
      let (started, w1) = report_running codec disk c job.job_id job.claim_token w in
      elim started [
        | error e ↦ (inr (running_rejected e), w1)
        | done ↦ (
          inl (outcome_of job x),
          post_entries codec disk c job (calls x.delays none (pumps_of job x).logs) w1,
        )
      ]
]

abbrev pub plain_result : String → String → ResultPayload
plain_result status text = record {
  claim_token = "";
  status = status;
  exit_code = none;
  truncated = false;
  error = text;
}

-- `reportTerminal`; a refused report is only logged.
unfoldable pub report_terminal : Codec → Disk → Client → ClaimedJob → ResultPayload → World → World
report_terminal codec disk c job payload w =
    (report_result codec disk c job.job_id (record payload { claim_token = job.claim_token }) w).1

-- The payload of a run that ended by itself or by its timeout.
unfoldable pub payload_of_outcome : Codec → ClaimedJob → RunOutcome → ResultPayload
payload_of_outcome codec job o =
    let base = record (plain_result "" "") { truncated = o.truncated } in
    if o.timed_out
    then record base {
      status = "timeout";
      error = "killed after job timeout (" <> (codec.duration_text job.timeout_seconds <> ")");
    }
    else elim o.exit_code [
      | unobserved ↦ record base { status = "failed"; exit_code = some unobserved }
      | exit_status n ↦
          if n == 0
          then record base { status = "succeeded" }
          else record base { status = "failed"; exit_code = some (exit_status n) }
    ]

-- The terminal report that `process` makes of a run, none where the server owns the outcome.
unfoldable pub verdict :
    Codec → ClaimedJob → Execution → RunOutcome ⊎ RunError → Option ResultPayload
unfolding payload_of_outcome
verdict codec job x (inr (running_rejected e)) = none
verdict codec job x (inr (not_started why)) = some (plain_result "failed" why)
verdict codec job x (inl o) =
    if x.serve_cancelled
    then none
    else if x.job_cancelled
    then some (plain_result "cancelled" "cooperative cancel observed via heartbeat")
    else some (payload_of_outcome codec job o)

unfoldable pub process : Codec → Disk → Client → ClaimedJob → Execution → World → World
process codec disk c job x w =
    let (result, w1) = run codec disk c job x w in
    elim (verdict codec job x result) [
      | none ↦ w1
      | some payload ↦ report_terminal codec disk c job payload w1
    ]

-- One turn of the claim loop.
unfoldable pub claim_turn : Codec → Disk → Client → Execution → World → World
claim_turn codec disk c x w =
    let (claimed, w1) = claim codec disk c w in
    elim claimed [
      | inr e ↦ w1
      | inl o ↦ elim o [ none ↦ w1 | some job ↦ process codec disk c job x w1 ]
    ]

unfoldable pub claim_turns : Codec → Disk → Client → List Execution → World → World
claim_turns codec disk c [] w = w
claim_turns codec disk c (x ∷ xs) w = claim_turns codec disk c xs (claim_turn codec disk c x w)

-- `Serve.Run` with the heartbeats left out: the sweep, then one turn for each wake or poll until the
-- context is cancelled.
unfoldable pub serve : Codec → Disk → Client → List Execution → World → World
serve codec disk c xs w = claim_turns codec disk c xs (sweep_spool disk c w).1
