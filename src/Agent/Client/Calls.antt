-- ===== src/Agent/Client/Calls.antt =====
-- internal/agent/client.go: the calls of the device protocol.
use sopdet.Prelude.{
  ℕ, ◌⊎◌, inl, inr, String, Bool, false, not, Option, none, some, List, keep, take, ◌==◌, ◌=ˢ◌,
  if◌then◌else◌, is_some,
}
use sopdet.Prelude.Outcome.{ok, err}
use sopdet.Agent.Runner.Stream.{LogEntry}
use sopdet.Agent.Client.Post.{
  EndpointError, session_body, heartbeat_body, running_body, logs_body, result_body, ResultPayload,
  SpoolRecord, World, Failure, answered, failed, Client, post, is_fenced, is_permanent, no_result,
}
use sopdet.Agent.Client.Spool.{Disk, spool, drop_spooled_for_job, drain_spool, job_path}

-- The error of a call: the server owns the outcome, another failure of the request, or a spool that
-- failed after it.
pub data CallError : Type 0 where
  fenced refused : Failure → CallError
  unspooled : Failure → CallError

-- `fencedOr`
abbrev fenced_or : Failure → CallError
fenced_or e = if is_fenced e then fenced e else refused e

pub data Done : Type 0 where
  done : Done
  error : CallError → Done

-- The fields that the agent reads.
pub record ClaimedJob : Type 0 where
  pub job_id : String
  pub script_content : String
  pub timeout_seconds : ℕ
  pub max_output_bytes : ℕ
  pub claim_token : String

pub record HeartbeatStatus : Type 0 where
  pub poll_interval_seconds : ℕ
  pub cancel_requested : Bool

-- What encoding/json and the unicode package make of a text: an error envelope, a claimed job, a
-- heartbeat, the runes of a text, which of them are control characters, and back, and how the
-- time package prints a number of seconds.
pub record Codec : Type 0 where
  pub read_envelope : String → Option EndpointError
  pub read_job : String → Option ClaimedJob
  pub read_heartbeat : String → Option HeartbeatStatus
  pub runes : String → List ℕ
  pub is_control : ℕ → Bool
  pub of_runes : List ℕ → String
  pub duration_text : ℕ → String

abbrev agent_version_column_width : ℕ
agent_version_column_width = 64

abbrev printable : Codec → ℕ → Bool
printable codec r = not (codec.is_control r)

unfoldable sanitize_agent_version : Codec → String → String
sanitize_agent_version codec v =
    if v =ˢ ""
    then ""
    else codec.of_runes (take agent_version_column_width (keep (printable codec) (codec.runes v)))

module _ (codec : Codec) (disk : Disk) (c : Client) where
  -- None stands for every error.
  unfoldable heartbeat : World → Option HeartbeatStatus × World
  heartbeat w =
      let v = sanitize_agent_version codec c.agent_version in
      let body = heartbeat_body c.session_id (if v =ˢ "" then none else some v) in
      let (answer, w1) =
        post codec.read_envelope c (λ raw. is_some (codec.read_heartbeat raw))
          "/api/device/heartbeat" body w in
      let zero_status : HeartbeatStatus = record {
        poll_interval_seconds = 0;
        cancel_requested = false;
      } in
      elim answer [
        | failed e ↦ (none, w1)
        | answered size raw ↦ (if size == 0 then some zero_status else codec.read_heartbeat raw, w1)
      ]

  -- None within the sum: the server has no work.
  unfoldable pub claim : World → (Option ClaimedJob ⊎ CallError) × World
  claim w =
      let (answer, w1) =
        post codec.read_envelope c (λ raw. is_some (codec.read_job raw)) "/api/device/jobs/claim"
          (session_body c.session_id) w in
      elim answer [
        | failed e ↦ (inr (fenced_or e), w1)
        | answered size raw ↦ if size == 0 then (inl none, w1) else elim (codec.read_job raw) [
          | none ↦ (inl none, w1)
          | some job ↦ (if job.job_id =ˢ "" then inl none else inl (some job), w1)
        ]
      ]

  unfoldable pub report_running : String → String → World → Done × World
  report_running job token w =
      let (answer, w1) =
        post codec.read_envelope c no_result (job_path job "running")
          (running_body token c.session_id) w in
      elim answer [ answered size raw ↦ (done, w1) | failed e ↦ (error (fenced_or e), w1) ]

  abbrev pub logs_record : String → String → List LogEntry → SpoolRecord
  logs_record job token entries = record {
    kind = "logs";
    job_id = job;
    claim_token = token;
    payload = some (logs_body token entries);
  }

  abbrev pub result_record : String → ResultPayload → SpoolRecord
  result_record job result = record {
    kind = "result";
    job_id = job;
    claim_token = result.claim_token;
    payload = some (result_body result);
  }

  -- A record that could not be sent is kept on the disk.
  unfoldable pub keep_record : SpoolRecord → Failure → World → Done × World
  keep_record rec e w =
      let (kept, w1) = spool disk c rec w in
      elim kept [ ok u ↦ (done, w1) | err why ↦ (error (unspooled e), w1) ]

  unfoldable pub post_logs : String → String → List LogEntry → World → Done × World
  post_logs job token entries w =
      let (answer, w1) =
        post codec.read_envelope c no_result (job_path job "logs") (logs_body token entries) w in
      elim answer [
        | answered size raw ↦ (done, w1)
        | failed e ↦
            if is_permanent e
            then (error (fenced_or e), w1)
            else keep_record (logs_record job token entries) e w1
      ]

  unfoldable pub report_result : String → ResultPayload → World → Done × World
  report_result job result w =
      let w0 = if c.spool_dir =ˢ "" then w else (drain_spool codec.read_envelope disk c w).1 in
      let (answer, w1) =
        post codec.read_envelope c no_result (job_path job "result") (result_body result) w0 in
      elim answer [
        | answered size raw ↦ (done, w1)
        | failed e ↦
            if is_fenced e
            then (error (fenced e), drop_spooled_for_job disk c job w1)
            else if is_permanent e
            then (error (refused e), w1)
            else keep_record (result_record job result) e w1
      ]
