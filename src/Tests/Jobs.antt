-- ===== src/Tests/Jobs.antt =====
-- The execution of jobs and the client of the device protocol at concrete inputs.
use sopdet.Prelude.{
  ◌≢◌, inl, keep, ◌+◌, ◌*◌, ◌^◌, All, ◌≤◌, String, ◌<>◌, ◌≡◌, refl, true, false, none, some, List,
  [], ◌∷◌, arith, eq_iff, ◌=ˢ◌, if◌then◌else◌, length, ◌⊎◌,
}
use sopdet.Prelude.Decimal.{itoa}
use sopdet.Prelude.GoMap.{GoMap, keys, lookup, insert}
use sopdet.Agent.Runner.Stream.{
  stdout, stderr, LogEntry, take_budget, emit, flush, accept, add, Event, read, tick, step,
  run_events, finish, start,
}
use sopdet.Agent.Runner.Account.{logged, input}
use sopdet.Agent.Runner.Log.{logged-finish, length-logged}
use sopdet.Agent.Runner.Numbering.{seqs, upto, seqs-finish}
use sopdet.Agent.Client.Post.{
  File, EndpointError, logs_body, result_body, Reply, lost, response, World, Client, no_result,
  retries, exchange, wait_backoff, pause, decode_endpoint_error, judge, try_post, post, answered,
  endpoint, ResultPayload,
}
use sopdet.Agent.Client.Spool.{drop_spooled_for_job, is_json, drain_spool, Disk, spool, job_path}
use sopdet.Agent.Client.Calls.{
  Codec, done, error, fenced, ClaimedJob, keep_record, logs_record, post_logs, result_record,
  report_result, report_running,
}
use sopdet.Agent.Client.Retry.{IsAcked}
use sopdet.Agent.Runner.Calls.{calls, logged-calls}
use sopdet.Agent.Loop.Silence.{SendsOnly, IsProgress, process-SendsOnly}
use sopdet.Agent.Client.Report.{drained, report_result_durable}
use sopdet.Prelude.Sort.{sort_texts}
use sopdet.Agent.Client.Fence.{IsDropped, drop_spooled_for_job-IsDropped}
use sopdet.Agent.Client.Durable.{IsSpooled, post_logs_durable}
use sopdet.Agent.Loop.Defs.{
  exited, Execution, job_done, classify_exit, pumps_of, outcome_of, run, payload_of_outcome,
  verdict, process,
}
use sopdet.Agent.Hints.{
  device_job_available, Turn, Trace, capped, ws_backoff_base, compute_backoff, compute_backoff_lem,
}
use sopdet.Agent.Loop.Laws.{IsCleanExit, verdict_succeeded}

-- Two streams that interleave, with a buffer of three bytes.
abbrev events : List Event
events =
    read stdout (1 ∷ 2 ∷ []) ∷ read stderr (9 ∷ []) ∷ tick stderr ∷ read stdout (3 ∷ 4 ∷ []) ∷ []

not_cut : (finish events (start 10 3)).budget.truncated ≡ false
unfolding finish start run_events step add accept take_budget flush emit
not_cut = refl

logged-finish_example : logged stdout (finish events (start 10 3)).logs ≡ input stdout events
logged-finish_example = logged-finish stdout events 10 3 not_cut

length-logged_example :
    (length (logged stdout (finish events (start 4 3)).logs)
        + length (logged stderr (finish events (start 4 3)).logs)
      ≡ (finish events (start 4 3)).budget.observed)
    × ((finish events (start 4 3)).budget.observed ≤ 4)
length-logged_example = length-logged events 4 3

seqs-finish_example : seqs (finish events (start 4 3)).logs ≡ upto (finish events (start 4 3)).seq
seqs-finish_example = seqs-finish events 4 3

abbrev fence : EndpointError
fence = record { status = 0; code = "fence_violation"; message = "fenced"; retryable = false }

abbrev codec : Codec
codec = record {
  read_envelope = λ raw. if raw =ˢ "fence" then some fence else none;
  read_job = λ raw. none;
  read_heartbeat = λ raw. none;
  runes = λ s. [];
  is_control = λ r. false;
  of_runes = λ rs. "";
  duration_text = λ n. itoa n <> "s";
}

abbrev disk : Disk
disk = record { can_make_dir = true; can_write = true; can_remove = λ name. true }

abbrev client : Client
client = record {
  base_url = "https://bifrost.example";
  device_key = "k";
  spool_dir = "spool";
  session_id = "s";
  agent_version = "1";
  max_retries = 2;
}

-- The replies to come, with nothing sent so far.
abbrev world : List Reply → World
world replies = record {
  replies = replies;
  cuts = [];
  sent = [];
  received = [];
  waits = [];
  clocks = 7 ∷ [];
  spool_files = none;
}

abbrev entries : List LogEntry
entries = record { seq = 1; stream = stdout; text = 1 ∷ [] } ∷ []

abbrev flaky : World
flaky = world (lost ∷ response 503 0 "" ∷ response 200 2 "{}" ∷ [])

abbrev path : String
path = job_path "j" "logs"

flaky_answered :
    (post codec.read_envelope client no_result path (logs_body "t" entries) flaky).0
    ≡ answered 2 "{}"
unfolding post try_post exchange pause wait_backoff judge decode_endpoint_error
flaky_answered = refl

-- The network is down.
down_done : (post_logs codec disk client "j" "t" entries (world [])).0 ≡ done
unfolding post_logs keep_record spool post try_post exchange pause wait_backoff judge
    decode_endpoint_error lookup insert itoa
down_done = refl

post_logs_durable_example :
    IsAcked
      (record { path = job_path "j" "logs"; body = logs_body "t" entries })
      (retries client + 1)
      (world [])
      (post_logs codec disk client "j" "t" entries (world [])).1
    ⊎ IsSpooled
        (logs_record codec disk client "j" "t" entries)
        (post_logs codec disk client "j" "t" entries (world [])).1
post_logs_durable_example =
    post_logs_durable codec disk client "j" "t" entries (world [])
      (λ h. ground (arith, eq_iff "spool" "", h)) down_done

abbrev job : ClaimedJob
job = record {
  job_id = "j";
  script_content = "";
  timeout_seconds = 60;
  max_output_bytes = 100;
  claim_token = "t";
}

abbrev clean : Execution
clean = record {
  spawn_error = none;
  events = events;
  delays = λ n. record { first = false; late = true };
  wait = exited;
  deadline_exceeded = false;
  job_cancelled = false;
  serve_cancelled = false;
}

abbrev fine_world : World
fine_world = world (response 200 2 "{}" ∷ [])

accepted : (report_running codec disk client "j" "t" fine_world).0 ≡ done
unfolding report_running post try_post exchange pause wait_backoff judge decode_endpoint_error
accepted = refl

abbrev success : ResultPayload
success = record {
  claim_token = "";
  status = "succeeded";
  exit_code = none;
  truncated = false;
  error = "";
}

reported : verdict codec job clean (run codec disk client job clean fine_world).0 ≡ some success
unfolding verdict run payload_of_outcome outcome_of classify_exit pumps_of finish start run_events
    step add accept take_budget flush emit report_running post try_post exchange pause wait_backoff
    judge decode_endpoint_error
reported = refl

verdict_succeeded_example :
    (clean.spawn_error ≡ none)
    × ((report_running codec disk client job.job_id job.claim_token fine_world).0 ≡ done)
    × (clean.deadline_exceeded ≡ false)
    × (job_done clean ≡ false)
    × IsCleanExit clean.wait
verdict_succeeded_example =
    verdict_succeeded codec disk client job clean fine_world success reported refl

abbrev fenced_world : World
fenced_world = world (response 409 5 "fence" ∷ [])

fenced_report :
    (report_running codec disk client "j" "t" fenced_world).0
    ≡ error (fenced (endpoint (record fence { status = 409 })))
unfolding report_running post try_post exchange pause wait_backoff judge decode_endpoint_error
fenced_report = refl

process-SendsOnly_example :
    SendsOnly (IsProgress job) fenced_world (process codec disk client job clean fenced_world)
process-SendsOnly_example =
    process-SendsOnly codec disk client job clean fenced_world refl
      (inl (λ h. ground (arith, fenced_report, h)))

-- The first call of the log function is overtaken.
logged-calls_example :
    logged stdout
      (calls (λ n. record { first = false; late = true }) none (finish events (start 10 3)).logs)
    ≡ input stdout events
logged-calls_example =
    logged-calls (λ n. record { first = false; late = true }) stdout events 10 3 not_cut

overtaken :
    seqs (calls (λ n. record { first = false; late = true }) none (finish events (start 10 3)).logs)
    ≢ seqs (finish events (start 10 3)).logs
unfolding calls finish start run_events step add accept take_budget flush emit seqs
overtaken h = ground (arith, h)

abbrev turns : List Turn
turns =
    record { connection = none; jitter = 100; cancelled = false }
    ∷ record { connection = none; jitter = 0; cancelled = false }
    ∷ record { connection = some (device_job_available ∷ []); jitter = 500; cancelled = true }
    ∷ []

abbrev idle : Trace
idle = record { waits = []; wakes = 0 }

compute_backoff_lem_example : compute_backoff 3 7 ≡ capped (ws_backoff_base * 2 ^ 3) + 7
compute_backoff_lem_example = compute_backoff_lem 3 7

-- The network is down while the result is posted.
down_result : (report_result codec disk client "j" success (world [])).0 ≡ done
unfolding report_result drain_spool keep_record spool post try_post exchange pause wait_backoff
    judge decode_endpoint_error lookup insert itoa
down_result = refl

report_result_durable_example :
    IsAcked
      (record { path = job_path "j" "result"; body = result_body success })
      (retries client + 1)
      (drained codec disk client "j" success (world []))
      (report_result codec disk client "j" success (world [])).1
    ⊎ IsSpooled
        (result_record codec disk client "j" success)
        (report_result codec disk client "j" success (world [])).1
report_result_durable_example =
    report_result_durable codec disk client "j" success (world [])
      (λ h. ground (arith, eq_iff "spool" "", h)) down_result

-- A spool with a result of the job and logs of another one.
abbrev spooled : GoMap File
spooled =
    (
      "result-j-7.json",
      record { content = some (result_record codec disk client "j" success); mod_time = 7 },
    )
    ∷ (
      "logs-k-8.json",
      record { content = some (logs_record codec disk client "k" "t" entries); mod_time = 8 },
    )
    ∷ []

abbrev spooled_world : World
spooled_world = record (world []) { spool_files = some spooled }

drop_spooled_for_job-IsDropped_example :
    All
      (IsDropped "j" (drop_spooled_for_job disk client "j" spooled_world))
      (keep is_json (sort_texts (keys spooled)))
drop_spooled_for_job-IsDropped_example =
    drop_spooled_for_job-IsDropped disk "j" client spooled_world spooled
      (λ h. ground (arith, eq_iff "spool" "", h)) refl (λ name. refl)
