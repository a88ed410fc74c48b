-- ===== src/Agent/Client/Post.antt =====
-- internal/agent/client.go: one request with its retries (`post`), and its errors. The network is the list
-- of what the coming exchanges answer. A wait is cut when the context is cancelled meanwhile.
use sopdet.Prelude.{
  ℕ, zero, suc, ◌+◌, ◌-◌, ◌*◌, ◌^◌, ◌⊎◌, inl, inr, String, ◌<>◌, Bool, true, false, not, ◌&&◌, ◌||◌,
  Option, none, some, List, [], ◌∷◌, ◌++◌, ltb, leb, ◌==◌, ◌=ˢ◌, if◌then◌else◌,
}
use sopdet.Prelude.Text.{trim_right_slashes}
use sopdet.Prelude.Decimal.{itoa}
use sopdet.Prelude.GoMap.{GoMap}
use sopdet.Agent.Runner.Stream.{LogEntry}

pub record EndpointError : Type 0 where
  pub status : ℕ
  pub code : String
  pub message : String
  pub retryable : Bool

-- The exit code of a process; `unobserved` is -1.
pub data ExitCode : Type 0 where
  unobserved : ExitCode
  exit_status : ℕ → ExitCode

-- Without the duration, and without the output, which is never set.
pub record ResultPayload : Type 0 where
  pub claim_token : String
  pub status : String
  pub exit_code : Option ExitCode
  pub truncated : Bool
  pub error : String

-- The JSON bodies that the client sends.
pub data Body : Type 0 where
  session_body : String → Body
  heartbeat_body : String → Option String → Body
  running_body : String → String → Body
  logs_body : String → List LogEntry → Body
  result_body : ResultPayload → Body

pub record SpoolRecord : Type 0 where
  pub kind : String
  pub job_id : String
  pub claim_token : String
  -- None where the payload is not a JSON object.
  pub payload : Option Body

-- A file of the spool: what encoding/json reads of it (none for a corrupt one), and its modification time.
pub record File : Type 0 where
  pub content : Option SpoolRecord
  pub mod_time : ℕ

-- A transport error, a response of a status with a body that breaks off, or a response with its status, the number of
-- its bytes and its text.
pub data Reply : Type 0 where
  lost : Reply
  broken : ℕ → Reply
  response : ℕ → ℕ → String → Reply

pub record Request : Type 0 where
  pub path : String
  pub body : Body

-- The replies to come (the network stays down after the last), whether the context cuts each wait to
-- come (not after the last), the requests that were sent, those that were answered with a 2xx status (one
-- whose answer is lost may have been received too), the waits in milliseconds without jitter, the clock
-- readings to come, and the spool directory if it exists.
pub record World : Type 0 where
  pub replies : List Reply
  pub cuts : List Bool
  pub sent : List Request
  pub received : List Request
  pub waits : List ℕ
  pub clocks : List ℕ
  pub spool_files : Option (GoMap File)

pub data Failure : Type 0 where
  transport unreadable truncated decoding cancelled : Failure
  endpoint : EndpointError → Failure

-- The number of bytes and the text of a response, or why there is none.
pub data Answer : Type 0 where
  answered : ℕ → String → Answer
  failed : Failure → Answer

-- A number of retries that is not positive is 0 here.
pub record Client : Type 0 where
  pub base_url : String
  pub device_key : String
  pub spool_dir : String
  pub session_id : String
  pub agent_version : String
  pub max_retries : ℕ

abbrev default_max_retries : ℕ
default_max_retries = 4

abbrev pub max_response_bytes : ℕ
max_response_bytes = 512 * 2 ^ 10

abbrev new_client : String → String → String → String → Client
new_client base_url device_key spool_dir session = record {
  base_url = trim_right_slashes base_url;
  device_key = device_key;
  spool_dir = spool_dir;
  session_id = session;
  agent_version = "";
  max_retries = default_max_retries;
}

abbrev pub retries : Client → ℕ
retries c = if c.max_retries == 0 then default_max_retries else c.max_retries

abbrev pub is_success : ℕ → Bool
is_success status = leb 200 status && ltb status 300

-- The responses that are tried again.
abbrev pub is_transient : ℕ → Bool
is_transient status = (status == 408) || leb 500 status

abbrev pub reply_accepted : Reply → Bool
reply_accepted lost = false
reply_accepted (broken status) = is_success status
reply_accepted (response status size raw) = is_success status

-- `Do(req)`.
unfoldable pub exchange : Request → World → Reply × World
exchange r w = elim w.replies [
  | [] ↦ (lost, record w { sent = w.sent ++ (r ∷ []) })
  | a ∷ rest ↦ (
    a,
    record w {
      replies = rest;
      sent = w.sent ++ (r ∷ []);
      received = if reply_accepted a then w.received ++ (r ∷ []) else w.received;
    },
  )
]

-- `waitBackoff`: false when the context was cancelled.
unfoldable pub wait_backoff : ℕ → World → Bool × World
wait_backoff ms w = elim w.cuts [
  | [] ↦ (true, record w { waits = w.waits ++ (ms ∷ []) })
  | cut ∷ rest ↦ (not cut, record w { cuts = rest; waits = w.waits ++ (ms ∷ []) })
]

-- The wait before attempt `a`, none before the first.
unfoldable pub pause : ℕ → World → Bool × World
pause a w = if a == 0 then (true, w) else wait_backoff (2 ^ (a - 1) * 500) w

-- The parameters: what encoding/json makes of an error envelope (its status is set by the caller).
module _ (read_envelope : String → Option EndpointError) where
  unfoldable pub decode_endpoint_error : ℕ → String → EndpointError
  decode_endpoint_error status raw =
      let plain : EndpointError = record {
        status = status;
        code = "http_error";
        message = "unexpected HTTP " <> itoa status;
        retryable = false;
      } in
      elim (read_envelope raw) [
        | none ↦ plain
        | some e ↦ if e.code =ˢ "" then plain else record e { status = status }
      ]

  -- What a reply decides: the answer of `post`, or (on the right) the error that is kept while another
  -- attempt is made. `decodes` says whether encoding/json reads the text into the caller's result.
  unfoldable pub judge : (String → Bool) → Reply → Answer ⊎ Failure
  judge decodes lost = inr transport
  judge decodes (broken status) = inr unreadable
  judge decodes (response status size raw) =
      if ltb max_response_bytes size
      then inl (failed truncated)
      else if is_success status
      then (if ltb 0 size && not (decodes raw)
          then inl (failed decoding)
          else inl (answered size raw))
      else if is_transient status
      then inr (endpoint (decode_endpoint_error status raw))
      else inl (failed (endpoint (decode_endpoint_error status raw)))

  -- The loop of `post`: `left` attempts remain, `a` were made, and `last` is the last error.
  unfoldable pub try_post : (String → Bool) → Request → ℕ → ℕ → Failure → World → Answer × World
  try_post decodes r zero a last w = (failed last, w)
  try_post decodes r (suc left) a last w =
      let (go, w1) = pause a w in
      elim go [
        | false ↦ (failed cancelled, w1)
        | true ↦
            let (reply, w2) = exchange r w1 in
            elim (judge decodes reply) [
              | inl answer ↦ (answer, w2)
              | inr e ↦ try_post decodes r left (a + 1) e w2
            ]
      ]

  unfoldable pub post : Client → (String → Bool) → String → Body → World → Answer × World
  post c decodes path body w =
      try_post decodes (record { path = path; body = body }) (retries c + 1) 0 transport w

abbrev pub is_fenced : Failure → Bool
is_fenced (endpoint e) = (e.code =ˢ "fence_violation") || (e.code =ˢ "job_terminal")
is_fenced transport = false
is_fenced unreadable = false
is_fenced truncated = false
is_fenced decoding = false
is_fenced cancelled = false

-- `errors.As(err, &epErr) && !epErr.Retryable && epErr.Status < 500`
abbrev pub is_permanent : Failure → Bool
is_permanent (endpoint e) = not e.retryable && ltb e.status 500
is_permanent transport = false
is_permanent unreadable = false
is_permanent truncated = false
is_permanent decoding = false
is_permanent cancelled = false

-- A decoder for the calls that read no result.
abbrev pub no_result : String → Bool
no_result raw = true
