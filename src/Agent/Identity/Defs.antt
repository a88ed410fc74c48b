-- ===== src/Agent/Identity/Defs.antt =====
-- internal/agent/state.go, enroll.go and prepare.go. URL parsing, the server and the disk are parameters;
-- the text of a file stands for what `json.Unmarshal` makes of it. An error is named by a part of its
-- message; no error holds the key or the token.
use sopdet.Prelude.{
  ℕ, String, Bool, not, ◌&&◌, none, some, List, [], ◌∷◌, ◌++◌, ◌=ˢ◌, if◌then◌else◌,
}
use sopdet.Prelude.Outcome.{Outcome, ok, err}
use sopdet.Prelude.Text.{trim_right_slashes}
use sopdet.Net.{Net, is_loopback_host}
use sopdet.Agent.Key.{valid_device_key_format, parse_device_key_id}
use sopdet.Agent.ServeConfig.{ServeConfig}

pub record DeviceState : Type 0 where
  pub bifrost_url : String
  pub device_id : String
  pub device_key : String

abbrev pub zero_state : DeviceState
zero_state = record { bifrost_url = ""; device_id = ""; device_key = "" }

abbrev pub same_state : DeviceState → DeviceState → Bool
same_state a b =
    (a.bifrost_url =ˢ b.bifrost_url)
    && (a.device_id =ˢ b.device_id)
    && (a.device_key =ˢ b.device_key)

-- What is at the state path.
pub data Stored : Type 0 where
  missing : Stored
  unreadable : Stored
  garbled : Stored
  holds : DeviceState → Stored

-- Whether the directory can be made and a temporary file written, and whether the file can be put in
-- place.
pub record Disk : Type 0 where
  pub can_probe : Bool
  pub can_save : Bool

-- What the server answers to an enrollment; `device_id` and `device_key` of a body that is JSON.
pub data Reply : Type 0 where
  unreachable : Reply
  rejected : ℕ → Reply
  not_json : Reply
  enrolled : (device_id device_key status : String) → Reply

-- The state file, and the tokens that were sent.
pub record World : Type 0 where
  pub stored : Stored
  pub spent : List String

pub record Server : Type 0 where
  pub reply : (base_url token : String) → Reply
  -- `uuid.Parse`
  pub is_uuid : String → Bool

module _ (net : Net) where
  unfoldable pub validate_bifrost_url : String → Outcome (Unit {0})
  unfolding is_loopback_host trim_right_slashes
  validate_bifrost_url raw =
      if raw =ˢ ""
      then err "missing Bifrost URL"
      else elim (net.parse_request_uri (trim_right_slashes raw)) [
        | none ↦ err "invalid Bifrost URL"
        | some u ↦
            if not (u.scheme =ˢ "http") && not (u.scheme =ˢ "https")
            then err "invalid Bifrost URL scheme"
            else if u.host =ˢ ""
            then err "invalid Bifrost URL: missing host"
            else if (u.scheme =ˢ "http") && not (is_loopback_host net u.hostname)
            then err "refusing credential-bearing URL over plain http"
            else ok tt
      ]

unfoldable pub load_device_state : String → Stored → Outcome DeviceState
load_device_state path stored =
    if path =ˢ "" then err "missing device state path" else elim stored [
      | missing ↦ ok zero_state
      | unreadable ↦ err "read device state"
      | garbled ↦ err "parse device state"
      | holds s ↦ ok s
    ]

-- A save that fails leaves the old file: the new one is renamed into place at the end.
unfoldable pub save_device_state : Disk → String → DeviceState → World → Outcome (Unit {0}) × World
save_device_state disk path state w =
    if path =ˢ ""
    then (err "missing device state path", w)
    else if state.device_key =ˢ ""
    then (err "refusing to persist empty device key", w)
    else if disk.can_save
    then (ok tt, record w { stored = holds state })
    else (err "write device state", w)

unfoldable pub ensure_state_writable : Disk → String → Outcome (Unit {0})
ensure_state_writable disk path =
    if path =ˢ ""
    then err "missing device state path"
    else if disk.can_probe
    then ok tt
    else err "state dir not writable"

module _ (net : Net) (server : Server) where
  -- The checks of the response, in their order.
  unfoldable pub accept_reply : String → Reply → Outcome DeviceState
  accept_reply base_url unreachable = err "enroll request failed"
  accept_reply base_url (rejected status) = err "enroll rejected"
  accept_reply base_url not_json = err "enroll response is not valid JSON"
  accept_reply base_url (enrolled device_id device_key status) =
      if device_id =ˢ ""
      then err "enroll response missing device_id"
      else if not (server.is_uuid device_id)
      then err "enroll response device_id is not a UUID"
      else if not (valid_device_key_format device_key)
      then err "enroll response device_key has unexpected format"
      else elim (parse_device_key_id device_key) [
        | none ↦ err "enroll response device_key does not match device_id"
        | some key_id ↦
            if not (key_id =ˢ device_id)
            then err "enroll response device_key does not match device_id"
            else if not (status =ˢ "") && not (status =ˢ "active")
            then err "enroll landed in unexpected status"
            else ok (record {
              bifrost_url = trim_right_slashes base_url;
              device_id = device_id;
              device_key = device_key;
            })
      ]

  unfoldable pub enroll : String → String → World → Outcome DeviceState × World
  unfolding validate_bifrost_url accept_reply trim_right_slashes
  enroll base_url token w = elim (validate_bifrost_url net base_url) [
    | err e ↦ (err e, w)
    | ok _ ↦ if token =ˢ "" then (err "missing enrollment token", w) else (
      accept_reply base_url (server.reply base_url token),
      record w { spent = w.spent ++ (token ∷ []) },
    )
  ]

  module _ (disk : Disk) where
    unfoldable pub persist_if_changed : String → DeviceState → World → Outcome (Unit {0}) × World
    unfolding load_device_state save_device_state
    persist_if_changed path state w = elim (load_device_state path w.stored) [
      | ok existing ↦
          if same_state existing state then (ok tt, w) else save_device_state disk path state w
      | err e ↦ save_device_state disk path state w
    ]

    -- `cfg.DeviceKey != ""`
    unfoldable pub with_key : ServeConfig → String → World → Outcome DeviceState × World
    unfolding persist_if_changed
    with_key cfg base_url w = elim (parse_device_key_id cfg.device_key) [
      | none ↦ (err "device key has unexpected format", w)
      | some id ↦
          let state : DeviceState = record {
            bifrost_url = base_url;
            device_id = id;
            device_key = cfg.device_key;
          } in
          let (saved, w') = persist_if_changed cfg.state_path state w in
          elim saved [ err e ↦ (err e, w') | ok _ ↦ (ok state, w') ]
    ]

    -- `loadErr == nil && persisted.DeviceKey != ""`
    unfoldable pub with_persisted : DeviceState → String → World → Outcome DeviceState × World
    with_persisted persisted base_url w =
        if not (valid_device_key_format persisted.device_key)
        then (err "persisted device key has unexpected format", w)
        else if not (persisted.bifrost_url =ˢ "") && not (persisted.bifrost_url =ˢ base_url)
        then (err "persisted key belongs to a different Bifrost URL", w)
        else if persisted.bifrost_url =ˢ ""
        then (ok (record persisted { bifrost_url = base_url }), w)
        else (ok persisted, w)

    -- `cfg.EnrollmentToken != ""`
    unfoldable pub with_token : ServeConfig → String → World → Outcome DeviceState × World
    with_token cfg base_url w = elim (ensure_state_writable disk cfg.state_path) [
      | err e ↦ (err e, w)
      | ok _ ↦
          let (reply, w₁) = enroll base_url cfg.enrollment_token w in
          elim reply [
            | err e ↦ (err e, w₁)
            | ok state ↦
                let (saved, w₂) = save_device_state disk cfg.state_path state w₁ in
                elim saved [ err e ↦ (err e, w₂) | ok _ ↦ (ok state, w₂) ]
          ]
    ]

    -- What is left without a key and without a persisted one.
    unfoldable pub without_key :
        Outcome DeviceState → ServeConfig → String → World → Outcome DeviceState × World
    without_key loaded cfg base_url w =
        if not (cfg.enrollment_token =ˢ "") then with_token cfg base_url w else elim loaded [
          | err e ↦ (err e, w)
          | ok s ↦ (err "no device key, no persisted key and no enrollment token", w)
        ]

    unfoldable pub prepare_serve : ServeConfig → World → Outcome DeviceState × World
    prepare_serve cfg w = elim (validate_bifrost_url net cfg.bifrost_url) [
      | err e ↦ (err e, w)
      | ok _ ↦
          let base_url = trim_right_slashes cfg.bifrost_url in
          if not (cfg.device_key =ˢ "")
          then with_key cfg base_url w
          else elim (load_device_state cfg.state_path w.stored) [
            | err e ↦ without_key (err e) cfg base_url w
            | ok persisted ↦
                if not (persisted.device_key =ˢ "")
                then with_persisted persisted base_url w
                else without_key (ok persisted) cfg base_url w
          ]
    ]
