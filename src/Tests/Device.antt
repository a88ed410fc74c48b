-- ===== src/Tests/Device.antt =====
-- The configuration and the identity of a device at concrete inputs.
use sopdet.Prelude.{
  ◌<>◌, ℕ, String, ◌≡◌, refl, ap, true, false, Option, none, some, [], ◌∷◌, arith, eq_iff, ◌=ˢ◌,
  if◌then◌else◌, inl, inr,
}
use sopdet.Prelude.Text.{trim_right_slashes}
use sopdet.Prelude.Outcome.{Outcome, ok}
use sopdet.Net.{Net}
use sopdet.Config.{Config, defaults, apply_defaults, Read, content, load}
use sopdet.Agent.Key.{valid_device_key_format, parse_device_key_id}
use sopdet.Agent.Socket.{Addresses, new_ws_hint_client}
use sopdet.Agent.ServeConfig.{ServeConfig, resolve, Precedence, resolve-Precedence}
use sopdet.Agent.Identity.Defs.{
  DeviceState, missing as no_file, holds, Disk, enrolled, World, Server, validate_bifrost_url,
  load_device_state, save_device_state, ensure_state_writable, accept_reply, enroll, with_token,
  without_key, prepare_serve,
}
use sopdet.Agent.Identity.Laws.{
  IsPrepared, MustNotEnroll, prepare_serve-IsPrepared, prepare_serve_keeps_token,
}
use sopdet.Agent.Identity.Restart.{prepare_serve_again}

abbrev uuid : String
uuid = "01234567-89ab-cdef-0123-456789abcdef"

abbrev key : String
key = "bfdk_01234567-89ab-cdef-0123-456789abcdef_0123456789012345678901234567890123456789abc"

key_valid : valid_device_key_format key ≡ true
unfolding valid_device_key_format
key_valid = refl

key_id : parse_device_key_id key ≡ some uuid
unfolding parse_device_key_id
key_id = refl

-- A library that reads every address as one of https, and prints what follows the scheme.
abbrev addresses : Addresses String
addresses = record {
  parse = λ s. ok (record { scheme = "https"; path = ""; raw_query = "token=1"; others = s });
  show = λ u. u.scheme <> ("://bifrost" <> (u.path <> u.raw_query));
}

dials :
    new_ws_hint_client addresses "https://bifrost/?token=1" key
    ≡ ok (record { ws_url = "wss://bifrost/ws/connect"; device_id = uuid; device_key = key })
unfolding new_ws_hint_client parse_device_key_id
dials = refl

abbrev read : String → Read
read path = content "{}"

abbrev decode : Config → String → Outcome Config
decode cfg bytes = ok (record cfg { chunk_bytes = 0; profile = "" })

abbrev loaded : Config
loaded = record (apply_defaults (record defaults { chunk_bytes = 0; profile = "" })) {
  api_key = "secret";
}

load-loaded : load decode "secret" read "inventory.json" ≡ ok loaded
unfolding load apply_defaults
load-loaded = refl

abbrev getenv : String → String
getenv name = if name =ˢ "SOPDET_BIFROST_URL" then "https://env.example" else ""

abbrev no_duration : String → Option ℕ
no_duration text = none

abbrev config : ServeConfig
config = record {
  bifrost_url = "https://bifrost.example/";
  device_key = "";
  enrollment_token = "token";
  state_path = "state.json";
  poll_interval = 0;
  work_dir = "";
  agent_version = "1";
  enable_hints = true;
}

resolve-Precedence_example :
    Precedence getenv config config (resolve getenv no_duration config config)
resolve-Precedence_example = resolve-Precedence getenv no_duration config config

abbrev net : Net
net = record {
  parse_request_uri = λ raw. some (record {
    scheme = "https";
    host = "bifrost.example";
    hostname = "bifrost.example";
    has_user = false;
  });
  equal_fold = λ a b. a =ˢ b;
  is_loopback_ip = λ host. false;
}

abbrev server : Server
server = record { reply = λ url token. enrolled uuid key "active"; is_uuid = λ s. s =ˢ uuid }

abbrev disk : Disk
disk = record { can_probe = true; can_save = true }

abbrev fresh_world : World
fresh_world = record { stored = no_file; spent = [] }

abbrev identity : DeviceState
identity = record { bifrost_url = "https://bifrost.example"; device_id = uuid; device_key = key }

abbrev enrolled_world : World
enrolled_world = record { stored = holds identity; spent = "token" ∷ [] }

first_start : prepare_serve net server disk config fresh_world ≡ (ok identity, enrolled_world)
unfolding prepare_serve validate_bifrost_url without_key with_token ensure_state_writable enroll
    accept_reply save_device_state load_device_state parse_device_key_id
first_start = refl

first_found : (prepare_serve net server disk config fresh_world).0 ≡ ok identity
first_found = ap (λ r. r.0) first_start

prepare_serve-IsPrepared_example : IsPrepared (trim_right_slashes config.bifrost_url) identity
prepare_serve-IsPrepared_example =
    prepare_serve-IsPrepared net server disk config fresh_world identity first_found

prepare_serve_again_example :
    prepare_serve net server disk
      (record config { device_key = ""; enrollment_token = "" })
      enrolled_world
    ≡ (ok identity, enrolled_world)
prepare_serve_again_example =
    prepare_serve_again net server disk config fresh_world enrolled_world identity first_start

enrolled_key : MustNotEnroll net server disk config enrolled_world
unfolding load_device_state
enrolled_key = inr (inl (identity, refl, λ h. ground (arith, eq_iff key "", h)))

prepare_serve_keeps_token_example :
    (prepare_serve net server disk config enrolled_world).1.spent ≡ enrolled_world.spent
prepare_serve_keeps_token_example =
    prepare_serve_keeps_token net server disk config enrolled_world enrolled_key
