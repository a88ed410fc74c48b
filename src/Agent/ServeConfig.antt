-- ===== src/Agent/ServeConfig.antt =====
-- internal/agent/serveconfig.go: the layers of the serve configuration. The environment and
-- `time.ParseDuration` are parameters; a duration that is not positive is 0, as the code treats it.
use sopdet.Prelude.{
  ℕ, ◌<◌, String, ◌≡◌, ◌≢◌, Bool, false, not, ◌||◌, Option, none, some, map, ◌=ˢ◌, eq_iff, ◌==◌,
  ltb, arith, if◌then◌else◌, Bool-cases, ◌⊎◌, inl, inr,
}
use sopdet.Prelude.Outcome.{Outcome, ok, err}
use sopdet.Prelude.Text.{codes, trim_space, to_lower, same_codes}

pub record ServeConfig : Type 0 where
  pub bifrost_url : String
  pub device_key : String
  pub enrollment_token : String
  pub state_path : String
  pub poll_interval : ℕ
  pub work_dir : String
  pub agent_version : String
  pub enable_hints : Bool

unfoldable truthy_env : String → Bool
unfolding trim_space to_lower same_codes
truthy_env v =
    let word = map to_lower (trim_space (codes v)) in
    same_codes word (codes "1")
    || same_codes word (codes "true")
    || same_codes word (codes "yes")
    || same_codes word (codes "on")

-- The fields of the file; `poll_interval` is text there.
pub record ServeFile : Type 0 where
  pub bifrost_url : String
  pub device_key : String
  pub enrollment_token : String
  pub state_path : String
  pub poll_interval : String
  pub work_dir : String

-- What is read at a path, with what encoding/json makes of it.
pub data Reading : Type 0 where
  unreadable garbled : Reading
  parsed : ServeFile → Reading

abbrev zero_config : ServeConfig
zero_config = record {
  bifrost_url = "";
  device_key = "";
  enrollment_token = "";
  state_path = "";
  poll_interval = 0;
  work_dir = "";
  agent_version = "";
  enable_hints = false;
}

unfoldable pub load_serve_config : (String → Option ℕ) → String → Reading → Outcome ServeConfig
load_serve_config parse_duration path reading =
    if path =ˢ "" then ok zero_config else elim reading [
      | unreadable ↦ err "read"
      | garbled ↦ err "json"
      | parsed raw ↦
          let cfg = record zero_config {
            bifrost_url = raw.bifrost_url;
            device_key = raw.device_key;
            enrollment_token = raw.enrollment_token;
            state_path = raw.state_path;
            work_dir = raw.work_dir;
          } in
          if raw.poll_interval =ˢ "" then ok cfg else elim (parse_duration raw.poll_interval) [
            | none ↦ err "pollInterval"
            | some d ↦ ok (record cfg { poll_interval = d })
          ]
    ]

-- `if v != "" { out.X = v }`
abbrev pub over : String → String → String
over v before = if v =ˢ "" then before else v

module _ (getenv : String → String) (parse_duration : String → Option ℕ) where
  env_interval : ℕ → ℕ
  env_interval before =
      if getenv "SOPDET_POLL_INTERVAL" =ˢ ""
      then before
      else elim (parse_duration (getenv "SOPDET_POLL_INTERVAL")) [
        | none ↦ before
        | some d ↦ if ltb 0 d then d else before
      ]

  -- The file, overridden by the environment.
  unfoldable from_env : ServeConfig → ServeConfig
  unfolding env_interval truthy_env
  from_env file = record file {
    bifrost_url = over (getenv "SOPDET_BIFROST_URL") file.bifrost_url;
    device_key = over (getenv "SOPDET_DEVICE_KEY") file.device_key;
    enrollment_token = over (getenv "SOPDET_ENROLLMENT_TOKEN") file.enrollment_token;
    state_path = over (getenv "SOPDET_SERVE_STATE") file.state_path;
    work_dir = over (getenv "SOPDET_WORK_DIR") file.work_dir;
    poll_interval = env_interval file.poll_interval;
    enable_hints = not (truthy_env (getenv "SOPDET_DISABLE_HINTS"));
  }

  unfoldable pub resolve : ServeConfig → ServeConfig → ServeConfig
  unfolding from_env
  resolve file flags =
      let out = from_env file in
      record out {
        bifrost_url = over flags.bifrost_url out.bifrost_url;
        device_key = over flags.device_key out.device_key;
        enrollment_token = over flags.enrollment_token out.enrollment_token;
        state_path = over flags.state_path out.state_path;
        work_dir = over flags.work_dir out.work_dir;
        poll_interval =
            if ltb 0 flags.poll_interval then flags.poll_interval else out.poll_interval;
        agent_version = over flags.agent_version out.agent_version;
      }

-- `d` is the first of the texts that is not empty, or empty if all are.
abbrev FirstSet : String → String → String → String → Type 0
FirstSet d flag env file =
    ((flag ≢ "") × (d ≡ flag))
    ⊎ ((flag ≡ "") × (env ≢ "") × (d ≡ env))
    ⊎ ((flag ≡ "") × (env ≡ "") × (d ≡ file))

abbrev default_poll_interval : ℕ
default_poll_interval = 10_000_000_000

unfoldable pub apply_serve_defaults : String → ServeConfig → ServeConfig
apply_serve_defaults default_state_path cfg = record cfg {
  poll_interval = if cfg.poll_interval == 0 then default_poll_interval else cfg.poll_interval;
  state_path = if cfg.state_path =ˢ "" then default_state_path else cfg.state_path;
}

over-FirstSet : (flag env file : String) → FirstSet (over flag (over env file)) flag env file
over-FirstSet flag env file = elim (Bool-cases (flag =ˢ "")) [
  | inr set ↦ inl (ground (arith, set, eq_iff flag ""))
  | inl unset ↦ elim (Bool-cases (env =ˢ "")) [
    | inr set ↦ inr (inl (ground (arith, unset, set, eq_iff flag "", eq_iff env "")))
    | inl no_env ↦ inr (inr (ground (arith, unset, no_env, eq_iff flag "", eq_iff env "")))
  ]
]

-- Each text of the resolved configuration is the flag, or the variable if the flag is unset, or the
-- file's value if both are.
pub record Precedence (getenv : String → String) (file flags out : ServeConfig) : Type 0 where
  pub bifrost_url :
      FirstSet out.bifrost_url flags.bifrost_url (getenv "SOPDET_BIFROST_URL") file.bifrost_url
  pub device_key :
      FirstSet out.device_key flags.device_key (getenv "SOPDET_DEVICE_KEY") file.device_key
  pub enrollment_token :
      FirstSet out.enrollment_token flags.enrollment_token
        (getenv "SOPDET_ENROLLMENT_TOKEN")
        file.enrollment_token
  pub state_path :
      FirstSet out.state_path flags.state_path (getenv "SOPDET_SERVE_STATE") file.state_path
  pub work_dir : FirstSet out.work_dir flags.work_dir (getenv "SOPDET_WORK_DIR") file.work_dir

-- Of each of the five texts of the configuration, the resolved value is the flag if it is set, otherwise
-- the variable if it is set, otherwise the value of the file.
pub resolve-Precedence :
    (getenv : String → String) (parse_duration : String → Option ℕ) (file flags : ServeConfig)
    → Precedence getenv file flags (resolve getenv parse_duration file flags)
unfolding resolve
resolve-Precedence getenv parse_duration file flags = record {
  bifrost_url = over-FirstSet flags.bifrost_url (getenv "SOPDET_BIFROST_URL") file.bifrost_url;
  device_key = over-FirstSet flags.device_key (getenv "SOPDET_DEVICE_KEY") file.device_key;
  enrollment_token =
      over-FirstSet flags.enrollment_token (getenv "SOPDET_ENROLLMENT_TOKEN") file.enrollment_token;
  state_path = over-FirstSet flags.state_path (getenv "SOPDET_SERVE_STATE") file.state_path;
  work_dir = over-FirstSet flags.work_dir (getenv "SOPDET_WORK_DIR") file.work_dir;
}

-- After the defaults the poll interval is positive.
pub poll_interval_pos :
    (default_state_path : String) (cfg : ServeConfig)
    → 0 < (apply_serve_defaults default_state_path cfg).poll_interval
unfolding apply_serve_defaults
poll_interval_pos default_state_path cfg = ground arith
