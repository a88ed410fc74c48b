-- ===== src/Config.antt =====
-- internal/config/config.go: the collector configuration. Reading the file and `json.Unmarshal` over the
-- defaults are parameters. A limit that is not positive is 0: the code treats all of those alike.
use mathlib.Core.Path.{subst}
use sopdet.Prelude.{
  ℕ, ◌<◌, ◌≤◌, String, ◌≡◌, ◌≢◌, refl, Bool, false, ◌=ˢ◌, eq_iff, ◌==◌, arith, if◌then◌else◌,
  Bool-cases, inl, inr,
}
use sopdet.Prelude.Outcome.{Outcome, ok, err}

pub record Config : Type 0 where
  pub endpoint : String
  pub api_key : String
  pub profile : String
  pub include_appx : Bool
  pub include_processes : Bool
  pub compress : Bool
  pub delta : Bool
  pub chunk_bytes : ℕ
  pub max_retries : ℕ
  pub max_list_items : ℕ
  pub max_payload_bytes : ℕ
  pub proxy : String
  pub state_path : String
  pub output_path : String
  pub dry_run : Bool

abbrev pub defaults : Config
defaults = record {
  endpoint = "";
  api_key = "";
  profile = "full";
  include_appx = false;
  include_processes = false;
  compress = false;
  delta = false;
  chunk_bytes = 900000;
  max_retries = 4;
  max_list_items = 2000;
  max_payload_bytes = 1500000;
  proxy = "";
  state_path = "";
  output_path = "";
  dry_run = false;
}

-- `if x <= 0 { x = default }`
abbrev or_default : ℕ → ℕ → ℕ
or_default n d = if n == 0 then d else n

unfoldable pub apply_defaults : Config → Config
apply_defaults c = record c {
  profile = if c.profile =ˢ "" then defaults.profile else c.profile;
  chunk_bytes = or_default c.chunk_bytes defaults.chunk_bytes;
  max_retries = or_default c.max_retries defaults.max_retries;
  max_list_items = or_default c.max_list_items defaults.max_list_items;
  max_payload_bytes = or_default c.max_payload_bytes defaults.max_payload_bytes;
}

-- What `os.ReadFile` gives.
pub data Read : Type 0 where
  content : String → Read
  missing : Read
  unreadable : String → Read

-- What the rest of the program needs of a configuration.
pub record IsUsable (c : Config) : Type 0 where
  pub profile : c.profile ≢ ""
  pub chunk_bytes : 0 < c.chunk_bytes
  pub max_retries : 0 < c.max_retries
  pub max_list_items : 0 < c.max_list_items
  pub max_payload_bytes : 0 < c.max_payload_bytes

text_or_default : (s d : String) → d ≢ "" → (if s =ˢ "" then d else s) ≢ ""
text_or_default s d h e = elim (Bool-cases (s =ˢ "")) [
  | inl p ↦ h (ground (arith, p, e))
  | inr p ↦ absurd (ground (arith, p, e, eq_iff s ""))
]

apply_defaults-IsUsable : (c : Config) → IsUsable (apply_defaults c)
unfolding apply_defaults
apply_defaults-IsUsable c = record {
  profile = text_or_default c.profile "full" (λ p. cc p);
  chunk_bytes = ground arith;
  max_retries = ground arith;
  max_list_items = ground arith;
  max_payload_bytes = ground arith;
}

defaults-IsUsable : IsUsable defaults
defaults-IsUsable = unfold apply_defaults in apply_defaults-IsUsable defaults

-- The outcome of `json.Unmarshal`.
decoded : Outcome Config → Outcome Config
decoded (err e) = err e
decoded (ok cfg) = ok (apply_defaults cfg)

decoded-IsUsable : (d : Outcome Config) {cfg : Config} → decoded d ≡ ok cfg → IsUsable cfg
unfolding decoded
decoded-IsUsable (err e) h = cc h
decoded-IsUsable (ok c) h =
    let e : apply_defaults c ≡ _ = ground (arith, h) in subst IsUsable e (apply_defaults-IsUsable c)

-- `decode cfg data` is `json.Unmarshal(bytes.TrimPrefix(data, bom), &cfg)` over the values of `cfg`.
module _ (decode : Config → String → Outcome Config) (env_key : String) where
  -- The file, where there is a path.
  from_file : Read → Outcome Config
  unfolding decoded
  from_file missing = ok defaults
  from_file (unreadable e) = err e
  from_file (content bytes) = decoded (decode defaults bytes)

  with_env_key : Config → Config
  with_env_key cfg = if env_key =ˢ "" then cfg else record cfg { api_key = env_key }

  keyed : Outcome Config → Outcome Config
  unfolding with_env_key
  keyed (err e) = err e
  keyed (ok cfg) = ok (with_env_key cfg)

  unfoldable pub load : (String → Read) → String → Outcome Config
  unfolding from_file keyed apply_defaults
  load read path = keyed (if path =ˢ "" then ok defaults else from_file (read path))

  with_env_key-IsUsable : (c : Config) → IsUsable c → IsUsable (with_env_key c)
  unfolding with_env_key
  with_env_key-IsUsable c u = elim (Bool-cases (env_key =ˢ "")) [
    | inl e ↦ rw e u
    | inr e ↦ rw e (record {
      profile = u.profile;
      chunk_bytes = u.chunk_bytes;
      max_retries = u.max_retries;
      max_list_items = u.max_list_items;
      max_payload_bytes = u.max_payload_bytes;
    })
  ]

  from_file-IsUsable : (r : Read) {cfg : Config} → from_file r ≡ ok cfg → IsUsable cfg
  unfolding from_file
  from_file-IsUsable missing h =
      let e : defaults ≡ _ = ground (arith, h) in subst IsUsable e defaults-IsUsable
  from_file-IsUsable (unreadable x) h = cc h
  from_file-IsUsable (content bytes) h = decoded-IsUsable (decode defaults bytes) h

  keyed-IsUsable :
      (r : Outcome Config)
      → ((c : Config) → r ≡ ok c → IsUsable c)
      → (cfg : Config) → keyed r ≡ ok cfg
      → IsUsable cfg
  unfolding keyed
  keyed-IsUsable (err e) u cfg h = cc h
  keyed-IsUsable (ok c) u cfg h =
      let e : with_env_key c ≡ _ = ground (arith, h) in
      subst IsUsable e (with_env_key-IsUsable c (u c refl))

  -- Whatever the file holds, a configuration that loads has a profile and positive limits.
  pub load-IsUsable :
      (read : String → Read) (path : String) {cfg : Config} → load read path ≡ ok cfg → IsUsable cfg
  load-IsUsable read path h = elim (Bool-cases (path =ˢ "")) [
    | inl e ↦
        keyed-IsUsable (ok defaults)
          (λ c p. let q : defaults ≡ _ = ground (arith, p) in subst IsUsable q defaults-IsUsable) _
          (unfold load in ground (arith, e, h))
    | inr e ↦
        keyed-IsUsable (from_file (read path)) (λ c p. from_file-IsUsable (read path) p) _
          (unfold load in ground (arith, e, h))
  ]

  -- The key of the environment, if it is set, is the one that is used.
  pub load-env_key :
      (read : String → Read) (path : String) {cfg : Config}
      → env_key ≢ ""
      → load read path ≡ ok cfg
      → cfg.api_key ≡ env_key
  unfolding load
  load-env_key read path h e = ground (arith, eq_iff env_key "")

-- The collection level of a profile.
unfoldable pub level : String → ℕ
level profile = if profile =ˢ "minimal" then 0 else if profile =ˢ "quick" then 1 else 2

-- A profile has one of the levels 0, 1 and 2.
level-le : (profile : String) → level profile ≤ 2
unfolding level
level-le profile = ground arith
