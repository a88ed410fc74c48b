-- ===== src/App/Scan.antt =====
-- internal/app/run.go: `Run`, one inventory scan, over the models of the collectors, the delta state and the
-- delivery. What the machine says is a parameter.
use sopdet.Prelude.{
  ℕ, String, Bool, true, false, not, ◌&&◌, ◌||◌, Option, none, some, List, [], ◌∷◌, ◌++◌, map, ◌=ˢ◌,
  if◌then◌else◌, length,
}
use sopdet.Prelude.GoMap.{GoMap}
use sopdet.Prelude.Outcome.{Outcome, ok, err}
use sopdet.Config.{Config, level}
use sopdet.Schema.Types.{
  Value, str, boolean, EntityDelta, EntityError, HostIdentifier, Action,
  snapshot as snapshot_action, delta, Entity, collected, changes, Envelope,
}
use sopdet.Schema.Fingerprint.{Encoder}
use sopdet.State.Delta.{build_delta, snapshot}
use sopdet.State.Storage.{Storage, Permits, load, save, as_maps}
use sopdet.Collect.Defs as Collect
use sopdet.Collect.Defs.{Collector, Session, Collected}
use sopdet.Ingest.World.{World as Delivery, Host, Options}
use sopdet.Ingest.Send.{Codec, send}
use sopdet.App.Budget.{Entities, Budget, enforce_budget}
use sopdet.App.Identity.{Platform, build_identity}

-- What the scan reads of the machine and calls of libraries. `scan_id` is the second UUID of a run.
pub record Machine : Type 0 where
  pub platform : Platform
  pub encoder : Encoder
  pub codec : Codec
  pub host : Host
  pub permits : Permits
  pub collectors : List Collector
  pub to_lower : ℕ → ℕ
  pub size : Entities → Option ℕ
  pub can_marshal : Bool
  pub can_write_output : Bool
  pub scan_id : String
  pub observed_at : String
  pub calendar_time : String
  pub unix_time : ℕ
  pub os : String
  pub arch : String
  pub runtime : String
  pub user : String
  pub agent_version : String
  pub state_dir : String

-- The progress events of the run itself, and those of the collectors.
pub data Event : Type 0 where
  started : String → Event
  collecting : Collect.Event → Event
  budgeted : List String → Event
  delivery_failed : String → Event
  deliver_event : Bool → ℕ → ℕ → Bool → Event
  finished : ℕ → ℕ → Bool → Event

-- The instance file, the state at the path of the run, what was written to the output path and printed,
-- and the world of the delivery.
pub record World : Type 0 where
  pub instance_file : Option String
  pub storage : Storage
  pub output : Option Envelope
  pub printed : List Envelope
  pub delivery : Delivery
  pub events : List Event

pub record Result : Type 0 where
  pub envelope : Option Envelope
  pub delivered : Bool
  pub chunks : ℕ
  pub spooled : ℕ
  pub summarized : Bool

abbrev pub no_envelope : Result
no_envelope = record {
  envelope = none;
  delivered = false;
  chunks = 0;
  spooled = 0;
  summarized = false;
}

-- What `Run` returns: the result beside the error, if there is one.
abbrev pub Ran : Type 0
Ran = record { result : Result; error : Option String; world : World }

abbrev pub emit : List Event → World → World
emit events w = record w { events = w.events ++ events }

abbrev pub to_any : Entities → GoMap Entity
to_any es = map (λ entry. (entry.0, collected entry.1)) es

abbrev pub delta_to_any : GoMap EntityDelta → GoMap Entity
delta_to_any ds = map (λ entry. (entry.0, changes entry.1)) ds

-- The action, the base and the entities of the envelope.
pub record Payload : Type 0 where
  pub action : Action
  pub base : Option String
  pub entities : GoMap Entity

abbrev pub is_empty {ℓ} : {A : Type ℓ} → List A → Bool
is_empty [] = true
is_empty (x ∷ xs) = false

module _ (m : Machine) (cfg : Config) where
  abbrev pub state_path : String
  state_path =
      if cfg.state_path =ˢ "" then m.codec.join m.state_dir "state.json" else cfg.state_path

  abbrev pub is_remote : Bool
  is_remote = not (cfg.endpoint =ˢ "") && not cfg.dry_run

  abbrev pub full_payload : Entities → Payload
  full_payload es = record { action = snapshot_action; base = none; entities = to_any es }

  -- What is sent: all entities, or the delta against a state that is not empty.
  unfoldable pub payload_of : Entities → Storage → Outcome Payload
  payload_of es storage =
      if not cfg.delta then ok (full_payload es) else elim (load state_path storage) [
        | err e ↦ err e
        | ok none ↦ ok (full_payload es)
        | ok (some st) ↦
            if is_empty (as_maps (some st))
            then ok (full_payload es)
            else ok (record {
              action = delta;
              base = if st.scan_id =ˢ "" then none else some st.scan_id;
              entities = delta_to_any (build_delta es (as_maps (some st)));
            })
      ]

  abbrev pub decorators : HostIdentifier → GoMap Value
  decorators id =
      ("username", str m.user)
      ∷ ("os_platform", str m.os)
      ∷ ("is_elevated", boolean m.platform.elevated)
      ∷ (if id.hostname =ˢ "" then [] else ("hostname", str id.hostname) ∷ [])

  unfoldable pub envelope_of : HostIdentifier → Payload → List String → GoMap EntityError → Envelope
  envelope_of id payload truncated errors = record {
    schema_version = 2;
    scan_id = m.scan_id;
    base_scan_id = payload.base;
    action = payload.action;
    partial = not (cfg.profile =ˢ "full");
    host_identifier = id;
    calendar_time = m.calendar_time;
    unix_time = m.unix_time;
    decorators = decorators id;
    agent = record {
      name = "sopdet";
      version = m.agent_version;
      os = m.os;
      arch = m.arch;
      elevated = m.platform.elevated;
      runtime = m.runtime;
      profile = cfg.profile;
      user = m.user;
    };
    truncated = truncated;
    entity_errors = errors;
    entities = payload.entities;
    chunk = none;
  }

  unfoldable pub options : Options
  options = record {
    endpoint = cfg.endpoint;
    api_key = cfg.api_key;
    compress = cfg.compress;
    chunk_bytes = cfg.chunk_bytes;
    max_retries = cfg.max_retries;
    proxy = cfg.proxy;
    spool_dir = m.codec.join m.state_dir "spool";
    scan_id = m.scan_id;
  }

  -- The events of a delivery, the saved state and the end.
  unfoldable pub conclude : Entities → ℕ → Bool → Result → World → Ran
  conclude es failures summarized res w =
      let w₁ = emit (deliver_event res.delivered res.chunks res.spooled (not is_remote) ∷ []) w in
      let end = emit (finished (length es) failures res.delivered ∷ []) in
      let snap = snapshot m.scan_id m.calendar_time m.agent_version "sha256-canonical-json/v1" es in
      let (saved, storage) = save m.permits state_path snap w₁.storage in
      let w₂ = record w₁ { storage = storage } in
      if res.delivered && not summarized
      then elim saved [
        | err e ↦ record { result = res; error = some e; world = w₂ }
        | ok _ ↦ record { result = res; error = none; world = end w₂ }
      ]
      else record { result = res; error = none; world = end w₁ }

  -- From the envelope on, after the output file.
  unfoldable pub deliver : Envelope → Entities → ℕ → Bool → World → Ran
  deliver env es failures summarized w =
      let res : Result = record no_envelope { envelope = some env; summarized = summarized } in
      let sent = send m.codec m.host env options w.delivery in
      let w₁ = record w { delivery = sent.world } in
      let local = record res { delivered = true } in
      let printed = record w { printed = w.printed ++ (env ∷ []) } in
      if is_remote
      then elim sent.error [
        | some e ↦ record { result = res; error = some e; world = emit (delivery_failed e ∷ []) w₁ }
        | none ↦
            conclude es failures summarized
              (record res {
                delivered = sent.result.delivered;
                chunks = sent.result.chunks;
                spooled = sent.result.spooled;
              })
              w₁
      ]
      else if not (cfg.output_path =ˢ "")
      then conclude es failures summarized local w
      else if not m.can_marshal
      then record { result = local; error = some "json"; world = w }
      else conclude es failures summarized local printed

  -- `cfg.OutputPath`
  unfoldable pub write_output : Envelope → World → Outcome (Unit {0}) × World
  write_output env w =
      if cfg.output_path =ˢ ""
      then (ok tt, w)
      else if not m.can_marshal
      then (err "json", w)
      else if not m.can_write_output
      then (err "write", w)
      else (ok tt, record w { output = some env })

  abbrev pub session : Session
  session = record {
    max_list_items = cfg.max_list_items;
    include_appx = cfg.include_appx;
    include_processes = cfg.include_processes;
  }

  unfoldable pub gather : Collected
  gather = Collect.run m.encoder m.to_lower m.observed_at session (level cfg.profile) m.collectors

  -- The entities after the budget.
  unfoldable pub budget : Budget
  budget = enforce_budget m.size cfg.max_payload_bytes gather.entities []

  -- The output file, then the delivery.
  unfoldable pub publish : Envelope → World → Ran
  publish env w =
      let (written, w₁) = write_output env w in
      elim written [
        | err e ↦ record { result = no_envelope; error = some e; world = w₁ }
        | ok _ ↦ deliver env budget.entities (length gather.errors) budget.summarized w₁
      ]

  -- From the host's identity on.
  unfoldable pub scan : HostIdentifier → World → Ran
  scan id w =
      let noted =
        if budget.summarized || not (is_empty budget.truncated)
        then budgeted budget.truncated ∷ []
        else [] in
      let w₁ = emit ((started id.hostname ∷ map collecting gather.events) ++ noted) w in
      elim (payload_of budget.entities w.storage) [
        | err e ↦ record { result = no_envelope; error = some e; world = w₁ }
        | ok payload ↦ publish (envelope_of id payload budget.truncated gather.errors) w₁
      ]

  unfoldable pub run : World → Ran
  run w =
      let (identity, file) = build_identity m.platform w.instance_file in
      let w₁ = record w { instance_file = file } in
      elim identity [
        | err e ↦ record { result = no_envelope; error = some e; world = w₁ }
        | ok id ↦ scan id w₁
      ]
