-- ===== src/Tests/Scans.antt =====
-- Whole scans at concrete inputs.
use sopdet.Prelude.{
  ℕ, ◌≡◌, ◌≢◌, ◌<>◌, refl, true, false, Option, ◌+◌, ◌*◌, none, some, [], ◌∷◌, All, arith, eq_iff,
  length,
}
use sopdet.Prelude.Decimal.{itoa}
use sopdet.Prelude.GoMap.{GoMap, IsMap, insert}
use sopdet.Prelude.Outcome.{ok}
use sopdet.Config.{Config, level}
use sopdet.Schema.Types.{str, EntityDelta, delta}
use sopdet.Schema.Fingerprint.{json}
use sopdet.Schema.Entity.{build_entity}
use sopdet.State.Storage.{missing, load, save}
use sopdet.State.Unchanged.{IsEmptyDelta}
use sopdet.Collect.Defs as Collect
use sopdet.Collect.Defs.{Collector, run_plan, run_all, run_one, add_entity, plan_collectors}
use sopdet.App.Largest.{totals}
use sopdet.App.Trimmed.{IsNamed, IsEnd, totals-enforce_budget, enforce_budget-IsEnd}
use sopdet.App.Budget.{Entities, max_rounds, enforce_budget, trim_rounds}
use sopdet.App.Identity.{Platform, build_identity, instance_id, choose_id}
use sopdet.App.Scan.{
  Machine, World, delta_to_any, payload_of, budget, gather, write_output, conclude, deliver,
  publish, scan, run,
}
use sopdet.App.Local.{rescan-run}
use sopdet.App.Saved.{SavesDelivered, run-SavesDelivered}

abbrev platform : Platform
platform = record {
  hostname = "h";
  machine_guid = none;
  hardware_uuid = none;
  elevated = false;
  trim_space = λ s. s;
  new_uuid = "u";
  can_make_dir = true;
  can_write = true;
}

abbrev disks : Collector
disks = record {
  name = "disks";
  level = 1;
  records = some (("key", str "c:") ∷ []) ∷ [];
  failure = none;
  duration_ms = 1;
}

abbrev machine : Machine
machine = record {
  platform = platform;
  encoder = record {
    marshal_record = λ r. json "r";
    marshal_rollup = λ n l. json "rollup";
    sha256_hex = λ s. s;
  };
  codec = record {
    marshal_envelope = λ e. ok (e.scan_id <> "-envelope");
    marshal_body = λ b. ok (b.payload <> itoa b.chunk_index);
    gzip_base64 = λ s. ok s;
    sha256_prefix = λ s. s;
    join = λ a b. a <> ("/" <> b);
    net = record {
      parse_request_uri =
          λ raw. some (record { scheme = "https"; host = "e"; hostname = "e"; has_user = false });
      equal_fold = λ a b. false;
      is_loopback_ip = λ host. false;
    };
    parses_proxy = λ p. true;
  };
  host = record {
    request_builds = λ url. true;
    can_read = λ name. true;
    can_remove = λ name. true;
    can_make_dir = true;
    can_write = true;
    torn_write = some "";
  };
  permits = record { can_make_dir = true; can_write = true; can_rename = true };
  collectors = disks ∷ [];
  to_lower = λ c. c;
  size = λ es. some 10;
  can_marshal = true;
  can_write_output = true;
  scan_id = "s1";
  observed_at = "t";
  calendar_time = "t";
  unix_time = 1;
  os = "linux";
  arch = "amd64";
  runtime = "go";
  user = "u";
  agent_version = "1";
  state_dir = "d";
}

abbrev remote_config : Config
remote_config = record {
  endpoint = "https://e";
  api_key = "k";
  profile = "full";
  include_appx = false;
  include_processes = false;
  compress = false;
  delta = true;
  chunk_bytes = 900;
  max_retries = 1;
  max_list_items = 20;
  max_payload_bytes = 100;
  proxy = "";
  state_path = "state";
  output_path = "";
  dry_run = false;
}

abbrev dry_config : Config
dry_config = record remote_config { dry_run = true }

abbrev fresh : World
fresh = record {
  instance_file = none;
  storage = record { file = missing; temporary = missing };
  output = none;
  printed = [];
  delivery = record { replies = some 200 ∷ []; sent = []; received = []; waits = []; dirs = [] };
  events = [];
}

run-SavesDelivered_example :
    SavesDelivered machine remote_config fresh.storage (run machine remote_config fresh)
run-SavesDelivered_example = run-SavesDelivered machine remote_config refl fresh

dry_no_error : (run machine dry_config fresh).error ≡ none
unfolding run scan publish deliver conclude write_output payload_of load save build_identity
    instance_id choose_id budget enforce_budget trim_rounds
dry_no_error = refl

dry_whole : (budget machine dry_config).summarized ≡ false
unfolding budget enforce_budget trim_rounds
dry_whole = refl

dry_names : IsMap (budget machine dry_config).entities
unfolding budget enforce_budget trim_rounds gather Collect.run run_plan run_all run_one add_entity
    plan_collectors level build_entity insert
dry_names = (tt, tt)

dry_some : (budget machine dry_config).entities ≢ []
unfolding budget enforce_budget trim_rounds gather Collect.run run_plan run_all run_one add_entity
    plan_collectors level build_entity insert
dry_some h = ground (arith, h)

rescan-run_example :
    let w = (run machine dry_config fresh).world in
    (w.delivery ≡ fresh.delivery)
    × ((ds : GoMap EntityDelta) × (All (λ entry. IsEmptyDelta (entry.1)) ds)
        × (payload_of machine remote_config (budget machine dry_config).entities w.storage
            ≡ ok (record { action = delta; base = some "s1"; entities = delta_to_any ds })))
rescan-run_example =
    rescan-run machine dry_config refl (λ h. ground (arith, eq_iff "state" "", h)) dry_whole
      remote_config refl refl (λ h. ground (arith, eq_iff "s1" "", h)) dry_names dry_some fresh
      dry_no_error

abbrev many : Entities
many =
    (
      "disks",
      build_entity machine.encoder "t"
          (some (("key", str "c:") ∷ []) ∷ some (("key", str "d:") ∷ []) ∷ []),
    )
    ∷ []

many-IsMap : IsMap many
many-IsMap = (tt, tt)

-- The size that JSON gives the entities, ten for each record.
abbrev size_of : Entities → Option ℕ
size_of es = some (totals_size es)
  where
    totals_size : Entities → ℕ
    totals_size [] = 0
    totals_size (e ∷ es) = length (e.1).records * 10 + totals_size es

many-IsNamed : IsNamed size_of 15 many
many-IsNamed = ((λ h. ground (arith, eq_iff "" "disks", h)), tt)

totals-enforce_budget_example : totals (enforce_budget size_of 15 many []).entities ≡ totals many
totals-enforce_budget_example = totals-enforce_budget size_of 15 many [] many-IsMap

enforce_budget-IsEnd_example :
    IsEnd size_of 15 max_rounds
      (record { entities = many; truncated = []; summarized = false })
      (enforce_budget size_of 15 many [])
enforce_budget-IsEnd_example =
    enforce_budget-IsEnd size_of 15 many [] many-IsMap many-IsNamed (omega arith)
