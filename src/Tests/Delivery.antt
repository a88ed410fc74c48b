-- ===== src/Tests/Delivery.antt =====
-- The delivery of an envelope and the configuration at concrete inputs.
use mathlib.Core.List.{flatten, Perm}
use sopdet.Prelude.{
  ℕ, ◌*◌, ◌<>◌, ◌≡◌, ◌≢◌, refl, true, false, none, some, List, [], ◌∷◌, All, take, arith, length,
  eq_iff,
}
use sopdet.Prelude.GoMap.{lookup, insert, IsMap}
use sopdet.Prelude.Decimal.{itoa}
use sopdet.Prelude.Text.{ends_with}
use sopdet.Prelude.Outcome.{ok}
use sopdet.Net.{Net}
use sopdet.Schema.Types.{Envelope, nil, snapshot}
use sopdet.Ingest.Chunks.{Group, make_groups}
use sopdet.Ingest.Partition.{Fits, flatten-make_groups, make_groups-Fits}
use sopdet.Ingest.World.{
  World, Host, Options, attempts, exchange, try_post, post, drain, spool, pending,
}
use sopdet.Ingest.Post.{any_accepted, post-any}
use sopdet.Ingest.Send.{Codec, no_result, request_of, wire, deliver, send_groups}
use sopdet.Ingest.Lossless.{AllKept, AllReceived, send_groups-AllKept, send_groups-AllReceived}

abbrev entities : Group
entities = ("users", nil) ∷ ("disks", nil) ∷ []

abbrev size : Group → ℕ
size g = length g * 10

entities_IsMap : IsMap entities
entities_IsMap = ((λ h. ground (arith, eq_iff "users" "disks", h), tt), (tt, tt))

flatten-make_groups_example : Perm (flatten (make_groups size 15 entities 20)) entities
flatten-make_groups_example = flatten-make_groups size 15 entities 20 entities_IsMap

make_groups-Fits_example : All (λ g. (g ≢ []) × Fits size 15 g) (make_groups size 15 entities 20)
make_groups-Fits_example =
    make_groups-Fits size 15 entities 20 entities_IsMap (omega arith) (omega arith)

abbrev host : Host
host = record {
  request_builds = λ url. true;
  can_read = λ name. true;
  can_remove = λ name. true;
  can_make_dir = true;
  can_write = true;
  torn_write = none;
}

abbrev options : Options
options = record {
  endpoint = "https://ingest.example";
  api_key = "k";
  compress = false;
  chunk_bytes = 15;
  max_retries = 2;
  proxy = "";
  spool_dir = "spool";
  scan_id = "s";
}

-- The first request is refused twice, the second is accepted.
abbrev busy : World
busy = record {
  replies = some 503 ∷ none ∷ some 200 ∷ [];
  sent = [];
  received = [];
  waits = [];
  dirs = [];
}

abbrev open_world : World
open_world = record {
  replies = some 200 ∷ some 200 ∷ [];
  sent = [];
  received = [];
  waits = [];
  dirs = [];
}

post-any_example :
    (post host options "p" busy).0 ≡ any_accepted (take (attempts options) busy.replies)
post-any_example = post-any host options "p" busy refl

abbrev envelope : Envelope
envelope = record {
  schema_version = 2;
  scan_id = "s";
  base_scan_id = none;
  action = snapshot;
  partial = false;
  host_identifier = record {
    device_id = "d";
    device_id_source = "x";
    hardware_uuid = none;
    machine_guid = none;
    instance_id = "i";
    hostname = "h";
    fqdn = none;
  };
  calendar_time = "";
  unix_time = 0;
  decorators = [];
  agent = record {
    name = "sopdet";
    version = "1";
    os = "linux";
    arch = "amd64";
    elevated = false;
    runtime = "go";
    profile = "quick";
    user = "";
  };
  truncated = [];
  entity_errors = [];
  entities = entities;
  chunk = none;
}

abbrev net : Net
net = record {
  parse_request_uri = λ raw. none;
  equal_fold = λ a b. false;
  is_loopback_ip = λ host. false;
}

abbrev codec : Codec
codec = record {
  marshal_envelope = λ e. ok (e.scan_id <> "-envelope");
  marshal_body = λ b. ok (b.payload <> itoa b.chunk_index);
  gzip_base64 = λ s. ok s;
  sha256_prefix = λ s. s;
  join = λ a b. a <> ("/" <> b);
  net = net;
  parses_proxy = λ p. true;
}

abbrev groups : List Group
groups = (("disks", nil) ∷ []) ∷ (("users", nil) ∷ []) ∷ []

sent_no_error : (send_groups codec host envelope options groups no_result busy).error ≡ none
unfolding send_groups drain deliver request_of wire post try_post exchange spool pending itoa
    ends_with lookup insert
sent_no_error = refl

send_groups-AllKept_example :
    AllKept codec host envelope options
      (length groups)
      0
      groups
      (send_groups codec host envelope options groups no_result busy).world
send_groups-AllKept_example =
    send_groups-AllKept codec host envelope options groups no_result busy
      (λ h. ground (arith, eq_iff "spool" "", h)) sent_no_error

open_no_error : (send_groups codec host envelope options groups no_result open_world).error ≡ none
unfolding send_groups drain deliver request_of wire post try_post exchange spool pending itoa
    ends_with lookup insert
open_no_error = refl

open_delivered :
    (send_groups codec host envelope options groups no_result open_world).result.delivered ≡ true
unfolding send_groups drain deliver request_of wire post try_post exchange spool pending itoa
    ends_with lookup insert
open_delivered = refl

send_groups-AllReceived_example :
    AllReceived codec host envelope options
      (length groups)
      0
      groups
      (send_groups codec host envelope options groups no_result open_world).world
send_groups-AllReceived_example =
    send_groups-AllReceived codec host envelope options groups no_result open_world open_no_error
      open_delivered
