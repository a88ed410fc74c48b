-- ===== src/Tests/Pages.antt =====
-- The progress page and the drain of the delivery's spool at concrete inputs.
use sopdet.Prelude.{String, ◌≡◌, refl, true, false, none, some, inr, List, [], ◌∷◌}
use sopdet.Prelude.GoMap.{lookup}
use sopdet.Ingest.World.{World, Host, Options, drain}
use sopdet.Ingest.Drained.{IsSafe, drain-IsSafe}
use sopdet.Ui.Server.{Op, Pace, emit_op, connect_op, read_op, close_op, new, run}
use sopdet.Ui.Replay.{Represents, emitted, new-Represents}

abbrev at_once : Pace String
at_once = record { before_drop = 0; after_drop = 0 }

abbrev ops : List (Op String)
ops =
    emit_op (λ id. at_once) "start"
    ∷ connect_op 1 "t"
    ∷ read_op 1
    ∷ emit_op (λ id. record { before_drop = 2; after_drop = 1 }) "done"
    ∷ connect_op 2 "x"
    ∷ close_op
    ∷ emit_op (λ id. at_once) "late"
    ∷ []

new-Represents_example :
    Represents String (emitted String false ops) (run String ops (new String "t"))
new-Represents_example = new-Represents String "t" ops

emitted_runs : emitted String false ops ≡ "start" ∷ "done" ∷ []
emitted_runs = refl

abbrev host : Host
host = record {
  request_builds = λ url. true;
  can_read = λ name. true;
  can_remove = λ name. true;
  can_make_dir = true;
  can_write = true;
  torn_write = none;
}

abbrev options : Options
options = record {
  endpoint = "https://ingest.example";
  api_key = "k";
  compress = false;
  chunk_bytes = 15;
  max_retries = 1;
  proxy = "";
  spool_dir = "spool";
  scan_id = "s";
}

-- The first file is delivered, the second is not.
abbrev waiting : World
waiting = record {
  replies = some 200 ∷ some 503 ∷ [];
  sent = [];
  received = [];
  waits = [];
  dirs = ("spool", ("a-0.json", "first") ∷ ("b-0.json", "second") ∷ []) ∷ [];
}

waiting-IsSafe : IsSafe host options "b-0.json" "second" waiting
unfolding lookup
waiting-IsSafe = inr refl

drain-IsSafe_example : IsSafe host options "b-0.json" "second" (drain host options waiting).1
drain-IsSafe_example = drain-IsSafe host options "b-0.json" "second" waiting waiting-IsSafe
