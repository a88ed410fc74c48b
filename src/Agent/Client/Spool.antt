-- ===== src/Agent/Client/Spool.antt =====
-- internal/agent/client.go: the spool directory (`Spool`, `dropSpooledForJob`, `DrainSpool`, `SweepSpool`).
use sopdet.Prelude.{
  ℕ, ◌+◌, ◌-◌, ◌*◌, String, ◌<>◌, Bool, true, false, not, ◌&&◌, ◌||◌, Option, none, some, List, [],
  ◌∷◌, keep, ltb, ◌=ˢ◌, if◌then◌else◌, length, is_some,
}
use sopdet.Prelude.Text.{ends_with}
use sopdet.Prelude.Decimal.{itoa}
use sopdet.Prelude.Sort.{sort_texts}
use sopdet.Prelude.GoMap.{GoMap, lookup, insert, remove, keys}
use sopdet.Prelude.Outcome.{Outcome, ok, err}
use sopdet.Agent.Client.Post.{
  EndpointError, Body, logs_body, SpoolRecord, File, World, Answer, answered, failed, Client, post,
  is_fenced, is_permanent, no_result,
}

-- Which operations of the disk succeed; a write that fails leaves no file.
pub record Disk : Type 0 where
  pub can_make_dir : Bool
  pub can_write : Bool
  pub can_remove : String → Bool

abbrev pub set_files : GoMap File → World → World
set_files files w = record w { spool_files = some files }

-- `time.Now()`
abbrev pub now : World → ℕ × World
now w = elim w.clocks [ [] ↦ (0, w) | t ∷ rest ↦ (t, record w { clocks = rest }) ]

-- `os.Remove` of a file of the spool.
unfoldable pub remove_file : Disk → String → World → World
remove_file disk name w = elim w.spool_files [
  | none ↦ w
  | some files ↦ if disk.can_remove name then set_files (remove name files) w else w
]

abbrev pub spool_name : SpoolRecord → ℕ → String
spool_name rec t = rec.kind <> ("-" <> (rec.job_id <> ("-" <> (itoa t <> ".json"))))

unfoldable pub spool : Disk → Client → SpoolRecord → World → Outcome (Unit {0}) × World
spool disk c rec w =
    if c.spool_dir =ˢ ""
    then (ok tt, w)
    else if not disk.can_make_dir
    then (err "mkdir", w)
    else let files : GoMap File = elim w.spool_files [ none ↦ [] | some f ↦ f ] in
      let (t, w1) = now w in
      let made = set_files files w1 in
      let name = spool_name rec t in
      let file : File = record { content = some rec; mod_time = t } in
      if is_some (lookup name files)
      then (err "exists", made)
      else if not disk.can_write
      then (err "write", made)
      else (ok tt, set_files (insert name file files) w1)

-- The record of a file, when it can be read.
unfoldable pub read_spool_record : String → World → Option SpoolRecord
read_spool_record name w = elim w.spool_files [
  | none ↦ none
  | some files ↦ elim (lookup name files) [ none ↦ none | some f ↦ f.content ]
]

-- `filepath.Ext(name) == ".json"`
abbrev pub is_json : String → Bool
is_json name = ends_with name ".json"

abbrev pub of_job : String → Option SpoolRecord → Bool
of_job job none = false
of_job job (some rec) = rec.job_id =ˢ job

unfoldable pub drop_names : Disk → String → List String → World → World
drop_names disk job [] w = w
drop_names disk job (name ∷ names) w =
    drop_names disk job names
      (if of_job job (read_spool_record name w) then remove_file disk name w else w)

unfoldable pub drop_spooled_for_job : Disk → Client → String → World → World
unfolding drop_names
drop_spooled_for_job disk c job w = if c.spool_dir =ˢ "" then w else elim w.spool_files [
  | none ↦ w
  | some files ↦ drop_names disk job (keep is_json (sort_texts (keys files))) w
]

abbrev pub job_path : String → String → String
job_path job call = "/api/device/jobs/" <> (job <> ("/" <> call))

-- Where a record is sent again, or none for a record that is dropped.
unfoldable pub replay_path : SpoolRecord → Option String
replay_path rec =
    if not (is_some rec.payload)
    then none
    else if rec.kind =ˢ "logs"
    then some (job_path rec.job_id "logs")
    else if rec.kind =ˢ "result"
    then some (job_path rec.job_id "result")
    else none

-- Whether a record is done with after an answer.
abbrev is_settled : Answer → Bool
is_settled (answered size raw) = true
is_settled (failed e) = is_fenced e || is_permanent e

abbrev payload_of : SpoolRecord → Body
payload_of rec = elim rec.payload [ none ↦ logs_body "" [] | some b ↦ b ]

module _ (read_envelope : String → Option EndpointError) (disk : Disk) (c : Client) where
  -- One file of the drain: whether the drain goes on, and the state.
  unfoldable pub drain_one : String → World → Bool × World
  drain_one name w = elim (read_spool_record name w) [
    | none ↦ (true, remove_file disk name w)
    | some rec ↦ elim (replay_path rec) [
      | none ↦ (true, remove_file disk name w)
      | some path ↦
          let (answer, w1) = post read_envelope c no_result path (payload_of rec) w in
          if is_settled answer then (true, remove_file disk name w1) else (false, w1)
    ]
  ]

  -- The loop of `DrainSpool`, which returns the number of names from the one that stopped it.
  unfoldable drain_names : List String → World → ℕ × World
  drain_names [] w = (0, w)
  drain_names (name ∷ names) w =
      let (go, w1) = drain_one name w in
      elim go [ true ↦ drain_names names w1 | false ↦ (length (name ∷ names), w1) ]

  unfoldable pub drain_spool : World → ℕ × World
  unfolding drain_names
  drain_spool w = if c.spool_dir =ˢ "" then (0, w) else elim w.spool_files [
    | none ↦ (0, w)
    | some files ↦ drain_names (keep is_json (sort_texts (keys files))) w
  ]

abbrev spool_file_ttl : ℕ
spool_file_ttl = 7 * 24 * 3600 * 1000000000

-- The loop of `SweepSpool`, with the number of files that it has removed.
unfoldable sweep_names : Disk → ℕ → List String → ℕ → World → ℕ × World
sweep_names disk cutoff [] removed w = (removed, w)
sweep_names disk cutoff (name ∷ names) removed w =
    let stale : Bool = elim w.spool_files [
      | none ↦ false
      | some files ↦ elim (lookup name files) [ none ↦ false | some f ↦ ltb f.mod_time cutoff ]
    ] in
    let skipped = sweep_names disk cutoff names removed w in
    let swept = sweep_names disk cutoff names (removed + 1) (remove_file disk name w) in
    if stale && disk.can_remove name then swept else skipped

unfoldable pub sweep_spool : Disk → Client → World → ℕ × World
unfolding sweep_names
sweep_spool disk c w = if c.spool_dir =ˢ "" then (0, w) else elim w.spool_files [
  | none ↦ (0, w)
  | some files ↦
      let (t, w1) = now w in sweep_names disk (t - spool_file_ttl) (sort_texts (keys files)) 0 w1
]
