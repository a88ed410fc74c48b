-- ===== src/Ingest/World.antt =====
-- internal/ingest/ingest.go: what `Send` reads and writes outside of its arguments, one request
-- (`post`) and the spool directory (`drain`, `spool`, `pending`).
use sopdet.Prelude.{
  ℕ, zero, suc, ◌+◌, ◌*◌, ◌^◌, String, ◌<>◌, Bool, true, false, not, ◌&&◌, Option, none, some, List,
  [], ◌∷◌, ◌++◌, keep, ltb, leb, ◌==◌, ◌=ˢ◌, if◌then◌else◌, length,
}
use sopdet.Prelude.GoMap.{GoMap, lookup, insert, remove, keys}
use sopdet.Prelude.Sort.{sort_texts}
use sopdet.Prelude.Text.{ends_with}
use sopdet.Prelude.Decimal.{itoa}
use sopdet.Prelude.Outcome.{Outcome, ok, err}

-- The files of one directory, by name.
abbrev pub Files : Type 0
Files = GoMap String

-- The server's replies that are still to come (`none` is a transport error, `some status` a response;
-- none are left where the network stays down), the payloads that were sent, those that the server has
-- received (it answers them with a 2xx status), the waits in milliseconds without their jitter, and the
-- directories of the disk by path.
pub record World : Type 0 where
  pub replies : List (Option ℕ)
  pub sent : List String
  pub received : List String
  pub waits : List ℕ
  pub dirs : GoMap Files

-- Which calls of the operating system and of net/http succeed. A write that fails leaves no file.
pub record Host : Type 0 where
  pub request_builds : String → Bool
  pub can_read : String → Bool
  pub can_remove : String → Bool
  pub can_make_dir : Bool
  pub can_write : Bool
  -- What `os.WriteFile` leaves when it fails: the file as it was where it cannot be opened, otherwise the part that is
  -- written, since the file is truncated first.
  pub torn_write : Option String

-- A limit that is not positive is 0 here: the code treats all of those alike.
pub record Options : Type 0 where
  pub endpoint : String
  pub api_key : String
  pub compress : Bool
  pub chunk_bytes : ℕ
  pub max_retries : ℕ
  pub proxy : String
  pub spool_dir : String
  pub scan_id : String

abbrev pub accepted : Option ℕ → Bool
accepted none = false
accepted (some status) = leb 200 status && ltb status 300

-- `client.Do(req)`, up to the status of the response.
unfoldable pub exchange : String → World → Option ℕ × World
exchange payload w = elim w.replies [
  | [] ↦ (none, record w { sent = w.sent ++ (payload ∷ []) })
  | r ∷ rest ↦ (
    r,
    record w {
      replies = rest;
      sent = w.sent ++ (payload ∷ []);
      received = if accepted r then w.received ++ (payload ∷ []) else w.received;
    },
  )
]

-- The loop over the attempts: `left` of them remain, and `a` were made.
unfoldable pub try_post : ℕ → ℕ → String → World → Bool × World
try_post zero a payload w = (false, w)
try_post (suc left) a payload w =
    let (r, w') = exchange payload w in
    let waited = record w' { waits = w'.waits ++ ((2 ^ a * 500) ∷ []) } in
    let again = try_post left (a + 1) payload waited in
    if accepted r then (true, w') else if left == 0 then (false, w') else again

abbrev pub attempts : Options → ℕ
attempts o = if ltb o.max_retries 1 then 1 else o.max_retries

module _ (host : Host) (o : Options) where
  unfoldable pub post : String → World → Bool × World
  unfolding try_post exchange
  post payload w =
      if host.request_builds o.endpoint then try_post (attempts o) 0 payload w else (false, w)

  -- The entries that `drain` and `pending` look at; the spool holds no directories.
  abbrev pub is_json : String → Bool
  is_json name = ends_with name ".json"

  -- One file of the spool.
  unfoldable pub drain_file : String → Files → World → Bool × World
  unfolding post
  drain_file name files w = elim (lookup name files) [
    | none ↦ (false, w)
    | some content ↦
        let (done, w') = post content w in
        let left = if host.can_remove name then remove name files else files in
        if done then (true, record w' { dirs = insert o.spool_dir left w'.dirs }) else (false, w')
  ]

  -- The loop over the names that `os.ReadDir` returned, with the flag `ok`.
  unfoldable pub drain_files : Bool → List String → World → Bool × World
  drain_files flag [] w = (flag, w)
  drain_files flag (name ∷ names) w = elim (lookup o.spool_dir w.dirs) [
    | none ↦ drain_files false names w
    | some files ↦
        let (done, w') = drain_file name files w in
        if host.can_read name
        then drain_files (flag && done) names w'
        else drain_files false names w
  ]

  unfoldable pub drain : World → Bool × World
  unfolding drain_files drain_file ends_with
  drain w = if o.spool_dir =ˢ "" then (true, w) else elim (lookup o.spool_dir w.dirs) [
    | none ↦ (true, w)
    | some files ↦ drain_files true (keep is_json (sort_texts (keys files))) w
  ]

  abbrev pub spool_name : ℕ → String
  spool_name i = o.scan_id <> ("-" <> (itoa i <> ".json"))

  unfoldable pub spool : ℕ → String → World → Outcome (Unit {0}) × World
  unfolding itoa
  spool i payload w =
      let files : Files = elim (lookup o.spool_dir w.dirs) [ none ↦ [] | some f ↦ f ] in
      let made = record w { dirs = insert o.spool_dir files w.dirs } in
      let torn : World = elim host.torn_write [
        | none ↦ made
        | some part ↦ record w {
          dirs = insert o.spool_dir (insert (spool_name i) part files) w.dirs;
        }
      ] in
      let written = record w {
        dirs = insert o.spool_dir (insert (spool_name i) payload files) w.dirs;
      } in
      if o.spool_dir =ˢ ""
      then (ok tt, w)
      else if not host.can_make_dir
      then (err "mkdir", w)
      else if not host.can_write
      then (err "write", torn)
      else (ok tt, written)

  unfoldable pub pending : World → Outcome ℕ
  unfolding ends_with
  pending w = if o.spool_dir =ˢ "" then ok 0 else elim (lookup o.spool_dir w.dirs) [
    | none ↦ err "readdir"
    | some files ↦ ok (length (keep is_json (keys files)))
  ]
