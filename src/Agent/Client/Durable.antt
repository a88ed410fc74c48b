-- ===== src/Agent/Client/Durable.antt =====
-- What becomes of the logs and the result of a job when the server cannot be reached.
use sopdet.Prelude.{
  ◌+◌, ℕ, ◌≡◌, ◌≢◌, refl, sym, ap, ◌∙◌, ◌⊎◌, inl, inr, String, true, false, Option, none, some,
  List, [], arith, eq_iff, Bool-cases,
}
use mathlib.Core.Path.{subst}
use sopdet.Prelude.Outcome.{Outcome, ok, err}
use sopdet.Prelude.GoMap.{GoMap, lookup, insert, lookup-insert_self}
use sopdet.Agent.Runner.Stream.{LogEntry}
use sopdet.Agent.Client.Post.{
  logs_body, SpoolRecord, File, World, Failure, Answer, answered, failed, Client, retries, post,
  is_permanent, no_result,
}
use sopdet.Agent.Client.Spool.{Disk, spool, spool_name, now, job_path}
use sopdet.Agent.Client.Calls.{done, Codec, logs_record, keep_record, post_logs}
use sopdet.Agent.Client.Retry.{IsAcked, received-post}

-- The record in a file of the spool directory.
abbrev file_content : String → Option (GoMap File) → Option SpoolRecord
file_content name none = none
file_content name (some files) = elim (lookup name files) [ none ↦ none | some f ↦ f.content ]

-- Some file of the spool holds the record.
abbrev pub IsSpooled : SpoolRecord → World → Type 0
IsSpooled rec w = (name : String) × (file_content name w.spool_files ≡ some rec)

file_content_self :
    (name : String) (f : File) (files : GoMap File)
    → file_content name (some (insert name f files)) ≡ f.content
file_content_self name f files = rw (file_content, lookup-insert_self name f files) refl

spool-IsSpooled :
    (disk : Disk) (c : Client) (rec : SpoolRecord) (w : World)
    → c.spool_dir ≢ ""
    → (spool disk c rec w).0 ≡ ok tt
    → IsSpooled rec (spool disk c rec w).1
unfolding spool
spool-IsSpooled disk c rec w named h = (name, from w.spool_files refl)
  where
    name : String
    name = spool_name rec (now w).0

    from :
        (o : Option (GoMap File))
        → w.spool_files ≡ o
        → file_content name (spool disk c rec w).1.spool_files ≡ some rec
    from none e = ground (
      arith,
      e,
      h,
      named,
      eq_iff c.spool_dir "",
      file_content_self name (record { content = some rec; mod_time = (now w).0 }) [],
    )
    from (some files) e = ground (
      arith,
      e,
      h,
      named,
      eq_iff c.spool_dir "",
      file_content_self name (record { content = some rec; mod_time = (now w).0 }) files,
    )

keep_record_lem :
    (codec : Codec) (disk : Disk) (c : Client) (rec : SpoolRecord) (e : Failure) (w : World)
    → ((keep_record codec disk c rec e w).1 ≡ (spool disk c rec w).1)
      × ((keep_record codec disk c rec e w).0 ≡ done → (spool disk c rec w).0 ≡ ok tt)
unfolding keep_record
keep_record_lem codec disk c rec e w = from (spool disk c rec w).0 refl
  where
    from :
        (o : Outcome (Unit {0}))
        → (spool disk c rec w).0 ≡ o
        → ((keep_record codec disk c rec e w).1 ≡ (spool disk c rec w).1)
          × ((keep_record codec disk c rec e w).0 ≡ done → (spool disk c rec w).0 ≡ ok tt)
    from (ok u) k = (ground (arith, k), λ h. k)
    from (err why) k = (ground (arith, k), λ h. absurd (ground (arith, k, h)))

pub keep_record-IsSpooled :
    (codec : Codec) (disk : Disk) (c : Client) (rec : SpoolRecord) (e : Failure) (w : World)
    → c.spool_dir ≢ ""
    → (keep_record codec disk c rec e w).0 ≡ done
    → IsSpooled rec (keep_record codec disk c rec e w).1
keep_record-IsSpooled codec disk c rec e w named h =
    let both = keep_record_lem codec disk c rec e w in
    subst (IsSpooled rec) (sym both.0) (spool-IsSpooled disk c rec w named (both.1 h))

module _ (codec : Codec) (disk : Disk) (c : Client) (job token : String) (entries : List LogEntry)
    (w : World) where
  sent_logs : Answer × World
  sent_logs = post codec.read_envelope c no_result (job_path job "logs") (logs_body token entries) w

  post_logs_answered :
      (size : ℕ) (raw : String)
      → sent_logs.0 ≡ answered size raw
      → (post_logs codec disk c job token entries w).1 ≡ sent_logs.1
  unfolding post_logs sent_logs
  post_logs_answered size raw k = ground (arith, k)

  post_logs_kept :
      (e : Failure)
      → sent_logs.0 ≡ failed e
      → is_permanent e ≡ false
      → post_logs codec disk c job token entries w
        ≡ keep_record codec disk c (logs_record codec disk c job token entries) e sent_logs.1
  unfolding post_logs sent_logs
  post_logs_kept e k p = ground (arith, k, p)

  post_logs_permanent :
      (e : Failure)
      → sent_logs.0 ≡ failed e
      → is_permanent e ≡ true
      → (post_logs codec disk c job token entries w).0 ≢ done
  unfolding post_logs sent_logs
  post_logs_permanent e k p h = ground (arith, k, p, h)

-- If `post_logs` reports no error, then either the server has answered the batch that it is called with by a 2xx status, at
-- least once and at most as often as there are attempts, or a file of the spool holds the record of it. This needs a
-- spool directory in the client.
pub post_logs_durable :
    (codec : Codec) (disk : Disk) (c : Client) (job token : String) (entries : List LogEntry)
    (w : World)
    → c.spool_dir ≢ ""
    → (post_logs codec disk c job token entries w).0 ≡ done
    → IsAcked
        (record { path = job_path job "logs"; body = logs_body token entries })
        (retries c + 1)
        w
        (post_logs codec disk c job token entries w).1
      ⊎ IsSpooled
          (logs_record codec disk c job token entries)
          (post_logs codec disk c job token entries w).1
unfolding sent_logs
post_logs_durable codec disk c job token entries w named h =
    from (sent_logs codec disk c job token entries w).0 refl
  where
    from :
        (a : Answer)
        → (sent_logs codec disk c job token entries w).0 ≡ a
        → IsAcked
            (record { path = job_path job "logs"; body = logs_body token entries })
            (retries c + 1)
            w
            (post_logs codec disk c job token entries w).1
          ⊎ IsSpooled
              (logs_record codec disk c job token entries)
              (post_logs codec disk c job token entries w).1
    from (answered size raw) k = inl (
        subst
          (IsAcked (record { path = job_path job "logs"; body = logs_body token entries })
            (retries c + 1) w)
          (sym (post_logs_answered codec disk c job token entries w size raw k))
          (received-post codec.read_envelope no_result c (job_path job "logs")
            (logs_body token entries) w size raw k))
    from (failed e) k = elim (Bool-cases (is_permanent e)) [
      | inl p ↦ absurd (post_logs_permanent codec disk c job token entries w e k p h)
      | inr p ↦
          let kept = post_logs_kept codec disk c job token entries w e k p in
          inr (
            subst (λ r. IsSpooled (logs_record codec disk c job token entries) r.1) (sym kept)
              (keep_record-IsSpooled codec disk c (logs_record codec disk c job token entries) e
                (sent_logs codec disk c job token entries w).1 named
                (sym (ap (λ r. r.0) kept) ∙ h)))
    ]
