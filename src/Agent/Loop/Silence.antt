-- ===== src/Agent/Loop/Silence.antt =====
-- internal/agent/loop.go: what `process` sends when the server or the shutdown has taken the job from it.
use mathlib.Core.Path.{subst}
use sopdet.Prelude.{
  ℕ, zero, suc, ◌+◌, ◌≡◌, ◌≢◌, refl, ap, sym, ◌∙◌, ◌⊎◌, inl, inr, String, Bool, true, false, Option,
  none, List, [], ◌∷◌, ◌++◌, append_assoc, append-nil, All, All-append, arith, Option-cases,
}
use sopdet.Agent.Runner.Stream.{LogEntry}
use sopdet.Agent.Runner.Calls.{calls}
use sopdet.Agent.Client.Post.{
  EndpointError, Body, Reply, Request, World, Failure, transport, Answer, answered, failed, Client,
  retries, exchange, wait_backoff, pause, judge, try_post, post, no_result, SpoolRecord,
  running_body, logs_body,
}
use sopdet.Agent.Client.Spool.{Disk, job_path, spool}
use sopdet.Agent.Client.Calls.{
  Done, done, error, ClaimedJob, Codec, keep_record, logs_record, report_running, post_logs,
}
use sopdet.Agent.Loop.Defs.{Execution, post_entries, pumps_of, run, verdict, process}

-- From the first world to the second, the requests that are sent all have the property.
abbrev pub SendsOnly : (Request → Type 0) → World → World → Type 0
SendsOnly P w w' = (more : List Request) × (w'.sent ≡ w.sent ++ more) × All P more

SendsOnly-quiet : (P : Request → Type 0) (w w' : World) → w'.sent ≡ w.sent → SendsOnly P w w'
SendsOnly-quiet P w w' e = ([], e ∙ sym (append-nil w.sent), tt)

SendsOnly-chain :
    (P : Request → Type 0) (u v w : World) → SendsOnly P u v → SendsOnly P v w → SendsOnly P u w
SendsOnly-chain P u v w (xs, e, h) (ys, f, k) =
    (xs ++ ys, f ∙ ap (λ l. l ++ ys) e ∙ append_assoc u.sent xs ys, All-append P xs ys h k)

exchange-SendsOnly :
    (P : Request → Type 0) (r : Request) (w : World) → P r → SendsOnly P w (exchange r w).1
unfolding exchange
exchange-SendsOnly P r w h = from w.replies refl
  where
    from : (l : List Reply) → w.replies ≡ l → SendsOnly P w (exchange r w).1
    from [] e = (r ∷ [], ground (arith, e), (h, tt))
    from (a ∷ rest) e = (r ∷ [], ground (arith, e), (h, tt))

pause-SendsOnly : (P : Request → Type 0) (a : ℕ) (w : World) → SendsOnly P w (pause a w).1
unfolding pause wait_backoff
pause-SendsOnly P a w = SendsOnly-quiet P w (pause a w).1 (from w.cuts refl)
  where
    from : (l : List Bool) → w.cuts ≡ l → (pause a w).1.sent ≡ w.sent
    from [] e = ground (arith, e)
    from (cut ∷ rest) e = ground (arith, e)

module _ (P : Request → Type 0) (read_envelope : String → Option EndpointError)
    (decodes : String → Bool) where
  try_post-SendsOnly :
      (r : Request) (left a : ℕ) (last : Failure) (w : World)
      → P r
      → SendsOnly P w (try_post read_envelope decodes r left a last w).1
  unfolding try_post
  try_post-SendsOnly r zero a last w h = SendsOnly-quiet P w w refl
  try_post-SendsOnly r (suc left) a last w h =
      from (pause a w).0 (judge read_envelope decodes (exchange r (pause a w).1).0)
        (λ e. try_post-SendsOnly r left (a + 1) e (exchange r (pause a w).1).1 h) refl refl
    where
      w1 : World
      w1 = (pause a w).1

      w2 : World
      w2 = (exchange r w1).1

      whole : World
      whole = (try_post read_envelope decodes r (suc left) a last w).1

      reach : SendsOnly P w w2
      reach = SendsOnly-chain P w w1 w2 (pause-SendsOnly P a w) (exchange-SendsOnly P r w1 h)

      from :
          (go : Bool) (j : Answer ⊎ Failure)
          → ((e : Failure) → SendsOnly P w2 (try_post read_envelope decodes r left (a + 1) e w2).1)
          → (pause a w).0 ≡ go
          → judge read_envelope decodes (exchange r w1).0 ≡ j
          → SendsOnly P w whole
      from false j ih g k =
          let same : whole ≡ w1 = ground (arith, g) in
          subst (SendsOnly P w) (sym same) (pause-SendsOnly P a w)
      from true (inl answer) ih g k =
          let same : whole ≡ w2 = ground (arith, g, k) in subst (SendsOnly P w) (sym same) reach
      from true (inr e) ih g k =
          let later : World = (try_post read_envelope decodes r left (a + 1) e w2).1 in
          let same : whole ≡ later = ground (arith, g, k) in
          subst (SendsOnly P w) (sym same) (SendsOnly-chain P w w2 later reach (ih e))

  post-SendsOnly :
      (c : Client) (path : String) (body : Body) (w : World)
      → P (record { path = path; body = body })
      → SendsOnly P w (post read_envelope c decodes path body w).1
  unfolding post
  post-SendsOnly c path body w h =
      try_post-SendsOnly (record { path = path; body = body }) (retries c + 1) 0 transport w h

keep_record_sent :
    (codec : Codec) (disk : Disk) (c : Client) (rec : SpoolRecord) (e : Failure) (w : World)
    → (keep_record codec disk c rec e w).1.sent ≡ w.sent
unfolding keep_record spool
keep_record_sent codec disk c rec e w = elim (Option-cases w.spool_files) [
  | inl absent ↦ ground (arith, absent)
  | inr (files, there) ↦ ground (arith, there)
]

-- A report that the job runs, or logs of it.
abbrev pub IsProgress : ClaimedJob → Request → Type 0
IsProgress job r = (r.path ≡ job_path job.job_id "running") ⊎ (r.path ≡ job_path job.job_id "logs")

module _ (codec : Codec) (disk : Disk) (c : Client) (job : ClaimedJob) where
  Answer-cases :
      (a : Answer)
      → ((n : ℕ) × (raw : String) × (a ≡ answered n raw)) ⊎ ((e : Failure) × (a ≡ failed e))
  Answer-cases (answered n raw) = inl (n, raw, refl)
  Answer-cases (failed e) = inr (e, refl)

  post_logs-SendsOnly :
      (entries : List LogEntry) (w : World)
      → SendsOnly (IsProgress job) w (post_logs codec disk c job.job_id job.claim_token entries w).1
  unfolding post_logs
  post_logs-SendsOnly entries w =
      let p =
        post codec.read_envelope c no_result (job_path job.job_id "logs")
          (logs_body job.claim_token entries) w in
      let w' = (post_logs codec disk c job.job_id job.claim_token entries w).1 in
      let sends =
        post-SendsOnly (IsProgress job) codec.read_envelope no_result c (job_path job.job_id "logs")
          (logs_body job.claim_token entries) w (inr refl) in
      let same : w'.sent ≡ p.1.sent = elim (Answer-cases p.0) [
        | inl (n, raw, e) ↦ ground (arith, e)
        | inr (why, e) ↦ ground (
          arith,
          e,
          keep_record_sent codec disk c
              (logs_record codec disk c job.job_id job.claim_token entries) why p.1,
        )
      ] in
      SendsOnly-chain (IsProgress job) w p.1 w' sends (SendsOnly-quiet (IsProgress job) p.1 w' same)

  post_entries-SendsOnly :
      (es : List LogEntry) (w : World)
      → SendsOnly (IsProgress job) w (post_entries codec disk c job es w)
  unfolding post_entries
  post_entries-SendsOnly [] w = SendsOnly-quiet (IsProgress job) w w refl
  post_entries-SendsOnly (e ∷ es) w =
      let w1 = (post_logs codec disk c job.job_id job.claim_token (e ∷ []) w).1 in
      SendsOnly-chain (IsProgress job) w w1 (post_entries codec disk c job es w1)
        (post_logs-SendsOnly (e ∷ []) w) (post_entries-SendsOnly es w1)

  report_running-SendsOnly :
      (w : World)
      → SendsOnly (IsProgress job) w (report_running codec disk c job.job_id job.claim_token w).1
  unfolding report_running
  report_running-SendsOnly w =
      let p =
        post codec.read_envelope c no_result (job_path job.job_id "running")
          (running_body job.claim_token c.session_id) w in
      let w' = (report_running codec disk c job.job_id job.claim_token w).1 in
      let sends =
        post-SendsOnly (IsProgress job) codec.read_envelope no_result c
          (job_path job.job_id "running") (running_body job.claim_token c.session_id) w
          (inl refl) in
      let same : w' ≡ p.1 = elim (Answer-cases p.0) [
        | inl (n, raw, e) ↦ ground (arith, e)
        | inr (why, e) ↦ ground (arith, e)
      ] in
      subst (SendsOnly (IsProgress job) w) (sym same) sends

  -- If the server refuses the report that a started process runs, or the context of the serve loop is cancelled by the
  -- end of the run, then `process` sends nothing but such reports and logs of this job: no result, and no replay of
  -- the spool.
  pub process-SendsOnly :
      (x : Execution) (w : World)
      → x.spawn_error ≡ none
      → ((report_running codec disk c job.job_id job.claim_token w).0 ≢ done)
        ⊎ (x.serve_cancelled ≡ true)
      → SendsOnly (IsProgress job) w (process codec disk c job x w)
  unfolding process run verdict
  process-SendsOnly x w s over =
      from (report_running codec disk c job.job_id job.claim_token w).0 refl
    where
      w1 : World
      w1 = (report_running codec disk c job.job_id job.claim_token w).1

      entries : List LogEntry
      entries = calls x.delays none (pumps_of job x).logs

      from :
          (d : Done)
          → (report_running codec disk c job.job_id job.claim_token w).0 ≡ d
          → SendsOnly (IsProgress job) w (process codec disk c job x w)
      from (error e) k =
          let same : process codec disk c job x w ≡ w1 = ground (arith, s, k) in
          subst (SendsOnly (IsProgress job) w) (sym same) (report_running-SendsOnly w)
      from done k = elim over [
        | inl refused ↦ absurd (refused k)
        | inr shut ↦
            let w2 : World = post_entries codec disk c job entries w1 in
            let same : process codec disk c job x w ≡ w2 = ground (arith, s, k, shut) in
            subst (SendsOnly (IsProgress job) w) (sym same) (
              SendsOnly-chain (IsProgress job) w w1 w2 (report_running-SendsOnly w)
                (post_entries-SendsOnly entries w1))
      ]
