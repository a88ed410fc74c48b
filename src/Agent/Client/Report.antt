-- ===== src/Agent/Client/Report.antt =====
-- What becomes of the result of a job when the server cannot be reached.
use mathlib.Core.Path.{subst}
use sopdet.Prelude.{
  ◌+◌, ◌≡◌, ◌≢◌, refl, ap, sym, ◌∙◌, ◌⊎◌, inl, inr, String, ℕ, true, false, arith, eq_iff,
  Bool-cases,
}
use sopdet.Agent.Client.Post.{
  result_body, ResultPayload, World, Failure, Answer, answered, failed, Client, retries, post,
  is_fenced, is_permanent, no_result,
}
use sopdet.Agent.Client.Spool.{Disk, drain_spool, job_path}
use sopdet.Agent.Client.Calls.{done, Codec, result_record, keep_record, report_result}
use sopdet.Agent.Client.Retry.{IsAcked, received-post}
use sopdet.Agent.Client.Durable.{IsSpooled, keep_record-IsSpooled}

module _ (codec : Codec) (disk : Disk) (c : Client) (job : String) (result : ResultPayload)
    (w : World) where
  -- The world after the drain that comes first.
  abbrev pub drained : World
  drained = (drain_spool codec.read_envelope disk c w).1

  sent_result : Answer × World
  sent_result =
      post codec.read_envelope c no_result (job_path job "result") (result_body result) drained

  report_result_answered :
      (size : ℕ) (raw : String)
      → c.spool_dir ≢ ""
      → sent_result.0 ≡ answered size raw
      → (report_result codec disk c job result w).1 ≡ sent_result.1
  unfolding report_result sent_result
  report_result_answered size raw named k = ground (arith, k, named, eq_iff c.spool_dir "")

  report_result_kept :
      (e : Failure)
      → c.spool_dir ≢ ""
      → sent_result.0 ≡ failed e
      → is_fenced e ≡ false
      → is_permanent e ≡ false
      → report_result codec disk c job result w
        ≡ keep_record codec disk c (result_record codec disk c job result) e sent_result.1
  unfolding report_result sent_result
  report_result_kept e named k f p = ground (arith, k, f, p, named, eq_iff c.spool_dir "")

  report_result_fails :
      (e : Failure)
      → c.spool_dir ≢ ""
      → sent_result.0 ≡ failed e
      → (is_fenced e ≡ true) ⊎ (is_permanent e ≡ true)
      → (report_result codec disk c job result w).0 ≢ done
  unfolding report_result sent_result
  report_result_fails e named k f h = elim (Bool-cases (is_fenced e)) [
    | inl yes_it ↦ ground (arith, k, yes_it, h, named, eq_iff c.spool_dir "")
    | inr no_it ↦ ground (arith, k, no_it, f, h, named, eq_iff c.spool_dir "")
  ]

  -- If `report_result` reports no error, then after the drain that comes first, either the server has answered the result
  -- that it is called with by a 2xx status, at least once and at most as often as there are attempts, or a file of the
  -- spool holds the record of it. This needs a spool directory in the client.
  pub report_result_durable :
      c.spool_dir ≢ ""
      → (report_result codec disk c job result w).0 ≡ done
      → IsAcked
          (record { path = job_path job "result"; body = result_body result })
          (retries c + 1)
          drained
          (report_result codec disk c job result w).1
        ⊎ IsSpooled
            (result_record codec disk c job result)
            (report_result codec disk c job result w).1
  unfolding sent_result
  report_result_durable named h = from sent_result.0 refl
    where
      from :
          (a : Answer)
          → sent_result.0 ≡ a
          → IsAcked
              (record { path = job_path job "result"; body = result_body result })
              (retries c + 1)
              drained
              (report_result codec disk c job result w).1
            ⊎ IsSpooled
                (result_record codec disk c job result)
                (report_result codec disk c job result w).1
      from (answered size raw) k = inl (
          subst
            (IsAcked (record { path = job_path job "result"; body = result_body result })
              (retries c + 1) drained)
            (sym (report_result_answered size raw named k))
            (received-post codec.read_envelope no_result c (job_path job "result")
              (result_body result) drained size raw k))
      from (failed e) k = elim (Bool-cases (is_fenced e)) [
        | inl f ↦ absurd (report_result_fails e named k (inl f) h)
        | inr f ↦ elim (Bool-cases (is_permanent e)) [
          | inl p ↦ absurd (report_result_fails e named k (inr p) h)
          | inr p ↦
              let kept = report_result_kept e named k f p in
              inr (
                subst (λ r. IsSpooled (result_record codec disk c job result) r.1) (sym kept)
                  (keep_record-IsSpooled codec disk c (result_record codec disk c job result) e
                    sent_result.1 named (sym (ap (λ r. r.0) kept) ∙ h)))
        ]
      ]
