-- ===== src/App/Saved.antt =====
-- When a scan changes the saved state.
use mathlib.Core.Path.{subst}
use sopdet.Prelude.{
  ℕ, String, ◌≡◌, refl, ap, sym, ◌∙◌, ◌⊎◌, inl, inr, Bool, true, false, not, ◌&&◌, none, some,
  length, arith, Bool-cases, Option-cases,
}
use sopdet.Prelude.Outcome.{Outcome-cases}
use sopdet.Config.{Config}
use sopdet.Schema.Types.{Envelope, HostIdentifier}
use sopdet.State.Storage.{Storage, save}
use sopdet.Ingest.Send.{Sent, send}
use sopdet.Ingest.Sent.{IsReceived, send-IsReceived}
use sopdet.App.Budget.{Entities}
use sopdet.App.Identity.{build_identity}
use sopdet.App.Scan.{
  Machine, World, Result, Ran, is_remote, payload_of, options, conclude, deliver, write_output,
  gather, budget, publish, scan, run,
}

module _ (m : Machine) (cfg : Config) where
  -- The state is as before, or the result reports the delivery of entities that were not summarized.
  conclude-storage :
      (es : Entities) (failures : ℕ) (summarized : Bool) (res : Result) (w : World)
      → ((conclude m cfg es failures summarized res w).world.storage ≡ w.storage)
        ⊎ ((res.delivered ≡ true) × (summarized ≡ false))
  unfolding conclude
  conclude-storage es failures summarized res w =
      elim (Bool-cases (res.delivered && not summarized)) [
        | inl go ↦ inr (ground (arith, go))
        | inr stop ↦ inl (ground (arith, stop))
      ]

  pub conclude-delivery :
      (es : Entities) (failures : ℕ) (summarized : Bool) (res : Result) (w : World)
      → (conclude m cfg es failures summarized res w).world.delivery ≡ w.delivery
  unfolding conclude save
  conclude-delivery es failures summarized res w =
      elim (Bool-cases (res.delivered && not summarized)) [
        | inl go ↦ ground (arith, go)
        | inr stop ↦ ground (arith, stop)
      ]

  conclude-result :
      (es : Entities) (failures : ℕ) (summarized : Bool) (res : Result) (w : World)
      → (conclude m cfg es failures summarized res w).result ≡ res
  unfolding conclude
  conclude-result es failures summarized res w =
      elim (Bool-cases (res.delivered && not summarized)) [
        | inl go ↦ ground (arith, go)
        | inr stop ↦ ground (arith, stop)
      ]

  -- What a scan has done to the saved state: nothing, or it has delivered the envelope that it returns.
  abbrev pub SavesDelivered : Storage → Ran → Type 0
  SavesDelivered storage r =
      (r.world.storage ≡ storage)
      ⊎ ((env : Envelope) × (r.result.envelope ≡ some env)
          × (r.result.summarized ≡ false)
          × IsReceived m.codec m.host env (options m cfg) r.world.delivery)

  module _ (env : Envelope) (es : Entities) (failures : ℕ) (summarized : Bool) (w : World)
      (remote : is_remote m cfg ≡ true) where
    abbrev sent : Sent m.codec
    sent = send m.codec m.host env (options m cfg) w.delivery

    -- What `deliver` goes on with if nothing failed.
    abbrev sent_result : Result
    sent_result = record {
      envelope = some env;
      delivered = sent.result.delivered;
      chunks = sent.result.chunks;
      spooled = sent.result.spooled;
      summarized = summarized;
    }

    deliver_sent :
        sent.error ≡ none
        → deliver m cfg env es failures summarized w
          ≡ conclude m cfg es failures summarized sent_result (record w { delivery = sent.world })
    unfolding deliver
    deliver_sent p = ground (arith, remote, p)

    deliver_failed :
        (e : String)
        → sent.error ≡ some e
        → (deliver m cfg env es failures summarized w).world.storage ≡ w.storage
    unfolding deliver
    deliver_failed e p = rw (remote, p) refl

    conclude_sent :
        sent.error ≡ none
        → SavesDelivered w.storage
            (conclude m cfg es failures summarized sent_result (record w { delivery = sent.world }))
    conclude_sent p =
        elim (conclude-storage es failures summarized sent_result
          (record w { delivery = sent.world })) [
            | inl kept ↦ inl kept
            | inr (done, whole) ↦
                let (valid, got) =
                  send-IsReceived m.codec m.host env (options m cfg) w.delivery p done in
                let same =
                  conclude-result es failures summarized sent_result
                    (record w { delivery = sent.world }) in
                let end =
                  conclude-delivery es failures summarized sent_result
                    (record w { delivery = sent.world }) in
                inr (
                  env,
                  ap (λ r. r.envelope) same,
                  ap (λ r. r.summarized) same ∙ whole,
                  subst (λ d. IsReceived m.codec m.host env (options m cfg) d) (sym end) got,
                )
          ]

    deliver-SavesDelivered : SavesDelivered w.storage (deliver m cfg env es failures summarized w)
    deliver-SavesDelivered = elim (Option-cases sent.error) [
      | inl none_sent ↦
          subst (λ r. SavesDelivered w.storage r) (sym (deliver_sent none_sent))
            (conclude_sent none_sent)
      | inr (e, bad) ↦ inl (deliver_failed e bad)
    ]

  write_output-storage :
      (env : Envelope) (w : World) → (write_output m cfg env w).1.storage ≡ w.storage
  unfolding write_output
  write_output-storage env w = ground arith

  module _ (remote : is_remote m cfg ≡ true) where
    publish-SavesDelivered :
        (env : Envelope) (w : World) → SavesDelivered w.storage (publish m cfg env w)
    unfolding publish
    publish-SavesDelivered env w = elim (Outcome-cases (write_output m cfg env w).0) [
      | inl (e, p) ↦ inl (rw (publish, p) (write_output-storage env w))
      | inr (u, p) ↦
          rw (publish, p)
            (subst
              (λ st. SavesDelivered st (
                deliver m cfg env ((budget m cfg).entities) (length (gather m cfg).errors)
                  ((budget m cfg).summarized) (write_output m cfg env w).1))
              (write_output-storage env w) (deliver-SavesDelivered env _ _ _ _ remote))
    ]

    scan-SavesDelivered :
        (id : HostIdentifier) (w : World) → SavesDelivered w.storage (scan m cfg id w)
    unfolding scan
    scan-SavesDelivered id w =
        elim (Outcome-cases (payload_of m cfg (budget m cfg).entities w.storage)) [
          | inl (e, p) ↦ inl (rw (scan, p) refl)
          | inr (payload, p) ↦ rw (scan, p) (publish-SavesDelivered _ _)
        ]

    -- When results go to an endpoint, a scan leaves the saved state as it was, or the entities of the envelope that it
    -- returns are not summarized and the server has received every group of that envelope.
    pub run-SavesDelivered : (w : World) → SavesDelivered w.storage (run m cfg w)
    unfolding run
    run-SavesDelivered w = elim (Outcome-cases (build_identity m.platform w.instance_file).0) [
      | inl (e, p) ↦ inl (rw (run, p) refl)
      | inr (id, p) ↦ rw (run, p) (scan-SavesDelivered _ _)
    ]
