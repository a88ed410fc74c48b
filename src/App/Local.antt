-- ===== src/App/Local.antt =====
-- A scan whose result stays on the machine: a dry run, or one without an endpoint.
use sopdet.Prelude.{
  ℕ, ◌≡◌, refl, ap, sym, ◌∙◌, inl, inr, Bool, true, false, ◌≢◌, eq_iff, none, some, ◌++◌, ◌∷◌, [],
  ◌=ˢ◌, All, arith, Bool-cases,
}
use sopdet.Prelude.GoMap.{GoMap, IsMap}
use sopdet.Prelude.Outcome.{ok, Outcome-cases}
use sopdet.Config.{Config}
use sopdet.Schema.Types.{Envelope, EntityDelta, delta, HostIdentifier}
use sopdet.State.Delta.{State, snapshot, snapshot_maps, build_delta}
use sopdet.State.Storage.{Storage, document, save, load}
use sopdet.State.Unchanged.{IsEmptyDelta, build_delta-snapshot}
use sopdet.App.Budget.{Entities}
use sopdet.App.Identity.{build_identity}
use sopdet.App.Scan.{
  Machine, World, Result, Ran, no_envelope, is_empty, delta_to_any, state_path, is_remote,
  payload_of, conclude, deliver, write_output, budget, publish, scan, run,
}
use sopdet.App.Saved.{conclude-delivery}

-- A delta scan against a saved state that is not empty.
payload_of_document :
    (m : Machine) (cfg : Config) (es : Entities) (storage : Storage) (st : State)
    → cfg.delta ≡ true
    → state_path m cfg ≢ ""
    → storage.file ≡ document st
    → is_empty st.entities ≡ false
    → st.scan_id ≢ ""
    → payload_of m cfg es storage
      ≡ ok (record {
        action = delta;
        base = some st.scan_id;
        entities = delta_to_any (build_delta es st.entities);
      })
unfolding payload_of load
payload_of_document m cfg es storage st d path file some_maps id =
    ground (arith, d, path, file, some_maps, id, eq_iff (state_path m cfg) "", eq_iff st.scan_id "")

snapshot_some :
    (m : Machine) (es : Entities)
    → es ≢ []
    → is_empty
        (snapshot m.scan_id m.calendar_time m.agent_version "sha256-canonical-json/v1" es).entities
      ≡ false
unfolding snapshot snapshot_maps
snapshot_some m [] h = absurd (h refl)
snapshot_some m (e ∷ es) h = refl

module _ (m : Machine) (cfg : Config) (local : is_remote m cfg ≡ false) where
  deliver-delivery :
      (env : Envelope) (es : Entities) (failures : ℕ) (summarized : Bool) (w : World)
      → (deliver m cfg env es failures summarized w).world.delivery ≡ w.delivery
  unfolding deliver
  deliver-delivery env es failures summarized w = elim (Bool-cases (cfg.output_path =ˢ "")) [
    | inl blank ↦ elim (Bool-cases m.can_marshal) [
      | inl can ↦ rw (local, blank, can) (conclude-delivery _ _ es failures summarized _ _)
      | inr cannot ↦ rw (local, blank, cannot) refl
    ]
    | inr given ↦ rw (local, given) (conclude-delivery _ _ es failures summarized _ _)
  ]

  write_output-delivery :
      (env : Envelope) (w : World) → (write_output m cfg env w).1.delivery ≡ w.delivery
  unfolding write_output
  write_output-delivery env w = ground arith

  publish-delivery :
      (env : Envelope) (w : World) → (publish m cfg env w).world.delivery ≡ w.delivery
  unfolding publish
  publish-delivery env w = elim (Outcome-cases (write_output m cfg env w).0) [
    | inl (e, p) ↦ rw (publish, p) (write_output-delivery env w)
    | inr (u, p) ↦ rw (publish, p) (deliver-delivery env _ _ _ _ ∙ write_output-delivery env w)
  ]

  scan-delivery : (id : HostIdentifier) (w : World) → (scan m cfg id w).world.delivery ≡ w.delivery
  unfolding scan
  scan-delivery id w = elim (Outcome-cases (payload_of m cfg (budget m cfg).entities w.storage)) [
    | inl (e, p) ↦ rw (scan, p) refl
    | inr (payload, p) ↦ rw (scan, p) (publish-delivery _ _)
  ]

  -- A scan that is a dry run or has no endpoint posts nothing and spools nothing: the spool, the server's and the
  -- network's part of the world are as before, whatever the collectors found and whatever failed.
  pub run-delivery : (w : World) → (run m cfg w).world.delivery ≡ w.delivery
  unfolding run
  run-delivery w = elim (Outcome-cases (build_identity m.platform w.instance_file).0) [
    | inl (e, p) ↦ rw (run, p) refl
    | inr (id, p) ↦ rw (run, p) (scan-delivery _ _)
  ]

  -- What a run remembers of its entities.
  abbrev pub saved_state : State
  saved_state =
      snapshot m.scan_id m.calendar_time m.agent_version "sha256-canonical-json/v1"
        (budget m cfg).entities

  module _ (path : state_path m cfg ≢ "") where
    conclude-file :
        (es : Entities) (failures : ℕ) (res : Result) (w : World)
        → res.delivered ≡ true
        → (conclude m cfg es failures false res w).error ≡ none
        → (conclude m cfg es failures false res w).world.storage.file
          ≡ document
              (snapshot m.scan_id m.calendar_time m.agent_version "sha256-canonical-json/v1" es)
    unfolding conclude save
    conclude-file es failures res w done fine =
        ground (arith, done, fine, path, eq_iff (state_path m cfg) "")

    -- Without an error, a delivery that stays local is a conclusion that reports it as done.
    deliver_local :
        (env : Envelope) (es : Entities) (failures : ℕ) (w : World)
        → (deliver m cfg env es failures false w).error ≡ none
        → (res : Result) × (w₁ : World) × (res.delivered ≡ true)
          × (deliver m cfg env es failures false w ≡ conclude m cfg es failures false res w₁)
    unfolding deliver
    deliver_local env es failures w fine = elim (Bool-cases (cfg.output_path =ˢ "")) [
      | inl blank ↦ elim (Bool-cases m.can_marshal) [
        | inl can ↦ (
          sent,
          record w { printed = w.printed ++ (env ∷ []) },
          refl,
          ground (arith, local, blank, can),
        )
        | inr cannot ↦ absurd (ground (arith, local, blank, cannot, fine))
      ]
      | inr given ↦ (sent, w, refl, ground (arith, local, given))
    ]
      where
        sent : Result
        sent = record no_envelope { envelope = some env; delivered = true }

    deliver-file :
        (env : Envelope) (es : Entities) (failures : ℕ) (w : World)
        → (deliver m cfg env es failures false w).error ≡ none
        → (deliver m cfg env es failures false w).world.storage.file
          ≡ document
              (snapshot m.scan_id m.calendar_time m.agent_version "sha256-canonical-json/v1" es)
    deliver-file env es failures w fine =
        let (res, w₁, done, same) = deliver_local env es failures w fine in
        ap (λ r. r.world.storage.file) same
        ∙ conclude-file es failures res w₁ done (sym (ap (λ r. r.error) same) ∙ fine)

    -- From the delivery back to the run.
    abbrev Saves : Ran → Type 0
    Saves r = r.error ≡ none → r.world.storage.file ≡ document saved_state

    module _ (whole : (budget m cfg).summarized ≡ false) where
      publish-Saves : (env : Envelope) (w : World) → Saves (publish m cfg env w)
      unfolding publish snapshot
      publish-Saves env w = elim (Outcome-cases (write_output m cfg env w).0) [
        | inl (e, p) ↦ rw (publish, p) (λ fine. absurd (ground (arith, fine)))
        | inr (u, p) ↦ rw (publish, p, whole) (deliver-file env _ _ _)
      ]

      scan-Saves : (id : HostIdentifier) (w : World) → Saves (scan m cfg id w)
      unfolding scan snapshot
      scan-Saves id w = elim (Outcome-cases (payload_of m cfg (budget m cfg).entities w.storage)) [
        | inl (e, p) ↦ rw (scan, p) (λ fine. absurd (ground (arith, fine)))
        | inr (payload, p) ↦ rw (scan, p) (publish-Saves _ _)
      ]

      pub run-Saves : (w : World) → Saves (run m cfg w)
      unfolding run snapshot
      run-Saves w = elim (Outcome-cases (build_identity m.platform w.instance_file).0) [
        | inl (e, p) ↦ rw (run, p) (λ fine. absurd (ground (arith, fine)))
        | inr (id, p) ↦ rw (run, p) (scan-Saves _ _)
      ]

      -- A dry run, or any run without an endpoint, that has a scan id and ends without an error on at least one collection,
      -- of which none was summarized, makes every later delta scan of the same entities, at the same state path, report
      -- no addition, change or removal, with the identifier of that run as its base; and the run has posted nothing.
      pub rescan-run :
          (cfg₂ : Config)
          → cfg₂.delta ≡ true
          → state_path m cfg₂ ≡ state_path m cfg
          → m.scan_id ≢ ""
          → IsMap (budget m cfg).entities
          → (budget m cfg).entities ≢ []
          → (w : World) → (run m cfg w).error ≡ none
          → ((run m cfg w).world.delivery ≡ w.delivery)
            × ((ds : GoMap EntityDelta) × (All (λ entry. IsEmptyDelta (entry.1)) ds)
                × (payload_of m cfg₂ (budget m cfg).entities (run m cfg w).world.storage
                    ≡ ok (record {
                      action = delta;
                      base = some m.scan_id;
                      entities = delta_to_any ds;
                    })))
      unfolding snapshot
      rescan-run cfg₂ d same id names some_names w fine = (
        run-delivery w,
        (
          build_delta (budget m cfg).entities saved_state.entities,
          build_delta-snapshot m.scan_id m.calendar_time m.agent_version "sha256-canonical-json/v1"
              (budget m cfg).entities names,
          payload_of_document m cfg₂ (budget m cfg).entities (run m cfg w).world.storage saved_state
              d (λ e. path (sym same ∙ e)) (run-Saves w fine)
              (snapshot_some m (budget m cfg).entities some_names) id,
        ),
      )
