-- ===== src/Ingest/Sent.antt =====
-- The whole of `Send`: what it returns, against what the server has received.
use Prim.Native.String.{len}
use mathlib.Core.Path.{subst}
use sopdet.Prelude.{inl, inr, ℕ, String, ◌≡◌, refl, ap, sym, ◌∙◌, true, none, List, length, arith}
use sopdet.Prelude.Outcome.{ok, Outcome-cases}
use sopdet.Schema.Types.{Envelope}
use sopdet.Ingest.Chunks.{Group, make_groups}
use sopdet.Ingest.World.{World, Host, Options}
use sopdet.Ingest.Send.{
  Codec, Result, no_result, validate_endpoint, scoped_spool_dir, wire, trial_size, send_groups,
  send,
}
use sopdet.Ingest.Lossless.{AllReceived, send_groups-AllReceived}

module _ (codec : Codec) (host : Host) (env : Envelope) (o : Options) where
  -- The options with the spool directory of the endpoint and key.
  abbrev pub scoped : Options
  scoped = record o { spool_dir = scoped_spool_dir codec o.spool_dir o.endpoint o.api_key }

  -- The groups of an envelope whose whole payload has this size.
  abbrev pub groups_of : ℕ → List Group
  groups_of whole_size =
      make_groups (trial_size codec env o.compress) o.chunk_bytes env.entities whole_size

  send_wired :
      (w : World) (u : Unit {0}) (doc whole : String)
      → validate_endpoint codec o.endpoint ≡ ok u
      → codec.marshal_envelope env ≡ ok doc
      → wire codec o.compress doc ≡ ok whole
      → send codec host env o w
        ≡ send_groups codec host env scoped
            (groups_of (len whole))
            (record no_result { uncompressed_bytes = len doc; compressed_bytes = len whole })
            w
  unfolding send
  send_wired w u doc whole p q r = rw (send, p, q, r) refl

  -- The text that would be sent whole: the envelope in JSON, and compressed if the options say so.
  abbrev pub IsWhole : String → Type 0
  IsWhole whole =
      (doc : String) × (codec.marshal_envelope env ≡ ok doc)
      × (wire codec o.compress doc ≡ ok whole)

  -- A run of `send` without an error is one of `send_groups`, on an endpoint that may be used.
  send_ran :
      (w : World)
      → (send codec host env o w).error ≡ none
      → (validate_endpoint codec o.endpoint ≡ ok tt)
        × ((whole : String) × IsWhole whole
            × ((res : Result) × (send codec host env o w
                  ≡ send_groups codec host env scoped (groups_of (len whole)) res w)))
  unfolding send
  send_ran w fine = elim (Outcome-cases (validate_endpoint codec o.endpoint)) [
    | inl (e, p) ↦ absurd (ground (arith, p, fine))
    | inr (u, p) ↦ elim (Outcome-cases (codec.marshal_envelope env)) [
      | inl (e, q) ↦ absurd (ground (arith, p, q, fine))
      | inr (doc, q) ↦ elim (Outcome-cases (wire codec o.compress doc)) [
        | inl (e, r) ↦ absurd (ground (arith, p, q, r, fine))
        | inr (whole, r) ↦ (
          p,
          (
            whole,
            (doc, q, r),
            (
              record no_result { uncompressed_bytes = len doc; compressed_bytes = len whole },
              send_wired w u doc whole p q r,
            ),
          ),
        )
      ]
    ]
  ]

  -- The server has received the request of every group that the envelope is split into.
  abbrev pub IsReceived : World → Type 0
  IsReceived w =
      (whole : String) × IsWhole whole
      × AllReceived codec host env scoped (length (groups_of (len whole))) 0 (groups_of (len whole))
          w

  -- If `send` returns no error and reports the delivery, the endpoint may be used, and the server has the
  -- request of every group that the envelope is split into.
  pub send-IsReceived :
      (w : World)
      → (send codec host env o w).error ≡ none
      → (send codec host env o w).result.delivered ≡ true
      → (validate_endpoint codec o.endpoint ≡ ok tt) × IsReceived (send codec host env o w).world
  send-IsReceived w fine done =
      let (valid, (whole, is_whole, (res, e))) = send_ran w fine in
      (
        valid,
        (
          whole,
          is_whole,
          subst
              (λ r.
                AllReceived codec host env scoped (length (groups_of (len whole))) 0
                  (groups_of (len whole)) r.world)
              (sym e)
              (send_groups-AllReceived codec host env scoped (groups_of (len whole)) res w
                (sym (ap (λ r. r.error) e) ∙ fine) (sym (ap (λ r. r.result.delivered) e) ∙ done)),
        ),
      )
