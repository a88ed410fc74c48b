-- ===== src/Ingest/Lossless.antt =====
-- The loop of `Send` over the groups loses no request, and reports success only when the server has
-- every request.
use mathlib.Core.Path.{subst}
use sopdet.Prelude.{
  ℕ, ◌+◌, ◌<◌, String, ◌≡◌, ◌≢◌, refl, ap, sym, ◌∙◌, Bool, true, false, not, none, List, [], ◌∷◌,
  arith, Bool-cases, ◌⊎◌, inl, inr, length,
}
use sopdet.Prelude.Outcome.{Outcome, ok, err}
use sopdet.Schema.Types.{Envelope}
use sopdet.Ingest.Chunks.{Group}
use sopdet.Ingest.World.{World, Host, Options, post, spool_name, spool}
use sopdet.Ingest.Post.{Holds, post-keeps}
use sopdet.Ingest.World.{drain}
use sopdet.Ingest.Send.{Codec, request_of, deliver, Result, send_groups}
use sopdet.Ingest.Delivery.{Kept, post-file_at, spool-received, spool-file_at_self, spool-file_at}

module _ (codec : Codec) (host : Host) (env : Envelope) (o : Options) (count : ℕ) where
  -- Every group has a request, and the server or the spool has it.
  abbrev pub AllKept : ℕ → List Group → World → Type 0
  AllKept i [] w = Unit
  AllKept i (g ∷ gs) w =
      (req : String) × (request_of codec env o count i g ≡ ok req)
      × Kept host o i req w
      × AllKept (i + 1) gs w

  -- Every group has a request, and the server has it.
  abbrev pub AllReceived : ℕ → List Group → World → Type 0
  AllReceived i [] w = Unit
  AllReceived i (g ∷ gs) w =
      (req : String) × (request_of codec env o count i g ≡ ok req)
      × Holds req w.received
      × AllReceived (i + 1) gs w

  -- How one round of the loop goes on.
  data Round (i : ℕ) (g : Group) (gs : List Group) (flag : Bool) (w : World) : Type 0 where
    bad :
        (e : String)
        → deliver codec host env o count i (g ∷ gs) flag w ≡ (err e, w)
        → Round i g gs flag w
    unsaved :
        (e : String) (w' : World)
        → deliver codec host env o count i (g ∷ gs) flag w ≡ (err e, w')
        → Round i g gs flag w
    posted :
        (req : String)
        → request_of codec env o count i g ≡ ok req
        → (post host o req w).0 ≡ true
        → deliver codec host env o count i (g ∷ gs) flag w
          ≡ deliver codec host env o count (i + 1) gs flag (post host o req w).1
        → Round i g gs flag w
    saved :
        (req : String)
        → request_of codec env o count i g ≡ ok req
        → (spool host o i req (post host o req w).1).0 ≡ ok tt
        → deliver codec host env o count i (g ∷ gs) flag w
          ≡ deliver codec host env o count
              (i + 1)
              gs
              true
              (spool host o i req (post host o req w).1).1
        → Round i g gs flag w

  Outcome-cases :
      {A : Type 0} (m : Outcome A) → ((a : A) × (m ≡ ok a)) ⊎ ((e : String) × (m ≡ err e))
  Outcome-cases (ok a) = inl (a, refl)
  Outcome-cases (err e) = inr (e, refl)

  round : (i : ℕ) (g : Group) (gs : List Group) (flag : Bool) (w : World) → Round i g gs flag w
  unfolding deliver
  round i g gs flag w = elim (Outcome-cases (request_of codec env o count i g)) [
    | inr (e, bad_request) ↦ bad e (ground (arith, bad_request))
    | inl (req, good) ↦ elim (Bool-cases (post host o req w).0) [
      | inl done ↦ posted req good done (ground (arith, good, done))
      | inr lost ↦ elim (Outcome-cases (spool host o i req (post host o req w).1).0) [
        | inl (u, kept) ↦ saved req good kept (ground (arith, good, lost, kept))
        | inr (e, gone) ↦
            unsaved e (spool host o i req (post host o req w).1).1
              (ground (arith, good, lost, gone))
      ]
    ]
  ]

  -- What was kept under an earlier index is kept by a later round.
  post-Kept :
      (j : ℕ) (r req : String) (w : World)
      → Kept host o j r w
      → Kept host o j r (post host o req w).1
  post-Kept j r req w (inl h) = inl ((post-keeps host o req w).keeps r h)
  post-Kept j r req w (inr f) = inr (post-file_at host o (spool_name host o j) req w ∙ f)

  spool-Kept :
      (i j : ℕ) (r req : String) (w : World)
      → j < i
      → Kept host o j r w
      → Kept host o j r (spool host o i req w).1
  spool-Kept i j r req w lt (inl h) = inl (rw spool-received h)
  spool-Kept i j r req w lt (inr f) = inr (spool-file_at host o i j req w (omega arith) ∙ f)

  deliver-Kept_before :
      (i j : ℕ) (r : String) (gs : List Group) (flag : Bool) (w : World)
      → j < i
      → (out : Bool) (w' : World) → deliver codec host env o count i gs flag w ≡ (ok out, w')
      → Kept host o j r w
      → Kept host o j r w'
  deliver-Kept_before i j r [] flag w lt out w' e k =
      unfold deliver in subst (Kept host o j r) (ap (λ p. p.1) e) k
  deliver-Kept_before i j r (g ∷ gs) flag w lt out w' e k = elim (round i g gs flag w) [
    | bad x p ↦ cc (p, e)
    | unsaved x v p ↦ cc (p, e)
    | posted req good done p ↦
        deliver-Kept_before (i + 1) j r gs flag (post host o req w).1 (omega arith) out w'
          (sym p ∙ e) (post-Kept j r req w k)
    | saved req good kept p ↦
        deliver-Kept_before (i + 1) j r gs true (spool host o i req (post host o req w).1).1
          (omega arith) out w' (sym p ∙ e)
          (spool-Kept i j r req (post host o req w).1 lt (post-Kept j r req w k))
  ]

  -- If the loop ends without an error, the server or the spool has the request of every group.
  deliver-AllKept :
      (i : ℕ) (gs : List Group) (flag : Bool) (w : World) (out : Bool) (w' : World)
      → o.spool_dir ≢ ""
      → deliver codec host env o count i gs flag w ≡ (ok out, w')
      → AllKept i gs w'
  deliver-AllKept i [] flag w out w' h e = tt
  deliver-AllKept i (g ∷ gs) flag w out w' h e = elim (round i g gs flag w) [
    | bad x p ↦ cc (p, e)
    | unsaved x v p ↦ cc (p, e)
    | posted req good done p ↦
        let v = (post host o req w).1 in
        (
          req,
          good,
          deliver-Kept_before (i + 1) i req gs flag v (omega arith) out w' (sym p ∙ e)
              (inl ((post-keeps host o req w).gains done)),
          deliver-AllKept (i + 1) gs flag v out w' h (sym p ∙ e),
        )
    | saved req good kept p ↦
        let v = (post host o req w).1 in
        let u = (spool host o i req v).1 in
        (
          req,
          good,
          deliver-Kept_before (i + 1) i req gs true u (omega arith) out w' (sym p ∙ e)
              (inr (spool-file_at_self host o i req v h kept)),
          deliver-AllKept (i + 1) gs true u out w' h (sym p ∙ e),
        )
  ]

  received-deliver :
      (i : ℕ) (r : String) (gs : List Group) (flag : Bool) (w : World) (out : Bool) (w' : World)
      → deliver codec host env o count i gs flag w ≡ (ok out, w')
      → Holds r w.received
      → Holds r w'.received
  received-deliver i r [] flag w out w' e k =
      unfold deliver in subst (λ v. Holds r v.received) (ap (λ p. p.1) e) k
  received-deliver i r (g ∷ gs) flag w out w' e k = elim (round i g gs flag w) [
    | bad x p ↦ cc (p, e)
    | unsaved x v p ↦ cc (p, e)
    | posted req good done p ↦
        received-deliver (i + 1) r gs flag (post host o req w).1 out w' (sym p ∙ e)
          ((post-keeps host o req w).keeps r k)
    | saved req good kept p ↦
        received-deliver (i + 1) r gs true (spool host o i req (post host o req w).1).1 out w'
          (sym p ∙ e) (rw spool-received ((post-keeps host o req w).keeps r k))
  ]

  -- A failure is not forgotten.
  deliver_failed :
      (i : ℕ) (gs : List Group) (w : World) (out : Bool) (w' : World)
      → deliver codec host env o count i gs true w ≡ (ok out, w')
      → out ≡ true
  deliver_failed i [] w out w' e = unfold deliver in cc e
  deliver_failed i (g ∷ gs) w out w' e = elim (round i g gs true w) [
    | bad x p ↦ cc (p, e)
    | unsaved x v p ↦ cc (p, e)
    | posted req good done p ↦ deliver_failed (i + 1) gs (post host o req w).1 out w' (sym p ∙ e)
    | saved req good kept p ↦
        deliver_failed (i + 1) gs (spool host o i req (post host o req w).1).1 out w' (sym p ∙ e)
  ]

  -- If the loop ends without a failure, the server has the request of every group.
  deliver-AllReceived :
      (i : ℕ) (gs : List Group) (flag : Bool) (w w' : World)
      → deliver codec host env o count i gs flag w ≡ (ok false, w')
      → AllReceived i gs w'
  deliver-AllReceived i [] flag w w' e = tt
  deliver-AllReceived i (g ∷ gs) flag w w' e = elim (round i g gs flag w) [
    | bad x p ↦ cc (p, e)
    | unsaved x v p ↦ cc (p, e)
    | posted req good done p ↦
        let v = (post host o req w).1 in
        (
          req,
          good,
          received-deliver (i + 1) req gs flag v false w' (sym p ∙ e)
              ((post-keeps host o req w).gains done),
          deliver-AllReceived (i + 1) gs flag v w' (sym p ∙ e),
        )
    | saved req good kept p ↦
        let v = (post host o req w).1 in
        cc (deliver_failed (i + 1) gs (spool host o i req v).1 false w' (sym p ∙ e))
  ]

module _ (codec : Codec) (host : Host) (env : Envelope) (o : Options) (gs : List Group) where
  -- A run without an error is one of the loop, after the drain.
  send_groups_ran :
      (res : Result) (w : World)
      → (send_groups codec host env o gs res w).error ≡ none
      → (out : Bool) × (deliver codec host env o
            (length gs)
            0
            gs
            (not (drain host o w).0)
            (drain host o w).1
          ≡ (ok out, (send_groups codec host env o gs res w).world))
        × ((send_groups codec host env o gs res w).result.delivered ≡ not out)
  unfolding send_groups
  send_groups_ran res w fine =
      let run =
        deliver codec host env o (length gs) 0 gs (not (drain host o w).0) (drain host o w).1 in
      elim (Outcome-cases codec host env o (length gs) run.0) [
        | inl (out, e) ↦ (out, ground (arith, e, fine), ground (arith, e, fine))
        | inr (x, e) ↦ absurd (ground (arith, e, fine))
      ]

  -- If `Send` returns no error, the server or the spool has the request of every group.
  pub send_groups-AllKept :
      (res : Result) (w : World)
      → o.spool_dir ≢ ""
      → (send_groups codec host env o gs res w).error ≡ none
      → AllKept codec host env o (length gs) 0 gs (send_groups codec host env o gs res w).world
  send_groups-AllKept res w h fine =
      let (out, e, d) = send_groups_ran res w fine in
      deliver-AllKept codec host env o (length gs) 0 gs (not (drain host o w).0) (drain host o w).1
        out (send_groups codec host env o gs res w).world h e

  -- If `Send` returns no error and reports the delivery, the server has the request of every group.
  pub send_groups-AllReceived :
      (res : Result) (w : World)
      → (send_groups codec host env o gs res w).error ≡ none
      → (send_groups codec host env o gs res w).result.delivered ≡ true
      → AllReceived codec host env o (length gs) 0 gs (send_groups codec host env o gs res w).world
  send_groups-AllReceived res w fine yes_it =
      let (out, e, d) = send_groups_ran res w fine in
      let out_false : out ≡ false = ground (arith, d, yes_it) in
      deliver-AllReceived codec host env o (length gs) 0 gs (not (drain host o w).0)
        (drain host o w).1 (send_groups codec host env o gs res w).world (rw out_false at e)
