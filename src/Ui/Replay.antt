-- ===== src/Ui/Replay.antt =====
-- The page against the plain list of the events that were emitted.
use mathlib.Core.Path.{subst}
use sopdet.Prelude.{
  ℕ, zero, suc, ◌+◌, ◌-◌, ◌≤◌, ◌≡◌, refl, ap, sym, ◌∙◌, String, Bool, true, false, inl, inr, List,
  [], ◌∷◌, ◌++◌, append_assoc, append-nil, All, length, take, drop, length-append, length-take_le,
  ltb, ◌==◌, ◌=ˢ◌, if◌then◌else◌, Bool-cases, arith,
}
use sopdet.Ui.Server.{
  event_buffer, history_max, Viewer, Server, take_one, receive, receive_some, Pace, drop_oldest,
  push, offer, offer_all, bounded, emit, connect, read, leave, Op, emit_op, connect_op, read_op,
  leave_op, close_op, step, run, new,
}
use sopdet.Ui.Sublist.{
  Sublist, Sublist_trans, Sublist_more, Sublist-snoc, Sublist-drop, Sublist-take, Sublist-append,
  last, last-snoc, length-drop,
}

module _ (Event : Type 0) where
  -- What a viewer gets of the events, in any order of its own steps: some of them, each at most once, in their order.
  abbrev pub IsFaithful : List Event → ℕ × Viewer Event → Type 0
  IsFaithful log sub =
      Sublist ((sub.1).seen ++ (sub.1).queue) log × (length (sub.1).queue ≤ event_buffer)

  -- The page shows the events: their last 20000, and every viewer is faithful.
  abbrev pub Represents : List Event → Server Event → Type 0
  Represents log s = (s.history ≡ last history_max log) × All (IsFaithful log) s.subs

  -- The events that the operations emit until the page is closed.
  abbrev pub emitted : Bool → List (Op Event) → List Event
  emitted closed [] = []
  emitted closed (emit_op pace e ∷ ops) =
      let rest = emitted closed ops in if closed then rest else e ∷ rest
  emitted closed (connect_op id given ∷ ops) = emitted closed ops
  emitted closed (read_op id ∷ ops) = emitted closed ops
  emitted closed (leave_op id ∷ ops) = emitted closed ops
  emitted closed (close_op ∷ ops) = emitted true ops

  bounded-last : (h : List Event) → bounded Event h ≡ last history_max h
  unfolding bounded
  bounded-last h = elim (Bool-cases (ltb history_max (length h))) [
    | inl long ↦ rw (bounded, long) refl
    | inr short ↦
        rw (bounded, short)
          (ap (λ k. drop k h) {x = 0} {y = length h - history_max} (ground (arith, short)))
  ]

  take_one-IsFaithful :
      (log : List Event) (id : ℕ) (q seen : List Event)
      → IsFaithful log (id, record { queue = q; seen = seen })
      → IsFaithful log (id, take_one Event q seen)
  unfolding take_one
  take_one-IsFaithful log id [] seen h = h
  take_one-IsFaithful log id (e ∷ q) seen h =
      (subst (λ xs. Sublist xs log) (sym (append_assoc seen (e ∷ []) q)) (h.0), omega (arith, h.1))

  append-IsFaithful :
      (log : List Event) (id : ℕ) (v : Viewer Event) (e : Event) (q : List Event)
      → Sublist (v.seen ++ q) log
      → length q + 1 ≤ event_buffer
      → IsFaithful (log ++ (e ∷ [])) (id, record v { queue = q ++ (e ∷ []) })
  append-IsFaithful log id v e q h short = (
    subst (λ xs. Sublist xs (log ++ (e ∷ []))) (append_assoc v.seen q (e ∷ [])) (Sublist-snoc e h),
    omega (arith, short, length-append q (e ∷ [])),
  )

  receive_some-IsFaithful :
      (log : List Event) (n : ℕ) (id : ℕ) (v : Viewer Event)
      → IsFaithful log (id, v)
      → IsFaithful log (id, receive_some Event n v)
  unfolding receive_some
  receive_some-IsFaithful log zero id v h = h
  receive_some-IsFaithful log (suc n) id v h =
      receive_some-IsFaithful log n id (receive Event v)
        (take_one-IsFaithful log id v.queue v.seen h)

  drop_oldest-IsFaithful :
      (log : List Event) (id : ℕ) (v : Viewer Event)
      → IsFaithful log (id, v)
      → IsFaithful log (id, drop_oldest Event v)
  drop_oldest-IsFaithful log id v h = (
    Sublist_trans (h.0) (Sublist-append v.seen (Sublist-drop 1 v.queue)),
    omega (arith, h.1, length-drop 1 v.queue),
  )

  push-IsFaithful :
      (log : List Event) (e : Event) (id : ℕ) (v : Viewer Event)
      → IsFaithful log (id, v)
      → IsFaithful (log ++ (e ∷ [])) (id, push Event e v)
  push-IsFaithful log e id v h = elim (Bool-cases (ltb (length v.queue) event_buffer)) [
    | inl room ↦ rw room (append-IsFaithful log id v e v.queue (h.0) (ground (arith, room)))
    | inr full ↦ rw full (Sublist_trans (Sublist_more e log) (h.0), h.1)
  ]

  offer-IsFaithful :
      (log : List Event) (pace : Pace Event) (e : Event) (id : ℕ) (v : Viewer Event)
      → IsFaithful log (id, v)
      → IsFaithful (log ++ (e ∷ [])) (id, offer Event pace e v)
  unfolding offer
  offer-IsFaithful log pace e id v h = elim (Bool-cases (ltb (length v.queue) event_buffer)) [
    | inl room ↦
        rw (offer, room) (append-IsFaithful log id v e v.queue (h.0) (ground (arith, room)))
    | inr full ↦
        rw (offer, full)
          (push-IsFaithful log e id _ (
            receive_some-IsFaithful log pace.after_drop id _ (
              drop_oldest-IsFaithful log id _
                (receive_some-IsFaithful log pace.before_drop id v h))))
  ]

  offer_all-IsFaithful :
      (log : List Event) (pace : ℕ → Pace Event) (e : Event) (subs : List (ℕ × Viewer Event))
      → All (IsFaithful log) subs
      → All (IsFaithful (log ++ (e ∷ []))) (offer_all Event pace e subs)
  unfolding offer_all
  offer_all-IsFaithful log pace e [] h = tt
  offer_all-IsFaithful log pace e (sub ∷ subs) h = (
    offer-IsFaithful log (pace (sub.0)) e (sub.0) (sub.1) (h.0),
    offer_all-IsFaithful log pace e subs (h.1),
  )

  read-IsFaithful :
      (log : List Event) (id : ℕ) (subs : List (ℕ × Viewer Event))
      → All (IsFaithful log) subs
      → All (IsFaithful log) (read Event id subs)
  unfolding read
  read-IsFaithful log id [] h = tt
  read-IsFaithful log id (sub ∷ subs) h = elim (Bool-cases (sub.0 == id)) [
    | inl hit ↦
        rw (read, hit) (take_one-IsFaithful log (sub.0) (sub.1).queue (sub.1).seen (h.0), h.1)
    | inr miss ↦ rw (read, miss) (h.0, read-IsFaithful log id subs (h.1))
  ]

  leave-IsFaithful :
      (log : List Event) (id : ℕ) (subs : List (ℕ × Viewer Event))
      → All (IsFaithful log) subs
      → All (IsFaithful log) (leave Event id subs)
  unfolding leave
  leave-IsFaithful log id [] h = tt
  leave-IsFaithful log id (sub ∷ subs) h = elim (Bool-cases (sub.0 == id)) [
    | inl hit ↦ rw hit (leave-IsFaithful log id subs (h.1))
    | inr miss ↦ rw miss (h.0, leave-IsFaithful log id subs (h.1))
  ]

  emit-Represents :
      (pace : ℕ → Pace Event) (e : Event) (log : List Event) (s : Server Event)
      → s.closed ≡ false
      → Represents log s
      → Represents (log ++ (e ∷ [])) (emit Event pace e s)
  unfolding emit
  emit-Represents pace e log s up h =
      rw (emit, up)
        (
          bounded-last (s.history ++ (e ∷ []))
              ∙ ap (λ xs. last history_max (xs ++ (e ∷ []))) (h.0)
              ∙ last-snoc history_max log e,
          offer_all-IsFaithful log pace e s.subs (h.1),
        )

  emit_closed :
      (pace : ℕ → Pace Event) (e : Event) (s : Server Event)
      → s.closed ≡ true
      → emit Event pace e s ≡ s
  unfolding emit
  emit_closed pace e s shut = ground (arith, shut)

  connect-Represents :
      (id : ℕ) (given : String) (log : List Event) (s : Server Event)
      → Represents log s
      → Represents log (connect Event id given s)
  unfolding connect
  connect-Represents id given log s h = elim (Bool-cases (given =ˢ s.token)) [
    | inl known ↦
        rw (connect, known) (h.0, ((replayed, length-take_le event_buffer s.history), h.1))
    | inr unknown ↦ rw (connect, unknown) h
  ]
    where
      replayed : Sublist ([] ++ take event_buffer s.history) log
      replayed =
          Sublist_trans
            (subst (λ xs. Sublist xs log) (sym (h.0)) (Sublist-drop (length log - history_max) log))
            (Sublist-take event_buffer s.history)

  emit-closed :
      (pace : ℕ → Pace Event) (e : Event) (s : Server Event)
      → (emit Event pace e s).closed ≡ s.closed
  unfolding emit
  emit-closed pace e s = ground arith

  connect-closed :
      (id : ℕ) (given : String) (s : Server Event) → (connect Event id given s).closed ≡ s.closed
  unfolding connect
  connect-closed id given s = ground arith

  -- What an emission comes to, from what the operations after it do.
  run-emit :
      (ops : List (Op Event))
      → ((log : List Event) (s : Server Event)
          → Represents log s
          → Represents (log ++ emitted s.closed ops) (run Event ops s))
      → (pace : ℕ → Pace Event) (e : Event) (log : List Event) (s : Server Event) → Represents log s
      → (b : Bool) → s.closed ≡ b
      → Represents
          (log ++ (if b then emitted b ops else e ∷ emitted b ops))
          (run Event ops (emit Event pace e s))
  run-emit ops later pace e log s h true shut =
      subst (λ t. Represents (log ++ emitted true ops) (run Event ops t))
        (sym (emit_closed pace e s shut))
        (subst (λ b. Represents (log ++ emitted b ops) (run Event ops s)) shut (later log s h))
  run-emit ops later pace e log s h false up =
      subst (λ xs. Represents xs (run Event ops (emit Event pace e s)))
        (append_assoc log (e ∷ []) (emitted false ops))
        (subst
          (λ b.
            Represents ((log ++ (e ∷ [])) ++ emitted b ops) (run Event ops (emit Event pace e s)))
          (emit-closed pace e s ∙ up)
          (later (log ++ (e ∷ [])) (emit Event pace e s) (emit-Represents pace e log s up h)))

  run-Represents :
      (ops : List (Op Event)) (log : List Event) (s : Server Event)
      → Represents log s
      → Represents (log ++ emitted s.closed ops) (run Event ops s)
  unfolding run step
  run-Represents [] log s h = rw append-nil h
  run-Represents (emit_op pace e ∷ ops) log s h =
      run-emit ops (run-Represents ops) pace e log s h s.closed refl
  run-Represents (connect_op id given ∷ ops) log s h =
      subst (λ b. Represents (log ++ emitted b ops) (run Event ops (connect Event id given s)))
        (connect-closed id given s)
        (run-Represents ops log (connect Event id given s) (connect-Represents id given log s h))
  run-Represents (read_op id ∷ ops) log s h =
      run-Represents ops log (step Event (read_op id) s) (h.0, read-IsFaithful log id s.subs (h.1))
  run-Represents (leave_op id ∷ ops) log s h =
      run-Represents ops log (step Event (leave_op id) s)
        (h.0, leave-IsFaithful log id s.subs (h.1))
  run-Represents (close_op ∷ ops) log s h = run-Represents ops log (step Event close_op s) h

  -- After any sequence of emissions, requests with any token, reads and departures of viewers, and closings, the page
  -- holds the last 20000 of the events emitted before it was closed, and every viewer that is connected has got some
  -- of these events, each at most once and in their order, with at most 1024 more waiting in its channel.
  pub new-Represents :
      (token : String) (ops : List (Op Event))
      → Represents (emitted false ops) (run Event ops (new Event token))
  unfolding new
  new-Represents token ops = run-Represents ops [] (new Event token) (refl, tt)
