-- ===== src/Agent/Client/Retry.antt =====
-- The retries of one request of the device protocol.
use sopdet.Prelude.{
  ℕ, zero, suc, ◌+◌, ◌≤◌, ◌<◌, ◌≡◌, ◌∙◌, ap, append_assoc, Bool-cases, replicate, refl, ◌⊎◌, inl,
  inr, String, Bool, true, false, Option, List, [], ◌∷◌, ◌++◌, arith, if◌then◌else◌, length,
  length-append,
}
use sopdet.Agent.Client.Post.{
  EndpointError, Body, Reply, lost, broken, response, Request, World, Failure, transport, Answer,
  answered, Client, retries, exchange, wait_backoff, pause, judge, try_post, post, reply_accepted,
}

exchange_sent : (r : Request) (w : World) → length (exchange r w).1.sent ≡ length w.sent + 1
unfolding exchange
exchange_sent r w = from w.replies refl
  where
    from : (l : List Reply) → w.replies ≡ l → length (exchange r w).1.sent ≡ length w.sent + 1
    from [] e = ground (arith, e, length-append w.sent (r ∷ []))
    from (a ∷ rest) e = ground (arith, e, length-append w.sent (r ∷ []))

exchange_received :
    (r : Request) (w : World)
    → (exchange r w).1.received
      ≡ (if reply_accepted (exchange r w).0 then w.received ++ (r ∷ []) else w.received)
unfolding exchange
exchange_received r w = from w.replies refl
  where
    from :
        (l : List Reply)
        → w.replies ≡ l
        → (exchange r w).1.received
          ≡ (if reply_accepted (exchange r w).0 then w.received ++ (r ∷ []) else w.received)
    from [] e = ground (arith, e)
    from (a ∷ rest) e = rw (e) refl

pause_keeps :
    (a : ℕ) (w : World) → ((pause a w).1.sent ≡ w.sent) × ((pause a w).1.received ≡ w.received)
unfolding pause wait_backoff
pause_keeps a w = from w.cuts refl
  where
    from :
        (l : List Bool)
        → w.cuts ≡ l
        → ((pause a w).1.sent ≡ w.sent) × ((pause a w).1.received ≡ w.received)
    from [] e = ground (arith, e)
    from (cut ∷ rest) e = ground (arith, e)

-- From the first world to the second, the server has answered the request with a 2xx status at least once and at most as
-- often as there were attempts, and no other request.
abbrev pub IsAcked : Request → ℕ → World → World → Type 0
IsAcked r tries w w' = (n : ℕ) × (n < tries) × (w'.received ≡ w.received ++ replicate (suc n) r)

module _ (read_envelope : String → Option EndpointError) (decodes : String → Bool) where
  judge_answered :
      (reply : Reply) (size : ℕ) (raw : String)
      → judge read_envelope decodes reply ≡ inl (answered size raw)
      → reply_accepted reply ≡ true
  unfolding judge
  judge_answered lost size raw h = ground arith
  judge_answered (broken status) size raw h = ground arith
  judge_answered (response status n text) size raw h = ground arith

  sent-try_post :
      (r : Request) (left a : ℕ) (last : Failure) (w : World)
      → length (try_post read_envelope decodes r left a last w).1.sent ≤ length w.sent + left
  unfolding try_post
  sent-try_post r zero a last w = omega arith
  sent-try_post r (suc left) a last w =
      from (pause a w).0 (judge read_envelope decodes (exchange r (pause a w).1).0)
        (λ e. sent-try_post r left (a + 1) e (exchange r (pause a w).1).1) refl refl
    where
      w1 : World
      w1 = (pause a w).1

      w2 : World
      w2 = (exchange r w1).1

      from :
          (go : Bool) (j : Answer ⊎ Failure)
          → ((e : Failure)
              → length (try_post read_envelope decodes r left (a + 1) e w2).1.sent
                ≤ length w2.sent + left)
          → (pause a w).0 ≡ go
          → judge read_envelope decodes (exchange r w1).0 ≡ j
          → length (try_post read_envelope decodes r (suc left) a last w).1.sent
            ≤ length w.sent + suc left
      from false j ih g k = ground (arith, g, pause_keeps a w)
      from true (inl answer) ih g k = ground (arith, g, k, pause_keeps a w, exchange_sent r w1)
      from true (inr e) ih g k = ground (arith, g, k, pause_keeps a w, exchange_sent r w1, ih e)

  received-try_post :
      (r : Request) (left a : ℕ) (last : Failure) (w : World) (size : ℕ) (raw : String)
      → (try_post read_envelope decodes r left a last w).0 ≡ answered size raw
      → IsAcked r left w (try_post read_envelope decodes r left a last w).1
  unfolding try_post
  received-try_post r zero a last w size raw h = absurd (ground arith)
  received-try_post r (suc left) a last w size raw h =
      from (pause a w).0 (judge read_envelope decodes (exchange r (pause a w).1).0)
        (λ e. received-try_post r left (a + 1) e (exchange r (pause a w).1).1 size raw) refl refl
    where
      w1 : World
      w1 = (pause a w).1

      w2 : World
      w2 = (exchange r w1).1

      from :
          (go : Bool) (j : Answer ⊎ Failure)
          → ((e : Failure)
              → (try_post read_envelope decodes r left (a + 1) e w2).0 ≡ answered size raw
              → IsAcked r left w2 (try_post read_envelope decodes r left (a + 1) e w2).1)
          → (pause a w).0 ≡ go
          → judge read_envelope decodes (exchange r w1).0 ≡ j
          → IsAcked r (suc left) w (try_post read_envelope decodes r (suc left) a last w).1
      from false j ih g k = absurd (ground (arith, g, h))
      from true (inl answer) ih g k = (
        zero,
        omega arith,
        ground (
          arith,
          g,
          k,
          h,
          pause_keeps a w,
          exchange_received r w1,
          judge_answered (exchange r w1).0 size raw,
        ),
      )
      from true (inr e) ih g k =
          let (n, few, e') = ih e (ground (arith, g, k, h)) in
          let same : (try_post read_envelope decodes r (suc left) a last w).1
              ≡ (try_post read_envelope decodes r left (a + 1) e w2).1 =
            ground (arith, g, k) in
          elim (Bool-cases (reply_accepted (exchange r w1).0)) [
            | inl yes_it ↦ (
              suc n,
              omega (arith, few),
              ap (λ v. v.received) same
                  ∙ e'
                  ∙ ap (λ l. l ++ replicate (suc n) r)
                      (ground (arith, exchange_received r w1, yes_it, pause_keeps a w))
                  ∙ append_assoc w.received (r ∷ []) (replicate (suc n) r),
            )
            | inr no_it ↦ (
              n,
              omega (arith, few),
              ap (λ v. v.received) same
                  ∙ e'
                  ∙ ap (λ l. l ++ replicate (suc n) r)
                      (ground (arith, exchange_received r w1, no_it, pause_keeps a w)),
            )
          ]

  -- A request is sent at most as often as the retries allow, and once more.
  pub sent-post :
      (c : Client) (path : String) (body : Body) (w : World)
      → length (post read_envelope c decodes path body w).1.sent ≤ length w.sent + (retries c + 1)
  unfolding post
  sent-post c path body w =
      sent-try_post (record { path = path; body = body }) (retries c + 1) 0 transport w

  -- The server has acknowledged a request that succeeds, at most once for each attempt.
  pub received-post :
      (c : Client) (path : String) (body : Body) (w : World) (size : ℕ) (raw : String)
      → (post read_envelope c decodes path body w).0 ≡ answered size raw
      → IsAcked
          (record { path = path; body = body })
          (retries c + 1)
          w
          (post read_envelope c decodes path body w).1
  unfolding post
  received-post c path body w size raw h =
      received-try_post (record { path = path; body = body }) (retries c + 1) 0 transport w size raw
        h
