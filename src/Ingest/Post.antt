-- ===== src/Ingest/Post.antt =====
-- One request: how often it is sent, and when it counts as delivered.
use sopdet.Prelude.{
  ℕ, zero, suc, ◌+◌, ◌*◌, ◌^◌, ◌≤◌, ◌<◌, String, ◌≡◌, refl, ◌∙◌, Bool, true, false, ◌||◌, Option,
  List, [], ◌∷◌, ◌++◌, take, length, length-append, arith, ◌==◌, Bool-cases, ◌⊎◌, inl, inr,
}
use sopdet.Ingest.World.{World, Host, Options, accepted, exchange, try_post, attempts, post}

abbrev pub any_accepted : List (Option ℕ) → Bool
any_accepted [] = false
any_accepted (r ∷ rs) = accepted r || any_accepted rs

-- The world of the next attempt.
waited : ℕ → String → World → World
waited a payload w =
    let w' = (exchange payload w).1 in record w' { waits = w'.waits ++ ((2 ^ a * 500) ∷ []) }

try_post-any :
    (left a : ℕ) (payload : String) (w : World)
    → (try_post left a payload w).0 ≡ any_accepted (take left w.replies)
unfolding try_post exchange waited
try_post-any zero a payload w = refl
try_post-any (suc zero) a payload w = ground arith
try_post-any (suc (suc left)) a payload w =
    ground (arith, try_post-any (suc left) (a + 1) payload (waited a payload w))

-- `p` is among the payloads.
abbrev pub Holds : String → List String → Type 0
Holds p [] = ⊥
Holds p (q ∷ qs) = (p ≡ q) ⊎ Holds p qs

Holds-append_left : (p : String) (xs ys : List String) → Holds p xs → Holds p (xs ++ ys)
Holds-append_left p [] ys h = elim h [ ]
Holds-append_left p (x ∷ xs) ys (inl e) = inl e
Holds-append_left p (x ∷ xs) ys (inr h) = inr (Holds-append_left p xs ys h)

Holds-append_self : (p : String) (xs : List String) → Holds p (xs ++ (p ∷ []))
Holds-append_self p [] = inl refl
Holds-append_self p (x ∷ xs) = inr (Holds-append_self p xs)

-- What the server has received stays received; disks do not change; a delivered payload is received.
pub record PostKeeps (payload : String) (done : Bool) (w w' : World) : Type 0 where
  pub dirs : w'.dirs ≡ w.dirs
  pub keeps : (p : String) → Holds p w.received → Holds p w'.received
  pub gains : done ≡ true → Holds payload w'.received

exchange-received :
    (payload : String) (w : World)
    → PostKeeps payload (accepted (exchange payload w).0) w (exchange payload w).1
unfolding exchange
exchange-received payload w = from w.replies refl
  where
    from :
        (rs : List (Option ℕ))
        → w.replies ≡ rs
        → PostKeeps payload (accepted (exchange payload w).0) w (exchange payload w).1
    from [] e = record {
      dirs = ground (arith, e);
      keeps = λ p h. rw (e, exchange) h;
      gains = λ d. ground (arith, e, d);
    }
    from (r ∷ rs) e = elim (Bool-cases (accepted r)) [
      | inl yes_it ↦ record {
        dirs = ground (arith, e);
        keeps = λ p h. rw (e, exchange, yes_it) (Holds-append_left p w.received (payload ∷ []) h);
        gains = λ d. rw (e, exchange, yes_it) (Holds-append_self payload w.received);
      }
      | inr no_it ↦ record {
        dirs = ground (arith, e);
        keeps = λ p h. rw (e, exchange, no_it) h;
        gains = λ d. ground (arith, e, no_it, d);
      }
    ]

PostKeeps-trans :
    {payload : String} {d d' : Bool} {u v w : World}
    → PostKeeps payload d u v
    → PostKeeps payload d' v w
    → PostKeeps payload d' u w
PostKeeps-trans p q = record {
  dirs = q.dirs ∙ p.dirs;
  keeps = λ x h. q.keeps x (p.keeps x h);
  gains = q.gains;
}

waited-keeps :
    (a : ℕ) (payload : String) (w : World) → PostKeeps payload false w (waited a payload w)
unfolding waited
waited-keeps a payload w =
    let k = exchange-received payload w in
    record { dirs = k.dirs; keeps = k.keeps; gains = λ d. cc d }

-- The next attempt, or the end.
try_post_step :
    (left a : ℕ) (payload : String) (w : World)
    → (accepted (exchange payload w).0 ≡ true)
        × (try_post (suc left) a payload w ≡ (true, (exchange payload w).1))
      ⊎ ((accepted (exchange payload w).0 ≡ false)
          × (left ≡ 0)
          × (try_post (suc left) a payload w ≡ (false, (exchange payload w).1)))
      ⊎ ((accepted (exchange payload w).0 ≡ false)
          × (try_post (suc left) a payload w ≡ try_post left (a + 1) payload (waited a payload w)))
unfolding try_post waited
try_post_step left a payload w = elim (Bool-cases (accepted (exchange payload w).0)) [
  | inl won ↦ inl (ground (arith, won))
  | inr lost ↦ elim (Bool-cases (left == 0)) [
    | inl last ↦ inr (inl (ground (arith, lost, last)))
    | inr more ↦ inr (inr (ground (arith, lost, more)))
  ]
]

try_post-keeps :
    (left a : ℕ) (payload : String) (w : World)
    → PostKeeps payload (try_post left a payload w).0 w (try_post left a payload w).1
try_post-keeps zero a payload w =
    unfold try_post in record { dirs = refl; keeps = λ p h. h; gains = λ d. cc d }
try_post-keeps (suc left) a payload w = elim (try_post_step left a payload w) [
  | inl (won, e) ↦ rw e (rw won at (exchange-received payload w))
  | inr (inl (lost, last, e)) ↦ rw e (rw lost at (exchange-received payload w))
  | inr (inr (lost, e)) ↦ rw e (
      PostKeeps-trans (waited-keeps a payload w)
        (try_post-keeps left (a + 1) payload (waited a payload w)))
]

exchange-sent :
    (payload : String) (w : World) → length (exchange payload w).1.sent ≡ length w.sent + 1
unfolding exchange
exchange-sent payload w = ground (arith, length-append w.sent (payload ∷ []))

waited-sent :
    (a : ℕ) (payload : String) (w : World) → length (waited a payload w).sent ≡ length w.sent + 1
unfolding waited
waited-sent a payload w = exchange-sent payload w

-- The payloads that are sent by at most `left` attempts.
abbrev SentBy : ℕ → World → World → Type 0
SentBy left w w' = (length w.sent ≤ length w'.sent) × (length w'.sent ≤ length w.sent + left)

sent-try_post :
    (left a : ℕ) (payload : String) (w : World) → SentBy left w (try_post left a payload w).1
sent-try_post zero a payload w = unfold try_post in omega arith
sent-try_post (suc left) a payload w = elim (try_post_step left a payload w) [
  | inl (won, e) ↦ rw e (omega (arith, exchange-sent payload w))
  | inr (inl (lost, last, e)) ↦ rw e (omega (arith, exchange-sent payload w))
  | inr (inr (lost, e)) ↦
      let ih = sent-try_post left (a + 1) payload (waited a payload w) in
      rw e (omega (arith, waited-sent a payload w, ih))
]

one_sent-try_post :
    (left a : ℕ) (payload : String) (w : World)
    → 0 < left
    → length w.sent < length (try_post left a payload w).1.sent
one_sent-try_post zero a payload w h = elim h [ ]
one_sent-try_post (suc left) a payload w h = elim (try_post_step left a payload w) [
  | inl (won, e) ↦ rw e (omega (arith, exchange-sent payload w))
  | inr (inl (lost, last, e)) ↦ rw e (omega (arith, exchange-sent payload w))
  | inr (inr (lost, e)) ↦
      let rest = sent-try_post left (a + 1) payload (waited a payload w) in
      rw e (omega (arith, waited-sent a payload w, rest))
]

module _ (host : Host) (o : Options) where
  pub post-keeps :
      (payload : String) (w : World)
      → PostKeeps payload (post host o payload w).0 w (post host o payload w).1
  unfolding post
  post-keeps payload w = elim (Bool-cases (host.request_builds o.endpoint)) [
    | inl can ↦ rw can (try_post-keeps (attempts o) 0 payload w)
    | inr cannot ↦ rw cannot (record { dirs = refl; keeps = λ p h. h; gains = λ d. cc d })
  ]

  -- A request is delivered exactly when one of the replies within the allowed number of attempts is a
  -- success.
  pub post-any :
      (payload : String) (w : World)
      → host.request_builds o.endpoint ≡ true
      → (post host o payload w).0 ≡ any_accepted (take (attempts o) w.replies)
  unfolding post
  post-any payload w can = rw can (try_post-any (attempts o) 0 payload w)

  -- One delivery sends at most the allowed number of requests, and at least one.
  pub length-sent-post :
      (payload : String) (w : World)
      → host.request_builds o.endpoint ≡ true
      → let n = length (post host o payload w).1.sent in
        (length w.sent < n) × (n ≤ length w.sent + attempts o)
  unfolding post
  length-sent-post payload w can =
      let some_left : 0 < attempts o = ground arith in
      rw can (
        one_sent-try_post (attempts o) 0 payload w some_left,
        (sent-try_post (attempts o) 0 payload w).1,
      )
