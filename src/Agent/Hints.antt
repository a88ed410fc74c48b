-- ===== src/Agent/Hints.antt =====
-- internal/agent/ws.go: the reconnects of the hint channel. A duration is in milliseconds. The socket is
-- a parameter: the list of what the coming dials and waits do.
use sopdet.Prelude.{
  ℕ, zero, suc, ◌+◌, ◌*◌, ◌^◌, ◌≤◌, ◌≡◌, ap, Bool, true, false, Option, none, some, List, [], ◌∷◌,
  ◌++◌, All, All-append, arith, ltb, if◌then◌else◌, Bool-cases, inl, inr,
}

abbrev pub ws_backoff_base : ℕ
ws_backoff_base = 500

abbrev pub ws_backoff_cap : ℕ
ws_backoff_cap = 30_000

abbrev pub ws_jitter_max : ℕ
ws_jitter_max = 500

-- The loop that doubles the base.
unfoldable double_base : ℕ → ℕ → ℕ
double_base zero base = base
double_base (suc left) base =
    let again = double_base left (base * 2) in if ltb base ws_backoff_cap then again else base

abbrev pub capped : ℕ → ℕ
capped base = if ltb ws_backoff_cap base then ws_backoff_cap else base

-- `computeBackoff`, with what the jitter function returns.
unfoldable pub compute_backoff : ℕ → ℕ → ℕ
unfolding double_base
compute_backoff attempt jitter = capped (double_base attempt ws_backoff_base) + jitter

-- The kinds of message that `consume` tells apart.
pub data Message : Type 0 where
  device_job_available other not_json : Message

-- One turn of the loop: the messages of the connection, or none when the dial fails; what the jitter of
-- the wait behind it is; and whether the context is cancelled by its end.
pub record Turn : Type 0 where
  pub connection : Option (List Message)
  pub jitter : ℕ
  pub cancelled : Bool

-- The waits and the number of calls of `onJobAvailable`.
pub record Trace : Type 0 where
  pub waits : List ℕ
  pub wakes : ℕ

unfoldable pub consume : List Message → ℕ → ℕ
consume [] wakes = wakes
consume (device_job_available ∷ ms) wakes = consume ms (wakes + 1)
consume (other ∷ ms) wakes = consume ms wakes
consume (not_json ∷ ms) wakes = consume ms wakes

-- The dial, the connection and the wait of one turn.
unfoldable pub hint_turn : ℕ → Turn → Trace → Trace
hint_turn attempt turn t = elim turn.connection [
  | none ↦ record t { waits = t.waits ++ (compute_backoff attempt turn.jitter ∷ []) }
  | some messages ↦ record t {
    waits = t.waits ++ (compute_backoff 0 turn.jitter ∷ []);
    wakes = consume messages t.wakes;
  }
]

-- The counter of failed dials starts again after each connection.
abbrev pub next_attempt : ℕ → Turn → ℕ
next_attempt attempt turn = elim turn.connection [ none ↦ attempt + 1 | some messages ↦ 0 ]

-- `Run`
unfoldable pub run_hints : ℕ → List Turn → Trace → Trace
run_hints attempt [] t = t
run_hints attempt (turn ∷ turns) t =
    let t' = hint_turn attempt turn t in
    let rest = run_hints (next_attempt attempt turn) turns t' in if turn.cancelled then t' else rest

doubled : (n b : ℕ) → b * 2 ^ suc n ≡ b * 2 * 2 ^ n
doubled n b = grind arith

grown : (n b : ℕ) → b ≤ b * 2 ^ n
grown zero b = omega arith
grown (suc n) b = omega (arith, doubled n b, grown n (b * 2))

capped-double_base : (n b : ℕ) → capped (double_base n b) ≡ capped (b * 2 ^ n)
unfolding double_base
capped-double_base zero b = let once : b ≡ b * 1 = omega arith in ap capped once
capped-double_base (suc n) b = elim (Bool-cases (ltb b ws_backoff_cap)) [
  | inl low ↦ ground (arith, low, capped-double_base n (b * 2), doubled n b)
  | inr high ↦ ground (arith, high, grown (suc n) b)
]

-- The wait before a reconnect doubles with each failed dial, from the base up to the cap, and the jitter
-- is added.
pub compute_backoff_lem :
    (attempt jitter : ℕ)
    → compute_backoff attempt jitter ≡ capped (ws_backoff_base * 2 ^ attempt) + jitter
unfolding compute_backoff
compute_backoff_lem attempt jitter =
    ap (λ b. b + jitter) (capped-double_base attempt ws_backoff_base)

abbrev pub IsShort : ℕ → Type 0
IsShort ms = ms ≤ ws_backoff_cap + ws_jitter_max

compute_backoff-IsShort :
    (attempt jitter : ℕ) → jitter ≤ ws_jitter_max → IsShort (compute_backoff attempt jitter)
unfolding compute_backoff
compute_backoff-IsShort attempt jitter h = ground arith

hint_turn-IsShort :
    (attempt : ℕ) (turn : Turn) (t : Trace)
    → turn.jitter ≤ ws_jitter_max
    → All IsShort t.waits
    → All IsShort (hint_turn attempt turn t).waits
unfolding hint_turn
hint_turn-IsShort attempt turn t h short =
    elim turn.connection
      as (λ c.
        All IsShort
          (elim c as (λ x. Trace) [
            | none ↦ record t { waits = t.waits ++ (compute_backoff attempt turn.jitter ∷ []) }
            | some messages ↦ record t {
              waits = t.waits ++ (compute_backoff 0 turn.jitter ∷ []);
              wakes = consume messages t.wakes;
            }
          ]).waits) [
            | none ↦
                All-append IsShort t.waits (compute_backoff attempt turn.jitter ∷ []) short
                  (compute_backoff-IsShort attempt turn.jitter h, tt)
            | some messages ↦
                All-append IsShort t.waits (compute_backoff 0 turn.jitter ∷ []) short
                  (compute_backoff-IsShort 0 turn.jitter h, tt)
          ]

-- However the dials and connections go, no wait of the loop is longer than the cap and the largest jitter
-- together, if none was before and the jitter function keeps to its bound.
pub waits-run_hints :
    (attempt : ℕ) (turns : List Turn) (t : Trace)
    → All (λ turn. turn.jitter ≤ ws_jitter_max) turns
    → All IsShort t.waits
    → All IsShort (run_hints attempt turns t).waits
unfolding run_hints
waits-run_hints attempt [] t h short = short
waits-run_hints attempt (turn ∷ turns) t h short =
    let t' = hint_turn attempt turn t in
    let once = hint_turn-IsShort attempt turn t h.0 short in
    let later = waits-run_hints (next_attempt attempt turn) turns t' h.1 once in
    elim turn.cancelled
      as (λ b.
        All IsShort (if b then t' else run_hints (next_attempt attempt turn) turns t').waits) [
          | true ↦ once
          | false ↦ later
        ]
