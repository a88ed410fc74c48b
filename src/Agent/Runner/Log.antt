-- ===== src/Agent/Runner/Log.antt =====
-- What the log of a run holds of the two streams, for every order of reads and ticks.
use sopdet.Prelude.{
  ℕ, ◌+◌, ◌-◌, ◌≤◌, ◌≡◌, refl, ap, sym, ◌∙◌, true, false, List, [], ◌∷◌, ◌++◌, append_assoc,
  append-nil, arith, if◌then◌else◌, length, length-append, length-take,
}
use sopdet.Agent.Runner.Stream.{
  Stream, stdout, stderr, Bytes, OutputBudget, take_budget, Pumps, pending, flush, add, Event, read,
  tick, step, run_events, finish, start,
}
use sopdet.Agent.Runner.Account.{
  same_stream, logged, input, held, held-flush, budget-flush, on_logs-flush, pending-flush,
  out_pending-flush, allowed, held-add, add-rest,
}

take_budget_whole :
    (b : OutputBudget) (chunk : Bytes)
    → (take_budget b chunk).1.truncated ≡ false
    → ((take_budget b chunk).0 ≡ chunk) × (b.truncated ≡ false)
unfolding take_budget
take_budget_whole b chunk h = ground arith

-- A run that is not truncated at its end was not truncated before.
truncated-run_events :
    (es : List Event) (p : Pumps)
    → (run_events es p).budget.truncated ≡ false
    → p.budget.truncated ≡ false
unfolding run_events step
truncated-run_events [] p h = h
truncated-run_events (read t chunk ∷ es) p h =
    let later = truncated-run_events es (add t chunk p) h in
    (take_budget_whole p.budget chunk (ground (arith, add-rest t chunk p))).1
truncated-run_events (tick t ∷ es) p h =
    let later = truncated-run_events es (flush t p) h in ground (arith, budget-flush t p)

on_logs-run_events : (es : List Event) (p : Pumps) → (run_events es p).on_logs ≡ p.on_logs
unfolding run_events step
on_logs-run_events [] p = refl
on_logs-run_events (read t chunk ∷ es) p =
    on_logs-run_events es (add t chunk p) ∙ (add-rest t chunk p).1
on_logs-run_events (tick t ∷ es) p = on_logs-run_events es (flush t p) ∙ on_logs-flush t p

held-run_events :
    (s : Stream) (es : List Event) (p : Pumps)
    → p.on_logs ≡ true
    → (run_events es p).budget.truncated ≡ false
    → held s (run_events es p) ≡ held s p ++ input s es
unfolding run_events step input
held-run_events s [] p on h = sym (append-nil (held s p))
held-run_events s (read t chunk ∷ es) p on h =
    let later = truncated-run_events es (add t chunk p) h in
    let whole = take_budget_whole p.budget chunk (ground (arith, add-rest t chunk p)) in
    held-run_events s es (add t chunk p) (ground (arith, add-rest t chunk p)) h
    ∙ ap (λ l. l ++ input s es) (held-add s t chunk p on)
    ∙ append_assoc (held s p) (allowed s t chunk p) (input s es)
    ∙ ap (λ c. held s p ++ ((if same_stream s t then c else []) ++ input s es)) whole.0
held-run_events s (tick t ∷ es) p on h =
    held-run_events s es (flush t p) (on_logs-flush t p ∙ on) h
    ∙ ap (λ l. l ++ input s es) (held-flush s t p on)

pending-finish : (s : Stream) (es : List Event) (p : Pumps) → pending s (finish es p) ≡ []
unfolding finish
pending-finish stdout es p =
    out_pending-flush (flush stdout (run_events es p)) ∙ pending-flush stdout (run_events es p)
pending-finish stderr es p = pending-flush stderr (flush stdout (run_events es p))

-- After the final flushes, all that the pumps have taken of a stream is in the log.
logged-held :
    (s : Stream) (es : List Event) (p : Pumps)
    → p.on_logs ≡ true
    → logged s (finish es p).logs ≡ held s (run_events es p)
unfolding finish held
logged-held s es p on =
    let r = run_events es p in
    let on' = on_logs-run_events es p ∙ on in
    sym (append-nil (logged s (finish es p).logs))
    ∙ ap (λ l. logged s (finish es p).logs ++ l) (sym (pending-finish s es p))
    ∙ held-flush s stderr (flush stdout r) (on_logs-flush stdout r ∙ on')
    ∙ held-flush s stdout r on'

budget-finish : (es : List Event) (p : Pumps) → (finish es p).budget ≡ (run_events es p).budget
unfolding finish
budget-finish es p =
    budget-flush stderr (flush stdout (run_events es p)) ∙ budget-flush stdout (run_events es p)

held-start : (s : Stream) (max_output max_buf : ℕ) → held s (start max_output max_buf) ≡ []
unfolding held logged start
held-start stdout m b = refl
held-start stderr m b = refl

-- When a run does not report its output as truncated, its log holds, for each stream, every byte that was
-- read of it, in the order of the reads, however reads and ticks of the two pumps interleave and whatever
-- the size of the buffer and the output bound.
pub logged-finish :
    (s : Stream) (es : List Event) (max_output max_buf : ℕ)
    → (finish es (start max_output max_buf)).budget.truncated ≡ false
    → logged s (finish es (start max_output max_buf)).logs ≡ input s es
unfolding start
logged-finish stdout es max_output max_buf h =
    logged-held stdout es (start max_output max_buf) refl
    ∙ held-run_events stdout es (start max_output max_buf) refl
        (ground (arith, budget-finish es (start max_output max_buf)))
    ∙ ap (λ l. l ++ input stdout es) (held-start stdout max_output max_buf)
logged-finish stderr es max_output max_buf h =
    logged-held stderr es (start max_output max_buf) refl
    ∙ held-run_events stderr es (start max_output max_buf) refl
        (ground (arith, budget-finish es (start max_output max_buf)))
    ∙ ap (λ l. l ++ input stderr es) (held-start stderr max_output max_buf)

-- The budget counts the bytes that were taken, and stays under its bound.
IsCounted : Pumps → Type 0
IsCounted p =
    (length (held stdout p) + length (held stderr p) ≡ p.budget.observed)
    × (p.budget.observed ≤ p.budget.max)

take_budget-counted :
    (b : OutputBudget) (chunk : Bytes)
    → b.observed ≤ b.max
    → ((take_budget b chunk).1.observed ≡ b.observed + length (take_budget b chunk).0)
      × ((take_budget b chunk).1.observed ≤ (take_budget b chunk).1.max)
      × ((take_budget b chunk).1.max ≡ b.max)
unfolding take_budget
take_budget-counted b chunk h = ground (arith, length-take (b.max - b.observed) chunk)

add-IsCounted :
    (t : Stream) (chunk : Bytes) (p : Pumps)
    → p.on_logs ≡ true
    → IsCounted p
    → IsCounted (add t chunk p) × ((add t chunk p).budget.max ≡ p.budget.max)
unfolding IsCounted
add-IsCounted stdout chunk p on h = ground (
  arith,
  add-rest stdout chunk p,
  take_budget-counted p.budget chunk h.1,
  held-add stdout stdout chunk p on,
  held-add stderr stdout chunk p on,
  length-append (held stdout p) (take_budget p.budget chunk).0,
  append-nil (held stderr p),
)
add-IsCounted stderr chunk p on h = ground (
  arith,
  add-rest stderr chunk p,
  take_budget-counted p.budget chunk h.1,
  held-add stdout stderr chunk p on,
  held-add stderr stderr chunk p on,
  length-append (held stderr p) (take_budget p.budget chunk).0,
  append-nil (held stdout p),
)

flush-IsCounted : (t : Stream) (p : Pumps) → p.on_logs ≡ true → IsCounted p → IsCounted (flush t p)
unfolding IsCounted
flush-IsCounted t p on h =
    ground (arith, budget-flush t p, held-flush stdout t p on, held-flush stderr t p on)

run_events-IsCounted :
    (es : List Event) (p : Pumps)
    → p.on_logs ≡ true
    → IsCounted p
    → IsCounted (run_events es p) × ((run_events es p).budget.max ≡ p.budget.max)
unfolding run_events step
run_events-IsCounted [] p on h = (h, refl)
run_events-IsCounted (read t chunk ∷ es) p on h =
    let one = add-IsCounted t chunk p on h in
    let ih = run_events-IsCounted es (add t chunk p) ((add-rest t chunk p).1 ∙ on) one.0 in
    (ih.0, ih.1 ∙ one.1)
run_events-IsCounted (tick t ∷ es) p on h =
    let ih =
      run_events-IsCounted es (flush t p) (on_logs-flush t p ∙ on) (flush-IsCounted t p on h) in
    (ih.0, ih.1 ∙ ap (λ b. b.max) (budget-flush t p))

start-IsCounted : (max_output max_buf : ℕ) → IsCounted (start max_output max_buf)
unfolding IsCounted held logged start
start-IsCounted m b = ground arith

-- The log of a run never holds more bytes of the two streams together than the output bound, and the
-- number of bytes that the outcome reports is the number that was logged.
pub length-logged :
    (es : List Event) (max_output max_buf : ℕ)
    → (length (logged stdout (finish es (start max_output max_buf)).logs)
          + length (logged stderr (finish es (start max_output max_buf)).logs)
        ≡ (finish es (start max_output max_buf)).budget.observed)
      × ((finish es (start max_output max_buf)).budget.observed ≤ max_output)
unfolding start IsCounted
length-logged es max_output max_buf =
    let p = start max_output max_buf in
    let all = run_events-IsCounted es p refl (start-IsCounted max_output max_buf) in
    ground
      (arith, all, budget-finish es p, logged-held stdout es p refl, logged-held stderr es p refl)
