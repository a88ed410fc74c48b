-- ===== src/Agent/Runner/Numbering.antt =====
-- The sequence numbers of a job's log.
use sopdet.Prelude.{
  ℕ, zero, suc, ◌+◌, ◌≡◌, refl, ap, true, false, List, [], ◌∷◌, ◌++◌, arith, leb, if◌then◌else◌,
  length, Bool-cases, inl, inr,
}
use sopdet.Agent.Runner.Stream.{
  Stream, stdout, stderr, Bytes, LogEntry, take_budget, Pumps, pending, is_empty, emit, flush,
  accept, add, Event, read, tick, step, run_events, finish, start,
}

-- The sequence numbers of a log.
unfoldable pub seqs : List LogEntry → List ℕ
seqs [] = []
seqs (e ∷ es) = e.seq ∷ seqs es

-- The numbers from 1 to `n`.
unfoldable pub upto : ℕ → List ℕ
upto zero = []
upto (suc n) = upto n ++ (suc n ∷ [])

seqs-append : (xs ys : List LogEntry) → seqs (xs ++ ys) ≡ seqs xs ++ seqs ys
unfolding seqs
seqs-append [] ys = refl
seqs-append (e ∷ xs) ys = ap (λ l. e.seq ∷ l) (seqs-append xs ys)

IsNumbered : Pumps → Type 0
IsNumbered p = seqs p.logs ≡ upto p.seq

numbered-entry :
    (e : LogEntry) (xs : List LogEntry) (n : ℕ)
    → seqs xs ≡ upto n
    → e.seq ≡ n + 1
    → seqs (xs ++ (e ∷ [])) ≡ upto (n + 1)
unfolding seqs upto
numbered-entry e xs n h k = ground (arith, seqs-append xs (e ∷ []))

flush-IsNumbered : (t : Stream) (p : Pumps) → IsNumbered p → IsNumbered (flush t p)
unfolding IsNumbered flush emit
flush-IsNumbered stdout p h = elim (Bool-cases (is_empty p.out_pending)) [
  | inl e ↦ ground arith
  | inr e ↦ elim (Bool-cases p.on_logs) [
    | inl o ↦ ground (
      arith,
      numbered-entry (record { seq = p.seq + 1; stream = stdout; text = p.out_pending }) p.logs
          p.seq h refl,
    )
    | inr o ↦ ground arith
  ]
]
flush-IsNumbered stderr p h = elim (Bool-cases (is_empty p.err_pending)) [
  | inl e ↦ ground arith
  | inr e ↦ elim (Bool-cases p.on_logs) [
    | inl o ↦ ground (
      arith,
      numbered-entry (record { seq = p.seq + 1; stream = stderr; text = p.err_pending }) p.logs
          p.seq h refl,
    )
    | inr o ↦ ground arith
  ]
]

accept-IsNumbered :
    (t : Stream) (chunk : Bytes) (p : Pumps) → IsNumbered p → IsNumbered (accept t chunk p)
unfolding IsNumbered accept
accept-IsNumbered stdout chunk p h = elim (Bool-cases (is_empty (take_budget p.budget chunk).0)) [
  | inl e ↦ ground arith
  | inr e ↦ ground arith
]
accept-IsNumbered stderr chunk p h = elim (Bool-cases (is_empty (take_budget p.budget chunk).0)) [
  | inl e ↦ ground arith
  | inr e ↦ ground arith
]

add-IsNumbered :
    (t : Stream) (chunk : Bytes) (p : Pumps) → IsNumbered p → IsNumbered (add t chunk p)
unfolding add
add-IsNumbered t chunk p h =
    elim (leb (accept t chunk p).max_buf (length (pending t (accept t chunk p))))
      as (λ b. IsNumbered (if b then flush t (accept t chunk p) else accept t chunk p)) [
        | true ↦ flush-IsNumbered t (accept t chunk p) (accept-IsNumbered t chunk p h)
        | false ↦ accept-IsNumbered t chunk p h
      ]

run_events-IsNumbered : (es : List Event) (p : Pumps) → IsNumbered p → IsNumbered (run_events es p)
unfolding run_events step
run_events-IsNumbered [] p h = h
run_events-IsNumbered (read t chunk ∷ es) p h =
    run_events-IsNumbered es (add t chunk p) (add-IsNumbered t chunk p h)
run_events-IsNumbered (tick t ∷ es) p h =
    run_events-IsNumbered es (flush t p) (flush-IsNumbered t p h)

-- The entries of a run's log are numbered 1, 2, 3 and so on over both streams, without a gap and without a
-- repetition, up to the counter, for every order of reads and ticks.
pub seqs-finish :
    (es : List Event) (max_output max_buf : ℕ)
    → seqs (finish es (start max_output max_buf)).logs
      ≡ upto (finish es (start max_output max_buf)).seq
unfolding finish start IsNumbered seqs upto
seqs-finish es max_output max_buf =
    let p = start max_output max_buf in
    flush-IsNumbered stderr (flush stdout (run_events es p))
      (flush-IsNumbered stdout (run_events es p) (run_events-IsNumbered es p refl))
