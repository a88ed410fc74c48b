-- ===== src/Agent/Runner/Account.antt =====
-- Where the bytes of a stream go: into the log in order, up to the budget.
use sopdet.Prelude.{
  ℕ, ◌+◌, ◌≡◌, refl, ap, sym, ◌∙◌, Bool, true, false, List, [], ◌∷◌, ◌++◌, append_assoc, append-nil,
  arith, leb, if◌then◌else◌, length, Bool-cases, inl, inr,
}
use sopdet.Agent.Runner.Stream.{
  Stream, stdout, stderr, Bytes, LogEntry, take_budget, Pumps, pending, is_empty, emit, flush,
  accept, add, Event, read, tick,
}

abbrev pub same_stream : Stream → Stream → Bool
same_stream stdout stdout = true
same_stream stdout stderr = false
same_stream stderr stdout = false
same_stream stderr stderr = true

-- The text that was logged of a stream.
unfoldable pub logged : Stream → List LogEntry → Bytes
logged s [] = []
logged s (e ∷ es) = (if same_stream s e.stream then e.text else []) ++ logged s es

-- What was read of a stream.
unfoldable pub input : Stream → List Event → Bytes
input s [] = []
input s (read t chunk ∷ es) = (if same_stream s t then chunk else []) ++ input s es
input s (tick t ∷ es) = input s es

logged-append :
    (s : Stream) (xs ys : List LogEntry) → logged s (xs ++ ys) ≡ logged s xs ++ logged s ys
unfolding logged
logged-append s [] ys = refl
logged-append s (e ∷ xs) ys =
    ap (λ l. (if same_stream s e.stream then e.text else []) ++ l) (logged-append s xs ys)
    ∙ sym (append_assoc (if same_stream s e.stream then e.text else []) (logged s xs) (logged s ys))

-- What the pumps have taken of a stream.
unfoldable pub held : Stream → Pumps → Bytes
held s p = logged s p.logs ++ pending s p

logged-one :
    (s : Stream) (e : LogEntry)
    → logged s (e ∷ []) ≡ (if same_stream s e.stream then e.text else [])
unfolding logged
logged-one s e = append-nil (if same_stream s e.stream then e.text else [])

-- A record of a flush: the stream's bytes are one entry more.
logged-flushed :
    (s : Stream) (xs : List LogEntry) (e : LogEntry) (rest : Bytes)
    → logged s (xs ++ (e ∷ [])) ++ rest
      ≡ logged s xs ++ ((if same_stream s e.stream then e.text else []) ++ rest)
logged-flushed s xs e rest =
    ap (λ l. l ++ rest) (logged-append s xs (e ∷ []) ∙ ap (λ l. logged s xs ++ l) (logged-one s e))
    ∙ append_assoc (logged s xs) (if same_stream s e.stream then e.text else []) rest

entry : ℕ → Stream → Bytes → LogEntry
entry n s text = record { seq = n; stream = s; text = text }

pub held-flush : (s t : Stream) (p : Pumps) → p.on_logs ≡ true → held s (flush t p) ≡ held s p
unfolding held flush emit entry
held-flush stdout stdout p on = elim (Bool-cases (is_empty p.out_pending)) [
  | inl e ↦ ground arith
  | inr e ↦ ground (
    arith,
    logged-flushed stdout p.logs (entry (p.seq + 1) stdout p.out_pending) [],
    append-nil p.out_pending,
  )
]
held-flush stdout stderr p on = elim (Bool-cases (is_empty p.err_pending)) [
  | inl e ↦ ground arith
  | inr e ↦
      ground
        (arith, logged-flushed stdout p.logs (entry (p.seq + 1) stderr p.err_pending) p.out_pending)
]
held-flush stderr stdout p on = elim (Bool-cases (is_empty p.out_pending)) [
  | inl e ↦ ground arith
  | inr e ↦
      ground
        (arith, logged-flushed stderr p.logs (entry (p.seq + 1) stdout p.out_pending) p.err_pending)
]
held-flush stderr stderr p on = elim (Bool-cases (is_empty p.err_pending)) [
  | inl e ↦ ground arith
  | inr e ↦ ground (
    arith,
    logged-flushed stderr p.logs (entry (p.seq + 1) stderr p.err_pending) [],
    append-nil p.err_pending,
  )
]

pub budget-flush : (t : Stream) (p : Pumps) → (flush t p).budget ≡ p.budget
unfolding flush emit
budget-flush stdout p = elim (Bool-cases (is_empty p.out_pending)) [
  | inl e ↦ ground arith
  | inr e ↦ elim (Bool-cases p.on_logs) [ inl o ↦ ground arith | inr o ↦ ground arith ]
]
budget-flush stderr p = elim (Bool-cases (is_empty p.err_pending)) [
  | inl e ↦ ground arith
  | inr e ↦ elim (Bool-cases p.on_logs) [ inl o ↦ ground arith | inr o ↦ ground arith ]
]

pub on_logs-flush : (t : Stream) (p : Pumps) → (flush t p).on_logs ≡ p.on_logs
unfolding flush emit
on_logs-flush stdout p = elim (Bool-cases (is_empty p.out_pending)) [
  | inl e ↦ ground arith
  | inr e ↦ elim (Bool-cases p.on_logs) [ inl o ↦ ground arith | inr o ↦ ground arith ]
]
on_logs-flush stderr p = elim (Bool-cases (is_empty p.err_pending)) [
  | inl e ↦ ground arith
  | inr e ↦ elim (Bool-cases p.on_logs) [ inl o ↦ ground arith | inr o ↦ ground arith ]
]

empty_nil : (xs : Bytes) → is_empty xs ≡ true → xs ≡ []
empty_nil [] h = refl
empty_nil (x ∷ xs) h = ground arith

pub pending-flush : (t : Stream) (p : Pumps) → pending t (flush t p) ≡ []
unfolding flush emit
pending-flush stdout p = elim (Bool-cases (is_empty p.out_pending)) [
  | inl e ↦ ground (arith, empty_nil p.out_pending e)
  | inr e ↦ elim (Bool-cases p.on_logs) [ inl o ↦ ground arith | inr o ↦ ground arith ]
]
pending-flush stderr p = elim (Bool-cases (is_empty p.err_pending)) [
  | inl e ↦ ground (arith, empty_nil p.err_pending e)
  | inr e ↦ elim (Bool-cases p.on_logs) [ inl o ↦ ground arith | inr o ↦ ground arith ]
]

pub out_pending-flush : (p : Pumps) → (flush stderr p).out_pending ≡ p.out_pending
unfolding flush emit
out_pending-flush p = elim (Bool-cases (is_empty p.err_pending)) [
  | inl e ↦ ground arith
  | inr e ↦ elim (Bool-cases p.on_logs) [ inl o ↦ ground arith | inr o ↦ ground arith ]
]

-- What a chunk adds to the bytes of a stream: the part of it that the budget allows.
abbrev pub allowed : Stream → Stream → Bytes → Pumps → Bytes
allowed s t chunk p = if same_stream s t then (take_budget p.budget chunk).0 else []

held-accept :
    (s t : Stream) (chunk : Bytes) (p : Pumps)
    → held s (accept t chunk p) ≡ held s p ++ allowed s t chunk p
unfolding held accept
held-accept stdout stdout chunk p = elim (Bool-cases (is_empty (take_budget p.budget chunk).0)) [
  | inl e ↦ ground (
    arith,
    empty_nil (take_budget p.budget chunk).0 e,
    append_assoc (logged stdout p.logs) p.out_pending (take_budget p.budget chunk).0,
    append-nil (logged stdout p.logs ++ p.out_pending),
  )
  | inr e ↦ ground (
    arith,
    append_assoc (logged stdout p.logs) p.out_pending (take_budget p.budget chunk).0,
    append-nil (logged stdout p.logs ++ p.out_pending),
  )
]
held-accept stdout stderr chunk p = elim (Bool-cases (is_empty (take_budget p.budget chunk).0)) [
  | inl e ↦ ground (
    arith,
    empty_nil (take_budget p.budget chunk).0 e,
    append-nil (logged stdout p.logs ++ p.out_pending),
  )
  | inr e ↦ ground (arith, append-nil (logged stdout p.logs ++ p.out_pending))
]
held-accept stderr stdout chunk p = elim (Bool-cases (is_empty (take_budget p.budget chunk).0)) [
  | inl e ↦ ground (
    arith,
    empty_nil (take_budget p.budget chunk).0 e,
    append-nil (logged stderr p.logs ++ p.err_pending),
  )
  | inr e ↦ ground (arith, append-nil (logged stderr p.logs ++ p.err_pending))
]
held-accept stderr stderr chunk p = elim (Bool-cases (is_empty (take_budget p.budget chunk).0)) [
  | inl e ↦ ground (
    arith,
    empty_nil (take_budget p.budget chunk).0 e,
    append_assoc (logged stderr p.logs) p.err_pending (take_budget p.budget chunk).0,
    append-nil (logged stderr p.logs ++ p.err_pending),
  )
  | inr e ↦ ground (
    arith,
    append_assoc (logged stderr p.logs) p.err_pending (take_budget p.budget chunk).0,
    append-nil (logged stderr p.logs ++ p.err_pending),
  )
]

accept-rest :
    (t : Stream) (chunk : Bytes) (p : Pumps)
    → ((accept t chunk p).budget ≡ (take_budget p.budget chunk).1)
      × ((accept t chunk p).on_logs ≡ p.on_logs)
unfolding accept
accept-rest stdout chunk p = elim (Bool-cases (is_empty (take_budget p.budget chunk).0)) [
  | inl e ↦ ground arith
  | inr e ↦ ground arith
]
accept-rest stderr chunk p = elim (Bool-cases (is_empty (take_budget p.budget chunk).0)) [
  | inl e ↦ ground arith
  | inr e ↦ ground arith
]

pub held-add :
    (s t : Stream) (chunk : Bytes) (p : Pumps)
    → p.on_logs ≡ true
    → held s (add t chunk p) ≡ held s p ++ allowed s t chunk p
unfolding add
held-add s t chunk p on =
    elim (Bool-cases (leb (accept t chunk p).max_buf (length (pending t (accept t chunk p))))) [
      | inl e ↦
          ground (
            arith,
            held-accept s t chunk p,
            accept-rest t chunk p,
            held-flush s t (accept t chunk p),
          )
      | inr e ↦ ground (arith, held-accept s t chunk p)
    ]

pub add-rest :
    (t : Stream) (chunk : Bytes) (p : Pumps)
    → ((add t chunk p).budget ≡ (take_budget p.budget chunk).1)
      × ((add t chunk p).on_logs ≡ p.on_logs)
unfolding add
add-rest t chunk p =
    elim (Bool-cases (leb (accept t chunk p).max_buf (length (pending t (accept t chunk p))))) [
      | inl e ↦ ground (
        arith,
        accept-rest t chunk p,
        budget-flush t (accept t chunk p),
        on_logs-flush t (accept t chunk p),
      )
      | inr e ↦ ground (arith, accept-rest t chunk p)
    ]
