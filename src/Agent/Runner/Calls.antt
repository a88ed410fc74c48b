-- ===== src/Agent/Runner/Calls.antt =====
-- internal/agent/runner.go: the calls of the log function. A pump holds its own lock during its call, and no lock holds
-- the number of an entry and its call together, so that a call of one pump can be overtaken by calls of the other.
use sopdet.Prelude.{
  ℕ, ◌≡◌, refl, ap, sym, ◌∙◌, Bool, false, ◌||◌, Option, none, some, List, [], ◌∷◌, ◌++◌,
  append_assoc, append-nil, if◌then◌else◌, inl, inr, Bool-cases, arith,
}
use sopdet.Agent.Runner.Stream.{Stream, stdout, stderr, Bytes, LogEntry, Event, start, finish}
use sopdet.Agent.Runner.Account.{same_stream, logged, input}
use sopdet.Agent.Runner.Log.{logged-finish}

-- When an entry gets its number: whether the call that is under way then comes before it, and whether its own call is
-- delayed.
pub record Delay : Type 0 where
  pub first : Bool
  pub late : Bool

-- The calls that are made by then, and the entry whose call is delayed.
unfoldable pub place : Delay → Option LogEntry → LogEntry → List LogEntry × Option LogEntry
place d none e = if d.late then ([], some e) else (e ∷ [], none)
place d (some h) e =
    if d.first || same_stream h.stream e.stream
    then (if d.late then (h ∷ [], some e) else (h ∷ e ∷ [], none))
    else (e ∷ [], some h)

-- The entries in the order of their calls, for entries in the order of their numbers and a delay of each number.
unfoldable pub calls : (ℕ → Delay) → Option LogEntry → List LogEntry → List LogEntry
unfolding place
calls delays under_way [] = elim under_way [ none ↦ [] | some h ↦ h ∷ [] ]
calls delays under_way (e ∷ es) =
    let (made, left) = place (delays e.seq) under_way e in made ++ calls delays left es

abbrev text_of : Stream → LogEntry → Bytes
text_of s e = if same_stream s e.stream then e.text else []

-- The text of a delayed entry.
abbrev delayed : Stream → Option LogEntry → Bytes
delayed s none = []
delayed s (some h) = text_of s h

-- Of texts of two streams, one is no text of this stream.
swapped :
    (s a b : Stream) (x y : Bytes)
    → same_stream a b ≡ false
    → (if same_stream s b then y else []) ++ (if same_stream s a then x else [])
      ≡ (if same_stream s a then x else []) ++ (if same_stream s b then y else [])
swapped s stdout stdout x y h = absurd cc
swapped s stderr stderr x y h = absurd cc
swapped stdout stdout stderr x y h = rw append-nil refl
swapped stdout stderr stdout x y h = rw append-nil refl
swapped stderr stdout stderr x y h = rw append-nil refl
swapped stderr stderr stdout x y h = rw append-nil refl

overtaken :
    (s : Stream) (h e : LogEntry) (l : Bytes)
    → same_stream h.stream e.stream ≡ false
    → text_of s e ++ (text_of s h ++ l) ≡ text_of s h ++ (text_of s e ++ l)
overtaken s h e l other =
    sym (append_assoc (text_of s e) (text_of s h) l)
    ∙ ap (λ t. t ++ l) (swapped s h.stream e.stream h.text e.text other)
    ∙ append_assoc (text_of s h) (text_of s e) l

logged-calls_from :
    (delays : ℕ → Delay) (s : Stream) (under_way : Option LogEntry) (es : List LogEntry)
    → logged s (calls delays under_way es) ≡ delayed s under_way ++ logged s es
unfolding calls logged
logged-calls_from delays s none [] = refl
logged-calls_from delays s (some h) [] = refl
logged-calls_from delays s none (e ∷ es) = elim (Bool-cases (delays e.seq).late) [
  | inl late ↦ rw late (logged-calls_from delays s (some e) es)
  | inr now ↦ rw now (ap (λ l. text_of s e ++ l) (logged-calls_from delays s none es))
]
logged-calls_from delays s (some h) (e ∷ es) =
    elim (Bool-cases ((delays e.seq).first || same_stream h.stream e.stream)) [
      | inl before ↦ elim (Bool-cases (delays e.seq).late) [
        | inl late ↦
            rw (before, late) (ap (λ l. text_of s h ++ l) (logged-calls_from delays s (some e) es))
        | inr now ↦
            rw (before, now)
              (ap (λ l. text_of s h ++ (text_of s e ++ l)) (logged-calls_from delays s none es))
      ]
      | inr after ↦ rw after (
          ap (λ l. text_of s e ++ l) (logged-calls_from delays s (some h) es)
          ∙ overtaken s h e (logged s es) (ground (arith, after)))
    ]

-- Whatever the delays of the calls are, when a run does not report its output as truncated, the log function is called
-- with every byte that was read of a stream, in the order of the reads, beside those of the other stream.
pub logged-calls :
    (delays : ℕ → Delay) (s : Stream) (es : List Event) (max_output max_buf : ℕ)
    → (finish es (start max_output max_buf)).budget.truncated ≡ false
    → logged s (calls delays none (finish es (start max_output max_buf)).logs) ≡ input s es
logged-calls delays s es max_output max_buf h =
    logged-calls_from delays s none (finish es (start max_output max_buf)).logs
    ∙ logged-finish s es max_output max_buf h
