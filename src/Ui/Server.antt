-- ===== src/Ui/Server.antt =====
-- internal/ui/server.go: the events that the page keeps and those that its viewers get. An event is opaque here, and
-- each step of a viewer's handler is an operation beside `Emit`.
use sopdet.Prelude.{
  ℕ, zero, suc, ◌-◌, String, Bool, true, false, List, [], ◌∷◌, ◌++◌, keep, not, length, take, drop,
  ltb, ◌==◌, ◌=ˢ◌, if◌then◌else◌,
}

abbrev pub event_buffer : ℕ
event_buffer = 1024

abbrev pub history_max : ℕ
history_max = 20000

module _ (Event : Type 0) where
  -- The events in a viewer's channel, and those that its handler has taken from it.
  pub record Viewer : Type 0 where
    pub queue : List Event
    pub seen : List Event

  pub record Server : Type 0 where
    pub token : String
    pub history : List Event
    pub subs : List (ℕ × Viewer)
    pub closed : Bool

  -- The oldest event of a channel goes to its handler.
  unfoldable pub take_one : List Event → List Event → Viewer
  take_one [] seen = record { queue = []; seen = seen }
  take_one (e ∷ queue) seen = record { queue = queue; seen = seen ++ (e ∷ []) }

  -- The handler takes an event from its channel.
  abbrev pub receive : Viewer → Viewer
  receive v = take_one v.queue v.seen

  -- The handler takes so many events one after the other, or all that there are.
  unfoldable pub receive_some : ℕ → Viewer → Viewer
  receive_some zero v = v
  receive_some (suc n) v = receive_some n (receive v)

  -- How many events the handler of a viewer takes while `Emit` stands between the first attempt and the drop, and
  -- between the drop and the second attempt.
  pub record Pace : Type 0 where
    pub before_drop : ℕ
    pub after_drop : ℕ

  -- `case <-ch` with its default.
  abbrev pub drop_oldest : Viewer → Viewer
  drop_oldest v = record v { queue = drop 1 v.queue }

  -- `case ch <- e` with its default.
  abbrev pub push : Event → Viewer → Viewer
  push e v =
      if ltb (length v.queue) event_buffer then record v { queue = v.queue ++ (e ∷ []) } else v

  -- The body of the loop over the channels: an event that finds the channel full is tried again after the oldest is
  -- dropped.
  unfoldable pub offer : Pace → Event → Viewer → Viewer
  unfolding receive_some
  offer pace e v =
      if ltb (length v.queue) event_buffer
      then record v { queue = v.queue ++ (e ∷ []) }
      else push e (receive_some pace.after_drop (drop_oldest (receive_some pace.before_drop v)))

  unfoldable pub offer_all : (ℕ → Pace) → Event → List (ℕ × Viewer) → List (ℕ × Viewer)
  offer_all pace e [] = []
  offer_all pace e (sub ∷ subs) = (sub.0, offer (pace (sub.0)) e (sub.1)) ∷ offer_all pace e subs

  -- `s.history = s.history[len(s.history)-historyMax:]`
  unfoldable pub bounded : List Event → List Event
  bounded h = if ltb history_max (length h) then drop (length h - history_max) h else h

  unfoldable pub emit : (ℕ → Pace) → Event → Server → Server
  emit pace e s =
      if s.closed
      then s
      else record s { history = bounded (s.history ++ (e ∷ [])); subs = offer_all pace e s.subs }

  -- `handleEvents` up to its loop, for the token that the request gives: events beyond the buffer are dropped.
  unfoldable pub connect : ℕ → String → Server → Server
  connect id given s =
      if given =ˢ s.token
      then record s {
        subs = (id, record { queue = take event_buffer s.history; seen = [] }) ∷ s.subs;
      }
      else s

  unfoldable pub read : ℕ → List (ℕ × Viewer) → List (ℕ × Viewer)
  read id [] = []
  read id (sub ∷ subs) =
      let rest = read id subs in if sub.0 == id then (sub.0, receive (sub.1)) ∷ subs else sub ∷ rest

  -- The deferred `delete(s.subs, ch)`.
  unfoldable pub leave : ℕ → List (ℕ × Viewer) → List (ℕ × Viewer)
  leave id subs = keep (λ sub. not (sub.0 == id)) subs

  pub data Op : Type 0 where
    emit_op : (ℕ → Pace) → Event → Op
    connect_op : ℕ → String → Op
    read_op : ℕ → Op
    leave_op : ℕ → Op
    close_op : Op

  unfoldable pub step : Op → Server → Server
  step (emit_op pace e) s = emit pace e s
  step (connect_op id given) s = connect id given s
  step (read_op id) s = record s { subs = read id s.subs }
  step (leave_op id) s = record s { subs = leave id s.subs }
  step close_op s = record s { closed = true }

  unfoldable pub run : List Op → Server → Server
  run [] s = s
  run (op ∷ ops) s = run ops (step op s)

  unfoldable pub new : String → Server
  new token = record { token = token; history = []; subs = []; closed = false }
