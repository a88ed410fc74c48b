-- ===== src/Agent/Loop/Race.antt =====
-- The shared cancel function against the job that runs.
use sopdet.Prelude.{
  ℕ, ◌+◌, ◌≤◌, ◌≡◌, refl, Bool, true, false, Option, none, some, List, [], ◌∷◌, arith, inl, inr,
  Bool-cases, Option-cases, ◌==◌,
}
use sopdet.Agent.Loop.Cancel.{
  Phase, idle, claiming, claimed, running, checked, leaving, ended, Beat, waiting, asking, answered,
  holding, Serve, start, cancel_job, cancel_child, set_current, clear_current, cancel_current, hear,
  read_current, shut_down, Step, ask, no_job, take_job, begin, fail, abandon, pass, decide, settle,
  quit, call, miss, answer, obey, strike, shutdown, Reach, here, next,
}

-- The job whose context a cancel function must belong to.
abbrev pub owner : Phase → Option ℕ
owner idle = none
owner claiming = none
owner (claimed j) = none
owner (running j c) = some j
owner (checked j c) = some j
owner (leaving j c) = some j
owner ended = none

abbrev pub IsCoherent : Serve → Type 0
IsCoherent s = s.current ≡ owner s.phase

owner-cancel_job : (j : ℕ) (p : Phase) → owner (cancel_job j p) ≡ owner p
owner-cancel_job j idle = refl
owner-cancel_job j claiming = refl
owner-cancel_job j (claimed k) = refl
owner-cancel_job j (running k c) = refl
owner-cancel_job j (checked k c) = refl
owner-cancel_job j (leaving k c) = refl
owner-cancel_job j ended = refl

owner-cancel_child : (p : Phase) → owner (cancel_child p) ≡ owner p
owner-cancel_child idle = refl
owner-cancel_child claiming = refl
owner-cancel_child (claimed k) = refl
owner-cancel_child (running k c) = refl
owner-cancel_child (checked k c) = refl
owner-cancel_child (leaving k c) = refl
owner-cancel_child ended = refl

cancel_current-IsCoherent :
    (o : Option ℕ) (s : Serve) → IsCoherent s → IsCoherent (cancel_current o s)
unfolding cancel_current
cancel_current-IsCoherent none s h = h
cancel_current-IsCoherent (some j) s h = ground (arith, h, owner-cancel_job j s.phase)

Step-IsCoherent : {s t : Serve} → Step s t → IsCoherent s → IsCoherent t
unfolding set_current clear_current hear read_current shut_down
Step-IsCoherent (ask p q) h = ground (arith, h, p)
Step-IsCoherent (no_job p) h = ground (arith, h, p)
Step-IsCoherent (take_job p) h = ground (arith, h, p)
Step-IsCoherent (begin j p) h = refl
Step-IsCoherent (fail j c p) h = ground (arith, h, p)
Step-IsCoherent (abandon j c p q) h = ground (arith, h, p)
Step-IsCoherent (pass j c p q) h = ground (arith, h, p)
Step-IsCoherent (decide j c p) h = ground (arith, h, p)
Step-IsCoherent (settle j c p) h = refl
Step-IsCoherent (quit p q) h = ground (arith, h, p)
Step-IsCoherent (call p q) h = h
Step-IsCoherent (miss p) h = h
Step-IsCoherent (answer flag p) h = h
Step-IsCoherent (obey flag p) h = h
Step-IsCoherent {s} (strike o p) h = cancel_current-IsCoherent o s h
Step-IsCoherent {s} (shutdown q) h = ground (arith, h, owner-cancel_child s.phase)

-- In every reachable state of the two goroutines, the cancel function that a heartbeat would call is that of the job
-- that runs or is being left, and there is none while no job is.
pub Reach-IsCoherent : {s : Serve} → Reach start s → IsCoherent s
Reach-IsCoherent here = refl
Reach-IsCoherent (next r st) = Step-IsCoherent st (Reach-IsCoherent r)

abbrev pub hit : Bool → ℕ
hit true = 1
hit false = 0

-- The report that a phase can lead to. A run that ends after the shutdown is not reported as cancelled.
abbrev pub cancelled_in : Bool → Phase → ℕ
cancelled_in shut idle = 0
cancelled_in shut claiming = 0
cancelled_in shut (claimed j) = 0
cancelled_in true (running j c) = 0
cancelled_in false (running j c) = hit c
cancelled_in shut (checked j c) = hit c
cancelled_in shut (leaving j c) = hit c
cancelled_in shut ended = 0

abbrev pub cancelled : List (ℕ × Bool) → ℕ
cancelled [] = 0
cancelled (entry ∷ entries) = hit entry.1 + cancelled entries

abbrev pub pending : Beat → ℕ
pending waiting = 0
pending asking = 0
pending (answered flag) = hit flag
pending (holding none) = 0
pending (holding (some j)) = 1

abbrev IsEarned : Serve → Type 0
IsEarned s =
    cancelled s.finished + cancelled_in s.shut s.phase + pending s.beat ≤ s.flags + hit s.shut

cancelled_in-cancel_job :
    (b : Bool) (j : ℕ) (p : Phase) → cancelled_in b (cancel_job j p) ≤ cancelled_in b p + 1
cancelled_in-cancel_job b j idle = ground arith
cancelled_in-cancel_job b j claiming = ground arith
cancelled_in-cancel_job b j (claimed k) = ground arith
cancelled_in-cancel_job true j (running k c) = ground arith
cancelled_in-cancel_job false j (running k c) = elim (Bool-cases (j == k)) [
  | inl same ↦ ground (arith, same)
  | inr other ↦ ground (arith, other)
]
cancelled_in-cancel_job b j (checked k c) = elim (Bool-cases (j == k)) [
  | inl same ↦ ground (arith, same)
  | inr other ↦ ground (arith, other)
]
cancelled_in-cancel_job b j (leaving k c) = ground arith
cancelled_in-cancel_job b j ended = ground arith

cancelled_in-cancel_child :
    (p : Phase) → cancelled_in true (cancel_child p) ≤ cancelled_in false p + 1
cancelled_in-cancel_child idle = omega arith
cancelled_in-cancel_child claiming = omega arith
cancelled_in-cancel_child (claimed k) = omega arith
cancelled_in-cancel_child (running k c) = omega arith
cancelled_in-cancel_child (checked k c) = omega arith
cancelled_in-cancel_child (leaving k c) = omega arith
cancelled_in-cancel_child ended = omega arith

cancel_current-IsEarned :
    (o : Option ℕ) (s : Serve) → s.beat ≡ holding o → IsEarned s → IsEarned (cancel_current o s)
unfolding cancel_current
cancel_current-IsEarned none s p h = ground (arith, p, h)
cancel_current-IsEarned (some j) s p h =
    ground (arith, p, h, cancelled_in-cancel_job s.shut j s.phase)

read_current-IsEarned :
    (flag : Bool) (s : Serve) → s.beat ≡ answered flag → IsEarned s → IsEarned (read_current flag s)
unfolding read_current
read_current-IsEarned false s p h = ground (arith, p, h)
read_current-IsEarned true s p h = elim (Option-cases s.current) [
  | inl free ↦ ground (arith, p, h, free)
  | inr (j, held) ↦ ground (arith, p, h, held)
]

Step-IsEarned : {s t : Serve} → Step s t → IsEarned s → IsEarned t
unfolding set_current clear_current hear shut_down
Step-IsEarned (ask p q) h = ground (arith, h, p)
Step-IsEarned (no_job p) h = ground (arith, h, p)
Step-IsEarned (take_job p) h = ground (arith, h, p)
Step-IsEarned {s} (begin j p) h = elim (Bool-cases s.shut) [
  | inl down ↦ ground (arith, h, p, down)
  | inr up ↦ ground (arith, h, p, up)
]
Step-IsEarned (fail j c p) h = ground (arith, h, p)
Step-IsEarned (abandon j c p q) h = ground (arith, h, p, q)
Step-IsEarned (pass j c p q) h = ground (arith, h, p, q)
Step-IsEarned (decide j c p) h = ground (arith, h, p)
Step-IsEarned (settle j c p) h = ground (arith, h, p)
Step-IsEarned (quit p q) h = ground (arith, h, p)
Step-IsEarned (call p q) h = ground (arith, h, p)
Step-IsEarned (miss p) h = ground (arith, h, p)
Step-IsEarned (answer flag p) h = ground (arith, h, p)
Step-IsEarned {s} (obey flag p) h = read_current-IsEarned flag s p h
Step-IsEarned {s} (strike o p) h = cancel_current-IsEarned o s p h
Step-IsEarned {s} (shutdown q) h = ground (arith, h, q, cancelled_in-cancel_child s.phase)

Reach-IsEarned : {s : Serve} → Reach start s → IsEarned s
Reach-IsEarned here = omega arith
Reach-IsEarned (next r st) = Step-IsEarned st (Reach-IsEarned r)

-- In every reachable state, at most as many jobs were reported as cancelled as heartbeats were answered with
-- `CancelRequested`, and one more if the context of the serve loop is cancelled: one answer cancels at most one job, and
-- the shutdown makes at most one more look cancelled.
pub cancelled-Reach : {s : Serve} → Reach start s → cancelled s.finished ≤ s.flags + hit s.shut
cancelled-Reach r = omega (arith, Reach-IsEarned r)
