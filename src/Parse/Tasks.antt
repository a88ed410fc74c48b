-- ===== src/Parse/Tasks.antt =====
-- Scheduled tasks, accounts and restarts: `parseSchtasksCSV`, `parseNetAccounts`, `accountInt`, `parseLastWTMP` and
-- `parseSystemctlTimers`. What encoding/csv, regexp and time make of a text are parameters.
use mathlib.Core.List.{reverse}
use sopdet.Prelude.{
  ℕ, suc, ◌+◌, Bool, not, ◌||◌, ◌&&◌, Option, none, some, List, [], ◌∷◌, map, keep, ◌==◌, ltb,
  if◌then◌else◌, length,
}
use sopdet.Prelude.Text.{codes, same_codes, trim_space}
use sopdet.Parse.Text.{Text, Library, is_blank, starts, holds, nth, lines, fields, Table, put}
use sopdet.Parse.Number.{ℤ, atoi}
use sopdet.Parse.Routes.{is_regexp_space}

pub record ScheduledTaskRow : Type 0 where
  pub task_name : Text
  pub status : Text
  pub enabled : Option Bool
  pub last_run : Text
  pub last_result : Text
  pub next_run : Text
  pub author : Text
  pub command : Text
  pub run_as_user : Text
  pub logon_mode : Text
  pub schedule : Text
  pub schedule_typ : Text

-- `strings.Trim` with the code points that pass the test.
unfoldable drop_while : (ℕ → Bool) → Text → Text
drop_while p [] = []
drop_while p (c ∷ cs) = let rest = drop_while p cs in if p c then rest else c ∷ cs

abbrev trim : (ℕ → Bool) → Text → Text
trim p s = reverse (drop_while p (reverse (drop_while p s)))

abbrev is_mark : ℕ → Bool
is_mark c = c == 34 || c == 0xfeff || c == 32 || c == 9

-- The rows from the header on.
unfoldable pub from_header : Library → List (List Text) → List (List Text)
unfolding drop_while
from_header lib [] = []
from_header lib (rec ∷ recs) =
    let rest = from_header lib recs in
    if not (is_blank rec)
      && lib.equal_fold (trim is_mark (trim_space (nth 0 rec))) (codes "taskname")
    then rec ∷ recs
    else rest

-- `col[name]` is the last column of that name.
unfoldable pub column : Library → Text → ℕ → List Text → Option ℕ
unfolding drop_while
column lib name i [] = none
column lib name i (h ∷ hs) = elim (column lib name (suc i) hs) [
  | some j ↦ some j
  | none ↦
      if same_codes name (map lib.to_lower (trim_space (trim (λ c. c == 34) h)))
      then some i
      else none
]

-- `at`
unfoldable pub cell : Library → List Text → List Text → Text → Option ℕ → Text
unfolding column
cell lib header rec name fallback =
    let other : Text = elim fallback [
      | none ↦ []
      | some i ↦ if ltb i (length rec) then trim_space (nth i rec) else []
    ] in
    elim (column lib name 0 header) [
      | none ↦ other
      | some i ↦ if ltb i (length rec) then trim_space (nth i rec) else other
    ]

unfoldable pub task_row : Library → List Text → List Text → Option ScheduledTaskRow
unfolding cell
task_row lib header rec =
    let name = cell lib header rec (codes "taskname") (some 0) in
    let state = cell lib header rec (codes "scheduled task state") none in
    if is_blank name || not (starts name "\\")
    then none
    else some (record {
      task_name = name;
      status = cell lib header rec (codes "status") none;
      enabled = if is_blank state then none else some (lib.equal_fold state (codes "enabled"));
      last_run = cell lib header rec (codes "last run time") none;
      last_result = cell lib header rec (codes "last result") none;
      next_run = cell lib header rec (codes "next run time") none;
      author = cell lib header rec (codes "author") none;
      command = cell lib header rec (codes "task to run") none;
      run_as_user = cell lib header rec (codes "run as user") none;
      logon_mode = cell lib header rec (codes "logon mode") none;
      schedule = cell lib header rec (codes "schedule") none;
      schedule_typ = cell lib header rec (codes "schedule type") none;
    })

unfoldable pub task_rows : Library → List Text → List (List Text) → List ScheduledTaskRow
unfolding task_row
task_rows lib header [] = []
task_rows lib header (rec ∷ recs) =
    let rest = task_rows lib header recs in
    elim (task_row lib header rec) [ none ↦ rest | some r ↦ r ∷ rest ]

-- The records of the CSV reader, none where it fails.
unfoldable pub parse_schtasks_csv : Library → Option (List (List Text)) → List ScheduledTaskRow
unfolding task_rows from_header
parse_schtasks_csv lib none = []
parse_schtasks_csv lib (some records) = elim (from_header lib records) [
  | [] ↦ []
  | header ∷ recs ↦ task_rows lib header recs
]

-- The two parts around the first run of at least two spaces.
unfoldable pub split_wide : Text → Option (Text × Text)
unfolding drop_while
split_wide [] = none
split_wide (c ∷ []) = none
split_wide (c ∷ d ∷ cs) =
    let rest = split_wide (d ∷ cs) in
    if is_regexp_space c && is_regexp_space d
    then some ([], drop_while is_regexp_space cs)
    else elim rest [ none ↦ none | some p ↦ some (c ∷ p.0, p.1) ]

-- `strings.TrimSuffix(s, ":")`
unfoldable pub trim_colon : Text → Text
trim_colon [] = []
trim_colon (c ∷ cs) = let rest = trim_colon cs in if is_blank cs && c == 58 then [] else c ∷ rest

unfoldable pub account_lines : Library → Table → List Text → Table
unfolding split_wide trim_colon
account_lines lib m [] = m
account_lines lib m (l ∷ ls) =
    account_lines lib
      (elim (split_wide (trim_space l)) [
        | none ↦ m
        | some p ↦
            if is_blank (p.0) || is_blank (p.1)
            then m
            else put (map lib.to_lower (trim_colon (trim_space (p.0)))) (trim_space (p.1)) m
      ])
      ls

abbrev pub parse_net_accounts : Library → Text → Table
parse_net_accounts lib out = account_lines lib [] (lines out)

-- `v[:i]` for the first space, or `v`.
unfoldable until_space : Text → Text
until_space [] = []
until_space (c ∷ cs) = let rest = until_space cs in if c == 32 then [] else c ∷ rest

-- `accountInt`
unfoldable pub account_int : Text → Option ℤ
unfolding until_space atoi
account_int v = atoi (keep (λ c. not (c == 44)) (until_space (trim_space v)))

pub record LastSummary : Type 0 where
  pub reboots : ℕ
  pub shutdowns : ℕ
  pub crashes : ℕ
  pub last_crash : Text
  pub last_reboot : Text
  pub last_shutdown : Text

-- One line of `last`; `date_in` finds a date in it and stamps it with the year.
unfoldable pub last_line : Library → (Text → Option Text) → LastSummary → Text → LastSummary
last_line lib date_in s line =
    let t = trim_space line in
    let lower = map lib.to_lower t in
    let at : Text → Text = λ old. elim (date_in t) [ none ↦ old | some ts ↦ ts ] in
    if is_blank t || starts t "wtmp begins"
    then s
    else if starts lower "reboot"
    then record s { reboots = s.reboots + 1; last_reboot = at s.last_reboot }
    else if starts lower "shutdown"
    then record s { shutdowns = s.shutdowns + 1; last_shutdown = at s.last_shutdown }
    else if holds lower "crash"
    then record s { crashes = s.crashes + 1; last_crash = at s.last_crash }
    else s

unfoldable pub last_lines : Library → (Text → Option Text) → LastSummary → List Text → LastSummary
unfolding last_line
last_lines lib date_in s [] = s
last_lines lib date_in s (l ∷ ls) = last_lines lib date_in (last_line lib date_in s l) ls

abbrev pub parse_last_wtmp : Library → (Text → Option Text) → Text → LastSummary
parse_last_wtmp lib date_in out =
    last_lines lib date_in
      (record {
        reboots = 0;
        shutdowns = 0;
        crashes = 0;
        last_crash = [];
        last_reboot = [];
        last_shutdown = [];
      })
      (lines out)

pub record SystemdTimer : Type 0 where
  pub unit : Text
  pub activates : Text
  pub next : Text
  pub last : Text

-- A line of `systemctl list-timers`; `dates_in` are the matches of `systemctlDateRe`.
unfoldable pub timer_line : (Text → List Text) → Text → Option SystemdTimer
timer_line dates_in line =
    let t = trim_space line in
    let back = reverse (fields t) in
    if is_blank t || starts t "NEXT" || holds t "timers listed"
    then none
    else if ltb (length back) 3 || not (starts (reverse (nth 1 back)) "remit.")
    then none
    else some (record {
      unit = nth 1 back;
      activates = nth 0 back;
      next = nth 0 (dates_in t);
      last = nth 1 (dates_in t);
    })

unfoldable pub timer_lines : (Text → List Text) → List Text → List SystemdTimer
unfolding timer_line
timer_lines dates_in [] = []
timer_lines dates_in (l ∷ ls) =
    let rest = timer_lines dates_in ls in
    elim (timer_line dates_in l) [ none ↦ rest | some st ↦ st ∷ rest ]

abbrev pub parse_systemctl_timers : (Text → List Text) → Text → List SystemdTimer
parse_systemctl_timers dates_in out = timer_lines dates_in (lines out)
