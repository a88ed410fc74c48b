-- ===== src/Parse/Placed.antt =====
-- The jobs of a crontab and the lines they stand on.
use mathlib.Core.Path.{subst}
use sopdet.Prelude.{
  ℕ, sym, suc, ◌+◌, ◌-◌, ◌≤◌, ◌<◌, ◌≡◌, Bool, some, List, [], ◌∷◌, length, All, All-map, arith,
  Option-cases, inl, inr,
}
use sopdet.Parse.Text.{Text, nth, lines}
use sopdet.Parse.Jobs.{CronEntry, cron_command, cron_line, cron_lines, parse_crontab_file}

line_no-cron_command :
    (has_user : Bool) (e f : CronEntry) (rest : List Text)
    → cron_command has_user e rest ≡ some f
    → f.line_no ≡ e.line_no
unfolding cron_command
line_no-cron_command has_user e f rest h = ground (arith, h)

line_no-cron_line :
    (has_user : Bool) (n : ℕ) (l : Text) (e : CronEntry)
    → cron_line has_user n l ≡ some e
    → e.line_no ≡ n
unfolding cron_line
line_no-cron_line has_user n l e h = ground (arith, h, line_no-cron_command has_user)

-- The job comes from the line of its number, in a file of these lines whose first has the number `n`.
abbrev pub IsPlaced : Bool → ℕ → List Text → CronEntry → Type 0
IsPlaced has_user n ls e =
    (n ≤ e.line_no)
    × (e.line_no < n + length ls)
    × (cron_line has_user e.line_no (nth (e.line_no - n) ls) ≡ some e)

-- The numbers of the jobs grow, from `n` on.
abbrev pub IsAscending : ℕ → List CronEntry → Type 0
IsAscending n [] = Unit
IsAscending n (e ∷ es) = (n ≤ e.line_no) × IsAscending (suc e.line_no) es

IsPlaced-cons :
    (has_user : Bool) (n : ℕ) (l : Text) (ls : List Text) (e : CronEntry)
    → IsPlaced has_user (suc n) ls e
    → IsPlaced has_user n (l ∷ ls) e
IsPlaced-cons has_user n l ls e (low, high, from) =
    (omega (arith, low), omega (arith, high), found (e.line_no - suc n) (omega (arith, low)) from)
  where
    found :
        (k : ℕ)
        → e.line_no - n ≡ suc k
        → cron_line has_user e.line_no (nth k ls) ≡ some e
        → cron_line has_user e.line_no (nth (e.line_no - n) (l ∷ ls)) ≡ some e
    found k p h = rw p h

IsPlaced-first :
    (has_user : Bool) (n : ℕ) (l : Text) (ls : List Text) (e : CronEntry)
    → cron_line has_user n l ≡ some e
    → IsPlaced has_user n (l ∷ ls) e
IsPlaced-first has_user n l ls e h =
    let k = line_no-cron_line has_user n l e h in
    (
      omega (arith, k),
      omega (arith, k),
      subst (λ i. cron_line has_user i (nth (i - n) (l ∷ ls)) ≡ some e) (sym k) (rw (sub_self n) h),
    )
  where
    sub_self : (k : ℕ) → k - k ≡ 0
    sub_self k = omega arith

cron_lines-IsPlaced :
    (has_user : Bool) (n : ℕ) (ls : List Text)
    → All (IsPlaced has_user n ls) (cron_lines has_user n ls)
unfolding cron_lines
cron_lines-IsPlaced has_user n [] = tt
cron_lines-IsPlaced has_user n (l ∷ ls) = elim (Option-cases (cron_line has_user n l)) [
  | inl e ↦
      rw (cron_lines, e)
        (All-map (IsPlaced-cons has_user n l ls) (cron_lines has_user (suc n) ls)
          (cron_lines-IsPlaced has_user (suc n) ls))
  | inr (job, e) ↦
      rw (cron_lines, e)
        (
          IsPlaced-first has_user n l ls job e,
          All-map (IsPlaced-cons has_user n l ls) (cron_lines has_user (suc n) ls)
              (cron_lines-IsPlaced has_user (suc n) ls),
        )
]

IsAscending-weaken : (m n : ℕ) → m ≤ n → (es : List CronEntry) → IsAscending n es → IsAscending m es
IsAscending-weaken m n h [] a = tt
IsAscending-weaken m n h (e ∷ es) a = (omega (arith, h, a.0), a.1)

cron_lines-IsAscending :
    (has_user : Bool) (n : ℕ) (ls : List Text) → IsAscending n (cron_lines has_user n ls)
unfolding cron_lines
cron_lines-IsAscending has_user n [] = tt
cron_lines-IsAscending has_user n (l ∷ ls) = elim (Option-cases (cron_line has_user n l)) [
  | inl e ↦
      rw (cron_lines, e)
        (IsAscending-weaken n (suc n) (omega arith) _ (cron_lines-IsAscending has_user (suc n) ls))
  | inr (job, e) ↦
      let k = line_no-cron_line has_user n l job e in
      rw (cron_lines, e, k) (omega arith, cron_lines-IsAscending has_user (suc n) ls)
]

-- Every job of a crontab carries the number of a line of the file, counted from 1, that reads as this very job, and
-- the jobs come in the order of their lines, at most one from each.
pub parse_crontab_file-IsPlaced :
    (has_user : Bool) (content : Text)
    → All (IsPlaced has_user 1 (lines content)) (parse_crontab_file has_user content)
      × IsAscending 1 (parse_crontab_file has_user content)
unfolding parse_crontab_file
parse_crontab_file-IsPlaced has_user content = (
  cron_lines-IsPlaced has_user 1 (lines content),
  cron_lines-IsAscending has_user 1 (lines content),
)
