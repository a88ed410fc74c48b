-- ===== src/Parse/Jobs.antt =====
-- Scheduled jobs and users: `parseCrontabFile`, `parseLaunchctlList`, `parseNetLocalgroup` and
-- `parseDscacheutilUIDs`.
use sopdet.Prelude.{
  ℕ, suc, Bool, false, not, ◌||◌, ◌&&◌, Option, none, some, List, [], ◌∷◌, ◌==◌, leb, ltb,
  if◌then◌else◌, length, take, drop,
}
use sopdet.Prelude.Text.{codes, same_codes, trim_space}
use sopdet.Parse.Text.{Text, is_blank, is_word, starts, rest_after, nth, lines, fields, join}

pub record CronEntry : Type 0 where
  pub schedule : Text
  pub user : Text
  pub command : Text
  pub line_no : ℕ

abbrev is_letter : ℕ → Bool
is_letter c = (leb 65 c && leb c 90) || (leb 97 c && leb c 122) || c == 95

abbrev is_digit : ℕ → Bool
is_digit c = leb 48 c && leb c 57

-- `[A-Za-z0-9_]*=`
unfoldable name_then_equals : Text → Bool
name_then_equals [] = false
name_then_equals (c ∷ cs) =
    let rest = name_then_equals cs in c == 61 || ((is_letter c || is_digit c) && rest)

-- `cronEnvAssign`
unfoldable pub cron_env_assign : Text → Bool
unfolding name_then_equals
cron_env_assign [] = false
cron_env_assign (c ∷ cs) = is_letter c && name_then_equals cs

-- The user, where the file has one, and the command.
unfoldable pub cron_command : Bool → CronEntry → List Text → Option CronEntry
cron_command has_user e rest =
    if not has_user
    then some (record e { command = join (codes " ") rest })
    else if ltb (length rest) 2
    then none
    else some (record e { user = nth 0 rest; command = join (codes " ") (drop 1 rest) })

-- The job of a line, which is `n`th in the file.
unfoldable pub cron_line : Bool → ℕ → Text → Option CronEntry
unfolding cron_command
cron_line has_user n line =
    let t = trim_space line in
    let f = fields t in
    let entry : Text → CronEntry =
      λ s. record { schedule = s; user = []; command = []; line_no = n } in
    if is_blank t || starts t "#" || cron_env_assign t
    then none
    else if starts t "@"
    then (if ltb (length f) 2 then none else cron_command has_user (entry (nth 0 f)) (drop 1 f))
    else if ltb (length f) 6
    then none
    else cron_command has_user (entry (join (codes " ") (take 5 f))) (drop 5 f)

unfoldable pub cron_lines : Bool → ℕ → List Text → List CronEntry
cron_lines has_user n [] = []
cron_lines has_user n (l ∷ ls) =
    let rest = cron_lines has_user (suc n) ls in
    elim (cron_line has_user n l) [ none ↦ rest | some e ↦ e ∷ rest ]

unfoldable pub parse_crontab_file : Bool → Text → List CronEntry
parse_crontab_file has_user content = cron_lines has_user 1 (lines content)

pub record LaunchdJob : Type 0 where
  pub label : Text
  pub pid : Text
  pub status : Text

unfoldable pub launchctl_lines : List Text → List LaunchdJob
launchctl_lines [] = []
launchctl_lines (l ∷ ls) =
    let f = fields (trim_space l) in
    let rest = launchctl_lines ls in
    if not (length f == 3) || is_word (nth 0 f) "PID"
    then rest
    else record { label = nth 2 f; pid = nth 0 f; status = nth 1 f } ∷ rest

abbrev pub parse_launchctl_list : Text → List LaunchdJob
parse_launchctl_list out = launchctl_lines (lines out)

-- The members behind the dashes, up to a blank line or the end of the command.
unfoldable pub member_lines : List Text → List Text
member_lines [] = []
member_lines (l ∷ ls) =
    let t = trim_space l in
    let rest = member_lines ls in
    if is_blank t || starts t "The command completed" then [] else t ∷ rest

unfoldable pub group_lines : List Text → List Text
group_lines [] = []
group_lines (l ∷ ls) =
    let rest = group_lines ls in if starts (trim_space l) "---" then member_lines ls else rest

unfoldable pub parse_net_localgroup : Text → List Text
unfolding group_lines member_lines
parse_net_localgroup out = group_lines (lines out)

-- The loop over the lines with the variable `name`.
unfoldable pub uid_lines : Text → Text → List Text → List Text
uid_lines want name [] = []
uid_lines want name (l ∷ ls) =
    let t = trim_space l in
    let is_uid = not (starts t "name:") && starts t "uid:" in
    let named = if starts t "name:" then rest_after t "name:" else if is_uid then [] else name in
    let rest = uid_lines want named ls in
    if is_uid && same_codes (rest_after t "uid:") want && not (is_blank name)
    then name ∷ rest
    else rest

abbrev pub parse_dscacheutil_uids : Text → Text → List Text
parse_dscacheutil_uids out want = uid_lines want [] (lines out)
