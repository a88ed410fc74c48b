-- ===== src/Parse/Options.antt =====
-- Configuration files: `parseSshdConfig`, `sshdOpt`, `parseLoginDefs` and `parseResolvConf`.
use sopdet.Prelude.{
  ◌≡◌, refl, ap, Bool, false, ◌||◌, ◌&&◌, Option, none, some, List, [], ◌∷◌, ◌++◌, map,
  if◌then◌else◌, inl, inr, Bool-cases, Option-cases, arith,
}
use sopdet.Prelude.Text.{codes, same_codes, has_prefix, trim_space}
use sopdet.Parse.Text.{
  Text, Library, is_blank, lines, fields, Table, find, put, find-put, same_codes_eq,
}

-- What a line of sshd_config does: nothing, end the file, or set an option.
pub data Line : Type 0 where
  skip : Line
  stop : Line
  setting : Text → Text → Line

-- A line that is blank or a comment.
abbrev pub is_silent : Text → Bool
is_silent t = is_blank t || has_prefix t (codes "#")

-- `f[0]` and `f[1]` of the fields of a line, if there are two.
abbrev pub two_fields : List Text → Option (Text × Text)
two_fields [] = none
two_fields (k ∷ []) = none
two_fields (k ∷ v ∷ more) = some (k, v)

module _ (lib : Library) where
  unfoldable pub sshd_line : Text → Line
  sshd_line line =
      let t = trim_space line in
      if is_silent t then skip else elim (two_fields (fields t)) [
        | none ↦ skip
        | some kv ↦
            if lib.equal_fold (kv.0) (codes "match")
            then stop
            else setting (map lib.to_lower (kv.0)) (kv.1)
      ]

  -- A setting whose key is in the map already is passed over.
  abbrev put_new : Text → Text → Table → Table
  put_new k v m = elim (find k m) [ none ↦ put k v m | some old ↦ m ]

  unfoldable pub sshd_lines : List Line → Table → Table
  sshd_lines [] m = m
  sshd_lines (skip ∷ ls) m = sshd_lines ls m
  sshd_lines (stop ∷ ls) m = m
  sshd_lines (setting k v ∷ ls) m = sshd_lines ls (put_new k v m)

  unfoldable pub parse_sshd_config : Text → Table
  parse_sshd_config content = sshd_lines (map sshd_line (lines content)) []

  unfoldable pub login_line : Text → Line
  login_line line =
      let t = trim_space line in
      if is_silent t then skip else elim (two_fields (fields t)) [
        | none ↦ skip
        | some kv ↦ setting (map lib.to_upper (kv.0)) (kv.1)
      ]

  -- No line of login.defs ends the file.
  unfoldable pub login_lines : List Line → Table → Table
  login_lines [] m = m
  login_lines (skip ∷ ls) m = login_lines ls m
  login_lines (stop ∷ ls) m = login_lines ls m
  login_lines (setting k v ∷ ls) m = login_lines ls (put k v m)

  unfoldable pub parse_login_defs : Text → Table
  parse_login_defs content = login_lines (map login_line (lines content)) []

-- `sshdOpt`
abbrev pub sshd_opt : Table → Text → Text
sshd_opt m key = elim (find key m) [ none ↦ codes "default" | some v ↦ v ]

pub record ResolvConf : Type 0 where
  pub servers : List Text
  pub domain : Text

-- One round of the loop over the lines.
unfoldable pub resolv_line : Library → Text → ResolvConf → ResolvConf
resolv_line lib line r = elim (two_fields (fields (trim_space line))) [
  | none ↦ r
  | some kv ↦
      if has_prefix (kv.0) (codes "#")
      then r
      else if same_codes (kv.0) (codes "nameserver")
      then (if lib.is_ip (kv.1) then record r { servers = r.servers ++ (kv.1 ∷ []) } else r)
      else if (same_codes (kv.0) (codes "search") || same_codes (kv.0) (codes "domain"))
          && is_blank r.domain
      then record r { domain = kv.1 }
      else r
]

unfoldable pub resolv_lines : Library → List Text → ResolvConf → ResolvConf
resolv_lines lib [] r = r
resolv_lines lib (l ∷ ls) r = resolv_lines lib ls (resolv_line lib l r)

unfoldable pub parse_resolv_conf : Library → Text → ResolvConf
parse_resolv_conf lib content =
    resolv_lines lib (lines content) (record { servers = []; domain = [] })

-- The name and the value that a line of sshd_config has, if it is not blank, no comment, and has two fields.
abbrev pub option_of : Text → Option (Text × Text)
option_of line = if is_silent (trim_space line) then none else two_fields (fields (trim_space line))

-- A Match line, in any case of its letters.
abbrev pub is_match : Library → Text → Bool
is_match lib line = elim (option_of line) [
  | none ↦ false
  | some kv ↦ lib.equal_fold (kv.0) (codes "match")
]

abbrev pub has_name : Library → Text → Text → Bool
has_name lib k line = elim (option_of line) [
  | none ↦ false
  | some kv ↦ same_codes k (map lib.to_lower (kv.0))
]

-- The lines before the first that passes the test.
abbrev pub until {ℓ} : {A : Type ℓ} → (A → Bool) → List A → List A
until stops [] = []
until stops (x ∷ xs) = let rest = until stops xs in if stops x then [] else x ∷ rest

-- The value in the first of the lines that has the name, in any case of its letters.
abbrev pub value_of : Library → Text → List Text → Option Text
value_of lib k [] = none
value_of lib k (l ∷ ls) =
    let rest = value_of lib k ls in
    if has_name lib k l then elim (option_of l) [ none ↦ none | some kv ↦ some (kv.1) ] else rest

-- The value of the last setting of a key.
abbrev pub last_setting : Text → List Line → Option Text
last_setting k [] = none
last_setting k (skip ∷ ls) = last_setting k ls
last_setting k (stop ∷ ls) = last_setting k ls
last_setting k (setting j v ∷ ls) = elim (last_setting k ls) [
  | none ↦ if same_codes k j then some v else none
  | some w ↦ some w
]

abbrev pub or_else : Option Text → Option Text → Option Text
or_else none o = o
or_else (some v) o = some v

module _ (lib : Library) (k : Text) where
  find-put_new :
      (j v : Text) (m : Table)
      → find k (put_new lib j v m) ≡ or_else (find k m) (if same_codes k j then some v else none)
  find-put_new j v m = elim (Bool-cases (same_codes k j)) [
    | inl hit ↦ ground (arith, hit, ap (λ i. find i m) (same_codes_eq k j hit), find-put k j v m)
    | inr miss ↦ ground (arith, miss, find-put k j v m)
  ]

  find-sshd_lines :
      (ls : List Text) (m : Table)
      → find k (sshd_lines lib (map (sshd_line lib) ls) m)
        ≡ or_else (find k m) (value_of lib k (until (is_match lib) ls))
  unfolding sshd_lines sshd_line
  find-sshd_lines [] m = ground arith
  find-sshd_lines (l ∷ ls) m = elim (Bool-cases (is_silent (trim_space l))) [
    | inl silent ↦ ground (arith, silent, find-sshd_lines ls m)
    | inr loud ↦ elim (Option-cases (two_fields (fields (trim_space l)))) [
      | inl short ↦ ground (arith, loud, short, find-sshd_lines ls m)
      | inr (kv, e) ↦ elim (Bool-cases (lib.equal_fold (kv.0) (codes "match"))) [
        | inl match_line ↦ ground (arith, loud, e, match_line)
        | inr other ↦ ground (
          arith,
          loud,
          e,
          other,
          find-sshd_lines ls (put_new lib (map lib.to_lower (kv.0)) (kv.1) m),
          find-put_new (map lib.to_lower (kv.0)) (kv.1) m,
        )
      ]
    ]
  ]

  -- An option has in the map of `parseSshdConfig` the value of the first line that has its name, among the lines before
  -- the first Match line, and no value if none of these lines has.
  pub find-parse_sshd_config :
      (content : Text)
      → find k (parse_sshd_config lib content)
        ≡ value_of lib k (until (is_match lib) (lines content))
  unfolding parse_sshd_config find
  find-parse_sshd_config content = find-sshd_lines (lines content) []

  find-login_lines :
      (ls : List Line) (m : Table)
      → find k (login_lines lib ls m) ≡ or_else (last_setting k ls) (find k m)
  unfolding login_lines
  find-login_lines [] m = refl
  find-login_lines (skip ∷ ls) m = find-login_lines ls m
  find-login_lines (stop ∷ ls) m = find-login_lines ls m
  find-login_lines (setting j v ∷ ls) m =
      ground (arith, find-login_lines ls (put j v m), find-put k j v m)

  -- A key of login.defs has the value of its last line.
  pub find-parse_login_defs :
      (content : Text)
      → find k (parse_login_defs lib content)
        ≡ last_setting k (map (login_line lib) (lines content))
  unfolding parse_login_defs find
  find-parse_login_defs content =
      ground (arith, find-login_lines (map (login_line lib) (lines content)) [])
