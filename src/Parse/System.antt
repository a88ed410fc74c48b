-- ===== src/Parse/System.antt =====
-- Proxies, ports, recovery and runtimes: `parseNetshWinhttpProxy`, `parseScutilProxy`, `parseNetworksetupPorts`,
-- `parseReagentcInfo`, `nlmCategoryName` and `parseDotnetRuntimes`.
use sopdet.Prelude.{
  ℕ, String, Bool, true, false, not, ◌||◌, ◌&&◌, none, some, List, [], ◌∷◌, ◌++◌, map, ◌==◌, ltb,
  if◌then◌else◌, length,
}
use mathlib.Core.List.{reverse}
use sopdet.Prelude.Text.{codes, trim_space}
use sopdet.Parse.Text.{
  Text, Library, is_blank, is_word, starts, holds, rest_after, nth, lines, fields, join, cut_colon,
  Table, put,
}

pub record WinhttpProxy : Type 0 where
  pub direct : Bool
  pub server : Text
  pub bypass : Text

unfoldable pub winhttp_line : Library → Text → WinhttpProxy → WinhttpProxy
winhttp_line lib line p = elim (cut_colon line) [
  | none ↦ p
  | some kv ↦
      let k = map lib.to_lower (trim_space (kv.0)) in
      if is_word k "proxy server(s)"
      then record p { server = trim_space (kv.1) }
      else if is_word k "bypass list"
      then record p { bypass = trim_space (kv.1) }
      else p
]

unfoldable pub winhttp_lines : Library → WinhttpProxy → List Text → WinhttpProxy
unfolding winhttp_line
winhttp_lines lib p [] = p
winhttp_lines lib p (l ∷ ls) = winhttp_lines lib (winhttp_line lib l p) ls

unfoldable pub parse_netsh_winhttp_proxy : Library → Text → WinhttpProxy
unfolding winhttp_lines
parse_netsh_winhttp_proxy lib out =
    let p = winhttp_lines lib (record { direct = false; server = []; bypass = [] }) (lines out) in
    if holds (map lib.to_lower out) "direct access (no proxy server)"
    then record { direct = true; server = []; bypass = [] }
    else if is_blank p.server
    then record p { direct = true }
    else p

pub record ProxySettings : Type 0 where
  pub enabled : Bool
  pub server : Text
  pub autoconfig : Text
  pub bypass : Text

-- `p`, `exceptions` and `inExceptions`.
pub record ScutilState : Type 0 where
  pub proxy : ProxySettings
  pub exceptions : List Text
  pub in_exceptions : Bool

-- The code points that ``strings.Trim(t, `", `)`` removes.
abbrev is_quote_or_comma : ℕ → Bool
is_quote_or_comma c = c == 34 || c == 44 || c == 32

unfoldable drop_quotes : Text → Text
drop_quotes [] = []
drop_quotes (c ∷ cs) = let rest = drop_quotes cs in if is_quote_or_comma c then rest else c ∷ cs

-- A line of the list of exceptions.
unfoldable pub scutil_exception : Text → ScutilState → ScutilState
unfolding drop_quotes
scutil_exception t st =
    let s = reverse (drop_quotes (reverse (drop_quotes t))) in
    if starts t "}"
    then record st { in_exceptions = false }
    else if is_blank s || starts s "<"
    then st
    else elim (cut_colon s) [
      | none ↦ st
      | some kv ↦ record st { exceptions = st.exceptions ++ (trim_space (kv.1) ∷ []) }
    ]

-- A setting outside of the list.
unfoldable pub scutil_setting : Text → ProxySettings → ProxySettings
scutil_setting t p = elim (cut_colon t) [
  | none ↦ p
  | some kv ↦
      let k = trim_space (kv.0) in
      let v = trim_space (kv.1) in
      if is_word k "HTTPEnable"
      then record p { enabled = is_word v "1" }
      else if is_word k "HTTPProxy"
      then record p { server = v }
      else if is_word k "HTTPPort"
      then (if not (is_blank p.server) && not (is_blank v)
          then record p { server = p.server ++ (codes ":" ++ v) }
          else p)
      else if is_word k "ProxyAutoConfigURLString"
      then record p { autoconfig = v }
      else p
]

unfoldable pub scutil_lines : ScutilState → List Text → ScutilState
unfolding scutil_exception scutil_setting
scutil_lines st [] = st
scutil_lines st (l ∷ ls) =
    let t = trim_space l in
    scutil_lines
      (if starts t "ExceptionsList"
        then record st { in_exceptions = holds t "{" }
        else if st.in_exceptions
        then scutil_exception t st
        else record st { proxy = scutil_setting t st.proxy })
      ls

unfoldable pub parse_scutil_proxy : Text → ProxySettings
unfolding scutil_lines
parse_scutil_proxy out =
    let empty : ProxySettings = record {
      enabled = false;
      server = [];
      autoconfig = [];
      bypass = [];
    } in
    let st =
      scutil_lines (record { proxy = empty; exceptions = []; in_exceptions = false }) (lines out) in
    record st.proxy { bypass = join (codes ";") st.exceptions }

-- The loop over the lines with the map and the variable `port`.
unfoldable pub port_lines : Table → Text → List Text → Table
port_lines m port [] = m
port_lines m port (l ∷ ls) =
    let t = trim_space l in
    let stores = not (starts t "Hardware Port:") && starts t "Device:" && not (is_blank port) in
    port_lines (if stores then put port (rest_after t "Device:") m else m)
      (if starts t "Hardware Port:"
        then rest_after t "Hardware Port:"
        else if stores
        then []
        else port)
      ls

abbrev pub parse_networksetup_ports : Text → Table
parse_networksetup_ports out = port_lines [] [] (lines out)

unfoldable pub reagentc_lines : Library → List Text → String
reagentc_lines lib [] = "unknown"
reagentc_lines lib (l ∷ ls) =
    let lower = map lib.to_lower (trim_space l) in
    let rest = reagentc_lines lib ls in
    if not (holds lower "windows re status")
    then rest
    else if holds lower "disabled"
    then "Disabled"
    else if holds lower "enabled"
    then "Enabled"
    else rest

abbrev pub parse_reagentc_info : Library → Text → String
parse_reagentc_info lib out = reagentc_lines lib (lines out)

abbrev pub nlm_category_name : ℕ → String
nlm_category_name id =
    if id == 0
    then "public"
    else if id == 1
    then "private"
    else if id == 2
    then "domain"
    else "unknown"

pub record DotnetRuntime : Type 0 where
  pub name : Text
  pub version : Text
  pub path : Text

unfoldable drop_brackets : Text → Text
drop_brackets [] = []
drop_brackets (c ∷ cs) = let rest = drop_brackets cs in if c == 91 || c == 93 then rest else c ∷ cs

unfoldable pub runtime_lines : List Text → List DotnetRuntime
unfolding drop_brackets
runtime_lines [] = []
runtime_lines (l ∷ ls) =
    let f = fields (trim_space l) in
    let rest = runtime_lines ls in
    if ltb (length f) 3 || not (holds (nth 1 f) ".")
    then rest
    else record {
      name = nth 0 f;
      version = nth 1 f;
      path = reverse (drop_brackets (reverse (drop_brackets (nth 2 f))));
    }
      ∷ rest

abbrev pub parse_dotnet_runtimes : Text → List DotnetRuntime
parse_dotnet_runtimes out = runtime_lines (lines out)
