-- ===== src/Parse/Routes.antt =====
-- Routing tables: `parseRoutePrint4`, `parseProcNetRoute`, `parseNetstatInetRoutes` and `parseRouteGetDefault`.
use sopdet.Prelude.{
  ℕ, Bool, false, not, ◌||◌, ◌&&◌, Option, none, some, List, [], ◌∷◌, map, keep, ◌==◌, ltb,
  if◌then◌else◌, length,
}
use sopdet.Prelude.Text.{codes, trim_space}
use sopdet.Parse.Text.{
  Text, Library, is_blank, is_word, starts, holds, nth, lines, fields, split_on,
}
use sopdet.Parse.Number.{ℤ, atoi, hex_le_ipv4}

pub record RouteEntry : Type 0 where
  pub destination : Text
  pub mask : Text
  pub gateway : Text
  pub interface : Text
  pub metric : Option ℤ
  pub persistent : Bool

-- The white space `\s` of a regular expression.
abbrev pub is_regexp_space : ℕ → Bool
is_regexp_space c = c == 9 || c == 10 || c == 12 || c == 13 || c == 32

-- The tokens of a trimmed line; `netstatRouteLine` matches if there are four, and captures them.
abbrev pub tokens : Text → List Text
tokens t = keep (λ w. not (is_blank w)) (split_on is_regexp_space t)

-- `dst[:i]` and `dst[i+1:]` around the first slash.
unfoldable pub cut_slash : Text → Option (Text × Text)
cut_slash [] = none
cut_slash (c ∷ cs) =
    let rest = cut_slash cs in
    if c == 47 then some ([], cs) else elim rest [ none ↦ none | some p ↦ some (c ∷ p.0, p.1) ]

module _ (lib : Library) where
  -- The gateway of a row, empty for `on-link`; none if it is no address.
  abbrev gateway_of : Text → Option Text
  gateway_of gw =
      if lib.equal_fold gw (codes "on-link")
      then some []
      else if lib.is_ipv4 gw
      then some gw
      else none

  -- The route of the fields of a line, in the persistent or the active section.
  unfoldable pub print_row : Bool → List Text → Option RouteEntry
  print_row persistent f =
      if ltb (length f) 4 || not (lib.is_ipv4 (nth 0 f)) || not (lib.is_ipv4 (nth 1 f))
      then none
      else elim (gateway_of (nth 2 f)) [
        | none ↦ none
        | some gw ↦
            let r : RouteEntry = record {
              destination = nth 0 f;
              mask = nth 1 f;
              gateway = gw;
              interface = [];
              metric = none;
              persistent = persistent;
            } in
            if persistent
            then some (record r { metric = atoi (nth 3 f) })
            else if ltb (length f) 5 || not (lib.is_ipv4 (nth 3 f))
            then none
            else some (record r { interface = nth 3 f; metric = atoi (nth 4 f) })
      ]

  unfoldable pub print_lines : Bool → List Text → List RouteEntry
  print_lines persistent [] = []
  print_lines persistent (l ∷ ls) =
      let t = trim_space l in
      let lower = map lib.to_lower t in
      let on = holds lower "persistent routes" in
      let off = not on && holds lower "active routes" in
      let rest = print_lines (on || (not off && persistent)) ls in
      if on || off
      then rest
      else elim (print_row persistent (fields t)) [ none ↦ rest | some r ↦ r ∷ rest ]

  unfoldable pub parse_route_print4 : Text → List RouteEntry
  parse_route_print4 out = print_lines false (lines out)

  -- A row of /proc/net/route.
  unfoldable pub proc_row : List Text → Option RouteEntry
  unfolding hex_le_ipv4
  proc_row f =
      let dst = hex_le_ipv4 lib (nth 1 f) in
      let gw = hex_le_ipv4 lib (nth 2 f) in
      let mask = hex_le_ipv4 lib (nth 7 f) in
      if ltb (length f) 8 || is_word (nth 0 f) "Iface"
      then none
      else if is_blank dst || is_blank gw || is_blank mask
      then none
      else some (record {
        destination = dst;
        mask = mask;
        gateway = gw;
        interface = nth 0 f;
        metric = atoi (nth 6 f);
        persistent = false;
      })

  unfoldable pub proc_lines : List Text → List RouteEntry
  unfolding proc_row
  proc_lines [] = []
  proc_lines (l ∷ ls) =
      let rest = proc_lines ls in elim (proc_row (fields l)) [ none ↦ rest | some r ↦ r ∷ rest ]

  unfoldable pub parse_proc_net_route : Text → List RouteEntry
  parse_proc_net_route content = proc_lines (lines content)

  -- A row of `netstat -rn`; the test of a gateway that is no address only repeats what the next one decides.
  unfoldable pub netstat_row : List Text → Option RouteEntry
  unfolding cut_slash
  netstat_row m =
      let dst = nth 0 m in
      let gw = nth 1 m in
      let parts : Text × Text = elim (cut_slash dst) [ none ↦ (dst, []) | some p ↦ p ] in
      let whole : Text × Text =
        if is_word (parts.0) "default" then (codes "0.0.0.0", codes "0") else parts in
      if ltb (length m) 4 || starts gw "link#" || is_word dst "Destination"
      then none
      else if not (lib.is_ipv4 gw)
          && not (is_word gw "default")
          && not (holds dst ".")
          && not (is_word dst "default")
      then none
      else if not (lib.is_ipv4 gw)
      then none
      else some (record {
        destination = whole.0;
        mask = whole.1;
        gateway = gw;
        interface = nth 3 m;
        metric = none;
        persistent = false;
      })

  unfoldable pub netstat_lines : List Text → List RouteEntry
  unfolding netstat_row
  netstat_lines [] = []
  netstat_lines (l ∷ ls) =
      let rest = netstat_lines ls in
      elim (netstat_row (tokens (trim_space l))) [ none ↦ rest | some r ↦ r ∷ rest ]

  abbrev pub parse_netstat_inet_routes : Text → List RouteEntry
  parse_netstat_inet_routes out = netstat_lines (lines out)

-- The gateway and the interface that were read last.
unfoldable pub default_lines : Text × Text → List Text → Text × Text
default_lines r [] = r
default_lines r (l ∷ ls) =
    let f = fields (trim_space l) in
    default_lines
      (if ltb (length f) 2
        then r
        else if is_word (nth 0 f) "gateway:"
        then (nth 1 f, r.1)
        else if is_word (nth 0 f) "interface:"
        then (r.0, nth 1 f)
        else r)
      ls

abbrev pub parse_route_get_default : Text → Text × Text
parse_route_get_default out = default_lines ([], []) (lines out)
