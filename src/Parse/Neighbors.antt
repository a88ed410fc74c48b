-- ===== src/Parse/Neighbors.antt =====
-- Neighbor tables: `parseArpAWindows`, `parseArpADarwin`, `parseProcNetArp`, `arpFlagName` and `normalizeMAC`. The
-- printing and reading of other bases than ten are parameters.
use sopdet.Prelude.{
  ℕ, ◌/◌, ◌%◌, Bool, not, ◌||◌, ◌&&◌, Option, none, some, List, [], ◌∷◌, ◌++◌, map, keep, ◌==◌, leb,
  ltb, if◌then◌else◌, length,
}
use sopdet.Prelude.Text.{codes, trim_space}
use sopdet.Parse.Text.{Text, Library, is_word, starts, holds, nth, lines, fields}
use sopdet.Parse.Routes.{tokens}

pub record ArpNeighbor : Type 0 where
  pub ip : Text
  pub mac : Text
  pub iface : Text
  pub kind : Text
  pub state : Text

module _ (lib : Library) where
  -- The loop over the lines with the variable `iface`.
  unfoldable pub arp_windows_lines : Text → List Text → List ArpNeighbor
  arp_windows_lines iface [] = []
  arp_windows_lines iface (l ∷ ls) =
      let t = trim_space l in
      let f = fields t in
      let typ = map lib.to_lower (nth 2 f) in
      let is_head = starts (map lib.to_lower t) "interface:" in
      let rest = arp_windows_lines (if is_head && leb 2 (length f) then nth 1 f else iface) ls in
      let is_row =
        length f == 3 && lib.is_ipv4 (nth 0 f) && (is_word typ "static" || is_word typ "dynamic") in
      if not is_head && is_row
      then record { ip = nth 0 f; mac = nth 1 f; iface = iface; kind = typ; state = [] } ∷ rest
      else rest

  abbrev pub parse_arp_a_windows : Text → List ArpNeighbor
  parse_arp_a_windows out = arp_windows_lines [] (lines out)

  -- The text between parentheses that are the first and the last of a token, and not nothing.
  abbrev strip_close : Text → Option Text
  strip_close [] = none
  strip_close (c ∷ []) = none
  strip_close (c ∷ d ∷ cs) =
      let rest = strip_close (d ∷ cs) in
      elim cs [
        | [] ↦ if d == 41 then some (c ∷ []) else none
        | e ∷ es ↦ elim rest [ none ↦ none | some t ↦ some (c ∷ t) ]
      ]

  abbrev in_parens : Text → Option Text
  in_parens [] = none
  in_parens (c ∷ cs) = if c == 40 then strip_close cs else none

  -- `arpDarwinLine` on a trimmed line, as address, hardware address and interface.
  unfoldable pub arp_darwin_match : List Text → Option (Text × Text × Text)
  arp_darwin_match m = elim (in_parens (nth 1 m)) [
    | none ↦ none
    | some ip ↦
        if is_word (nth 2 m) "at" && is_word (nth 4 m) "on" && leb 6 (length m)
        then some (ip, nth 3 m, nth 5 m)
        else none
  ]

  unfoldable pub arp_darwin_lines : List Text → List ArpNeighbor
  unfolding arp_darwin_match
  arp_darwin_lines [] = []
  arp_darwin_lines (l ∷ ls) =
      let rest = arp_darwin_lines ls in
      elim (arp_darwin_match (tokens (trim_space l))) [
        | none ↦ rest
        | some m ↦
            if not (lib.is_ipv4 (m.0)) || is_word (m.1) "(incomplete)"
            then rest
            else record {
              ip = m.0;
              mac = m.1;
              iface = m.2;
              kind = if holds l "permanent" then codes "static" else codes "dynamic";
              state = [];
            }
              ∷ rest
      ]

  abbrev pub parse_arp_a_darwin : Text → List ArpNeighbor
  parse_arp_a_darwin out = arp_darwin_lines (lines out)

  unfoldable pub arp_flag_name : (ℕ → Text) → ℕ → Text
  arp_flag_name show_hex flags =
      if flags == 2
      then codes "reachable"
      else if flags == 4
      then codes "permanent"
      else if flags == 6
      then codes "stale"
      else codes "0x" ++ show_hex flags

  -- A row of /proc/net/arp, with `parse_uint` for `strconv.ParseUint(…, 0, 32)`.
  unfoldable pub proc_arp_row : (Text → Option ℕ) → (ℕ → Text) → List Text → Option ArpNeighbor
  unfolding arp_flag_name
  proc_arp_row parse_uint show_hex f =
      if ltb (length f) 6 || is_word (nth 0 f) "IP" || not (lib.is_ipv4 (nth 0 f))
      then none
      else elim (parse_uint (nth 2 f)) [
        | none ↦ none
        | some flags ↦
            if flags == 0 || is_word (nth 3 f) "00:00:00:00:00:00"
            then none
            else some (record {
              ip = nth 0 f;
              mac = nth 3 f;
              iface = nth 5 f;
              kind = if flags / 4 % 2 == 0 then codes "dynamic" else codes "static";
              state = arp_flag_name show_hex flags;
            })
      ]

  unfoldable pub proc_arp_lines : (Text → Option ℕ) → (ℕ → Text) → List Text → List ArpNeighbor
  unfolding proc_arp_row
  proc_arp_lines parse_uint show_hex [] = []
  proc_arp_lines parse_uint show_hex (l ∷ ls) =
      let rest = proc_arp_lines parse_uint show_hex ls in
      elim (proc_arp_row parse_uint show_hex (fields l)) [ none ↦ rest | some r ↦ r ∷ rest ]

  abbrev is_hex : ℕ → Bool
  is_hex c = (leb 48 c && leb c 57) || (leb 97 c && leb c 102)

  unfoldable pub normalize_mac : Text → Text
  normalize_mac mac = keep is_hex (map lib.to_lower mac)
