-- ===== src/Parse/Wifi.antt =====
-- Wireless links: `parseNetshWLANInterfaces`, `parseIwLink`, `freqToChannel` and `parseAirportI`.
use sopdet.Prelude.{
  ℕ, ◌-◌, ◌/◌, Bool, true, false, not, ◌&&◌, Option, none, some, List, [], ◌∷◌, map, ◌==◌, leb,
  if◌then◌else◌, length, drop,
}
use sopdet.Prelude.Text.{codes, trim_space}
use sopdet.Parse.Text.{
  Text, Library, is_blank, add_to_first, starts, rest_after, trim_prefix, nth, lines, fields,
  split_on, cut_colon, Table, put, at,
}
use sopdet.Parse.Number.{ℤ, atoi}

pub record WifiAssociation : Type 0 where
  pub interface : Text
  pub state : Text
  pub ssid : Text
  pub bssid : Text
  pub signal_percent : Option ℤ
  pub radio_type : Text
  pub authentication : Text
  pub cipher : Text
  pub channel : Option ℤ

-- `strings.Split(out, "\n\n")`
unfoldable pub blocks : Text → List Text
blocks [] = [] ∷ []
blocks (c ∷ []) = (c ∷ []) ∷ []
blocks (c ∷ d ∷ cs) =
    let after = blocks cs in
    let rest = blocks (d ∷ cs) in if c == 10 && d == 10 then [] ∷ after else add_to_first c rest

-- `strings.TrimSuffix(s, "%")`
unfoldable pub trim_percent : Text → Text
trim_percent [] = []
trim_percent (c ∷ cs) =
    let rest = trim_percent cs in if is_blank cs && c == 37 then [] else c ∷ rest

-- The table of the lines of a block with a colon.
unfoldable pub block_table : Library → Table → List Text → Table
block_table lib kv [] = kv
block_table lib kv (l ∷ ls) =
    block_table lib
      (elim (cut_colon l) [
        | none ↦ kv
        | some p ↦ put (map lib.to_lower (trim_space (p.0))) (trim_space (p.1)) kv
      ])
      ls

unfoldable pub wlan_block : Library → Text → Option WifiAssociation
unfolding block_table trim_percent
wlan_block lib block =
    let kv = block_table lib [] (lines block) in
    if is_blank (at (codes "name") kv)
    then none
    else some (record {
      interface = at (codes "name") kv;
      state = at (codes "state") kv;
      ssid = at (codes "ssid") kv;
      bssid = at (codes "bssid") kv;
      signal_percent = atoi (trim_space (trim_percent (at (codes "signal") kv)));
      radio_type = at (codes "radio type") kv;
      authentication = at (codes "authentication") kv;
      cipher = at (codes "cipher") kv;
      channel = atoi (trim_space (at (codes "channel") kv));
    })

unfoldable pub wlan_blocks : Library → List Text → List WifiAssociation
unfolding wlan_block
wlan_blocks lib [] = []
wlan_blocks lib (b ∷ bs) =
    let rest = wlan_blocks lib bs in elim (wlan_block lib b) [ none ↦ rest | some w ↦ w ∷ rest ]

unfoldable pub parse_netsh_wlan_interfaces : Library → Text → List WifiAssociation
unfolding wlan_blocks blocks
parse_netsh_wlan_interfaces lib out = wlan_blocks lib (blocks out)

pub record IwLink : Type 0 where
  pub connected : Bool
  pub ssid : Text
  pub bssid : Text
  pub signal_dbm : Option ℤ
  pub freq : Option ℤ

abbrev no_link : IwLink
no_link = record { connected = false; ssid = []; bssid = []; signal_dbm = none; freq = none }

-- The value that a line sets, or the old one where the line has no number.
abbrev number_or : Option ℤ → List Text → Option ℤ
number_or old [] = old
number_or old (t ∷ ts) = elim (atoi t) [ none ↦ old | some n ↦ some n ]

unfoldable pub iw_line : IwLink → Text → IwLink
iw_line l line =
    let t = trim_space line in
    if starts t "SSID: "
    then record l { ssid = rest_after t "SSID: " }
    else if starts t "signal: "
    then record l {
      signal_dbm = number_or l.signal_dbm (fields (trim_prefix t (codes "signal: ")));
    }
    else if starts t "freq: "
    then record l { freq = number_or l.freq (fields (trim_prefix t (codes "freq: "))) }
    else l

unfoldable pub iw_lines : IwLink → List Text → IwLink
unfolding iw_line
iw_lines l [] = l
iw_lines l (line ∷ ls) = iw_lines (iw_line l line) ls

unfoldable pub parse_iw_link : Text → IwLink
unfolding iw_lines
parse_iw_link out =
    let ls = lines out in
    let first = trim_space (nth 0 ls) in
    let f = fields first in
    if not (starts first "Connected to ")
    then no_link
    else iw_lines
        (record no_link { connected = true; bssid = if leb 3 (length f) then nth 2 f else [] })
        (drop 1 ls)

-- `freqToChannel`; a negative frequency has no channel, as 0.
unfoldable pub freq_to_channel : ℕ → ℕ
freq_to_channel freq =
    if leb 2412 freq && leb freq 2472
    then (freq - 2407) / 5
    else if freq == 2484
    then 14
    else if leb 5000 freq && leb freq 5900
    then (freq - 5000) / 5
    else if leb 5955 freq && leb freq 7115
    then (freq - 5950) / 5
    else 0

pub record AirportInfo : Type 0 where
  pub ssid : Text
  pub bssid : Text
  pub rssi : Option ℤ
  pub channel : Option ℤ
  pub auth : Text

-- The field in front of the first comma of the first field.
abbrev first_of_commas : List Text → List Text
first_of_commas [] = []
first_of_commas (t ∷ ts) = split_on (λ c. c == 44) t

unfoldable pub airport_line : AirportInfo → Text → AirportInfo
airport_line a line =
    let t = trim_space line in
    if starts t "SSID:"
    then record a { ssid = rest_after t "SSID:" }
    else if starts t "BSSID:"
    then record a { bssid = rest_after t "BSSID:" }
    else if starts t "agrCtlRSSI:"
    then record a { rssi = number_or a.rssi (rest_after t "agrCtlRSSI:" ∷ []) }
    else if starts t "channel:"
    then record a {
      channel = number_or a.channel (first_of_commas (fields (trim_prefix t (codes "channel:"))));
    }
    else if starts t "link auth:"
    then record a { auth = rest_after t "link auth:" }
    else a

unfoldable pub airport_lines : AirportInfo → List Text → AirportInfo
unfolding airport_line
airport_lines a [] = a
airport_lines a (l ∷ ls) = airport_lines (airport_line a l) ls

abbrev pub parse_airport_i : Text → AirportInfo
parse_airport_i out =
    airport_lines (record { ssid = []; bssid = []; rssi = none; channel = none; auth = [] })
      (lines out)
