-- ===== src/Parse/Carriage.antt =====
-- The blocks of an output whose lines end in a carriage return and a line feed.
use sopdet.Prelude.{◌≤◌, ◌≡◌, refl, false, ◌&&◌, [], ◌∷◌, ◌==◌, length, arith}
use sopdet.Parse.Text.{Text, Library}
use sopdet.Parse.Wifi.{blocks, wlan_blocks, parse_netsh_wlan_interfaces}

-- No line feed comes directly after another.
abbrev pub IsSpread : Text → Type 0
IsSpread [] = Unit
IsSpread (c ∷ []) = Unit
IsSpread (c ∷ d ∷ cs) = ((c == 10 && d == 10) ≡ false) × IsSpread (d ∷ cs)

blocks-IsSpread : (s : Text) → IsSpread s → blocks s ≡ s ∷ []
unfolding blocks
blocks-IsSpread [] h = refl
blocks-IsSpread (c ∷ []) h = refl
blocks-IsSpread (c ∷ d ∷ cs) h = ground (arith, h.0, blocks-IsSpread (d ∷ cs) (h.1))

one_block : (lib : Library) (b : Text) → length (wlan_blocks lib (b ∷ [])) ≤ 1
unfolding wlan_blocks
one_block lib b = ground arith

-- Of an output without two line feeds in a row, as one whose lines end in a carriage return and a line feed, at most
-- one association is read, whatever it holds.
pub length-parse_netsh_wlan_interfaces :
    (lib : Library) (out : Text) → IsSpread out → length (parse_netsh_wlan_interfaces lib out) ≤ 1
unfolding parse_netsh_wlan_interfaces
length-parse_netsh_wlan_interfaces lib out h =
    rw (parse_netsh_wlan_interfaces, blocks-IsSpread out h) (one_block lib out)
