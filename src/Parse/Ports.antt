-- ===== src/Parse/Ports.antt =====
-- internal/collect/linux.go: the users of /etc/passwd and the listening ports of /proc/net.
use sopdet.Prelude.{
  ℕ, ◌+◌, ◌*◌, ◌^◌, String, Bool, true, false, not, ◌||◌, ◌&&◌, Option, none, some, List, [], ◌∷◌,
  ◌++◌, ◌==◌, ltb, leb, if◌then◌else◌, length,
}
use sopdet.Prelude.Text.{codes}
use sopdet.Parse.Text.{Text, Table, is_word, nth, fields, split_on}
use sopdet.Parse.Number.{hex_digit, hex_bytes}

-- The records of the scanned lines of /etc/passwd.
unfoldable pub passwd_lines : List Text → List Table
passwd_lines [] = []
passwd_lines (l ∷ ls) =
    let p = split_on (λ c. c == 58) l in
    let rest = passwd_lines ls in
    if ltb (length p) 7
    then rest
    else ((codes "key", codes "user:" ++ nth 2 p)
        ∷ (codes "name", nth 0 p)
        ∷ (codes "uid", nth 2 p)
        ∷ (codes "gid", nth 3 p)
        ∷ (codes "full_name", nth 4 p)
        ∷ (codes "home", nth 5 p)
        ∷ (codes "shell", nth 6 p)
        ∷ (codes "account_type", codes "local")
        ∷ [])
      ∷ rest

pub record ListeningPort : Type 0 where
  pub protocol : String
  pub address : Text
  pub port : ℕ
  pub family : String

-- The value of hexadecimal digits after `acc`.
unfoldable pub hex_value : ℕ → Text → Option ℕ
unfolding hex_digit
hex_value acc [] = some acc
hex_value acc (c ∷ cs) = elim (hex_digit c) [ none ↦ none | some d ↦ hex_value (acc * 16 + d) cs ]

-- `strconv.ParseInt(…, 16, 32)` of a number that is not negative; a negative one is no port either.
unfoldable pub hex_port : Text → Option ℕ
unfolding hex_value
hex_port [] = none
hex_port (c ∷ cs) =
    let digits = if c == 43 then cs else c ∷ cs in
    if length digits == 0 then none else elim (hex_value 0 digits) [
      | none ↦ none
      | some n ↦ if ltb n (2 ^ 31) then some n else none
    ]

-- `local[:idx]` and `local[idx+1:]` around the last colon.
unfoldable pub cut_last_colon : Text → Option (Text × Text)
cut_last_colon [] = none
cut_last_colon (c ∷ cs) = elim (cut_last_colon cs) [
  | some p ↦ some (c ∷ p.0, p.1)
  | none ↦ if c == 58 then some ([], cs) else none
]

-- `hexIPv4`, with `itoa` for `strconv.Itoa`.
unfoldable pub hex_ipv4 : (ℕ → Text) → Text → Text
hex_ipv4 itoa h = elim (hex_bytes h) [
  | none ↦ h
  | some b ↦
      if length b == 4
      then elim b [
        | [] ↦ h
        | b₀ ∷ b₁₂₃ ↦ elim b₁₂₃ [
          | [] ↦ h
          | b₁ ∷ b₂₃ ↦ elim b₂₃ [
            | [] ↦ h
            | b₂ ∷ b₃s ↦ elim b₃s [
              | [] ↦ h
              | b₃ ∷ more ↦ itoa b₃ ++ (46 ∷ itoa b₂ ++ (46 ∷ itoa b₁ ++ (46 ∷ itoa b₀)))
            ]
          ]
        ]
      ]
      else h
]

-- The socket of a line of a file of this protocol and family.
unfoldable pub port_line : (ℕ → Text) → String → Bool → Text → Option ListeningPort
unfolding hex_ipv4 hex_port cut_last_colon
port_line itoa family is_udp line =
    let f = fields line in
    if ltb (length f) 4 || (not is_udp && not (is_word (nth 3 f) "0A"))
    then none
    else elim (cut_last_colon (nth 1 f)) [
      | none ↦ none
      | some p ↦ elim (hex_port (p.1)) [
        | none ↦ none
        | some n ↦
            if ltb n 1 || leb 49152 n
            then none
            else some (record {
              protocol = if is_udp then "udp" else "tcp";
              address = if is_word (codes family) "ipv4" then hex_ipv4 itoa (p.0) else p.0;
              port = n;
              family = family;
            })
      ]
    ]

unfoldable pub port_rows : (ℕ → Text) → String → Bool → List Text → List ListeningPort
unfolding port_line
port_rows itoa family is_udp [] = []
port_rows itoa family is_udp (l ∷ ls) =
    let rest = port_rows itoa family is_udp ls in
    elim (port_line itoa family is_udp l) [ none ↦ rest | some r ↦ r ∷ rest ]

-- The scanned lines of a file without the first.
unfoldable pub port_file : (ℕ → Text) → String → Bool → List Text → List ListeningPort
unfolding port_rows
port_file itoa family is_udp [] = []
port_file itoa family is_udp (l ∷ ls) = port_rows itoa family is_udp ls

-- The four files in their order; one that does not open has no lines.
unfoldable pub listening_ports :
    (ℕ → Text) → List Text → List Text → List Text → List Text → List ListeningPort
unfolding port_file
listening_ports itoa tcp tcp6 udp udp6 =
    port_file itoa "ipv4" false tcp
    ++ (port_file itoa "ipv6" false tcp6
        ++ (port_file itoa "ipv4" true udp ++ port_file itoa "ipv6" true udp6))
