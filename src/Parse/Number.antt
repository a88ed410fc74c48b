-- ===== src/Parse/Number.antt =====
-- `strconv.Atoi` and the little-endian addresses of /proc/net/route.
use sopdet.Prelude.{
  ℕ, zero, suc, ◌+◌, ◌-◌, ◌*◌, ◌/◌, ◌%◌, ◌^◌, ◌<◌, ◌≡◌, refl, ap, All, ◌&&◌, Option, none, some,
  List, [], ◌∷◌, ◌==◌, ltb, leb, if◌then◌else◌, arith,
}
use sopdet.Parse.Text.{Text, Library}

pub data ℤ : Type 0 where
  pos : ℕ → ℤ
  negsuc : ℕ → ℤ

-- The value of digits in front of which `acc` was read.
unfoldable pub digits_value : ℕ → Text → Option ℕ
digits_value acc [] = some acc
digits_value acc (c ∷ cs) =
    let rest = digits_value (acc * 10 + (c - 48)) cs in if leb 48 c && leb c 57 then rest else none

abbrev pub digits : Text → Option ℕ
digits [] = none
digits (c ∷ cs) = digits_value 0 (c ∷ cs)

abbrev pub negated : ℕ → ℤ
negated zero = pos 0
negated (suc n) = negsuc n

-- `strconv.Atoi` for an `int` of 64 bits.
unfoldable pub atoi : Text → Option ℤ
unfolding digits_value
atoi [] = none
atoi (c ∷ cs) =
    if c == 45
    then elim (digits cs) [
      | none ↦ none
      | some n ↦ if leb n (2 ^ 63) then some (negated n) else none
    ]
    else elim (digits (if c == 43 then cs else c ∷ cs)) [
      | none ↦ none
      | some n ↦ if ltb n (2 ^ 63) then some (pos n) else none
    ]

unfoldable pub hex_digit : ℕ → Option ℕ
hex_digit c =
    if leb 48 c && leb c 57
    then some (c - 48)
    else if leb 65 c && leb c 70
    then some (c - 55)
    else if leb 97 c && leb c 102
    then some (c - 87)
    else none

-- `strconv.ParseUint(s[i*2:i*2+2], 16, 8)`
unfoldable pub hex_byte : ℕ → ℕ → Option ℕ
unfolding hex_digit
hex_byte high low = elim (hex_digit high) [
  | none ↦ none
  | some h ↦ elim (hex_digit low) [ none ↦ none | some l ↦ some (h * 16 + l) ]
]

-- The four bytes in the order in which they are read.
unfoldable pub hex_bytes : Text → Option (List ℕ)
unfolding hex_byte
hex_bytes [] = some []
hex_bytes (c ∷ []) = none
hex_bytes (high ∷ low ∷ cs) =
    let rest = hex_bytes cs in
    elim (hex_byte high low) [
      | none ↦ none
      | some b ↦ elim rest [ none ↦ none | some bs ↦ some (b ∷ bs) ]
    ]

-- `hexLEIPv4`
unfoldable pub hex_le_ipv4 : Library → Text → Text
hex_le_ipv4 lib s = elim (hex_bytes s) [
  | none ↦ []
  | some bs ↦ elim bs [
    | [] ↦ []
    | b₀ ∷ bs₁ ↦ elim bs₁ [
      | [] ↦ []
      | b₁ ∷ bs₂ ↦ elim bs₂ [
        | [] ↦ []
        | b₂ ∷ bs₃ ↦ elim bs₃ [
          | [] ↦ []
          | b₃ ∷ more ↦ elim more [ [] ↦ lib.show_ip b₃ b₂ b₁ b₀ | _ ∷ _ ↦ [] ]
        ]
      ]
    ]
  ]
]

-- The digit of a number below 16, as the kernel prints it.
unfoldable hex_char : ℕ → ℕ
hex_char d = if ltb d 10 then d + 48 else d + 55

unfoldable pub hex_text : List ℕ → Text
unfolding hex_char
hex_text [] = []
hex_text (b ∷ bs) = hex_char (b / 16) ∷ hex_char (b % 16) ∷ hex_text bs

hex_digit-hex_char : (d : ℕ) → d < 16 → hex_digit (hex_char d) ≡ some d
unfolding hex_digit hex_char
hex_digit-hex_char d h = ground (arith, h)

hex_byte-hex_char : (b : ℕ) → b < 256 → hex_byte (hex_char (b / 16)) (hex_char (b % 16)) ≡ some b
unfolding hex_byte
hex_byte-hex_char b h =
    let high = hex_digit-hex_char (b / 16) (omega arith) in
    let low = hex_digit-hex_char (b % 16) (omega arith) in
    rw (hex_byte, high, low) (ap some (omega arith))

hex_bytes-hex_text : (bs : List ℕ) → All (λ b. b < 256) bs → hex_bytes (hex_text bs) ≡ some bs
unfolding hex_bytes hex_text
hex_bytes-hex_text [] h = refl
hex_bytes-hex_text (b ∷ bs) h =
    rw (hex_bytes, hex_byte-hex_char b (h.0), hex_bytes-hex_text bs (h.1)) refl

-- The four bytes of an address, written in hexadecimal from the last to the first as the kernel does on a
-- little-endian machine, are read back in their order.
pub hex_le_ipv4-hex_text :
    (lib : Library) (a b c d : ℕ)
    → a < 256
    → b < 256
    → c < 256
    → d < 256
    → hex_le_ipv4 lib (hex_text (d ∷ c ∷ b ∷ a ∷ [])) ≡ lib.show_ip a b c d
unfolding hex_le_ipv4
hex_le_ipv4-hex_text lib a b c d ha hb hc hd =
    rw (hex_le_ipv4, hex_bytes-hex_text (d ∷ c ∷ b ∷ a ∷ []) (hd, (hc, (hb, (ha, tt))))) refl
