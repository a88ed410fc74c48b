-- ===== src/Prelude/Decimal.antt =====
-- The decimal printing of `%d` for the numbers that are not negative, and that it can be read back.
use Prim.Native.Char.{Char, code}
use Prim.Native.Nat.{ℕ, zero, suc, ◌+◌, ◌-◌, ◌*◌, ◌/◌, ◌%◌, ◌<◌}
use Prim.Native.String.{String, ◌∷◌}
use mathlib.Core.Path.{◌≡◌, refl, ap, sym, ◌∙◌}
use mathlib.Core.Logic.{inl, inr}
use mathlib.Core.Bool.{Bool, true, ◌&&◌}
use native.Mathlib.Omega.{arith}
use sopdet.Prelude.Tests.{◌==◌, leb, if◌then◌else◌, Bool-cases}

digit : ℕ → Char
digit zero = "0"
digit (suc zero) = "1"
digit (suc (suc zero)) = "2"
digit (suc (suc (suc zero))) = "3"
digit (suc (suc (suc (suc zero)))) = "4"
digit (suc (suc (suc (suc (suc zero))))) = "5"
digit (suc (suc (suc (suc (suc (suc zero)))))) = "6"
digit (suc (suc (suc (suc (suc (suc (suc zero))))))) = "7"
digit (suc (suc (suc (suc (suc (suc (suc (suc zero)))))))) = "8"
digit _ = "9"

-- The digits of `n` in front of `out`; the fuel is more than the rounds of division by ten.
print_from : ℕ → ℕ → String → String
print_from zero n out = out
print_from (suc fuel) n out =
    let rest = print_from fuel (n / 10) (digit (n % 10) ∷ out) in
    if n / 10 == 0 then digit (n % 10) ∷ out else rest

-- `fmt.Sprintf("%d", n)`
unfoldable pub itoa : ℕ → String
unfolding print_from digit
itoa n = print_from (suc n) n ""

digit_value : Char → ℕ
digit_value c = code c - 48

value : ℕ → String → ℕ
value acc String.[] = acc
value acc (String.◌∷◌ c s) = value (acc * 10 + digit_value c) s

digit_value-digit : (d : ℕ) → d < 10 → digit_value (digit d) ≡ d
unfolding digit_value digit
digit_value-digit zero h = refl
digit_value-digit (suc zero) h = refl
digit_value-digit (suc (suc zero)) h = refl
digit_value-digit (suc (suc (suc zero))) h = refl
digit_value-digit (suc (suc (suc (suc zero)))) h = refl
digit_value-digit (suc (suc (suc (suc (suc zero))))) h = refl
digit_value-digit (suc (suc (suc (suc (suc (suc zero)))))) h = refl
digit_value-digit (suc (suc (suc (suc (suc (suc (suc zero))))))) h = refl
digit_value-digit (suc (suc (suc (suc (suc (suc (suc (suc zero)))))))) h = refl
digit_value-digit (suc (suc (suc (suc (suc (suc (suc (suc (suc zero))))))))) h = refl
digit_value-digit (suc (suc (suc (suc (suc (suc (suc (suc (suc (suc d)))))))))) h =
    absurd (omega arith)

value-print_from :
    (fuel n : ℕ) (out : String) → n < fuel → value 0 (print_from fuel n out) ≡ value n out
unfolding print_from value
value-print_from zero n out h = elim h [ ]
value-print_from (suc fuel) n out h = elim (Bool-cases (n / 10 == 0)) [
  | inl last ↦ rw last (
      ap (λ v. value v out)
        (let e : digit_value (digit (n % 10)) ≡ n % 10 = digit_value-digit (n % 10) (omega arith) in
          ground (arith, e)))
  | inr more ↦ rw more (
      value-print_from fuel (n / 10) (digit (n % 10) ∷ out) (ground arith)
      ∙ ap (λ v. value v out)
          (let e : digit_value (digit (n % 10)) ≡ n % 10 =
              digit_value-digit (n % 10) (omega arith) in
            omega (arith, e)))
]

-- Two numbers with the same decimal text are equal.
pub itoa-injective : (m n : ℕ) → itoa m ≡ itoa n → m ≡ n
unfolding itoa value
itoa-injective m n e =
    sym (value-print_from (suc m) m "" (omega arith))
    ∙ ap (value 0) e
    ∙ value-print_from (suc n) n "" (omega arith)

abbrev is_digit : Char → Bool
is_digit c = leb 48 (code c) && leb (code c) 57

abbrev pub all_digits : String → Bool
all_digits String.[] = true
all_digits (String.◌∷◌ c s) = is_digit c && all_digits s

is_digit-digit : (d : ℕ) → is_digit (digit d) ≡ true
unfolding digit
is_digit-digit zero = refl
is_digit-digit (suc zero) = refl
is_digit-digit (suc (suc zero)) = refl
is_digit-digit (suc (suc (suc zero))) = refl
is_digit-digit (suc (suc (suc (suc zero)))) = refl
is_digit-digit (suc (suc (suc (suc (suc zero))))) = refl
is_digit-digit (suc (suc (suc (suc (suc (suc zero)))))) = refl
is_digit-digit (suc (suc (suc (suc (suc (suc (suc zero))))))) = refl
is_digit-digit (suc (suc (suc (suc (suc (suc (suc (suc zero)))))))) = refl
is_digit-digit _ = refl

all_digits-print_from :
    (fuel n : ℕ) (out : String) → all_digits out ≡ true → all_digits (print_from fuel n out) ≡ true
unfolding print_from
all_digits-print_from zero n out h = h
all_digits-print_from (suc fuel) n out h =
    ground
      (arith, is_digit-digit (n % 10), all_digits-print_from fuel (n / 10) (digit (n % 10) ∷ out))

-- A decimal text holds digits alone.
pub all_digits-itoa : (n : ℕ) → all_digits (itoa n) ≡ true
unfolding itoa
all_digits-itoa n = all_digits-print_from (suc n) n "" refl

itoa_runs : itoa 2040 ≡ "2040"
unfolding itoa value
itoa_runs = refl
