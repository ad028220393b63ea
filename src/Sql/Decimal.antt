-- ===== src/Sql/Decimal.antt =====
-- `std::to_string`, and `<<` of an unsigned number: the decimal digits. The fuel is the number
-- itself, which is more than its digits.
use duckdb_firebird.Common.{
  ℕ, zero, suc, ◌+◌, ◌*◌, ◌/◌, ◌%◌, ◌-◌, ◌≤◌, ◌<◌, ◌≡◌, ◌∙◌, true, false, [], ◌∷◌, Bytes, All, ltb,
  Bool-cases, inl, inr, arith,
}
use duckdb_firebird.Common.Int.{ℤ, pos, negsuc}

unfoldable pub decimal_onto : ℕ → ℕ → Bytes → Bytes
decimal_onto zero n acc = acc
decimal_onto (suc fuel) n acc = elim (ltb n 10) [
  | true ↦ (b'0' + n) ∷ acc
  | false ↦ decimal_onto fuel (n / 10) ((b'0' + n % 10) ∷ acc)
]

unfoldable pub decimal : ℕ → Bytes
decimal n = decimal_onto (suc n) n []

unfoldable pub decimal_ℤ : ℤ → Bytes
decimal_ℤ (pos n) = decimal n
decimal_ℤ (negsuc n) = b'-' ∷ decimal (suc n)

-- The number that digits stand for, read from the left.
abbrev pub number_from : ℕ → Bytes → ℕ
number_from acc [] = acc
number_from acc (d ∷ ds) = number_from (acc * 10 + (d - b'0')) ds

abbrev pub IsDigit : ℕ → Type 0
IsDigit d = (b'0' ≤ d) × (d ≤ b'9')

last_digit :
    (fuel n : ℕ) (acc : Bytes) → ltb n 10 ≡ true → decimal_onto (suc fuel) n acc ≡ (b'0' + n) ∷ acc
unfolding decimal_onto
last_digit fuel n acc e = rw (e, decimal_onto)

next_digit :
    (fuel n : ℕ) (acc : Bytes)
    → ltb n 10 ≡ false
    → decimal_onto (suc fuel) n acc ≡ decimal_onto fuel (n / 10) ((b'0' + n % 10) ∷ acc)
unfolding decimal_onto
next_digit fuel n acc e = rw (e, decimal_onto)

same_start : (p q : ℕ) (ds : Bytes) → p ≡ q → number_from q ds ≡ number_from p ds
same_start p q ds e = rw e

decimal_onto-number_from :
    (fuel n : ℕ) (acc : Bytes)
    → n < fuel
    → number_from 0 (decimal_onto fuel n acc) ≡ number_from n acc
decimal_onto-number_from zero n acc h = absurd (omega arith)
decimal_onto-number_from (suc fuel) n acc h = elim (Bool-cases (ltb n 10)) [
  | inl last ↦
      rw (last_digit fuel n acc last) (same_start n (0 * 10 + (b'0' + n - b'0')) acc (omega arith))
  | inr more ↦ rw (next_digit fuel n acc more) (
      decimal_onto-number_from fuel (n / 10) ((b'0' + n % 10) ∷ acc) (ground arith)
      ∙ same_start n (n / 10 * 10 + (b'0' + n % 10 - b'0')) acc (omega arith))
]

-- The digits of a number stand for it, whatever the fuel needed.
pub number_from-decimal : (n : ℕ) → number_from 0 (decimal n) ≡ n
unfolding decimal
number_from-decimal n = decimal_onto-number_from (suc n) n [] (omega arith)

decimal_onto-IsDigit :
    (fuel n : ℕ) (acc : Bytes) → All IsDigit acc → All IsDigit (decimal_onto fuel n acc)
unfolding decimal_onto
decimal_onto-IsDigit zero n acc h = h
decimal_onto-IsDigit (suc fuel) n acc h = elim (Bool-cases (ltb n 10)) [
  | inl last ↦ rw (last_digit fuel n acc last) (ground arith, h)
  | inr more ↦
      rw (next_digit fuel n acc more)
        (decimal_onto-IsDigit fuel (n / 10) ((b'0' + n % 10) ∷ acc) (omega arith, h))
]

pub decimal-IsDigit : (n : ℕ) → All IsDigit (decimal n)
unfolding decimal
decimal-IsDigit n = decimal_onto-IsDigit (suc n) n [] tt
