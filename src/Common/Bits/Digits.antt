-- ===== src/Common/Bits/Digits.antt =====
-- `&` and `|` one binary digit at a time, from the recursion that the native operations stand for:
-- the six low bits of any number, and a shift by six that is filled up.
use Prim.Native.Nat.{
  ℕ, zero, suc, ◌+◌, ◌*◌, ◌/◌, ◌%◌, ◌≤◌, ◌<◌, min, max, digits, bit_and, bit_or, bit_and-bitwise,
  bit_or-bitwise,
}
use mathlib.Core.Path.{◌≡◌, refl}
use native.Mathlib.Omega.{arith}

-- Any fuel that covers the first argument gives the same digits.
digits_enough :
    (z : ℕ → ℕ) (f : ℕ → ℕ → ℕ) (n m a b : ℕ) → a ≤ n → a ≤ m → digits z f n a b ≡ digits z f m a b
digits_enough z f zero zero a b p q = refl
digits_enough z f zero (suc m) zero b p q = refl
digits_enough z f zero (suc m) (suc a) b p q = absurd (omega arith)
digits_enough z f (suc n) zero zero b p q = refl
digits_enough z f (suc n) zero (suc a) b p q = absurd (omega arith)
digits_enough z f (suc n) (suc m) zero b p q = refl
digits_enough z f (suc n) (suc m) (suc a) b p q =
    rw (digits_enough z f n m (suc a / 2) (b / 2) (omega arith) (omega arith))

pub bit_or_digit : (a b : ℕ) → bit_or a b ≡ bit_or (a / 2) (b / 2) * 2 + max (a % 2) (b % 2)
bit_or_digit zero b = simp bit_or-bitwise (omega arith)
bit_or_digit (suc a) b = simp bit_or-bitwise (
    omega (
      arith,
      digits_enough (λ y. y) max a (suc a / 2) (suc a / 2) (b / 2) (omega arith) (omega arith),
    ))

pub bit_and_digit : (a b : ℕ) → bit_and a b ≡ bit_and (a / 2) (b / 2) * 2 + min (a % 2) (b % 2)
bit_and_digit zero b = simp bit_and-bitwise (omega arith)
bit_and_digit (suc a) b = simp bit_and-bitwise (
    omega (
      arith,
      digits_enough (λ y. 0) min a (suc a / 2) (suc a / 2) (b / 2) (omega arith) (omega arith),
    ))

or_zero_below : (n a : ℕ) → a ≤ n → bit_or a 0 ≡ a
or_zero_below n zero h = refl
or_zero_below zero (suc a) h = absurd (omega arith)
or_zero_below (suc n) (suc a) h =
    omega (arith, bit_or_digit (suc a) 0, or_zero_below n (suc a / 2) (omega arith))

and_zero_below : (n a : ℕ) → a ≤ n → bit_and a 0 ≡ 0
and_zero_below n zero h = refl
and_zero_below zero (suc a) h = absurd (omega arith)
and_zero_below (suc n) (suc a) h =
    omega (arith, bit_and_digit (suc a) 0, and_zero_below n (suc a / 2) (omega arith))

-- `x & 0x3F`.
and_07_any : (x : ℕ) → bit_and x 7 ≡ x % 8
and_07_any x = omega (
  arith,
  bit_and_digit x 7,
  bit_and_digit (x / 2) 3,
  bit_and_digit (x / 2 / 2) 1,
  and_zero_below (x / 2 / 2 / 2) (x / 2 / 2 / 2) (omega arith),
)

pub and_3f : (x : ℕ) → bit_and x 0x3F ≡ x % 64
and_3f x = omega (
  arith,
  bit_and_digit x 63,
  bit_and_digit (x / 2) 31,
  bit_and_digit (x / 2 / 2) 15,
  and_07_any (x / 2 / 2 / 2),
)

-- `(a << k) | y` is a sum where `y` fits k bits.
or_shift_3 : (a y : ℕ) → y < 8 → bit_or (a * 8) y ≡ a * 8 + y
or_shift_3 a y h = omega (
  arith,
  bit_or_digit (a * 8) y,
  bit_or_digit (a * 8 / 2) (y / 2),
  bit_or_digit (a * 8 / 2 / 2) (y / 2 / 2),
  or_zero_below a a (omega arith),
  zeroed (a * 8 / 2 / 2 / 2) a (y / 2 / 2 / 2) (omega arith) (omega arith),
)
  where
    zeroed : (p q r : ℕ) → p ≡ q → r ≡ 0 → bit_or p r ≡ bit_or q 0
    zeroed p q r e f = cc

or_digit_even : (a y : ℕ) → bit_or (a * 2) y ≡ bit_or a (y / 2) * 2 + y % 2
or_digit_even a y = omega (arith, bit_or_digit (a * 2) y, halved (a * 2 / 2) a (omega arith))
  where
    halved : (p q : ℕ) → p ≡ q → bit_or p (y / 2) ≡ bit_or q (y / 2)
    halved p q e = cc

or_regroup : (p q y : ℕ) → p ≡ q → bit_or p y ≡ bit_or q y
or_regroup p q y e = cc

pub or_shift_6 : (a y : ℕ) → y < 64 → bit_or (a * 64) y ≡ a * 64 + y
or_shift_6 a y h = omega (
  arith,
  or_regroup (a * 64) (a * 8 * 2 * 2 * 2) y (omega arith),
  or_digit_even (a * 8 * 2 * 2) y,
  or_digit_even (a * 8 * 2) (y / 2),
  or_digit_even (a * 8) (y / 2 / 2),
  or_shift_3 a (y / 2 / 2 / 2) (omega arith),
)

or_both_even : (a b : ℕ) → bit_or (a * 2) (b * 2) ≡ bit_or a b * 2
or_both_even a b = omega (arith, or_digit_even a (b * 2), fills (b * 2 / 2) b (omega arith))
  where
    fills : (p q : ℕ) → p ≡ q → bit_or a p ≡ bit_or a q
    fills p q e = cc

or_both_8 : (a b : ℕ) → bit_or (a * 2 * 2 * 2) (b * 2 * 2 * 2) ≡ bit_or a b * 2 * 2 * 2
or_both_8 a b =
    omega
      (arith, or_both_even (a * 2 * 2) (b * 2 * 2), or_both_even (a * 2) (b * 2), or_both_even a b)

or_respects : (p q r t : ℕ) → p ≡ q → r ≡ t → bit_or p r ≡ bit_or q t
or_respects p q r t e f = cc

-- A shift by six of both sides.
pub or_both_6 : (a b : ℕ) → bit_or (a * 64) (b * 64) ≡ bit_or a b * 64
or_both_6 a b = omega (
  arith,
  or_respects (a * 64) (a * 2 * 2 * 2 * 2 * 2 * 2) (b * 64) (b * 2 * 2 * 2 * 2 * 2 * 2)
      (omega arith) (omega arith),
  or_both_8 (a * 2 * 2 * 2) (b * 2 * 2 * 2),
  or_both_8 a b,
)

pub or_shift_12 : (a b : ℕ) → b < 64 → bit_or (a * 4096) (b * 64) ≡ (a * 64 + b) * 64
or_shift_12 a b h = omega (
  arith,
  or_respects (a * 4096) (a * 64 * 64) (b * 64) (b * 64) (omega arith) (omega arith),
  or_both_6 (a * 64) b,
  or_shift_6 a b h,
)

pub or_shift_18 : (a b : ℕ) → b < 64 → bit_or (a * 262144) (b * 4096) ≡ (a * 64 + b) * 4096
or_shift_18 a b h = omega (
  arith,
  or_respects (a * 262144) (a * 4096 * 64) (b * 4096) (b * 64 * 64) (omega arith) (omega arith),
  or_both_6 (a * 4096) (b * 64),
  or_shift_12 a b h,
)
