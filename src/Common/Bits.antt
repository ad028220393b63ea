-- ===== src/Common/Bits.antt =====
-- `&` with the masks of the source, over one byte, and `|` of disjoint fields, as arithmetic.
mod Digits
pub use Digits.{and_3f, or_shift_6, or_shift_12, or_shift_18}
use Prim.Native.Nat.{ℕ, zero, suc, ◌+◌, ◌*◌, ◌/◌, ◌%◌, ◌<◌, bit_and, bit_or}
use mathlib.Core.Path.{◌≡◌, refl}
use mathlib.Core.Bool.{Bool, true, ◌&&◌}
use native.Mathlib.Omega.{arith}
use duckdb_firebird.Common.Tests.{◌==◌, ==_iff}

-- A test passes at every number below the bound.
unfoldable pub all_below : (ℕ → Bool) → ℕ → Bool
all_below test zero = true
all_below test (suc bound) = test bound && all_below test bound

pub all_below-at :
    (test : ℕ → Bool) (bound x : ℕ) → x < bound → all_below test bound ≡ true → test x ≡ true
unfolding all_below
all_below-at test zero x below passed = absurd (omega arith)
all_below-at test (suc bound) x below passed = ground (arith, all_below-at test bound x)

-- Two functions that agree at every number below `n`.
agree : (n : ℕ) (f g : ℕ → ℕ) → all_below (λ x. f x == g x) n ≡ true → (x : ℕ) → x < n → f x ≡ g x
agree n f g table x h = (==_iff (f x) (g x)).0 (all_below-at (λ x. f x == g x) n x h table)

pub and_80 : (c : ℕ) → c < 256 → bit_and c 0x80 ≡ c / 128 * 128
unfolding all_below
and_80 = agree 256 (λ x. bit_and x 0x80) (λ x. x / 128 * 128) refl

pub and_c0 : (c : ℕ) → c < 256 → bit_and c 0xC0 ≡ c / 64 * 64
unfolding all_below
and_c0 = agree 256 (λ x. bit_and x 0xC0) (λ x. x / 64 * 64) refl

pub and_e0 : (c : ℕ) → c < 256 → bit_and c 0xE0 ≡ c / 32 * 32
unfolding all_below
and_e0 = agree 256 (λ x. bit_and x 0xE0) (λ x. x / 32 * 32) refl

pub and_f0 : (c : ℕ) → c < 256 → bit_and c 0xF0 ≡ c / 16 * 16
unfolding all_below
and_f0 = agree 256 (λ x. bit_and x 0xF0) (λ x. x / 16 * 16) refl

pub and_f8 : (c : ℕ) → c < 256 → bit_and c 0xF8 ≡ c / 8 * 8
unfolding all_below
and_f8 = agree 256 (λ x. bit_and x 0xF8) (λ x. x / 8 * 8) refl

pub and_1f : (c : ℕ) → c < 256 → bit_and c 0x1F ≡ c % 32
unfolding all_below
and_1f = agree 256 (λ x. bit_and x 0x1F) (λ x. x % 32) refl

pub and_0f : (c : ℕ) → c < 256 → bit_and c 0x0F ≡ c % 16
unfolding all_below
and_0f = agree 256 (λ x. bit_and x 0x0F) (λ x. x % 16) refl

pub and_07 : (c : ℕ) → c < 256 → bit_and c 0x07 ≡ c % 8
unfolding all_below
and_07 = agree 256 (λ x. bit_and x 0x07) (λ x. x % 8) refl

pub or_c0 : (x : ℕ) → x < 32 → bit_or 0xC0 x ≡ 0xC0 + x
unfolding all_below
or_c0 = agree 32 (λ x. bit_or 0xC0 x) (λ x. 0xC0 + x) refl

pub or_e0 : (x : ℕ) → x < 16 → bit_or 0xE0 x ≡ 0xE0 + x
unfolding all_below
or_e0 = agree 16 (λ x. bit_or 0xE0 x) (λ x. 0xE0 + x) refl

pub or_80 : (x : ℕ) → x < 64 → bit_or 0x80 x ≡ 0x80 + x
unfolding all_below
or_80 = agree 64 (λ x. bit_or 0x80 x) (λ x. 0x80 + x) refl
