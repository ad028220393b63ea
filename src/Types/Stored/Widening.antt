-- ===== src/Types/Stored/Widening.antt =====
-- The widening of a 64-bit number to a hugeint in `FirebirdAppendValue` of src/firebird_types.cpp.
use duckdb_firebird.Common.{ℕ, ◌-◌, ◌^◌, ◌≡◌, arith}
use duckdb_firebird.Common.Int.{ℤ, pos, negsuc, ◌+ℤ◌, ◌*ℤ◌, ◌≤ℤ◌}
use duckdb_firebird.Types.Stored.{wide_lower, wide_upper}

-- The value of a hugeint.
abbrev pub hugeint_value : ℕ → ℤ → ℤ
hugeint_value lower upper = upper *ℤ pos (2 ^ 64) +ℤ pos lower

-- The widening of an int64 keeps its value.
pub hugeint_value-widened :
    (v : ℤ)
    → negsuc (2 ^ 63 - 1) ≤ℤ v
    → v ≤ℤ pos (2 ^ 63 - 1)
    → hugeint_value (wide_lower v) (wide_upper v) ≡ v
unfolding ◌*ℤ◌ ◌+ℤ◌
hugeint_value-widened (pos n) h k = ground arith
hugeint_value-widened (negsuc n) h k = ground arith
