-- ===== src/Partition.antt =====
-- The partitions of a parallel scan by primary key: `PickPartitionCount` and the loop of
-- `FirebirdScanInitGlobal` of src/firebird_scanner.cpp, and `NextPartition`. The width of a
-- range of keys is wrapped to 64 bits with a sign.
pub mod Cover
pub mod Count
pub mod Queue
use duckdb_firebird.Common.{
  ℕ, zero, suc, ◌+◌, ◌-◌, ◌*◌, ◌/◌, Bool, true, false, not, ◌&&◌, Option, none, some, List, [], ◌∷◌,
  ◌++◌, Bytes, codes, length, get_elem?, ltb, leb, ◌==◌, min, max, if◌then◌else◌,
}
use duckdb_firebird.Common.Int.{ℤ, pos, negsuc, ◌+ℤ◌, ◌-ℤ◌, ltb_ℤ, int64}
use duckdb_firebird.Sql.{quote_ident}
use duckdb_firebird.Sql.Decimal.{decimal_ℤ}

-- The number that an int64 holds, if it is not negative.
abbrev pub nonneg : ℤ → ℕ
nonneg (pos n) = n
nonneg (negsuc n) = 0

-- `hw` is `std::thread::hardware_concurrency()`.
unfoldable pub pick_partition_count : ℕ → ℤ → ℤ → ℕ
pick_partition_count hw min_v max_v =
    let range = int64 (max_v -ℤ min_v +ℤ pos 1) in
    if ltb_ℤ range (pos (2000000 * 2))
    then 1
    else max 1 (min (nonneg range / 2000000) (if hw == 0 then 4 else hw))

-- `n` of the loop: never more than there are keys.
unfoldable pub partition_count : ℕ → ℕ → ℤ → ℤ → ℕ
partition_count partitions_override hw lo hi =
    let n =
      if ltb 0 partitions_override then partitions_override else pick_partition_count hw lo hi in
    let row_capacity = int64 (hi -ℤ lo +ℤ pos 1) in
    if ltb_ℤ (pos 0) row_capacity && ltb (nonneg row_capacity) n then nonneg row_capacity else n

-- The ranges from the `i`-th on, `k` of them; `cut i` is `static_cast<int64_t>(width * i)`.
unfoldable pub ranges : (ℕ → ℕ) → ℤ → ℤ → ℕ → ℕ → List (ℤ × ℤ)
ranges cut lo hi i zero = []
ranges cut lo hi i (suc zero) = (lo +ℤ pos (cut i), hi) ∷ []
ranges cut lo hi i (suc (suc k)) =
    (lo +ℤ pos (cut i), lo +ℤ pos (cut (suc i)) -ℤ pos 1) ∷ ranges cut lo hi (suc i) (suc k)

-- The predicate of one range.
unfoldable pub where_clause : Bytes → ℤ × ℤ → Bytes
where_clause column (part_lo, part_hi) =
    quote_ident column
    ++ codes " >= "
    ++ decimal_ℤ part_lo
    ++ codes " AND "
    ++ quote_ident column
    ++ codes " <= "
    ++ decimal_ℤ part_hi

-- The shared queue of the workers.
pub record PartitionQueue : Type 0 where
  pub partitions : List Bytes
  pub next_partition : ℕ

unfoldable pub next_partition : PartitionQueue → Option Bytes × PartitionQueue
next_partition q = elim (get_elem? q.partitions q.next_partition) [
  | none ↦ (none, q)
  | some p ↦ (some p, record { partitions = q.partitions; next_partition = q.next_partition + 1 })
]
