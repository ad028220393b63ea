-- ===== src/Partition/Count.antt =====
-- How many partitions `FirebirdScanInitGlobal` (src/firebird_scanner.cpp) makes.
use duckdb_firebird.Common.{
  ℕ, ◌+◌, ◌*◌, ◌≤◌, ◌<◌, ◌^◌, ◌≡◌, ap, ◌∙◌, ◌&&◌, ltb, if◌then◌else◌, if-intro, arith,
}
use duckdb_firebird.Common.Int.{ℤ, pos, negsuc, ◌+ℤ◌, ◌-ℤ◌, ltb_ℤ, int64, int64_small}
use duckdb_firebird.Partition.{nonneg, pick_partition_count, partition_count}

pick_partition_count-positive : (hw : ℕ) (lo hi : ℤ) → 1 ≤ pick_partition_count hw lo hi
unfolding pick_partition_count
pick_partition_count-positive hw lo hi =
    if-intro (λ n. 1 ≤ n) (ltb_ℤ (int64 (hi -ℤ lo +ℤ pos 1)) (pos (2000000 * 2))) (λ p. omega arith)
      (λ p. omega arith)

width_of : (lo : ℤ) (span : ℕ) → lo +ℤ pos span -ℤ lo +ℤ pos 1 ≡ pos (span + 1)
unfolding ◌+ℤ◌ ◌-ℤ◌
width_of (pos l) span = ground arith
width_of (negsuc l) span = ground arith

-- The capacity of a range of keys is the number of its keys, if 64 bits hold it.
capacity :
    (lo : ℤ) (span : ℕ) → span + 1 < 2 ^ 63 → int64 (lo +ℤ pos span -ℤ lo +ℤ pos 1) ≡ pos (span + 1)
capacity lo span h = ap int64 (width_of lo span) ∙ int64_small (span + 1) h

bounded :
    (span n : ℕ)
    → 1 ≤ n
    → (1 ≤ (
        if ltb_ℤ (pos 0) (pos (span + 1)) && ltb (nonneg (pos (span + 1))) n
        then nonneg (pos (span + 1))
        else n))
      × ((if ltb_ℤ (pos 0) (pos (span + 1)) && ltb (nonneg (pos (span + 1))) n
            then nonneg (pos (span + 1))
            else n)
          ≤ span + 1)
bounded span n h = ground arith

-- If the number of keys from the lowest to the highest one is below 2^63, there is at least one
-- partition, and never more than there are keys, whatever the override and the number of processors.
pub partition_count-bounds :
    (partitions_override hw : ℕ) (lo : ℤ) (span : ℕ)
    → span + 1 < 2 ^ 63
    → (1 ≤ partition_count partitions_override hw lo (lo +ℤ pos span))
      × (partition_count partitions_override hw lo (lo +ℤ pos span) ≤ span + 1)
unfolding partition_count
partition_count-bounds over hw lo span h = rw (capacity lo span h) (
    bounded span (if ltb 0 over then over else pick_partition_count hw lo (lo +ℤ pos span)) (
      if-intro (λ n. 1 ≤ n) (ltb 0 over) (λ p. ground arith)
        (λ p. pick_partition_count-positive hw lo (lo +ℤ pos span))))
