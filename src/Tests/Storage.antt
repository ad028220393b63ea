-- ===== src/Tests/Storage.antt =====
-- The theorems on values and vectors, the pool, the partitions, the local slice and the telemetry,
-- applied.
use duckdb_firebird.Common.{
  ℕ, suc, ◌+◌, ◌*◌, ◌≤◌, ◌≡◌, refl, true, false, none, some, List, [], ◌∷◌, codes, ltb, leb,
  if◌then◌else◌, arith,
}
use duckdb_firebird.Common.Int.{pos, negsuc, ◌+ℤ◌}
use duckdb_firebird.Duck.{
  LogicalType, boolean, smallint, integer, bigint, float, double, date, time, timestamp,
  timestamp_tz, time_tz, hugeint, decimal,
}
use duckdb_firebird.Firebird.{FirebirdColumnDesc}
use duckdb_firebird.Types.Stored.{PhysicalType, Fetched, Vectors}
use duckdb_firebird.Pool.{
  created, activated, given_back, FirebirdConnectionPoolConfig, FirebirdConnectionPool, new_pool,
  attached, connect, take_idle, release,
}
use duckdb_firebird.Slice.{scanned}
use duckdb_firebird.Slice.Whole.{behind, at_most, scanned-slice}
use duckdb_firebird.Pool.Steps.{
  Threads, no_threads, creates, activates, gives_back, Reachable, started, then_step, IsBalanced,
  Reachable-IsBalanced,
}
use duckdb_firebird.Pool.Expiry.{take_idle-warmest}
use duckdb_firebird.Pool.Ownership.{
  leases, parked, Holding, opened, attaches, returns, Holding-once,
}
use duckdb_firebird.Partition.{ranges, partition_count}
use duckdb_firebird.Partition.Count.{partition_count-bounds}
use duckdb_firebird.Partition.Cover.{hits, ranges-hits}
use duckdb_firebird.Observability.{FirebirdObservabilityState, no_query, fresh}
use duckdb_firebird.Observability.Log.{Operation, records, adds_rows, fails, run}
use duckdb_firebird.Observability.Snapshot.{IsLog, run-IsLog}

abbrev layout : LogicalType → PhysicalType
layout boolean = PhysicalType.bool
layout smallint = PhysicalType.int16
layout integer = PhysicalType.int32
layout bigint = PhysicalType.int64
layout hugeint = PhysicalType.int128
layout float = PhysicalType.float
layout double = PhysicalType.double
layout date = PhysicalType.int32
layout time = PhysicalType.int64
layout time_tz = PhysicalType.int64
layout timestamp = PhysicalType.int64
layout timestamp_tz = PhysicalType.int64
layout (decimal w s) =
    if leb w 4
    then PhysicalType.int16
    else if leb w 9
    then PhysicalType.int32
    else if leb w 18
    then PhysicalType.int64
    else PhysicalType.int128
layout _ = PhysicalType.varchar

abbrev vectors : Vectors
vectors = record {
  internal_type = layout;
  firebird_epoch = negsuc 40586;
  from_datetime = λ days micros. micros;
}

-- NUMERIC(18, 2).
abbrev price : FirebirdColumnDesc
price = record {
  name = codes "PRICE";
  sqltype = 580;
  sqlsubtype = pos 1;
  sqlscale = negsuc 1;
  sqllen = pos 8;
  character_set_id = negsuc 0;
  nullable = true;
}

abbrev row : Fetched
row = record {
  is_null = false;
  get_text = [];
  read_blob = [];
  get_short = pos 0;
  get_long = pos 0;
  get_int64 = negsuc 1249;
  get_int128 = (0, pos 0);
  get_float = 0;
  get_double = 0;
  get_bool = false;
  get_date = pos 0;
  get_time = pos 0;
  get_timestamp = (pos 0, pos 0);
  get_timestamp_tz_utc = (pos 0, pos 0);
  get_time_tz_utc = pos 0;
}

abbrev amount : FirebirdColumnDesc
amount = record price { sqltype = 32762; sqlsubtype = pos 0; sqlscale = pos 0 }

abbrev amount_text : FirebirdColumnDesc
amount_text = record price { sqltype = 448; character_set_id = pos 4 }

abbrev config : FirebirdConnectionPoolConfig
config = record { enabled = true; max_size = pos 2; idle_timeout_ms = pos 1000 }

abbrev one_leased : FirebirdConnectionPool
one_leased = (connect (codes "pw") (attached 7) new_pool).1

one_active : one_leased.active ≡ pos 1
unfolding connect ◌+ℤ◌ activated created
one_active = refl

abbrev one_idle : FirebirdConnectionPool
one_idle = release config 5 (some 7) one_leased

abbrev threads : FirebirdConnectionPool → ℕ → ℕ → Threads
threads p n m = record { pool = p; connecting = n; returning = m }

-- A thread has attached a connection, another is about to park its own.
returning-Reachable :
    Reachable config (codes "pw") (threads (given_back (activated (created new_pool))) 0 1)
unfolding activated created ◌+ℤ◌
returning-Reachable =
    then_step (threads (activated (created new_pool)) 0 0) _
      (then_step (threads (created new_pool) 1 0) _
        (then_step no_threads _ started (creates no_threads))
        (activates 0 (threads (created new_pool) 1 0) refl))
      (gives_back 0 (threads (activated (created new_pool)) 0 0) refl)

Reachable-IsBalanced_example :
    IsBalanced config (threads (given_back (activated (created new_pool))) 0 1)
Reachable-IsBalanced_example = Reachable-IsBalanced config (codes "pw") _ returning-Reachable

abbrev two_idle : FirebirdConnectionPool
two_idle = record {
  idle = record { conn = 1; released_at = 10 } ∷ record { conn = 2; released_at = 20 } ∷ [];
  total_created = 2;
  total_reused = 0;
  total_discarded = 0;
  active = pos 0;
  last_error = [];
}

take_idle-warmest_example :
    (take_idle config 100 two_idle).0
    ≡ (if ltb (20 + 1000 * 1000000) 100 then none else some (record { conn = 2; reused = true }))
take_idle-warmest_example =
    take_idle-warmest config 100 999 two_idle (record { conn = 1; released_at = 10 } ∷ [])
      (record { conn = 2; released_at = 20 }) refl (omega arith) refl (omega arith, tt)

abbrev tens : ℕ → ℕ
tens i = i * 10

tens_grow : (i : ℕ) → tens i ≤ tens (suc i)
tens_grow i = omega arith

ranges-hits_example :
    hits (negsuc 4 +ℤ pos 17) (ranges tens (negsuc 4) (negsuc 4 +ℤ pos 39) 0 4) ≡ 1
ranges-hits_example = ranges-hits tens refl tens_grow (negsuc 4) 39 3 17 (omega arith)

partition_count-bounds_example :
    (1 ≤ partition_count 0 8 (negsuc 4) (negsuc 4 +ℤ pos 39))
    × (partition_count 0 8 (negsuc 4) (negsuc 4 +ℤ pos 39) ≤ 40)
partition_count-bounds_example = partition_count-bounds 0 8 (negsuc 4) 39 (omega arith)

abbrev calls : List Operation
calls = records no_query (pos 1) (pos 0) ∷ adds_rows (pos 3) ∷ fails (codes "lost") ∷ []

run-IsLog_example : IsLog 1 (run calls fresh)
run-IsLog_example =
    run-IsLog 1 calls fresh ((tt, omega arith), (tt, (tt, tt)))
      (record { bounded = omega arith; last_displayed = ([], tt, refl); displayed = tt })

abbrev two_entries : FirebirdObservabilityState
two_entries = record { last = no_query; start = pos 0; log = no_query ∷ no_query ∷ [] }

one_held : Holding config (codes "pw") (7 ∷ []) one_leased
one_held = attaches 7 [] new_pool opened (omega arith)

Holding-once_example : leases 7 [] + parked 7 one_idle.idle ≤ 1
Holding-once_example =
    Holding-once config (codes "pw") [] one_idle (returns 5 7 [] [] one_leased one_held) 7

abbrev five_rows : List ℕ
five_rows = 1 ∷ 2 ∷ 3 ∷ 4 ∷ 5 ∷ []

scanned-slice_example :
    scanned
      (some 1)
      (some 3)
      2
      6
      (record { rows_skipped = 0; rows_emitted = 0; cursor = five_rows })
    ≡ at_most (some 3) 0 (behind (some 1) 0 five_rows)
scanned-slice_example = scanned-slice (some 1) (some 3) 1 6 five_rows (omega arith)
