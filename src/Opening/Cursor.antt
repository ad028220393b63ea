-- ===== src/Opening/Cursor.antt =====
-- `OpenNextPartitionCursor` of src/firebird_scanner.cpp: the next partition of the queue, its
-- telemetry, the check of the residual filters, the call of the client and its failure.
use duckdb_firebird.Common.{
  ℕ, ◌+◌, Bool, true, false, not, ◌&&◌, ◌||◌, Option, none, some, List, [], ◌∷◌, ◌++◌, map, Bytes,
  codes, length, get_elem?, ltb, ◌==◌, if◌then◌else◌,
}
use duckdb_firebird.Common.Int.{ℤ, pos, ltb_ℤ}
use duckdb_firebird.Duck.{Duckdb, TableFilter, row_id}
use duckdb_firebird.Firebird.{FirebirdColumnDesc}
use duckdb_firebird.Sql.Decimal.{decimal}
use duckdb_firebird.Observability.{
  FirebirdQueryTelemetry, no_query, FirebirdObservabilityState, record_query, add_firebird_time_us,
  update_total_time_us, set_error,
}
use duckdb_firebird.Observability.Residual.{
  Notice, quiet, warned, thrown, invalid_mode, handle_unpushed_filters, redact_bind_value,
}
use duckdb_firebird.Partition.{PartitionQueue, next_partition}
use duckdb_firebird.Complex.Pushdown.{ExtraPredicate}
use duckdb_firebird.Opening.Statement.{
  FirebirdBindData, Pagination, pagination, Query, partition_query,
}

-- `FirebirdGlobalState`.
pub record GlobalState : Type 0 where
  pub queue : PartitionQueue
  pub unpushed_reported : Bool
  pub column_ids : List ℕ
  pub filters : List (ℕ × TableFilter)

-- What a call finds outside of the modelled code: the settings `firebird_query_log_size` (0 where it
-- is missing) and `firebird_unpushed_mode`, the id of the connection and whether it is a reused one,
-- the clock, and how `OpenCursor` ends, with the message of its exception.
pub record Surroundings : Type 0 where
  pub log_size : ℤ
  pub unpushed_mode : Option Bytes
  pub connection_id : ℤ
  pub connection_reused : Bool
  pub captured_at : ℤ
  pub recorded_at : ℤ
  pub opened_at : ℤ
  pub firebird_us : ℤ
  pub exception : Option Bytes

-- `projected_columns`: an id that is no column of the table has no entry.
unfoldable pub projected_columns : List Bytes → List ℕ → List Bytes
projected_columns names [] = []
projected_columns names (c ∷ cs) =
    (if c == row_id
      then codes "<rowid>" ∷ []
      else elim (get_elem? names c) [ none ↦ [] | some name ↦ name ∷ [] ])
    ++ projected_columns names cs

abbrev pub residual_entry : ℕ → Bytes
residual_entry i = codes "filter[" ++ decimal i ++ codes "]"

-- `rec` as it is passed to `RecordQuery`.
unfoldable pub telemetry :
    Duckdb → FirebirdBindData → GlobalState → Surroundings → Query → FirebirdQueryTelemetry
telemetry db bind g env q =
    let page = pagination bind in
    let partitions = length g.queue.partitions in
    let gated = bind.lifted.gated_complex_reasons in
    record no_query {
      remote_sql = q.sql;
      binds_redacted = map (redact_bind_value db) q.params;
      table_name = bind.table_name;
      projected_columns = projected_columns bind.columns.column_names g.column_ids;
      pushed_filters =
          q.progress.pushed_filter_sql
          ++ map (λ (ep : ExtraPredicate). ep.sql) bind.lifted.extra_predicates;
      residual_filters =
          map residual_entry q.progress.residual_filter_indices
          ++ map (λ (reason : Bytes). codes "complex_filter[none_gated]") gated;
      not_pushed_reasons = q.progress.residual_filter_reasons ++ gated;
      limit_pushed = page.limit_to_push;
      offset_pushed = page.offset_to_push;
      partitions = pos partitions;
      parallel_scan = ltb 1 partitions;
      captured_at = env.captured_at;
      connection_id = env.connection_id;
      connection_reused = env.connection_reused;
    }

-- The character sets that are put on the columns of the cursor.
unfoldable pub charset_overrides : List FirebirdColumnDesc → ℕ → List ℕ → List (ℕ × ℤ)
charset_overrides descs c [] = []
charset_overrides descs c (src ∷ srcs) =
    (if src == row_id then [] else elim (get_elem? descs src) [
      | none ↦ []
      | some desc ↦
          if ltb_ℤ desc.character_set_id (pos 0) then [] else (c, desc.character_set_id) ∷ []
    ])
    ++ charset_overrides descs (c + 1) srcs

-- How the call ends: false, an exception of the check or of the client, or true with a cursor.
pub data Opened : Type 0 where
  no_partition : Opened
  unpushed : Notice → Opened
  failed : Bytes → Opened
  cursor : Query → Pagination → List (ℕ × ℤ) → Opened

-- What a call leaves, the notice that it gave, and whether it called `OpenCursor` of the client.
pub record Turn : Type 0 where
  pub opened : Opened
  pub notice : Notice
  pub called : Bool
  pub global : GlobalState
  pub telemetry : FirebirdObservabilityState

abbrev pub has_reasons : List Bytes → Bool
has_reasons [] = false
has_reasons (reason ∷ reasons) = true

-- Whether this call is the one that reports: `exchange` is only called with reasons.
abbrev pub reports : GlobalState → List Bytes → Bool
reports g reasons = has_reasons reasons && not g.unpushed_reported

abbrev pub is_exception : Notice → Bool
is_exception (thrown message) = true
is_exception (invalid_mode mode) = true
is_exception (warned message) = false
is_exception quiet = false

-- The call of `OpenCursor`, after the telemetry `st`.
unfoldable pub open_cursor :
    FirebirdBindData
    → GlobalState
    → Surroundings
    → Query
    → Notice
    → FirebirdObservabilityState
    → Turn
open_cursor bind g env q notice st = elim env.exception [
  | some message ↦ record {
    opened = failed message;
    notice = notice;
    called = true;
    global = g;
    telemetry = set_error (codes "OpenCursor: " ++ message) st;
  }
  | none ↦ record {
    opened =
        cursor q (pagination bind) (charset_overrides bind.columns.column_descs 0 g.column_ids);
    notice = notice;
    called = true;
    global = g;
    telemetry = update_total_time_us env.opened_at (add_firebird_time_us env.firebird_us st);
  }
]

-- The rest of the call for the predicate of a partition.
unfoldable pub open_partition :
    Duckdb
    → FirebirdBindData
    → Surroundings
    → Bytes
    → GlobalState
    → FirebirdObservabilityState
    → Turn
open_partition db bind env clause g st =
    let q = partition_query db bind g.column_ids g.filters clause in
    let rec = telemetry db bind g env q in
    let recorded = record_query rec env.log_size env.recorded_at st in
    let reasons = rec.not_pushed_reasons in
    let notice =
      if reports g reasons then handle_unpushed_filters env.unpushed_mode reasons else quiet in
    let g' = record g { unpushed_reported = g.unpushed_reported || has_reasons reasons } in
    if is_exception notice
    then record {
      opened = unpushed notice;
      notice = notice;
      called = false;
      global = g';
      telemetry = recorded;
    }
    else open_cursor bind g' env q notice recorded

unfoldable pub open_next_partition_cursor :
    Duckdb → FirebirdBindData → Surroundings → GlobalState → FirebirdObservabilityState → Turn
open_next_partition_cursor db bind env g st =
    let (next, queue) = next_partition g.queue in
    elim next [
      | none ↦ record {
        opened = no_partition;
        notice = quiet;
        called = false;
        global = g;
        telemetry = st;
      }
      | some clause ↦ open_partition db bind env clause (record g { queue = queue }) st
    ]
