-- ===== src/Observability.antt =====
-- src/firebird_observability.cpp: the telemetry that a connection keeps of its queries.
pub mod Sanitize
pub mod Log
pub mod Snapshot
pub mod Residual
use duckdb_firebird.Common.{
  ℕ, zero, suc, ◌+◌, Bool, true, false, Option, none, some, List, [], ◌∷◌, ◌++◌, map, Bytes, codes,
  length, ltb, if◌then◌else◌,
}
use duckdb_firebird.Common.Int.{ℤ, pos, negsuc, ◌+ℤ◌, ◌-ℤ◌}
use duckdb_firebird.Charset.Display.{make_telemetry_safe_utf8}
use duckdb_firebird.Observability.Sanitize.{sanitize_error_message}

-- `FirebirdQueryTelemetry`.
pub record FirebirdQueryTelemetry : Type 0 where
  pub remote_sql : Bytes
  pub binds_redacted : List Bytes
  pub table_name : Bytes
  pub projected_columns : List Bytes
  pub pushed_filters : List Bytes
  pub residual_filters : List Bytes
  pub rows_read : ℤ
  pub bytes_read_estimate : ℤ
  pub firebird_time_us : ℤ
  pub total_time_us : ℤ
  pub connection_id : ℤ
  pub connection_reused : Bool
  pub parallel_scan : Bool
  pub partitions : ℤ
  pub limit_pushed : Option ℕ
  pub offset_pushed : Option ℕ
  pub not_pushed_reasons : List Bytes
  pub captured_at : ℤ
  pub error_message : Bytes
  pub valid : Bool

-- The record of a connection that has not run a query.
abbrev pub no_query : FirebirdQueryTelemetry
no_query = record {
  remote_sql = [];
  binds_redacted = [];
  table_name = [];
  projected_columns = [];
  pushed_filters = [];
  residual_filters = [];
  rows_read = pos 0;
  bytes_read_estimate = pos 0;
  firebird_time_us = pos 0;
  total_time_us = pos 0;
  connection_id = negsuc 0;
  connection_reused = false;
  parallel_scan = false;
  partitions = pos 1;
  limit_pushed = none;
  offset_pushed = none;
  not_pushed_reasons = [];
  captured_at = pos 0;
  error_message = [];
  valid = false;
}

-- The record that `RecordQuery` keeps: valid, its texts displayable.
unfoldable pub displayable : FirebirdQueryTelemetry → FirebirdQueryTelemetry
displayable r = record {
  remote_sql = make_telemetry_safe_utf8 r.remote_sql;
  binds_redacted = r.binds_redacted;
  table_name = r.table_name;
  projected_columns = r.projected_columns;
  pushed_filters = map make_telemetry_safe_utf8 r.pushed_filters;
  residual_filters = r.residual_filters;
  rows_read = r.rows_read;
  bytes_read_estimate = r.bytes_read_estimate;
  firebird_time_us = r.firebird_time_us;
  total_time_us = r.total_time_us;
  connection_id = r.connection_id;
  connection_reused = r.connection_reused;
  parallel_scan = r.parallel_scan;
  partitions = r.partitions;
  limit_pushed = r.limit_pushed;
  offset_pushed = r.offset_pushed;
  not_pushed_reasons = r.not_pushed_reasons;
  captured_at = r.captured_at;
  error_message = r.error_message;
  valid = true;
}

abbrev pub with_rows_read : ℤ → FirebirdQueryTelemetry → FirebirdQueryTelemetry
with_rows_read value r = record {
  remote_sql = r.remote_sql;
  binds_redacted = r.binds_redacted;
  table_name = r.table_name;
  projected_columns = r.projected_columns;
  pushed_filters = r.pushed_filters;
  residual_filters = r.residual_filters;
  rows_read = value;
  bytes_read_estimate = r.bytes_read_estimate;
  firebird_time_us = r.firebird_time_us;
  total_time_us = r.total_time_us;
  connection_id = r.connection_id;
  connection_reused = r.connection_reused;
  parallel_scan = r.parallel_scan;
  partitions = r.partitions;
  limit_pushed = r.limit_pushed;
  offset_pushed = r.offset_pushed;
  not_pushed_reasons = r.not_pushed_reasons;
  captured_at = r.captured_at;
  error_message = r.error_message;
  valid = r.valid;
}

abbrev pub with_bytes_read_estimate : ℤ → FirebirdQueryTelemetry → FirebirdQueryTelemetry
with_bytes_read_estimate value r = record {
  remote_sql = r.remote_sql;
  binds_redacted = r.binds_redacted;
  table_name = r.table_name;
  projected_columns = r.projected_columns;
  pushed_filters = r.pushed_filters;
  residual_filters = r.residual_filters;
  rows_read = r.rows_read;
  bytes_read_estimate = value;
  firebird_time_us = r.firebird_time_us;
  total_time_us = r.total_time_us;
  connection_id = r.connection_id;
  connection_reused = r.connection_reused;
  parallel_scan = r.parallel_scan;
  partitions = r.partitions;
  limit_pushed = r.limit_pushed;
  offset_pushed = r.offset_pushed;
  not_pushed_reasons = r.not_pushed_reasons;
  captured_at = r.captured_at;
  error_message = r.error_message;
  valid = r.valid;
}

abbrev pub with_firebird_time_us : ℤ → FirebirdQueryTelemetry → FirebirdQueryTelemetry
with_firebird_time_us value r = record {
  remote_sql = r.remote_sql;
  binds_redacted = r.binds_redacted;
  table_name = r.table_name;
  projected_columns = r.projected_columns;
  pushed_filters = r.pushed_filters;
  residual_filters = r.residual_filters;
  rows_read = r.rows_read;
  bytes_read_estimate = r.bytes_read_estimate;
  firebird_time_us = value;
  total_time_us = r.total_time_us;
  connection_id = r.connection_id;
  connection_reused = r.connection_reused;
  parallel_scan = r.parallel_scan;
  partitions = r.partitions;
  limit_pushed = r.limit_pushed;
  offset_pushed = r.offset_pushed;
  not_pushed_reasons = r.not_pushed_reasons;
  captured_at = r.captured_at;
  error_message = r.error_message;
  valid = r.valid;
}

abbrev pub with_total_time_us : ℤ → FirebirdQueryTelemetry → FirebirdQueryTelemetry
with_total_time_us value r = record {
  remote_sql = r.remote_sql;
  binds_redacted = r.binds_redacted;
  table_name = r.table_name;
  projected_columns = r.projected_columns;
  pushed_filters = r.pushed_filters;
  residual_filters = r.residual_filters;
  rows_read = r.rows_read;
  bytes_read_estimate = r.bytes_read_estimate;
  firebird_time_us = r.firebird_time_us;
  total_time_us = value;
  connection_id = r.connection_id;
  connection_reused = r.connection_reused;
  parallel_scan = r.parallel_scan;
  partitions = r.partitions;
  limit_pushed = r.limit_pushed;
  offset_pushed = r.offset_pushed;
  not_pushed_reasons = r.not_pushed_reasons;
  captured_at = r.captured_at;
  error_message = r.error_message;
  valid = r.valid;
}

abbrev pub with_error_message : Bytes → FirebirdQueryTelemetry → FirebirdQueryTelemetry
with_error_message value r = record {
  remote_sql = r.remote_sql;
  binds_redacted = r.binds_redacted;
  table_name = r.table_name;
  projected_columns = r.projected_columns;
  pushed_filters = r.pushed_filters;
  residual_filters = r.residual_filters;
  rows_read = r.rows_read;
  bytes_read_estimate = r.bytes_read_estimate;
  firebird_time_us = r.firebird_time_us;
  total_time_us = r.total_time_us;
  connection_id = r.connection_id;
  connection_reused = r.connection_reused;
  parallel_scan = r.parallel_scan;
  partitions = r.partitions;
  limit_pushed = r.limit_pushed;
  offset_pushed = r.offset_pushed;
  not_pushed_reasons = r.not_pushed_reasons;
  captured_at = r.captured_at;
  error_message = value;
  valid = r.valid;
}

-- `FirebirdObservabilityState`: the last query, when it started, and the log, oldest first.
pub record FirebirdObservabilityState : Type 0 where
  pub last : FirebirdQueryTelemetry
  pub start : ℤ
  pub log : List FirebirdQueryTelemetry

abbrev pub fresh : FirebirdObservabilityState
fresh = record { last = no_query; start = pos 0; log = [] }

-- `while (log_.size() > n) log_.pop_front();`
unfoldable pub trim : ℕ → List FirebirdQueryTelemetry → List FirebirdQueryTelemetry
trim n [] = []
trim n (x ∷ xs) = let rest = trim n xs in if ltb n (suc (length xs)) then rest else x ∷ xs

-- The log after one more record; a size that is not positive switches the log off.
abbrev pub logged :
    ℤ → List FirebirdQueryTelemetry → FirebirdQueryTelemetry → List FirebirdQueryTelemetry
logged (pos zero) log r = []
logged (pos (suc n)) log r = trim (suc n) (log ++ r ∷ [])
logged (negsuc n) log r = []

unfoldable pub record_query :
    FirebirdQueryTelemetry → ℤ → ℤ → FirebirdObservabilityState → FirebirdObservabilityState
record_query rec log_size now st = record {
  last = displayable rec;
  start = now;
  log = logged log_size st.log (displayable rec);
}

-- `log_.back()` changed, if there is one.
unfoldable pub at_back :
    (FirebirdQueryTelemetry → FirebirdQueryTelemetry)
    → List FirebirdQueryTelemetry
    → List FirebirdQueryTelemetry
at_back f [] = []
at_back f (x ∷ []) = f x ∷ []
at_back f (x ∷ y ∷ xs) = x ∷ at_back f (y ∷ xs)

unfoldable pub add_rows : ℤ → FirebirdObservabilityState → FirebirdObservabilityState
add_rows n st =
    let total = st.last.rows_read +ℤ n in
    record {
      last = with_rows_read total st.last;
      start = st.start;
      log = at_back (with_rows_read total) st.log;
    }

unfoldable pub add_bytes : ℤ → FirebirdObservabilityState → FirebirdObservabilityState
add_bytes bytes st =
    let total = st.last.bytes_read_estimate +ℤ bytes in
    record {
      last = with_bytes_read_estimate total st.last;
      start = st.start;
      log = at_back (with_bytes_read_estimate total) st.log;
    }

unfoldable pub add_firebird_time_us : ℤ → FirebirdObservabilityState → FirebirdObservabilityState
add_firebird_time_us us st =
    let total = st.last.firebird_time_us +ℤ us in
    record {
      last = with_firebird_time_us total st.last;
      start = st.start;
      log = at_back (with_firebird_time_us total) st.log;
    }

-- `now` is the clock in microseconds.
unfoldable pub update_total_time_us : ℤ → FirebirdObservabilityState → FirebirdObservabilityState
update_total_time_us now st =
    let total = now -ℤ st.start in
    record {
      last = with_total_time_us total st.last;
      start = st.start;
      log = at_back (with_total_time_us total) st.log;
    }

unfoldable pub set_error : Bytes → FirebirdObservabilityState → FirebirdObservabilityState
set_error msg st =
    let sanitized = sanitize_error_message msg in
    record {
      last = with_error_message sanitized st.last;
      start = st.start;
      log = at_back (with_error_message sanitized) st.log;
    }

-- The elements from the last to the first, before others.
unfoldable pub reversed :
    List FirebirdQueryTelemetry → List FirebirdQueryTelemetry → List FirebirdQueryTelemetry
reversed acc [] = acc
reversed acc (x ∷ xs) = reversed (x ∷ acc) xs

-- `SnapshotLog`: most recent first.
unfoldable pub snapshot_log : FirebirdObservabilityState → List FirebirdQueryTelemetry
snapshot_log st = reversed [] st.log
