-- ===== src/Health.antt =====
-- src/firebird_health.cpp: `BuildHealth` on the answers of its two queries, and the row that
-- `HealthFunction` makes of it.
pub mod Degraded
use duckdb_firebird.Common.{
  ℕ, Bool, true, false, not, Option, none, some, List, [], ◌∷◌, ◌++◌, Bytes, codes, str_eq, ◌==◌,
  if◌then◌else◌,
}
use duckdb_firebird.Common.Int.{ℤ, pos, ◌-ℤ◌, ltb_ℤ, int32}
use duckdb_firebird.Firebird.{int_eq, sql_short, sql_long}
use duckdb_firebird.Sql.Decimal.{decimal_ℤ}

-- `FB_HEALTH_GAP_THRESHOLD`.
abbrev pub gap_threshold : ℤ
gap_threshold = pos 1000000

pub record HealthInfo : Type 0 where
  pub engine_version : Bytes
  pub default_charset : Bytes
  pub mon_ok : Bool
  pub ods_major : ℤ
  pub ods_minor : ℤ
  pub sql_dialect : ℤ
  pub page_size : ℤ
  pub forced_writes : Bool
  pub sweep_interval : ℤ
  pub oit : ℤ
  pub oat : ℤ
  pub ost : ℤ
  pub next_tx : ℤ
  pub attachments : ℤ
  pub warnings : List Bytes

-- The first query's row; a column is none where it is NULL.
pub record DatabaseRow : Type 0 where
  pub version : Option Bytes
  pub charset : Option Bytes

-- The row of MON$DATABASE as the accessors read it; column 3 by either width, with its type.
pub record MonitoringRow : Type 0 where
  pub mon_ods_major : ℤ
  pub mon_ods_minor : ℤ
  pub mon_sql_dialect : ℤ
  pub page_size_sqltype : ℕ
  pub page_size_short : ℤ
  pub page_size_long : ℤ
  pub mon_forced_writes : ℤ
  pub mon_sweep_interval : ℤ
  pub oldest_transaction : ℤ
  pub oldest_active : ℤ
  pub oldest_snapshot : ℤ
  pub next_transaction : ℤ
  pub attachment_count : ℤ

-- How a query ends: it throws, has no row, or has one.
pub data Answer (A : Type 0) : Type 0 where
  thrown no_row : Answer A
  row : A → Answer A

-- `HealthInfo h;`
abbrev pub no_health : HealthInfo
no_health = record {
  engine_version = [];
  default_charset = [];
  mon_ok = false;
  ods_major = pos 0;
  ods_minor = pos 0;
  sql_dialect = pos 0;
  page_size = pos 0;
  forced_writes = false;
  sweep_interval = pos 0;
  oit = pos 0;
  oat = pos 0;
  ost = pos 0;
  next_tx = pos 0;
  attachments = pos 0;
  warnings = [];
}

abbrev pub text_or_empty : Option Bytes → Bytes
text_or_empty none = []
text_or_empty (some s) = s

-- The first part; a query that throws ends the function.
unfoldable pub with_database_row : Answer DatabaseRow → Option HealthInfo
with_database_row thrown = none
with_database_row no_row = some no_health
with_database_row (row r) = some (record no_health {
  engine_version = text_or_empty r.version;
  default_charset = text_or_empty r.charset;
})

-- The switch on the type of MON$PAGE_SIZE.
unfoldable pub page_size_of : MonitoringRow → ℤ
page_size_of r =
    if r.page_size_sqltype == sql_short
    then r.page_size_short
    else if r.page_size_sqltype == sql_long
    then r.page_size_long
    else pos 0

-- The second part; a query that throws is caught.
unfoldable pub with_monitoring_row : Answer MonitoringRow → HealthInfo → HealthInfo
with_monitoring_row thrown h = record h { mon_ok = false }
with_monitoring_row no_row h = h
with_monitoring_row (row r) h = record h {
  ods_major = r.mon_ods_major;
  ods_minor = r.mon_ods_minor;
  sql_dialect = r.mon_sql_dialect;
  page_size = page_size_of r;
  forced_writes = not (int_eq r.mon_forced_writes (pos 0));
  sweep_interval = r.mon_sweep_interval;
  oit = r.oldest_transaction;
  oat = r.oldest_active;
  ost = r.oldest_snapshot;
  next_tx = r.next_transaction;
  attachments = int32 r.attachment_count;
  mon_ok = true;
}

abbrev pub warn_if : Bool → Bytes → List Bytes
warn_if true w = w ∷ []
warn_if false w = []

-- The warnings that the metrics give.
unfoldable pub metric_warnings : HealthInfo → List Bytes
metric_warnings h =
    warn_if (ltb_ℤ gap_threshold (h.next_tx -ℤ h.oit)) (codes "oit_gap_high")
    ++ warn_if (ltb_ℤ gap_threshold (h.next_tx -ℤ h.oat)) (codes "oat_gap_high")
    ++ warn_if (int_eq h.sweep_interval (pos 0)) (codes "sweep_disabled")
    ++ warn_if (not h.forced_writes) (codes "forced_writes_off")

unfoldable pub health_warnings : HealthInfo → List Bytes
health_warnings h =
    (if h.mon_ok then metric_warnings h else [])
    ++ warn_if (str_eq h.default_charset (codes "NONE")) (codes "charset_none")
    ++ warn_if (not h.mon_ok) (codes "mon_unavailable")

unfoldable pub build_health : Answer DatabaseRow → Answer MonitoringRow → Option HealthInfo
build_health database monitoring = elim (with_database_row database) [
  | none ↦ none
  | some first ↦
      let h = with_monitoring_row monitoring first in
      some (record h { warnings = health_warnings h })
]

-- The columns of the row that `HealthFunction` emits; none is a typed NULL.
pub record HealthRow : Type 0 where
  pub version : Bytes
  pub ods_version : Option Bytes
  pub dialect : Option ℤ
  pub charset : Bytes
  pub page : Option ℤ
  pub writes_forced : Option Bool
  pub sweep : Option ℤ
  pub oldest_interesting : Option ℤ
  pub oldest_running : Option ℤ
  pub snapshot : Option ℤ
  pub next : Option ℤ
  pub oit_gap : Option ℤ
  pub oat_gap : Option ℤ
  pub attached : Option ℤ
  pub warned : List Bytes

-- `bigint_or_null`, `int_or_null` and the two columns that test `mon_ok` themselves.
abbrev pub or_null {ℓ} : {A : Type ℓ} → HealthInfo → A → Option A
or_null h v = if h.mon_ok then some v else none

unfoldable pub health_row : HealthInfo → HealthRow
health_row h = record {
  version = h.engine_version;
  ods_version = or_null h (decimal_ℤ h.ods_major ++ codes "." ++ decimal_ℤ h.ods_minor);
  dialect = or_null h h.sql_dialect;
  charset = h.default_charset;
  page = or_null h h.page_size;
  writes_forced = or_null h h.forced_writes;
  sweep = or_null h h.sweep_interval;
  oldest_interesting = or_null h h.oit;
  oldest_running = or_null h h.oat;
  snapshot = or_null h h.ost;
  next = or_null h h.next_tx;
  oit_gap = or_null h (h.next_tx -ℤ h.oit);
  oat_gap = or_null h (h.next_tx -ℤ h.oat);
  attached = or_null h h.attachments;
  warned = h.warnings;
}

-- The state of the scan, `emitted`, and what a call emits: one row once, then none. `leased` is
-- whether `AcquireFirebirdCatalogLease` returns; an exception is none.
unfoldable pub health_function :
    Bool → Bool → Answer DatabaseRow → Answer MonitoringRow → Option (Bool × List HealthRow)
health_function true leased database monitoring = some (true, [])
health_function false false database monitoring = none
health_function false true database monitoring = elim (build_health database monitoring) [
  | none ↦ none
  | some h ↦ some (true, health_row h ∷ [])
]
