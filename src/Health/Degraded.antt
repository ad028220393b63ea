-- ===== src/Health/Degraded.antt =====
-- What the health report of src/firebird_health.cpp shows when its queries fail, and its warnings
-- against its columns.
use duckdb_firebird.Common.{
  ◌≡◌, refl, Bool, true, false, not, Option, none, some, List, [], ◌∷◌, ◌++◌, Bytes, codes, str_eq,
}
use duckdb_firebird.Common.Int.{pos, ltb_ℤ}
use duckdb_firebird.Firebird.{int_eq}
use duckdb_firebird.Health.{
  gap_threshold, DatabaseRow, MonitoringRow, Answer, thrown, no_row, row, with_database_row,
  with_monitoring_row, warn_if, metric_warnings, health_warnings, build_health, HealthRow,
  health_row, health_function,
}

abbrev warn_over {ℓ} : {A : Type ℓ} → Option A → (A → Bool) → Bytes → List Bytes
warn_over none test w = []
warn_over (some a) test w = warn_if (test a) w

abbrev is_null {ℓ} : {A : Type ℓ} → Option A → Bool
is_null none = true
is_null (some a) = false

-- The warnings that a reader of the other columns expects.
abbrev pub expected_warnings : HealthRow → List Bytes
expected_warnings r =
    warn_over r.oit_gap (λ gap. ltb_ℤ gap_threshold gap) (codes "oit_gap_high")
    ++ warn_over r.oat_gap (λ gap. ltb_ℤ gap_threshold gap) (codes "oat_gap_high")
    ++ warn_over r.sweep (λ n. int_eq n (pos 0)) (codes "sweep_disabled")
    ++ warn_over r.writes_forced not (codes "forced_writes_off")
    ++ warn_if (str_eq r.charset (codes "NONE")) (codes "charset_none")
    ++ warn_if (is_null r.dialect) (codes "mon_unavailable")

-- All the columns of the monitoring query are NULL, or none of them.
abbrev pub IsUniform : Bool → HealthRow → Type 0
IsUniform missing r =
    (is_null r.ods_version ≡ missing)
    × (is_null r.dialect ≡ missing)
    × (is_null r.page ≡ missing)
    × (is_null r.writes_forced ≡ missing)
    × (is_null r.sweep ≡ missing)
    × (is_null r.oldest_interesting ≡ missing)
    × (is_null r.oldest_running ≡ missing)
    × (is_null r.snapshot ≡ missing)
    × (is_null r.next ≡ missing)
    × (is_null r.oit_gap ≡ missing)
    × (is_null r.oat_gap ≡ missing)
    × (is_null r.attached ≡ missing)

abbrev pub is_missing : {A : Type 0} → Answer A → Bool
is_missing (row r) = false
is_missing _ = true

-- How a call ends: a report that was emitted is not repeated, the exceptions of the lease and of the
-- first query are passed on, and that of the second query is not.
abbrev pub IsReport :
    Bool
    → Bool
    → Answer DatabaseRow
    → Answer MonitoringRow
    → Option (Bool × List HealthRow)
    → Type 0
IsReport true leased database monitoring result = result ≡ some (true, [])
IsReport false false database monitoring result = result ≡ none
IsReport false true thrown monitoring result = result ≡ none
IsReport false true database monitoring result =
    (r : HealthRow) × (result ≡ some (true, r ∷ []))
    × IsUniform (is_missing monitoring) r
    × (r.warned ≡ expected_warnings r)

-- The first call fails exactly if the catalog gives no connection or the first query throws, and a
-- later one emits nothing. If the monitoring query throws or has no row, every column of it is NULL
-- and the report says so; otherwise none is NULL; and whenever there is a row, its warnings are
-- exactly those that its other columns call for.
pub health_function-IsReport :
    (emitted leased : Bool) (database : Answer DatabaseRow) (monitoring : Answer MonitoringRow)
    → IsReport emitted leased database monitoring
        (health_function emitted leased database monitoring)
unfolding health_function build_health with_database_row with_monitoring_row health_row
    health_warnings metric_warnings
health_function-IsReport true leased database monitoring = refl
health_function-IsReport false false database monitoring = refl
health_function-IsReport false true thrown monitoring = refl
health_function-IsReport false true no_row thrown =
    (_, refl, (refl, refl, refl, refl, refl, refl, refl, refl, refl, refl, refl, refl), refl)
health_function-IsReport false true no_row no_row =
    (_, refl, (refl, refl, refl, refl, refl, refl, refl, refl, refl, refl, refl, refl), refl)
health_function-IsReport false true no_row (row m) =
    (_, refl, (refl, refl, refl, refl, refl, refl, refl, refl, refl, refl, refl, refl), refl)
health_function-IsReport false true (row d) thrown =
    (_, refl, (refl, refl, refl, refl, refl, refl, refl, refl, refl, refl, refl, refl), refl)
health_function-IsReport false true (row d) no_row =
    (_, refl, (refl, refl, refl, refl, refl, refl, refl, refl, refl, refl, refl, refl), refl)
health_function-IsReport false true (row d) (row m) =
    (_, refl, (refl, refl, refl, refl, refl, refl, refl, refl, refl, refl, refl, refl), refl)
