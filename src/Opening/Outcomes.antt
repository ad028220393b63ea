-- ===== src/Opening/Outcomes.antt =====
-- How a call of `OpenNextPartitionCursor` of src/firebird_scanner.cpp can end, and what it leaves in
-- the telemetry.
use duckdb_firebird.Common.{
  ℕ, ◌+◌, ◌≤◌, ◌≡◌, refl, Bool, true, false, ◌||◌, not, ◌&&◌, none, some, List, [], ◌∷◌, Bytes,
  codes, ◌++◌, inl, inr, if-intro, Option-cases, subst, sym, ap, ◌⊎◌, arith, if◌then◌else◌,
}
use duckdb_firebird.Charset.Display.{make_telemetry_safe_utf8}
use duckdb_firebird.Duck.{Duckdb}
use duckdb_firebird.Observability.{
  FirebirdObservabilityState, displayable, record_query, add_firebird_time_us, update_total_time_us,
  set_error,
}
use duckdb_firebird.Observability.Sanitize.{sanitize_error_message}
use duckdb_firebird.Observability.Residual.{Notice, quiet, handle_unpushed_filters}
use duckdb_firebird.Partition.{next_partition}
use duckdb_firebird.Opening.Statement.{FirebirdBindData, Query, partition_query}
use duckdb_firebird.Opening.Cursor.{
  GlobalState, Surroundings, telemetry, Opened, no_partition, unpushed, failed, cursor, Turn,
  reports, has_reasons, is_exception, open_cursor, open_partition, open_next_partition_cursor,
}

-- The last query of the telemetry is the statement `q`, with that error.
abbrev pub IsLast : Query → Bytes → FirebirdObservabilityState → Type 0
IsLast q error st =
    (st.last.remote_sql ≡ make_telemetry_safe_utf8 q.sql) × (st.last.error_message ≡ error)

-- How the call for a partition may end. An exception of the client is passed on; with an exception of
-- the check of the residual filters, the client is not called.
abbrev pub IsEnd : Surroundings → Query → Turn → Opened → Type 0
IsEnd env q t no_partition = ⊥
IsEnd env q t (unpushed notice) =
    (is_exception notice ≡ true)
    × (notice ≡ t.notice)
    × (t.called ≡ false)
    × IsLast q [] t.telemetry
IsEnd env q t (failed message) =
    (env.exception ≡ some message)
    × (is_exception t.notice ≡ false)
    × (t.called ≡ true)
    × IsLast q (sanitize_error_message (codes "OpenCursor: " ++ message)) t.telemetry
IsEnd env q t (cursor sent page overrides) =
    (env.exception ≡ none)
    × (is_exception t.notice ≡ false)
    × (t.called ≡ true)
    × (sent ≡ q)
    × IsLast q [] t.telemetry

open_cursor-IsEnd :
    (bind : FirebirdBindData) (g : GlobalState) (env : Surroundings) (q : Query) (notice : Notice)
    (st : FirebirdObservabilityState)
    → is_exception notice ≡ false
    → IsLast q [] st
    → let t = open_cursor bind g env q notice st in IsEnd env q t t.opened
unfolding open_cursor set_error update_total_time_us add_firebird_time_us
open_cursor-IsEnd bind g env q notice st n l = elim (Option-cases env.exception) [
  | inl p ↦ rw (open_cursor, p) (refl, n, refl, refl, l)
  | inr (message, p) ↦ rw (open_cursor, p) (refl, n, refl, (l.0, refl))
]

-- A call that has a partition records its statement before anything can fail, and then ends in one of
-- three ways: with the cursor on that statement, with the exception of the client, which stands
-- sanitized in the telemetry beside the statement, or with an exception of the check of the residual
-- filters, and then without having called the client; in the other two ways that check has not
-- thrown.
pub open_partition-IsEnd :
    (db : Duckdb) (bind : FirebirdBindData) (env : Surroundings) (clause : Bytes) (g : GlobalState)
    (st : FirebirdObservabilityState)
    → let t = open_partition db bind env clause g st in
      IsEnd env (partition_query db bind g.column_ids g.filters clause) t t.opened
unfolding open_partition record_query displayable telemetry
open_partition-IsEnd db bind env clause g st =
    let q = partition_query db bind g.column_ids g.filters clause in
    let rec = telemetry db bind g env q in
    let reasons = rec.not_pushed_reasons in
    let recorded = record_query rec env.log_size env.recorded_at st in
    let notice =
      if reports g reasons then handle_unpushed_filters env.unpushed_mode reasons else quiet in
    let g' : GlobalState = record g {
      unpushed_reported = g.unpushed_reported || has_reasons reasons;
    } in
    if-intro (λ (t : Turn). IsEnd env q t t.opened) (is_exception notice)
      (λ p. (p, refl, refl, (refl, refl)))
      (λ p. open_cursor-IsEnd bind g' env q notice recorded p (refl, refl))

opened_quietly :
    (bind : FirebirdBindData) (g : GlobalState) (env : Surroundings) (q : Query) (notice : Notice)
    (st : FirebirdObservabilityState)
    → ((open_cursor bind g env q notice st).notice ≡ notice)
      × ((open_cursor bind g env q notice st).global ≡ g)
unfolding open_cursor
opened_quietly bind g env q notice st = elim (Option-cases env.exception) [
  | inl p ↦ rw (open_cursor, p) (refl, refl)
  | inr (message, p) ↦ rw (open_cursor, p) (refl, refl)
]

abbrev is_quiet : Notice → Bool
is_quiet quiet = true
is_quiet notice = false

-- What a call does with the flag of the global state: a notice sets it, and it silences the next.
abbrev IsReport : Bool → Notice → Bool → Type 0
IsReport before notice after =
    (before ≡ true → (notice ≡ quiet) × (after ≡ true)) × ((notice ≡ quiet) ⊎ (after ≡ true))

flagged :
    (before has : Bool) (notice : Notice)
    → IsReport before (if has && not before then notice else quiet) (before || has)
flagged true true notice = ((λ p. (refl, refl)), inl refl)
flagged true false notice = ((λ p. (refl, refl)), inl refl)
flagged false true notice = ((λ p. cc), inr refl)
flagged false false notice = ((λ p. cc), inl refl)

open_partition-IsReport :
    (db : Duckdb) (bind : FirebirdBindData) (env : Surroundings) (clause : Bytes) (g : GlobalState)
    (st : FirebirdObservabilityState)
    → let t = open_partition db bind env clause g st in
      IsReport g.unpushed_reported t.notice t.global.unpushed_reported
unfolding open_partition
open_partition-IsReport db bind env clause g st =
    let q = partition_query db bind g.column_ids g.filters clause in
    let rec = telemetry db bind g env q in
    let reasons = rec.not_pushed_reasons in
    let recorded = record_query rec env.log_size env.recorded_at st in
    let spoken = handle_unpushed_filters env.unpushed_mode reasons in
    let notice = if reports g reasons then spoken else quiet in
    let g' : GlobalState = record g {
      unpushed_reported = g.unpushed_reported || has_reasons reasons;
    } in
    let report = flagged g.unpushed_reported (has_reasons reasons) spoken in
    let opened = opened_quietly bind g' env q notice recorded in
    if-intro (λ (t : Turn). IsReport g.unpushed_reported t.notice t.global.unpushed_reported)
      (is_exception notice) (λ p. report)
      (λ p.
        subst
          (λ n.
            IsReport g.unpushed_reported n
              (open_cursor bind g' env q notice recorded).global.unpushed_reported)
          (sym opened.0)
          (subst (λ (h : GlobalState). IsReport g.unpushed_reported notice h.unpushed_reported)
            (sym opened.1) report))

open_next-IsReport :
    (db : Duckdb) (bind : FirebirdBindData) (env : Surroundings) (g : GlobalState)
    (st : FirebirdObservabilityState)
    → let t = open_next_partition_cursor db bind env g st in
      IsReport g.unpushed_reported t.notice t.global.unpushed_reported
unfolding open_next_partition_cursor
open_next-IsReport db bind env g st = elim (Option-cases (next_partition g.queue).0) [
  | inl p ↦ rw (open_next_partition_cursor, p) ((λ h. (refl, h)), inl refl)
  | inr (clause, p) ↦
      rw (open_next_partition_cursor, p)
        (open_partition-IsReport db bind env clause
          (record g { queue = (next_partition g.queue).1 }) st)
]

-- The calls of a scan by its workers, in the order in which they take the lock of the queue.
unfoldable pub open_all :
    Duckdb
    → FirebirdBindData
    → List Surroundings
    → GlobalState
    → FirebirdObservabilityState
    → List Turn
open_all db bind [] g st = []
open_all db bind (env ∷ envs) g st =
    let t = open_next_partition_cursor db bind env g st in
    t ∷ open_all db bind envs t.global t.telemetry

-- How many of the calls gave a notice.
unfoldable pub notices : List Turn → ℕ
notices [] = 0
notices (t ∷ ts) = (if is_quiet t.notice then 0 else 1) + notices ts

no_more_notices :
    (db : Duckdb) (bind : FirebirdBindData) (envs : List Surroundings) (g : GlobalState)
    (st : FirebirdObservabilityState)
    → g.unpushed_reported ≡ true
    → notices (open_all db bind envs g st) ≡ 0
unfolding open_all notices
no_more_notices db bind [] g st h = refl
no_more_notices db bind (env ∷ envs) g st h =
    let t = open_next_partition_cursor db bind env g st in
    let (hush, still) = (open_next-IsReport db bind env g st).0 h in
    rw (ap is_quiet hush, no_more_notices db bind envs t.global t.telemetry still) (omega arith)

-- Whatever partitions a scan opens, and whatever settings and failures they meet, it warns or stops
-- for residual filters at most once.
pub notices_once :
    (db : Duckdb) (bind : FirebirdBindData) (envs : List Surroundings) (g : GlobalState)
    (st : FirebirdObservabilityState)
    → notices (open_all db bind envs g st) ≤ 1
unfolding open_all notices
notices_once db bind [] g st = omega arith
notices_once db bind (env ∷ envs) g st =
    let t = open_next_partition_cursor db bind env g st in
    elim (open_next-IsReport db bind env g st).1 [
      | inl hush ↦
          rw (ap is_quiet hush) (omega (arith, notices_once db bind envs t.global t.telemetry))
      | inr set ↦
          rw (no_more_notices db bind envs t.global t.telemetry set)
            (at_most_one (is_quiet t.notice))
    ]
  where
    at_most_one : (b : Bool) → (if b then 0 else 1) + 0 ≤ 1
    at_most_one true = omega arith
    at_most_one false = omega arith
