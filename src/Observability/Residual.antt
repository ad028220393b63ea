-- ===== src/Observability/Residual.antt =====
-- `RemedyForReason`, `HandleUnpushedFilters` and `RedactBindValue` of
-- src/firebird_observability.cpp.
use duckdb_firebird.Common.{
  ℕ, suc, ◌+◌, ◌≡◌, Bool, true, false, Bool-cases, inl, inr, Option, none, some, List, [], ◌∷◌,
  ◌++◌, Bytes, codes, length, str_eq, lower, if◌then◌else◌, arith,
}
use duckdb_firebird.Duck.{LogicalType, varchar, char, Value, Duckdb}
use duckdb_firebird.Sql.Decimal.{decimal}

unfoldable pub remedy_for_reason : Bytes → Bytes
remedy_for_reason reason =
    if str_eq reason (codes "NONE_CHARSET")
    then codes "columns declared CHARACTER SET NONE only push text filters "
      ++ codes "under none_encoding='strict' or, for '=' / IN on CHAR / "
      ++ codes "VARCHAR, with the none_pushdown=true opt-in - ranges, LIKE "
      ++ codes "and NOT IN are always transcoded client-side"
    else if str_eq reason (codes "UNSUPPORTED_OP")
    then codes "the filter operator/shape/constant type has no Firebird SQL "
      ++ codes "translation yet; simplify the predicate or accept "
      ++ codes "DuckDB-side filtering"
    else if str_eq reason (codes "ROWID_OR_INVALID_COLUMN")
    then codes "the filter targets the virtual rowid or a column outside "
      ++ codes "the resolved schema; filter on real columns instead"
    else if str_eq reason (codes "UNSUPPORTED_PROJECTION_MAPPING")
    then codes "the filter's projected column could not be mapped back to "
      ++ codes "a source column; check the query's column list"
    else codes "unknown reason; inspect firebird_last_query()"

-- `order` and `counts` as one list, in the order in which the reasons are first seen.
unfoldable pub bump : Bytes → List (Bytes × ℕ) → List (Bytes × ℕ)
bump reason [] = (reason, 1) ∷ []
bump reason ((key, n) ∷ rest) = elim (str_eq key reason) [
  | true ↦ (key, n + 1) ∷ rest
  | false ↦ (key, n) ∷ bump reason rest
]

unfoldable pub tally : List Bytes → List (Bytes × ℕ) → List (Bytes × ℕ)
tally [] counts = counts
tally (reason ∷ reasons) counts = tally reasons (bump reason counts)

unfoldable pub remedies : List (Bytes × ℕ) → Bytes
remedies [] = []
remedies ((reason, n) ∷ rest) =
    codes " "
    ++ reason
    ++ codes " ("
    ++ decimal n
    ++ codes "): "
    ++ remedy_for_reason reason
    ++ codes "."
    ++ remedies rest

unfoldable pub residual_message : Bytes → List Bytes → Bytes
residual_message mode reasons =
    codes "firebird_unpushed_mode='"
    ++ mode
    ++ codes "': this scan kept "
    ++ decimal (length reasons)
    ++ codes " filter(s) in DuckDB instead of pushing them down to Firebird."
    ++ remedies (tally reasons [])
    ++ codes " Verify with firebird_explain_pushdown() / firebird_last_query(). Reset with SET "
    ++ codes "firebird_unpushed_mode = 'silent'."

-- What the guard does: nothing, a warning, or an exception for the filters or for the mode.
pub data Notice : Type 0 where
  quiet : Notice
  warned thrown : Bytes → Notice
  invalid_mode : Bytes → Notice

-- The setting is none if it is missing or NULL.
unfoldable pub handle_unpushed_filters : Option Bytes → List Bytes → Notice
handle_unpushed_filters none reasons = quiet
handle_unpushed_filters (some setting) reasons =
    let mode = lower setting in
    if str_eq mode (codes "silent")
    then quiet
    else if str_eq mode (codes "warn")
    then warned (residual_message mode reasons)
    else if str_eq mode (codes "error")
    then thrown (residual_message mode reasons)
    else invalid_mode mode

abbrev pub is_text : LogicalType → Bool
is_text varchar = true
is_text char = true
is_text LogicalType.blob = true
is_text _ = false

unfoldable pub redact_bind_value : Duckdb → Value → Bytes
redact_bind_value db v =
    if v.is_null
    then codes "<null>"
    else if is_text v.type
    then codes "<text:redacted>"
    else db.to_string v

abbrev pub total : List (Bytes × ℕ) → ℕ
total [] = 0
total ((reason, n) ∷ rest) = n + total rest

total-bump :
    (reason : Bytes) (counts : List (Bytes × ℕ)) → total (bump reason counts) ≡ suc (total counts)
unfolding bump
total-bump reason [] = omega arith
total-bump reason ((key, n) ∷ rest) = elim (Bool-cases (str_eq key reason)) [
  | inl p ↦ rw (bump, p) (omega arith)
  | inr p ↦ rw (bump, p) (omega (arith, total-bump reason rest))
]

total_from :
    (reasons : List Bytes) (counts : List (Bytes × ℕ))
    → total (tally reasons counts) ≡ length reasons + total counts
unfolding tally
total_from [] counts = omega arith
total_from (reason ∷ reasons) counts =
    omega (arith, total_from reasons (bump reason counts), total-bump reason counts)

-- The counts of the message add up to the number of residual filters.
pub total-tally : (reasons : List Bytes) → total (tally reasons []) ≡ length reasons
total-tally reasons = omega (arith, total_from reasons [])

-- What is recorded of a bound text does not depend on the text: two values of text types that are
-- both NULL or both not are recorded alike.
pub redact_bind_value-text :
    (db : Duckdb) (v w : Value)
    → is_text v.type ≡ true
    → is_text w.type ≡ true
    → v.is_null ≡ w.is_null
    → redact_bind_value db v ≡ redact_bind_value db w
unfolding redact_bind_value
redact_bind_value-text db v w h k e = rw (h, k, e)
