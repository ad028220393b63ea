-- ===== src/Complex/Gate.antt =====
-- The gate on CHARACTER SET NONE text, which src/firebird_scanner.cpp and src/firebird_query.cpp
-- write three times.
use duckdb_firebird.Common.{ℕ, ◌≡◌, not, some, arith}
use duckdb_firebird.Query.Build.{is_gated_column, column_desc, is_none_text_column_gated}
use duckdb_firebird.Complex.Columns.{
  BoundColumns, is_text_or_text_blob, firebird_scan_supports_pushdown_type, is_none_text_gated,
}

supports-not_gated :
    (bind : BoundColumns) (c : ℕ)
    → firebird_scan_supports_pushdown_type bind c ≡ not (is_none_text_gated bind c)
unfolding firebird_scan_supports_pushdown_type is_none_text_gated
supports-not_gated bind c = ground arith

gated-builder :
    (bind : BoundColumns) (c : ℕ)
    → is_none_text_gated bind c ≡ is_gated_column (some bind.column_descs) bind.none_encoding c
unfolding is_none_text_gated is_gated_column column_desc is_none_text_column_gated
    is_text_or_text_blob
gated-builder bind c = ground arith

-- The planner's whitelist hook, the gate of the complex filters and the gate of the query builder
-- decide alike on every column.
pub supports_pushdown-gates :
    (bind : BoundColumns) (c : ℕ)
    → (firebird_scan_supports_pushdown_type bind c ≡ not (is_none_text_gated bind c))
      × (is_none_text_gated bind c ≡ is_gated_column (some bind.column_descs) bind.none_encoding c)
supports_pushdown-gates bind c = (supports-not_gated bind c, gated-builder bind c)
