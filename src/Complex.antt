-- ===== src/Complex.antt =====
-- The pushdown of expressions that are no table filter in src/firebird_scanner.cpp:
-- `FirebirdScanPushdownComplexFilter`, its matchers and helpers. The build that is modelled is
-- FIREBIRD_DUCKDB_V2.
pub mod Matchers
pub mod Columns
pub mod Pushdown
pub mod Cases
pub mod Gate
pub mod Texts
pub mod Exact
pub mod Split
