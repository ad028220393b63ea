-- ===== src/Query.antt =====
-- src/firebird_query.cpp: which filters are pushed, in which SQL, with which parameters. The build
-- that is modelled is FIREBIRD_DUCKDB_V2, which has the filters of DuckDB 1.5 too, under their
-- legacy names. What the code calls of DuckDB is the argument `db`.
pub mod Values
pub mod Expressions
pub mod Translate
pub mod Build
pub mod Placeholders
pub mod Whole
pub mod Pushdown
pub mod Record
