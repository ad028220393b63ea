-- ===== src/Opening.antt =====
-- The opening of a partition's cursor: `FirebirdScanInitGlobal` and `OpenNextPartitionCursor` of
-- src/firebird_scanner.cpp, which bring the query builder, the lifted predicates, the partition
-- queue and the telemetry together.
pub mod Statement
pub mod Placeholders
pub mod Cursor
pub mod Outcomes
pub mod Accounts
pub mod Paging
