-- ===== src/Lib.antt =====
-- duckdb-firebird, an extension of DuckDB that scans tables of Firebird databases: its core, as
-- definitions that compute, and theorems on them.
--
-- The program. A connection string is parsed (src/firebird_client.cpp) and a connection comes from
-- a pool of the same file. A table's columns get DuckDB types (src/firebird_types.cpp and
-- src/firebird_scanner.cpp), the scan is split by ranges of the primary key, and for each range one
-- statement is written with the filters that DuckDB pushed (src/firebird_query.cpp). The values that
-- are fetched are transcoded and written into DuckDB's vectors (src/firebird_types.cpp). What was
-- sent and what was not is recorded (src/firebird_observability.cpp); views are inspected by their
-- source (src/firebird_view_analysis.cpp).
-- The parts meet in src/firebird_scanner.cpp: bind checks the arguments and reads the schema, the
-- planner's hook lifts LIKE, NOT IN, NOT and re-encoded literals out of the filters, and each worker
-- takes a partition from the queue, has its statement written, records it, and opens a cursor on it.
--
-- The files, by the code that they model:
--   Common: Boolean tests, lists and text over native numbers, bits, integers.
--   Charset: IsValidUtf8, AppendUtf8, TranscodeNoneCharset (Validate, Transcode);
--     DecodeUtf8Codepoint, TryEncodeNoneLiteral (Literal); MakeTelemetrySafeUtf8 (Display); and
--     Utf8, the encoding that they are compared with.
--   Sql: QuoteIdent and SqlLiteral, and, independent of the code, the lexer of the server that reads
--     them (Lexer) and decimal numbers (Decimal).
--   Duck, Firebird: the types of DuckDB that the code takes apart, and the column descriptions and
--     type codes of Firebird.
--   Query: IsBindableType to ComparisonToSql (Values), TranslateComparison, TranslateInList and
--     TranslateFilterExpression (Expressions), TranslateFilter (Translate) and
--     FirebirdQueryBuilder::Build (Build); Whole and Record say what it means that a filter is sent
--     whole and that each is recorded once. The Boolean result with `out` and `params_out` is the
--     record Outcome, whose parameters are those of the moment of the return.
--   Types: FirebirdToDuckDBType and MapFirebirdColumn; Types/Stored: FirebirdAppendValue.
--   Observability: FirebirdObservabilityState with its operations; Sanitize: the two regular
--     expressions of SanitizeErrorMessage as a walk over the text; Residual: HandleUnpushedFilters
--     and RedactBindValue.
--   Pool: FirebirdConnectionPool; Pool/Steps: its calls by several threads, where a section under the
--     lock is one step and every update of a counter outside of it another; Pool/Ownership: whole
--     calls in sequence with the leases that they give out.
--   Partition: PickPartitionCount and the loop of FirebirdScanInitGlobal; Partition/Queue:
--     NextPartition under any sequence of calls.
--   Complex: FirebirdScanPushdownComplexFilter with its matchers (Matchers), its lambdas and the gates
--     on CHARACTER SET NONE (Columns) and its four blocks and loop (Pushdown). A block is a function
--     from the filter to its Verdict: not matched, kept with or without a reason, or pushed. Exact has
--     GetText of src/firebird_client.cpp, which trims what the server compares.
--   Binding: FirebirdScanBind up to its first connection, what throws as a Refusal; Binding/Data: the
--     bind data that it makes of the options and of the server's answers.
--   Schema: LoadTableSchema, LoadAllTableSchemas and ProbePrimaryKey, on the rows of their queries.
--   Opening: FirebirdScanInitGlobal and OpenNextPartitionCursor. Statement: the combined predicate,
--     the decision on pagination, the call of Build and the parameters; Cursor: the telemetry, the
--     check of the residual filters, the call of the client. A call returns a Turn: how it ended, the
--     notice that it gave, the global state and the telemetry.
--   Health: BuildHealth and HealthFunction of src/firebird_health.cpp.
--   Catalog: src/firebird_storage.cpp. LoadUniqueConstraints and LoadForeignKeys as one loop with two
--     fillings; Entry: the add_entry of EnsureTablesLoaded; Discovery: EnsureTablesLoaded on all that
--     the server may answer, with the pool that the connection comes from; Access:
--     GetScanFunction and LookupSchema; Classify: ClassifyPkRange of src/firebird_explain_pushdown.cpp; Attach: FirebirdAttach and the pool statistics.
--   Indexes: src/firebird_index_profile.cpp, the report on indexes.
--   Dbt: src/firebird_dbt_sources.cpp, the YAML of the sources.
--   Slice: the loop of FirebirdScanFunction with the local LIMIT and OFFSET.
--   Connection: UrlDecode, FirebirdConnectionInfo::Parse and the validators.
--   View: the queries of LookupObjectType, and AnalyzeViewSource; View/Reconcile:
--     ReconcileViewColumnTypes on the columns that the server describes.
--   Tests: the theorems applied to concrete inputs.
--
-- Bytes are numbers, and a std::string is a list of them. Loops over text are recursions on it, with
-- the number of bytes that are still to be passed over where the code advances by more than one, so
-- there is no fuel but in the digits of a number (Sql/Decimal: its fuel n + 1 is enough for n) and in
-- the calls of a scan (Slice: one call more than there are rows is enough).
-- Numbers of Firebird and int64 counters are integers without a bound; where the code computes on
-- 64 bits in a way that a theorem depends on, the wrap-around is written out (ROWS, the width of
-- the key range, the timeout of the pool in nanoseconds).
--
-- Parameters, since their code is not in the repository: FlipComparisonExpression and
-- Value::ToString of DuckDB, and its names of types, the layout of its vectors and its date
-- functions, the accessors of a fetched row but for GetText, the rows of metadata queries, the
-- outcome of attaching a connection and of opening a cursor, the settings, the clock, how the server
-- compares texts, and the long double product of the split (any sequence of cuts). IsPrinter says that the numbers that are written inline have no
-- quote and no question mark; IsLayout says how DuckDB lays out its types.
--
-- Not modelled: the timing and the errors of a fetch, the transactions of the catalog, the other reports (profile, explain but for ClassifyPkRange, metadata), and
-- everything that only calls libfbclient or registers functions with DuckDB.
pub mod Common
pub mod Charset
pub mod Duck
pub mod Sql
pub mod Firebird
pub mod Observability
pub mod Pool
pub mod View
pub mod Partition
pub mod Complex
pub mod Connection
pub mod Opening
pub mod Binding
pub mod Schema
pub mod Health
pub mod Catalog
pub mod Indexes
pub mod Dbt
pub mod Slice
pub mod Query
pub mod Types
pub mod Tests
