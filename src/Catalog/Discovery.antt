-- ===== src/Catalog/Discovery.antt =====
-- `EnsureTablesLoaded` and `LookupEntry` of src/firebird_storage.cpp on the server's answers, with the
-- pool that the connection comes from.
use duckdb_firebird.Common.{
  ℕ, Bool, true, false, Option, none, some, List, [], ◌∷◌, ◌++◌, Bytes, codes, length, upper,
  if◌then◌else◌,
}
use duckdb_firebird.Charset.Transcode.{NoneEncoding}
use duckdb_firebird.Sql.Decimal.{decimal}
use duckdb_firebird.Pool.{
  FirebirdConnectionPoolConfig, FirebirdConnectionPool, FirebirdConnectionLease, Attach,
  acquire_with_info, release,
}
use duckdb_firebird.Schema.{
  MetadataRow, Columns, FirebirdTableSchema, schema_of_rows, load_all_table_schemas,
}
use duckdb_firebird.View.Reconcile.{ViewAnswers}
use duckdb_firebird.Catalog.{
  KeyRow, UniqueKey, ForeignKeyRow, ForeignKey, load_unique_constraints, load_foreign_keys,
}
use duckdb_firebird.Catalog.Entry.{TableEntry, Surroundings, add_entry, find_table}

-- A query with its rows, or the message of what it throws.
pub data Fetched (A : Type 0) : Type 0 where
  fetched : A → Fetched A
  threw : Bytes → Fetched A

-- A row of the fallback's list of relations.
pub record Relation : Type 0 where
  pub name : Bytes
  pub is_view : Bool

-- The answers of the server to the queries of one discovery; `table_rows` is that to the query of the
-- columns of the relation of a name.
pub record Server : Type 0 where
  pub key_rows : Fetched (List KeyRow)
  pub foreign_key_rows : Fetched (List ForeignKeyRow)
  pub all_rows : Fetched (List MetadataRow)
  pub relations : Fetched (List Relation)
  pub table_rows : Bytes → Fetched (List MetadataRow)
  pub view_answers : Bytes → ViewAnswers

-- The settings of the catalog, and the password of its connections.
pub record Settings : Type 0 where
  pub none_encoding : NoneEncoding
  pub numeric_widen_int64 : Bool
  pub pool_config : FirebirdConnectionPoolConfig
  pub password : Bytes

-- The clock when the connection is taken and when it is given back, and how an attachment ends.
pub record Timing : Type 0 where
  pub acquired_at : ℕ
  pub released_at : ℕ
  pub outcome : Attach

-- `FirebirdSchemaEntry` with the pool; no two entries of `tables` have the same key.
pub record SchemaEntry : Type 0 where
  pub loaded : Bool
  pub tables : List (Bytes × TableEntry)
  pub pool : FirebirdConnectionPool

-- How the call ends: it returns, the pool gives no connection, or the discovery throws.
pub data Exit : Type 0 where
  returned not_connected : Exit
  not_discovered : Bytes → Exit

-- A failing query leaves the map empty.
unfoldable pub unique_map : Fetched (List KeyRow) → Bytes → List UniqueKey
unique_map (fetched rows) = load_unique_constraints rows
unique_map (threw message) = λ rel. []

unfoldable pub foreign_map : Fetched (List ForeignKeyRow) → Bytes → List ForeignKey
foreign_map (fetched rows) = load_foreign_keys rows
foreign_map (threw message) = λ rel. []

unfoldable pub surroundings : Settings → Server → Surroundings
surroundings o s = record {
  unique_keys = unique_map s.key_rows;
  fkeys = foreign_map s.foreign_key_rows;
  view_answers = s.view_answers;
  numeric_widen_int64 = o.numeric_widen_int64;
}

unfoldable pub add_schemas :
    Surroundings → List FirebirdTableSchema → List (Bytes × TableEntry) → List (Bytes × TableEntry)
add_schemas w [] ts = ts
add_schemas w (t ∷ schemas) ts =
    add_schemas w schemas (add_entry w t.table_name t.columns t.is_view ts)

unfoldable pub add_loaded :
    Surroundings → Relation → Option Columns → List (Bytes × TableEntry) → List (Bytes × TableEntry)
add_loaded w r none ts = ts
add_loaded w r (some c) ts = add_entry w r.name c r.is_view ts

-- One turn of the fallback: a table whose query throws, or has no rows, is skipped.
unfoldable pub add_fetched :
    Settings
    → Surroundings
    → Relation
    → Fetched (List MetadataRow)
    → List (Bytes × TableEntry)
    → List (Bytes × TableEntry)
add_fetched o w r (threw message) ts = ts
add_fetched o w r (fetched rows) ts =
    add_loaded w r (schema_of_rows o.none_encoding o.numeric_widen_int64 rows) ts

unfoldable pub add_each :
    Settings
    → Surroundings
    → (Bytes → Fetched (List MetadataRow))
    → List Relation
    → List (Bytes × TableEntry)
    → List (Bytes × TableEntry)
add_each o w rows [] ts = ts
add_each o w rows (r ∷ rs) ts = add_each o w rows rs (add_fetched o w r (rows (upper r.name)) ts)

-- The three bytes of a dash.
abbrev em_dash : Bytes
em_dash = 226 ∷ 128 ∷ 148 ∷ []

unfoldable pub both_failed : Bytes → Bytes → Bytes
both_failed batch_error message =
    codes "Firebird catalog discovery failed "
    ++ em_dash
    ++ codes " batch load error: ["
    ++ batch_error
    ++ codes "]; per-table fallback error: ["
    ++ message
    ++ codes "]"

unfoldable pub none_loaded : ℕ → Bytes → Bytes
none_loaded n batch_error =
    codes "Firebird catalog discovery loaded 0 of "
    ++ decimal n
    ++ codes " relations after the batch path failed "
    ++ em_dash
    ++ codes " likely a "
    ++ codes "systemic permission or connection problem rather than "
    ++ codes "per-table quirks. Batch load error: ["
    ++ batch_error
    ++ codes "]"

-- The query of the fallback.
unfoldable pub relations_query : Bytes
relations_query =
    codes "SELECT TRIM(r.RDB$RELATION_NAME), "
    ++ codes "       r.RDB$VIEW_BLR IS NOT NULL "
    ++ codes "  FROM RDB$RELATIONS r "
    ++ codes " WHERE r.RDB$SYSTEM_FLAG = 0 "
    ++ codes "   AND (r.RDB$RELATION_TYPE IS NULL OR r.RDB$RELATION_TYPE <> 3) "
    ++ codes " ORDER BY r.RDB$RELATION_NAME"

-- The end of the fallback: no table at all is an error, unless there is no relation.
unfoldable pub fallback_result :
    Bytes → List Relation → List (Bytes × TableEntry) → Fetched (List (Bytes × TableEntry))
fallback_result batch_error (r ∷ rs) [] = threw (none_loaded (length (r ∷ rs)) batch_error)
fallback_result batch_error rs ts = fetched ts

unfoldable pub fallback :
    Settings → Server → Bytes → Fetched (List Relation) → Fetched (List (Bytes × TableEntry))
fallback o s batch_error (threw message) = threw (both_failed batch_error message)
fallback o s batch_error (fetched rs) =
    fallback_result batch_error rs (add_each o (surroundings o s) s.table_rows rs [])

-- The batch path, and, where it throws, the fallback from an empty map.
unfoldable pub discovered :
    Settings
    → Server
    → Fetched (List MetadataRow)
    → List (Bytes × TableEntry)
    → Fetched (List (Bytes × TableEntry))
discovered o s (fetched rows) ts =
    let schemas = load_all_table_schemas o.none_encoding o.numeric_widen_int64 rows in
    fetched (add_schemas (surroundings o s) schemas ts)
discovered o s (threw batch_error) ts = fallback o s batch_error s.relations

-- What follows the discovery: the connection goes back only if nothing was thrown.
unfoldable pub finish :
    Settings
    → Timing
    → FirebirdConnectionLease
    → FirebirdConnectionPool
    → Fetched (List (Bytes × TableEntry))
    → Exit × SchemaEntry
finish o t lease pool (fetched ts) = (
  returned,
  record {
    loaded = true;
    tables = ts;
    pool = release o.pool_config t.released_at (some lease.conn) pool;
  },
)
finish o t lease pool (threw message) =
    (not_discovered message, record { loaded = false; tables = []; pool = pool })

unfoldable pub with_lease :
    Settings
    → Server
    → Timing
    → SchemaEntry
    → Option FirebirdConnectionLease × FirebirdConnectionPool
    → Exit × SchemaEntry
with_lease o s t e (none, pool) = (not_connected, record e { pool = pool })
with_lease o s t e (some lease, pool) = finish o t lease pool (discovered o s s.all_rows e.tables)

unfoldable pub ensure_tables_loaded : Settings → Server → Timing → SchemaEntry → Exit × SchemaEntry
ensure_tables_loaded o s t e =
    if e.loaded
    then (returned, e)
    else with_lease o s t e
        (acquire_with_info o.pool_config o.password t.acquired_at t.outcome e.pool)

-- `LookupEntry` of a table, once the tables are loaded.
unfoldable pub lookup_entry : Bytes → List (Bytes × TableEntry) → Option TableEntry
lookup_entry name ts = find_table (upper name) ts
