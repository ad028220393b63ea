-- ===== src/Tests/Catalog.antt =====
-- The theorems on the ATTACH catalog (src/firebird_storage.cpp) and on the types of views
-- (src/firebird_view_analysis.cpp), applied to concrete answers of the server.
use duckdb_firebird.Common.{
  ◌≡◌, refl, true, false, none, some, List, [], ◌∷◌, Bytes, codes, map, upper, str_eq,
  if◌then◌else◌,
}
use duckdb_firebird.Common.Int.{pos, negsuc}
use duckdb_firebird.Charset.Transcode.{win1252}
use duckdb_firebird.Duck.{integer}
use duckdb_firebird.Firebird.{FirebirdColumnDesc}
use duckdb_firebird.Pool.{attached, new_pool}
use duckdb_firebird.Schema.{MetadataRow, Columns, no_columns, FirebirdTableSchema, KeyAnswers}
use duckdb_firebird.Schema.Grouping.{Block, rows_of}
use duckdb_firebird.View.Reconcile.{ViewAnswers, unconfirmed, reconcile_view_column_types}
use duckdb_firebird.View.Described.{IsReconciled, reconcile_view_column_types-IsReconciled}
use duckdb_firebird.Binding.{◌>>=◌, seeded, set_parameters, is_accepted_charset}
use duckdb_firebird.Catalog.{
  KeyRow, ForeignKeyRow, unique_keys, foreign_keys, load_unique_constraints, load_foreign_keys,
}
use duckdb_firebird.Catalog.Grouping as Constraints
use duckdb_firebird.Catalog.Grouping.{Rows, constraints_of, load_constraints-each}
use duckdb_firebird.Catalog.Entry.{Surroundings, TableEntry}
use duckdb_firebird.Catalog.Discovery.{
  fetched, threw, Server, Settings, Timing, SchemaEntry, add_schemas, lookup_entry, fallback,
  discovered, ensure_tables_loaded,
}
use duckdb_firebird.Catalog.Outcomes.{Ended, ensure_tables_loaded-Ended}
use duckdb_firebird.Catalog.Lookup.{entry_of, first_named, lookup_entry-first_named}
use duckdb_firebird.Catalog.Paths.{relation_of, fallback-discovered}
use duckdb_firebird.Catalog.Access.{
  KeyCache, get_scan_function, IsMemoised, get_scan_function-IsMemoised,
}
use duckdb_firebird.Catalog.Attach.{
  AttachOption, user, charset, none_encoding, build_connection_info,
}
use duckdb_firebird.Catalog.Options.{parameter_of, mapped, build_connection_info-set_parameters}

abbrev key_row : Bytes → Bytes → KeyRow
key_row constraint field = record {
  relation = codes "A";
  constraint = constraint;
  constraint_type = codes "PRIMARY KEY";
  field = field;
}

abbrev fk_row : ForeignKeyRow
fk_row = record {
  relation = codes "A";
  constraint = codes "FK";
  pk_table = codes "B";
  fk_field = codes "B_ID";
  pk_field = codes "ID";
}

same_relation : str_eq (codes "A") (codes "A") ≡ true
unfolding str_eq
same_relation = refl

other_relation : str_eq (codes "A") (codes "B") ≡ false
unfolding str_eq
other_relation = refl

same_key : str_eq (codes "PK") (codes "PK") ≡ true
unfolding str_eq
same_key = refl

same_foreign_key : str_eq (codes "FK") (codes "FK") ≡ true
unfolding str_eq
same_foreign_key = refl

abbrev key_blocks : List (Rows unique_keys)
key_blocks =
    record {
      first = key_row (codes "PK") (codes "ID");
      others = key_row (codes "PK") (codes "N") ∷ [];
      named = (same_relation, same_key);
      together = ((same_relation, same_key), tt);
    }
    ∷ []

abbrev fk_blocks : List (Rows foreign_keys)
fk_blocks =
    record { first = fk_row; others = []; named = (same_relation, same_foreign_key); together = tt }
    ∷ []

load_constraints-each_example :
    (load_unique_constraints (Constraints.rows_of unique_keys key_blocks) (codes "A")
      ≡ constraints_of unique_keys (codes "A") key_blocks)
    × (load_foreign_keys (Constraints.rows_of foreign_keys fk_blocks) (codes "A")
        ≡ constraints_of foreign_keys (codes "A") fk_blocks)
unfolding str_eq
load_constraints-each_example =
    load_constraints-each key_blocks fk_blocks (codes "A") (refl, tt) (refl, tt)

abbrev described : FirebirdColumnDesc
described = record {
  name = codes "TOTAL";
  sqltype = 580;
  sqlsubtype = pos 0;
  sqlscale = pos 0;
  sqllen = pos 8;
  character_set_id = pos 4;
  nullable = true;
}

abbrev view_columns : Columns
view_columns = record { names = codes "TOTAL" ∷ []; types = integer ∷ []; descs = described ∷ [] }

abbrev view_answers : ViewAnswers
view_answers = record { object_type = unconfirmed; live_cols = some (described ∷ []) }

reconcile_view_column_types-IsReconciled_example :
    IsReconciled false view_columns (reconcile_view_column_types false view_answers view_columns).1
reconcile_view_column_types-IsReconciled_example =
    reconcile_view_column_types-IsReconciled false view_answers view_columns refl

abbrev metadata : Bytes → Bytes → MetadataRow
metadata relation name = record {
  relation = relation;
  field_name = name;
  field_type = 8;
  sub_type = pos 0;
  scale = pos 0;
  field_length = pos 4;
  charset_id = negsuc 0;
  null_flag = pos 0;
  view = false;
}

abbrev tables : List Block
tables =
    record {
      first = metadata (codes "A") (codes "ID");
      others = metadata (codes "A") (codes "N") ∷ [];
      together = (same_relation, tt);
    }
    ∷ record { first = metadata (codes "B") (codes "ID"); others = []; together = tt }
    ∷ []

abbrev server : Server
server = record {
  key_rows = threw (codes "no access");
  foreign_key_rows = fetched (fk_row ∷ []);
  all_rows = threw (codes "too old");
  relations = threw (codes "gone");
  table_rows = λ name.
      if str_eq (codes "A") name
      then fetched (metadata (codes "A") (codes "ID") ∷ metadata (codes "A") (codes "N") ∷ [])
      else fetched (metadata (codes "B") (codes "ID") ∷ []);
  view_answers = λ name. view_answers;
}

abbrev settings : Settings
settings = record {
  none_encoding = win1252;
  numeric_widen_int64 = false;
  pool_config = record { enabled = true; max_size = pos 2; idle_timeout_ms = pos 0 };
  password = codes "pw";
}

abbrev fresh : SchemaEntry
fresh = record { loaded = false; tables = []; pool = new_pool }

abbrev timing : Timing
timing = record { acquired_at = 1; released_at = 2; outcome = attached 7 }

ensure_tables_loaded-Ended_example : Ended fresh (ensure_tables_loaded settings server timing fresh)
ensure_tables_loaded-Ended_example = ensure_tables_loaded-Ended settings server timing fresh

answered_a :
    server.table_rows (codes "A")
    ≡ fetched (metadata (codes "A") (codes "ID") ∷ metadata (codes "A") (codes "N") ∷ [])
unfolding str_eq
answered_a = refl

answered_b : server.table_rows (codes "B") ≡ fetched (metadata (codes "B") (codes "ID") ∷ [])
unfolding str_eq
answered_b = refl

fallback-discovered_example :
    fallback settings server (codes "too old") (fetched (map relation_of tables))
    ≡ discovered settings server (fetched (rows_of tables)) []
fallback-discovered_example =
    fallback-discovered settings server (codes "too old") tables (other_relation, tt)
      (answered_a, (answered_b, tt))

abbrev surroundings : Surroundings
surroundings = record {
  unique_keys = λ rel. [];
  fkeys = λ rel. [];
  view_answers = λ rel. view_answers;
  numeric_widen_int64 = false;
}

abbrev schemas : List FirebirdTableSchema
schemas =
    record { table_name = codes "EMPTY"; is_view = false; columns = no_columns }
    ∷ record { table_name = codes "Total"; is_view = true; columns = view_columns }
    ∷ []

lookup_entry-first_named_example :
    lookup_entry (codes "total") (add_schemas surroundings schemas [])
    ≡ first_named surroundings (upper (codes "total")) schemas
lookup_entry-first_named_example = lookup_entry-first_named surroundings (codes "total") schemas

abbrev total : TableEntry
total =
    entry_of surroundings
      (record { table_name = codes "TOTAL"; is_view = false; columns = view_columns })

abbrev total_key : KeyAnswers
total_key = record {
  pk_index = some (codes "PK");
  pk_cols = some (codes "TOTAL" ∷ []);
  key_range = some (record { sqltype = 496; min_value = some (pos 1); max_value = some (pos 9) });
}

abbrev unprobed : KeyCache
unprobed = record { pk_loaded = false; pk_cache = none; pool = new_pool }

get_scan_function-IsMemoised_example :
    IsMemoised settings total unprobed (get_scan_function settings timing total total_key unprobed)
get_scan_function-IsMemoised_example =
    get_scan_function-IsMemoised settings timing total total_key unprobed

abbrev options : List AttachOption
options = user (codes "APP") ∷ charset (codes "utf8") ∷ none_encoding (codes "latin1") ∷ []

accepted : is_accepted_charset (codes "utf8") ≡ true
unfolding is_accepted_charset str_eq
accepted = refl

build_connection_info-set_parameters_example :
    (seeded (codes "db.fdb") (codes "A") >>= set_parameters (map parameter_of options))
    ≡ mapped (codes "A") (build_connection_info (codes "db.fdb") options)
build_connection_info-set_parameters_example =
    build_connection_info-set_parameters (codes "db.fdb") (codes "A") options
      (tt, (accepted, (tt, tt)))
