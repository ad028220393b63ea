-- ===== src/Schema.antt =====
-- The metadata of a table in src/firebird_scanner.cpp: `LoadTableSchema`, `LoadAllTableSchemas` and
-- `ProbePrimaryKey`. The rows of the server's answers are arguments.
pub mod Grouping
pub mod Key
use duckdb_firebird.Common.{
  ℕ, Bool, true, false, not, ◌&&◌, ◌||◌, Option, none, some, List, [], ◌∷◌, ◌++◌, map, Bytes, codes,
  is_empty, upper, str_eq, get_elem?, ◌==◌, if◌then◌else◌, ◌>>=◌, ◌+◌,
}
use duckdb_firebird.Common.Int.{ℤ, ltb_ℤ}
use duckdb_firebird.Charset.Transcode.{NoneEncoding}
use duckdb_firebird.Duck.{LogicalType, smallint, integer, bigint}
use duckdb_firebird.Firebird.{FirebirdColumnDesc, sql_short, sql_long, sql_int64}
use duckdb_firebird.Sql.{quote_ident, sql_literal}
use duckdb_firebird.Types.{map_firebird_column}
use duckdb_firebird.Opening.Statement.{PrimaryKeyInfo}

-- A row of the query on RDB$RELATION_FIELDS; `relation` and `is_view` are those of
-- `LoadAllTableSchemas`.
pub record MetadataRow : Type 0 where
  pub relation : Bytes
  pub field_name : Bytes
  pub field_type : ℕ
  pub sub_type : ℤ
  pub scale : ℤ
  pub field_length : ℤ
  pub charset_id : ℤ
  pub null_flag : ℤ
  pub view : Bool

-- `out_names`, `out_types` and `out_descs`.
pub record Columns : Type 0 where
  pub names : List Bytes
  pub types : List LogicalType
  pub descs : List FirebirdColumnDesc

abbrev pub no_columns : Columns
no_columns = record { names = []; types = []; descs = [] }

-- The three `push_back`s.
unfoldable pub add_column : NoneEncoding → Bool → MetadataRow → Columns → Columns
add_column mode widen r c =
    let (desc, type) =
      map_firebird_column r.field_name r.field_type r.sub_type r.scale r.field_length r.charset_id
        r.null_flag mode widen in
    record {
      names = c.names ++ desc.name ∷ [];
      types = c.types ++ type ∷ [];
      descs = c.descs ++ desc ∷ [];
    }

unfoldable pub add_columns : NoneEncoding → Bool → List MetadataRow → Columns → Columns
add_columns mode widen [] c = c
add_columns mode widen (r ∷ rs) c = add_columns mode widen rs (add_column mode widen r c)

unfoldable pub table_schema_query : Bytes → Bytes
table_schema_query table_name =
    codes "SELECT TRIM(rf.RDB$FIELD_NAME), "
    ++ codes "       f.RDB$FIELD_TYPE, "
    ++ codes "       COALESCE(f.RDB$FIELD_SUB_TYPE, 0), "
    ++ codes "       COALESCE(f.RDB$FIELD_SCALE, 0), "
    ++ codes "       COALESCE(f.RDB$FIELD_LENGTH, 0), "
    ++ codes "       COALESCE(f.RDB$CHARACTER_SET_ID, -1), "
    ++ codes "       COALESCE(rf.RDB$NULL_FLAG, f.RDB$NULL_FLAG, 0) "
    ++ codes "  FROM RDB$RELATION_FIELDS rf "
    ++ codes "  JOIN RDB$FIELDS f ON f.RDB$FIELD_NAME = rf.RDB$FIELD_SOURCE "
    ++ codes " WHERE rf.RDB$RELATION_NAME = "
    ++ sql_literal (upper table_name)
    ++ codes " "
    ++ codes " ORDER BY rf.RDB$FIELD_POSITION"

-- What `LoadTableSchema` makes of the rows of its query; none where it throws.
unfoldable pub schema_of_rows : NoneEncoding → Bool → List MetadataRow → Option Columns
schema_of_rows mode widen rows =
    let c = add_columns mode widen rows no_columns in
    elim c.names [ [] ↦ none | name ∷ names ↦ some c ]

-- `LoadTableSchema`; `server` gives the rows of RDB$RELATION_FIELDS for the name of a relation, and
-- the query has the name in upper case.
unfoldable pub load_table_schema :
    NoneEncoding → Bool → (Bytes → List MetadataRow) → Bytes → Option Columns
load_table_schema mode widen server table_name =
    schema_of_rows mode widen (server (upper table_name))

pub record FirebirdTableSchema : Type 0 where
  pub table_name : Bytes
  pub is_view : Bool
  pub columns : Columns

abbrev pub new_schema : NoneEncoding → Bool → MetadataRow → FirebirdTableSchema
new_schema mode widen r = record {
  table_name = r.relation;
  is_view = r.view;
  columns = add_column mode widen r no_columns;
}

-- One turn of the loop; `current` is the last schema, if there is one.
unfoldable pub add_row :
    NoneEncoding → Bool → MetadataRow → List FirebirdTableSchema → List FirebirdTableSchema
add_row mode widen r [] = new_schema mode widen r ∷ []
add_row mode widen r (s ∷ []) =
    if str_eq s.table_name r.relation
    then record s { columns = add_column mode widen r s.columns } ∷ []
    else s ∷ new_schema mode widen r ∷ []
add_row mode widen r (s ∷ t ∷ ss) = s ∷ add_row mode widen r (t ∷ ss)

unfoldable pub add_rows :
    NoneEncoding → Bool → List MetadataRow → List FirebirdTableSchema → List FirebirdTableSchema
add_rows mode widen [] result = result
add_rows mode widen (r ∷ rs) result = add_rows mode widen rs (add_row mode widen r result)

unfoldable pub load_all_table_schemas :
    NoneEncoding → Bool → List MetadataRow → List FirebirdTableSchema
load_all_table_schemas mode widen rows = add_rows mode widen rows []

-- A row of MIN and MAX: the type of the first column, and the values, where they are not NULL.
pub record KeyRange : Type 0 where
  pub sqltype : ℕ
  pub min_value : Option ℤ
  pub max_value : Option ℤ

-- The answers to the queries of `ProbePrimaryKey`; a missing one stands for a query that throws, and
-- a missing row is none too.
pub record KeyAnswers : Type 0 where
  pub pk_index : Option Bytes
  pub pk_cols : Option (List Bytes)
  pub key_range : Option KeyRange

unfoldable pub key_index_query : Bytes → Bytes
key_index_query table =
    codes "SELECT TRIM(ri.RDB$INDEX_NAME) "
    ++ codes "  FROM RDB$INDICES ri "
    ++ codes "  JOIN RDB$RELATION_CONSTRAINTS rc ON ri.RDB$INDEX_NAME = rc.RDB$INDEX_NAME "
    ++ codes " WHERE ri.RDB$RELATION_NAME = "
    ++ sql_literal (upper table)
    ++ codes " "
    ++ codes "   AND rc.RDB$CONSTRAINT_TYPE = 'PRIMARY KEY'"

unfoldable pub key_columns_query : Bytes → Bytes
key_columns_query pk_index =
    codes "SELECT TRIM(seg.RDB$FIELD_NAME) "
    ++ codes "  FROM RDB$INDEX_SEGMENTS seg "
    ++ codes " WHERE seg.RDB$INDEX_NAME = "
    ++ sql_literal pk_index
    ++ codes " "
    ++ codes " ORDER BY seg.RDB$FIELD_POSITION"

unfoldable pub key_range_query : Bytes → Bytes → Bytes
key_range_query table pk_name =
    codes "SELECT MIN("
    ++ quote_ident pk_name
    ++ codes "), "
    ++ codes "       MAX("
    ++ quote_ident pk_name
    ++ codes ") "
    ++ codes "  FROM "
    ++ quote_ident table

-- The only column of a key.
abbrev pub single : List Bytes → Option Bytes
single (name ∷ []) = some name
single _ = none

-- `std::find` in the names, and the type at that index.
unfoldable pub find_type : List Bytes → List LogicalType → Bytes → Option LogicalType
find_type (n ∷ ns) (t ∷ ts) name = if str_eq n name then some t else find_type ns ts name
find_type _ _ name = none

unfoldable pub is_key_type : LogicalType → Bool
is_key_type smallint = true
is_key_type integer = true
is_key_type bigint = true
is_key_type _ = false

abbrev pub is_key_sqltype : ℕ → Bool
is_key_sqltype n = (n == sql_short) || (n == sql_long) || (n == sql_int64)

-- The bounds of the last query, unless there is at most one row.
unfoldable pub key_bounds : Bytes → KeyRange → Option PrimaryKeyInfo
key_bounds name r = r.min_value >>= λ lo. r.max_value >>= λ hi.
    if is_key_sqltype r.sqltype && ltb_ℤ lo hi
    then some (record { column = name; min_value = lo; max_value = hi })
    else none

unfoldable pub probe_primary_key :
    List Bytes → List LogicalType → KeyAnswers → Option PrimaryKeyInfo
probe_primary_key names types answers = do
  index ← answers.pk_index
  pk_cols ← answers.pk_cols
  name ← single pk_cols
  type ← find_type names types name
  range ← if is_key_type type then answers.key_range else none
  key_bounds name range
