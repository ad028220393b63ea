-- ===== src/Dbt.antt =====
-- src/firebird_dbt_sources.cpp: `YamlQuote`, and `BuildSourcesYaml` on the rows of the server. The text
-- that DuckDB's `LogicalType::ToString` gives is an argument.
pub mod Scalars
use duckdb_firebird.Common.{
  ℕ, ◌+◌, ◌/◌, ◌%◌, Bool, true, false, not, ◌&&◌, Option, none, some, List, [], ◌∷◌, ◌++◌, Bytes,
  codes, is_empty, str_eq, ltb, ◌==◌, if◌then◌else◌, ◌>>=◌,
}
use duckdb_firebird.Charset.Transcode.{NoneEncoding}
use duckdb_firebird.Duck.{LogicalType}
use duckdb_firebird.Schema.{MetadataRow, Columns, load_table_schema}

-- A digit of `%02X`.
abbrev pub hex_digit : ℕ → ℕ
hex_digit n = if ltb n 10 then 48 + n else 55 + n

-- What the loop of `YamlQuote` writes for a byte.
unfoldable pub yaml_escape : ℕ → Bytes
yaml_escape c =
    if c == b'\\'
    then b'\\' ∷ b'\\' ∷ []
    else if c == b'"'
    then b'\\' ∷ b'"' ∷ []
    else if c == 10
    then b'\\' ∷ b'n' ∷ []
    else if c == 13
    then b'\\' ∷ b'r' ∷ []
    else if c == 9
    then b'\\' ∷ b't' ∷ []
    else if ltb c 0x20
    then b'\\' ∷ b'x' ∷ hex_digit (c / 16) ∷ hex_digit (c % 16) ∷ []
    else c ∷ []

unfoldable pub yaml_body : Bytes → Bytes
yaml_body [] = []
yaml_body (c ∷ s) = yaml_escape c ++ yaml_body s

unfoldable pub yaml_quote : Bytes → Bytes
yaml_quote s = b'"' ∷ yaml_body s ++ b'"' ∷ []

pub record ColumnMeta : Type 0 where
  pub name : Bytes
  pub type : LogicalType
  pub is_pk : Bool

pub record TableMeta : Type 0 where
  pub name : Bytes
  pub columns : List ColumnMeta

-- A row of `ListUserTables`; the key is empty where there is no key of one column.
pub record TableListRow : Type 0 where
  pub table_name : Bytes
  pub pk_column : Bytes

-- The loop over the columns of a table.
unfoldable pub column_metas : Bytes → List Bytes → List LogicalType → List ColumnMeta
column_metas pk (n ∷ ns) (t ∷ ts) =
    record { name = n; type = t; is_pk = not (is_empty pk) && str_eq pk n } ∷ column_metas pk ns ts
column_metas pk _ _ = []

-- `CollectTableMetadata`; none where the columns of a table do not load.
unfoldable pub collect_table_metadata :
    NoneEncoding → (Bytes → List MetadataRow) → List TableListRow → Option (List TableMeta)
collect_table_metadata mode rows [] = some []
collect_table_metadata mode rows (r ∷ rs) = do
  c ← load_table_schema mode false rows r.table_name
  rest ← collect_table_metadata mode rows rs
  some (record { name = r.table_name; columns = column_metas r.pk_column c.names c.types } ∷ rest)

abbrev newline : Bytes
newline = 10 ∷ []

abbrev no_description : Bytes
no_description = codes "description: \"\"" ++ newline

abbrev tests_of : Bool → Bytes
tests_of false = []
tests_of true =
    codes "            tests:"
    ++ newline
    ++ codes "              - not_null"
    ++ newline
    ++ codes "              - unique"
    ++ newline

unfoldable pub columns_yaml : (LogicalType → Bytes) → List ColumnMeta → Bytes
columns_yaml to_string [] = []
columns_yaml to_string (c ∷ cs) =
    codes "          - name: "
    ++ yaml_quote c.name
    ++ newline
    ++ codes "            data_type: "
    ++ yaml_quote (to_string c.type)
    ++ newline
    ++ codes "            "
    ++ no_description
    ++ tests_of c.is_pk
    ++ columns_yaml to_string cs

unfoldable pub table_columns_yaml : (LogicalType → Bytes) → List ColumnMeta → Bytes
table_columns_yaml to_string [] = codes "        columns: []" ++ newline
table_columns_yaml to_string (c ∷ cs) =
    codes "        columns:" ++ newline ++ columns_yaml to_string (c ∷ cs)

unfoldable pub tables_yaml : (LogicalType → Bytes) → List TableMeta → Bytes
tables_yaml to_string [] = []
tables_yaml to_string (t ∷ ts) =
    codes "      - name: "
    ++ yaml_quote t.name
    ++ newline
    ++ codes "        "
    ++ no_description
    ++ table_columns_yaml to_string t.columns
    ++ tables_yaml to_string ts

unfoldable pub list_yaml : (LogicalType → Bytes) → List TableMeta → Bytes
list_yaml to_string [] = codes "      []" ++ newline
list_yaml to_string (t ∷ ts) = tables_yaml to_string (t ∷ ts)

unfoldable pub sources_yaml : (LogicalType → Bytes) → Bytes → List TableMeta → Bytes
sources_yaml to_string catalog ts =
    codes "version: 2"
    ++ newline
    ++ newline
    ++ codes "sources:"
    ++ newline
    ++ codes "  - name: "
    ++ yaml_quote catalog
    ++ newline
    ++ codes "    schema: "
    ++ yaml_quote (codes "main")
    ++ newline
    ++ codes "    "
    ++ no_description
    ++ codes "    tables:"
    ++ newline
    ++ list_yaml to_string ts

-- `BuildSourcesYaml`.
unfoldable pub build_sources_yaml :
    (LogicalType → Bytes)
    → NoneEncoding
    → (Bytes → List MetadataRow)
    → Bytes
    → List TableListRow
    → Option Bytes
build_sources_yaml to_string mode rows catalog listed =
    collect_table_metadata mode rows listed >>= λ ts. some (sources_yaml to_string catalog ts)
