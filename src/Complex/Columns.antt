-- ===== src/Complex/Columns.antt =====
-- The columns that `FirebirdScanPushdownComplexFilter` of src/firebird_scanner.cpp pushes a filter
-- on: its lambdas, `FirebirdScanSupportsPushdownType`, and the helpers on CHARACTER SET NONE.
use duckdb_firebird.Common.{
  ℕ, Bool, true, false, not, ◌&&◌, ◌||◌, Option, none, some, List, [], ◌++◌, Bytes, codes, length,
  get_elem?, leb, ◌==◌, if◌then◌else◌, ◌>>=◌,
}
use duckdb_firebird.Common.Int.{pos}
use duckdb_firebird.Charset.Transcode.{NoneEncoding, strict, win1252, iso_8859_1}
use duckdb_firebird.Duck.{row_id}
use duckdb_firebird.Firebird.{
  FirebirdColumnDesc, sql_dec16, sql_dec34, sql_text, sql_varying, sql_blob, int_eq,
}
use duckdb_firebird.Sql.{quote_ident}

-- The fields of `FirebirdBindData` that the pushdown reads.
pub record BoundColumns : Type 0 where
  pub column_names : List Bytes
  pub column_descs : List FirebirdColumnDesc
  pub none_encoding : NoneEncoding
  pub none_pushdown : Bool

abbrev is_mode_strict : NoneEncoding → Bool
is_mode_strict strict = true
is_mode_strict _ = false

abbrev pub is_single_byte : NoneEncoding → Bool
is_single_byte win1252 = true
is_single_byte iso_8859_1 = true
is_single_byte _ = false

-- `is_text_or_text_blob`.
unfoldable pub is_text_or_text_blob : FirebirdColumnDesc → Bool
is_text_or_text_blob desc =
    (desc.sqltype == sql_text)
    || (desc.sqltype == sql_varying)
    || ((desc.sqltype == sql_blob) && int_eq desc.sqlsubtype (pos 1))

unfoldable pub firebird_scan_supports_pushdown_type : BoundColumns → ℕ → Bool
firebird_scan_supports_pushdown_type bind c = elim (get_elem? bind.column_descs c) [
  | none ↦ true
  | some desc ↦
      if is_mode_strict bind.none_encoding
      then true
      else if not (int_eq desc.character_set_id (pos 0))
      then true
      else not (is_text_or_text_blob desc)
]

unfoldable pub none_pushdown_active : BoundColumns → Bool
none_pushdown_active bind =
    if not bind.none_pushdown then false else is_single_byte bind.none_encoding

unfoldable pub none_pushdown_introducer : NoneEncoding → Bytes
none_pushdown_introducer iso_8859_1 = codes "_ISO8859_1 "
none_pushdown_introducer _ = codes "_WIN1252 "

unfoldable pub is_none_char_varchar_column : FirebirdColumnDesc → Bool
is_none_char_varchar_column desc =
    int_eq desc.character_set_id (pos 0)
    && ((desc.sqltype == sql_text) || (desc.sqltype == sql_varying))

-- `resolve_src_col`: the source column of a projected one.
unfoldable pub resolve_src_col : BoundColumns → List ℕ → ℕ → Option ℕ
resolve_src_col bind col_ids projected = do
  src ← get_elem? col_ids projected
  if (src == row_id) || leb (length bind.column_names) src then none else some src

-- `is_none_text_gated`.
unfoldable pub is_none_text_gated : BoundColumns → ℕ → Bool
is_none_text_gated bind src = elim (get_elem? bind.column_descs src) [
  | none ↦ false
  | some desc ↦
      if is_mode_strict bind.none_encoding
      then false
      else if not (int_eq desc.character_set_id (pos 0))
      then false
      else is_text_or_text_blob desc
]

-- `is_decfloat`.
unfoldable pub is_decfloat : BoundColumns → ℕ → Bool
is_decfloat bind src = elim (get_elem? bind.column_descs src) [
  | none ↦ false
  | some desc ↦ (desc.sqltype == sql_dec16) || (desc.sqltype == sql_dec34)
]

-- `bind.column_names[src]`; a resolved column is in range.
abbrev pub source_name : BoundColumns → ℕ → Bytes
source_name bind src = elim (get_elem? bind.column_names src) [ none ↦ [] | some name ↦ name ]

-- `col_expr`.
unfoldable pub col_expr : BoundColumns → ℕ → Bytes
col_expr bind src =
    if is_decfloat bind src
    then codes "CAST(" ++ quote_ident (source_name bind src) ++ codes " AS VARCHAR(64))"
    else quote_ident (source_name bind src)
