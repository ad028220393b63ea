-- ===== src/Query/Build.antt =====
-- `FirebirdQueryBuilder::Build` of src/firebird_query.cpp: the projection, the loop over the
-- pushed filters, the partition predicate and the ROWS window.
use duckdb_firebird.Common.{
  ℕ, suc, ◌+◌, ◌%◌, ◌^◌, Bool, true, false, ◌&&◌, ◌||◌, not, Option, none, some, List, [], ◌∷◌,
  ◌++◌, map, Bytes, codes, length, take, get_elem?, leb, ◌==◌, is_empty, contains, if◌then◌else◌,
}
use duckdb_firebird.Common.Int.{pos}
use duckdb_firebird.Charset.Transcode.{NoneEncoding, strict}
use duckdb_firebird.Duck.{Value, Duckdb, TableFilter, row_id}
use duckdb_firebird.Firebird.{
  FirebirdColumnDesc, sql_dec16, sql_dec34, sql_text, sql_varying, sql_blob, int_eq,
}
use duckdb_firebird.Sql.{quote_ident}
use duckdb_firebird.Sql.Decimal.{decimal}
use duckdb_firebird.Query.Values.{Outcome}
use duckdb_firebird.Query.Translate.{translate_filter}

unfoldable pub is_decfloat_type : ℕ → Bool
is_decfloat_type sqltype = (sqltype == sql_dec16) || (sqltype == sql_dec34)

abbrev pub is_strict : NoneEncoding → Bool
is_strict strict = true
is_strict _ = false

unfoldable pub is_none_text_column_gated : FirebirdColumnDesc → NoneEncoding → Bool
is_none_text_column_gated desc mode =
    if is_strict mode
    then false
    else if not (int_eq desc.character_set_id (pos 0))
    then false
    else (desc.sqltype == sql_text)
      || (desc.sqltype == sql_varying)
      || ((desc.sqltype == sql_blob) && int_eq desc.sqlsubtype (pos 1))

-- `column_descs && c < column_descs->size()`, and the descriptor then.
unfoldable pub column_desc : Option (List FirebirdColumnDesc) → ℕ → Option FirebirdColumnDesc
column_desc none c = none
column_desc (some descs) c = get_elem? descs c

-- `all_column_names[c]`; out of range, where the source is undefined, the empty name.
abbrev pub column_name : List Bytes → ℕ → Bytes
column_name names c = elim (get_elem? names c) [ none ↦ [] | some name ↦ name ]

unfoldable pub is_decfloat_column : Option (List FirebirdColumnDesc) → ℕ → Bool
is_decfloat_column descs c = elim (column_desc descs c) [
  | none ↦ false
  | some d ↦ is_decfloat_type d.sqltype
]

unfoldable pub is_gated_column : Option (List FirebirdColumnDesc) → NoneEncoding → ℕ → Bool
is_gated_column descs mode c = elim (column_desc descs c) [
  | none ↦ false
  | some d ↦ is_none_text_column_gated d mode
]

-- An entry of the projection.
unfoldable pub select_item : List Bytes → Option (List FirebirdColumnDesc) → ℕ → Bytes
select_item names descs c =
    if c == row_id
    then codes "CAST(NULL AS BIGINT)"
    else if is_decfloat_column descs c
    then codes "CAST(" ++ quote_ident (column_name names c) ++ codes " AS VARCHAR(64))"
    else quote_ident (column_name names c)

-- `filter_col_expr`.
unfoldable pub filter_column : List Bytes → Option (List FirebirdColumnDesc) → ℕ → Bytes
filter_column names descs c =
    if is_decfloat_column descs c
    then codes "CAST(" ++ quote_ident (column_name names c) ++ codes " AS VARCHAR(64))"
    else quote_ident (column_name names c)

-- The loops that write a separator before every part but the first.
unfoldable pub separated : Bytes → List Bytes → Bytes
separated sep [] = []
separated sep (x ∷ []) = x
separated sep (x ∷ y ∷ xs) = x ++ sep ++ separated sep (y ∷ xs)

unfoldable pub projection : List Bytes → Option (List FirebirdColumnDesc) → List ℕ → Bytes
projection names descs [] = codes "*"
projection names descs (c ∷ cs) = separated (codes ", ") (map (select_item names descs) (c ∷ cs))

-- What the loop over the filters has written: `conds`, and the fields of `Result`.
pub record Progress : Type 0 where
  pub conds : List Bytes
  pub residual_filter_indices : List ℕ
  pub residual_filter_reasons : List Bytes
  pub params : List Value
  pub pushed_filter_sql : List Bytes

abbrev pub nothing_pushed : Progress
nothing_pushed = record {
  conds = [];
  residual_filter_indices = [];
  residual_filter_reasons = [];
  params = [];
  pushed_filter_sql = [];
}

abbrev pub residual : ℕ → Bytes → Progress → Progress
residual i reason r = record {
  conds = r.conds;
  residual_filter_indices = r.residual_filter_indices ++ i ∷ [];
  residual_filter_reasons = r.residual_filter_reasons ++ reason ∷ [];
  params = r.params;
  pushed_filter_sql = r.pushed_filter_sql;
}

-- After `TranslateFilter`: the fragment is pushed, or the parameters are resized to what they were.
unfoldable pub take_outcome : ℕ → Outcome → Progress → Progress
take_outcome i outcome r = elim outcome.fragment [
  | some frag ↦ record {
    conds = r.conds ++ (codes "(" ++ frag ++ codes ")") ∷ [];
    residual_filter_indices = r.residual_filter_indices;
    residual_filter_reasons = r.residual_filter_reasons;
    params = outcome.params;
    pushed_filter_sql = r.pushed_filter_sql ++ frag ∷ [];
  }
  | none ↦ record {
    conds = r.conds;
    residual_filter_indices = r.residual_filter_indices ++ i ∷ [];
    residual_filter_reasons = r.residual_filter_reasons ++ codes "UNSUPPORTED_OP" ∷ [];
    params = take (length r.params) outcome.params;
    pushed_filter_sql = r.pushed_filter_sql;
  }
]

-- The arguments of `Build` that the loop over the filters reads.
pub record Scan : Type 0 where
  pub table_name : Bytes
  pub all_column_names : List Bytes
  pub column_ids : List ℕ
  pub column_descs : Option (List FirebirdColumnDesc)
  pub none_encoding : NoneEncoding

-- One turn of the loop: the filter on the projected column, with its index.
unfoldable pub push_filter : Duckdb → Scan → ℕ → ℕ → TableFilter → Progress → Progress
push_filter db q i projected f r = elim (get_elem? q.column_ids projected) [
  | none ↦ residual i (codes "UNSUPPORTED_PROJECTION_MAPPING") r
  | some c ↦
      if (c == row_id) || leb (length q.all_column_names) c
      then residual i (codes "ROWID_OR_INVALID_COLUMN") r
      else if is_gated_column q.column_descs q.none_encoding c
      then residual i (codes "NONE_CHARSET") r
      else take_outcome i
          (translate_filter db (filter_column q.all_column_names q.column_descs c) f r.params) r
]

unfoldable pub push_filters : Duckdb → Scan → ℕ → List (ℕ × TableFilter) → Progress → Progress
push_filters db q i [] r = r
push_filters db q i ((projected, f) ∷ fs) r =
    push_filters db q (suc i) fs (push_filter db q i projected f r)

abbrev pub where_clause : List Bytes → Bytes
where_clause [] = []
where_clause (c ∷ cs) = codes " WHERE " ++ separated (codes " AND ") (c ∷ cs)

-- The partition predicate, glued to the text so far.
unfoldable pub with_predicate : Bytes → Bytes → Bytes
with_predicate sql extra =
    if is_empty extra
    then sql
    else sql
      ++ (if contains (codes " WHERE ") sql then codes " AND " else codes " WHERE ")
      ++ codes "("
      ++ extra
      ++ codes ")"

-- `start` and `end` of the window, on 64-bit numbers.
unfoldable pub rows_bounds : ℕ → ℕ → ℕ × ℕ
rows_bounds offset limit = ((offset + 1) % 2 ^ 64, (offset + limit) % 2 ^ 64)

-- `ORDER BY … ROWS …`.
unfoldable pub rows_clause : Option ℕ → Option ℕ → Bytes → Bytes
rows_clause none offset order_by = []
rows_clause (some limit) none order_by =
    codes " ORDER BY " ++ order_by ++ codes " ROWS " ++ decimal limit
rows_clause (some limit) (some offset) order_by =
    codes " ORDER BY "
    ++ order_by
    ++ codes " ROWS "
    ++ decimal (rows_bounds offset limit).0
    ++ codes " TO "
    ++ decimal (rows_bounds offset limit).1

pub record Result : Type 0 where
  pub sql : Bytes
  pub progress : Progress

-- `Build`; a missing filter set and an empty one are the empty list.
unfoldable pub build :
    Duckdb → Scan → List (ℕ × TableFilter) → Bytes → Option ℕ → Option ℕ → Bytes → Result
build db q filters extra limit offset order_by =
    let r = push_filters db q 0 filters nothing_pushed in
    let selected =
      codes "SELECT "
      ++ projection q.all_column_names q.column_descs q.column_ids
      ++ codes " FROM "
      ++ quote_ident q.table_name in
    record {
      sql =
          with_predicate (selected ++ where_clause r.conds) extra
          ++ rows_clause limit offset order_by;
      progress = r;
    }
