-- ===== src/Complex/Pushdown.antt =====
-- `FirebirdScanPushdownComplexFilter` of src/firebird_scanner.cpp. A block of the loop is a function
-- from the filter to what it does with it.
use duckdb_firebird.Common.{
  ℕ, Bool, true, false, not, Option, none, some, List, [], ◌∷◌, ◌++◌, map, Bytes, codes, get_elem?,
  if◌then◌else◌, ◌>>=◌,
}
use duckdb_firebird.Charset.Transcode.{NoneEncoding}
use duckdb_firebird.Charset.Literal.{try_encode_none_literal}
use duckdb_firebird.Duck.{Value, Expression}
use duckdb_firebird.Sql.{quote_ident, sql_literal}
use duckdb_firebird.Query.Build.{separated}
use duckdb_firebird.Complex.Matchers.{
  try_extract_like_prefix, try_extract_not_in, try_extract_not_bool_column, try_extract_equality,
  try_extract_in_list,
}
use duckdb_firebird.Complex.Columns.{
  BoundColumns, none_pushdown_active, none_pushdown_introducer, is_none_char_varchar_column,
  resolve_src_col, is_none_text_gated, is_decfloat, source_name, col_expr,
}

pub record ExtraPredicate : Type 0 where
  pub sql : Bytes
  pub params : List Value

-- The fields of `FirebirdBindData` that the pushdown writes.
pub record Lifted : Type 0 where
  pub extra_predicates : List ExtraPredicate
  pub gated_complex_reasons : List Bytes

-- What a block does with a filter: it goes on to the next block, keeps the filter and may record a
-- reason, or erases it for a predicate.
pub data Verdict : Type 0 where
  unmatched : Verdict
  kept : Option Bytes → Verdict
  pushed : ExtraPredicate → Verdict

abbrev pub gated : Verdict
gated = kept (some (codes "NONE_CHARSET"))

-- `ep` of each block.
abbrev pub like_predicate : BoundColumns → ℕ → Bytes → ExtraPredicate
like_predicate bind src pattern = record {
  sql = col_expr bind src ++ codes " LIKE " ++ sql_literal pattern ++ codes " ESCAPE '\\'";
  params = [];
}

abbrev pub not_in_predicate : BoundColumns → ℕ → List Value → ExtraPredicate
not_in_predicate bind src values = record {
  sql =
      col_expr bind src
      ++ codes " NOT IN ("
      ++ separated (codes ", ") (map (λ v. codes "?") values)
      ++ codes ")";
  params = values;
}

abbrev pub not_predicate : BoundColumns → ℕ → ExtraPredicate
not_predicate bind src = record {
  sql = codes "NOT " ++ quote_ident (source_name bind src);
  params = [];
}

-- The block of `LIKE 'prefix%'`.
unfoldable pub like_block : BoundColumns → List ℕ → Expression → Verdict
like_block bind col_ids e = elim (try_extract_like_prefix e) [
  | none ↦ unmatched
  | some (projected, pattern) ↦ elim (resolve_src_col bind col_ids projected) [
    | none ↦ kept none
    | some src ↦
        if is_none_text_gated bind src then gated else pushed (like_predicate bind src pattern)
  ]
]

-- The loop that re-encodes the literals and stops at the first that cannot be.
unfoldable pub encode_all : NoneEncoding → List Bytes → Option (List Bytes)
encode_all mode [] = some []
encode_all mode (v ∷ vs) = do
  bytes ← try_encode_none_literal v mode
  rest ← encode_all mode vs
  some (bytes ∷ rest)

-- The text of an equality, or of an IN, on the re-encoded literals.
unfoldable pub encoded_predicate : NoneEncoding → Bool → Bytes → List Bytes → Bytes
encoded_predicate mode true column encoded =
    column
    ++ codes " IN ("
    ++ separated (codes ", ")
        (map (λ bytes. none_pushdown_introducer mode ++ sql_literal bytes) encoded)
    ++ codes ")"
encoded_predicate mode false column [] = []
encoded_predicate mode false column (bytes ∷ _) =
    column ++ codes " = " ++ none_pushdown_introducer mode ++ sql_literal bytes

abbrev pub values_predicate : BoundColumns → Bool → ℕ → List Bytes → ExtraPredicate
values_predicate bind is_in src encoded = record {
  sql = encoded_predicate bind.none_encoding is_in (col_expr bind src) encoded;
  params = [];
}

-- `is_in`, the projected column and the literals, where `matched`.
unfoldable pub match_values : Expression → Option (Bool × ℕ × List Bytes)
match_values e = elim (try_extract_in_list e) [
  | some (projected, values) ↦ some (true, projected, values)
  | none ↦ do (projected, value) ← try_extract_equality e; some (false, projected, value ∷ [])
]

-- The rest of the block for a source column.
unfoldable pub push_values : BoundColumns → Bool → ℕ → List Bytes → Verdict
push_values bind is_in src values =
    if not (none_pushdown_active bind) then kept none else elim (get_elem? bind.column_descs src) [
      | none ↦ kept none
      | some desc ↦
          if not (is_none_char_varchar_column desc)
          then if is_none_text_gated bind src then gated else kept none
          else elim (encode_all bind.none_encoding values) [
            | none ↦ gated
            | some encoded ↦ pushed (values_predicate bind is_in src encoded)
          ]
    ]

-- The block of `=` and IN on CHARACTER SET NONE columns.
unfoldable pub values_block : BoundColumns → List ℕ → Expression → Verdict
values_block bind col_ids e = elim (match_values e) [
  | none ↦ unmatched
  | some (is_in, projected, values) ↦ elim (resolve_src_col bind col_ids projected) [
    | none ↦ kept none
    | some src ↦ push_values bind is_in src values
  ]
]

-- The block of NOT IN.
unfoldable pub not_in_block : BoundColumns → List ℕ → Expression → Verdict
not_in_block bind col_ids e = elim (try_extract_not_in e) [
  | none ↦ unmatched
  | some (projected, values) ↦ elim (resolve_src_col bind col_ids projected) [
    | none ↦ kept none
    | some src ↦
        if is_none_text_gated bind src
        then gated
        else pushed (record {
          sql =
              col_expr bind src
              ++ codes " NOT IN ("
              ++ separated (codes ", ") (map (λ v. codes "?") values)
              ++ codes ")";
          params = values;
        })
  ]
]

-- The block of NOT on a column.
unfoldable pub not_block : BoundColumns → List ℕ → Expression → Verdict
not_block bind col_ids e = elim (try_extract_not_bool_column e) [
  | none ↦ unmatched
  | some projected ↦ elim (resolve_src_col bind col_ids projected) [
    | none ↦ kept none
    | some src ↦
        if is_decfloat bind src
        then kept none
        else pushed
            (record { sql = codes "NOT " ++ quote_ident (source_name bind src); params = [] })
  ]
]

-- A block that does not match lets the next one have the filter.
abbrev pub or_else : Verdict → Verdict → Verdict
or_else unmatched next = next
or_else verdict next = verdict

-- The body of the loop.
unfoldable pub verdict : BoundColumns → List ℕ → Expression → Verdict
verdict bind col_ids e = or_else (like_block bind col_ids e) (
    or_else (values_block bind col_ids e)
      (or_else (not_in_block bind col_ids e) (not_block bind col_ids e)))

-- What a verdict writes to the bind data.
unfoldable pub lift : Verdict → Lifted → Lifted
lift (kept (some reason)) l = record {
  extra_predicates = l.extra_predicates;
  gated_complex_reasons = l.gated_complex_reasons ++ reason ∷ [];
}
lift (pushed p) l = record {
  extra_predicates = l.extra_predicates ++ p ∷ [];
  gated_complex_reasons = l.gated_complex_reasons;
}
lift _ l = l

-- `filters.erase(it)`, or `++it`.
unfoldable pub erase : Verdict → Expression → List Expression → List Expression
erase (pushed p) e left = left
erase _ e left = e ∷ left

-- The loop: the filters that are left for DuckDB, and what has been lifted.
unfoldable pub pushdown_complex_filter :
    BoundColumns → List ℕ → List Expression → Lifted → List Expression × Lifted
pushdown_complex_filter bind col_ids [] l = ([], l)
pushdown_complex_filter bind col_ids (e ∷ es) l =
    let v = verdict bind col_ids e in
    let (left, after) = pushdown_complex_filter bind col_ids es (lift v l) in
    (erase v e left, after)
