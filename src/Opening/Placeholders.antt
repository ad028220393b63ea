-- ===== src/Opening/Placeholders.antt =====
-- The placeholders of the statement that `OpenNextPartitionCursor` of src/firebird_scanner.cpp
-- sends, and the parameters that it binds to them.
use duckdb_firebird.Common.{
  ℕ, ◌+◌, ◌≡◌, refl, Bool, true, false, Option, none, some, List, [], ◌∷◌, ◌++◌, map, Bytes, codes,
  is_empty, length, length-append, All, arith, if◌then◌else◌,
}
use duckdb_firebird.Common.Int.{ℤ}
use duckdb_firebird.Duck.{Duckdb, TableFilter, Expression}
use duckdb_firebird.Sql.{quote_ident}
use duckdb_firebird.Sql.Decimal.{decimal_ℤ}
use duckdb_firebird.Sql.Lexer.{IsFragment, lex, marks}
use duckdb_firebird.Sql.Fragment.{IsFragment-nil, IsFragment-quote_ident, IsFragment-decimal_ℤ}
use duckdb_firebird.Query.Build.{build}
use duckdb_firebird.Query.Placeholders.{IsPrinter, recount, parenthesised}
use duckdb_firebird.Query.Placeholders.Texts.{IsQuiet, and_then, and_text}
use duckdb_firebird.Query.Placeholders.Statement.{build_with-IsFragment}
use duckdb_firebird.Partition.{partition_count, ranges, where_clause}
use duckdb_firebird.Complex.Pushdown.{ExtraPredicate, Lifted, pushdown_complex_filter}
use duckdb_firebird.Complex.Texts.{IsBound, pushdown_complex_filter-IsBound}
use duckdb_firebird.Opening.Statement.{
  PrimaryKeyInfo, FirebirdBindData, key_partitions, init_partitions, pagination_case, combined,
  extra_params, pagination, scan_of, partition_query,
}

combined-IsFragment :
    (acc : Bytes) (eps : List ExtraPredicate) {m : ℕ}
    → IsFragment m acc
    → All IsBound eps
    → IsFragment (m + length (extra_params eps)) (combined acc eps)
unfolding combined extra_params
combined-IsFragment acc [] f h = recount f (omega arith)
combined-IsFragment acc (ep ∷ eps) {m} f h =
    let glue = if is_empty acc then [] else codes " AND " in
    let glued = and_then acc glue f (glue-IsQuiet acc) in
    recount
      (combined-IsFragment (acc ++ glue ++ codes "(" ++ ep.sql ++ codes ")") eps
        (parenthesised (acc ++ glue) ep.sql glued h.0) h.1)
      (omega (arith, length-append ep.params (extra_params eps)))
  where
    glue-IsQuiet : (acc : Bytes) → IsQuiet (if is_empty acc then [] else codes " AND ")
    glue-IsQuiet [] = IsFragment-nil
    glue-IsQuiet (c ∷ acc) = and_text

snoc-is_empty : (s : Bytes) (c : ℕ) → is_empty (s ++ c ∷ []) ≡ false
snoc-is_empty [] c = refl
snoc-is_empty (b ∷ s) c = refl

-- Text once written stays.
combined-is_empty :
    (acc : Bytes) (eps : List ExtraPredicate)
    → is_empty acc ≡ false
    → is_empty (combined acc eps) ≡ false
unfolding combined
combined-is_empty acc [] h = h
combined-is_empty acc (ep ∷ eps) h =
    let glue = if is_empty acc then [] else codes " AND " in
    combined-is_empty (acc ++ glue ++ codes "(" ++ ep.sql ++ codes ")") eps
      (snoc-is_empty (acc ++ glue ++ codes "(" ++ ep.sql) b')')

no_predicates :
    (acc : Bytes) (eps : List ExtraPredicate)
    → is_empty (combined acc eps) ≡ true
    → length (extra_params eps) ≡ 0
unfolding combined extra_params
no_predicates acc [] h = refl
no_predicates acc (ep ∷ eps) h =
    let glue = if is_empty acc then [] else codes " AND " in
    let written =
      combined-is_empty (acc ++ glue ++ codes "(" ++ ep.sql ++ codes ")") eps
        (snoc-is_empty (acc ++ glue ++ codes "(" ++ ep.sql) b')') in
    cc

asc_text : IsQuiet (codes " ASC")
unfolding lex marks
asc_text = record { closed = refl; counted = refl }

db_key_text : IsQuiet (codes "RDB$DB_KEY")
unfolding lex marks
db_key_text = record { closed = refl; counted = refl }

from_text : IsQuiet (codes " >= ")
unfolding lex marks
from_text = record { closed = refl; counted = refl }

to_text : IsQuiet (codes " <= ")
unfolding lex marks
to_text = record { closed = refl; counted = refl }

pagination_case-IsQuiet :
    (bind : FirebirdBindData) (limit : Option ℕ) (pk : Option PrimaryKeyInfo) (view simple : Bool)
    → IsQuiet (pagination_case bind limit pk view simple).pagination_order_by
pagination_case-IsQuiet bind none pk view simple = IsFragment-nil
pagination_case-IsQuiet bind (some l) (some k) view simple =
    and_then (quote_ident k.column) (codes " ASC") (IsFragment-quote_ident k.column) asc_text
pagination_case-IsQuiet bind (some l) none false simple = db_key_text
pagination_case-IsQuiet bind (some l) none true true = db_key_text
pagination_case-IsQuiet bind (some l) none true false = IsFragment-nil

pagination-IsQuiet : (bind : FirebirdBindData) → IsQuiet (pagination bind).pagination_order_by
unfolding pagination
pagination-IsQuiet bind =
    pagination_case-IsQuiet bind bind.limit_override bind.pk bind.is_view
      bind.is_view_simple_for_pagination

where_clause-IsQuiet : (column : Bytes) (range : ℤ × ℤ) → IsQuiet (where_clause column range)
unfolding where_clause
where_clause-IsQuiet column (lo, hi) =
    let name = quote_ident column in
    let ident = IsFragment-quote_ident column in
    let low = and_then name (codes " >= ") ident from_text in
    let number = and_then (name ++ codes " >= ") (decimal_ℤ lo) low (IsFragment-decimal_ℤ lo) in
    let both = and_then (name ++ codes " >= " ++ decimal_ℤ lo) (codes " AND ") number and_text in
    let high = and_then (name ++ codes " >= " ++ decimal_ℤ lo ++ codes " AND ") name both ident in
    and_then (name ++ codes " >= " ++ decimal_ℤ lo ++ codes " AND " ++ name ++ codes " <= ")
      (decimal_ℤ hi)
      (and_then (name ++ codes " >= " ++ decimal_ℤ lo ++ codes " AND " ++ name) (codes " <= ") high
        to_text)
      (IsFragment-decimal_ℤ hi)

every_range-IsQuiet :
    (column : Bytes) (rs : List (ℤ × ℤ)) → All IsQuiet (map (where_clause column) rs)
every_range-IsQuiet column [] = tt
every_range-IsQuiet column (r ∷ rs) = (where_clause-IsQuiet column r, every_range-IsQuiet column rs)

key_partitions-IsQuiet :
    (cut : ℤ → ℤ → ℕ → ℕ → ℕ) (hw override : ℕ) (pk : Option PrimaryKeyInfo)
    → All IsQuiet (key_partitions cut hw override pk)
unfolding key_partitions
key_partitions-IsQuiet cut hw override none = (IsFragment-nil, tt)
key_partitions-IsQuiet cut hw override (some pk) =
    let lo = pk.min_value in
    let hi = pk.max_value in
    let n = partition_count override hw lo hi in
    every_range-IsQuiet pk.column (ranges (cut lo hi n) lo hi 0 n)

init_partitions-IsQuiet :
    (cut : ℤ → ℤ → ℕ → ℕ → ℕ) (hw : ℕ) (bind : FirebirdBindData)
    → All IsQuiet (init_partitions cut hw bind)
unfolding init_partitions
init_partitions-IsQuiet cut hw bind = key_partitions-IsQuiet cut hw bind.partitions_override bind.pk

-- The statement of a partition closes all its quotes and has, outside of quotes, exactly one
-- placeholder for every parameter that is bound to it, whatever filters, columns and paging, if the
-- partition's predicate is quiet and the lifted predicates have a placeholder for each parameter.
pub partition_query-IsFragment :
    (db : Duckdb)
    → IsPrinter db
    → (bind : FirebirdBindData) (column_ids : List ℕ) (filters : List (ℕ × TableFilter))
      (clause : Bytes)
    → IsQuiet clause
    → All IsBound bind.lifted.extra_predicates
    → IsFragment
        (length (partition_query db bind column_ids filters clause).params)
        (partition_query db bind column_ids filters clause).sql
unfolding partition_query
partition_query-IsFragment db h bind column_ids filters clause c b =
    let page = pagination bind in
    let eps = bind.lifted.extra_predicates in
    let r =
      build db (scan_of bind column_ids) filters (combined clause eps) page.limit_to_push
        page.offset_to_push page.pagination_order_by in
    recount
      (build_with-IsFragment db h (scan_of bind column_ids) filters (combined clause eps)
        page.limit_to_push page.offset_to_push page.pagination_order_by
        (recount (combined-IsFragment clause eps c b) (omega arith)) (no_predicates clause eps)
        (pagination-IsQuiet bind))
      (omega (arith, length-append r.progress.params (extra_params eps)))

-- The bind data after the pushdown of the complex filters, before which nothing was lifted.
abbrev pub planned : FirebirdBindData → List ℕ → List Expression → FirebirdBindData
planned bind col_ids es =
    let nothing : Lifted = record { extra_predicates = []; gated_complex_reasons = [] } in
    record bind { lifted = (pushdown_complex_filter bind.columns col_ids es nothing).1 }

-- The statement of a partition has a placeholder for each of its parameters.
abbrev pub IsSent : Duckdb → FirebirdBindData → List ℕ → List (ℕ × TableFilter) → Bytes → Type 0
IsSent db bind column_ids filters clause =
    IsFragment (length (partition_query db bind column_ids filters clause).params)
      (partition_query db bind column_ids filters clause).sql

every-IsSent :
    (db : Duckdb)
    → IsPrinter db
    → (bind : FirebirdBindData) (column_ids : List ℕ) (filters : List (ℕ × TableFilter))
      (clauses : List Bytes)
    → All IsBound bind.lifted.extra_predicates
    → All IsQuiet clauses
    → All (IsSent db bind column_ids filters) clauses
every-IsSent db h bind column_ids filters [] b quiet = tt
every-IsSent db h bind column_ids filters (clause ∷ clauses) b quiet = (
  partition_query-IsFragment db h bind column_ids filters clause quiet.0 b,
  every-IsSent db h bind column_ids filters clauses b quiet.1,
)

-- From the filters that DuckDB hands over to the statement of every partition that is queued: it
-- closes all its quotes and has exactly one placeholder, outside of quotes, for every parameter that
-- is bound, for every table, key, column, filter, value and paging.
pub scan-IsSent :
    (db : Duckdb)
    → IsPrinter db
    → (bind : FirebirdBindData) (column_ids col_ids : List ℕ) (filters : List (ℕ × TableFilter))
      (es : List Expression) (cut : ℤ → ℤ → ℕ → ℕ → ℕ) (hw : ℕ)
    → All
        (IsSent db (planned bind col_ids es) column_ids filters)
        (init_partitions cut hw (planned bind col_ids es))
scan-IsSent db h bind column_ids col_ids filters es cut hw =
    let after = planned bind col_ids es in
    every-IsSent db h after column_ids filters (init_partitions cut hw after)
      (pushdown_complex_filter-IsBound bind.columns col_ids es
        (record { extra_predicates = []; gated_complex_reasons = [] }) tt)
      (init_partitions-IsQuiet cut hw after)
