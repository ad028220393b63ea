-- ===== src/Opening/Statement.antt =====
-- The statement of one partition in `OpenNextPartitionCursor` of src/firebird_scanner.cpp: the
-- predicate, the pagination, the call of `Build` and the parameters; and the partitions that
-- `FirebirdScanInitGlobal` queues.
use duckdb_firebird.Common.{
  ℕ, Bool, true, false, Option, none, some, List, [], ◌∷◌, ◌++◌, map, Bytes, codes, is_empty,
  if◌then◌else◌,
}
use duckdb_firebird.Common.Int.{ℤ}
use duckdb_firebird.Duck.{Value, Duckdb, TableFilter}
use duckdb_firebird.Sql.{quote_ident}
use duckdb_firebird.Query.Build.{Scan, Progress, build}
use duckdb_firebird.Partition.{partition_count, ranges, where_clause}
use duckdb_firebird.Complex.Columns.{BoundColumns}
use duckdb_firebird.Complex.Pushdown.{ExtraPredicate, Lifted}

pub record PrimaryKeyInfo : Type 0 where
  pub column : Bytes
  pub min_value : ℤ
  pub max_value : ℤ

-- The fields of `FirebirdBindData` that a scan reads, those of its columns and of the pushdown as
-- records of their own.
pub record FirebirdBindData : Type 0 where
  pub table_name : Bytes
  pub columns : BoundColumns
  pub lifted : Lifted
  pub partitions_override : ℕ
  pub limit_override : Option ℕ
  pub offset_override : Option ℕ
  pub pk : Option PrimaryKeyInfo
  pub is_view : Bool
  pub is_view_simple_for_pagination : Bool

-- The predicates of the partitions, an empty one if there is no key. `cut lo hi n i` is
-- `static_cast<int64_t>(width * i)`, and `hw` the hardware concurrency.
unfoldable pub key_partitions : (ℤ → ℤ → ℕ → ℕ → ℕ) → ℕ → ℕ → Option PrimaryKeyInfo → List Bytes
key_partitions cut hw override none = [] ∷ []
key_partitions cut hw override (some pk) =
    let lo = pk.min_value in
    let hi = pk.max_value in
    let n = partition_count override hw lo hi in
    map (where_clause pk.column) (ranges (cut lo hi n) lo hi 0 n)

unfoldable pub init_partitions : (ℤ → ℤ → ℕ → ℕ → ℕ) → ℕ → FirebirdBindData → List Bytes
init_partitions cut hw bind = key_partitions cut hw bind.partitions_override bind.pk

-- The loop over the lifted predicates: `combined`.
unfoldable pub combined : Bytes → List ExtraPredicate → Bytes
combined acc [] = acc
combined acc (ep ∷ eps) =
    combined
      (acc ++ (if is_empty acc then [] else codes " AND ") ++ codes "(" ++ ep.sql ++ codes ")") eps

-- The same loop: `extra_params`.
unfoldable pub extra_params : List ExtraPredicate → List Value
extra_params [] = []
extra_params (ep ∷ eps) = ep.params ++ extra_params eps

-- What is decided on LIMIT and OFFSET: the window to push with its order, or the local slice.
pub record Pagination : Type 0 where
  pub pagination_order_by : Bytes
  pub limit_to_push : Option ℕ
  pub offset_to_push : Option ℕ
  pub needs_local_slice : Bool
  pub slice_limit : Option ℕ
  pub slice_offset : Option ℕ

abbrev pub pushed_in_order : FirebirdBindData → Bytes → Pagination
pushed_in_order bind order_by = record {
  pagination_order_by = order_by;
  limit_to_push = bind.limit_override;
  offset_to_push = bind.offset_override;
  needs_local_slice = false;
  slice_limit = none;
  slice_offset = none;
}

abbrev pub sliced_locally : FirebirdBindData → Pagination
sliced_locally bind = record {
  pagination_order_by = [];
  limit_to_push = none;
  offset_to_push = none;
  needs_local_slice = true;
  slice_limit = bind.limit_override;
  slice_offset = elim bind.offset_override [ none ↦ some 0 | some offset ↦ some offset ];
}

-- The four cases, by `limit_override`, `pk`, `is_view` and `is_view_simple_for_pagination`.
abbrev pub pagination_case :
    FirebirdBindData → Option ℕ → Option PrimaryKeyInfo → Bool → Bool → Pagination
pagination_case bind none pk is_view is_simple = pushed_in_order bind []
pagination_case bind (some limit) (some pk) is_view is_simple =
    pushed_in_order bind (quote_ident pk.column ++ codes " ASC")
pagination_case bind (some limit) none false is_simple = pushed_in_order bind (codes "RDB$DB_KEY")
pagination_case bind (some limit) none true true = pushed_in_order bind (codes "RDB$DB_KEY")
pagination_case bind (some limit) none true false = sliced_locally bind

unfoldable pub pagination : FirebirdBindData → Pagination
pagination bind =
    pagination_case bind bind.limit_override bind.pk bind.is_view bind.is_view_simple_for_pagination

-- `query` when its parameters are complete.
pub record Query : Type 0 where
  pub sql : Bytes
  pub params : List Value
  pub progress : Progress

abbrev pub scan_of : FirebirdBindData → List ℕ → Scan
scan_of bind column_ids = record {
  table_name = bind.table_name;
  all_column_names = bind.columns.column_names;
  column_ids = column_ids;
  column_descs = some bind.columns.column_descs;
  none_encoding = bind.columns.none_encoding;
}

-- The query for a partition, of its predicate.
unfoldable pub partition_query :
    Duckdb → FirebirdBindData → List ℕ → List (ℕ × TableFilter) → Bytes → Query
partition_query db bind column_ids filters clause =
    let page = pagination bind in
    let r =
      build db (scan_of bind column_ids) filters (combined clause bind.lifted.extra_predicates)
        page.limit_to_push page.offset_to_push page.pagination_order_by in
    record {
      sql = r.sql;
      params = r.progress.params ++ extra_params bind.lifted.extra_predicates;
      progress = r.progress;
    }
