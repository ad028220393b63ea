-- ===== src/Query/Translate.antt =====
-- `TranslateFilter`: one `TableFilter` on one column.
use duckdb_firebird.Common.{none, some, List, [], ◌++◌, Bytes, codes, length}
use duckdb_firebird.Duck.{
  Value, Duckdb, TableFilter, Filters, expression_filter, is_null, is_not_null, constant_comparison,
  in_filter, optional_filter, empty_optional_filter, other_filter, no_filters, with_filter,
}
use duckdb_firebird.Query.Values.{Outcome, comparison_to_sql, compare_with, in_list}
use duckdb_firebird.Query.Expressions.{refused, written, join, joined, translate_filter_expression}

unfoldable mutual
  pub translate_filter : Duckdb → Bytes → TableFilter → List Value → Outcome
  translate_filter db column (expression_filter none) ps = refused ps
  translate_filter db column (expression_filter (some e)) ps =
      translate_filter_expression db column e ps
  translate_filter db column is_null ps = written (column ++ codes " IS NULL") ps
  translate_filter db column is_not_null ps = written (column ++ codes " IS NOT NULL") ps
  translate_filter db column (constant_comparison type v) ps = elim (comparison_to_sql type) [
    | none ↦ refused ps
    | some op ↦ compare_with db column op v ps
  ]
  translate_filter db column (TableFilter.conjunction_and fs) ps =
      joined (length ps) (translate_filters db column (codes " AND ") fs [] ps)
  translate_filter db column (TableFilter.conjunction_or fs) ps =
      joined (length ps) (translate_filters db column (codes " OR ") fs [] ps)
  translate_filter db column (in_filter vs) ps = in_list db column vs ps
  translate_filter db column (optional_filter f) ps = translate_filter db column f ps
  translate_filter db column empty_optional_filter ps = refused ps
  translate_filter db column other_filter ps = refused ps

  -- The loop over the children of a conjunction.
  pub translate_filters : Duckdb → Bytes → Bytes → Filters → Bytes → List Value → Outcome
  translate_filters db column sep no_filters acc ps = written acc ps
  translate_filters db column sep (with_filter f fs) acc ps =
      let r = translate_filter db column f ps in
      elim r.fragment [
        | none ↦ refused r.params
        | some part ↦ translate_filters db column sep fs (join sep acc part) r.params
      ]
