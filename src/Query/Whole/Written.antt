-- ===== src/Query/Whole/Written.antt =====
-- A text that src/firebird_query.cpp writes for a filter is the text of the whole filter.
use duckdb_firebird.Common.{
  ◌≡◌, refl, none, some, List, [], ◌∷◌, Bytes, codes, length, ◌∙◌, sym, subst,
}
use duckdb_firebird.Duck.{
  Value, Duckdb, TableFilter, Filters, expression_filter, is_null, is_not_null, constant_comparison,
  in_filter, optional_filter, empty_optional_filter, other_filter, no_filters, with_filter,
}
use duckdb_firebird.Query.Expressions.{written, join, joined, translate_filter_expression}
use duckdb_firebird.Query.Translate.{translate_filter, translate_filters}
use duckdb_firebird.Query.Whole.{
  conjunction_text, WholeExpression, IsSimpleFilter, Whole, simple_filter, of_list, of_expression,
  of_optional, every_conjunct, every_disjunct, Wholes, no_filter, next_filter,
}
use duckdb_firebird.Query.Whole.Lists.{
  Whenever, Whenever-written, Whenever-joined, Whenever-map, Whenever-turn, every-Listed,
}
use duckdb_firebird.Query.Whole.Decompiled.{from, from-conjunction_text, expression_whole}

module _ (db : Duckdb) (column : Bytes) where
  record LoopedFilters (fs : Filters) (sep acc : Bytes) (ps : List Value) (text : Bytes)
      (qs : List Value) : Type 0 where
    parts : List Bytes
    whole : Wholes db column fs ps parts qs
    shape : text ≡ from sep acc parts

  of_simple_filter :
      (f : TableFilter) (ps : List Value)
      → IsSimpleFilter db column f
      → Whenever (Whole db column f ps) (translate_filter db column f ps)
  of_simple_filter f ps s =
      Whenever-written (Whole db column f ps) (translate_filter db column f ps)
        (λ text qs w. simple_filter s w)

  conjoined :
      (fs : Filters) (sep : Bytes) (f : TableFilter) (ps : List Value)
      → ((parts : List Bytes) (qs : List Value)
          → Wholes db column fs ps parts qs
          → Whole db column f ps (conjunction_text sep parts) qs)
      → Whenever (LoopedFilters fs sep [] ps) (translate_filters db column sep fs [] ps)
      → Whenever
          (Whole db column f ps)
          (joined (length ps) (translate_filters db column sep fs [] ps))
  conjoined fs sep f ps make w =
      let loop = translate_filters db column sep fs [] ps in
      Whenever-joined (Whole db column f ps) (length ps) loop (
        Whenever-map (LoopedFilters fs sep [] ps) (Whole db column f ps) loop
          (λ text qs l.
            subst (λ text. Whole db column f ps text qs)
              (sym (l.shape ∙ from-conjunction_text sep l.parts)) (make l.parts qs l.whole))
          w)

  mutual
    unfolding translate_filter translate_filters

    -- A text that is written for a filter is the text of the whole filter.
    pub filter-Whole :
        (f : TableFilter) (ps : List Value)
        → Whenever (Whole db column f ps) (translate_filter db column f ps)
    filter-Whole (expression_filter none) ps = tt
    filter-Whole (expression_filter (some e)) ps =
        Whenever-map (WholeExpression db column e ps)
          (Whole db column (expression_filter (some e)) ps)
          (translate_filter_expression db column e ps) (λ text qs w. of_expression w)
          (expression_whole db column e ps)
    filter-Whole is_null ps = of_simple_filter is_null ps tt
    filter-Whole is_not_null ps = of_simple_filter is_not_null ps tt
    filter-Whole (constant_comparison type v) ps =
        of_simple_filter (constant_comparison type v) ps tt
    filter-Whole (TableFilter.conjunction_and fs) ps =
        conjoined fs (codes " AND ") (TableFilter.conjunction_and fs) ps
          (λ parts qs w. every_conjunct parts w) (filters_whole fs (codes " AND ") [] ps)
    filter-Whole (TableFilter.conjunction_or fs) ps =
        conjoined fs (codes " OR ") (TableFilter.conjunction_or fs) ps
          (λ parts qs w. every_disjunct parts w) (filters_whole fs (codes " OR ") [] ps)
    filter-Whole (in_filter []) ps = of_simple_filter (in_filter []) ps tt
    filter-Whole (in_filter (v ∷ vs)) ps =
        every-Listed db column v vs ps (Whole db column (in_filter (v ∷ vs)) ps)
          (λ items qs l. of_list items l)
    filter-Whole (optional_filter f) ps =
        Whenever-map (Whole db column f ps) (Whole db column (optional_filter f) ps)
          (translate_filter db column f ps) (λ text qs w. of_optional w) (filter-Whole f ps)
    filter-Whole empty_optional_filter ps = tt
    filter-Whole other_filter ps = tt

    filters_whole :
        (fs : Filters) (sep acc : Bytes) (ps : List Value)
        → Whenever (LoopedFilters fs sep acc ps) (translate_filters db column sep fs acc ps)
    filters_whole no_filters sep acc ps = record { parts = []; whole = no_filter; shape = refl }
    filters_whole (with_filter f fs) sep acc ps =
        Whenever-turn (Whole db column f ps) (LoopedFilters (with_filter f fs) sep acc ps)
          (translate_filter db column f ps)
          (λ part qs. translate_filters db column sep fs (join sep acc part) qs) (filter-Whole f ps)
          (λ part qs w.
            Whenever-map (LoopedFilters fs sep (join sep acc part) qs)
              (LoopedFilters (with_filter f fs) sep acc ps)
              (translate_filters db column sep fs (join sep acc part) qs)
              (λ text rs l. record {
                parts = part ∷ l.parts;
                whole = next_filter w l.whole;
                shape = l.shape;
              })
              (filters_whole fs sep (join sep acc part) qs))

-- If a text is written, the text and the parameters are those of the whole filter.
pub written-Whole :
    (db : Duckdb) (column : Bytes) (f : TableFilter) (ps : List Value) (text : Bytes)
    (qs : List Value)
    → translate_filter db column f ps ≡ written text qs
    → Whole db column f ps text qs
written-Whole db column f ps text qs e =
    subst (Whenever (Whole db column f ps)) e (filter-Whole db column f ps)
