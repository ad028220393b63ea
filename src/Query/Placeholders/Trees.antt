-- ===== src/Query/Placeholders/Trees.antt =====
-- The placeholders of a translated expression and of a translated `TableFilter`.
use duckdb_firebird.Common.{
  ℕ, ◌+◌, ◌≡◌, refl, not, Option, none, some, List, [], ◌++◌, Bytes, codes, length, if◌then◌else◌,
  if-intro, arith,
}
use duckdb_firebird.Duck.{
  Value, Duckdb, ExpressionType, Expression, Expressions, TableFilter, Filters, bound_ref,
  bound_column_ref, bound_constant, bound_cast, bound_comparison, bound_function, bound_operator,
  bound_conjunction, other_class, nil, cons, expression_filter, is_null, is_not_null,
  constant_comparison, in_filter, optional_filter, empty_optional_filter, other_filter, no_filters,
  with_filter,
}
use duckdb_firebird.Sql.Lexer.{IsFragment, lex, marks}
use duckdb_firebird.Sql.Fragment.{IsFragment-append, IsFragment-nil}
use duckdb_firebird.Query.Values.{Outcome, comparison_to_sql, compare_with, in_list}
use duckdb_firebird.Query.Expressions.{
  refused, is_column_subject, comparison_sides, translate_comparison, constants, translate_in_list,
  translate_null_test, translate_operator, separator, join, joined, translate_filter_expression,
  translate_children,
}
use duckdb_firebird.Query.Translate.{translate_filter, translate_filters}
use duckdb_firebird.Query.Placeholders.{
  IsPrinter, Counts, IsTranslation, IsTranslation-refused, IsTranslation-written,
  IsTranslation-after, IsTranslation-joined, IsFragment-join, recount,
}
use duckdb_firebird.Query.Placeholders.Values.{
  IsTranslation-compare_with, IsTranslation-in_list, comparison_to_sql-Counts,
}

is_null_text : IsFragment 0 (codes " IS NULL")
unfolding lex marks
is_null_text = record { closed = refl; counted = refl }

is_not_null_text : IsFragment 0 (codes " IS NOT NULL")
unfolding lex marks
is_not_null_text = record { closed = refl; counted = refl }

and_text : IsFragment 0 (codes " AND ")
unfolding lex marks
and_text = record { closed = refl; counted = refl }

or_text : IsFragment 0 (codes " OR ")
unfolding lex marks
or_text = record { closed = refl; counted = refl }

separator-Counts : (type : ExpressionType) → Counts (separator type) 0
unfolding separator
separator-Counts ExpressionType.compare_equal = tt
separator-Counts ExpressionType.compare_notequal = tt
separator-Counts ExpressionType.compare_lessthan = tt
separator-Counts ExpressionType.compare_greaterthan = tt
separator-Counts ExpressionType.compare_lessthanorequalto = tt
separator-Counts ExpressionType.compare_greaterthanorequalto = tt
separator-Counts ExpressionType.compare_in = tt
separator-Counts ExpressionType.compare_not_in = tt
separator-Counts ExpressionType.operator_not = tt
separator-Counts ExpressionType.operator_is_null = tt
separator-Counts ExpressionType.operator_is_not_null = tt
separator-Counts ExpressionType.conjunction_and = and_text
separator-Counts ExpressionType.conjunction_or = or_text
separator-Counts ExpressionType.other = tt

-- One child of a conjunction, and the children after it.
children_cases :
    (m : ℕ) (sep acc : Bytes) (r : Option Bytes) (ps new qs : List Value) (rest : Bytes → Outcome)
    → qs ≡ ps ++ new
    → IsFragment 0 sep
    → IsFragment m acc
    → Counts r (0 + length new)
    → ((k : ℕ) (text : Bytes) → IsFragment k text → IsTranslation k qs (rest text))
    → IsTranslation m ps (elim r [ none ↦ refused qs | some part ↦ rest (join sep acc part) ])
children_cases m sep acc none ps new qs rest p s f t h =
    IsTranslation-after m ps new qs (refused qs) p (IsTranslation-refused (m + length new) qs)
children_cases m sep acc (some part) ps new qs rest p s f t h =
    IsTranslation-after m ps new qs (rest (join sep acc part)) p (
      h (m + length new) (join sep acc part)
        (recount (IsFragment-join sep acc part s f t) (omega arith)))

op_cases :
    (db : Duckdb)
    → IsPrinter db
    → (column : Bytes) (r : Option Bytes) (v : Value) (ps : List Value) → IsFragment 0 column
    → Counts r 0
    → IsTranslation 0 ps (elim r [ none ↦ refused ps | some op ↦ compare_with db column op v ps ])
op_cases db h column none v ps c t = IsTranslation-refused 0 ps
op_cases db h column (some op) v ps c t = IsTranslation-compare_with db h column op v ps c t

module _ (db : Duckdb) (h : IsPrinter db) (column : Bytes) (c : IsFragment 0 column) where
  sided_op :
      (r : Option Bytes) (v : Value) (ps : List Value)
      → Counts r 0
      → IsTranslation 0 ps (elim r [
        | none ↦ refused ps
        | some op ↦ if v.is_null then refused ps else compare_with db column op v ps
      ])
  sided_op none v ps t = IsTranslation-refused 0 ps
  sided_op (some op) v ps t =
      if-intro (IsTranslation 0 ps) v.is_null (λ p. IsTranslation-refused 0 ps)
        (λ p. IsTranslation-compare_with db h column op v ps c t)

  sided :
      (sides : Option (ExpressionType × Value)) (ps : List Value)
      → IsTranslation 0 ps (elim sides [
        | none ↦ refused ps
        | some (type, v) ↦ elim (comparison_to_sql type) [
          | none ↦ refused ps
          | some op ↦ if v.is_null then refused ps else compare_with db column op v ps
        ]
      ])
  sided none ps = IsTranslation-refused 0 ps
  sided (some (type, v)) ps = sided_op (comparison_to_sql type) v ps (comparison_to_sql-Counts type)

  in_constants :
      (r : Option (List Value)) (ps : List Value)
      → IsTranslation 0 ps (elim r [ none ↦ refused ps | some vs ↦ in_list db column vs ps ])
  in_constants none ps = IsTranslation-refused 0 ps
  in_constants (some vs) ps = IsTranslation-in_list db h column vs ps c

  in_list-IsTranslation :
      (es : Expressions) (ps : List Value) → IsTranslation 0 ps (translate_in_list db column es ps)
  unfolding translate_in_list
  in_list-IsTranslation nil ps = IsTranslation-refused 0 ps
  in_list-IsTranslation (cons subject nil) ps = IsTranslation-refused 0 ps
  in_list-IsTranslation (cons subject (cons e es)) ps =
      if-intro (IsTranslation 0 ps) (not (is_column_subject subject))
        (λ p. IsTranslation-refused 0 ps) (λ p. in_constants (constants (cons e es)) ps)

  null_test-IsTranslation :
      (test : Bytes) (es : Expressions) (ps : List Value)
      → IsFragment 0 test
      → IsTranslation 0 ps (translate_null_test column test es ps)
  unfolding translate_null_test
  null_test-IsTranslation test nil ps t = IsTranslation-refused 0 ps
  null_test-IsTranslation test (cons e nil) ps t =
      if-intro (IsTranslation 0 ps) (is_column_subject e)
        (λ p. IsTranslation-written 0 (column ++ test) ps (IsFragment-append column test c t))
        (λ p. IsTranslation-refused 0 ps)
  null_test-IsTranslation test (cons e (cons d es)) ps t = IsTranslation-refused 0 ps

  operator-IsTranslation :
      (type : ExpressionType) (es : Expressions) (ps : List Value)
      → IsTranslation 0 ps (translate_operator db column type es ps)
  unfolding translate_operator
  operator-IsTranslation ExpressionType.compare_equal es ps = IsTranslation-refused 0 ps
  operator-IsTranslation ExpressionType.compare_notequal es ps = IsTranslation-refused 0 ps
  operator-IsTranslation ExpressionType.compare_lessthan es ps = IsTranslation-refused 0 ps
  operator-IsTranslation ExpressionType.compare_greaterthan es ps = IsTranslation-refused 0 ps
  operator-IsTranslation ExpressionType.compare_lessthanorequalto es ps = IsTranslation-refused 0 ps
  operator-IsTranslation ExpressionType.compare_greaterthanorequalto es ps =
      IsTranslation-refused 0 ps
  operator-IsTranslation ExpressionType.compare_in es ps = in_list-IsTranslation es ps
  operator-IsTranslation ExpressionType.compare_not_in es ps = IsTranslation-refused 0 ps
  operator-IsTranslation ExpressionType.operator_not es ps = IsTranslation-refused 0 ps
  operator-IsTranslation ExpressionType.operator_is_null es ps =
      null_test-IsTranslation (codes " IS NULL") es ps is_null_text
  operator-IsTranslation ExpressionType.operator_is_not_null es ps =
      null_test-IsTranslation (codes " IS NOT NULL") es ps is_not_null_text
  operator-IsTranslation ExpressionType.conjunction_and es ps = IsTranslation-refused 0 ps
  operator-IsTranslation ExpressionType.conjunction_or es ps = IsTranslation-refused 0 ps
  operator-IsTranslation ExpressionType.other es ps = IsTranslation-refused 0 ps

  conjunction_cases :
      (type : Option Bytes) (es : Expressions) (ps : List Value)
      → Counts type 0
      → ((sep : Bytes)
          → IsFragment 0 sep
          → IsTranslation 0 ps (translate_children db column sep es [] ps))
      → IsTranslation 0 ps (elim type [
        | none ↦ refused ps
        | some sep ↦ joined (length ps) (translate_children db column sep es [] ps)
      ])
  conjunction_cases none es ps t k = IsTranslation-refused 0 ps
  conjunction_cases (some sep) es ps t k =
      IsTranslation-joined ps (translate_children db column sep es [] ps) (k sep t)

  mutual
    unfolding translate_filter_expression translate_children translate_comparison

    expression-IsTranslation :
        (e : Expression) (ps : List Value)
        → IsTranslation 0 ps (translate_filter_expression db column e ps)
    expression-IsTranslation (bound_comparison type left right) ps =
        sided (comparison_sides db type left right) ps
    expression-IsTranslation (bound_operator type es) ps = operator-IsTranslation type es ps
    expression-IsTranslation (bound_conjunction type es) ps =
        conjunction_cases (separator type) es ps (separator-Counts type)
          (λ sep s. children-IsTranslation sep es 0 [] ps s IsFragment-nil)
    expression-IsTranslation bound_ref ps = IsTranslation-refused 0 ps
    expression-IsTranslation (bound_column_ref i t) ps = IsTranslation-refused 0 ps
    expression-IsTranslation (bound_constant v) ps = IsTranslation-refused 0 ps
    expression-IsTranslation (bound_cast e) ps = IsTranslation-refused 0 ps
    expression-IsTranslation (bound_function name es) ps = IsTranslation-refused 0 ps
    expression-IsTranslation other_class ps = IsTranslation-refused 0 ps

    children-IsTranslation :
        (sep : Bytes) (es : Expressions) (m : ℕ) (acc : Bytes) (ps : List Value)
        → IsFragment 0 sep
        → IsFragment m acc
        → IsTranslation m ps (translate_children db column sep es acc ps)
    children-IsTranslation sep nil m acc ps s f = IsTranslation-written m acc ps f
    children-IsTranslation sep (cons e es) m acc ps s f =
        let r = translate_filter_expression db column e ps in
        let t = expression-IsTranslation e ps in
        children_cases m sep acc r.fragment ps t.new r.params
          (λ text. translate_children db column sep es text r.params) t.pushed s f t.counts
          (λ k text g. children-IsTranslation sep es k text r.params s g)

  mutual
    unfolding translate_filter translate_filters

    pub filter-IsTranslation :
        (f : TableFilter) (ps : List Value) → IsTranslation 0 ps (translate_filter db column f ps)
    filter-IsTranslation (expression_filter none) ps = IsTranslation-refused 0 ps
    filter-IsTranslation (expression_filter (some e)) ps = expression-IsTranslation e ps
    filter-IsTranslation is_null ps =
        IsTranslation-written 0 (column ++ codes " IS NULL") ps
          (IsFragment-append column (codes " IS NULL") c is_null_text)
    filter-IsTranslation is_not_null ps =
        IsTranslation-written 0 (column ++ codes " IS NOT NULL") ps
          (IsFragment-append column (codes " IS NOT NULL") c is_not_null_text)
    filter-IsTranslation (constant_comparison type v) ps =
        op_cases db h column (comparison_to_sql type) v ps c (comparison_to_sql-Counts type)
    filter-IsTranslation (TableFilter.conjunction_and fs) ps =
        IsTranslation-joined ps (translate_filters db column (codes " AND ") fs [] ps)
          (filters-IsTranslation (codes " AND ") fs 0 [] ps and_text IsFragment-nil)
    filter-IsTranslation (TableFilter.conjunction_or fs) ps =
        IsTranslation-joined ps (translate_filters db column (codes " OR ") fs [] ps)
          (filters-IsTranslation (codes " OR ") fs 0 [] ps or_text IsFragment-nil)
    filter-IsTranslation (in_filter vs) ps = IsTranslation-in_list db h column vs ps c
    filter-IsTranslation (optional_filter f) ps = filter-IsTranslation f ps
    filter-IsTranslation empty_optional_filter ps = IsTranslation-refused 0 ps
    filter-IsTranslation other_filter ps = IsTranslation-refused 0 ps

    filters-IsTranslation :
        (sep : Bytes) (fs : Filters) (m : ℕ) (acc : Bytes) (ps : List Value)
        → IsFragment 0 sep
        → IsFragment m acc
        → IsTranslation m ps (translate_filters db column sep fs acc ps)
    filters-IsTranslation sep no_filters m acc ps s g = IsTranslation-written m acc ps g
    filters-IsTranslation sep (with_filter f fs) m acc ps s g =
        let r = translate_filter db column f ps in
        let t = filter-IsTranslation f ps in
        children_cases m sep acc r.fragment ps t.new r.params
          (λ text. translate_filters db column sep fs text r.params) t.pushed s g t.counts
          (λ k text e. filters-IsTranslation sep fs k text r.params s e)
