-- ===== src/Query/Whole.antt =====
-- What it means that src/firebird_query.cpp sends a filter whole: every child of every conjunction
-- and every value of an IN-list is in the text.
use duckdb_firebird.Common.{ℕ, ◌≡◌, Bool, Option, none, some, List, [], ◌∷◌, ◌++◌, Bytes, codes}
use duckdb_firebird.Duck.{
  Value, Duckdb, ExpressionType, compare_in, Expression, Expressions, TableFilter, Filters,
  bound_constant, bound_operator, bound_conjunction, nil, cons, expression_filter, is_null,
  is_not_null, constant_comparison, in_filter, optional_filter, no_filters, with_filter,
}
use duckdb_firebird.Query.Values.{Outcome, in_value}
use duckdb_firebird.Query.Expressions.{written, separator, translate_filter_expression}
use duckdb_firebird.Query.Translate.{translate_filter}
pub mod Lists
pub mod Decompiled
pub mod Written

-- The parts in parentheses, with the separator between them.
abbrev pub with_separators : Bytes → List Bytes → Bytes
with_separators sep [] = []
with_separators sep (part ∷ parts) =
    sep ++ (codes "(" ++ part ++ codes ")") ++ with_separators sep parts

abbrev pub conjunction_text : Bytes → List Bytes → Bytes
conjunction_text sep [] = []
conjunction_text sep (part ∷ parts) = (codes "(" ++ part ++ codes ")") ++ with_separators sep parts

-- The values with commas between them.
abbrev pub with_commas : List Bytes → Bytes
with_commas [] = []
with_commas (item ∷ items) = codes ", " ++ item ++ with_commas items

abbrev pub list_text : Bytes → List Bytes → Bytes
list_text column [] = column ++ codes " IN ()"
list_text column (item ∷ items) = column ++ codes " IN (" ++ item ++ with_commas items ++ codes ")"

abbrev IsConstant : Expression → Value → Type 0
IsConstant (bound_constant v) w = v ≡ w
IsConstant _ w = ⊥

-- The expressions are the constants, one for each.
abbrev pub AreConstants : Expressions → List Value → Type 0
AreConstants nil [] = Unit
AreConstants nil (w ∷ ws) = ⊥
AreConstants (cons e es) [] = ⊥
AreConstants (cons e es) (w ∷ ws) = IsConstant e w × AreConstants es ws

-- Every value in its order, with one item for each.
pub data Listed (db : Duckdb) : List Value → List Value → List Bytes → List Value → Type 0 where
  no_value : {ps : List Value} → Listed db [] ps [] ps
  next_value :
      {v : Value} {vs ps qs rs : List Value} {item : Bytes} {items : List Bytes}
      → in_value db v ps ≡ written item qs
      → Listed db vs qs items rs
      → Listed db (v ∷ vs) ps (item ∷ items) rs

-- An expression that has neither children nor a list of values.
abbrev pub IsSimple : Expression → Type 0
IsSimple (bound_operator compare_in es) = ⊥
IsSimple (bound_conjunction type es) = ⊥
IsSimple _ = Unit

module _ (db : Duckdb) (column : Bytes) where
  mutual
    -- The expression, the parameters before it, its text and the parameters behind it.
    pub data WholeExpression : Expression → List Value → Bytes → List Value → Type 0 where
      simple :
          {e : Expression} {ps qs : List Value} {text : Bytes}
          → IsSimple e
          → translate_filter_expression db column e ps ≡ written text qs
          → WholeExpression e ps text qs
      every_child :
          {type : ExpressionType} {es : Expressions} {ps qs : List Value} (sep : Bytes)
          (parts : List Bytes)
          → separator type ≡ some sep
          → WholeExpressions es ps parts qs
          → WholeExpression (bound_conjunction type es) ps (conjunction_text sep parts) qs
      every_value :
          {subject : Expression} {es : Expressions} {vs ps qs : List Value} (items : List Bytes)
          → AreConstants es vs
          → Listed db vs ps items qs
          → WholeExpression
              (bound_operator compare_in (cons subject es))
              ps
              (list_text column items)
              qs

    -- Every child in its order, with one part for each.
    pub data WholeExpressions : Expressions → List Value → List Bytes → List Value → Type 0 where
      no_child : {ps : List Value} → WholeExpressions nil ps [] ps
      next_child :
          {e : Expression} {es : Expressions} {ps qs rs : List Value} {part : Bytes}
          {parts : List Bytes}
          → WholeExpression e ps part qs
          → WholeExpressions es qs parts rs
          → WholeExpressions (cons e es) ps (part ∷ parts) rs

  -- A table filter that has neither children nor a list of values.
  abbrev pub IsSimpleFilter : TableFilter → Type 0
  IsSimpleFilter is_null = Unit
  IsSimpleFilter is_not_null = Unit
  IsSimpleFilter (constant_comparison type v) = Unit
  IsSimpleFilter (in_filter []) = Unit
  IsSimpleFilter _ = ⊥

  mutual
    -- The filter, the parameters before it, its text and the parameters behind it.
    pub data Whole : TableFilter → List Value → Bytes → List Value → Type 0 where
      simple_filter :
          {f : TableFilter} {ps qs : List Value} {text : Bytes}
          → IsSimpleFilter f
          → translate_filter db column f ps ≡ written text qs
          → Whole f ps text qs
      of_list :
          {v : Value} {vs ps qs : List Value} (items : List Bytes)
          → Listed db (v ∷ vs) ps items qs
          → Whole (in_filter (v ∷ vs)) ps (list_text column items) qs
      of_expression :
          {e : Expression} {ps qs : List Value} {text : Bytes}
          → WholeExpression e ps text qs
          → Whole (expression_filter (some e)) ps text qs
      of_optional :
          {f : TableFilter} {ps qs : List Value} {text : Bytes}
          → Whole f ps text qs
          → Whole (optional_filter f) ps text qs
      every_conjunct :
          {fs : Filters} {ps qs : List Value} (parts : List Bytes)
          → Wholes fs ps parts qs
          → Whole (TableFilter.conjunction_and fs) ps (conjunction_text (codes " AND ") parts) qs
      every_disjunct :
          {fs : Filters} {ps qs : List Value} (parts : List Bytes)
          → Wholes fs ps parts qs
          → Whole (TableFilter.conjunction_or fs) ps (conjunction_text (codes " OR ") parts) qs

    pub data Wholes : Filters → List Value → List Bytes → List Value → Type 0 where
      no_filter : {ps : List Value} → Wholes no_filters ps [] ps
      next_filter :
          {f : TableFilter} {fs : Filters} {ps qs rs : List Value} {part : Bytes}
          {parts : List Bytes}
          → Whole f ps part qs
          → Wholes fs qs parts rs
          → Wholes (with_filter f fs) ps (part ∷ parts) rs
