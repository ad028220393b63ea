-- ===== src/Query/Expressions.antt =====
-- The decompilation of DuckDB's bound expressions: `IsColumnSubject`, `TryGetConstant`,
-- `TranslateComparison`, `TranslateInList` and `TranslateFilterExpression`.
use duckdb_firebird.Common.{
  ℕ, Bool, true, false, not, Option, none, some, List, [], ◌∷◌, ◌++◌, Bytes, codes, length,
  is_empty, if◌then◌else◌,
}
use duckdb_firebird.Duck.{
  Value, Duckdb, ExpressionType, compare_in, operator_is_null, operator_is_not_null,
  conjunction_and, conjunction_or, Expression, Expressions, bound_ref, bound_column_ref,
  bound_constant, bound_cast, bound_comparison, bound_function, bound_operator, bound_conjunction,
  other_class, nil, cons,
}
use duckdb_firebird.Query.Values.{Outcome, comparison_to_sql, compare_with, in_list, rolled_back}

abbrev pub refused : List Value → Outcome
refused ps = record { fragment = none; params = ps }

abbrev pub written : Bytes → List Value → Outcome
written s ps = record { fragment = some s; params = ps }

unfoldable pub is_column_subject : Expression → Bool
is_column_subject bound_ref = true
is_column_subject (bound_column_ref i t) = true
is_column_subject (bound_cast e) = is_column_subject e
is_column_subject _ = false

unfoldable pub try_get_constant : Expression → Option Value
try_get_constant (bound_constant v) = some v
try_get_constant _ = none

-- The operator and the constant of a comparison, the operator flipped if the constant stands left.
unfoldable pub comparison_sides :
    Duckdb → ExpressionType → Expression → Expression → Option (ExpressionType × Value)
comparison_sides db type left right =
    if is_column_subject left
    then (if is_column_subject right
        then none
        else elim (try_get_constant right) [ none ↦ none | some v ↦ some (type, v) ])
    else if is_column_subject right
    then elim (try_get_constant left) [ none ↦ none | some v ↦ some (db.flip type, v) ]
    else none

unfoldable pub translate_comparison :
    Duckdb → Bytes → ExpressionType → Expression → Expression → List Value → Outcome
translate_comparison db column type left right ps = elim (comparison_sides db type left right) [
  | none ↦ refused ps
  | some (type', v) ↦ elim (comparison_to_sql type') [
    | none ↦ refused ps
    | some op ↦ if v.is_null then refused ps else compare_with db column op v ps
  ]
]

-- The constants of an IN-list, none of which may be NULL.
unfoldable pub constants : Expressions → Option (List Value)
constants nil = some []
constants (cons e es) = elim (try_get_constant e) [
  | none ↦ none
  | some v ↦ elim v.is_null [
    | true ↦ none
    | false ↦ elim (constants es) [ none ↦ none | some vs ↦ some (v ∷ vs) ]
  ]
]

-- `TranslateInList`; fewer than two children are refused, so the list of values is never empty.
unfoldable pub translate_in_list : Duckdb → Bytes → Expressions → List Value → Outcome
translate_in_list db column nil ps = refused ps
translate_in_list db column (cons subject nil) ps = refused ps
translate_in_list db column (cons subject (cons e es)) ps =
    if not (is_column_subject subject)
    then refused ps
    else elim (constants (cons e es)) [ none ↦ refused ps | some vs ↦ in_list db column vs ps ]

unfoldable pub translate_null_test : Bytes → Bytes → Expressions → List Value → Outcome
translate_null_test column test (cons e nil) ps =
    if is_column_subject e then written (column ++ test) ps else refused ps
translate_null_test column test _ ps = refused ps

unfoldable pub translate_operator :
    Duckdb → Bytes → ExpressionType → Expressions → List Value → Outcome
translate_operator db column compare_in es ps = translate_in_list db column es ps
translate_operator db column operator_is_null es ps =
    translate_null_test column (codes " IS NULL") es ps
translate_operator db column operator_is_not_null es ps =
    translate_null_test column (codes " IS NOT NULL") es ps
translate_operator db column _ es ps = refused ps

-- The separator of a conjunction.
unfoldable pub separator : ExpressionType → Option Bytes
separator conjunction_and = some (codes " AND ")
separator conjunction_or = some (codes " OR ")
separator _ = none

-- `acc` with one more part.
abbrev pub join : Bytes → Bytes → Bytes → Bytes
join sep acc part = (if is_empty acc then acc else acc ++ sep) ++ codes "(" ++ part ++ codes ")"

-- What a conjunction returns once its loop is over: a failure is rolled back, and an empty
-- conjunction is refused.
abbrev pub joined : ℕ → Outcome → Outcome
joined saved r = elim r.fragment [
  | none ↦ rolled_back saved r.params
  | some acc ↦ if is_empty acc then refused r.params else written acc r.params
]

unfoldable mutual
  pub translate_filter_expression : Duckdb → Bytes → Expression → List Value → Outcome
  translate_filter_expression db column (bound_comparison type left right) ps =
      translate_comparison db column type left right ps
  translate_filter_expression db column (bound_operator type es) ps =
      translate_operator db column type es ps
  translate_filter_expression db column (bound_conjunction type es) ps = elim (separator type) [
    | none ↦ refused ps
    | some sep ↦ joined (length ps) (translate_children db column sep es [] ps)
  ]
  translate_filter_expression db column bound_ref ps = refused ps
  translate_filter_expression db column (bound_column_ref i t) ps = refused ps
  translate_filter_expression db column (bound_constant v) ps = refused ps
  translate_filter_expression db column (bound_cast e) ps = refused ps
  translate_filter_expression db column (bound_function name es) ps = refused ps
  translate_filter_expression db column other_class ps = refused ps

  -- The loop over the children.
  pub translate_children : Duckdb → Bytes → Bytes → Expressions → Bytes → List Value → Outcome
  translate_children db column sep nil acc ps = written acc ps
  translate_children db column sep (cons e es) acc ps =
      let r = translate_filter_expression db column e ps in
      elim r.fragment [
        | none ↦ refused r.params
        | some part ↦ translate_children db column sep es (join sep acc part) r.params
      ]
