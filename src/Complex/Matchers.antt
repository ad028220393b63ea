-- ===== src/Complex/Matchers.antt =====
-- The matchers of src/firebird_scanner.cpp that read a bound expression: `TryExtractLikePrefix`,
-- `TryExtractNotIn`, `TryExtractNotBoolColumn`, `TryExtractEquality` and `TryExtractInList`, in
-- their FIREBIRD_DUCKDB_V2 form. The out-parameters are the result, `none` is false.
use duckdb_firebird.Common.{
  ℕ, Bool, true, false, ◌||◌, Option, none, some, List, [], ◌∷◌, Bytes, codes, ◌==◌, str_eq,
  if◌then◌else◌, ◌>>=◌,
}
use duckdb_firebird.Duck.{
  LogicalType, boolean, tinyint, smallint, integer, bigint, float, double, varchar, date, time,
  timestamp, Value, compare_equal, compare_in, compare_not_in, operator_not, Expression,
  bound_column_ref, bound_constant, bound_comparison, bound_function, bound_operator, Expressions,
  nil, cons,
}

unfoldable pub expr_value_bindable : LogicalType → Bool
expr_value_bindable boolean = true
expr_value_bindable tinyint = true
expr_value_bindable smallint = true
expr_value_bindable integer = true
expr_value_bindable bigint = true
expr_value_bindable float = true
expr_value_bindable double = true
expr_value_bindable varchar = true
expr_value_bindable date = true
expr_value_bindable time = true
expr_value_bindable timestamp = true
expr_value_bindable _ = false

abbrev is_varchar : LogicalType → Bool
is_varchar varchar = true
is_varchar _ = false

-- The string of a value that is neither NULL nor of another type than VARCHAR.
unfoldable pub text_value : Value → Option Bytes
text_value v = if v.is_null then none else if is_varchar v.type then some v.payload else none

-- The column of a bound column reference.
unfoldable pub column_index : Expression → Option ℕ
column_index (bound_column_ref c type) = some c
column_index _ = none

-- The string of a constant that can stand in a pushed text predicate.
unfoldable pub text_constant : Expression → Option Bytes
text_constant (bound_constant v) = text_value v
text_constant _ = none

-- The value of a constant that can be bound to a placeholder.
unfoldable pub bindable_constant : Expression → Option Value
bindable_constant (bound_constant v) =
    if v.is_null then none else if expr_value_bindable v.type then some v else none
bindable_constant _ = none

-- The pattern, unless it is empty or begins with a wildcard.
unfoldable pub prefix_pattern : Bytes → Option Bytes
prefix_pattern [] = none
prefix_pattern (c ∷ s) = if (c == b'%') || (c == b'_') then none else some (c ∷ s)

unfoldable pub try_extract_like_prefix : Expression → Option (ℕ × Bytes)
try_extract_like_prefix (bound_function name (cons lhs (cons rhs nil))) =
    if str_eq name (codes "~~")
    then (do
      c ← column_index lhs
      s ← text_constant rhs
      pattern ← prefix_pattern s
      some (c, pattern))
    else none
try_extract_like_prefix _ = none

-- The loop over `children[1..]`, which stops at a child that `f` refuses.
unfoldable pub constants {ℓ} :
    {A : Type ℓ} → (Expression → Option A) → Expressions → Option (List A)
constants f nil = some []
constants f (cons e es) = do v ← f e; vs ← constants f es; some (v ∷ vs)

-- The children of an IN or a NOT IN: a column and at least one constant.
unfoldable pub in_operands {ℓ} :
    {A : Type ℓ} → (Expression → Option A) → Expressions → Option (ℕ × List A)
in_operands f (cons column (cons e es)) = do
  c ← column_index column
  vs ← constants f (cons e es)
  some (c, vs)
in_operands f _ = none

-- NOT IN, as an operator of its own or as NOT around an IN.
unfoldable pub try_extract_not_in : Expression → Option (ℕ × List Value)
try_extract_not_in (bound_operator operator_not (cons (bound_operator compare_in es) nil)) =
    in_operands bindable_constant es
try_extract_not_in (bound_operator compare_not_in es) = in_operands bindable_constant es
try_extract_not_in _ = none

unfoldable pub try_extract_not_bool_column : Expression → Option ℕ
try_extract_not_bool_column (bound_operator operator_not (cons (bound_column_ref c boolean) nil)) =
    some c
try_extract_not_bool_column _ = none

-- The sides of an equality, the column on either of them.
unfoldable pub equal_sides : Expression → Expression → Option (ℕ × Bytes)
equal_sides (bound_column_ref c type) (bound_constant v) = do s ← text_value v; some (c, s)
equal_sides (bound_constant v) (bound_column_ref c type) = do s ← text_value v; some (c, s)
equal_sides _ _ = none

unfoldable pub try_extract_equality : Expression → Option (ℕ × Bytes)
try_extract_equality (bound_comparison compare_equal lhs rhs) = equal_sides lhs rhs
try_extract_equality _ = none

unfoldable pub try_extract_in_list : Expression → Option (ℕ × List Bytes)
try_extract_in_list (bound_operator compare_in es) = in_operands text_constant es
try_extract_in_list _ = none
