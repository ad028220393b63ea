-- ===== src/Duck.antt =====
-- The DuckDB types that src/*.cpp takes apart: logical types, values, bound expressions and table
-- filters. DuckDB itself is not in the repository; these are its enumerations as far as the code
-- tells their members apart, and what the code asks of a value is a field.
use duckdb_firebird.Common.{ℕ, ◌^◌, ◌-◌, Bool, Option, List, Bytes}

-- `LogicalType`; `other` stands for every type that no modelled code names.
pub data LogicalType : Type 0 where
  boolean tinyint smallint integer bigint float double varchar char : LogicalType
  date time timestamp timestamp_tz time_tz blob hugeint uhugeint : LogicalType
  decimal : ℕ → ℕ → LogicalType
  other : ℕ → LogicalType

-- `Value`: its type, `IsNull()`, and the payload: the string that `GetValue<std::string>` gives of a
-- VARCHAR, and else what only DuckDB reads.
pub record Value : Type 0 where
  pub type : LogicalType
  pub is_null : Bool
  pub payload : Bytes

-- `ExpressionType`.
pub data ExpressionType : Type 0 where
  compare_equal compare_notequal compare_lessthan compare_greaterthan : ExpressionType
  compare_lessthanorequalto compare_greaterthanorequalto compare_in compare_not_in : ExpressionType
  operator_not operator_is_null operator_is_not_null : ExpressionType
  conjunction_and conjunction_or : ExpressionType
  other : ExpressionType

-- `Expression` by its class; a column reference carries its column index and return type, a bound
-- function is a cast, a comparison, or a call with its name.
mutual
  pub data Expression : Type 0 where
    bound_ref : Expression
    bound_column_ref : ℕ → LogicalType → Expression
    bound_constant : Value → Expression
    bound_cast : Expression → Expression
    bound_comparison : ExpressionType → Expression → Expression → Expression
    bound_function : Bytes → Expressions → Expression
    bound_operator : ExpressionType → Expressions → Expression
    bound_conjunction : ExpressionType → Expressions → Expression
    other_class : Expression

  pub data Expressions : Type 0 where
    nil : Expressions
    cons : Expression → Expressions → Expressions

-- `TableFilter` by its type; an expression filter or an optional filter may lack its child.
mutual
  pub data TableFilter : Type 0 where
    expression_filter : Option Expression → TableFilter
    is_null is_not_null : TableFilter
    constant_comparison : ExpressionType → Value → TableFilter
    conjunction_and conjunction_or : Filters → TableFilter
    in_filter : List Value → TableFilter
    optional_filter : TableFilter → TableFilter
    empty_optional_filter : TableFilter
    other_filter : TableFilter

  pub data Filters : Type 0 where
    no_filters : Filters
    with_filter : TableFilter → Filters → Filters

-- The functions of DuckDB that the code calls: `FlipComparisonExpression` and `Value::ToString`.
pub record Duckdb : Type 0 where
  pub flip : ExpressionType → ExpressionType
  pub to_string : Value → Bytes

-- `COLUMN_IDENTIFIER_ROW_ID`, the largest `column_t`.
abbrev pub row_id : ℕ
row_id = 2 ^ 64 - 1
