-- ===== src/Query/Values.antt =====
-- Values in SQL text: `IsBindableType`, `SafeLiteralInline`, `ComparisonToSql` and the loop over an
-- IN-list. A function that writes to `out` and `params_out` returns the text, or `none` for false,
-- with the parameters as they are then.
use duckdb_firebird.Common.{
  ℕ, Bool, true, false, Option, none, some, List, [], ◌∷◌, ◌++◌, Bytes, codes, length, take,
  if◌then◌else◌,
}
use duckdb_firebird.Duck.{
  LogicalType, boolean, tinyint, smallint, integer, bigint, float, double, varchar, date, time,
  timestamp, hugeint, uhugeint, decimal, Value, Duckdb, ExpressionType, compare_equal,
  compare_notequal, compare_lessthan, compare_greaterthan, compare_lessthanorequalto,
  compare_greaterthanorequalto,
}

unfoldable pub is_bindable_type : LogicalType → Bool
is_bindable_type boolean = true
is_bindable_type tinyint = true
is_bindable_type smallint = true
is_bindable_type integer = true
is_bindable_type bigint = true
is_bindable_type float = true
is_bindable_type double = true
is_bindable_type varchar = true
is_bindable_type date = true
is_bindable_type time = true
is_bindable_type timestamp = true
is_bindable_type _ = false

-- The switch of `SafeLiteralInline`.
unfoldable pub is_inline_type : LogicalType → Bool
is_inline_type hugeint = true
is_inline_type uhugeint = true
is_inline_type (decimal w s) = true
is_inline_type _ = false

unfoldable pub safe_literal_inline : Duckdb → Value → Option Bytes
safe_literal_inline db v =
    if v.is_null
    then some (codes "NULL")
    else if is_inline_type v.type
    then some (db.to_string v)
    else none

unfoldable pub comparison_to_sql : ExpressionType → Option Bytes
comparison_to_sql compare_equal = some (codes "=")
comparison_to_sql compare_notequal = some (codes "<>")
comparison_to_sql compare_lessthan = some (codes "<")
comparison_to_sql compare_greaterthan = some (codes ">")
comparison_to_sql compare_lessthanorequalto = some (codes "<=")
comparison_to_sql compare_greaterthanorequalto = some (codes ">=")
comparison_to_sql _ = none

-- The outcome of a translation: the fragment, or none for `return false`, and `params_out`.
pub record Outcome : Type 0 where
  pub fragment : Option Bytes
  pub params : List Value

-- `resize(saved); return false`.
abbrev pub rolled_back : ℕ → List Value → Outcome
rolled_back saved ps = record { fragment = none; params = take saved ps }

-- `column op constant`, with the constant as a parameter or inline.
unfoldable pub compare_with : Duckdb → Bytes → Bytes → Value → List Value → Outcome
compare_with db column op v ps =
    if is_bindable_type v.type
    then record { fragment = some (column ++ codes " " ++ op ++ codes " ?"); params = ps ++ v ∷ [] }
    else elim (safe_literal_inline db v) [
      | none ↦ record { fragment = none; params = ps }
      | some lit ↦ record {
        fragment = some (column ++ codes " " ++ op ++ codes " " ++ lit);
        params = ps;
      }
    ]

-- The text of one value of an IN-list, and the parameters after it.
unfoldable pub in_value : Duckdb → Value → List Value → Outcome
in_value db v ps =
    if is_bindable_type v.type
    then record { fragment = some (codes "?"); params = ps ++ v ∷ [] }
    else record { fragment = safe_literal_inline db v; params = ps }

-- The loop over the values; `first` is `i == 0`.
unfoldable pub in_values : Duckdb → Bool → List Value → Bytes → List Value → Outcome
in_values db first [] acc ps = record { fragment = some acc; params = ps }
in_values db first (v ∷ vs) acc ps =
    let acc' = acc ++ (if first then [] else codes ", ") in
    let one = in_value db v ps in
    elim one.fragment [
      | none ↦ record { fragment = none; params = one.params }
      | some text ↦ in_values db false vs (acc' ++ text) one.params
    ]

-- `column IN (…)`, rolled back where a value can be neither bound nor inlined.
unfoldable pub in_list : Duckdb → Bytes → List Value → List Value → Outcome
in_list db column [] ps = record { fragment = some (codes "(1=0)"); params = ps }
in_list db column (v ∷ vs) ps =
    let r = in_values db true (v ∷ vs) (column ++ codes " IN (") ps in
    elim r.fragment [
      | none ↦ rolled_back (length ps) r.params
      | some acc ↦ record { fragment = some (acc ++ codes ")"); params = r.params }
    ]
