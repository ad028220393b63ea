-- ===== src/View.antt =====
-- `AnalyzeViewSource` and `LookupObjectType` of src/firebird_view_analysis.cpp: the keywords of a
-- view's source, outside of literals and comments. The cursor's answer is an argument.
pub mod Literals
pub mod Reconcile
pub mod Described
use duckdb_firebird.Common.{
  ℕ, zero, suc, Bool, true, false, ◌&&◌, ◌||◌, Option, none, some, List, [], ◌∷◌, ◌++◌, Bytes,
  codes, ◌==◌, to_upper, contains, is_empty, if◌then◌else◌,
}
use duckdb_firebird.Sql.{sql_literal}

pub data State : Type 0 where
  in_code in_string in_line_comment in_block_comment : State

-- What one turn of the loop writes, its next state, and how many bytes more it consumes.
pub record Turn : Type 0 where
  pub out : Bytes
  pub next : State
  pub skip : ℕ

abbrev pub one : ℕ → State → Turn
one c next = record { out = c ∷ []; next = next; skip = 0 }

abbrev pub pair : State → Turn
pair next = record { out = 32 ∷ 32 ∷ []; next = next; skip = 1 }

-- The byte `c`, before the byte `n`.
unfoldable pub turn : State → ℕ → ℕ → Turn
turn in_code c n =
    if c == b'\''
    then one 32 in_string
    else if (c == b'-') && (n == b'-')
    then pair in_line_comment
    else if (c == b'/') && (n == b'*')
    then pair in_block_comment
    else one (to_upper c) in_code
turn in_string c n =
    if (c == b'\'') && (n == b'\'')
    then pair in_string
    else if c == b'\''
    then one 32 in_code
    else one 32 in_string
turn in_line_comment c n = if c == 10 then one 10 in_code else one 32 in_line_comment
turn in_block_comment c n =
    if (c == b'*') && (n == b'/') then pair in_code else one 32 in_block_comment

abbrev pub next_byte : Bytes → ℕ
next_byte [] = 0
next_byte (n ∷ s) = n

-- The loop; `skip` bytes have been consumed by the last turn.
unfoldable pub normalized : State → ℕ → Bytes → Bytes
normalized st skip [] = []
normalized st (suc skip) (c ∷ s) = normalized st skip s
normalized st zero (c ∷ s) = let t = turn st c (next_byte s) in t.out ++ normalized t.next t.skip s

abbrev pub is_ws : ℕ → Bool
is_ws c = (c == 32) || (c == 9) || (c == 10) || (c == 13) || (c == 12) || (c == 11)

-- Runs of whitespace become one blank.
unfoldable pub collapsed : Bool → Bytes → Bytes
collapsed prev_ws [] = []
collapsed prev_ws (c ∷ s) =
    let rest = collapsed (is_ws c) s in
    if is_ws c then (if prev_ws then rest else 32 ∷ rest) else c ∷ rest

pub record ViewAnalysis : Type 0 where
  pub inspected : Bool
  pub has_join : Bool
  pub has_group_by : Bool
  pub has_where : Bool
  pub has_aggregate : Bool

abbrev pub not_inspected : ViewAnalysis
not_inspected = record {
  inspected = false;
  has_join = false;
  has_group_by = false;
  has_where = false;
  has_aggregate = false;
}

unfoldable pub haystack : Bytes → Bytes
haystack src = codes " " ++ collapsed false (normalized in_code zero src) ++ codes " "

abbrev pub found_in : Bytes → ViewAnalysis
found_in hay = record {
  inspected = true;
  has_join = contains (codes " JOIN ") hay;
  has_group_by = contains (codes " GROUP BY ") hay;
  has_where = contains (codes " WHERE ") hay;
  has_aggregate =
      contains (codes "COUNT(") hay
      || contains (codes "SUM(") hay
      || contains (codes "AVG(") hay
      || contains (codes "MIN(") hay
      || contains (codes "MAX(") hay
      || contains (codes "LIST(") hay
      || contains (codes "COUNT (") hay
      || contains (codes "SUM (") hay
      || contains (codes "AVG (") hay
      || contains (codes "MIN (") hay
      || contains (codes "MAX (") hay
      || contains (codes "LIST (") hay;
}

-- The source that the cursor read; none where it threw, had no row, or had NULL.
unfoldable pub analyze_view_source : Option Bytes → ViewAnalysis
analyze_view_source none = not_inspected
analyze_view_source (some src) = if is_empty src then not_inspected else found_in (haystack src)

-- The queries that are sent for a relation.
unfoldable pub object_type_query : Bytes → Bytes
object_type_query upper_table =
    codes "SELECT CASE WHEN r.RDB$VIEW_BLR IS NOT NULL "
    ++ codes "            OR r.RDB$RELATION_TYPE = 1 THEN 'VIEW' "
    ++ codes "            ELSE 'TABLE' END "
    ++ codes "  FROM RDB$RELATIONS r "
    ++ codes " WHERE r.RDB$RELATION_NAME = "
    ++ sql_literal upper_table

unfoldable pub view_source_query : Bytes → Bytes
view_source_query upper_table =
    codes "SELECT RDB$VIEW_SOURCE FROM RDB$RELATIONS "
    ++ codes " WHERE RDB$RELATION_NAME = "
    ++ sql_literal upper_table
