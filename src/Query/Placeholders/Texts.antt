-- ===== src/Query/Placeholders/Texts.antt =====
-- The parts of the statement that `Build` of src/firebird_query.cpp writes besides the filters.
use duckdb_firebird.Common.{
  ℕ, refl, Option, List, [], ◌∷◌, ◌++◌, Bytes, codes, map, if-intro, arith, ◌==◌,
}
use duckdb_firebird.Duck.{row_id}
use duckdb_firebird.Firebird.{FirebirdColumnDesc}
use duckdb_firebird.Sql.{quote_ident}
use duckdb_firebird.Sql.Lexer.{IsFragment, lex, marks}
use duckdb_firebird.Sql.Fragment.{IsFragment-append, IsFragment-nil, IsFragment-quote_ident}
use duckdb_firebird.Query.Build.{
  select_item, filter_column, separated, projection, column_name, is_decfloat_column,
}
use duckdb_firebird.Query.Placeholders.{recount}

-- A text of the source that neither quotes nor asks for a parameter.
abbrev pub IsQuiet : Bytes → Type 0
IsQuiet s = IsFragment 0 s

pub cast_opening : IsQuiet (codes "CAST(")
unfolding lex marks
cast_opening = record { closed = refl; counted = refl }

pub cast_closing : IsQuiet (codes " AS VARCHAR(64))")
unfolding lex marks
cast_closing = record { closed = refl; counted = refl }

null_item : IsQuiet (codes "CAST(NULL AS BIGINT)")
unfolding lex marks
null_item = record { closed = refl; counted = refl }

pub comma : IsQuiet (codes ", ")
unfolding lex marks
comma = record { closed = refl; counted = refl }

pub and_text : IsQuiet (codes " AND ")
unfolding lex marks
and_text = record { closed = refl; counted = refl }

pub where_text : IsQuiet (codes " WHERE ")
unfolding lex marks
where_text = record { closed = refl; counted = refl }

star : IsQuiet (codes "*")
unfolding lex marks
star = record { closed = refl; counted = refl }

pub select_text : IsQuiet (codes "SELECT ")
unfolding lex marks
select_text = record { closed = refl; counted = refl }

pub from_text : IsQuiet (codes " FROM ")
unfolding lex marks
from_text = record { closed = refl; counted = refl }

pub order_text : IsQuiet (codes " ORDER BY ")
unfolding lex marks
order_text = record { closed = refl; counted = refl }

pub rows_text : IsQuiet (codes " ROWS ")
unfolding lex marks
rows_text = record { closed = refl; counted = refl }

pub to_text : IsQuiet (codes " TO ")
unfolding lex marks
to_text = record { closed = refl; counted = refl }

-- Quiet text behind a fragment.
pub and_then : {n : ℕ} (s t : Bytes) → IsFragment n s → IsQuiet t → IsFragment n (s ++ t)
and_then s t f g = recount (IsFragment-append s t f g) (omega arith)

cast_text : (s : Bytes) → IsQuiet (codes "CAST(" ++ quote_ident s ++ codes " AS VARCHAR(64))")
cast_text s =
    let quoted = and_then (codes "CAST(") (quote_ident s) cast_opening (IsFragment-quote_ident s) in
    and_then (codes "CAST(" ++ quote_ident s) (codes " AS VARCHAR(64))") quoted cast_closing

pub IsFragment-filter_column :
    (names : List Bytes) (descs : Option (List FirebirdColumnDesc)) (c : ℕ)
    → IsQuiet (filter_column names descs c)
unfolding filter_column
IsFragment-filter_column names descs c =
    if-intro IsQuiet (is_decfloat_column descs c) (λ p. cast_text (column_name names c))
      (λ p. IsFragment-quote_ident (column_name names c))

IsFragment-select_item :
    (names : List Bytes) (descs : Option (List FirebirdColumnDesc)) (c : ℕ)
    → IsQuiet (select_item names descs c)
unfolding select_item filter_column
IsFragment-select_item names descs c =
    if-intro IsQuiet (c == row_id) (λ p. null_item) (λ p. IsFragment-filter_column names descs c)

items-IsQuiet :
    (names : List Bytes) (descs : Option (List FirebirdColumnDesc)) (cs : List ℕ)
    → IsQuiet (separated (codes ", ") (map (select_item names descs) cs))
unfolding separated
items-IsQuiet names descs [] = IsFragment-nil
items-IsQuiet names descs (c ∷ []) = IsFragment-select_item names descs c
items-IsQuiet names descs (c ∷ d ∷ cs) =
    let item = select_item names descs c in
    and_then (item ++ codes ", ") (separated (codes ", ") (map (select_item names descs) (d ∷ cs)))
      (and_then item (codes ", ") (IsFragment-select_item names descs c) comma)
      (items-IsQuiet names descs (d ∷ cs))

pub IsFragment-projection :
    (names : List Bytes) (descs : Option (List FirebirdColumnDesc)) (cs : List ℕ)
    → IsQuiet (projection names descs cs)
unfolding projection
IsFragment-projection names descs [] = star
IsFragment-projection names descs (c ∷ cs) = items-IsQuiet names descs (c ∷ cs)
