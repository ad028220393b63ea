-- ===== src/Complex/Texts.antt =====
-- The predicates that `FirebirdScanPushdownComplexFilter` of src/firebird_scanner.cpp lifts, as the
-- server's lexer reads them.
use duckdb_firebird.Common.{
  ℕ, ◌*◌, refl, Bool, true, false, List, [], ◌∷◌, ◌++◌, Bytes, codes, map, length, All, All-append,
  sym, subst, if-intro, arith,
}
use duckdb_firebird.Charset.Transcode.{NoneEncoding, strict, win1252, iso_8859_1, blob}
use duckdb_firebird.Duck.{Value, Expression}
use duckdb_firebird.Sql.{quote_ident, sql_literal}
use duckdb_firebird.Sql.Lexer.{IsFragment, lex, marks}
use duckdb_firebird.Sql.Fragment.{
  IsFragment-append, IsFragment-nil, IsFragment-quote_ident, IsFragment-sql_literal,
}
use duckdb_firebird.Query.Build.{separated}
use duckdb_firebird.Query.Placeholders.{recount, closing}
use duckdb_firebird.Query.Placeholders.Texts.{IsQuiet, and_then, comma, cast_opening, cast_closing}
use duckdb_firebird.Complex.Columns.{
  BoundColumns, none_pushdown_introducer, is_decfloat, source_name, col_expr,
}
use duckdb_firebird.Complex.Pushdown.{
  ExtraPredicate, Lifted, Verdict, unmatched, kept, pushed, encoded_predicate, like_predicate,
  not_in_predicate, verdict, pushdown_complex_filter,
}
use duckdb_firebird.Complex.Cases.{Push, like, values, not_in, negation, Grounded, verdict-Grounded}
use duckdb_firebird.Complex.Split.{predicates, all_predicates, pushdown_complex_filter-each}

-- A predicate closes its quotes and has a placeholder for every parameter.
abbrev pub IsBound : ExtraPredicate → Type 0
IsBound p = IsFragment (length p.params) p.sql

-- Parts joined by a comma.
pub IsFragment-listed :
    {A : Type 0} (n : ℕ) (f : A → Bytes)
    → ((a : A) → IsFragment n (f a))
    → (xs : List A) → IsFragment (length xs * n) (separated (codes ", ") (map f xs))
unfolding separated
IsFragment-listed n f h [] = recount IsFragment-nil (omega arith)
IsFragment-listed n f h (a ∷ []) = recount (h a) (omega arith)
IsFragment-listed n f h (a ∷ b ∷ xs) =
    let rest = IsFragment-listed n f h (b ∷ xs) in
    recount
      (IsFragment-append (f a ++ codes ", ") (separated (codes ", ") (map f (b ∷ xs)))
        (and_then (f a) (codes ", ") (h a) comma) rest)
      (omega arith)

like_text : IsQuiet (codes " LIKE ")
unfolding lex marks
like_text = record { closed = refl; counted = refl }

escape_text : IsQuiet (codes " ESCAPE '\\'")
unfolding lex marks
escape_text = record { closed = refl; counted = refl }

in_text : IsQuiet (codes " IN (")
unfolding lex marks
in_text = record { closed = refl; counted = refl }

not_in_text : IsQuiet (codes " NOT IN (")
unfolding lex marks
not_in_text = record { closed = refl; counted = refl }

not_text : IsQuiet (codes "NOT ")
unfolding lex marks
not_text = record { closed = refl; counted = refl }

equal_text : IsQuiet (codes " = ")
unfolding lex marks
equal_text = record { closed = refl; counted = refl }

placeholder : IsFragment 1 (codes "?")
unfolding lex marks
placeholder = record { closed = refl; counted = refl }

introducer-IsQuiet : (mode : NoneEncoding) → IsQuiet (none_pushdown_introducer mode)
unfolding none_pushdown_introducer lex marks
introducer-IsQuiet strict = record { closed = refl; counted = refl }
introducer-IsQuiet win1252 = record { closed = refl; counted = refl }
introducer-IsQuiet iso_8859_1 = record { closed = refl; counted = refl }
introducer-IsQuiet blob = record { closed = refl; counted = refl }

module _ (bind : BoundColumns) (src : ℕ) where
  col_expr-IsQuiet : IsQuiet (col_expr bind src)
  unfolding col_expr
  col_expr-IsQuiet =
      let name = source_name bind src in
      if-intro IsQuiet (is_decfloat bind src)
        (λ p.
          and_then (codes "CAST(" ++ quote_ident name) (codes " AS VARCHAR(64))")
            (and_then (codes "CAST(") (quote_ident name) cast_opening (IsFragment-quote_ident name))
            cast_closing)
        (λ p. IsFragment-quote_ident name)

encoded_literal-IsQuiet :
    (mode : NoneEncoding) (bytes : Bytes)
    → IsQuiet (none_pushdown_introducer mode ++ sql_literal bytes)
encoded_literal-IsQuiet mode bytes =
    and_then (none_pushdown_introducer mode) (sql_literal bytes) (introducer-IsQuiet mode)
      (IsFragment-sql_literal bytes)

encoded_predicate-IsQuiet :
    (mode : NoneEncoding) (is_in : Bool) (column : Bytes) (encoded : List Bytes)
    → IsQuiet column
    → IsQuiet (encoded_predicate mode is_in column encoded)
unfolding encoded_predicate
encoded_predicate-IsQuiet mode true column encoded c =
    let literal = λ (bytes : Bytes). none_pushdown_introducer mode ++ sql_literal bytes in
    let listed = separated (codes ", ") (map literal encoded) in
    and_then (column ++ codes " IN (" ++ listed) (codes ")")
      (and_then (column ++ codes " IN (") listed (and_then column (codes " IN (") c in_text) (
        recount (IsFragment-listed 0 literal (encoded_literal-IsQuiet mode) encoded) (omega arith)))
      closing
encoded_predicate-IsQuiet mode false column [] c = IsFragment-nil
encoded_predicate-IsQuiet mode false column (bytes ∷ encoded) c =
    and_then (column ++ codes " = " ++ none_pushdown_introducer mode) (sql_literal bytes)
      (and_then (column ++ codes " = ") (none_pushdown_introducer mode)
        (and_then column (codes " = ") c equal_text) (introducer-IsQuiet mode))
      (IsFragment-sql_literal bytes)

module _ (bind : BoundColumns) where
  like_predicate-IsBound : (src : ℕ) (pattern : Bytes) → IsBound (like_predicate bind src pattern)
  like_predicate-IsBound src pattern =
      let column = col_expr bind src in
      and_then (column ++ codes " LIKE " ++ sql_literal pattern) (codes " ESCAPE '\\'")
        (and_then (column ++ codes " LIKE ") (sql_literal pattern)
          (and_then column (codes " LIKE ") (col_expr-IsQuiet bind src) like_text)
          (IsFragment-sql_literal pattern))
        escape_text

  not_in_predicate-IsBound :
      (src : ℕ) (constants : List Value) → IsBound (not_in_predicate bind src constants)
  not_in_predicate-IsBound src constants =
      let column = col_expr bind src in
      let marked = λ (v : Value). codes "?" in
      let listed = separated (codes ", ") (map marked constants) in
      let front = and_then column (codes " NOT IN (") (col_expr-IsQuiet bind src) not_in_text in
      recount
        (and_then (column ++ codes " NOT IN (" ++ listed) (codes ")")
          (IsFragment-append (column ++ codes " NOT IN (") listed front
            (IsFragment-listed 1 marked (λ v. placeholder) constants))
          closing)
        (omega arith)

  Push-IsBound :
      (col_ids : List ℕ) (e : Expression) (p : ExtraPredicate) → Push bind col_ids e p → IsBound p
  Push-IsBound col_ids e _ (like projected src pattern m r g) = like_predicate-IsBound src pattern
  Push-IsBound col_ids e _ (values is_in projected src literals encoded m r t) =
      encoded_predicate-IsQuiet bind.none_encoding is_in (col_expr bind src) encoded
        (col_expr-IsQuiet bind src)
  Push-IsBound col_ids e _ (not_in projected src constants m r g) =
      not_in_predicate-IsBound src constants
  Push-IsBound col_ids e _ (negation projected src m r d) =
      and_then (codes "NOT ") (quote_ident (source_name bind src)) not_text
        (IsFragment-quote_ident (source_name bind src))

pushed-IsBound :
    (bind : BoundColumns) (col_ids : List ℕ) (e : Expression) (v : Verdict)
    → Grounded bind col_ids e v
    → All IsBound (predicates v)
pushed-IsBound bind col_ids e unmatched g = tt
pushed-IsBound bind col_ids e (kept reason) g = tt
pushed-IsBound bind col_ids e (pushed p) g = (Push-IsBound bind col_ids e p g, tt)

all_predicates-IsBound :
    (bind : BoundColumns) (col_ids : List ℕ) (es : List Expression)
    → All IsBound (all_predicates bind col_ids es)
all_predicates-IsBound bind col_ids [] = tt
all_predicates-IsBound bind col_ids (e ∷ es) =
    let v = verdict bind col_ids e in
    All-append IsBound (predicates v) (all_predicates bind col_ids es)
      (pushed-IsBound bind col_ids e v (verdict-Grounded bind col_ids e))
      (all_predicates-IsBound bind col_ids es)

-- Every predicate that the loop has lifted closes its quotes and has exactly one placeholder,
-- outside of quotes, for every parameter that comes with it, for every filter, column name and
-- literal, if this holds of those lifted before.
pub pushdown_complex_filter-IsBound :
    (bind : BoundColumns) (col_ids : List ℕ) (es : List Expression) (l : Lifted)
    → All IsBound l.extra_predicates
    → All IsBound (pushdown_complex_filter bind col_ids es l).1.extra_predicates
pushdown_complex_filter-IsBound bind col_ids es l h =
    subst (All IsBound) (sym (pushdown_complex_filter-each bind col_ids es l).1) (
      All-append IsBound l.extra_predicates (all_predicates bind col_ids es) h
        (all_predicates-IsBound bind col_ids es))
