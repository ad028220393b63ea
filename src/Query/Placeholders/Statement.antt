-- ===== src/Query/Placeholders/Statement.antt =====
-- The placeholders of the statement that `Build` writes.
use duckdb_firebird.Common.{
  ℕ, true, suc, ◌+◌, ◌≡◌, refl, Option, none, some, List, [], ◌∷◌, ◌++◌, Bytes, codes, length,
  if◌then◌else◌, if-intro, arith, sym, drop, take, ap, ◌∙◌, subst, ◌==◌, leb, ◌||◌, get_elem?,
  take-length-append, length-append, is_empty, contains, append_assoc, drop-length-append,
}
use duckdb_firebird.Duck.{Value, Duckdb, TableFilter, row_id}
use duckdb_firebird.Sql.{quote_ident}
use duckdb_firebird.Sql.Decimal.{decimal}
use duckdb_firebird.Sql.Lexer.{IsFragment, marks}
use duckdb_firebird.Sql.Fragment.{
  IsFragment-append, IsFragment-nil, IsFragment-quote_ident, IsFragment-decimal,
}
use duckdb_firebird.Query.Values.{Outcome}
use duckdb_firebird.Query.Translate.{translate_filter}
use duckdb_firebird.Query.Build.{
  filter_column, separated, projection, Progress, nothing_pushed, residual, take_outcome, Scan,
  push_filter, push_filters, where_clause, with_predicate, rows_clause, rows_bounds, build,
  is_gated_column,
}
use duckdb_firebird.Query.Placeholders.{IsPrinter, Counts, parenthesised, recount}
use duckdb_firebird.Query.Placeholders.Trees.{filter-IsTranslation}
use duckdb_firebird.Query.Placeholders.Texts.{
  IsQuiet, and_text, where_text, select_text, from_text, order_text, rows_text, to_text, and_then,
  IsFragment-filter_column, IsFragment-projection,
}

-- One more condition behind the others.
separated-snoc :
    (sep x y : Bytes) (xs : List Bytes)
    → separated sep (x ∷ (xs ++ y ∷ [])) ≡ separated sep (x ∷ xs) ++ sep ++ y
unfolding separated
separated-snoc sep x y [] = refl
separated-snoc sep x y (z ∷ xs) =
    let s = separated sep (z ∷ xs) in
    rw (
      separated-snoc sep z y xs,
      append_assoc s sep y,
      append_assoc (x ++ sep ++ s) sep y,
      append_assoc (x ++ sep) s (sep ++ y),
    )

no_text : {n : ℕ} → IsFragment n [] → 0 ≡ n
unfolding marks
no_text f = f.counted

snoc-IsFragment :
    {m n : ℕ} (cs : List Bytes) (y : Bytes)
    → IsFragment m (separated (codes " AND ") cs)
    → IsFragment n y
    → IsFragment (m + n) (separated (codes " AND ") (cs ++ y ∷ []))
unfolding separated
snoc-IsFragment [] y f g = recount g (omega (arith, no_text f))
snoc-IsFragment {m} {n} (c ∷ cs) y f g =
    let whole = separated (codes " AND ") (c ∷ cs) in
    subst (λ s. IsFragment (m + n) s) (sym (separated-snoc (codes " AND ") c y cs))
      (IsFragment-append (whole ++ codes " AND ") y (and_then whole (codes " AND ") f and_text) g)

-- What the loop keeps: one placeholder in the conditions for every parameter.
abbrev IsBalanced : Progress → Type 0
IsBalanced r = IsFragment (length r.params) (separated (codes " AND ") r.conds)

outcome_cases :
    (i : ℕ) (text : Option Bytes) (r : Progress) (new qs : List Value)
    → qs ≡ r.params ++ new
    → Counts text (0 + length new)
    → IsBalanced r
    → IsBalanced (take_outcome i (record { fragment = text; params = qs }) r)
unfolding take_outcome
outcome_cases i none r new qs p t b =
    subst (λ l. IsFragment (length l) (separated (codes " AND ") r.conds))
      (sym (ap (take (length r.params)) p ∙ take-length-append r.params new)) b
outcome_cases i (some frag) r new qs p t b =
    recount
      (snoc-IsFragment r.conds (codes "(" ++ frag ++ codes ")") b
        (parenthesised [] frag IsFragment-nil t))
      (omega (arith, ap length p, length-append r.params new))

IsBalanced-push_filter :
    (db : Duckdb)
    → IsPrinter db
    → (q : Scan) (i projected : ℕ) (f : TableFilter) (r : Progress) → IsBalanced r
    → IsBalanced (push_filter db q i projected f r)
unfolding push_filter
IsBalanced-push_filter db h q i projected f r b = go (get_elem? q.column_ids projected)
  where
    translated : ℕ → Outcome
    translated c =
        translate_filter db (filter_column q.all_column_names q.column_descs c) f r.params

    go :
        (found : Option ℕ)
        → IsBalanced (elim found [
          | none ↦ residual i (codes "UNSUPPORTED_PROJECTION_MAPPING") r
          | some c ↦
              if (c == row_id) || leb (length q.all_column_names) c
              then residual i (codes "ROWID_OR_INVALID_COLUMN") r
              else if is_gated_column q.column_descs q.none_encoding c
              then residual i (codes "NONE_CHARSET") r
              else take_outcome i
                  (translate_filter db
                    (filter_column q.all_column_names q.column_descs c)
                    f
                    r.params)
                  r
        ])
    go none = b
    go (some c) =
        let t =
          filter-IsTranslation db h (filter_column q.all_column_names q.column_descs c)
            (IsFragment-filter_column q.all_column_names q.column_descs c) f r.params in
        if-intro IsBalanced ((c == row_id) || leb (length q.all_column_names) c) (λ p. b)
          (λ p.
            if-intro IsBalanced (is_gated_column q.column_descs q.none_encoding c) (λ g. b)
              (λ g.
                outcome_cases i (translated c).fragment r t.new (translated c).params t.pushed
                  t.counts b))

IsBalanced-push_filters :
    (db : Duckdb)
    → IsPrinter db
    → (q : Scan) (i : ℕ) (fs : List (ℕ × TableFilter)) (r : Progress) → IsBalanced r
    → IsBalanced (push_filters db q i fs r)
unfolding push_filters
IsBalanced-push_filters db h q i [] r b = b
IsBalanced-push_filters db h q i ((projected, f) ∷ fs) r b =
    IsBalanced-push_filters db h q (suc i) fs (push_filter db q i projected f r)
      (IsBalanced-push_filter db h q i projected f r b)

none_yet : IsBalanced nothing_pushed
unfolding separated
none_yet = IsFragment-nil

IsFragment-where_clause :
    {n : ℕ} (cs : List Bytes)
    → IsFragment n (separated (codes " AND ") cs)
    → IsFragment n (where_clause cs)
unfolding separated
IsFragment-where_clause [] f = f
IsFragment-where_clause (c ∷ cs) f =
    recount (IsFragment-append (codes " WHERE ") (separated (codes " AND ") (c ∷ cs)) where_text f)
      (omega arith)

IsFragment-with_predicate :
    {m n : ℕ} (sql extra : Bytes)
    → IsFragment m sql
    → IsFragment n extra
    → (is_empty extra ≡ true → n ≡ 0)
    → IsFragment (m + n) (with_predicate sql extra)
unfolding with_predicate
IsFragment-with_predicate {m} {n} sql extra f e absent =
    let has = contains (codes " WHERE ") sql in
    let glue = if has then codes " AND " else codes " WHERE " in
    if-intro (λ s. IsFragment (m + n) s) (is_empty extra) (λ p. recount f (omega (arith, absent p)))
      (λ p.
        parenthesised (sql ++ glue) extra
          (and_then sql glue f (if-intro IsQuiet has (λ w. and_text) (λ w. where_text))) e)

IsQuiet-rows_clause :
    (limit offset : Option ℕ) (order_by : Bytes)
    → IsQuiet order_by
    → IsQuiet (rows_clause limit offset order_by)
unfolding rows_clause rows_bounds
IsQuiet-rows_clause none offset order_by o = IsFragment-nil
IsQuiet-rows_clause (some limit) none order_by o =
    let ordered = and_then (codes " ORDER BY ") order_by order_text o in
    let rows = and_then (codes " ORDER BY " ++ order_by) (codes " ROWS ") ordered rows_text in
    and_then (codes " ORDER BY " ++ order_by ++ codes " ROWS ") (decimal limit) rows
      (IsFragment-decimal limit)
IsQuiet-rows_clause (some limit) (some offset) order_by o =
    let start = decimal (rows_bounds offset limit).0 in
    let ordered = and_then (codes " ORDER BY ") order_by order_text o in
    let rows = and_then (codes " ORDER BY " ++ order_by) (codes " ROWS ") ordered rows_text in
    let started =
      and_then (codes " ORDER BY " ++ order_by ++ codes " ROWS ") start rows
        (IsFragment-decimal (rows_bounds offset limit).0) in
    and_then (codes " ORDER BY " ++ order_by ++ codes " ROWS " ++ start ++ codes " TO ")
      (decimal (rows_bounds offset limit).1)
      (and_then (codes " ORDER BY " ++ order_by ++ codes " ROWS " ++ start) (codes " TO ") started
        to_text)
      (IsFragment-decimal (rows_bounds offset limit).1)

-- A translated filter only appends parameters, and its text has exactly one placeholder for each
-- that it appended, outside of quotes and with all quotes closed, if the column's text has none
-- and is closed.
pub translate_filter-IsFragment :
    (db : Duckdb)
    → IsPrinter db
    → (column : Bytes) → IsFragment 0 column
    → (f : TableFilter) (ps : List Value) (s : Bytes)
    → (translate_filter db column f ps).fragment ≡ some s
    → ((translate_filter db column f ps).params
        ≡ ps ++ drop (length ps) (translate_filter db column f ps).params)
      × IsFragment (length (drop (length ps) (translate_filter db column f ps).params)) s
translate_filter-IsFragment db h column c f ps s e =
    let t = filter-IsTranslation db h column c f ps in
    let new = ap (drop (length ps)) t.pushed ∙ drop-length-append ps t.new in
    (
      t.pushed ∙ ap (λ l. ps ++ l) (sym new),
      recount (subst (λ o. Counts o (0 + length t.new)) e t.counts) (omega (arith, ap length new)),
    )

-- The statement that `Build` returns closes all its quotes and has, outside of quotes, exactly one
-- placeholder for every parameter and those of the partition predicate, for every table, columns
-- and filters, if the predicate and the ORDER BY text close their quotes and the latter has none.
pub build_with-IsFragment :
    {n : ℕ} (db : Duckdb)
    → IsPrinter db
    → (q : Scan) (fs : List (ℕ × TableFilter)) (extra : Bytes) (limit offset : Option ℕ)
      (order_by : Bytes)
    → IsFragment n extra
    → (is_empty extra ≡ true → n ≡ 0)
    → IsFragment 0 order_by
    → IsFragment
        (length (build db q fs extra limit offset order_by).progress.params + n)
        (build db q fs extra limit offset order_by).sql
unfolding build
build_with-IsFragment {n} db h q fs extra limit offset order_by e absent o =
    let r = push_filters db q 0 fs nothing_pushed in
    let items = projection q.all_column_names q.column_descs q.column_ids in
    let selected = codes "SELECT " ++ items ++ codes " FROM " ++ quote_ident q.table_name in
    let quiet : IsQuiet selected =
      and_then (codes "SELECT " ++ items ++ codes " FROM ") (quote_ident q.table_name)
        (and_then (codes "SELECT " ++ items) (codes " FROM ")
          (and_then (codes "SELECT ") items select_text
            (IsFragment-projection q.all_column_names q.column_descs q.column_ids))
          from_text)
        (IsFragment-quote_ident q.table_name) in
    let balanced = IsBalanced-push_filters db h q 0 fs nothing_pushed none_yet in
    let filtered : IsFragment (length r.params) (selected ++ where_clause r.conds) =
      recount
        (IsFragment-append selected (where_clause r.conds) quiet
          (IsFragment-where_clause r.conds balanced))
        (omega arith) in
    and_then (with_predicate (selected ++ where_clause r.conds) extra)
      (rows_clause limit offset order_by)
      (IsFragment-with_predicate (selected ++ where_clause r.conds) extra filtered e absent)
      (IsQuiet-rows_clause limit offset order_by o)

-- The statement that `Build` returns has exactly one placeholder for every parameter, outside of
-- quotes, and closes all its quotes, for every table, columns and filters, if the partition
-- predicate and the ORDER BY text have no placeholder and close their quotes.
pub build-IsFragment :
    (db : Duckdb)
    → IsPrinter db
    → (q : Scan) (fs : List (ℕ × TableFilter)) (extra : Bytes) (limit offset : Option ℕ)
      (order_by : Bytes)
    → IsFragment 0 extra
    → IsFragment 0 order_by
    → IsFragment
        (length (build db q fs extra limit offset order_by).progress.params)
        (build db q fs extra limit offset order_by).sql
build-IsFragment db h q fs extra limit offset order_by e o =
    recount (build_with-IsFragment db h q fs extra limit offset order_by e (λ p. refl) o)
      (omega arith)
