-- ===== src/Query/Pushdown.antt =====
-- What `Build` of src/firebird_query.cpp does with each filter, and which rows its window selects.
use duckdb_firebird.Common.{
  ℕ, suc, ◌+◌, ◌-◌, ◌<◌, ◌%◌, ◌^◌, ◌≡◌, refl, Bool, false, Option, none, some, List, [], ◌∷◌, ◌++◌,
  Bytes, codes, length, if◌then◌else◌, if-intro, arith, drop, take, ap, ◌∙◌, sym, subst, ◌==◌, leb,
  ◌||◌, get_elem?, take-length-append, ◌⊎◌, inl, inr,
}
use duckdb_firebird.Duck.{Value, Duckdb, TableFilter, row_id}
use duckdb_firebird.Firebird.{FirebirdColumnDesc}
use duckdb_firebird.Query.Translate.{translate_filter}
use duckdb_firebird.Query.Build.{
  select_item, filter_column, Progress, residual, take_outcome, Scan, push_filter, is_gated_column,
  rows_bounds,
}
use duckdb_firebird.Query.Whole.{Whole}
use duckdb_firebird.Query.Whole.Written.{written-Whole}
use duckdb_firebird.Query.Placeholders.{IsPrinter}
use duckdb_firebird.Query.Placeholders.Texts.{IsFragment-filter_column}
use duckdb_firebird.Query.Placeholders.Trees.{filter-IsTranslation}

-- The filter `i` goes back to DuckDB: nothing of it is sent, and its index and a reason are noted,
-- at the same place of the two lists.
pub record IsKeptBack (i : ℕ) (r r' : Progress) : Type 0 where
  pub reason : Bytes
  pub conds : r'.conds ≡ r.conds
  pub params : r'.params ≡ r.params
  pub pushed : r'.pushed_filter_sql ≡ r.pushed_filter_sql
  pub indices : r'.residual_filter_indices ≡ r.residual_filter_indices ++ i ∷ []
  pub reasons : r'.residual_filter_reasons ≡ r.residual_filter_reasons ++ reason ∷ []

-- The filter is sent whole, every child of every conjunction and every value in it, on the expression that the
-- projection has in its place, and that is not a text that this side decodes.
pub record IsPushed (db : Duckdb) (q : Scan) (projected : ℕ) (f : TableFilter) (r r' : Progress)
    : Type 0 where
  pub column : ℕ
  pub frag : Bytes
  pub found : get_elem? q.column_ids projected ≡ some column
  pub ungated : is_gated_column q.column_descs q.none_encoding column ≡ false
  pub translated :
      (translate_filter db (select_item q.all_column_names q.column_descs column) f r.params)
      ≡ record { fragment = some frag; params = r'.params }
  pub whole :
      Whole db (select_item q.all_column_names q.column_descs column) f r.params frag r'.params
  pub conds : r'.conds ≡ r.conds ++ (codes "(" ++ frag ++ codes ")") ∷ []
  pub pushed : r'.pushed_filter_sql ≡ r.pushed_filter_sql ++ frag ∷ []
  pub indices : r'.residual_filter_indices ≡ r.residual_filter_indices
  pub reasons : r'.residual_filter_reasons ≡ r.residual_filter_reasons

select_item-filter_column :
    (names : List Bytes) (descs : Option (List FirebirdColumnDesc)) (c : ℕ)
    → (c == row_id) ≡ false
    → select_item names descs c ≡ filter_column names descs c
unfolding select_item filter_column
select_item-filter_column names descs c p = rw p

or_false : (a b : Bool) → (a || b) ≡ false → a ≡ false
or_false a b h = ground arith

module _ (db : Duckdb) (h : IsPrinter db) (q : Scan) (i projected : ℕ) (f : TableFilter)
    (r : Progress) where
  abbrev Verdict : Progress → Type 0
  Verdict r' = IsKeptBack i r r' ⊎ IsPushed db q projected f r r'

  kept : (reason : Bytes) → Verdict (residual i reason r)
  kept reason = inl (record {
    reason = reason;
    conds = refl;
    params = refl;
    pushed = refl;
    indices = refl;
    reasons = refl;
  })

  sent :
      (c : ℕ) (text : Option Bytes) (new qs : List Value)
      → get_elem? q.column_ids projected ≡ some c
      → (c == row_id) ≡ false
      → is_gated_column q.column_descs q.none_encoding c ≡ false
      → translate_filter db (filter_column q.all_column_names q.column_descs c) f r.params
        ≡ record { fragment = text; params = qs }
      → qs ≡ r.params ++ new
      → Verdict (take_outcome i (record { fragment = text; params = qs }) r)
  unfolding take_outcome
  sent c none new qs e n g t p = inl (record {
    reason = codes "UNSUPPORTED_OP";
    conds = refl;
    params = ap (take (length r.params)) p ∙ take-length-append r.params new;
    pushed = refl;
    indices = refl;
    reasons = refl;
  })
  sent c (some frag) new qs e n g t p = inr (record {
    column = c;
    frag = frag;
    found = e;
    ungated = g;
    translated =
        ap (λ column. translate_filter db column f r.params)
          (select_item-filter_column q.all_column_names q.column_descs c n)
        ∙ t;
    whole =
        subst (λ column. Whole db column f r.params frag qs)
          (sym (select_item-filter_column q.all_column_names q.column_descs c n))
          (written-Whole db (filter_column q.all_column_names q.column_descs c) f r.params frag qs
            t);
    conds = refl;
    pushed = refl;
    indices = refl;
    reasons = refl;
  })

  looked_up :
      (found : Option ℕ)
      → get_elem? q.column_ids projected ≡ found
      → Verdict (elim found [
        | none ↦ residual i (codes "UNSUPPORTED_PROJECTION_MAPPING") r
        | some c ↦
            if (c == row_id) || leb (length q.all_column_names) c
            then residual i (codes "ROWID_OR_INVALID_COLUMN") r
            else if is_gated_column q.column_descs q.none_encoding c
            then residual i (codes "NONE_CHARSET") r
            else take_outcome i
                (translate_filter db (filter_column q.all_column_names q.column_descs c) f r.params)
                r
      ])
  looked_up none e = kept (codes "UNSUPPORTED_PROJECTION_MAPPING")
  looked_up (some c) e =
      let column = filter_column q.all_column_names q.column_descs c in
      let o = translate_filter db column f r.params in
      let t =
        filter-IsTranslation db h column
          (IsFragment-filter_column q.all_column_names q.column_descs c) f r.params in
      if-intro Verdict ((c == row_id) || leb (length q.all_column_names) c)
        (λ p. kept (codes "ROWID_OR_INVALID_COLUMN"))
        (λ p.
          if-intro Verdict (is_gated_column q.column_descs q.none_encoding c)
            (λ g. kept (codes "NONE_CHARSET"))
            (λ g.
              sent c o.fragment t.new o.params e
                (or_false (c == row_id) (leb (length q.all_column_names) c) p) g refl t.pushed))

-- Each turn of the loop either keeps the filter back, with nothing of it sent and its index and one
-- reason noted, or sends its translation on the very expression that the projection has in that
-- place, and never on a CHARACTER SET NONE text that is decoded on this side. A filter that is sent
-- is sent whole: every child of every conjunction in it stands in the text, in order, in parentheses
-- and with the separator between, and so does every value of an IN-list, with commas between.
pub push_filter-verdict :
    (db : Duckdb)
    → IsPrinter db
    → (q : Scan) (i projected : ℕ) (f : TableFilter) (r : Progress)
    → IsKeptBack i r (push_filter db q i projected f r)
      ⊎ IsPushed db q projected f r (push_filter db q i projected f r)
unfolding push_filter
push_filter-verdict db h q i projected f r =
    looked_up db h q i projected f r (get_elem? q.column_ids projected) refl

-- `ROWS m TO n` of Firebird: the rows from the m-th to the n-th, counted from 1.
abbrev pub rows_window {ℓ} : {A : Type ℓ} → ℕ × ℕ → List A → List A
rows_window (start, end) rows = take (suc end - start) (drop (start - 1) rows)

-- The window that is sent selects the LIMIT rows behind the first OFFSET ones, if their sum is
-- below 2^64.
pub rows_window-rows_bounds {ℓ} :
    {A : Type ℓ} (offset limit : ℕ) (rows : List A)
    → offset + limit < 2 ^ 64
    → offset + 1 < 2 ^ 64
    → rows_window (rows_bounds offset limit) rows ≡ take limit (drop offset rows)
unfolding rows_bounds
rows_window-rows_bounds offset limit rows h k =
    let a : (offset + 1) % 2 ^ 64 ≡ suc offset = omega arith in
    let b : (offset + limit) % 2 ^ 64 ≡ offset + limit = omega arith in
    let c : suc (offset + limit) - suc offset ≡ limit = omega arith in
    let d : suc offset - 1 ≡ offset = omega arith in rw (a, b, c, d)
