-- ===== src/Query/Record.antt =====
-- What the filter loop of `Build` in src/firebird_query.cpp records of each filter.
use duckdb_firebird.Common.{
  ℕ, suc, ◌≡◌, some, List, [], ◌∷◌, ◌++◌, map, append-nil, append_assoc, Bytes, ap, ◌∙◌, get_elem?,
  ◌⊎◌, inl, inr, sym,
}
use duckdb_firebird.Duck.{Value, Duckdb, TableFilter}
use duckdb_firebird.Query.Translate.{translate_filter}
use duckdb_firebird.Query.Build.{select_item, Progress, Scan, push_filter, push_filters}
use duckdb_firebird.Query.Placeholders.{IsPrinter}
use duckdb_firebird.Query.Pushdown.{IsKeptBack, IsPushed, push_filter-verdict}

-- The filters from the index `i` on, each recorded once and in their order: a residual filter by
-- its own index with a reason, a pushed one by the text that is its translation.
pub data Recorded (db : Duckdb) (q : Scan)
    : ℕ → List (ℕ × TableFilter) → List Bytes → List (ℕ × Bytes) → Type 0 where
  all_recorded : {i : ℕ} → Recorded db q i [] [] []
  residual_next :
      {i : ℕ} {f : ℕ × TableFilter} {fs : List (ℕ × TableFilter)} {texts : List Bytes}
      {marks : List (ℕ × Bytes)} (reason : Bytes)
      → Recorded db q (suc i) fs texts marks
      → Recorded db q i (f ∷ fs) texts ((i, reason) ∷ marks)
  pushed_next :
      {i projected column : ℕ} {f : TableFilter} {fs : List (ℕ × TableFilter)} {texts : List Bytes}
      {marks : List (ℕ × Bytes)} (text : Bytes) (params : List Value)
      → get_elem? q.column_ids projected ≡ some column
      → (translate_filter db
          (select_item q.all_column_names q.column_descs column)
          f
          params).fragment
        ≡ some text
      → Recorded db q (suc i) fs texts marks
      → Recorded db q i ((projected, f) ∷ fs) (text ∷ texts) marks

-- The three lists behind the loop, in terms of those before it.
pub record IsRecorded (db : Duckdb) (q : Scan) (i : ℕ) (fs : List (ℕ × TableFilter))
    (r r' : Progress) : Type 0 where
  pub texts : List Bytes
  pub marks : List (ℕ × Bytes)
  pub recorded : Recorded db q i fs texts marks
  pub pushed : r'.pushed_filter_sql ≡ r.pushed_filter_sql ++ texts
  pub indices : r'.residual_filter_indices ≡ r.residual_filter_indices ++ map (λ m. m.0) marks
  pub reasons : r'.residual_filter_reasons ≡ r.residual_filter_reasons ++ map (λ m. m.1) marks

after :
    {A : Type 0} (x one rest : List A) {y z : List A}
    → y ≡ x ++ one
    → z ≡ y ++ rest
    → z ≡ x ++ (one ++ rest)
after x one rest p q = q ∙ ap (λ l. l ++ rest) p ∙ append_assoc x one rest

same : {A : Type 0} (rest : List A) {x y z : List A} → y ≡ x → z ≡ y ++ rest → z ≡ x ++ rest
same rest p q = q ∙ ap (λ l. l ++ rest) p

one_more :
    (db : Duckdb) (q : Scan) (i projected : ℕ) (f : TableFilter) (fs : List (ℕ × TableFilter))
    (r r' r'' : Progress)
    → IsKeptBack i r r' ⊎ IsPushed db q projected f r r'
    → IsRecorded db q (suc i) fs r' r''
    → IsRecorded db q i ((projected, f) ∷ fs) r r''
one_more db q i projected f fs r r' r'' (inl k) rest = record {
  texts = rest.texts;
  marks = (i, k.reason) ∷ rest.marks;
  recorded = residual_next k.reason rest.recorded;
  pushed = same rest.texts k.pushed rest.pushed;
  indices =
      after r.residual_filter_indices (i ∷ []) (map (λ m. m.0) rest.marks) k.indices rest.indices;
  reasons =
      after r.residual_filter_reasons (k.reason ∷ []) (map (λ m. m.1) rest.marks) k.reasons
        rest.reasons;
}
one_more db q i projected f fs r r' r'' (inr p) rest = record {
  texts = p.frag ∷ rest.texts;
  marks = rest.marks;
  recorded = pushed_next p.frag r.params p.found (ap (λ o. o.fragment) p.translated) rest.recorded;
  pushed = after r.pushed_filter_sql (p.frag ∷ []) rest.texts p.pushed rest.pushed;
  indices = same (map (λ m. m.0) rest.marks) p.indices rest.indices;
  reasons = same (map (λ m. m.1) rest.marks) p.reasons rest.reasons;
}

-- The loop records every filter once and in order.
pub push_filters-IsRecorded :
    (db : Duckdb)
    → IsPrinter db
    → (q : Scan) (i : ℕ) (fs : List (ℕ × TableFilter)) (r : Progress)
    → IsRecorded db q i fs r (push_filters db q i fs r)
unfolding push_filters
push_filters-IsRecorded db h q i [] r = record {
  texts = [];
  marks = [];
  recorded = all_recorded;
  pushed = sym (append-nil r.pushed_filter_sql);
  indices = sym (append-nil r.residual_filter_indices);
  reasons = sym (append-nil r.residual_filter_reasons);
}
push_filters-IsRecorded db h q i ((projected, f) ∷ fs) r =
    let r' = push_filter db q i projected f r in
    one_more db q i projected f fs r r' (push_filters db q (suc i) fs r')
      (push_filter-verdict db h q i projected f r) (push_filters-IsRecorded db h q (suc i) fs r')
