-- ===== src/Complex/Split.antt =====
-- The loop of `FirebirdScanPushdownComplexFilter` of src/firebird_scanner.cpp, which erases while it
-- iterates, against a decision on each filter alone.
use duckdb_firebird.Common.{
  ℕ, ◌+◌, ◌≡◌, refl, sym, ap, ◌∙◌, none, some, List, [], ◌∷◌, ◌++◌, append-nil, append_assoc, Bytes,
  length, length-append, arith,
}
use duckdb_firebird.Duck.{Expression}
use duckdb_firebird.Complex.Columns.{BoundColumns}
use duckdb_firebird.Complex.Pushdown.{
  ExtraPredicate, Lifted, Verdict, unmatched, kept, pushed, lift, erase, verdict,
  pushdown_complex_filter,
}

-- What one verdict leaves of the filter, lifts, and records.
abbrev pub left_over : Expression → Verdict → List Expression
left_over e (pushed p) = []
left_over e _ = e ∷ []

abbrev pub predicates : Verdict → List ExtraPredicate
predicates (pushed p) = p ∷ []
predicates _ = []

abbrev pub reasons : Verdict → List Bytes
reasons (kept (some reason)) = reason ∷ []
reasons _ = []

erase-left_over :
    (v : Verdict) (e : Expression) (left : List Expression) → erase v e left ≡ left_over e v ++ left
unfolding erase
erase-left_over unmatched e left = refl
erase-left_over (kept reason) e left = refl
erase-left_over (pushed p) e left = refl

lift-predicates :
    (v : Verdict) (l : Lifted) → (lift v l).extra_predicates ≡ l.extra_predicates ++ predicates v
unfolding lift
lift-predicates unmatched l = sym (append-nil l.extra_predicates)
lift-predicates (kept none) l = sym (append-nil l.extra_predicates)
lift-predicates (kept (some reason)) l = sym (append-nil l.extra_predicates)
lift-predicates (pushed p) l = refl

lift-reasons :
    (v : Verdict) (l : Lifted)
    → (lift v l).gated_complex_reasons ≡ l.gated_complex_reasons ++ reasons v
unfolding lift
lift-reasons unmatched l = sym (append-nil l.gated_complex_reasons)
lift-reasons (kept none) l = sym (append-nil l.gated_complex_reasons)
lift-reasons (kept (some reason)) l = refl
lift-reasons (pushed p) l = sym (append-nil l.gated_complex_reasons)

module _ (bind : BoundColumns) (col_ids : List ℕ) where
  abbrev pub all_left : List Expression → List Expression
  all_left [] = []
  all_left (e ∷ es) = left_over e (verdict bind col_ids e) ++ all_left es

  abbrev pub all_predicates : List Expression → List ExtraPredicate
  all_predicates [] = []
  all_predicates (e ∷ es) = predicates (verdict bind col_ids e) ++ all_predicates es

  abbrev pub all_reasons : List Expression → List Bytes
  all_reasons [] = []
  all_reasons (e ∷ es) = reasons (verdict bind col_ids e) ++ all_reasons es

-- The loop does to every filter what it would do to it alone, in order: the filters that are left,
-- the predicates and the reasons are those of the single filters, behind what was there.
pub pushdown_complex_filter-each :
    (bind : BoundColumns) (col_ids : List ℕ) (es : List Expression) (l : Lifted)
    → ((pushdown_complex_filter bind col_ids es l).0 ≡ all_left bind col_ids es)
      × ((pushdown_complex_filter bind col_ids es l).1.extra_predicates
          ≡ l.extra_predicates ++ all_predicates bind col_ids es)
      × ((pushdown_complex_filter bind col_ids es l).1.gated_complex_reasons
          ≡ l.gated_complex_reasons ++ all_reasons bind col_ids es)
unfolding pushdown_complex_filter
pushdown_complex_filter-each bind col_ids [] l =
    (refl, sym (append-nil l.extra_predicates), sym (append-nil l.gated_complex_reasons))
pushdown_complex_filter-each bind col_ids (e ∷ es) l =
    let v = verdict bind col_ids e in
    let rest = pushdown_complex_filter-each bind col_ids es (lift v l) in
    (
      erase-left_over v e (pushdown_complex_filter bind col_ids es (lift v l)).0
          ∙ ap (λ left. left_over e v ++ left) rest.0,
      rest.1
          ∙ ap (λ done. done ++ all_predicates bind col_ids es) (lift-predicates v l)
          ∙ append_assoc l.extra_predicates (predicates v) (all_predicates bind col_ids es),
      rest.2
          ∙ ap (λ done. done ++ all_reasons bind col_ids es) (lift-reasons v l)
          ∙ append_assoc l.gated_complex_reasons (reasons v) (all_reasons bind col_ids es),
    )

left_over-predicates :
    (v : Verdict) (e : Expression) → length (left_over e v) + length (predicates v) ≡ 1
left_over-predicates unmatched e = refl
left_over-predicates (kept reason) e = refl
left_over-predicates (pushed p) e = refl

each_once :
    (bind : BoundColumns) (col_ids : List ℕ) (es : List Expression)
    → length (all_left bind col_ids es) + length (all_predicates bind col_ids es) ≡ length es
each_once bind col_ids [] = refl
each_once bind col_ids (e ∷ es) =
    let v = verdict bind col_ids e in
    omega (
      arith,
      left_over-predicates v e,
      each_once bind col_ids es,
      length-append (left_over e v) (all_left bind col_ids es),
      length-append (predicates v) (all_predicates bind col_ids es),
    )

-- Every filter is either left to DuckDB or stands for one predicate: none is lost, and none is
-- applied on both sides.
pub pushdown_complex_filter-accounts :
    (bind : BoundColumns) (col_ids : List ℕ) (es : List Expression) (l : Lifted)
    → length (pushdown_complex_filter bind col_ids es l).0
        + length (pushdown_complex_filter bind col_ids es l).1.extra_predicates
      ≡ length l.extra_predicates + length es
pushdown_complex_filter-accounts bind col_ids es l =
    let each = pushdown_complex_filter-each bind col_ids es l in
    omega (
      arith,
      ap length each.0,
      ap length each.1,
      length-append l.extra_predicates (all_predicates bind col_ids es),
      each_once bind col_ids es,
    )
