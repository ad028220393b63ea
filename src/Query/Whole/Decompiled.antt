-- ===== src/Query/Whole/Decompiled.antt =====
-- A text that src/firebird_query.cpp writes for an expression is the text of the whole expression.
use mathlib.Core.Option.{some-injective}
use duckdb_firebird.Common.{
  true, false, ℕ, ◌≡◌, refl, Bool, not, Option, none, some, List, [], ◌∷◌, ◌++◌, append-nil,
  append_assoc, Bytes, codes, length, if-intro, ap, ◌∙◌, sym, subst,
}
use duckdb_firebird.Duck.{
  Value, Duckdb, ExpressionType, Expression, Expressions, bound_ref, bound_column_ref,
  bound_constant, bound_cast, bound_comparison, bound_function, bound_operator, bound_conjunction,
  other_class, nil, cons,
}
use duckdb_firebird.Query.Values.{in_list}
use duckdb_firebird.Query.Expressions.{
  translate_null_test, refused, is_column_subject, try_get_constant, constants, translate_in_list,
  translate_operator, separator, join, joined, translate_filter_expression, translate_children,
}
use duckdb_firebird.Query.Whole.{
  with_separators, conjunction_text, AreConstants, IsSimple, WholeExpression, simple, every_child,
  every_value, WholeExpressions, no_child, next_child,
}
use duckdb_firebird.Query.Whole.Lists.{
  Whenever, Whenever-written, Whenever-joined, Whenever-map, Whenever-turn, every-Listed,
}

-- The text that the loop of a conjunction makes of the parts.
abbrev pub from : Bytes → Bytes → List Bytes → Bytes
from sep acc [] = acc
from sep acc (part ∷ parts) = from sep (join sep acc part) parts

from-started :
    (sep : Bytes) (c : ℕ) (acc : Bytes) (parts : List Bytes)
    → from sep (c ∷ acc) parts ≡ c ∷ (acc ++ with_separators sep parts)
from-started sep c acc [] = ap (λ l. c ∷ l) (sym (append-nil acc))
from-started sep c acc (part ∷ parts) =
    let more = (((acc ++ sep) ++ codes "(") ++ part) ++ codes ")" in
    let step : from sep (c ∷ acc) (part ∷ parts) ≡ c ∷ (more ++ with_separators sep parts) =
      from-started sep c more parts in
    let moved : more ++ with_separators sep parts ≡ acc ++ with_separators sep (part ∷ parts) =
      simp (append_assoc) in
    step ∙ ap (λ l. c ∷ l) moved

pub from-conjunction_text :
    (sep : Bytes) (parts : List Bytes) → from sep [] parts ≡ conjunction_text sep parts
from-conjunction_text sep [] = refl
from-conjunction_text sep (part ∷ parts) = from-started sep b'(' (part ++ codes ")") parts

module _ (db : Duckdb) (column : Bytes) where
  -- The loop over the children, with `acc` before them.
  record Looped (es : Expressions) (sep acc : Bytes) (ps : List Value) (text : Bytes)
      (qs : List Value) : Type 0 where
    parts : List Bytes
    whole : WholeExpressions db column es ps parts qs
    shape : text ≡ from sep acc parts

  of_simple :
      (e : Expression) (ps : List Value)
      → IsSimple e
      → Whenever (WholeExpression db column e ps) (translate_filter_expression db column e ps)
  of_simple e ps s =
      Whenever-written (WholeExpression db column e ps) (translate_filter_expression db column e ps)
        (λ text qs w. simple s w)

  constants-AreConstants :
      (es : Expressions) (vs : List Value) → constants es ≡ some vs → AreConstants es vs
  unfolding constants try_get_constant
  constants-AreConstants nil vs q = subst (AreConstants nil) (some-injective _ _ q) tt
  constants-AreConstants (cons (bound_constant v) es) vs q =
      at v.is_null (constants es) refl q (λ ws r. constants-AreConstants es ws r)
    where
      at :
          (null : Bool) (rest : Option (List Value))
          → constants es ≡ rest
          → (elim null [
            | true ↦ none
            | false ↦ elim rest [ none ↦ none | some ws ↦ some (v ∷ ws) ]
          ])
            ≡ some vs
          → ((ws : List Value) → constants es ≡ some ws → AreConstants es ws)
          → AreConstants (cons (bound_constant v) es) vs
      at true rest r q k = cc
      at false none r q k = cc
      at false (some ws) r q k =
          subst (AreConstants (cons (bound_constant v) es)) (some-injective _ _ q) (refl, k ws r)
  constants-AreConstants (cons bound_ref es) vs q = cc
  constants-AreConstants (cons (bound_column_ref i t) es) vs q = cc
  constants-AreConstants (cons (bound_cast d) es) vs q = cc
  constants-AreConstants (cons (bound_comparison type left right) es) vs q = cc
  constants-AreConstants (cons (bound_function name ds) es) vs q = cc
  constants-AreConstants (cons (bound_operator type ds) es) vs q = cc
  constants-AreConstants (cons (bound_conjunction type ds) es) vs q = cc
  constants-AreConstants (cons other_class es) vs q = cc

  in_list_whole :
      (subject : Expression) (es : Expressions) (ps : List Value)
      → Whenever
          (WholeExpression db column
            (bound_operator ExpressionType.compare_in (cons subject es))
            ps)
          (translate_in_list db column (cons subject es) ps)
  unfolding translate_in_list
  in_list_whole subject nil ps = tt
  in_list_whole subject (cons e es) ps =
      let P =
        WholeExpression db column
          (bound_operator ExpressionType.compare_in (cons subject (cons e es))) ps in
      if-intro (Whenever P) (not (is_column_subject subject)) (λ p. tt)
        (λ p. with_constants (constants (cons e es)) refl)
    where
      with_constants :
          (found : Option (List Value))
          → constants (cons e es) ≡ found
          → Whenever
              (WholeExpression db column
                (bound_operator ExpressionType.compare_in (cons subject (cons e es)))
                ps)
              (elim found [ none ↦ refused ps | some vs ↦ in_list db column vs ps ])
      with_constants none q = tt
      with_constants (some []) q = absurd (constants-AreConstants (cons e es) [] q)
      with_constants (some (v ∷ vs)) q =
          every-Listed db column v vs ps
            (WholeExpression db column
              (bound_operator ExpressionType.compare_in (cons subject (cons e es))) ps)
            (λ items qs l. every_value items (constants-AreConstants (cons e es) (v ∷ vs) q) l)

  operator_whole :
      (type : ExpressionType) (es : Expressions) (ps : List Value)
      → Whenever
          (WholeExpression db column (bound_operator type es) ps)
          (translate_operator db column type es ps)
  unfolding translate_operator translate_in_list translate_null_test translate_filter_expression
  operator_whole ExpressionType.compare_equal es ps = tt
  operator_whole ExpressionType.compare_notequal es ps = tt
  operator_whole ExpressionType.compare_lessthan es ps = tt
  operator_whole ExpressionType.compare_greaterthan es ps = tt
  operator_whole ExpressionType.compare_lessthanorequalto es ps = tt
  operator_whole ExpressionType.compare_greaterthanorequalto es ps = tt
  operator_whole ExpressionType.compare_not_in es ps = tt
  operator_whole ExpressionType.operator_not es ps = tt
  operator_whole ExpressionType.conjunction_and es ps = tt
  operator_whole ExpressionType.conjunction_or es ps = tt
  operator_whole ExpressionType.other es ps = tt
  operator_whole ExpressionType.compare_in nil ps = tt
  operator_whole ExpressionType.compare_in (cons subject es) ps = in_list_whole subject es ps
  operator_whole ExpressionType.operator_is_null es ps =
      of_simple (bound_operator ExpressionType.operator_is_null es) ps tt
  operator_whole ExpressionType.operator_is_not_null es ps =
      of_simple (bound_operator ExpressionType.operator_is_not_null es) ps tt

  every :
      (type : ExpressionType) (es : Expressions) (ps : List Value) (found : Option Bytes)
      → separator type ≡ found
      → ((sep : Bytes) → Whenever (Looped es sep [] ps) (translate_children db column sep es [] ps))
      → Whenever (WholeExpression db column (bound_conjunction type es) ps) (elim found [
        | none ↦ refused ps
        | some sep ↦ joined (length ps) (translate_children db column sep es [] ps)
      ])
  every type es ps none e k = tt
  every type es ps (some sep) e k =
      let P = WholeExpression db column (bound_conjunction type es) ps in
      Whenever-joined P (length ps) (translate_children db column sep es [] ps) (
        Whenever-map (Looped es sep [] ps) P (translate_children db column sep es [] ps)
          (λ text qs l.
            subst (λ text. P text qs) (sym (l.shape ∙ from-conjunction_text sep l.parts))
              (every_child sep l.parts e l.whole))
          (k sep))

  mutual
    unfolding translate_filter_expression translate_children

    pub expression_whole :
        (e : Expression) (ps : List Value)
        → Whenever (WholeExpression db column e ps) (translate_filter_expression db column e ps)
    expression_whole (bound_conjunction type es) ps =
        every type es ps (separator type) refl (λ sep. children_whole es sep [] ps)
    expression_whole (bound_comparison type left right) ps =
        of_simple (bound_comparison type left right) ps tt
    expression_whole (bound_operator type es) ps = operator_whole type es ps
    expression_whole bound_ref ps = tt
    expression_whole (bound_column_ref i t) ps = tt
    expression_whole (bound_constant v) ps = tt
    expression_whole (bound_cast e) ps = tt
    expression_whole (bound_function name es) ps = tt
    expression_whole other_class ps = tt

    children_whole :
        (es : Expressions) (sep acc : Bytes) (ps : List Value)
        → Whenever (Looped es sep acc ps) (translate_children db column sep es acc ps)
    children_whole nil sep acc ps = record { parts = []; whole = no_child; shape = refl }
    children_whole (cons e es) sep acc ps =
        Whenever-turn (WholeExpression db column e ps) (Looped (cons e es) sep acc ps)
          (translate_filter_expression db column e ps)
          (λ part qs. translate_children db column sep es (join sep acc part) qs)
          (expression_whole e ps)
          (λ part qs w.
            Whenever-map (Looped es sep (join sep acc part) qs) (Looped (cons e es) sep acc ps)
              (translate_children db column sep es (join sep acc part) qs)
              (λ text rs l. record {
                parts = part ∷ l.parts;
                whole = next_child w l.whole;
                shape = l.shape;
              })
              (children_whole es sep (join sep acc part) qs))
