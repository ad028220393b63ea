-- ===== src/View/Described.antt =====
-- What `ReconcileViewColumnTypes` of src/firebird_view_analysis.cpp leaves of the columns.
use duckdb_firebird.Common.{
  ◌≡◌, refl, sym, ap, ◌∙◌, ◌⊎◌, inl, inr, suc, Bool, Option, none, some, List, [], ◌∷◌, map, length,
  ◌==◌, if-intro, arith,
}
use duckdb_firebird.Common.Int.{ℤ}
use duckdb_firebird.Duck.{LogicalType}
use duckdb_firebird.Firebird.{FirebirdColumnDesc}
use duckdb_firebird.Types.{firebird_to_duckdb_type}
use duckdb_firebird.Schema.{Columns}
use duckdb_firebird.View.Reconcile.{
  ViewAnswers, is_other_object, reconciled, reconciled_all, reconciled_types, describe,
  reconcile_view_column_types,
}

abbrev pub charsets : List FirebirdColumnDesc → List ℤ
charsets = map (λ (d : FirebirdColumnDesc). d.character_set_id)

abbrev pub types_of : Bool → List FirebirdColumnDesc → List LogicalType
types_of widen = map (λ (d : FirebirdColumnDesc). firebird_to_duckdb_type d widen)

-- The names and the character sets are those of the catalog; the types are those of the catalog too,
-- or each is the type of its descriptor.
pub record IsReconciled (widen : Bool) (before after : Columns) : Type 0 where
  pub same_names : after.names ≡ before.names
  pub same_charsets : charsets after.descs ≡ charsets before.descs
  pub same_length : length after.types ≡ length before.types
  pub typed : (after ≡ before) ⊎ (after.types ≡ types_of widen after.descs)

charsets-reconciled_all :
    (live descs : List FirebirdColumnDesc) → charsets (reconciled_all live descs) ≡ charsets descs
unfolding reconciled_all reconciled
charsets-reconciled_all (l ∷ live) (d ∷ descs) =
    ap (λ cs. d.character_set_id ∷ cs) (charsets-reconciled_all live descs)
charsets-reconciled_all [] descs = refl
charsets-reconciled_all (l ∷ live) [] = refl

reconciled_types-types_of :
    (widen : Bool) (descs : List FirebirdColumnDesc) (types : List LogicalType)
    → length types ≡ length descs
    → reconciled_types widen descs types ≡ types_of widen descs
unfolding reconciled_types
reconciled_types-types_of widen [] [] h = refl
reconciled_types-types_of widen [] (t ∷ types) h = ground (arith, h)
reconciled_types-types_of widen (d ∷ descs) [] h = ground (arith, h)
reconciled_types-types_of widen (d ∷ descs) (t ∷ types) h =
    ap (λ ts. firebird_to_duckdb_type d widen ∷ ts)
      (reconciled_types-types_of widen descs types (omega (arith, h)))

length-reconciled_types :
    (widen : Bool) (descs : List FirebirdColumnDesc) (types : List LogicalType)
    → length (reconciled_types widen descs types) ≡ length types
unfolding reconciled_types
length-reconciled_types widen [] types = refl
length-reconciled_types widen (d ∷ descs) [] = refl
length-reconciled_types widen (d ∷ descs) (t ∷ types) =
    ap suc (length-reconciled_types widen descs types)

length-reconciled_all :
    (live descs : List FirebirdColumnDesc) → length (reconciled_all live descs) ≡ length descs
unfolding reconciled_all
length-reconciled_all (l ∷ live) (d ∷ descs) = ap suc (length-reconciled_all live descs)
length-reconciled_all [] descs = refl
length-reconciled_all (l ∷ live) [] = refl

same-IsReconciled : (widen : Bool) (c : Columns) → IsReconciled widen c c
same-IsReconciled widen c = record {
  same_names = refl;
  same_charsets = refl;
  same_length = refl;
  typed = inl refl;
}

describe-IsReconciled :
    (widen : Bool) (live : Option (List FirebirdColumnDesc)) (c : Columns)
    → length c.types ≡ length c.descs
    → IsReconciled widen c (describe widen live c)
unfolding describe
describe-IsReconciled widen none c h = same-IsReconciled widen c
describe-IsReconciled widen (some live) c h =
    if-intro (IsReconciled widen c) (length live == length c.descs)
      (λ p. record {
        same_names = refl;
        same_charsets = charsets-reconciled_all live c.descs;
        same_length = length-reconciled_types widen (reconciled_all live c.descs) c.types;
        typed = inr (
            reconciled_types-types_of widen (reconciled_all live c.descs) c.types
              (h ∙ sym (length-reconciled_all live c.descs)));
      })
      (λ p. same-IsReconciled widen c)

-- Whatever the server answers, the names, the character sets and the number of types stay, and
-- either no column changes or every type is the one of its descriptor; there must be one type for
-- each descriptor before.
pub reconcile_view_column_types-IsReconciled :
    (widen : Bool) (answers : ViewAnswers) (c : Columns)
    → length c.types ≡ length c.descs
    → IsReconciled widen c (reconcile_view_column_types widen answers c).1
unfolding reconcile_view_column_types
reconcile_view_column_types-IsReconciled widen answers c h =
    if-intro (λ (r : Bool × Columns). IsReconciled widen c r.1)
      (is_other_object answers.object_type) (λ p. same-IsReconciled widen c)
      (λ p. describe-IsReconciled widen answers.live_cols c h)
