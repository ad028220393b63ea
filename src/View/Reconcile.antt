-- ===== src/View/Reconcile.antt =====
-- `ReconcileViewColumnTypes` of src/firebird_view_analysis.cpp on the answer to `LookupObjectType` and
-- the columns that the server describes.
use duckdb_firebird.Common.{
  Bool, true, false, not, Option, none, some, List, [], ◌∷◌, ◌++◌, Bytes, codes, length, str_eq,
  ◌==◌, if◌then◌else◌,
}
use duckdb_firebird.Duck.{LogicalType}
use duckdb_firebird.Firebird.{FirebirdColumnDesc}
use duckdb_firebird.Sql.{quote_ident}
use duckdb_firebird.Types.{firebird_to_duckdb_type}
use duckdb_firebird.Schema.{Columns}

-- How `LookupObjectType` ends: it throws or finds no relation, or it finds the object's type.
pub data ObjectType : Type 0 where
  unconfirmed : ObjectType
  confirmed : Bytes → ObjectType

-- The answers of the server; columns are none where the preparation throws.
pub record ViewAnswers : Type 0 where
  pub object_type : ObjectType
  pub live_cols : Option (List FirebirdColumnDesc)

unfoldable pub is_other_object : ObjectType → Bool
is_other_object unconfirmed = false
is_other_object (confirmed t) = not (str_eq t (codes "VIEW"))

unfoldable pub probe_names : List Bytes → Bytes
probe_names [] = []
probe_names (n ∷ []) = quote_ident n
probe_names (n ∷ m ∷ ns) = quote_ident n ++ codes ", " ++ probe_names (m ∷ ns)

unfoldable pub probe_sql : Bytes → List Bytes → Bytes
probe_sql table names = codes "SELECT " ++ probe_names names ++ codes " FROM " ++ quote_ident table

-- The described column, with the character set of the catalog.
unfoldable pub reconciled : FirebirdColumnDesc → FirebirdColumnDesc → FirebirdColumnDesc
reconciled live desc = record live { character_set_id = desc.character_set_id }

unfoldable pub reconciled_all :
    List FirebirdColumnDesc → List FirebirdColumnDesc → List FirebirdColumnDesc
reconciled_all (l ∷ ls) (d ∷ ds) = reconciled l d ∷ reconciled_all ls ds
reconciled_all _ ds = ds

-- The types of the described columns, in place of the first ones of the catalog.
unfoldable pub reconciled_types :
    Bool → List FirebirdColumnDesc → List LogicalType → List LogicalType
reconciled_types widen (d ∷ ds) (t ∷ ts) =
    firebird_to_duckdb_type d widen ∷ reconciled_types widen ds ts
reconciled_types widen _ ts = ts

unfoldable pub describe : Bool → Option (List FirebirdColumnDesc) → Columns → Columns
describe widen none c = c
describe widen (some live) c =
    if length live == length c.descs
    then record c {
      types = reconciled_types widen (reconciled_all live c.descs) c.types;
      descs = reconciled_all live c.descs;
    }
    else c

-- Whether the object may be a view, and its columns.
unfoldable pub reconcile_view_column_types : Bool → ViewAnswers → Columns → Bool × Columns
reconcile_view_column_types widen answers c =
    if is_other_object answers.object_type
    then (false, c)
    else (true, describe widen answers.live_cols c)
