-- ===== src/Catalog/Entry.antt =====
-- The table entries of src/firebird_storage.cpp: what `add_entry` of `EnsureTablesLoaded` builds, and
-- the map that it puts them into.
use duckdb_firebird.Common.{
  ℕ, suc, Bool, true, false, Option, none, some, List, [], ◌∷◌, ◌++◌, map, Bytes, upper, str_eq,
  if◌then◌else◌,
}
use duckdb_firebird.Duck.{LogicalType, tinyint, smallint, integer, bigint, hugeint}
use duckdb_firebird.Firebird.{FirebirdColumnDesc}
use duckdb_firebird.Schema.{Columns, find_type}
use duckdb_firebird.View.Reconcile.{ViewAnswers, reconcile_view_column_types}
use duckdb_firebird.Catalog.{UniqueKey, ForeignKey}

-- The constraints of DuckDB; the schema of a foreign key is always `main`.
pub data Constraint : Type 0 where
  not_null : ℕ → Constraint
  unique : List Bytes → Bool → Constraint
  foreign_key : List Bytes → List Bytes → Bytes → Constraint

pub record PrimaryKeyDescriptor : Type 0 where
  pub has_pk : Bool
  pub columns : List Bytes
  pub single_numeric : Bool

-- `FirebirdTableEntry` but for what all entries of a catalog share.
pub record TableEntry : Type 0 where
  pub table_name : Bytes
  pub columns : Columns
  pub constraints : List Constraint
  pub pk_descriptor : PrimaryKeyDescriptor

-- What `add_entry` refers to from outside: the maps of constraints, the answers of the server on
-- views, and a setting of the catalog.
pub record Surroundings : Type 0 where
  pub unique_keys : Bytes → List UniqueKey
  pub fkeys : Bytes → List ForeignKey
  pub view_answers : Bytes → ViewAnswers
  pub numeric_widen_int64 : Bool

-- The constraints from the index `i` on.
unfoldable pub not_nulls : ℕ → List Bytes → List FirebirdColumnDesc → List Constraint
not_nulls i (n ∷ ns) (d ∷ ds) =
    let rest = not_nulls (suc i) ns ds in if d.nullable then rest else not_null i ∷ rest
not_nulls i _ _ = []

unfoldable pub unique_constraint : UniqueKey → Constraint
unique_constraint k = unique k.columns k.is_primary

unfoldable pub foreign_key_constraint : ForeignKey → Constraint
foreign_key_constraint k = foreign_key k.pk_columns k.fk_columns k.pk_table

-- The integer family; no column of Firebird is an UINTEGER or UBIGINT.
unfoldable pub is_numeric_key : Option LogicalType → Bool
is_numeric_key (some integer) = true
is_numeric_key (some bigint) = true
is_numeric_key (some smallint) = true
is_numeric_key (some hugeint) = true
is_numeric_key (some tinyint) = true
is_numeric_key _ = false

unfoldable pub is_single_numeric : List Bytes → Columns → Bool
is_single_numeric (name ∷ []) c = is_numeric_key (find_type c.names c.types name)
is_single_numeric _ c = false

-- The first key that is primary.
unfoldable pub primary_of : List UniqueKey → Option UniqueKey
primary_of [] = none
primary_of (k ∷ ks) = if k.is_primary then some k else primary_of ks

unfoldable pub describe_key : Option UniqueKey → Columns → PrimaryKeyDescriptor
describe_key none c = record { has_pk = false; columns = []; single_numeric = false }
describe_key (some k) c = record {
  has_pk = true;
  columns = k.columns;
  single_numeric = is_single_numeric k.columns c;
}

unfoldable pub final_columns : Surroundings → Bytes → Columns → Bool → Columns
final_columns w table c is_view =
    if is_view
    then (reconcile_view_column_types w.numeric_widen_int64 (w.view_answers table) c).1
    else c

unfoldable pub build_entry : Surroundings → Bytes → Columns → TableEntry
build_entry w table c = record {
  table_name = table;
  columns = c;
  constraints =
      not_nulls 0 c.names c.descs
      ++ map unique_constraint (w.unique_keys table)
      ++ map foreign_key_constraint (w.fkeys table);
  pk_descriptor = describe_key (primary_of (w.unique_keys table)) c;
}

unfoldable pub find_table : Bytes → List (Bytes × TableEntry) → Option TableEntry
find_table key [] = none
find_table key ((k, e) ∷ ts) = if str_eq k key then some e else find_table key ts

unfoldable pub unless_found :
    Option TableEntry → Bytes → TableEntry → List (Bytes × TableEntry) → List (Bytes × TableEntry)
unless_found (some e') key e ts = ts
unless_found none key e ts = ts ++ (key, e) ∷ []

-- `tables_.emplace`, which keeps an entry that is there.
unfoldable pub emplace : Bytes → TableEntry → List (Bytes × TableEntry) → List (Bytes × TableEntry)
emplace key e ts = unless_found (find_table key ts) key e ts

-- A relation without columns has no entry.
unfoldable pub add_named :
    List Bytes → Bytes → TableEntry → List (Bytes × TableEntry) → List (Bytes × TableEntry)
add_named [] key e ts = ts
add_named (n ∷ ns) key e ts = emplace key e ts

-- `add_entry`.
unfoldable pub add_entry :
    Surroundings → Bytes → Columns → Bool → List (Bytes × TableEntry) → List (Bytes × TableEntry)
add_entry w table c is_view ts =
    add_named c.names (upper table) (build_entry w table (final_columns w table c is_view)) ts
