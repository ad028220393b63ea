-- ===== src/Catalog/Classify.antt =====
-- `ClassifyPkRange` of src/firebird_explain_pushdown.cpp, and how it stands to the probe of the key
-- that a scan makes.
use mathlib.Core.Option.{some-injective}
use duckdb_firebird.Common.{
  ◌≡◌, refl, sym, ap, ◌∙◌, Bool, true, false, not, some, List, [], ◌∷◌, Bytes, codes, if◌then◌else◌,
}
use duckdb_firebird.Duck.{LogicalType}
use duckdb_firebird.Schema.{Columns, KeyAnswers, find_type, is_key_type, probe_primary_key}
use duckdb_firebird.Schema.Key.{probe_primary_key-IsKey}
use duckdb_firebird.Opening.Statement.{PrimaryKeyInfo}
use duckdb_firebird.Catalog.{UniqueKey}
use duckdb_firebird.Catalog.Entry.{
  PrimaryKeyDescriptor, is_numeric_key, is_single_numeric, describe_key,
}

pub record PkRangeClassification : Type 0 where
  pub eligible : Bool
  pub column : Bytes
  pub reason : Bytes
  pub pk_range_partitionable : Bool

abbrev serial : Bytes → Bytes → PkRangeClassification
serial column reason = record {
  eligible = false;
  column = column;
  reason = reason;
  pk_range_partitionable = false;
}

-- A key without columns is read out of range by the code, so it stands for no key.
unfoldable pub classify_columns : List Bytes → Bool → PkRangeClassification
classify_columns [] numeric = serial [] (codes "no primary key")
classify_columns (name ∷ []) numeric =
    if not numeric then serial name (codes "non-numeric PK") else record {
      eligible = true;
      column = name;
      reason = codes "single numeric PK";
      pk_range_partitionable = true;
    }
classify_columns (name ∷ more ∷ names) numeric = serial [] (codes "composite PK")

unfoldable pub classify_pk_range : PrimaryKeyDescriptor → PkRangeClassification
classify_pk_range d =
    if not d.has_pk
    then serial [] (codes "no primary key")
    else classify_columns d.columns d.single_numeric

-- An integer type of the probe is one of the descriptor.
is_key_type-is_numeric_key :
    (t : LogicalType) → is_key_type t ≡ true → is_numeric_key (some t) ≡ true
unfolding is_key_type is_numeric_key
is_key_type-is_numeric_key LogicalType.smallint h = refl
is_key_type-is_numeric_key LogicalType.integer h = refl
is_key_type-is_numeric_key LogicalType.bigint h = refl
is_key_type-is_numeric_key _ h = cc

-- If the scan of a table finds a key to split by, and the catalog has the same columns for the
-- primary key, then the report says that the table can be split, by that column.
pub classify_pk_range-probe :
    (c : Columns) (k : UniqueKey) (answers : KeyAnswers) (pk : PrimaryKeyInfo)
    → probe_primary_key c.names c.types answers ≡ some pk
    → answers.pk_cols ≡ some k.columns
    → ((classify_pk_range (describe_key (some k) c)).pk_range_partitionable ≡ true)
      × ((classify_pk_range (describe_key (some k) c)).column ≡ pk.column)
unfolding classify_pk_range classify_columns describe_key is_single_numeric
classify_pk_range-probe c k answers pk h same =
    let key = probe_primary_key-IsKey c.names c.types answers pk h in
    let alone : k.columns ≡ pk.column ∷ [] =
      some-injective k.columns (pk.column ∷ []) (sym same ∙ key.alone) in
    let numeric : is_numeric_key (find_type c.names c.types pk.column) ≡ true =
      ap is_numeric_key key.typed ∙ is_key_type-is_numeric_key key.type key.integral in
    (rw (alone, numeric) refl, rw (alone, numeric) refl)
