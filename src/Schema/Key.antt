-- ===== src/Schema/Key.antt =====
-- What `ProbePrimaryKey` of src/firebird_scanner.cpp finds, and what a scan by its ranges reads.
use mathlib.Core.Option.{some-injective}
use duckdb_firebird.Common.{
  ◌≡◌, ◌↔◌, refl, ap, subst, ◌∙◌, Bool, true, false, ◌&&◌, Option, none, some, List, [], ◌∷◌, Bytes,
  if◌then◌else◌, >>=-eq-some, and-true_both,
}
use duckdb_firebird.Common.Int.{ltb_ℤ}
use duckdb_firebird.Duck.{LogicalType}
use duckdb_firebird.Opening.Statement.{PrimaryKeyInfo}
use duckdb_firebird.Schema.{
  KeyRange, KeyAnswers, single, find_type, is_key_type, is_key_sqltype, key_bounds,
  probe_primary_key,
}

-- The key has an index and one column, of an integer type in the schema, and its lowest and highest value are the
-- answer of the server and in order.
pub record IsKey (names : List Bytes) (types : List LogicalType) (answers : KeyAnswers)
    (pk : PrimaryKeyInfo) : Type 0 where
  pub index : Bytes
  pub type : LogicalType
  pub range : KeyRange
  pub indexed : answers.pk_index ≡ some index
  pub alone : answers.pk_cols ≡ some (pk.column ∷ [])
  pub typed : find_type names types pk.column ≡ some type
  pub integral : is_key_type type ≡ true
  pub wide : is_key_sqltype range.sqltype ≡ true
  pub answered : answers.key_range ≡ some range
  pub lowest : range.min_value ≡ some pk.min_value
  pub highest : range.max_value ≡ some pk.max_value
  pub ordered : ltb_ℤ pk.min_value pk.max_value ≡ true

if_some {ℓ} :
    {A : Type ℓ} (b : Bool) (m : Option A) (a : A)
    → (if b then m else none) ≡ some a
    → (b ≡ true) × (m ≡ some a)
if_some true m a h = (refl, h)
if_some false m a h = cc

single-some : (l : List Bytes) (name : Bytes) → single l ≡ some name → l ≡ name ∷ []
single-some (x ∷ []) name h = ap (λ n. n ∷ []) (some-injective x name h)
single-some [] name h = cc
single-some (x ∷ y ∷ l) name h = cc

-- A key that is found has an index, is its only column, of an integer type of the schema, and has the
-- bounds that the server gave, the lowest below the highest.
pub probe_primary_key-IsKey :
    (names : List Bytes) (types : List LogicalType) (answers : KeyAnswers) (pk : PrimaryKeyInfo)
    → probe_primary_key names types answers ≡ some pk
    → IsKey names types answers pk
unfolding probe_primary_key key_bounds
probe_primary_key-IsKey names types answers pk h =
    let (index, e1, h1) = >>=-eq-some answers.pk_index _ h in
    let (cols, e2, h2) = >>=-eq-some answers.pk_cols _ h1 in
    let (name, e3, h3) = >>=-eq-some (single cols) _ h2 in
    let (type, e4, h4) = >>=-eq-some (find_type names types name) _ h3 in
    let (range, e5, h5) = >>=-eq-some (if is_key_type type then answers.key_range else none) _ h4 in
    let (integral, answered) = if_some (is_key_type type) answers.key_range range e5 in
    let (lo, e6, h6) = >>=-eq-some range.min_value _ h5 in
    let (hi, e7, h7) = >>=-eq-some range.max_value _ h6 in
    let (tests, found) = if_some (is_key_sqltype range.sqltype && ltb_ℤ lo hi) _ pk h7 in
    let key : PrimaryKeyInfo = record { column = name; min_value = lo; max_value = hi } in
    let same : key ≡ pk = some-injective key pk found in
    subst (IsKey names types answers) same (record {
      index = index;
      type = type;
      range = range;
      indexed = e1;
      alone = e2 ∙ ap some (single-some cols name e3);
      typed = e4;
      integral = integral;
      wide = (and-true_both (is_key_sqltype range.sqltype) (ltb_ℤ lo hi) tests).0;
      answered = answered;
      lowest = e6;
      highest = e7;
      ordered = (and-true_both (is_key_sqltype range.sqltype) (ltb_ℤ lo hi) tests).1;
    })

-- Whatever has all the marks of a key is found.
IsKey-probe_primary_key :
    (names : List Bytes) (types : List LogicalType) (answers : KeyAnswers) (pk : PrimaryKeyInfo)
    → IsKey names types answers pk
    → probe_primary_key names types answers ≡ some pk
unfolding probe_primary_key key_bounds
IsKey-probe_primary_key names types answers pk k =
    rw (k.indexed, k.alone, k.typed, k.integral, k.answered, k.lowest, k.highest, k.wide, k.ordered)
      refl

-- The probe finds a key exactly if it has an index, is its only column, is of an integer type in the
-- schema and in the answer, and has bounds from the server, the lowest below the highest. So a query
-- that fails or has no row, a key of several columns, one of another type, and one of at most one row
-- all give none.
pub probe_primary_key_iff :
    (names : List Bytes) (types : List LogicalType) (answers : KeyAnswers) (pk : PrimaryKeyInfo)
    → (probe_primary_key names types answers ≡ some pk) ↔ IsKey names types answers pk
probe_primary_key_iff names types answers pk =
    (probe_primary_key-IsKey names types answers pk, IsKey-probe_primary_key names types answers pk)
