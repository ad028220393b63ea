-- ===== src/Schema/Grouping.antt =====
-- `LoadAllTableSchemas` of src/firebird_scanner.cpp, which groups the rows of one query, against
-- `LoadTableSchema`, which asks for each table.
use duckdb_firebird.Common.{
  ◌≡◌, refl, sym, ap, ◌∙◌, Bool, true, false, Option, none, some, List, [], ◌∷◌, ◌++◌, append_assoc,
  map, Bytes, upper, str_eq, All, if-true,
}
use duckdb_firebird.Charset.Transcode.{NoneEncoding}
use duckdb_firebird.Types.{map_firebird_column}
use duckdb_firebird.Schema.{
  MetadataRow, Columns, no_columns, add_column, add_columns, schema_of_rows, load_table_schema,
  FirebirdTableSchema, new_schema, add_row, add_rows, load_all_table_schemas,
}

-- The rows of one table: the first, and the others.
pub record Block : Type 0 where
  pub first : MetadataRow
  pub others : List MetadataRow
  pub together : All (λ (r : MetadataRow). str_eq first.relation r.relation ≡ true) others

abbrev pub rows_of : List Block → List MetadataRow
rows_of [] = []
rows_of (b ∷ bs) = (b.first ∷ b.others) ++ rows_of bs

-- The blocks of neighbours are of different tables, the first one of another than `name`.
abbrev pub IsGroupedAfter : Bytes → List Block → Type 0
IsGroupedAfter name [] = Unit
IsGroupedAfter name (b ∷ bs) =
    (str_eq name b.first.relation ≡ false) × IsGroupedAfter b.first.relation bs

abbrev pub IsGrouped : List Block → Type 0
IsGrouped [] = Unit
IsGrouped (b ∷ bs) = IsGroupedAfter b.first.relation bs

module _ (mode : NoneEncoding) (widen : Bool) where
  abbrev pub schema_of : Block → FirebirdTableSchema
  schema_of b = record {
    table_name = b.first.relation;
    is_view = b.first.view;
    columns = add_columns mode widen (b.first ∷ b.others) no_columns;
  }

  add_row-append :
      (done : List FirebirdTableSchema) (s : FirebirdTableSchema) (r : MetadataRow)
      → add_row mode widen r (done ++ s ∷ []) ≡ done ++ add_row mode widen r (s ∷ [])
  unfolding add_row
  add_row-append [] s r = refl
  add_row-append (x ∷ []) s r = refl
  add_row-append (x ∷ y ∷ done) s r = ap (λ l. x ∷ l) (add_row-append (y ∷ done) s r)

  add_rows-append :
      (xs ys : List MetadataRow) (result : List FirebirdTableSchema)
      → add_rows mode widen (xs ++ ys) result
        ≡ add_rows mode widen ys (add_rows mode widen xs result)
  unfolding add_rows
  add_rows-append [] ys result = refl
  add_rows-append (x ∷ xs) ys result = add_rows-append xs ys (add_row mode widen x result)

  -- Rows of the table of the last schema go into it.
  add_rows-same :
      (rs : List MetadataRow) (done : List FirebirdTableSchema) (s : FirebirdTableSchema)
      → All (λ (r : MetadataRow). str_eq s.table_name r.relation ≡ true) rs
      → add_rows mode widen rs (done ++ s ∷ [])
        ≡ done ++ record s { columns = add_columns mode widen rs s.columns } ∷ []
  unfolding add_rows add_columns add_row
  add_rows-same [] done s h = refl
  add_rows-same (r ∷ rs) done s h =
      let s' : FirebirdTableSchema = record s { columns = add_column mode widen r s.columns } in
      let same : add_row mode widen r (s ∷ []) ≡ s' ∷ [] = if-true (s' ∷ []) _ h.0 in
      ap (add_rows mode widen rs) (add_row-append done s r ∙ ap (λ l. done ++ l) same)
      ∙ add_rows-same rs done s' h.1

  -- The rows of another table begin a schema.
  add_block :
      (b : Block) (done : List FirebirdTableSchema) (s : FirebirdTableSchema)
      → str_eq s.table_name b.first.relation ≡ false
      → add_rows mode widen (b.first ∷ b.others) (done ++ s ∷ []) ≡ done ++ s ∷ schema_of b ∷ []
  unfolding add_rows add_columns add_row
  add_block b done s h =
      let t = new_schema mode widen b.first in
      let next : add_row mode widen b.first (s ∷ []) ≡ s ∷ t ∷ [] = rw (add_row, h) refl in
      ap (add_rows mode widen b.others) (
        add_row-append done s b.first
        ∙ ap (λ l. done ++ l) next
        ∙ sym (append_assoc done (s ∷ []) (t ∷ [])))
      ∙ add_rows-same b.others (done ++ s ∷ []) t b.together
      ∙ append_assoc done (s ∷ []) (schema_of b ∷ [])

  add_blocks :
      (bs : List Block) (done : List FirebirdTableSchema) (s : FirebirdTableSchema)
      → IsGroupedAfter s.table_name bs
      → add_rows mode widen (rows_of bs) (done ++ s ∷ []) ≡ done ++ s ∷ map schema_of bs
  unfolding add_rows
  add_blocks [] done s h = refl
  add_blocks (b ∷ bs) done s h =
      add_rows-append (b.first ∷ b.others) (rows_of bs) (done ++ s ∷ [])
      ∙ ap (add_rows mode widen (rows_of bs))
          (add_block b done s h.0 ∙ sym (append_assoc done (s ∷ []) (schema_of b ∷ [])))
      ∙ add_blocks bs (done ++ s ∷ []) (schema_of b) h.1
      ∙ append_assoc done (s ∷ []) (schema_of b ∷ map schema_of bs)

  names_stay :
      (rs : List MetadataRow) (c : Columns) (x : Bytes) (l : List Bytes)
      → c.names ≡ x ∷ l
      → (l' : List Bytes) × ((add_columns mode widen rs c).names ≡ x ∷ l')
  unfolding add_columns add_column map_firebird_column
  names_stay [] c x l h = (l, h)
  names_stay (r ∷ rs) c x l h =
      names_stay rs (add_column mode widen r c) x (l ++ r.field_name ∷ [])
        (ap (λ (names : List Bytes). names ++ r.field_name ∷ []) h)

  loaded :
      (c : Columns) (x : Bytes) (l : List Bytes)
      → c.names ≡ x ∷ l
      → (elim c.names as (λ names. Option Columns) [ [] ↦ none | name ∷ names ↦ some c ]) ≡ some c
  loaded c x l h = by_names c.names h
    where
      by_names :
          (ns : List Bytes)
          → ns ≡ x ∷ l
          → (elim ns as (λ names. Option Columns) [ [] ↦ none | name ∷ names ↦ some c ]) ≡ some c
      by_names [] h = cc
      by_names (n ∷ ns) h = refl

  schema_of_rows-block :
      (b : Block) → schema_of_rows mode widen (b.first ∷ b.others) ≡ some (schema_of b).columns
  unfolding schema_of_rows add_columns add_column map_firebird_column
  schema_of_rows-block b =
      let (l, h) =
        names_stay b.others (add_column mode widen b.first no_columns) b.first.field_name [] refl in
      loaded (schema_of b).columns b.first.field_name l h

  each_block :
      (bs : List Block)
      → All
          (λ (b : Block).
            schema_of_rows mode widen (b.first ∷ b.others) ≡ some (schema_of b).columns)
          bs
  each_block [] = tt
  each_block (b ∷ bs) = (schema_of_rows-block b, each_block bs)

-- If the rows are grouped by table, there is a schema for each table, in order, with the columns of its
-- rows alone.
pub grouped_schemas :
    (mode : NoneEncoding) (widen : Bool) (bs : List Block)
    → IsGrouped bs
    → (load_all_table_schemas mode widen (rows_of bs) ≡ map (schema_of mode widen) bs)
      × All
          (λ (b : Block).
            schema_of_rows mode widen (b.first ∷ b.others) ≡ some (schema_of mode widen b).columns)
          bs
unfolding load_all_table_schemas add_rows add_row add_columns
grouped_schemas mode widen [] h = (refl, tt)
grouped_schemas mode widen (b ∷ bs) h =
    let first = new_schema mode widen b.first in
    (
      add_rows-append mode widen (b.first ∷ b.others) (rows_of bs) []
          ∙ ap (add_rows mode widen (rows_of bs))
              (add_rows-same mode widen b.others [] first b.together)
          ∙ add_blocks mode widen bs [] (schema_of mode widen b) h,
      each_block mode widen (b ∷ bs),
    )

-- The query of a table, which has its name in upper case, gives the rows of the table.
abbrev pub IsServed : (Bytes → List MetadataRow) → Block → Type 0
IsServed server b = server (upper b.first.relation) ≡ b.first ∷ b.others

each_served :
    (mode : NoneEncoding) (widen : Bool) (server : Bytes → List MetadataRow) (bs : List Block)
    → All (IsServed server) bs
    → All
        (λ (b : Block).
          load_table_schema mode widen server b.first.relation
          ≡ some (schema_of mode widen b).columns)
        bs
unfolding load_table_schema
each_served mode widen server [] h = tt
each_served mode widen server (b ∷ bs) h = (
  ap (schema_of_rows mode widen) h.0 ∙ schema_of_rows-block mode widen b,
  each_served mode widen server bs h.1,
)

-- If the one query of all tables gives its rows grouped by table, and the query for the upper-cased
-- name of each table gives the same rows of it, then `LoadAllTableSchemas` gives a schema for each
-- table, in order, with exactly the columns that `LoadTableSchema` gives for its name.
pub load_all_table_schemas-each :
    (mode : NoneEncoding) (widen : Bool) (server : Bytes → List MetadataRow) (bs : List Block)
    → IsGrouped bs
    → All (IsServed server) bs
    → (load_all_table_schemas mode widen (rows_of bs) ≡ map (schema_of mode widen) bs)
      × All
          (λ (b : Block).
            load_table_schema mode widen server b.first.relation
            ≡ some (schema_of mode widen b).columns)
          bs
load_all_table_schemas-each mode widen server bs grouped served =
    ((grouped_schemas mode widen bs grouped).0, each_served mode widen server bs served)
