-- ===== src/Catalog/Paths.antt =====
-- The two paths of `EnsureTablesLoaded` of src/firebird_storage.cpp: the one query of all tables, and
-- the query of each.
use mathlib.Core.Option.{some-injective}
use duckdb_firebird.Common.{
  upper, ◌≡◌, refl, sym, ap, ◌∙◌, Bool, true, false, Option, none, some, List, [], ◌∷◌, ◌||◌, map,
  Bytes, All,
}
use duckdb_firebird.Charset.Transcode.{NoneEncoding}
use duckdb_firebird.Schema.{
  MetadataRow, Columns, no_columns, FirebirdTableSchema, add_columns, schema_of_rows,
}
use duckdb_firebird.Schema.Grouping.{Block, rows_of, IsGrouped, schema_of, grouped_schemas}
use duckdb_firebird.Catalog.Entry.{
  TableEntry, Surroundings, find_table, unless_found, emplace, add_named, add_entry,
}
use duckdb_firebird.Catalog.Discovery.{
  Fetched, fetched, Relation, Server, Settings, surroundings, add_schemas, add_loaded, add_fetched,
  add_each, fallback_result, fallback, discovered,
}
use duckdb_firebird.Catalog.Lookup.{has_columns}

abbrev pub relation_of : Block → Relation
relation_of b = record { name = b.first.relation; is_view = b.first.view }

-- The query of a table, which has its name in upper case, gives the rows that the query of all tables
-- gives for it.
abbrev pub IsAnswered : (Bytes → Fetched (List MetadataRow)) → Block → Type 0
IsAnswered rows b = rows (upper b.first.relation) ≡ fetched (b.first ∷ b.others)

abbrev has_entries : List (Bytes × TableEntry) → Bool
has_entries [] = false
has_entries (x ∷ ts) = true

emplace-has_entries :
    (key : Bytes) (e : TableEntry) (ts : List (Bytes × TableEntry))
    → has_entries (emplace key e ts) ≡ true
unfolding emplace unless_found find_table
emplace-has_entries key e [] = refl
emplace-has_entries key e (x ∷ ts) = by_found (find_table key (x ∷ ts))
  where
    by_found : (o : Option TableEntry) → has_entries (unless_found o key e (x ∷ ts)) ≡ true
    by_found none = refl
    by_found (some e') = refl

add_named-has_entries :
    (ns : List Bytes) (key : Bytes) (e : TableEntry) (ts : List (Bytes × TableEntry))
    → (has_entries ts || has_columns ns) ≡ true
    → has_entries (add_named ns key e ts) ≡ true
unfolding add_named
add_named-has_entries [] key e [] h = cc
add_named-has_entries [] key e (x ∷ ts) h = refl
add_named-has_entries (n ∷ ns) key e ts h = emplace-has_entries key e ts

add_schemas-has_entries :
    (w : Surroundings) (schemas : List FirebirdTableSchema) (ts : List (Bytes × TableEntry))
    → has_entries ts ≡ true
    → has_entries (add_schemas w schemas ts) ≡ true
unfolding add_schemas add_entry
add_schemas-has_entries w [] ts h = h
add_schemas-has_entries w (t ∷ schemas) ts h =
    add_schemas-has_entries w schemas _ (add_named-has_entries t.columns.names _ _ ts (rw h refl))

schema_of_rows-has_columns :
    (mode : NoneEncoding) (widen : Bool) (rows : List MetadataRow) (c : Columns)
    → schema_of_rows mode widen rows ≡ some c
    → has_columns c.names ≡ true
unfolding schema_of_rows
schema_of_rows-has_columns mode widen rows c h =
    let c' = add_columns mode widen rows no_columns in by_names c' c'.names refl h
  where
    by_names :
        (c' : Columns) (ns : List Bytes)
        → ns ≡ c'.names
        → (elim ns as (λ ns. Option Columns) [ [] ↦ none | n ∷ ns ↦ some c' ]) ≡ some c
        → has_columns c.names ≡ true
    by_names c' [] e h = cc
    by_names c' (n ∷ ns) e h =
        ap (λ (c : Columns). has_columns c.names) (sym (some-injective c' c h))
        ∙ ap has_columns (sym e)

module _ (o : Settings) (w : Surroundings) (rows : Bytes → Fetched (List MetadataRow)) where
  abbrev schema : Block → FirebirdTableSchema
  schema = schema_of o.none_encoding o.numeric_widen_int64

  abbrev Loads : Block → Type 0
  Loads b =
      schema_of_rows o.none_encoding o.numeric_widen_int64 (b.first ∷ b.others)
      ≡ some (schema b).columns

  add_fetched-schema :
      (b : Block) (ts : List (Bytes × TableEntry))
      → IsAnswered rows b
      → Loads b
      → add_fetched o w (relation_of b) (rows (upper b.first.relation)) ts
        ≡ add_entry w b.first.relation (schema b).columns b.first.view ts
  unfolding add_fetched add_loaded
  add_fetched-schema b ts answered loads =
      ap (λ rs. add_fetched o w (relation_of b) rs ts) answered
      ∙ ap (λ c. add_loaded w (relation_of b) c ts) loads

  add_each-add_schemas :
      (bs : List Block) (ts : List (Bytes × TableEntry))
      → All (IsAnswered rows) bs
      → All Loads bs
      → add_each o w rows (map relation_of bs) ts ≡ add_schemas w (map schema bs) ts
  unfolding add_each add_schemas
  add_each-add_schemas [] ts h k = refl
  add_each-add_schemas (b ∷ bs) ts h k =
      ap (add_each o w rows (map relation_of bs)) (add_fetched-schema b ts h.0 k.0)
      ∙ add_each-add_schemas bs _ h.1 k.1

  -- Relations with tables are no error.
  fallback_result-fetched :
      (batch_error : Bytes) (bs : List Block)
      → All Loads bs
      → fallback_result batch_error (map relation_of bs) (add_schemas w (map schema bs) [])
        ≡ fetched (add_schemas w (map schema bs) [])
  unfolding fallback_result add_schemas add_entry
  fallback_result-fetched batch_error [] k = refl
  fallback_result-fetched batch_error (b ∷ bs) k =
      by_entries (add_schemas w (map schema (b ∷ bs)) []) (
        add_schemas-has_entries w (map schema bs) _ (
          add_named-has_entries (schema b).columns.names _ _ []
            (schema_of_rows-has_columns _ _ (b.first ∷ b.others) (schema b).columns k.0)))
    where
      by_entries :
          (ts : List (Bytes × TableEntry))
          → has_entries ts ≡ true
          → fallback_result batch_error (map relation_of (b ∷ bs)) ts ≡ fetched ts
      by_entries [] h = cc
      by_entries (x ∷ ts) h = refl

-- If the query of all tables gives its rows table by table, and the queries of the fallback give the
-- same relations and rows, then the fallback finds exactly the tables of the batch path, whatever
-- made the batch path fail.
pub fallback-discovered :
    (o : Settings) (s : Server) (batch_error : Bytes) (bs : List Block)
    → IsGrouped bs
    → All (IsAnswered s.table_rows) bs
    → fallback o s batch_error (fetched (map relation_of bs))
      ≡ discovered o s (fetched (rows_of bs)) []
unfolding fallback discovered
fallback-discovered o s batch_error bs grouped answered =
    let w = surroundings o s in
    let (batch, each) = grouped_schemas o.none_encoding o.numeric_widen_int64 bs grouped in
    ap (fallback_result batch_error (map relation_of bs))
      (add_each-add_schemas o w s.table_rows bs [] answered each)
    ∙ fallback_result-fetched o w s.table_rows batch_error bs each
    ∙ ap (λ schemas. fetched (add_schemas w schemas [])) (sym batch)
