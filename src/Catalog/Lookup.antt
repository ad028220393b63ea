-- ===== src/Catalog/Lookup.antt =====
-- What `LookupEntry` of src/firebird_storage.cpp finds after `EnsureTablesLoaded`, on both paths of
-- the discovery.
use duckdb_firebird.Common.{
  ◌≡◌, refl, sym, ap, ◌∙◌, Bool, true, false, ◌&&◌, Option, none, some, List, [], ◌∷◌, ◌++◌, Bytes,
  upper, str_eq, str_eq_iff, if◌then◌else◌, Bool-cases, inl, inr,
}
use duckdb_firebird.Schema.{FirebirdTableSchema}
use duckdb_firebird.Catalog.Entry.{
  TableEntry, Surroundings, build_entry, final_columns, find_table, unless_found, emplace,
  add_named, add_entry,
}
use duckdb_firebird.Catalog.Discovery.{add_schemas, lookup_entry}

-- The entry of a table.
abbrev pub entry_of : Surroundings → FirebirdTableSchema → TableEntry
entry_of w t = build_entry w t.table_name (final_columns w t.table_name t.columns t.is_view)

abbrev pub has_columns : List Bytes → Bool
has_columns [] = false
has_columns (n ∷ ns) = true

-- The first table that has a column and the name, in upper case.
abbrev pub first_named : Surroundings → Bytes → List FirebirdTableSchema → Option TableEntry
first_named w key [] = none
first_named w key (t ∷ ts) =
    let rest = first_named w key ts in
    if has_columns t.columns.names && str_eq (upper t.table_name) key
    then some (entry_of w t)
    else rest

abbrev pub or_else : Option TableEntry → Option TableEntry → Option TableEntry
or_else none o = o
or_else (some e) o = some e

or_else-none : (a : Option TableEntry) → a ≡ or_else a none
or_else-none none = refl
or_else-none (some x) = refl

or_else_assoc : (a b c : Option TableEntry) → or_else (or_else a b) c ≡ or_else a (or_else b c)
or_else_assoc none b c = refl
or_else_assoc (some e) b c = refl

find_table-append :
    (key k : Bytes) (e : TableEntry) (ts : List (Bytes × TableEntry))
    → find_table key (ts ++ (k, e) ∷ [])
      ≡ or_else (find_table key ts) (if str_eq k key then some e else none)
unfolding find_table
find_table-append key k e [] = refl
find_table-append key k e ((k', e') ∷ ts) = elim (Bool-cases (str_eq k' key)) [
  | inl p ↦ rw p refl
  | inr p ↦ rw p (find_table-append key k e ts)
]

find_table-unless_found :
    (key k : Bytes) (e : TableEntry) (ts : List (Bytes × TableEntry)) (o : Option TableEntry)
    → find_table k ts ≡ o
    → find_table key (unless_found o k e ts)
      ≡ or_else (find_table key ts) (if str_eq k key then some e else none)
unfolding unless_found
find_table-unless_found key k e ts none h = find_table-append key k e ts
find_table-unless_found key k e ts (some e') h = elim (Bool-cases (str_eq k key)) [
  | inl p ↦
      let found : find_table key ts ≡ some e' =
        ap (λ n. find_table n ts) (sym ((str_eq_iff k key).0 p)) ∙ h in
      rw (p, found) refl
  | inr p ↦ rw p (or_else-none (find_table key ts))
]

find_table-emplace :
    (key k : Bytes) (e : TableEntry) (ts : List (Bytes × TableEntry))
    → find_table key (emplace k e ts)
      ≡ or_else (find_table key ts) (if str_eq k key then some e else none)
unfolding emplace
find_table-emplace key k e ts = find_table-unless_found key k e ts (find_table k ts) refl

find_table-add_named :
    (w : Surroundings) (key : Bytes) (t : FirebirdTableSchema) (ts : List (Bytes × TableEntry))
    (ns : List Bytes)
    → find_table key (add_named ns (upper t.table_name) (entry_of w t) ts)
      ≡ or_else
          (find_table key ts)
          (if has_columns ns && str_eq (upper t.table_name) key then some (entry_of w t) else none)
unfolding add_named
find_table-add_named w key t ts [] = or_else-none (find_table key ts)
find_table-add_named w key t ts (n ∷ ns) =
    find_table-emplace key (upper t.table_name) (entry_of w t) ts

find_table-add_entry :
    (w : Surroundings) (key : Bytes) (t : FirebirdTableSchema) (ts : List (Bytes × TableEntry))
    → find_table key (add_entry w t.table_name t.columns t.is_view ts)
      ≡ or_else (find_table key ts) (first_named w key (t ∷ []))
unfolding add_entry
find_table-add_entry w key t ts = find_table-add_named w key t ts t.columns.names

first_named-cons :
    (w : Surroundings) (key : Bytes) (t : FirebirdTableSchema) (ts : List FirebirdTableSchema)
    → or_else (first_named w key (t ∷ [])) (first_named w key ts) ≡ first_named w key (t ∷ ts)
first_named-cons w key t ts =
    elim (Bool-cases (has_columns t.columns.names && str_eq (upper t.table_name) key)) [
      | inl p ↦ rw p refl
      | inr p ↦ rw p refl
    ]

find_table-add_schemas :
    (w : Surroundings) (key : Bytes) (schemas : List FirebirdTableSchema)
    (ts : List (Bytes × TableEntry))
    → find_table key (add_schemas w schemas ts)
      ≡ or_else (find_table key ts) (first_named w key schemas)
unfolding add_schemas
find_table-add_schemas w key [] ts = or_else-none (find_table key ts)
find_table-add_schemas w key (t ∷ schemas) ts =
    find_table-add_schemas w key schemas (add_entry w t.table_name t.columns t.is_view ts)
    ∙ ap (λ o. or_else o (first_named w key schemas)) (find_table-add_entry w key t ts)
    ∙ or_else_assoc (find_table key ts) (first_named w key (t ∷ [])) (first_named w key schemas)
    ∙ ap (or_else (find_table key ts)) (first_named-cons w key t schemas)

-- A name finds the first table of the discovery that has a column and the same name in upper case,
-- as the entry that is built for it alone; if there is no such table, it finds none.
pub lookup_entry-first_named :
    (w : Surroundings) (name : Bytes) (schemas : List FirebirdTableSchema)
    → lookup_entry name (add_schemas w schemas []) ≡ first_named w (upper name) schemas
unfolding lookup_entry find_table
lookup_entry-first_named w name schemas = find_table-add_schemas w (upper name) schemas []
