-- ===== src/Indexes/Target.antt =====
-- `ParseQualifiedName` of src/firebird_index_profile.cpp against the names that it is to read.
use duckdb_firebird.Common.{
  ◌≡◌, refl, ap, ◌∙◌, true, false, [], ◌∷◌, ◌++◌, Bytes, codes, upper, is_empty, str_eq, All, ◌==◌,
  if-true,
}
use duckdb_firebird.Connection.Text.{pieces}
use duckdb_firebird.Indexes.{Parsed, parsed, nonempty, target_of, parse_qualified_name}

-- A part of a name: it has a character, and no dot.
pub record IsPart (s : Bytes) : Type 0 where
  pub some_character : is_empty s ≡ false
  pub no_dot : All (λ c. (c == b'.') ≡ false) s

pieces-dot :
    (s t : Bytes)
    → All (λ c. (c == b'.') ≡ false) s
    → pieces b'.' (s ++ b'.' ∷ t) ≡ s ∷ pieces b'.' t
unfolding pieces
pieces-dot [] t h = refl
pieces-dot (c ∷ s) t h = rw (h.0, pieces-dot s t h.1) refl

pieces-one : (s : Bytes) → All (λ c. (c == b'.') ≡ false) s → pieces b'.' s ≡ s ∷ []
unfolding pieces
pieces-one [] h = refl
pieces-one (c ∷ s) h = rw (h.0, pieces-one s h.1) refl

abbrev target : Bytes → Bytes → Parsed
target catalog table = parsed (record { catalog = catalog; table = table })

nonempty-parsed :
    (catalog table : Bytes)
    → IsPart catalog
    → IsPart table
    → nonempty catalog table ≡ target catalog table
unfolding nonempty
nonempty-parsed catalog table hc ht = rw (hc.some_character, ht.some_character) refl

-- A catalog and a table, each with a character and without a dot, are read back from their names
-- with a dot between them, and from their names with the schema MAIN, in any case, between them.
pub parse_qualified_name-joined :
    (catalog schema table : Bytes)
    → IsPart catalog
    → IsPart table
    → IsPart schema
    → str_eq (upper schema) (codes "MAIN") ≡ true
    → (parse_qualified_name (catalog ++ b'.' ∷ table)
        ≡ parsed (record { catalog = catalog; table = table }))
      × (parse_qualified_name (catalog ++ b'.' ∷ (schema ++ b'.' ∷ table))
          ≡ parsed (record { catalog = catalog; table = table }))
unfolding parse_qualified_name target_of
parse_qualified_name-joined catalog schema table hc ht hs main =
    let one = pieces-one table ht.no_dot in
    let two = pieces-dot catalog table hc.no_dot ∙ ap (λ ps. catalog ∷ ps) one in
    let three : pieces b'.' (catalog ++ b'.' ∷ (schema ++ b'.' ∷ table))
        ≡ catalog ∷ schema ∷ table ∷ [] =
      pieces-dot catalog (schema ++ b'.' ∷ table) hc.no_dot
      ∙ ap (λ ps. catalog ∷ ps) (pieces-dot schema table hs.no_dot ∙ ap (λ ps. schema ∷ ps) one) in
    (
      ap target_of two ∙ nonempty-parsed catalog table hc ht,
      ap target_of three ∙ if-true _ _ main ∙ nonempty-parsed catalog table hc ht,
    )
