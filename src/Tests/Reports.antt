-- ===== src/Tests/Reports.antt =====
-- The theorems on the reports (src/firebird_index_profile.cpp, src/firebird_dbt_sources.cpp,
-- src/firebird_explain_pushdown.cpp), applied to concrete names and answers.
use duckdb_firebird.Common.{◌≡◌, refl, true, false, none, some, [], ◌∷◌, ◌++◌, codes, upper, str_eq}
use duckdb_firebird.Common.Int.{pos}
use duckdb_firebird.Duck.{integer}
use duckdb_firebird.Firebird.{FirebirdColumnDesc}
use duckdb_firebird.Schema.{
  Columns, KeyAnswers, probe_primary_key, find_type, is_key_type, key_bounds,
}
use duckdb_firebird.Opening.Statement.{PrimaryKeyInfo}
use duckdb_firebird.Dbt.{yaml_quote}
use duckdb_firebird.Dbt.Scalars.{read_scalar, read_scalar-yaml_quote}
use duckdb_firebird.Catalog.{UniqueKey}
use duckdb_firebird.Catalog.Entry.{describe_key}
use duckdb_firebird.Catalog.Classify.{classify_pk_range, classify_pk_range-probe}
use duckdb_firebird.Indexes.{IndexAnswer, parsed, parse_qualified_name, build_index_profile}
use duckdb_firebird.Indexes.Target.{IsPart, parse_qualified_name-joined}
use duckdb_firebird.Indexes.Report.{IsProfile, build_index_profile-IsProfile}

fb-IsPart : IsPart (codes "fb")
fb-IsPart = record { some_character = refl; no_dot = (refl, (refl, tt)) }

main-IsPart : IsPart (codes "Main")
main-IsPart = record { some_character = refl; no_dot = (refl, (refl, (refl, (refl, tt)))) }

table-IsPart : IsPart (codes "T")
table-IsPart = record { some_character = refl; no_dot = (refl, tt) }

main_schema : str_eq (upper (codes "Main")) (codes "MAIN") ≡ true
unfolding str_eq
main_schema = refl

parse_qualified_name-joined_example :
    (parse_qualified_name (codes "fb" ++ b'.' ∷ codes "T")
      ≡ parsed (record { catalog = codes "fb"; table = codes "T" }))
    × (parse_qualified_name (codes "fb" ++ b'.' ∷ (codes "Main" ++ b'.' ∷ codes "T"))
        ≡ parsed (record { catalog = codes "fb"; table = codes "T" }))
parse_qualified_name-joined_example =
    parse_qualified_name-joined (codes "fb") (codes "Main") (codes "T") fb-IsPart table-IsPart
      main-IsPart main_schema

abbrev inactive : IndexAnswer
inactive = record {
  name = codes "IX";
  unique_flag = pos 0;
  active_flag = pos 0;
  primary_flag = pos 0;
  foreign_flag = pos 0;
  statistics = none;
  segments = codes "N" ∷ [];
}

abbrev id_column : FirebirdColumnDesc
id_column = record {
  name = codes "ID";
  sqltype = 496;
  sqlsubtype = pos 0;
  sqlscale = pos 0;
  sqllen = pos 4;
  character_set_id = pos 0;
  nullable = false;
}

abbrev columns : Columns
columns = record { names = codes "ID" ∷ []; types = integer ∷ []; descs = id_column ∷ [] }

build_index_profile-IsProfile_example :
    IsProfile
      (some true)
      (some (inactive ∷ []))
      (some columns)
      (build_index_profile (some true) (some (inactive ∷ [])) (some columns))
build_index_profile-IsProfile_example =
    build_index_profile-IsProfile (some true) (some (inactive ∷ [])) (some columns)

read_scalar-yaml_quote_example :
    read_scalar (yaml_quote (b'"' ∷ 7 ∷ codes "\\T") ++ 10 ∷ [])
    ≡ some (b'"' ∷ 7 ∷ codes "\\T", 10 ∷ [])
read_scalar-yaml_quote_example = read_scalar-yaml_quote (b'"' ∷ 7 ∷ codes "\\T") (10 ∷ [])

abbrev answers : KeyAnswers
answers = record {
  pk_index = some (codes "PK");
  pk_cols = some (codes "ID" ∷ []);
  key_range = some (record { sqltype = 496; min_value = some (pos 1); max_value = some (pos 9) });
}

abbrev id_key : PrimaryKeyInfo
id_key = record { column = codes "ID"; min_value = pos 1; max_value = pos 9 }

id_key_found : probe_primary_key columns.names columns.types answers ≡ some id_key
unfolding probe_primary_key find_type is_key_type key_bounds str_eq
id_key_found = refl

abbrev catalog_key : UniqueKey
catalog_key = record { constraint_name = codes "PK"; is_primary = true; columns = codes "ID" ∷ [] }

classify_pk_range-probe_example :
    ((classify_pk_range (describe_key (some catalog_key) columns)).pk_range_partitionable ≡ true)
    × ((classify_pk_range (describe_key (some catalog_key) columns)).column ≡ codes "ID")
classify_pk_range-probe_example =
    classify_pk_range-probe columns catalog_key answers id_key id_key_found refl
