-- ===== src/Tests/Bind.antt =====
-- The theorems on bind and schema loading (src/firebird_scanner.cpp) and on src/firebird_health.cpp,
-- applied to concrete arguments and answers.
use mathlib.Core.Option.{some-injective}
use duckdb_firebird.Common.{
  if◌then◌else◌, ℕ, ◌<◌, ◌≡◌, ◌↔◌, refl, true, false, none, some, List, [], ◌∷◌, Bytes, codes,
  length, map, str_eq, All, arith,
}
use duckdb_firebird.Common.Int.{ℤ, pos, negsuc}
use duckdb_firebird.Charset.Transcode.{win1252}
use duckdb_firebird.Connection.{default_info}
use duckdb_firebird.Duck.{integer, varchar}
use duckdb_firebird.View.{not_inspected}
use duckdb_firebird.Opening.Statement.{
  PrimaryKeyInfo, FirebirdBindData, init_partitions, pagination,
}
use duckdb_firebird.Query.Build.{rows_bounds}
use duckdb_firebird.Opening.Paging.{returned, emitted}
use duckdb_firebird.Binding.{
  NamedParameter, row_limit, row_offset, ScanOptions, scan_options, initial_options,
}
use duckdb_firebird.Binding.Paging.{Unless, IsPaged, scan_options-IsPaged}
use duckdb_firebird.Binding.Data.{bind_data, bind_data-slice}
use duckdb_firebird.Schema.{
  MetadataRow, Columns, KeyAnswers, load_table_schema, load_all_table_schemas, probe_primary_key,
  find_type, is_key_type, key_bounds,
}
use duckdb_firebird.Schema.Key.{IsKey, probe_primary_key_iff}
use duckdb_firebird.Schema.Grouping.{Block, rows_of, schema_of, load_all_table_schemas-each}
use duckdb_firebird.Health.{DatabaseRow, Answer, thrown, row, health_function}
use duckdb_firebird.Health.Degraded.{IsReport, health_function-IsReport}

abbrev window : List NamedParameter
window = row_limit (pos 2) ∷ row_offset (pos 1) ∷ []

scan_options-IsPaged_example :
    Unless IsPaged (scan_options (codes "db.fdb") (codes "PEOPLE") window none)
scan_options-IsPaged_example =
    scan_options-IsPaged (codes "db.fdb") (codes "PEOPLE") window none
      (omega arith, (omega arith, tt))

abbrev paged : ScanOptions
paged = record (initial_options (codes "PEOPLE") default_info win1252) {
  partitions_override = 1;
  limit_override = some 2;
  offset_override = some 1;
}

paged-IsPaged : IsPaged paged
paged-IsPaged = record {
  limited = λ h. refl;
  serial = λ h. refl;
  window = λ limit e.
      (let two = some-injective 2 limit e in
        (omega (arith, two), (omega (arith, two), omega arith)));
}

abbrev schema : Columns
schema = record {
  names = codes "ID" ∷ codes "NAME" ∷ [];
  types = integer ∷ varchar ∷ [];
  descs = [];
}

abbrev answers : KeyAnswers
answers = record {
  pk_index = some (codes "PK_PEOPLE");
  pk_cols = some (codes "ID" ∷ []);
  key_range = some (record { sqltype = 496; min_value = some (pos 1); max_value = some (pos 9) });
}

abbrev halves : ℤ → ℤ → ℕ → ℕ → ℕ
halves lo hi n i = i

abbrev bound_people : FirebirdBindData
bound_people = bind_data paged schema answers false not_inspected

abbrev four : List ℕ
four = 10 ∷ 20 ∷ 30 ∷ 40 ∷ []

few : length (returned (pagination bound_people) four) < 9
unfolding pagination bind_data probe_primary_key find_type is_key_type key_bounds str_eq rows_bounds
few = omega arith

bind_data-slice_example :
    (length (init_partitions halves 4 bound_people) ≡ 1)
    × (emitted (pagination bound_people) 3 9 four ≡ 20 ∷ 30 ∷ [])
bind_data-slice_example =
    bind_data-slice paged 2 paged-IsPaged refl schema answers false not_inspected halves 4 3 9 four
      few

abbrev people_key : PrimaryKeyInfo
people_key = record { column = codes "ID"; min_value = pos 1; max_value = pos 9 }

people_key_found : probe_primary_key schema.names schema.types answers ≡ some people_key
unfolding probe_primary_key find_type is_key_type key_bounds str_eq
people_key_found = refl

probe_primary_key_iff_example :
    (probe_primary_key schema.names schema.types answers ≡ some people_key)
    ↔ IsKey schema.names schema.types answers people_key
probe_primary_key_iff_example = probe_primary_key_iff schema.names schema.types answers people_key

abbrev metadata : Bytes → Bytes → MetadataRow
metadata relation name = record {
  relation = relation;
  field_name = name;
  field_type = 8;
  sub_type = pos 0;
  scale = pos 0;
  field_length = pos 4;
  charset_id = negsuc 0;
  null_flag = pos 0;
  view = false;
}

same_table : str_eq (codes "A") (codes "A") ≡ true
unfolding str_eq
same_table = refl

other_table : str_eq (codes "A") (codes "B") ≡ false
unfolding str_eq
other_table = refl

abbrev two_tables : List Block
two_tables =
    record {
      first = metadata (codes "A") (codes "ID");
      others = metadata (codes "A") (codes "N") ∷ [];
      together = (same_table, tt);
    }
    ∷ record { first = metadata (codes "B") (codes "ID"); others = []; together = tt }
    ∷ []

abbrev served : Bytes → List MetadataRow
served name =
    if str_eq (codes "A") name
    then metadata (codes "A") (codes "ID") ∷ metadata (codes "A") (codes "N") ∷ []
    else metadata (codes "B") (codes "ID") ∷ []

load_all_table_schemas-each_example :
    (load_all_table_schemas win1252 false (rows_of two_tables)
      ≡ map (schema_of win1252 false) two_tables)
    × All
        (λ (b : Block).
          load_table_schema win1252 false served b.first.relation
          ≡ some (schema_of win1252 false b).columns)
        two_tables
unfolding str_eq
load_all_table_schemas-each_example =
    load_all_table_schemas-each win1252 false served two_tables (other_table, tt) (refl, (refl, tt))

abbrev database : Answer DatabaseRow
database = row (record { version = some (codes "5.0.1"); charset = some (codes "NONE") })

health_function-IsReport_example :
    IsReport false true database thrown (health_function false true database thrown)
health_function-IsReport_example = health_function-IsReport false true database thrown
