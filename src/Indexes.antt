-- ===== src/Indexes.antt =====
-- src/firebird_index_profile.cpp: the target of the report, `BuildIndexProfile` on the server's answers,
-- and the rows that `IndexProfileFunction` hands out.
pub mod Target
pub mod Report
use duckdb_firebird.Common.{
  ℕ, zero, suc, Bool, true, false, not, ◌&&◌, ◌||◌, Option, none, some, List, [], ◌∷◌, ◌++◌, map,
  Bytes, codes, upper, is_empty, str_eq, take, drop, ◌==◌, if◌then◌else◌,
}
use duckdb_firebird.Common.Int.{ℤ, pos}
use duckdb_firebird.Connection.Text.{pieces}
use duckdb_firebird.Duck.{
  LogicalType, smallint, integer, bigint, hugeint, date, timestamp, timestamp_tz, decimal, varchar,
}
use duckdb_firebird.Firebird.{FirebirdColumnDesc, int_eq}
use duckdb_firebird.Schema.{Columns}

pub record IndexProfileTarget : Type 0 where
  pub catalog : Bytes
  pub table : Bytes

-- The target, or the exception, by what it complains of.
pub data Parsed : Type 0 where
  parsed : IndexProfileTarget → Parsed
  schema_not_exposed wrong_parts empty_part : Parsed

unfoldable pub nonempty : Bytes → Bytes → Parsed
nonempty catalog table =
    if is_empty catalog || is_empty table
    then empty_part
    else parsed (record { catalog = catalog; table = table })

unfoldable pub target_of : List Bytes → Parsed
target_of (catalog ∷ table ∷ []) = nonempty catalog table
target_of (catalog ∷ schema ∷ table ∷ []) =
    if str_eq (upper schema) (codes "MAIN") then nonempty catalog table else schema_not_exposed
target_of _ = wrong_parts

unfoldable pub parse_qualified_name : Bytes → Parsed
parse_qualified_name qualified = target_of (pieces b'.' qualified)

pub record Alert : Type 0 where
  pub code : Bytes
  pub severity : Bytes
  pub message : Bytes

-- A row of the answer with the segments of its index; the selectivity is the bits of a double.
pub record IndexAnswer : Type 0 where
  pub name : Bytes
  pub unique_flag : ℤ
  pub active_flag : ℤ
  pub primary_flag : ℤ
  pub foreign_flag : ℤ
  pub statistics : Option ℕ
  pub segments : List Bytes

-- `IndexProfileRow`; without a selectivity it is none.
pub record IndexProfileRow : Type 0 where
  pub is_synthetic : Bool
  pub index_name : Bytes
  pub columns : List Bytes
  pub is_unique : Bool
  pub is_active : Bool
  pub is_primary_key : Bool
  pub is_foreign_key : Bool
  pub selectivity : Option ℕ
  pub alerts : List Alert

pub record IndexProfileResult : Type 0 where
  pub rows : List IndexProfileRow
  pub unindexed_filter_candidates : List Bytes

-- `LoadIndexRows`, of one index.
unfoldable pub index_row : IndexAnswer → IndexProfileRow
index_row a = record {
  is_synthetic = false;
  index_name = a.name;
  columns = a.segments;
  is_unique = int_eq a.unique_flag (pos 1);
  is_active = int_eq a.active_flag (pos 1);
  is_primary_key = int_eq a.primary_flag (pos 1);
  is_foreign_key = int_eq a.foreign_flag (pos 1);
  selectivity = a.statistics;
  alerts = [];
}

unfoldable pub is_cheap_type : LogicalType → Bool
is_cheap_type smallint = true
is_cheap_type integer = true
is_cheap_type bigint = true
is_cheap_type hugeint = true
is_cheap_type date = true
is_cheap_type timestamp = true
is_cheap_type timestamp_tz = true
is_cheap_type (decimal w s) = true
is_cheap_type varchar = true
is_cheap_type _ = false

abbrev pub is_text : LogicalType → Bool
is_text varchar = true
is_text _ = false

unfoldable pub is_cheap_filter_type : FirebirdColumnDesc → LogicalType → Bool
is_cheap_filter_type desc t =
    if is_text t && int_eq desc.character_set_id (pos 0) then false else is_cheap_type t

unfoldable pub is_among : Bytes → List Bytes → Bool
is_among c [] = false
is_among c (x ∷ xs) = str_eq x c || is_among c xs

-- `covered`.
unfoldable pub covered : List IndexProfileRow → List Bytes
covered [] = []
covered (r ∷ rs) = r.columns ++ covered rs

-- The loop over the columns.
unfoldable pub candidates :
    List Bytes → List Bytes → List LogicalType → List FirebirdColumnDesc → List Bytes
candidates cover (n ∷ ns) (t ∷ ts) (d ∷ ds) =
    let rest = candidates cover ns ts ds in
    if not (is_among n cover) && is_cheap_filter_type d t then n ∷ rest else rest
candidates cover _ _ _ = []

unfoldable pub no_indexes : Alert
no_indexes = record {
  code = codes "no_indexes_on_table";
  severity = codes "HIGH";
  message =
      codes "Table has no indexes at all: every scan is a full table "
      ++ codes "scan and no column has a covering index for filtering.";
}

unfoldable pub synthetic : IndexProfileRow
synthetic = record {
  is_synthetic = true;
  index_name = [];
  columns = [];
  is_unique = false;
  is_active = false;
  is_primary_key = false;
  is_foreign_key = false;
  selectivity = none;
  alerts = no_indexes ∷ [];
}

unfoldable pub inactive_alert : Bytes → Alert
inactive_alert name = record {
  code = codes "index_inactive";
  severity = codes "MEDIUM";
  message =
      codes "Index '" ++ name ++ codes "' is inactive: the " ++ codes "optimizer will not use it.";
}

unfoldable pub statistics_alert : Bytes → Alert
statistics_alert name = record {
  code = codes "missing_statistics";
  severity = codes "LOW";
  message =
      codes "Index '"
      ++ name
      ++ codes "' has no computed "
      ++ codes "selectivity statistic (RDB$STATISTICS is NULL): "
      ++ codes "it was never analyzed (SET STATISTICS).";
}

abbrev pub is_missing : Option ℕ → Bool
is_missing none = true
is_missing (some s) = false

unfoldable pub with_alerts : IndexProfileRow → IndexProfileRow
with_alerts r = record r {
  alerts =
      r.alerts
      ++ (if r.is_active then [] else inactive_alert r.index_name ∷ [])
      ++ (if is_missing r.selectivity then statistics_alert r.index_name ∷ [] else []);
}

unfoldable pub reported : List IndexProfileRow → List IndexProfileRow
reported [] = synthetic ∷ []
reported (r ∷ rs) = map with_alerts (r ∷ rs)

-- `BuildIndexProfile` on whether the relation exists, its indexes, and its columns, each none where
-- the load of it throws; none where the function throws.
unfoldable pub build_index_profile :
    Option Bool → Option (List IndexAnswer) → Option Columns → Option IndexProfileResult
build_index_profile none answers c = none
build_index_profile (some false) answers c = none
build_index_profile (some true) none c = none
build_index_profile (some true) (some answers) none = none
build_index_profile (some true) (some answers) (some c) =
    let rows = map index_row answers in
    some (record {
      rows = reported rows;
      unindexed_filter_candidates = candidates (covered rows) c.names c.types c.descs;
    })

-- `IndexProfileFunction`: a chunk of at most `size` rows, and the rows that are left.
unfoldable pub index_profile_function {ℓ} : {A : Type ℓ} → ℕ → List A → List A × List A
index_profile_function size rows = (take size rows, drop size rows)
