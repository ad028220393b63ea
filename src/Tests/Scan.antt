-- ===== src/Tests/Scan.antt =====
-- The theorems on the filters that are no table filters, on the opening of partitions and on their
-- queue (src/firebird_scanner.cpp), applied to a table with a key and a text without character set.
use duckdb_firebird.Common.{
  ℕ, ◌*◌, ◌≤◌, ◌≡◌, refl, not, true, false, none, some, List, [], ◌∷◌, Bytes, codes, All, length,
  arith,
}
use duckdb_firebird.Common.Int.{ℤ, pos}
use duckdb_firebird.Charset.Transcode.{win1252}
use duckdb_firebird.Duck.{
  Duckdb, TableFilter, Expression, Expressions, integer, varchar, compare_equal,
  compare_greaterthan, compare_not_in, constant_comparison, is_not_null, bound_column_ref,
  bound_constant, bound_comparison, bound_function, bound_operator,
}
use duckdb_firebird.Firebird.{FirebirdColumnDesc}
use duckdb_firebird.Query.Build.{is_gated_column}
use duckdb_firebird.Query.Placeholders.{IsPrinter}
use duckdb_firebird.Observability.{FirebirdQueryTelemetry, fresh}
use duckdb_firebird.Partition.Queue.{hand_out, hand_out-all}
use duckdb_firebird.Complex.Columns.{
  BoundColumns, firebird_scan_supports_pushdown_type, is_none_text_gated,
}
use duckdb_firebird.Complex.Pushdown.{ExtraPredicate, values_predicate, verdict, Lifted}
use duckdb_firebird.Complex.Cases.{Grounded, verdict-Grounded}
use duckdb_firebird.Complex.Gate.{supports_pushdown-gates}
use duckdb_firebird.Complex.Exact.{trim_spaces}
use duckdb_firebird.Opening.Statement.{FirebirdBindData, init_partitions, partition_query}
use duckdb_firebird.Opening.Placeholders.{planned, IsSent, scan-IsSent}
use duckdb_firebird.Opening.Cursor.{GlobalState, Surroundings, telemetry, open_partition}
use duckdb_firebird.Opening.Outcomes.{IsEnd, open_partition-IsEnd, open_all, notices, notices_once}
use duckdb_firebird.Opening.Accounts.{IsAccounted, telemetry-accounts}

abbrev printer : Duckdb
printer = record { flip = λ type. type; to_string = λ v. codes "7" }

printer-IsPrinter : IsPrinter printer
printer-IsPrinter = record { plain = λ v h. ((refl, refl, refl), tt) }

abbrev described : ℕ → FirebirdColumnDesc
described sqltype = record {
  name = codes "C";
  sqltype = sqltype;
  sqlsubtype = pos 0;
  sqlscale = pos 0;
  sqllen = pos 20;
  character_set_id = pos 0;
  nullable = true;
}

abbrev opted_in : BoundColumns
opted_in = record {
  column_names = codes "ID" ∷ codes "NAME" ∷ [];
  column_descs = described 496 ∷ described 448 ∷ [];
  none_encoding = win1252;
  none_pushdown = true;
}

abbrev nothing : Lifted
nothing = record { extra_predicates = []; gated_complex_reasons = [] }

abbrev people : FirebirdBindData
people = record {
  table_name = codes "PEOPLE";
  columns = opted_in;
  lifted = nothing;
  partitions_override = 2;
  limit_override = none;
  offset_override = none;
  pk = some (record { column = codes "ID"; min_value = pos 1; max_value = pos 10 });
  is_view = false;
  is_view_simple_for_pagination = false;
}

abbrev text : Bytes → Expression
text s = bound_constant (record { type = varchar; is_null = false; payload = s })

abbrev number : Expression
number = bound_constant (record { type = integer; is_null = false; payload = codes "5" })

-- `É`, in UTF-8.
abbrev acute : Bytes
acute = 0xC3 ∷ 0x89 ∷ []

abbrev like_a : Expression
like_a = bound_function (codes "~~") (
    Expressions.cons (bound_column_ref 1 varchar)
      (Expressions.cons (text (codes "a%")) Expressions.nil))

abbrev equals_acute : Expression
equals_acute = bound_comparison compare_equal (text acute) (bound_column_ref 1 varchar)

abbrev not_in_five : Expression
not_in_five =
    bound_operator compare_not_in
      (Expressions.cons (bound_column_ref 0 integer) (Expressions.cons number Expressions.nil))

abbrev three_filters : List Expression
three_filters = like_a ∷ equals_acute ∷ not_in_five ∷ []

abbrev both_columns : List ℕ
both_columns = 0 ∷ 1 ∷ []

abbrev table_filters : List (ℕ × TableFilter)
table_filters =
    (
      0,
      constant_comparison compare_greaterthan
          (record { type = integer; is_null = false; payload = [] }),
    )
    ∷ (1, is_not_null)
    ∷ []

abbrev halves : ℤ → ℤ → ℕ → ℕ → ℕ
halves lo hi n i = 5 * i

scan-IsSent_example :
    All
      (IsSent printer (planned people both_columns three_filters) both_columns table_filters)
      (init_partitions halves 4 (planned people both_columns three_filters))
scan-IsSent_example =
    scan-IsSent printer printer-IsPrinter people both_columns both_columns table_filters
      three_filters halves 4

verdict-Grounded_example :
    Grounded opted_in both_columns equals_acute (verdict opted_in both_columns equals_acute)
verdict-Grounded_example = verdict-Grounded opted_in both_columns equals_acute

supports_pushdown-gates_example :
    (firebird_scan_supports_pushdown_type opted_in 1 ≡ not (is_none_text_gated opted_in 1))
    × (is_none_text_gated opted_in 1 ≡ is_gated_column (some opted_in.column_descs) win1252 1)
supports_pushdown-gates_example = supports_pushdown-gates opted_in 1

-- The literal as it is sent, one byte of Windows-1252.
abbrev sent_acute : ExtraPredicate
sent_acute = values_predicate opted_in false 1 ((0xC9 ∷ []) ∷ [])

abbrev PadSpace : Bytes → Bytes → Type 0
PadSpace a b = trim_spaces a ≡ trim_spaces b

-- The client refuses the statement.
abbrev refusing : Surroundings
refusing = record {
  log_size = pos 5;
  unpushed_mode = some (codes "warn");
  connection_id = pos 1;
  connection_reused = false;
  captured_at = pos 0;
  recorded_at = pos 0;
  opened_at = pos 9;
  firebird_us = pos 4;
  exception = some (codes "password=secret");
}

abbrev global : GlobalState
global = record {
  queue = record { partitions = codes "ID >= 1" ∷ codes "ID >= 6" ∷ []; next_partition = 0 };
  unpushed_reported = false;
  column_ids = both_columns;
  filters = table_filters;
}

open_partition-IsEnd_example :
    IsEnd refusing
      (partition_query printer people both_columns table_filters (codes "ID >= 1"))
      (open_partition printer people refusing (codes "ID >= 1") global fresh)
      (open_partition printer people refusing (codes "ID >= 1") global fresh).opened
open_partition-IsEnd_example =
    open_partition-IsEnd printer people refusing (codes "ID >= 1") global fresh

notices_once_example :
    notices (open_all printer people (refusing ∷ refusing ∷ refusing ∷ []) global fresh) ≤ 1
notices_once_example =
    notices_once printer people (refusing ∷ refusing ∷ refusing ∷ []) global fresh

abbrev recorded : FirebirdQueryTelemetry
recorded =
    telemetry printer people global refusing
      (partition_query printer people both_columns table_filters (codes "ID >= 1"))

telemetry-accounts_example :
    IsAccounted printer people global recorded
      (length (partition_query printer people both_columns table_filters (codes "ID >= 1")).params)
telemetry-accounts_example =
    telemetry-accounts printer printer-IsPrinter people global refusing (codes "ID >= 1")

hand_out-all_example : hand_out 3 global.queue ≡ codes "ID >= 1" ∷ codes "ID >= 6" ∷ []
hand_out-all_example = hand_out-all global.queue 3 (omega arith)
