-- ===== src/Firebird.antt =====
-- The Firebird side of a column: `FirebirdColumnDesc` of src/include/firebird_client.hpp, and the
-- `SQL_*` codes that the code switches over (ibase.h, and the Firebird 4 codes that the same header
-- defines).
use duckdb_firebird.Common.{ℕ, Bool, Bytes, ◌==◌, if◌then◌else◌, false}
use duckdb_firebird.Common.Int.{ℤ, pos, negsuc}

-- `sqltype` is the base type, with the low bit cleared.
pub record FirebirdColumnDesc : Type 0 where
  pub name : Bytes
  pub sqltype : ℕ
  pub sqlsubtype : ℤ
  pub sqlscale : ℤ
  pub sqllen : ℤ
  pub character_set_id : ℤ
  pub nullable : Bool

abbrev pub sql_text : ℕ
sql_text = 452

abbrev pub sql_varying : ℕ
sql_varying = 448

abbrev pub sql_short : ℕ
sql_short = 500

abbrev pub sql_long : ℕ
sql_long = 496

abbrev pub sql_float : ℕ
sql_float = 482

abbrev pub sql_double : ℕ
sql_double = 480

abbrev pub sql_d_float : ℕ
sql_d_float = 530

abbrev pub sql_timestamp : ℕ
sql_timestamp = 510

abbrev pub sql_blob : ℕ
sql_blob = 520

abbrev pub sql_quad : ℕ
sql_quad = 550

abbrev pub sql_type_time : ℕ
sql_type_time = 560

abbrev pub sql_type_date : ℕ
sql_type_date = 570

abbrev pub sql_int64 : ℕ
sql_int64 = 580

abbrev pub sql_boolean : ℕ
sql_boolean = 32764

abbrev pub sql_int128 : ℕ
sql_int128 = 32752

abbrev pub sql_timestamp_tz : ℕ
sql_timestamp_tz = 32754

abbrev pub sql_time_tz : ℕ
sql_time_tz = 32756

abbrev pub sql_timestamp_tz_ex : ℕ
sql_timestamp_tz_ex = 32748

abbrev pub sql_time_tz_ex : ℕ
sql_time_tz_ex = 32750

abbrev pub sql_dec16 : ℕ
sql_dec16 = 32760

abbrev pub sql_dec34 : ℕ
sql_dec34 = 32762

-- `==` on `int16_t`.
abbrev pub int_eq : ℤ → ℤ → Bool
int_eq (pos m) (pos n) = m == n
int_eq (negsuc m) (negsuc n) = m == n
int_eq _ _ = false

-- The cases of the `switch (col.sqltype)` statements; `of_unknown` is `default`.
pub data SqlKind : Type 0 where
  of_text of_varying of_short of_long of_int64 of_int128 of_float of_d_float of_double : SqlKind
  of_dec16 of_dec34 of_timestamp of_timestamp_tz of_timestamp_tz_ex of_date of_time : SqlKind
  of_time_tz of_time_tz_ex of_boolean of_blob of_unknown : SqlKind

-- The case that the selector of such a `switch` chooses.
unfoldable pub sql_kind : ℕ → SqlKind
sql_kind n =
    if n == sql_text
    then of_text
    else if n == sql_varying
    then of_varying
    else if n == sql_short
    then of_short
    else if n == sql_long
    then of_long
    else if n == sql_int64
    then of_int64
    else if n == sql_int128
    then of_int128
    else if n == sql_float
    then of_float
    else if n == sql_d_float
    then of_d_float
    else if n == sql_double
    then of_double
    else if n == sql_dec16
    then of_dec16
    else if n == sql_dec34
    then of_dec34
    else if n == sql_timestamp
    then of_timestamp
    else if n == sql_timestamp_tz
    then of_timestamp_tz
    else if n == sql_timestamp_tz_ex
    then of_timestamp_tz_ex
    else if n == sql_type_date
    then of_date
    else if n == sql_type_time
    then of_time
    else if n == sql_time_tz
    then of_time_tz
    else if n == sql_time_tz_ex
    then of_time_tz_ex
    else if n == sql_boolean
    then of_boolean
    else if n == sql_blob
    then of_blob
    else of_unknown
