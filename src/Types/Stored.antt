-- ===== src/Types/Stored.antt =====
-- `FirebirdAppendValue` of src/firebird_types.cpp: the cell that is written into the vector.
pub mod Layout
pub mod Physical
pub mod Widening
use duckdb_firebird.Common.{
  ℕ, suc, ◌+◌, ◌-◌, ◌%◌, ◌^◌, Bool, true, false, ◌&&◌, Option, none, some, Bytes, if◌then◌else◌,
}
use duckdb_firebird.Common.Int.{ℤ, pos, negsuc, ◌+ℤ◌, ◌*ℤ◌, ltb_ℤ}
use duckdb_firebird.Charset.Transcode.{NoneEncoding, transcode_none_charset}
use duckdb_firebird.Duck.{LogicalType, decimal}
use duckdb_firebird.Firebird.{
  FirebirdColumnDesc, SqlKind, of_text, of_varying, of_short, of_long, of_int64, of_int128,
  of_float, of_d_float, of_double, of_dec16, of_dec34, of_timestamp, of_timestamp_tz,
  of_timestamp_tz_ex, of_date, of_time, of_time_tz, of_time_tz_ex, of_boolean, of_blob, of_unknown,
  sql_kind, int_eq,
}
use duckdb_firebird.Types.{is_blob_mode}

-- `PhysicalType`.
pub data PhysicalType : Type 0 where
  bool int16 int32 int64 int128 float double varchar : PhysicalType

-- What is written at `target_offset`; a floating-point number is its bits, a time is in
-- microseconds, a date in days since 1970-01-01, and a time with zone has its offset.
pub data Cell : Type 0 where
  null : Cell
  string_cell : Bytes → Cell
  short_cell int_cell long_cell : ℤ → Cell
  hugeint_cell : ℕ → ℤ → Cell
  float_cell double_cell : ℕ → Cell
  bool_cell : Bool → Cell
  date_cell time_cell timestamp_cell timestamp_tz_cell : ℤ → Cell
  time_tz_cell : ℤ → ℤ → Cell

-- What the accessors of `FirebirdStatement` return for the column of the current row.
pub record Fetched : Type 0 where
  pub is_null : Bool
  pub get_text : Bytes
  pub read_blob : Bytes
  pub get_short : ℤ
  pub get_long : ℤ
  pub get_int64 : ℤ
  pub get_int128 : ℕ × ℤ
  pub get_float : ℕ
  pub get_double : ℕ
  pub get_bool : Bool
  pub get_date : ℤ
  pub get_time : ℤ
  pub get_timestamp : ℤ × ℤ
  pub get_timestamp_tz_utc : ℤ × ℤ
  pub get_time_tz_utc : ℤ

-- The functions of DuckDB that the code calls: `LogicalType::InternalType`,
-- `Date::FromDate(1858, 11, 17)` and `Timestamp::FromDatetime`.
pub record Vectors : Type 0 where
  pub internal_type : LogicalType → PhysicalType
  pub firebird_epoch : ℤ
  pub from_datetime : ℤ → ℤ → ℤ

abbrev pub is_decimal : LogicalType → Bool
is_decimal (decimal w s) = true
is_decimal _ = false

abbrev pub is_int128 : PhysicalType → Bool
is_int128 int128 = true
is_int128 _ = false

-- `static_cast<uint64_t>` and the sign extension of an int64.
abbrev pub wide_lower : ℤ → ℕ
wide_lower (pos n) = n % 2 ^ 64
wide_lower (negsuc n) = 2 ^ 64 - suc (n % 2 ^ 64)

abbrev pub wide_upper : ℤ → ℤ
wide_upper v = if ltb_ℤ v (pos 0) then negsuc 0 else pos 0

-- The bytes of a text, decoded if they have no character set; none where the decoding throws.
unfoldable pub text_cell : FirebirdColumnDesc → NoneEncoding → Bytes → Option Cell
text_cell col mode s =
    if int_eq col.character_set_id (pos 0)
    then (if is_blob_mode mode
        then some (string_cell s)
        else elim (transcode_none_charset s mode) [ none ↦ none | some t ↦ some (string_cell t) ])
    else some (string_cell s)

-- 1/10000 of a second to microseconds.
abbrev pub microseconds : ℤ → ℤ
microseconds t = t *ℤ pos 100

unfoldable pub int64_cell : Vectors → LogicalType → ℤ → Cell
int64_cell vs dst v =
    if is_decimal dst
    then (if is_int128 (vs.internal_type dst)
        then hugeint_cell (wide_lower v) (wide_upper v)
        else long_cell v)
    else long_cell v

unfoldable pub kind_cell :
    Vectors → Fetched → FirebirdColumnDesc → LogicalType → NoneEncoding → SqlKind → Option Cell
kind_cell vs row col dst mode of_text = text_cell col mode row.get_text
kind_cell vs row col dst mode of_varying = text_cell col mode row.get_text
kind_cell vs row col dst mode of_short = some (short_cell row.get_short)
kind_cell vs row col dst mode of_long = some (int_cell row.get_long)
kind_cell vs row col dst mode of_int64 = some (int64_cell vs dst row.get_int64)
kind_cell vs row col dst mode of_int128 = some (hugeint_cell row.get_int128.0 row.get_int128.1)
kind_cell vs row col dst mode of_float = some (float_cell row.get_float)
kind_cell vs row col dst mode of_d_float = some (double_cell row.get_double)
kind_cell vs row col dst mode of_double = some (double_cell row.get_double)
kind_cell vs row col dst mode of_dec16 = some null
kind_cell vs row col dst mode of_dec34 = some null
kind_cell vs row col dst mode of_timestamp = some (
    timestamp_cell (
      vs.from_datetime (vs.firebird_epoch +ℤ row.get_timestamp.0)
        (microseconds row.get_timestamp.1)))
kind_cell vs row col dst mode of_timestamp_tz = some (
    timestamp_tz_cell (
      vs.from_datetime (vs.firebird_epoch +ℤ row.get_timestamp_tz_utc.0)
        (microseconds row.get_timestamp_tz_utc.1)))
kind_cell vs row col dst mode of_timestamp_tz_ex = some (
    timestamp_tz_cell (
      vs.from_datetime (vs.firebird_epoch +ℤ row.get_timestamp_tz_utc.0)
        (microseconds row.get_timestamp_tz_utc.1)))
kind_cell vs row col dst mode of_date = some (date_cell (vs.firebird_epoch +ℤ row.get_date))
kind_cell vs row col dst mode of_time = some (time_cell (microseconds row.get_time))
kind_cell vs row col dst mode of_time_tz =
    some (time_tz_cell (microseconds row.get_time_tz_utc) (pos 0))
kind_cell vs row col dst mode of_time_tz_ex =
    some (time_tz_cell (microseconds row.get_time_tz_utc) (pos 0))
kind_cell vs row col dst mode of_boolean = some (bool_cell row.get_bool)
kind_cell vs row col dst mode of_blob =
    if int_eq col.sqlsubtype (pos 1)
    then text_cell col mode row.read_blob
    else some (string_cell row.read_blob)
kind_cell vs row col dst mode of_unknown = some null

-- `col` is the description of the cursor. The cell, or none where the decoding of a text throws.
unfoldable pub append_value :
    Vectors → Fetched → FirebirdColumnDesc → LogicalType → NoneEncoding → Option Cell
append_value vs row col dst mode =
    if row.is_null then some null else kind_cell vs row col dst mode (sql_kind col.sqltype)
