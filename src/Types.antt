-- ===== src/Types.antt =====
-- src/firebird_types.cpp: the DuckDB type of a Firebird column, and what is written into the vector
-- of that type for a fetched value; and `MapFirebirdColumn` of src/firebird_scanner.cpp.
pub mod Stored
use duckdb_firebird.Common.{
  ℕ, zero, suc, ◌+◌, ◌-◌, ◌*◌, ◌%◌, ◌^◌, Bool, true, false, ◌&&◌, ◌||◌, Option, none, some, Bytes,
  ◌==◌, if◌then◌else◌, not, ◌>>=◌,
}
use duckdb_firebird.Common.Int.{ℤ, pos, negsuc, ◌+ℤ◌, ◌*ℤ◌, ltb_ℤ}
use duckdb_firebird.Charset.Transcode.{
  NoneEncoding, strict, win1252, iso_8859_1, blob, transcode_none_charset,
}
use duckdb_firebird.Duck.{
  LogicalType, boolean, tinyint, smallint, integer, bigint, float, double, varchar, date, time,
  timestamp, timestamp_tz, time_tz, hugeint, decimal,
}
use duckdb_firebird.Firebird.{
  FirebirdColumnDesc, SqlKind, of_text, of_varying, of_short, of_long, of_int64, of_int128,
  of_float, of_d_float, of_double, of_dec16, of_dec34, of_timestamp, of_timestamp_tz,
  of_timestamp_tz_ex, of_date, of_time, of_time_tz, of_time_tz_ex, of_boolean, of_blob, of_unknown,
  sql_kind, int_eq, sql_short, sql_long, sql_quad, sql_float, sql_d_float, sql_type_date,
  sql_type_time, sql_text, sql_int64, sql_boolean, sql_dec16, sql_dec34, sql_int128, sql_double,
  sql_time_tz, sql_timestamp_tz, sql_time_tz_ex, sql_timestamp_tz_ex, sql_timestamp, sql_varying,
  sql_blob,
}

-- Unary minus.
abbrev pub neg : ℤ → ℤ
neg (pos zero) = pos 0
neg (pos (suc n)) = negsuc n
neg (negsuc n) = pos (suc n)

-- A number converted to `uint8_t`, as DECIMAL takes its width and scale.
abbrev pub uint8 : ℤ → ℕ
uint8 (pos n) = n % 256
uint8 (negsuc n) = (256 - suc n % 256) % 256

unfoldable pub plain_integer : ℕ → LogicalType
plain_integer precision_hint =
    if precision_hint == 2 then smallint else if precision_hint == 4 then integer else bigint

unfoldable pub decimal_width : ℕ → Bool → ℕ
decimal_width precision_hint widen_int64 =
    if precision_hint == 2
    then 4
    else if precision_hint == 4
    then 9
    else if precision_hint == 8
    then (if widen_int64 then 38 else 18)
    else 18

unfoldable pub scaled_integer_to_decimal : ℕ → ℤ → Bool → LogicalType
scaled_integer_to_decimal precision_hint sqlscale widen_int64 =
    let scale = neg sqlscale in
    let width = decimal_width precision_hint widen_int64 in
    if int_eq sqlscale (pos 0)
    then plain_integer precision_hint
    else if ltb_ℤ scale (pos 0) || ltb_ℤ (pos width) scale
    then double
    else decimal width (uint8 scale)

-- `SQL_INT128` of `FirebirdToDuckDBType`.
unfoldable pub int128_type : ℤ → LogicalType
int128_type sqlscale =
    if int_eq sqlscale (pos 0)
    then hugeint
    else if ltb_ℤ (pos 38) (neg sqlscale)
    then double
    else decimal 38 (uint8 (neg sqlscale))

unfoldable pub kind_type : SqlKind → ℤ → ℤ → Bool → LogicalType
kind_type of_text sub scale widen = varchar
kind_type of_varying sub scale widen = varchar
kind_type of_short sub scale widen = scaled_integer_to_decimal 2 scale false
kind_type of_long sub scale widen = scaled_integer_to_decimal 4 scale false
kind_type of_int64 sub scale widen = scaled_integer_to_decimal 8 scale widen
kind_type of_int128 sub scale widen = int128_type scale
kind_type of_float sub scale widen = float
kind_type of_d_float sub scale widen = double
kind_type of_double sub scale widen = double
kind_type of_dec16 sub scale widen = varchar
kind_type of_dec34 sub scale widen = varchar
kind_type of_timestamp sub scale widen = timestamp
kind_type of_timestamp_tz sub scale widen = timestamp_tz
kind_type of_timestamp_tz_ex sub scale widen = timestamp_tz
kind_type of_date sub scale widen = date
kind_type of_time sub scale widen = time
kind_type of_time_tz sub scale widen = time_tz
kind_type of_time_tz_ex sub scale widen = time_tz
kind_type of_boolean sub scale widen = boolean
kind_type of_blob sub scale widen = if int_eq sub (pos 1) then varchar else LogicalType.blob
kind_type of_unknown sub scale widen = varchar

unfoldable pub firebird_to_duckdb_type : FirebirdColumnDesc → Bool → LogicalType
firebird_to_duckdb_type col widen =
    kind_type (sql_kind col.sqltype) col.sqlsubtype col.sqlscale widen

-- The `blr_*` codes of RDB$FIELD_TYPE as `SQL_*` codes.
unfoldable pub sql_type_of_field : ℕ → ℕ
sql_type_of_field n =
    if n == 7
    then sql_short
    else if n == 8
    then sql_long
    else if n == 9
    then sql_quad
    else if n == 10
    then sql_float
    else if n == 11
    then sql_d_float
    else if n == 12
    then sql_type_date
    else if n == 13
    then sql_type_time
    else if n == 14
    then sql_text
    else if n == 16
    then sql_int64
    else if n == 23
    then sql_boolean
    else if n == 24
    then sql_dec16
    else if n == 25
    then sql_dec34
    else if n == 26
    then sql_int128
    else if n == 27
    then sql_double
    else if n == 28
    then sql_time_tz
    else if n == 29
    then sql_timestamp_tz
    else if n == 30
    then sql_time_tz_ex
    else if n == 31
    then sql_timestamp_tz_ex
    else if n == 35
    then sql_timestamp
    else if n == 37
    then sql_varying
    else if n == 261
    then sql_blob
    else n

abbrev pub is_blob_mode : NoneEncoding → Bool
is_blob_mode blob = true
is_blob_mode _ = false

-- The type that a column of this description gets: BLOB for the texts without a character set that
-- are handed through raw.
unfoldable pub column_type : FirebirdColumnDesc → NoneEncoding → Bool → LogicalType
column_type desc mode widen =
    let is_text = (desc.sqltype == sql_text) || (desc.sqltype == sql_varying) in
    let is_blob_subtype_text = (desc.sqltype == sql_blob) && int_eq desc.sqlsubtype (pos 1) in
    if is_blob_mode mode
      && int_eq desc.character_set_id (pos 0)
      && (is_text || is_blob_subtype_text)
    then LogicalType.blob
    else firebird_to_duckdb_type desc widen

-- `MapFirebirdColumn` on a metadata row.
unfoldable pub map_firebird_column :
    Bytes → ℕ → ℤ → ℤ → ℤ → ℤ → ℤ → NoneEncoding → Bool → FirebirdColumnDesc × LogicalType
map_firebird_column name field_type sub_type scale length charset_id null_flag mode widen =
    let desc : FirebirdColumnDesc = record {
      name = name;
      sqltype = sql_type_of_field field_type;
      sqlsubtype = sub_type;
      sqlscale = scale;
      sqllen = length;
      character_set_id = charset_id;
      nullable = not (int_eq null_flag (pos 1));
    } in
    (desc, column_type desc mode widen)
