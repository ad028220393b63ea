-- ===== src/Types/Stored/Layout.antt =====
-- How DuckDB lays out its vectors, and each case of `FirebirdAppendValue` against the type that
-- `FirebirdToDuckDBType` gives in the same case (src/firebird_types.cpp).
use duckdb_firebird.Common.{
  ℕ, suc, ◌%◌, ◌≤◌, ◌≡◌, refl, sym, ap, ◌∙◌, Bool, true, false, Option, none, some, Bytes,
  if◌then◌else◌, if-intro, arith, leb, subst,
}
use duckdb_firebird.Common.Int.{ℤ, pos, negsuc}
use duckdb_firebird.Charset.Transcode.{NoneEncoding, transcode_none_charset}
use duckdb_firebird.Duck.{
  LogicalType, boolean, smallint, integer, bigint, float, double, varchar, date, time, timestamp,
  timestamp_tz, time_tz, hugeint, decimal,
}
use duckdb_firebird.Firebird.{
  FirebirdColumnDesc, SqlKind, of_text, of_varying, of_short, of_long, of_int64, of_int128,
  of_float, of_d_float, of_double, of_dec16, of_dec34, of_timestamp, of_timestamp_tz,
  of_timestamp_tz_ex, of_date, of_time, of_time_tz, of_time_tz_ex, of_boolean, of_blob, of_unknown,
  int_eq,
}
use duckdb_firebird.Types.{
  plain_integer, decimal_width, scaled_integer_to_decimal, int128_type, kind_type, is_blob_mode,
}
use duckdb_firebird.Types.Stored.{
  PhysicalType, Cell, null, string_cell, short_cell, int_cell, long_cell, hugeint_cell, float_cell,
  double_cell, bool_cell, date_cell, time_cell, timestamp_cell, timestamp_tz_cell, time_tz_cell,
  Fetched, Vectors, is_int128, wide_lower, wide_upper, text_cell, int64_cell, kind_cell,
}

-- What DuckDB documents of `InternalType`.
pub record IsLayout (internal_type : LogicalType → PhysicalType) : Type 0 where
  pub boolean_lay : internal_type boolean ≡ PhysicalType.bool
  pub smallint_lay : internal_type smallint ≡ PhysicalType.int16
  pub integer_lay : internal_type integer ≡ PhysicalType.int32
  pub bigint_lay : internal_type bigint ≡ PhysicalType.int64
  pub hugeint_lay : internal_type hugeint ≡ PhysicalType.int128
  pub float_lay : internal_type float ≡ PhysicalType.float
  pub double_lay : internal_type double ≡ PhysicalType.double
  pub varchar_lay : internal_type varchar ≡ PhysicalType.varchar
  pub blob_lay : internal_type LogicalType.blob ≡ PhysicalType.varchar
  pub date_lay : internal_type date ≡ PhysicalType.int32
  pub time_lay : internal_type time ≡ PhysicalType.int64
  pub time_tz_lay : internal_type time_tz ≡ PhysicalType.int64
  pub timestamp_lay : internal_type timestamp ≡ PhysicalType.int64
  pub timestamp_tz_lay : internal_type timestamp_tz ≡ PhysicalType.int64
  pub decimal_lay :
      (w s : ℕ)
      → internal_type (decimal w s) ≡ (
          if leb w 4
          then PhysicalType.int16
          else if leb w 9
          then PhysicalType.int32
          else if leb w 18
          then PhysicalType.int64
          else PhysicalType.int128)

-- The cell may stand in a vector of that physical type: NULL may stand in all.
abbrev pub Fits : Cell → PhysicalType → Type 0
Fits null t = Unit
Fits (string_cell s) t = t ≡ PhysicalType.varchar
Fits (short_cell v) t = t ≡ PhysicalType.int16
Fits (int_cell v) t = t ≡ PhysicalType.int32
Fits (long_cell v) t = t ≡ PhysicalType.int64
Fits (hugeint_cell l u) t = t ≡ PhysicalType.int128
Fits (float_cell v) t = t ≡ PhysicalType.float
Fits (double_cell v) t = t ≡ PhysicalType.double
Fits (bool_cell v) t = t ≡ PhysicalType.bool
Fits (date_cell v) t = t ≡ PhysicalType.int32
Fits (time_cell v) t = t ≡ PhysicalType.int64
Fits (timestamp_cell v) t = t ≡ PhysicalType.int64
Fits (timestamp_tz_cell v) t = t ≡ PhysicalType.int64
Fits (time_tz_cell v o) t = t ≡ PhysicalType.int64

abbrev pub AllFits : Option Cell → PhysicalType → Type 0
AllFits none t = Unit
AllFits (some c) t = Fits c t

-- A scale that Firebird reports: minus a number of digits that the width has.
abbrev pub IsScale : ℕ → ℤ → Type 0
IsScale w (pos n) = n ≡ 0
IsScale w (negsuc n) = suc n ≤ w

abbrev pub HasScale : SqlKind → ℤ → Type 0
HasScale of_short z = IsScale 4 z
HasScale of_long z = IsScale 9 z
HasScale of_int64 z = IsScale 18 z
HasScale of_int128 z = IsScale 38 z
HasScale _ z = Unit

scaled_decimal :
    (hint n : ℕ) (widen : Bool)
    → suc n ≤ decimal_width hint widen
    → scaled_integer_to_decimal hint (negsuc n) widen
      ≡ decimal (decimal_width hint widen) (suc n % 256)
unfolding scaled_integer_to_decimal
scaled_decimal hint n widen h = ground arith

int128_decimal : (n : ℕ) → suc n ≤ 38 → int128_type (negsuc n) ≡ decimal 38 (suc n % 256)
unfolding int128_type
int128_decimal n h = ground arith

module _ (vs : Vectors) (lay : IsLayout vs.internal_type) where
  small_fits :
      (z : ℤ)
      → IsScale 4 z
      → vs.internal_type (scaled_integer_to_decimal 2 z false) ≡ PhysicalType.int16
  unfolding scaled_integer_to_decimal plain_integer decimal_width
  small_fits (pos n) h = rw (h, lay.smallint_lay)
  small_fits (negsuc n) h =
      ap vs.internal_type (scaled_decimal 2 n false h) ∙ lay.decimal_lay 4 (suc n % 256)

  integer_fits :
      (z : ℤ)
      → IsScale 9 z
      → vs.internal_type (scaled_integer_to_decimal 4 z false) ≡ PhysicalType.int32
  unfolding scaled_integer_to_decimal plain_integer decimal_width
  integer_fits (pos n) h = rw (h, lay.integer_lay)
  integer_fits (negsuc n) h =
      ap vs.internal_type (scaled_decimal 4 n false h) ∙ lay.decimal_lay 9 (suc n % 256)

  hugeint_fits : (z : ℤ) → IsScale 38 z → vs.internal_type (int128_type z) ≡ PhysicalType.int128
  unfolding int128_type
  hugeint_fits (pos n) h = rw (h, lay.hugeint_lay)
  hugeint_fits (negsuc n) h =
      ap vs.internal_type (int128_decimal n h) ∙ lay.decimal_lay 38 (suc n % 256)

  abbrev Held : ℤ → PhysicalType → Type 0
  Held v t =
      Fits (if is_int128 t then hugeint_cell (wide_lower v) (wide_upper v) else long_cell v) t

  -- An int64 in a vector of its column's type.
  bigint_fits :
      (z v : ℤ) (widen : Bool)
      → IsScale 18 z
      → Fits
          (int64_cell vs (scaled_integer_to_decimal 8 z widen) v)
          (vs.internal_type (scaled_integer_to_decimal 8 z widen))
  unfolding scaled_integer_to_decimal plain_integer decimal_width int64_cell
  bigint_fits (pos n) v widen h = rw h lay.bigint_lay
  bigint_fits (negsuc n) v true h =
      subst (λ t. Fits (int64_cell vs t v) (vs.internal_type t))
        (sym (scaled_decimal 8 n true (omega arith)))
        (subst (Held v) (sym (lay.decimal_lay 38 (suc n % 256))) refl)
  bigint_fits (negsuc n) v false h =
      subst (λ t. Fits (int64_cell vs t v) (vs.internal_type t))
        (sym (scaled_decimal 8 n false (omega arith)))
        (subst (Held v) (sym (lay.decimal_lay 18 (suc n % 256))) refl)

  -- A text cell in a vector of text or of raw bytes.
  pub text_fits :
      (t : PhysicalType) (col : FirebirdColumnDesc) (mode : NoneEncoding) (s : Bytes)
      → t ≡ PhysicalType.varchar
      → AllFits (text_cell col mode s) t
  unfolding text_cell
  text_fits t col mode s h =
      if-intro (λ o. AllFits o t) (int_eq col.character_set_id (pos 0))
        (λ p.
          if-intro (λ o. AllFits o t) (is_blob_mode mode) (λ q. h)
            (λ q. decoded (transcode_none_charset s mode)))
        (λ p. h)
    where
      decoded :
          (o : Option Bytes) → AllFits (elim o [ none ↦ none | some t' ↦ some (string_cell t') ]) t
      decoded none = tt
      decoded (some t') = h

  pub blob_fits :
      (row : Fetched) (col : FirebirdColumnDesc) (mode : NoneEncoding)
      → AllFits (kind_cell vs row col LogicalType.blob mode of_blob) PhysicalType.varchar
  unfolding kind_cell
  blob_fits row col mode =
      if-intro (λ o. AllFits o PhysicalType.varchar) (int_eq col.sqlsubtype (pos 1))
        (λ p. text_fits PhysicalType.varchar col mode row.read_blob refl) (λ p. refl)

  blob_lays :
      (sub : ℤ)
      → vs.internal_type (if int_eq sub (pos 1) then varchar else LogicalType.blob)
        ≡ PhysicalType.varchar
  blob_lays sub =
      if-intro (λ t. vs.internal_type t ≡ PhysicalType.varchar) (int_eq sub (pos 1))
        (λ p. lay.varchar_lay) (λ p. lay.blob_lay)

  pub kind_fits :
      (row : Fetched) (col : FirebirdColumnDesc) (mode : NoneEncoding) (widen : Bool) (k : SqlKind)
      → HasScale k col.sqlscale
      → AllFits
          (kind_cell vs row col (kind_type k col.sqlsubtype col.sqlscale widen) mode k)
          (vs.internal_type (kind_type k col.sqlsubtype col.sqlscale widen))
  unfolding kind_type kind_cell
  kind_fits row col mode widen of_text h =
      text_fits (vs.internal_type varchar) col mode row.get_text lay.varchar_lay
  kind_fits row col mode widen of_varying h =
      text_fits (vs.internal_type varchar) col mode row.get_text lay.varchar_lay
  kind_fits row col mode widen of_short h = small_fits col.sqlscale h
  kind_fits row col mode widen of_long h = integer_fits col.sqlscale h
  kind_fits row col mode widen of_int64 h = bigint_fits col.sqlscale row.get_int64 widen h
  kind_fits row col mode widen of_int128 h = hugeint_fits col.sqlscale h
  kind_fits row col mode widen of_float h = lay.float_lay
  kind_fits row col mode widen of_d_float h = lay.double_lay
  kind_fits row col mode widen of_double h = lay.double_lay
  kind_fits row col mode widen of_dec16 h = tt
  kind_fits row col mode widen of_dec34 h = tt
  kind_fits row col mode widen of_timestamp h = lay.timestamp_lay
  kind_fits row col mode widen of_timestamp_tz h = lay.timestamp_tz_lay
  kind_fits row col mode widen of_timestamp_tz_ex h = lay.timestamp_tz_lay
  kind_fits row col mode widen of_date h = lay.date_lay
  kind_fits row col mode widen of_time h = lay.time_lay
  kind_fits row col mode widen of_time_tz h = lay.time_tz_lay
  kind_fits row col mode widen of_time_tz_ex h = lay.time_tz_lay
  kind_fits row col mode widen of_boolean h = lay.boolean_lay
  kind_fits row col mode widen of_blob h =
      subst
        (AllFits (
          if int_eq col.sqlsubtype (pos 1)
          then text_cell col mode row.read_blob
          else some (string_cell row.read_blob)))
        (sym (blob_lays col.sqlsubtype)) (blob_fits row col mode)
  kind_fits row col mode widen of_unknown h = tt
