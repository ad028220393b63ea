-- ===== src/Binding.antt =====
-- `FirebirdScanBind` of src/firebird_scanner.cpp up to its first connection: the connection string,
-- the named parameters, and the rules on paging. What throws is `refused`.
pub mod Paging
pub mod Data
use duckdb_firebird.Common.{
  ℕ, ◌-◌, ◌^◌, Bool, true, false, not, ◌&&◌, ◌||◌, Option, none, some, List, [], ◌∷◌, Bytes, codes,
  is_empty, upper, str_eq, ltb, if◌then◌else◌,
}
use duckdb_firebird.Common.Int.{ℤ, pos, ltb_ℤ}
use duckdb_firebird.Charset.Transcode.{NoneEncoding, win1252}
use duckdb_firebird.Connection.{
  FirebirdConnectionInfo, parse, parse_none_encoding, validate_dummy_packet_interval,
}
use duckdb_firebird.Partition.{nonneg}

-- A named parameter with its value; one that is NULL counts as not supplied, and a key that the code
-- does not name is passed over.
pub data NamedParameter : Type 0 where
  not_supplied unnamed : NamedParameter
  user password charset role : Bytes → NamedParameter
  dialect partitions row_limit row_offset : ℤ → NamedParameter
  none_encoding : Bytes → NamedParameter
  none_pushdown numeric_widen_int64 : Bool → NamedParameter

-- The exceptions of bind and of ATTACH, by what they complain of.
pub data Refusal : Type 0 where
  bad_connection_string unknown_none_encoding bad_packet_interval : Refusal
  foreign_charset negative_partitions row_limit_not_positive negative_row_offset : Refusal
  offset_without_limit paging_with_partitions paging_overflow : Refusal
  negative_pool_size negative_idle_timeout null_value : Refusal

pub data Bound {ℓ} (A : Type ℓ) : Type ℓ where
  bound : A → Bound A
  refused : Refusal → Bound A

infixl 5 ◌>>=◌
abbrev pub ◌>>=◌ {ℓ κ} : {A : Type ℓ} {B : Type κ} → Bound A → (A → Bound B) → Bound B
bound a >>= f = f a
refused e >>= f = refused e

abbrev pub or_refuse {ℓ} : {A : Type ℓ} → Refusal → Option A → Bound A
or_refuse e none = refused e
or_refuse e (some a) = bound a

-- The fields of the bind data that the arguments of the call decide.
pub record ScanOptions : Type 0 where
  pub conn_info : FirebirdConnectionInfo
  pub table_name : Bytes
  pub none_encoding : NoneEncoding
  pub none_pushdown : Bool
  pub numeric_widen_int64 : Bool
  pub partitions_override : ℕ
  pub limit_override : Option ℕ
  pub offset_override : Option ℕ

unfoldable pub is_accepted_charset : Bytes → Bool
is_accepted_charset c =
    let name = upper c in
    str_eq name (codes "UTF8")
    || str_eq name (codes "UTF-8")
    || str_eq name (codes "NONE")
    || str_eq name (codes "OCTETS")

-- One turn of the loop over `named_parameters`; a cast of a number that is not negative keeps it.
unfoldable pub set_parameter : NamedParameter → ScanOptions → Bound ScanOptions
set_parameter not_supplied o = bound o
set_parameter unnamed o = bound o
set_parameter (user s) o = bound (record o { conn_info = record o.conn_info { user = s } })
set_parameter (password s) o = bound (record o { conn_info = record o.conn_info { password = s } })
set_parameter (charset s) o =
    if is_accepted_charset s
    then bound (record o { conn_info = record o.conn_info { charset = s } })
    else refused foreign_charset
set_parameter (role s) o = bound (record o { conn_info = record o.conn_info { role = s } })
set_parameter (dialect n) o = bound (record o { conn_info = record o.conn_info { dialect = n } })
set_parameter (partitions p) o =
    if ltb_ℤ p (pos 0)
    then refused negative_partitions
    else bound (record o { partitions_override = nonneg p })
set_parameter (row_limit l) o =
    if ltb_ℤ (pos 0) l
    then bound (record o { limit_override = some (nonneg l) })
    else refused row_limit_not_positive
set_parameter (row_offset n) o =
    if ltb_ℤ n (pos 0)
    then refused negative_row_offset
    else bound (record o { offset_override = some (nonneg n) })
set_parameter (NamedParameter.none_encoding s) o = do
  mode ← or_refuse unknown_none_encoding (parse_none_encoding s)
  bound (record o { none_encoding = mode })
set_parameter (NamedParameter.none_pushdown b) o = bound (record o { none_pushdown = b })
set_parameter (NamedParameter.numeric_widen_int64 b) o =
    bound (record o { numeric_widen_int64 = b })

unfoldable pub set_parameters : List NamedParameter → ScanOptions → Bound ScanOptions
set_parameters [] o = bound o
set_parameters (p ∷ ps) o = do o' ← set_parameter p o; set_parameters ps o'

-- The setting `firebird_dummy_packet_interval`, where there is one.
unfoldable pub set_keepalive : Option ℤ → ScanOptions → Bound ScanOptions
set_keepalive none o = bound o
set_keepalive (some secs) o =
    if validate_dummy_packet_interval secs
    then bound (record o { conn_info = record o.conn_info { dummy_packet_interval_secs = secs } })
    else refused bad_packet_interval

abbrev pub is_valid : Option ℕ → Bool
is_valid none = false
is_valid (some n) = true

abbrev pub is_paging : ScanOptions → Bool
is_paging o = is_valid o.limit_override || is_valid o.offset_override

-- `off > max - lim`.
abbrev pub sum_overflows : Option ℕ → Option ℕ → Bool
sum_overflows (some lim) (some off) = ltb (2 ^ 64 - 1 - lim) off
sum_overflows _ _ = false

unfoldable pub check_paging : ScanOptions → Bound ScanOptions
check_paging o =
    if is_valid o.offset_override && not (is_valid o.limit_override)
    then refused offset_without_limit
    else if is_paging o && ltb 1 o.partitions_override
    then refused paging_with_partitions
    else if sum_overflows o.limit_override o.offset_override
    then refused paging_overflow
    else bound (if is_paging o then record o { partitions_override = 1 } else o)

-- The options that the connection string gives, before the named parameters.
abbrev pub initial_options : Bytes → FirebirdConnectionInfo → NoneEncoding → ScanOptions
initial_options table info mode = record {
  conn_info = info;
  table_name = table;
  none_encoding = mode;
  none_pushdown = info.none_pushdown;
  numeric_widen_int64 = false;
  partitions_override = 0;
  limit_override = none;
  offset_override = none;
}

unfoldable pub seeded_mode : Bytes → Bound NoneEncoding
seeded_mode s =
    if is_empty s then bound win1252 else or_refuse unknown_none_encoding (parse_none_encoding s)

unfoldable pub seeded : Bytes → Bytes → Bound ScanOptions
seeded conn_str table = do
  info ← or_refuse bad_connection_string (parse conn_str)
  mode ← seeded_mode info.none_encoding
  bound (initial_options table info mode)

unfoldable pub scan_options : Bytes → Bytes → List NamedParameter → Option ℤ → Bound ScanOptions
scan_options conn_str table ps keepalive = do
  o ← seeded conn_str table
  o' ← set_parameters ps o
  o'' ← set_keepalive keepalive o'
  check_paging o''
