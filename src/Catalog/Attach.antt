-- ===== src/Catalog/Attach.antt =====
-- `FirebirdAttach` of src/firebird_storage.cpp: the options of ATTACH, the settings of the session, and
-- the row of `firebird_pool_stats`. What throws is `refused`.
use duckdb_firebird.Common.{
  ℕ, Bool, true, false, Option, none, some, List, [], ◌∷◌, Bytes, codes, length, is_empty,
  if◌then◌else◌,
}
use duckdb_firebird.Common.Int.{ℤ, pos, ltb_ℤ}
use duckdb_firebird.Charset.Transcode.{NoneEncoding}
use duckdb_firebird.Connection.{
  FirebirdConnectionInfo, parse, parse_none_encoding, validate_dummy_packet_interval,
}
use duckdb_firebird.Pool.{FirebirdConnectionPoolConfig, FirebirdConnectionPool}
use duckdb_firebird.Binding.{
  Bound, bound, refused, bad_connection_string, unknown_none_encoding, bad_packet_interval,
  negative_pool_size, negative_idle_timeout, null_value, ◌>>=◌, or_refuse, seeded_mode,
}

-- The options that the code names, by what it reads of the value: a text, a number, or a Boolean.
pub data TextKey : Type 0 where
  user_key password_key charset_key role_key none_encoding_key : TextKey

-- An option with its value, which is NULL in the next two; a key that the code does not name is
-- passed over.
pub data AttachOption : Type 0 where
  unrecognised : AttachOption
  null_text : TextKey → AttachOption
  null_number_or_flag : AttachOption
  user password charset role : Bytes → AttachOption
  dialect : ℤ → AttachOption
  none_encoding : Bytes → AttachOption
  none_pushdown numeric_widen_int64 : Bool → AttachOption

-- The connection and the three settings that go with it.
pub record Attached : Type 0 where
  pub conn : FirebirdConnectionInfo
  pub out_none : NoneEncoding
  pub out_none_pushdown : Bool
  pub out_numeric_widen : Bool

-- `ToString` of a NULL.
abbrev null_string : Bytes
null_string = codes "NULL"

-- A NULL that is read as a text is the text NULL.
unfoldable pub set_null_text : TextKey → Attached → Bound Attached
set_null_text user_key a = bound (record a { conn = record a.conn { user = null_string } })
set_null_text password_key a = bound (record a { conn = record a.conn { password = null_string } })
set_null_text charset_key a = bound (record a { conn = record a.conn { charset = null_string } })
set_null_text role_key a = bound (record a { conn = record a.conn { role = null_string } })
set_null_text none_encoding_key a = do
  mode ← or_refuse unknown_none_encoding (parse_none_encoding null_string)
  bound (record a { out_none = mode })

-- One turn of the loop over the options; `GetValue` of a NULL throws.
unfoldable pub set_option : AttachOption → Attached → Bound Attached
set_option unrecognised a = bound a
set_option (null_text key) a = set_null_text key a
set_option null_number_or_flag a = refused null_value
set_option (user s) a = bound (record a { conn = record a.conn { user = s } })
set_option (password s) a = bound (record a { conn = record a.conn { password = s } })
set_option (charset s) a = bound (record a { conn = record a.conn { charset = s } })
set_option (role s) a = bound (record a { conn = record a.conn { role = s } })
set_option (dialect n) a = bound (record a { conn = record a.conn { dialect = n } })
set_option (AttachOption.none_encoding s) a = do
  mode ← or_refuse unknown_none_encoding (parse_none_encoding s)
  bound (record a { out_none = mode })
set_option (AttachOption.none_pushdown b) a = bound (record a { out_none_pushdown = b })
set_option (AttachOption.numeric_widen_int64 b) a = bound (record a { out_numeric_widen = b })

unfoldable pub set_options : List AttachOption → Attached → Bound Attached
set_options [] a = bound a
set_options (o ∷ os) a = do a' ← set_option o a; set_options os a'

abbrev pub initial_attached : FirebirdConnectionInfo → NoneEncoding → Attached
initial_attached info mode = record {
  conn = info;
  out_none = mode;
  out_none_pushdown = info.none_pushdown;
  out_numeric_widen = false;
}

unfoldable pub build_connection_info : Bytes → List AttachOption → Bound Attached
build_connection_info path options = do
  info ← or_refuse bad_connection_string (parse path)
  mode ← seeded_mode info.none_encoding
  set_options options (initial_attached info mode)

-- A setting of the session: missing, NULL, or with a value.
pub data Setting (A : Type 0) : Type 0 where
  missing null : Setting A
  value : A → Setting A

-- `ReadPoolInt64Setting` and `ReadPoolBoolSetting`.
unfoldable pub read_pool_setting : {A : Type 0} → Setting A → A → A
read_pool_setting missing default_value = default_value
read_pool_setting null default_value = default_value
read_pool_setting (value v) default_value = v

pub record Session : Type 0 where
  pub pool_enabled : Setting Bool
  pub pool_max_size : Setting ℤ
  pub pool_idle_timeout_ms : Setting ℤ
  pub dummy_packet_interval : Setting ℤ

unfoldable pub build_pool_config : Session → Bound FirebirdConnectionPoolConfig
build_pool_config s =
    let config : FirebirdConnectionPoolConfig = record {
      enabled = read_pool_setting s.pool_enabled true;
      max_size = read_pool_setting s.pool_max_size (pos 0);
      idle_timeout_ms = read_pool_setting s.pool_idle_timeout_ms (pos 0);
    } in
    if ltb_ℤ config.max_size (pos 0)
    then refused negative_pool_size
    else if ltb_ℤ config.idle_timeout_ms (pos 0)
    then refused negative_idle_timeout
    else bound config

unfoldable pub set_interval : ℤ → Attached → Bound Attached
set_interval secs a =
    if validate_dummy_packet_interval secs
    then bound (record a { conn = record a.conn { dummy_packet_interval_secs = secs } })
    else refused bad_packet_interval

-- `FirebirdAttach`: what the catalog is made of.
unfoldable pub firebird_attach :
    Bytes → List AttachOption → Session → Bound (Attached × FirebirdConnectionPoolConfig)
firebird_attach path options s = do
  a ← build_connection_info path options
  a' ← set_interval (read_pool_setting s.dummy_packet_interval (pos 0)) a
  config ← build_pool_config s
  bound (a', config)

-- The row of `firebird_pool_stats`; the last error is none for NULL.
pub record FirebirdPoolStatsRow : Type 0 where
  pub catalog_name : Bytes
  pub pool_enabled : Bool
  pub max_idle_size : ℤ
  pub idle_timeout_ms : ℤ
  pub idle_connections : ℕ
  pub total_created : ℕ
  pub total_reused : ℕ
  pub total_discarded : ℕ
  pub active_connections : ℤ
  pub last_error : Option Bytes
  pub bytes_read_estimate : ℤ

abbrev pub or_null : Bytes → Option Bytes
or_null s = if is_empty s then none else some s

-- `ReadFirebirdPoolStats`; the counter of bytes is kept apart from the pool's state.
unfoldable pub read_firebird_pool_stats :
    Bytes → FirebirdConnectionPoolConfig → FirebirdConnectionPool → ℤ → FirebirdPoolStatsRow
read_firebird_pool_stats name config p bytes_read = record {
  catalog_name = name;
  pool_enabled = config.enabled;
  max_idle_size = config.max_size;
  idle_timeout_ms = config.idle_timeout_ms;
  idle_connections = length p.idle;
  total_created = p.total_created;
  total_reused = p.total_reused;
  total_discarded = p.total_discarded;
  active_connections = p.active;
  last_error = or_null p.last_error;
  bytes_read_estimate = bytes_read;
}

-- `PoolStatsFunction`: the row, once; with `emitted` after the call.
unfoldable pub pool_stats_function :
    Bytes
    → FirebirdConnectionPoolConfig
    → FirebirdConnectionPool
    → ℤ
    → Bool
    → List FirebirdPoolStatsRow × Bool
pool_stats_function name config p bytes_read true = ([], true)
pool_stats_function name config p bytes_read false =
    (read_firebird_pool_stats name config p bytes_read ∷ [], true)
