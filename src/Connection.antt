-- ===== src/Connection.antt =====
-- The connection strings of src/firebird_client.cpp: `UrlDecode`, `ParseConnStringBool`,
-- `FirebirdConnectionInfo::Parse`, and the validators behind it. What throws is none.
pub mod Text
pub mod Url
pub mod Parsing
use duckdb_firebird.Common.{
  ℕ, zero, suc, ◌+◌, ◌-◌, ◌*◌, ◌%◌, Bool, true, false, not, ◌&&◌, ◌||◌, Option, none, some, List,
  [], ◌∷◌, ◌++◌, map, Bytes, codes, length, drop, ltb, leb, ◌==◌, str_eq, is_empty, lower, upper,
  starts_with, if◌then◌else◌,
}
use duckdb_firebird.Common.Int.{ℤ, pos, negsuc, ltb_ℤ}
use duckdb_firebird.Charset.Transcode.{NoneEncoding, strict, win1252, iso_8859_1, blob}
use duckdb_firebird.Observability.Sanitize.{is_space}
use duckdb_firebird.Connection.Text.{
  url_decode, parse_conn_string_bool, cut_at, cut_at_last, pieces, atoi,
}

pub record FirebirdConnectionInfo : Type 0 where
  pub database : Bytes
  pub user : Bytes
  pub password : Bytes
  pub role : Bytes
  pub charset : Bytes
  pub dialect : ℤ
  pub dummy_packet_interval_secs : ℤ
  pub none_encoding : Bytes
  pub none_pushdown : Bool

abbrev pub default_info : FirebirdConnectionInfo
default_info = record {
  database = [];
  user = codes "SYSDBA";
  password = codes "masterkey";
  role = [];
  charset = codes "UTF8";
  dialect = pos 3;
  dummy_packet_interval_secs = pos 0;
  none_encoding = [];
  none_pushdown = false;
}

abbrev pub with_database : Bytes → FirebirdConnectionInfo → FirebirdConnectionInfo
with_database value i = record {
  database = value;
  user = i.user;
  password = i.password;
  role = i.role;
  charset = i.charset;
  dialect = i.dialect;
  dummy_packet_interval_secs = i.dummy_packet_interval_secs;
  none_encoding = i.none_encoding;
  none_pushdown = i.none_pushdown;
}

abbrev pub with_user : Bytes → FirebirdConnectionInfo → FirebirdConnectionInfo
with_user value i = record {
  database = i.database;
  user = value;
  password = i.password;
  role = i.role;
  charset = i.charset;
  dialect = i.dialect;
  dummy_packet_interval_secs = i.dummy_packet_interval_secs;
  none_encoding = i.none_encoding;
  none_pushdown = i.none_pushdown;
}

abbrev pub with_password : Bytes → FirebirdConnectionInfo → FirebirdConnectionInfo
with_password value i = record {
  database = i.database;
  user = i.user;
  password = value;
  role = i.role;
  charset = i.charset;
  dialect = i.dialect;
  dummy_packet_interval_secs = i.dummy_packet_interval_secs;
  none_encoding = i.none_encoding;
  none_pushdown = i.none_pushdown;
}

abbrev pub with_role : Bytes → FirebirdConnectionInfo → FirebirdConnectionInfo
with_role value i = record {
  database = i.database;
  user = i.user;
  password = i.password;
  role = value;
  charset = i.charset;
  dialect = i.dialect;
  dummy_packet_interval_secs = i.dummy_packet_interval_secs;
  none_encoding = i.none_encoding;
  none_pushdown = i.none_pushdown;
}

abbrev pub with_charset : Bytes → FirebirdConnectionInfo → FirebirdConnectionInfo
with_charset value i = record {
  database = i.database;
  user = i.user;
  password = i.password;
  role = i.role;
  charset = value;
  dialect = i.dialect;
  dummy_packet_interval_secs = i.dummy_packet_interval_secs;
  none_encoding = i.none_encoding;
  none_pushdown = i.none_pushdown;
}

abbrev pub with_dialect : ℤ → FirebirdConnectionInfo → FirebirdConnectionInfo
with_dialect value i = record {
  database = i.database;
  user = i.user;
  password = i.password;
  role = i.role;
  charset = i.charset;
  dialect = value;
  dummy_packet_interval_secs = i.dummy_packet_interval_secs;
  none_encoding = i.none_encoding;
  none_pushdown = i.none_pushdown;
}

abbrev pub with_none_encoding : Bytes → FirebirdConnectionInfo → FirebirdConnectionInfo
with_none_encoding value i = record {
  database = i.database;
  user = i.user;
  password = i.password;
  role = i.role;
  charset = i.charset;
  dialect = i.dialect;
  dummy_packet_interval_secs = i.dummy_packet_interval_secs;
  none_encoding = value;
  none_pushdown = i.none_pushdown;
}

abbrev pub with_none_pushdown : Bool → FirebirdConnectionInfo → FirebirdConnectionInfo
with_none_pushdown value i = record {
  database = i.database;
  user = i.user;
  password = i.password;
  role = i.role;
  charset = i.charset;
  dialect = i.dialect;
  dummy_packet_interval_secs = i.dummy_packet_interval_secs;
  none_encoding = i.none_encoding;
  none_pushdown = value;
}

-- The chain over the keys, but `database`; a key that none of them is leaves the info as it is.
unfoldable pub set_option : Bytes → Bytes → FirebirdConnectionInfo → Option FirebirdConnectionInfo
set_option key val i =
    if str_eq key (codes "charset")
    then some (with_charset val i)
    else if str_eq key (codes "role")
    then some (with_role val i)
    else if str_eq key (codes "dialect")
    then some (with_dialect (atoi val) i)
    else if str_eq key (codes "user")
    then some (with_user val i)
    else if str_eq key (codes "password")
    then some (with_password val i)
    else if str_eq key (codes "none_encoding")
    then some (with_none_encoding val i)
    else if str_eq key (codes "none_pushdown")
    then elim (parse_conn_string_bool val) [ none ↦ none | some b ↦ some (with_none_pushdown b i) ]
    else some i

-- The loop over the options of a URL.
unfoldable pub url_options : List Bytes → FirebirdConnectionInfo → Option FirebirdConnectionInfo
url_options [] i = some i
url_options (kv ∷ kvs) i = elim (cut_at b'=' kv) [
  | none ↦ url_options kvs i
  | some (key, val) ↦ elim (set_option key (url_decode val) i) [
    | none ↦ none
    | some i' ↦ url_options kvs i'
  ]
]

abbrev pub is_blank : ℕ → Bool
is_blank c = (c == 32) || (c == 9)

unfoldable pub trim_front : Bytes → Bytes
trim_front [] = []
trim_front (c ∷ s) = let rest = trim_front s in if is_blank c then rest else c ∷ s

unfoldable pub trim_back : Bytes → Bytes
trim_back [] = []
trim_back (c ∷ s) = let rest = trim_back s in if is_blank c && is_empty rest then [] else c ∷ rest

unfoldable pub key_options : List Bytes → FirebirdConnectionInfo → Option FirebirdConnectionInfo
key_options [] i = some i
key_options (kv ∷ kvs) i = elim (cut_at b'=' kv) [
  | none ↦ key_options kvs i
  | some (key, val) ↦ elim (str_eq (trim_front key) (codes "database")) [
    | true ↦ key_options kvs (with_database (trim_back val) i)
    | false ↦ elim (set_option (trim_front key) (trim_back val) i) [
      | none ↦ none
      | some i' ↦ key_options kvs i'
    ]
  ]
]

-- The user information of a URL.
unfoldable pub with_userinfo : Bytes → FirebirdConnectionInfo → FirebirdConnectionInfo
with_userinfo userinfo i = if is_empty userinfo then i else elim (cut_at b':' userinfo) [
  | some (u, p) ↦ with_password (url_decode p) (with_user (url_decode u) i)
  | none ↦ with_user (url_decode userinfo) i
]

-- The host with its port behind a slash, as libfbclient has it; not for an IPv6 address.
unfoldable pub host_and_port : Bytes → Bytes
host_and_port host = elim (cut_at_last b':' host) [
  | none ↦ host
  | some (h, port) ↦ elim (cut_at b']' host) [ none ↦ h ++ codes "/" ++ port | some bracket ↦ host ]
]

-- The database of `host[:port]/path`.
unfoldable pub url_database : Bytes → Bytes
url_database rest = elim (cut_at b'/' rest) [
  | none ↦ if is_empty rest then [] else host_and_port rest ++ codes ":"
  | some (host, path) ↦
      if is_empty host then b'/' ∷ path else host_and_port host ++ codes ":" ++ b'/' ∷ path
]

-- The text before a separator and behind it, where there may be none.
abbrev pub before_and_after : ℕ → Bytes → Bytes × Bytes
before_and_after q s = elim (cut_at q s) [ none ↦ (s, []) | some (a, b) ↦ (a, b) ]

-- The user information of the text in front of the options, and what is behind its `@`.
abbrev pub userinfo_and_rest : Bytes → Bytes × Bytes
userinfo_and_rest s = elim (cut_at b'@' s) [ none ↦ ([], s) | some (a, b) ↦ (a, b) ]

unfoldable pub parse_url : Bytes → Option FirebirdConnectionInfo
parse_url rest =
    let q = before_and_after b'?' rest in
    let u = userinfo_and_rest q.0 in
    url_options (pieces b'&' q.1)
      (with_database (url_database u.1) (with_userinfo u.0 default_info))

abbrev pub has : ℕ → Bytes → Bool
has q s = elim (cut_at q s) [ none ↦ false | some parts ↦ true ]

unfoldable pub parse : Bytes → Option FirebirdConnectionInfo
parse conn_str =
    if starts_with (codes "firebird://") conn_str
    then parse_url (drop 11 conn_str)
    else if has b'=' conn_str && has b';' conn_str
    then key_options (pieces b';' conn_str) default_info
    else some (with_database conn_str default_info)

-- `ValidateClientCharset`: whether it returns.
unfoldable pub validate_client_charset : Bytes → Bool
validate_client_charset charset =
    str_eq (upper charset) (codes "UTF8")
    || str_eq (upper charset) (codes "UTF-8")
    || str_eq (upper charset) (codes "NONE")
    || str_eq (upper charset) (codes "OCTETS")

-- The name without `-` and `_`, in upper case.
unfoldable pub canonical : Bytes → Bytes
canonical [] = []
canonical (c ∷ s) =
    let rest = canonical s in if (c == b'-') || (c == b'_') then rest else upper (c ∷ []) ++ rest

unfoldable pub parse_none_encoding : Bytes → Option NoneEncoding
parse_none_encoding s =
    let name = canonical s in
    if str_eq name (codes "STRICT")
      || str_eq name (codes "UTF8")
      || str_eq name (codes "UTF8STRICT")
    then some strict
    else if str_eq name (codes "WIN1252")
        || str_eq name (codes "WINDOWS1252")
        || str_eq name (codes "CP1252")
    then some win1252
    else if str_eq name (codes "ISO88591") || str_eq name (codes "LATIN1")
    then some iso_8859_1
    else if str_eq name (codes "BLOB") || str_eq name (codes "OCTETS")
    then some blob
    else none

-- `ValidateDummyPacketInterval`: whether it returns.
unfoldable pub validate_dummy_packet_interval : ℤ → Bool
validate_dummy_packet_interval seconds =
    not (ltb_ℤ seconds (pos 0)) && not (ltb_ℤ (pos 2147483647) seconds)
