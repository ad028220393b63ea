-- ===== src/Complex/Exact.antt =====
-- The rows that a pushed `=` or IN of src/firebird_scanner.cpp selects on CHARACTER SET NONE bytes,
-- and the texts that `GetText` of src/firebird_client.cpp fetches of them. How the server compares
-- texts is a parameter.
use duckdb_firebird.Common.{
  ◌≡◌, ◌↔◌, if◌then◌else◌, ◌⊎◌, some, List, [], ◌∷◌, Bytes, is_empty, ◌&&◌, ◌==◌,
}
use duckdb_firebird.Charset.Transcode.{NoneEncoding, transcode_none_charset}
use duckdb_firebird.Firebird.{FirebirdColumnDesc, sql_text, sql_varying}

-- A member of the list has the property.
abbrev pub AnyOf : {A : Type 0} → (A → Type 0) → List A → Type 0
AnyOf P [] = ⊥
AnyOf P (x ∷ xs) = P x ⊎ AnyOf P xs

-- The stored bytes are one of the literals.
abbrev pub IsStoredAs : Bytes → List Bytes → Type 0
IsStoredAs raw encoded = AnyOf (λ bytes. raw ≡ bytes) encoded

-- The text that DuckDB sees for the stored bytes is one of the literals.
abbrev pub IsSeenAs : NoneEncoding → Bytes → List Bytes → Type 0
IsSeenAs mode raw literals = AnyOf (λ text. transcode_none_charset raw mode ≡ some text) literals

unfoldable pub trim_spaces : Bytes → Bytes
trim_spaces [] = []
trim_spaces (c ∷ s) =
    let rest = trim_spaces s in if is_empty rest && (c == b' ') then [] else c ∷ rest

-- `GetText`, of the bytes in the buffer: those behind the length prefix of a VARCHAR, or all of a
-- CHAR.
unfoldable pub get_text : FirebirdColumnDesc → Bytes → Bytes
get_text desc raw =
    if desc.sqltype == sql_varying
    then raw
    else if desc.sqltype == sql_text
    then trim_spaces raw
    else []

-- The documented comparison of Firebird: trailing spaces do not count.
abbrev pub IsPadSpace : (Bytes → Bytes → Type 0) → Type 0
IsPadSpace selects = (a b : Bytes) → selects a b ↔ (trim_spaces a ≡ trim_spaces b)
