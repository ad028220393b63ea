-- ===== src/Tests/Text.antt =====
-- The theorems on connection strings and on the sources of views, applied.
use duckdb_firebird.Common.{◌≡◌, refl, some, [], ◌∷◌, ◌++◌, Bytes, IsByte, All, codes, arith}
use duckdb_firebird.Connection.{default_info, with_user, with_password, with_database, parse}
use duckdb_firebird.Connection.Parsing.{authority, parse-url}

-- `p@`.
abbrev secret : Bytes
secret = 112 ∷ 64 ∷ []

secret-IsByte : All IsByte secret
secret-IsByte = (omega arith, (omega arith, tt))

parse-url_example :
    parse (
      codes "firebird://"
      ++ (authority secret secret ++ b'@' ∷ ((104 ∷ codes "ost") ++ b'/' ∷ codes "a.fdb")))
    ≡ some (
        with_database
          ((104 ∷ codes "ost") ++ codes ":" ++ b'/' ∷ codes "a.fdb")
          (with_password secret (with_user secret default_info)))
parse-url_example =
    parse-url secret secret 104 (codes "ost") (codes "a.fdb") secret-IsByte secret-IsByte
      ((refl, refl, refl), ((refl, refl, refl), ((refl, refl, refl), ((refl, refl, refl), tt))))
      (refl, (refl, (refl, (refl, (refl, tt)))))
