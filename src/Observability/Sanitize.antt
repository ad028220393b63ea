-- ===== src/Observability/Sanitize.antt =====
-- `SanitizeErrorMessage` of src/firebird_observability.cpp: the two regular expressions, each with
-- the only match that it has at a place, and `regex_replace` as a walk over the text.
use duckdb_firebird.Common.{
  ℕ, zero, suc, ◌+◌, Bool, ◌||◌, ◌&&◌, not, Option, none, some, [], ◌∷◌, ◌++◌, Bytes, codes, take,
  drop, leb, ◌==◌, if◌then◌else◌, starts_with, lower,
}

-- `\s` in the "C" locale.
unfoldable pub is_space : ℕ → Bool
is_space c = (c == 32) || (leb 9 c && leb c 13)

-- The length of the longest run of bytes that pass the test.
unfoldable pub run : (ℕ → Bool) → Bytes → ℕ
run p [] = 0
run p (c ∷ s) = let rest = run p s in if p c then suc rest else 0

-- `[^\s;'"]`.
abbrev pub is_secret : ℕ → Bool
is_secret c = not (is_space c || (c == b';') || (c == b'\'') || (c == b'"'))

-- `(password\s*=\s*)[^\s;'"]*`, whatever the case: the lengths of the group and of the match.
unfoldable pub password_at : Bytes → Option (ℕ × ℕ)
password_at s =
    if starts_with (codes "password") (lower s)
    then (let blanks = run is_space (drop 8 s) in
        if starts_with (codes "=") (drop (8 + blanks) s)
        then (let group = 9 + blanks + run is_space (drop (9 + blanks) s) in
            some (group, group + run is_secret (drop group s)))
        else none)
    else none

-- `[^/@\s:]` and `[^/@\s]`.
abbrev pub is_login : ℕ → Bool
is_login c = not ((c == b'/') || (c == b'@') || is_space c)

abbrev pub is_user : ℕ → Bool
is_user c = is_login c && not (c == b':')

-- `(://)[^/@\s:]+:[^/@\s]+(@)`: the lengths of the first group and of the match but its `@`.
unfoldable pub login_at : Bytes → Option (ℕ × ℕ)
login_at s =
    if starts_with (codes "://") s
    then (let user = run is_user (drop 3 s) in
        let secret = run is_login (drop (4 + user) s) in
        if not (user == 0)
          && starts_with (codes ":") (drop (3 + user) s)
          && not (secret == 0)
          && starts_with (codes "@") (drop (4 + user + secret) s)
        then some (3, 4 + user + secret)
        else none)
    else none

-- `regex_replace`: `skip` bytes of a match are still to be passed over.
unfoldable pub replace_from : (Bytes → Option (ℕ × ℕ)) → ℕ → Bytes → Bytes
replace_from at skip [] = []
replace_from at (suc skip) (c ∷ s) = replace_from at skip s
replace_from at zero (c ∷ s) = elim (at (c ∷ s)) [
  | none ↦ c ∷ replace_from at zero s
  | some (group, zero) ↦ c ∷ replace_from at zero s
  | some (group, suc skip) ↦ take group (c ∷ s) ++ codes "<redacted>" ++ replace_from at skip s
]

unfoldable pub sanitize_error_message : Bytes → Bytes
sanitize_error_message msg = replace_from login_at zero (replace_from password_at zero msg)
