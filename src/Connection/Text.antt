-- ===== src/Connection/Text.antt =====
-- The text functions of src/firebird_client.cpp: `UrlDecode`, `ParseConnStringBool`, and the calls of
-- `find`, `rfind`, `getline` and `atoi` in `FirebirdConnectionInfo::Parse`.
use duckdb_firebird.Common.{
  ℕ, zero, suc, ◌+◌, ◌-◌, ◌*◌, ◌%◌, Bool, true, false, ◌&&◌, ◌||◌, Option, none, some, List, [],
  ◌∷◌, Bytes, codes, leb, ◌==◌, str_eq, lower, if◌then◌else◌,
}
use duckdb_firebird.Common.Int.{ℤ, pos, negsuc}
use duckdb_firebird.Observability.Sanitize.{is_space}

-- The value of a hexadecimal digit.
unfoldable pub hex_value : ℕ → Option ℕ
hex_value c =
    if leb 48 c && leb c 57
    then some (c - 48)
    else if leb 65 c && leb c 70
    then some (c - 55)
    else if leb 97 c && leb c 102
    then some (c - 87)
    else none

-- `static_cast<char>(strtol(…, 16))` of two bytes: a blank or a sign may stand first.
unfoldable pub hex_byte : ℕ → ℕ → ℕ
hex_byte a b = elim (hex_value a) [
  | some h ↦ elim (hex_value b) [ some l ↦ 16 * h + l | none ↦ h ]
  | none ↦ elim (hex_value b) [
    | some l ↦ if is_space a || (a == b'+') then l else if a == b'-' then (256 - l) % 256 else 0
    | none ↦ 0
  ]
]

-- The loop; `skip` digits of an escape are still to be passed over.
unfoldable pub decoded_from : ℕ → Bytes → Bytes
decoded_from skip [] = []
decoded_from (suc skip) (c ∷ s) = decoded_from skip s
decoded_from zero (c ∷ []) = (if c == b'+' then 32 else c) ∷ []
decoded_from zero (c ∷ a ∷ []) = (if c == b'+' then 32 else c) ∷ decoded_from zero (a ∷ [])
decoded_from zero (c ∷ a ∷ b ∷ s) = elim (c == b'%') [
  | true ↦ hex_byte a b ∷ decoded_from 2 (a ∷ b ∷ s)
  | false ↦ (if c == b'+' then 32 else c) ∷ decoded_from zero (a ∷ b ∷ s)
]

unfoldable pub url_decode : Bytes → Bytes
url_decode s = decoded_from zero s

unfoldable pub parse_conn_string_bool : Bytes → Option Bool
parse_conn_string_bool val =
    if str_eq (lower val) (codes "true") || str_eq (lower val) (codes "1")
    then some true
    else if str_eq (lower val) (codes "false") || str_eq (lower val) (codes "0")
    then some false
    else none

-- The text before the first such byte, and the text behind it.
unfoldable pub cut_at : ℕ → Bytes → Option (Bytes × Bytes)
cut_at q [] = none
cut_at q (c ∷ s) = elim (c == q) [
  | true ↦ some ([], s)
  | false ↦ elim (cut_at q s) [ none ↦ none | some (a, b) ↦ some (c ∷ a, b) ]
]

-- The same at the last such byte.
unfoldable pub cut_at_last : ℕ → Bytes → Option (Bytes × Bytes)
cut_at_last q [] = none
cut_at_last q (c ∷ s) = elim (cut_at_last q s) [
  | some (a, b) ↦ some (c ∷ a, b)
  | none ↦ if c == q then some ([], s) else none
]

abbrev pub onto_first : ℕ → List Bytes → List Bytes
onto_first c [] = (c ∷ []) ∷ []
onto_first c (p ∷ ps) = (c ∷ p) ∷ ps

-- The pieces that `getline` reads; the last one may be empty here, and is passed over then, having
-- no `=`.
unfoldable pub pieces : ℕ → Bytes → List Bytes
pieces sep [] = [] ∷ []
pieces sep (c ∷ s) = let rest = pieces sep s in if c == sep then [] ∷ rest else onto_first c rest

-- `atoi`, on numbers that an int holds.
unfoldable pub digits_onto : ℕ → Bytes → ℕ
digits_onto n [] = n
digits_onto n (c ∷ s) = elim (leb 48 c && leb c 57) [
  | true ↦ digits_onto (10 * n + (c - 48)) s
  | false ↦ n
]

abbrev pub negated : ℕ → ℤ
negated zero = pos 0
negated (suc n) = negsuc n

unfoldable pub atoi : Bytes → ℤ
atoi [] = pos 0
atoi (c ∷ s) = elim (is_space c) [
  | true ↦ atoi s
  | false ↦
      if c == b'-'
      then negated (digits_onto 0 s)
      else if c == b'+'
      then pos (digits_onto 0 s)
      else pos (digits_onto 0 (c ∷ s))
]
