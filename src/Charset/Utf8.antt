-- ===== src/Charset/Utf8.antt =====
-- UTF-8 as RFC 3629 defines it, with no reference to the code: the scalar values, the bytes of
-- one, and the byte strings that are texts.
use duckdb_firebird.Common.{
  ℕ, ◌+◌, ◌/◌, ◌%◌, ◌≤◌, ◌<◌, ◌≡◌, ◌⊎◌, List, [], ◌∷◌, ◌++◌, Bytes, IsByte, All, length, refl, ltb,
  if◌then◌else◌, arith,
}

-- Surrogates and what lies past 0x10FFFF are no characters.
abbrev pub IsScalar : ℕ → Type 0
IsScalar cp = (cp < 0xD800) ⊎ ((0xE000 ≤ cp) × (cp ≤ 0x10FFFF))

unfoldable pub encode : ℕ → Bytes
encode cp =
    if ltb cp 0x80
    then cp ∷ []
    else if ltb cp 0x800
    then (0xC0 + cp / 64) ∷ (0x80 + cp % 64) ∷ []
    else if ltb cp 0x10000
    then (0xE0 + cp / 4096) ∷ (0x80 + cp / 64 % 64) ∷ (0x80 + cp % 64) ∷ []
    else (0xF0 + cp / 262144)
      ∷ (0x80 + cp / 4096 % 64)
      ∷ (0x80 + cp / 64 % 64)
      ∷ (0x80 + cp % 64)
      ∷ []

-- The text of a list of characters.
abbrev pub encode_all : List ℕ → Bytes
encode_all [] = []
encode_all (cp ∷ cps) = encode cp ++ encode_all cps

-- A byte string is UTF-8 if it is the text of some scalar values.
abbrev pub IsUtf8 : Bytes → Type 0
IsUtf8 s = (cps : List ℕ) × All IsScalar cps × (s ≡ encode_all cps)

pub encode-IsByte : (cp : ℕ) → IsScalar cp → All IsByte (encode cp)
unfolding encode
encode-IsByte cp h = ground arith

pub encode-length : (cp : ℕ) → 0 < length (encode cp)
unfolding encode
encode-length cp = ground arith

cons_of_length : (s : Bytes) → 0 < length s → (c : ℕ) × (t : Bytes) × (s ≡ c ∷ t)
cons_of_length [] h = absurd (omega arith)
cons_of_length (c ∷ t) h = (c, t, refl)

pub encode-cons : (cp : ℕ) → (c : ℕ) × (t : Bytes) × (encode cp ≡ c ∷ t)
encode-cons cp = cons_of_length (encode cp) (encode-length cp)

-- A character in front of a text.
pub IsUtf8-cons : (cp : ℕ) {rest : Bytes} → IsScalar cp → IsUtf8 rest → IsUtf8 (encode cp ++ rest)
IsUtf8-cons cp h (cps, ok, e) = (cp ∷ cps, (h, ok), rw e)
