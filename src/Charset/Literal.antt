-- ===== src/Charset/Literal.antt =====
-- `DecodeUtf8Codepoint` and `TryEncodeNoneLiteral` of src/firebird_scanner.cpp, on the bytes from
-- `pos` on.
pub mod Decoding
pub mod Table
pub mod RoundTrip
use duckdb_firebird.Common.{
  ℕ, zero, suc, ◌+◌, ◌-◌, ◌*◌, Bool, true, false, not, ◌&&◌, ◌||◌, Option, none, some, List, [],
  ◌∷◌, ◌++◌, Bytes, length, drop, ltb, leb, ◌==◌, if◌then◌else◌, ◌>>=◌,
}
use duckdb_firebird.Charset.Transcode.{NoneEncoding, iso_8859_1}
use Prim.Native.Nat.{bit_and, bit_or}

-- `len` and the first part of `cp`, of a lead byte that is not ASCII.
unfoldable pub lead_length : ℕ → Option (ℕ × ℕ)
lead_length lead =
    if bit_and lead 0xE0 == 0xC0
    then some (2, bit_and lead 0x1F)
    else if bit_and lead 0xF0 == 0xE0
    then some (3, bit_and lead 0x0F)
    else if bit_and lead 0xF8 == 0xF0
    then some (4, bit_and lead 0x07)
    else none

-- The loop over the bytes at `pos + 1 .. pos + len - 1`.
unfoldable pub more_bytes : ℕ → ℕ → Bytes → Option ℕ
more_bytes zero cp s = some cp
more_bytes (suc k) cp [] = none
more_bytes (suc k) cp (b ∷ s) =
    if bit_and b 0xC0 == 0x80 then more_bytes k (bit_or (cp * 64) (bit_and b 0x3F)) s else none

-- `kMinCp`.
abbrev pub min_codepoint : ℕ → ℕ
min_codepoint len = if len == 2 then 0x80 else if len == 3 then 0x800 else 0x10000

unfoldable pub in_range : ℕ → ℕ → Option (ℕ × ℕ)
in_range len cp =
    if ltb cp (min_codepoint len) || ltb 0x10FFFF cp
    then none
    else if leb 0xD800 cp && leb cp 0xDFFF
    then none
    else some (cp, len)

-- The code point and the bytes that it takes, or `none` where the code returns false.
unfoldable pub decode_utf8_codepoint : Bytes → Option (ℕ × ℕ)
decode_utf8_codepoint [] = none
decode_utf8_codepoint (lead ∷ s) =
    if ltb lead 0x80 then some (lead, 1) else elim (lead_length lead) [
      | none ↦ none
      | some (len, start) ↦
          if ltb (length (lead ∷ s)) len
          then none
          else elim (more_bytes (len - 1) start s) [ none ↦ none | some cp ↦ in_range len cp ]
    ]

-- `kWin1252Special`: a byte of the range 0x80 .. 0x9F with its code point.
abbrev pub win1252_special : List (ℕ × ℕ)
win1252_special =
    (0x80, 0x20AC)
    ∷ (0x82, 0x201A)
    ∷ (0x83, 0x0192)
    ∷ (0x84, 0x201E)
    ∷ (0x85, 0x2026)
    ∷ (0x86, 0x2020)
    ∷ (0x87, 0x2021)
    ∷ (0x88, 0x02C6)
    ∷ (0x89, 0x2030)
    ∷ (0x8A, 0x0160)
    ∷ (0x8B, 0x2039)
    ∷ (0x8C, 0x0152)
    ∷ (0x8E, 0x017D)
    ∷ (0x91, 0x2018)
    ∷ (0x92, 0x2019)
    ∷ (0x93, 0x201C)
    ∷ (0x94, 0x201D)
    ∷ (0x95, 0x2022)
    ∷ (0x96, 0x2013)
    ∷ (0x97, 0x2014)
    ∷ (0x98, 0x02DC)
    ∷ (0x99, 0x2122)
    ∷ (0x9A, 0x0161)
    ∷ (0x9B, 0x203A)
    ∷ (0x9C, 0x0153)
    ∷ (0x9E, 0x017E)
    ∷ (0x9F, 0x0178)
    ∷ []

-- The loop over the table, up to the first entry with the code point.
unfoldable pub special_byte : List (ℕ × ℕ) → ℕ → Option ℕ
special_byte [] cp = none
special_byte ((b, c) ∷ rest) cp = if c == cp then some b else special_byte rest cp

-- The byte for one code point; every mode but ISO_8859_1 takes the WIN1252 branch.
unfoldable pub encode_codepoint : NoneEncoding → ℕ → Option ℕ
encode_codepoint iso_8859_1 cp = if ltb 0xFF cp then none else some cp
encode_codepoint _ cp =
    if ltb cp 0x80 || (leb 0xA0 cp && leb cp 0xFF) then some cp else special_byte win1252_special cp

-- `skip` is the number of bytes that `pos += len` has yet to pass.
unfoldable pub encode_from : ℕ → NoneEncoding → Bytes → Option Bytes
encode_from skip mode [] = some []
encode_from (suc skip) mode (c ∷ s) = encode_from skip mode s
encode_from zero mode (c ∷ s) = elim (decode_utf8_codepoint (c ∷ s)) [
  | none ↦ none
  | some (cp, len) ↦ elim (encode_codepoint mode cp) [
    | none ↦ none
    | some out ↦ elim (encode_from (len - 1) mode s) [ none ↦ none | some rest ↦ some (out ∷ rest) ]
  ]
]

-- The re-encoded literal, or `none` where the code returns false.
unfoldable pub try_encode_none_literal : Bytes → NoneEncoding → Option Bytes
try_encode_none_literal utf8 mode = encode_from zero mode utf8
