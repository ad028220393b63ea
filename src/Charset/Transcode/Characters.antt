-- ===== src/Charset/Transcode/Characters.antt =====
-- What the two transcoders write is UTF-8: each byte becomes one scalar value.
use duckdb_firebird.Common.{
  ℕ, ◌/◌, ◌%◌, ◌<◌, ◌≡◌, refl, [], ◌∷◌, map, Bytes, IsByte, All, ltb, ltb→lt, inl, if◌then◌else◌,
  arith,
}
use duckdb_firebird.Common.Bits.{or_c0, or_e0, or_80, and_3f, all_below, all_below-at}
use duckdb_firebird.Charset.Utf8.{IsScalar, IsUtf8, encode, encode_all}
use duckdb_firebird.Charset.Transcode.{
  append_utf8, cp1252_high_byte_to_code_point, win1252_byte, latin1_byte, win1252_to_utf8,
  latin1_to_utf8,
}

-- `AppendUtf8` writes the RFC 3629 form of every code point below 0x10000.
pub append_utf8-encode : (cp : ℕ) → cp < 0x10000 → append_utf8 cp ≡ encode cp
unfolding append_utf8 encode
append_utf8-encode cp h = ground (
  arith,
  or_c0 (cp / 64),
  or_80 (cp % 64),
  and_3f cp,
  or_e0 (cp / 4096),
  and_3f (cp / 64),
  or_80 (cp / 64 % 64),
)

-- The character of a byte under Windows-1252 as the code reads it.
unfoldable pub win1252_character : ℕ → ℕ
win1252_character b =
    if ltb b 0x80 then b else if ltb b 0xA0 then cp1252_high_byte_to_code_point b else b

-- Every such character lies below the surrogates.
pub win1252_character-lt : (b : ℕ) → b < 256 → win1252_character b < 0xD800
unfolding all_below win1252_character cp1252_high_byte_to_code_point
win1252_character-lt b h =
    ltb→lt _ _ (all_below-at (λ x. ltb (win1252_character x) 0xD800) 256 b h refl)

pub win1252_byte-encode : (b : ℕ) → b < 256 → win1252_byte b ≡ encode (win1252_character b)
unfolding win1252_byte win1252_character encode
win1252_byte-encode b h = ground (
  arith,
  append_utf8-encode (cp1252_high_byte_to_code_point b),
  append_utf8-encode b,
  win1252_character-lt b h,
)

pub latin1_byte-encode : (b : ℕ) → b < 256 → latin1_byte b ≡ encode b
unfolding latin1_byte encode
latin1_byte-encode b h = ground (arith, append_utf8-encode b)

pub win1252_to_utf8-encode_all :
    (raw : Bytes) → All IsByte raw → win1252_to_utf8 raw ≡ encode_all (map win1252_character raw)
unfolding win1252_to_utf8
win1252_to_utf8-encode_all [] h = refl
win1252_to_utf8-encode_all (b ∷ bs) h =
    rw (win1252_byte-encode b h.0, win1252_to_utf8-encode_all bs h.1)

pub latin1_to_utf8-encode_all : (raw : Bytes) → All IsByte raw → latin1_to_utf8 raw ≡ encode_all raw
unfolding latin1_to_utf8
latin1_to_utf8-encode_all [] h = refl
latin1_to_utf8-encode_all (b ∷ bs) h =
    rw (latin1_byte-encode b h.0, latin1_to_utf8-encode_all bs h.1)

characters-IsScalar : (raw : Bytes) → All IsByte raw → All IsScalar (map win1252_character raw)
characters-IsScalar [] h = tt
characters-IsScalar (b ∷ bs) h = (inl (win1252_character-lt b h.0), characters-IsScalar bs h.1)

bytes-IsScalar : (raw : Bytes) → All IsByte raw → All IsScalar raw
bytes-IsScalar [] h = tt
bytes-IsScalar (b ∷ bs) h = (inl (omega (arith, h.0)), bytes-IsScalar bs h.1)

-- Whatever bytes are stored, Windows-1252 transcoding gives UTF-8.
pub win1252_to_utf8-IsUtf8 : (raw : Bytes) → All IsByte raw → IsUtf8 (win1252_to_utf8 raw)
win1252_to_utf8-IsUtf8 raw h =
    (map win1252_character raw, characters-IsScalar raw h, win1252_to_utf8-encode_all raw h)

-- Whatever bytes are stored, Latin-1 transcoding gives UTF-8.
pub latin1_to_utf8-IsUtf8 : (raw : Bytes) → All IsByte raw → IsUtf8 (latin1_to_utf8 raw)
latin1_to_utf8-IsUtf8 raw h = (raw, bytes-IsScalar raw h, latin1_to_utf8-encode_all raw h)
