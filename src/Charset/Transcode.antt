-- ===== src/Charset/Transcode.antt =====
-- `AppendUtf8`, `Cp1252HighByteToCodePoint`, `Win1252ToUtf8`, `Latin1ToUtf8` and
-- `TranscodeNoneCharset` of src/firebird_types.cpp. `out.push_back` on an accumulator is here the
-- list of the bytes in order; the exception of strict mode is `none`.
pub mod Characters
use duckdb_firebird.Common.{
  ℕ, zero, suc, ◌+◌, ◌-◌, ◌*◌, ◌/◌, ◌^◌, Bool, true, false, Option, none, some, List, [], ◌∷◌, ◌++◌,
  Bytes, get_elem?, ltb, if◌then◌else◌,
}
use duckdb_firebird.Charset.Validate.{is_valid_utf8}
use Prim.Native.Nat.{bit_and, bit_or}

pub data NoneEncoding : Type 0 where
  strict win1252 iso_8859_1 blob : NoneEncoding

-- The bytes that `AppendUtf8` appends; `x >> k` is `x / 2 ^ k`.
unfoldable pub append_utf8 : ℕ → Bytes
append_utf8 cp =
    if ltb cp 0x80
    then cp ∷ []
    else if ltb cp 0x800
    then bit_or 0xC0 (cp / 2 ^ 6) ∷ bit_or 0x80 (bit_and cp 0x3F) ∷ []
    else bit_or 0xE0 (cp / 2 ^ 12)
      ∷ bit_or 0x80 (bit_and (cp / 2 ^ 6) 0x3F)
      ∷ bit_or 0x80 (bit_and cp 0x3F)
      ∷ []

-- `MAP`.
abbrev pub cp1252_map : List ℕ
cp1252_map =
    0x20AC ∷ 0x0081 ∷ 0x201A ∷ 0x0192 ∷ 0x201E ∷ 0x2026 ∷ 0x2020 ∷ 0x2021 ∷ 0x02C6 ∷ 0x2030 ∷ 0x0160
    ∷ 0x2039 ∷ 0x0152 ∷ 0x008D ∷ 0x017D ∷ 0x008F ∷ 0x0090 ∷ 0x2018 ∷ 0x2019 ∷ 0x201C ∷ 0x201D
    ∷ 0x2022 ∷ 0x2013 ∷ 0x2014 ∷ 0x02DC ∷ 0x2122 ∷ 0x0161 ∷ 0x203A ∷ 0x0153 ∷ 0x009D ∷ 0x017E
    ∷ 0x0178 ∷ []

-- The code calls it on 0x80 .. 0x9F only; past the end of the table it stands for no read at all.
unfoldable pub cp1252_high_byte_to_code_point : ℕ → ℕ
cp1252_high_byte_to_code_point b = elim (get_elem? cp1252_map (b - 0x80)) [
  | none ↦ 0
  | some cp ↦ cp
]

-- The loop bodies of `Win1252ToUtf8` and `Latin1ToUtf8`.
unfoldable pub win1252_byte : ℕ → Bytes
win1252_byte b =
    if ltb b 0x80
    then b ∷ []
    else if ltb b 0xA0
    then append_utf8 (cp1252_high_byte_to_code_point b)
    else append_utf8 b

unfoldable pub latin1_byte : ℕ → Bytes
latin1_byte b = if ltb b 0x80 then b ∷ [] else append_utf8 b

unfoldable pub win1252_to_utf8 : Bytes → Bytes
win1252_to_utf8 [] = []
win1252_to_utf8 (b ∷ bs) = win1252_byte b ++ win1252_to_utf8 bs

unfoldable pub latin1_to_utf8 : Bytes → Bytes
latin1_to_utf8 [] = []
latin1_to_utf8 (b ∷ bs) = latin1_byte b ++ latin1_to_utf8 bs

unfoldable pub transcode_none_charset : Bytes → NoneEncoding → Option Bytes
transcode_none_charset raw strict = if is_valid_utf8 raw then some raw else none
transcode_none_charset raw win1252 = some (win1252_to_utf8 raw)
transcode_none_charset raw iso_8859_1 = some (latin1_to_utf8 raw)
transcode_none_charset raw blob = some raw
