-- ===== src/Charset/Display.antt =====
-- `MakeTelemetrySafeUtf8` of src/firebird_observability.cpp: valid sequences are copied, any other
-- byte is written as `\xNN`.
mod Copies
pub mod Safe
use duckdb_firebird.Common.{
  ℕ, zero, suc, ◌+◌, ◌-◌, ◌*◌, ◌/◌, ◌^◌, Bool, true, false, not, ◌&&◌, ◌||◌, Option, none, some,
  List, [], ◌∷◌, ◌++◌, Bytes, codes, get_elem?, take, ltb, leb, ◌==◌, if◌then◌else◌,
}
use Prim.Native.Nat.{bit_and, bit_or}

-- The fast path's loop: is every byte ASCII?
unfoldable pub is_ascii : Bytes → Bool
is_ascii [] = true
is_ascii (c ∷ s) = if leb 0x80 c then false else is_ascii s

-- `i + k < in.size() && cont(i + k)`.
abbrev pub cont_at : Bytes → ℕ → Bool
cont_at s k = elim (get_elem? s k) [ none ↦ false | some b ↦ bit_and b 0xC0 == 0x80 ]

-- `in[i + k] & 0x3F`.
abbrev pub low_at : Bytes → ℕ → ℕ
low_at s k = elim (get_elem? s k) [ none ↦ 0 | some b ↦ bit_and b 0x3F ]

-- `len` and `cp` for the bytes from `i` on; `len` is 0 where no form fits. `x << k` is `x * 2 ^ k`.
unfoldable pub sequence_at : Bytes → ℕ × ℕ
sequence_at [] = (0, 0)
sequence_at (lead ∷ s) =
    if ltb lead 0x80
    then (1, lead)
    else if (bit_and lead 0xE0 == 0xC0) && cont_at s 0
    then (2, bit_or (bit_and lead 0x1F * 2 ^ 6) (low_at s 0))
    else if (bit_and lead 0xF0 == 0xE0) && cont_at s 0 && cont_at s 1
    then (3, bit_or (bit_or (bit_and lead 0x0F * 2 ^ 12) (low_at s 0 * 2 ^ 6)) (low_at s 1))
    else if (bit_and lead 0xF8 == 0xF0) && cont_at s 0 && cont_at s 1 && cont_at s 2
    then (
      4,
      bit_or
          (bit_or (bit_or (bit_and lead 0x07 * 2 ^ 18) (low_at s 0 * 2 ^ 12)) (low_at s 1 * 2 ^ 6))
          (low_at s 2),
    )
    else (0, 0)

-- `kMinCp[len]`.
abbrev pub k_min_cp : ℕ → ℕ
k_min_cp len =
    if len == 1 then 1 else if len == 2 then 0x80 else if len == 3 then 0x800 else 0x10000

abbrev pub is_sequence : ℕ → ℕ → Bool
is_sequence len cp =
    not (len == 0)
    && leb (k_min_cp len) cp
    && leb cp 0x10FFFF
    && not (leb 0xD800 cp && leb cp 0xDFFF)

-- `hex[n & 0xF]`.
abbrev pub hex_digit : ℕ → ℕ
hex_digit n = elim (get_elem? (codes "0123456789ABCDEF") (bit_and n 0x0F)) [ none ↦ 0 | some d ↦ d ]

unfoldable pub escape_byte : ℕ → Bytes
escape_byte lead = b'\\' ∷ b'x' ∷ hex_digit (lead / 2 ^ 4) ∷ hex_digit lead ∷ []

-- The sequence that is copied from here, as its code point and length.
unfoldable pub copied_at : Bytes → Option (ℕ × ℕ)
copied_at s = let (len, cp) = sequence_at s in if is_sequence len cp then some (cp, len) else none

-- `skip` is the number of copied bytes that `i += len` has yet to pass.
unfoldable pub safe_from : ℕ → Bytes → Bytes
safe_from skip [] = []
safe_from (suc skip) (c ∷ s) = safe_from skip s
safe_from zero (c ∷ s) = elim (copied_at (c ∷ s)) [
  | none ↦ escape_byte c ++ safe_from zero s
  | some (cp, len) ↦ take len (c ∷ s) ++ safe_from (len - 1) s
]

unfoldable pub make_telemetry_safe_utf8 : Bytes → Bytes
make_telemetry_safe_utf8 s = if is_ascii s then s else safe_from zero s
