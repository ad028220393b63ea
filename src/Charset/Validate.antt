-- ===== src/Charset/Validate.antt =====
-- `IsValidUtf8` of src/firebird_types.cpp. The pointer walk is a recursion on the rest of the
-- bytes, with the number of bytes that `p += 1 + want` has yet to pass.
pub mod Sound
use duckdb_firebird.Common.{
  ℕ, zero, suc, ◌-◌, ◌^◌, ◌*◌, Bool, true, false, not, ◌&&◌, ◌||◌, Option, none, some, List, [],
  ◌∷◌, Bytes, length, ltb, leb, ◌==◌, if◌then◌else◌,
}
use Prim.Native.Nat.{bit_and, bit_or}

-- The number of continuation bytes that a lead byte wants, and the least code point of that form.
pub lead_form : ℕ → Option (ℕ × ℕ)
lead_form c =
    if bit_and c 0xE0 == 0xC0
    then some (1, 0x80)
    else if bit_and c 0xF0 == 0xE0
    then some (2, 0x800)
    else if bit_and c 0xF8 == 0xF0
    then some (3, 0x10000)
    else none

-- The loop over `p[1] .. p[want]`.
pub continuation : ℕ → ℕ → Bytes → Option ℕ
continuation zero cp s = some cp
continuation (suc k) cp [] = none
continuation (suc k) cp (b ∷ s) =
    if bit_and b 0xC0 == 0x80 then continuation k (bit_or (cp * 64) (bit_and b 0x3F)) s else none

-- The tests on the code point: overlong form, surrogate, out of range.
abbrev pub acceptable : ℕ → ℕ → Bool
acceptable min_codepoint cp =
    not (ltb cp min_codepoint) && not (leb 0xD800 cp && leb cp 0xDFFF) && not (ltb 0x10FFFF cp)

pub sequence_ok : ℕ → ℕ → ℕ → Bytes → Bool
unfolding continuation
sequence_ok want min_codepoint c s =
    if ltb (length s) want
    then false
    else elim (continuation want (bit_and c (2 ^ (6 - want) - 1)) s) [
      | none ↦ false
      | some cp ↦ acceptable min_codepoint cp
    ]

pub valid_from : ℕ → Bytes → Bool
unfolding lead_form sequence_ok
valid_from skip [] = true
valid_from (suc skip) (c ∷ s) = valid_from skip s
valid_from zero (c ∷ s) = elim (ltb c 0x80) [
  | true ↦ valid_from zero s
  | false ↦ elim (lead_form c) [
    | none ↦ false
    | some (want, least) ↦ elim (sequence_ok want least c s) [
      | true ↦ valid_from want s
      | false ↦ false
    ]
  ]
]

unfoldable pub is_valid_utf8 : Bytes → Bool
unfolding valid_from
is_valid_utf8 s = valid_from zero s
