-- ===== src/Charset/Display/Copies.antt =====
-- `MakeTelemetrySafeUtf8` copies what `DecodeUtf8Codepoint` reads, but for NUL: its table `kMinCp`
-- asks for a code point of at least 1 in the one-byte form.
use duckdb_firebird.Common.{
  ℕ, ◌+◌, ◌*◌, ◌/◌, ◌%◌, ◌^◌, ◌<◌, ◌≡◌, true, false, none, [], ◌∷◌, Bytes, IsByte, All, ◌==◌,
  Bool-cases, inl, inr, if◌then◌else◌, arith,
}
use Prim.Native.Nat.{bit_or}
use duckdb_firebird.Common.Bits.{
  and_c0, and_e0, and_f0, and_f8, and_1f, and_0f, and_07, and_3f, or_shift_6, or_shift_12,
  or_shift_18,
}
use duckdb_firebird.Charset.Literal.{more_bytes, in_range, decode_utf8_codepoint}
use duckdb_firebird.Charset.Literal.Decoding.{lead_length_arith, more_bytes_step}
use duckdb_firebird.Charset.Display.{sequence_at, copied_at}

-- The display walk copies what the strict decoder reads, but for NUL.
abbrev pub Copies : Bytes → Type 0
Copies [] = Unit
Copies (c ∷ s) = copied_at (c ∷ s) ≡ (if c == 0 then none else decode_utf8_codepoint (c ∷ s))

copied_one : (c : ℕ) → c < 256 → Copies (c ∷ [])
unfolding copied_at sequence_at decode_utf8_codepoint in_range more_bytes
copied_one c b = ground (arith, lead_length_arith c, and_e0 c, and_f0 c, and_f8 c)

-- A lead byte of the two-byte form, whatever follows the second byte.
copied_two_form :
    (c d : ℕ) (s : Bytes) → c < 256 → d < 256 → (c / 32 == 6) ≡ true → Copies (c ∷ d ∷ s)
unfolding copied_at sequence_at decode_utf8_codepoint in_range more_bytes
copied_two_form c d s hc hd two = ground (
  arith,
  lead_length_arith c,
  more_bytes_step 0 (c % 32) d s,
  and_e0 c,
  and_1f c,
  and_c0 d,
  and_3f d,
  or_shift_6 (c % 32) (d % 64),
)

copied_two : (c d : ℕ) → c < 256 → d < 256 → (c / 32 == 6) ≡ false → Copies (c ∷ d ∷ [])
unfolding copied_at sequence_at decode_utf8_codepoint in_range more_bytes
copied_two c d hc hd two =
    ground (arith, lead_length_arith c, and_e0 c, and_f0 c, and_f8 c, and_c0 d)

-- The three-byte form.
copied_three_form :
    (c d e : ℕ) (s : Bytes)
    → c < 256
    → d < 256
    → e < 256
    → (c / 32 == 6) ≡ false
    → (c / 16 == 14) ≡ true
    → Copies (c ∷ d ∷ e ∷ s)
unfolding copied_at sequence_at decode_utf8_codepoint in_range more_bytes
copied_three_form c d e s hc hd he two three = ground (
  arith,
  lead_length_arith c,
  more_bytes_step 1 (c % 16) d (e ∷ s),
  more_bytes_step 0 (c % 16 * 64 + d % 64) e s,
  and_e0 c,
  and_f0 c,
  and_0f c,
  and_c0 d,
  and_3f d,
  and_c0 e,
  and_3f e,
  or_shift_12 (c % 16) (d % 64),
  or_shift_6 (c % 16 * 64 + d % 64) (e % 64),
)

copied_three :
    (c d e : ℕ)
    → c < 256
    → d < 256
    → e < 256
    → (c / 32 == 6) ≡ false
    → (c / 16 == 14) ≡ false
    → Copies (c ∷ d ∷ e ∷ [])
unfolding copied_at sequence_at decode_utf8_codepoint in_range more_bytes
copied_three c d e hc hd he two three =
    ground (arith, lead_length_arith c, and_e0 c, and_f0 c, and_f8 c)

-- The value of a four-byte form, in arithmetic.
four_value :
    (c d e f : ℕ)
    → bit_or (bit_or (bit_or (c % 8 * 2 ^ 18) (d % 64 * 2 ^ 12)) (e % 64 * 2 ^ 6)) (f % 64)
      ≡ ((c % 8 * 64 + d % 64) * 64 + e % 64) * 64 + f % 64
four_value c d e f = rw (or_shift_18 (c % 8) (d % 64) (omega arith)) (
    rw (or_shift_12 (c % 8 * 64 + d % 64) (e % 64) (omega arith))
      (or_shift_6 ((c % 8 * 64 + d % 64) * 64 + e % 64) (f % 64) (omega arith)))

copied_four :
    (c d e f : ℕ) (s : Bytes)
    → c < 256
    → d < 256
    → e < 256
    → f < 256
    → (c / 32 == 6) ≡ false
    → (c / 16 == 14) ≡ false
    → Copies (c ∷ d ∷ e ∷ f ∷ s)
unfolding copied_at sequence_at decode_utf8_codepoint in_range more_bytes
copied_four c d e f s hc hd he hf two three = ground (
  arith,
  lead_length_arith c,
  more_bytes_step 2 (c % 8) d (e ∷ f ∷ s),
  more_bytes_step 1 (c % 8 * 64 + d % 64) e (f ∷ s),
  more_bytes_step 0 ((c % 8 * 64 + d % 64) * 64 + e % 64) f s,
  and_e0 c,
  and_f0 c,
  and_f8 c,
  and_07 c,
  and_c0 d,
  and_3f d,
  and_c0 e,
  and_3f e,
  and_c0 f,
  and_3f f,
  four_value c d e f,
)

copied_from_two :
    (c d : ℕ) (s : Bytes) → All IsByte (c ∷ d ∷ s) → (c / 32 == 6) ≡ false → Copies (c ∷ d ∷ s)
copied_from_two c d [] b two = copied_two c d b.0 b.1.0 two
copied_from_two c d (e ∷ s) b two = elim (Bool-cases (c / 16 == 14)) [
  | inl three ↦ copied_three_form c d e s b.0 b.1.0 b.1.1.0 two three
  | inr three ↦ from_three s b three
]
  where
    from_three :
        (s : Bytes) → All IsByte (c ∷ d ∷ e ∷ s) → (c / 16 == 14) ≡ false → Copies (c ∷ d ∷ e ∷ s)
    from_three [] b three = copied_three c d e b.0 b.1.0 b.1.1.0 two three
    from_three (f ∷ s) b three = copied_four c d e f s b.0 b.1.0 b.1.1.0 b.1.1.1.0 two three

pub copied_at-decode : (s : Bytes) → All IsByte s → Copies s
copied_at-decode [] b = tt
copied_at-decode (c ∷ []) b = copied_one c b.0
copied_at-decode (c ∷ d ∷ s) b = elim (Bool-cases (c / 32 == 6)) [
  | inl two ↦ copied_two_form c d s b.0 b.1.0 two
  | inr two ↦ copied_from_two c d s b two
]
