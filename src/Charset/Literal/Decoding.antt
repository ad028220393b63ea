-- ===== src/Charset/Literal/Decoding.antt =====
-- `DecodeUtf8Codepoint` reads exactly the scalar values: it gives back what `encode` writes, and
-- what it reads is the encoding of a scalar value.
use duckdb_firebird.Common.{
  ℕ, suc, ◌+◌, ◌*◌, ◌/◌, ◌%◌, ◌≤◌, ◌<◌, ◌≡◌, refl, true, false, none, some, [], ◌∷◌, ◌++◌, Bytes,
  IsByte, All, length, drop, ltb, ◌==◌, Bool-cases, inl, inr, if◌then◌else◌, arith,
}
use duckdb_firebird.Common.Bits.{
  and_c0, and_e0, and_f0, and_f8, and_1f, and_0f, and_07, and_3f, or_shift_6,
}
use duckdb_firebird.Charset.Utf8.{IsScalar, encode}
use duckdb_firebird.Charset.Literal.{lead_length, more_bytes, in_range, decode_utf8_codepoint}

-- One continuation byte, in arithmetic.
pub more_bytes_step :
    (k cp b : ℕ) (s : Bytes)
    → b < 256
    → more_bytes (suc k) cp (b ∷ s)
      ≡ (if b / 64 == 2 then more_bytes k (cp * 64 + b % 64) s else none)
unfolding more_bytes
more_bytes_step k cp b s h = ground (arith, and_c0 b h, and_3f b, or_shift_6 cp (b % 64))

pub lead_length_arith :
    (c : ℕ)
    → c < 256
    → lead_length c ≡ (
        if c / 32 == 6
        then some (2, c % 32)
        else if c / 16 == 14
        then some (3, c % 16)
        else if c / 8 == 30
        then some (4, c % 8)
        else none)
unfolding lead_length
lead_length_arith c h =
    ground (arith, and_e0 c h, and_f0 c h, and_f8 c h, and_1f c h, and_0f c h, and_07 c h)

-- Decoding gives back the character that was encoded, and its length.
pub decode_utf8_codepoint-encode :
    (cp : ℕ) (rest : Bytes)
    → IsScalar cp
    → decode_utf8_codepoint (encode cp ++ rest) ≡ some (cp, length (encode cp))
unfolding decode_utf8_codepoint encode in_range more_bytes
decode_utf8_codepoint-encode cp rest h = ground (
  arith,
  lead_length_arith (0xC0 + cp / 64),
  lead_length_arith (0xE0 + cp / 4096),
  lead_length_arith (0xF0 + cp / 262144),
  and_c0 (0x80 + cp % 64),
  and_c0 (0x80 + cp / 64 % 64),
  and_c0 (0x80 + cp / 4096 % 64),
  and_3f (0x80 + cp % 64),
  and_3f (0x80 + cp / 64 % 64),
  and_3f (0x80 + cp / 4096 % 64),
  or_shift_6 (cp / 64) (cp % 64),
  or_shift_6 (cp / 4096) (cp / 64 % 64),
  or_shift_6 (cp / 262144) (cp / 4096 % 64),
)

continuation_bound : (b : ℕ) → (b / 64 == 2) ≡ true → (b ≡ 0x80 + b % 64) × (b % 64 < 64)
continuation_bound b h = ground arith

-- A sequence of four bytes: what holds of its bytes when it decodes.
four_bytes :
    (c d e f cp len : ℕ) (s : Bytes)
    → All IsByte (c ∷ d ∷ e ∷ f ∷ [])
    → (c / 32 == 6) ≡ false
    → (c / 16 == 14) ≡ false
    → (ltb c 0x80) ≡ false
    → decode_utf8_codepoint (c ∷ d ∷ e ∷ f ∷ s) ≡ some (cp, len)
    → (c / 8 ≡ 30)
      × (d / 64 ≡ 2)
      × (e / 64 ≡ 2)
      × (f / 64 ≡ 2)
      × (cp ≡ ((c % 8 * 64 + d % 64) * 64 + e % 64) * 64 + f % 64)
      × (0x10000 ≤ cp)
      × (cp ≤ 0x10FFFF)
      × (len ≡ 4)
unfolding decode_utf8_codepoint in_range more_bytes
four_bytes c d e f cp len s b n2 n3 n1 h = ground (
  arith,
  lead_length_arith c,
  more_bytes_step 2 (c % 8) d (e ∷ f ∷ s),
  more_bytes_step 1 (c % 8 * 64 + d % 64) e (f ∷ s),
  more_bytes_step 0 ((c % 8 * 64 + d % 64) * 64 + e % 64) f s,
)

-- Such bytes are those of `encode`.
encode_four :
    (c d e f : ℕ)
    → c / 8 ≡ 30
    → d / 64 ≡ 2
    → e / 64 ≡ 2
    → f / 64 ≡ 2
    → 0x10000 ≤ ((c % 8 * 64 + d % 64) * 64 + e % 64) * 64 + f % 64
    → encode (((c % 8 * 64 + d % 64) * 64 + e % 64) * 64 + f % 64) ≡ c ∷ d ∷ e ∷ f ∷ []
unfolding encode
encode_four c d e f hc hd he hf least = ground arith

sound_four :
    (c d e f cp len : ℕ) (s : Bytes)
    → (c / 8 ≡ 30)
      × (d / 64 ≡ 2)
      × (e / 64 ≡ 2)
      × (f / 64 ≡ 2)
      × (cp ≡ ((c % 8 * 64 + d % 64) * 64 + e % 64) * 64 + f % 64)
      × (0x10000 ≤ cp)
      × (cp ≤ 0x10FFFF)
      × (len ≡ 4)
    → IsScalar cp
      × (c ∷ d ∷ e ∷ f ∷ s ≡ encode cp ++ drop len (c ∷ d ∷ e ∷ f ∷ s))
      × (len ≡ length (encode cp))
sound_four c d e f cp len s (hc, hd, he, hf, value, least, most, four) =
    let written = encode_four c d e f hc hd he hf (omega arith) in
    rw (value, four, written) (inr (omega arith, omega arith), refl, refl)

-- What decodes is the encoding of a scalar value.
pub decode_utf8_codepoint_sound :
    (s : Bytes) (cp len : ℕ)
    → All IsByte s
    → decode_utf8_codepoint s ≡ some (cp, len)
    → IsScalar cp × (s ≡ encode cp ++ drop len s) × (len ≡ length (encode cp))
unfolding decode_utf8_codepoint encode in_range more_bytes
decode_utf8_codepoint_sound [] cp len b h = cc
decode_utf8_codepoint_sound (c ∷ []) cp len b h = ground (arith, lead_length_arith c)
decode_utf8_codepoint_sound (c ∷ d ∷ []) cp len b h =
    ground (arith, lead_length_arith c, more_bytes_step 0 (c % 32) d [])
decode_utf8_codepoint_sound (c ∷ d ∷ e ∷ []) cp len b h = ground (
  arith,
  lead_length_arith c,
  more_bytes_step 0 (c % 32) d (e ∷ []),
  more_bytes_step 1 (c % 16) d (e ∷ []),
  more_bytes_step 0 (c % 16 * 64 + d % 64) e [],
)
decode_utf8_codepoint_sound (c ∷ d ∷ e ∷ f ∷ s) cp len b h = elim (Bool-cases (c / 32 == 6)) [
  | inl two ↦ ground (arith, lead_length_arith c, more_bytes_step 0 (c % 32) d (e ∷ f ∷ s))
  | inr two ↦ elim (Bool-cases (c / 16 == 14)) [
    | inl three ↦ ground (
      arith,
      lead_length_arith c,
      more_bytes_step 1 (c % 16) d (e ∷ f ∷ s),
      more_bytes_step 0 (c % 16 * 64 + d % 64) e (f ∷ s),
    )
    | inr three ↦ elim (Bool-cases (ltb c 0x80)) [
      | inl ascii ↦ ground arith
      | inr wide ↦
          sound_four c d e f cp len s (
            four_bytes c d e f cp len s (b.0, (b.1.0, (b.1.1.0, (b.1.1.1.0, tt)))) two three wide h)
    ]
  ]
]
