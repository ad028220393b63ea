-- ===== src/Charset/Display/Safe.antt =====
-- The display form is always UTF-8, and a text without NUL is displayed as it is.
use duckdb_firebird.Common.{
  ℕ, zero, suc, ◌-◌, ◌/◌, ◌<◌, ◌≡◌, ◌≢◌, refl, ◌∙◌, ap, true, false, some, List, [], ◌∷◌, ◌++◌,
  Bytes, codes, IsByte, All, All-append, All-append_right, length, take, take-length-append, drop,
  ltb, ltb→lt, Bool-cases, Option-cases, inl, inr, arith,
}
use duckdb_firebird.Common.Bits.{all_below, all_below-at}
use duckdb_firebird.Charset.Literal.{decode_utf8_codepoint}
use duckdb_firebird.Charset.Literal.Decoding.{
  decode_utf8_codepoint-encode, decode_utf8_codepoint_sound,
}
use duckdb_firebird.Charset.Utf8.{
  IsScalar, IsUtf8, encode, encode_all, encode-cons, encode-length, encode-IsByte, IsUtf8-cons,
}
use duckdb_firebird.Charset.Validate.Sound.{drop-cons, suc-sub_one}
use duckdb_firebird.Charset.Display.Copies.{copied_at-decode}
use duckdb_firebird.Charset.Display.{
  is_ascii, sequence_at, hex_digit, escape_byte, copied_at, safe_from, make_telemetry_safe_utf8,
}

IsUtf8-ascii : (c : ℕ) {rest : Bytes} → c < 0x80 → IsUtf8 rest → IsUtf8 (c ∷ rest)
IsUtf8-ascii c {rest} h t =
    let whole : encode c ≡ c ∷ [] = unfold encode in ground arith in
    rw whole at (IsUtf8-cons c {rest = rest} (inl (omega arith)) t)

hex_digit-lt : (n : ℕ) → n < 256 → hex_digit n < 0x80
unfolding all_below
hex_digit-lt n h = ltb→lt _ _ (all_below-at (λ x. ltb (hex_digit x) 0x80) 256 n h refl)

IsUtf8-escape_byte : (c : ℕ) {rest : Bytes} → c < 256 → IsUtf8 rest → IsUtf8 (escape_byte c ++ rest)
unfolding escape_byte
IsUtf8-escape_byte c h t = IsUtf8-ascii b'\\' (omega arith) (
    IsUtf8-ascii b'x' (omega arith) (
      IsUtf8-ascii (hex_digit (c / 16)) (hex_digit-lt (c / 16) (omega arith))
        (IsUtf8-ascii (hex_digit c) (hex_digit-lt c h) t)))

-- What is copied is one character, and the walk goes on behind it.
copied_at_sound :
    (c cp len : ℕ) (s : Bytes)
    → All IsByte (c ∷ s)
    → copied_at (c ∷ s) ≡ some (cp, len)
    → IsScalar cp × (take len (c ∷ s) ≡ encode cp) × (c ∷ s ≡ encode cp ++ drop (len - 1) s)
copied_at_sound c cp len s b h =
    let read : decode_utf8_codepoint (c ∷ s) ≡ some (cp, len) =
      ground (arith, copied_at-decode (c ∷ s) b) in
    let (scalar, splits, width) = decode_utf8_codepoint_sound (c ∷ s) cp len b read in
    let tail = drop-cons len c s (omega (arith, encode-length cp)) in
    (
      scalar,
      ap (take len) splits
          ∙ rw width (take-length-append (encode cp) (drop (length (encode cp)) (c ∷ s))),
      splits ∙ ap (◌++◌ (encode cp)) tail,
    )

safe_from-IsUtf8 : (skip : ℕ) (s : Bytes) → All IsByte s → IsUtf8 (safe_from skip s)
unfolding safe_from
safe_from-IsUtf8 zero [] b = ([], tt, refl)
safe_from-IsUtf8 (suc skip) [] b = ([], tt, refl)
safe_from-IsUtf8 (suc skip) (c ∷ s) b = safe_from-IsUtf8 skip s b.1
safe_from-IsUtf8 zero (c ∷ s) b = elim (Option-cases (copied_at (c ∷ s))) [
  | inl bad ↦ rw (bad, safe_from) (IsUtf8-escape_byte c b.0 (safe_from-IsUtf8 zero s b.1))
  | inr ((cp, len), copied) ↦
      let (scalar, taken, splits) = copied_at_sound c cp len s b copied in
      rw (copied, safe_from) (rw taken (IsUtf8-cons cp scalar (safe_from-IsUtf8 (len - 1) s b.1)))
]

IsUtf8-is_ascii : (s : Bytes) → is_ascii s ≡ true → IsUtf8 s
unfolding is_ascii
IsUtf8-is_ascii [] h = ([], tt, refl)
IsUtf8-is_ascii (c ∷ s) h = IsUtf8-ascii c (ground arith) (IsUtf8-is_ascii s (ground arith))

-- The display form of any bytes is UTF-8.
pub make_telemetry_safe_utf8-IsUtf8 :
    (s : Bytes) → All IsByte s → IsUtf8 (make_telemetry_safe_utf8 s)
unfolding make_telemetry_safe_utf8
make_telemetry_safe_utf8-IsUtf8 s b = elim (Bool-cases (is_ascii s)) [
  | inl ascii ↦ rw ascii (IsUtf8-is_ascii s ascii)
  | inr wide ↦ rw wide (safe_from-IsUtf8 zero s b)
]

safe_from-skip : (xs rest : Bytes) → safe_from (length xs) (xs ++ rest) ≡ safe_from zero rest
unfolding safe_from
safe_from-skip [] rest = refl
safe_from-skip (x ∷ xs) rest = safe_from-skip xs rest

-- One character that does not start with NUL is copied.
safe_from-encode :
    (cp : ℕ) (rest : Bytes)
    → IsScalar cp
    → All IsByte (encode cp ++ rest)
    → All (λ b. b ≢ 0) (encode cp ++ rest)
    → safe_from zero (encode cp ++ rest) ≡ encode cp ++ safe_from zero rest
unfolding safe_from
safe_from-encode cp rest h b n =
    let (c, t, e) = encode-cons cp in
    let bytes = rw e at b in
    let nonzero = rw e at n in
    let read = rw e at (decode_utf8_codepoint-encode cp rest h) in
    let copied : copied_at (c ∷ t ++ rest) ≡ some (cp, suc (length t)) =
      ground (arith, copied_at-decode (c ∷ t ++ rest) bytes, nonzero.0, read) in
    rw e (
      rw (copied, safe_from)
        (ap (◌∷◌ c) (
          rw (take-length-append t rest, suc-sub_one (length t))
            (ap (◌++◌ t) (safe_from-skip t rest)))))

safe_from-encode_all :
    (cps : List ℕ)
    → All IsScalar cps
    → All IsByte (encode_all cps)
    → All (λ b. b ≢ 0) (encode_all cps)
    → safe_from zero (encode_all cps) ≡ encode_all cps
unfolding safe_from
safe_from-encode_all [] h b n = refl
safe_from-encode_all (cp ∷ cps) h b n =
    safe_from-encode cp (encode_all cps) h.0 b n
    ∙ ap (◌++◌ (encode cp)) (
        safe_from-encode_all cps h.1 (All-append_right IsByte (encode cp) (encode_all cps) b)
          (All-append_right (λ b. b ≢ 0) (encode cp) (encode_all cps) n))

encode_all-IsByte : (cps : List ℕ) → All IsScalar cps → All IsByte (encode_all cps)
encode_all-IsByte [] h = tt
encode_all-IsByte (cp ∷ cps) h =
    All-append IsByte (encode cp) (encode_all cps) (encode-IsByte cp h.0)
      (encode_all-IsByte cps h.1)

-- A text with no NUL is displayed byte for byte.
pub make_telemetry_safe_utf8_text :
    (s : Bytes) → IsUtf8 s → All (λ b. b ≢ 0) s → make_telemetry_safe_utf8 s ≡ s
unfolding make_telemetry_safe_utf8
make_telemetry_safe_utf8_text s (cps, ok, e) n = elim (Bool-cases (is_ascii s)) [
  | inl ascii ↦ rw ascii
  | inr wide ↦ rw wide (rw e (safe_from-encode_all cps ok (encode_all-IsByte cps ok) (rw e at n)))
]

-- A text that starts with NUL and holds a character beyond ASCII is not: its NUL is escaped,
-- although it is valid UTF-8.
pub make_telemetry_safe_utf8_nul :
    (s : Bytes)
    → IsUtf8 s
    → is_ascii s ≡ false
    → IsUtf8 (0 ∷ s) × (make_telemetry_safe_utf8 (0 ∷ s) ≡ codes "\\x00" ++ safe_from zero s)
unfolding make_telemetry_safe_utf8 is_ascii safe_from copied_at sequence_at escape_byte
make_telemetry_safe_utf8_nul s t wide = (IsUtf8-ascii 0 (omega arith) t, rw wide)
