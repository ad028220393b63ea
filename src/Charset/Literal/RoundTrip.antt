-- ===== src/Charset/Literal/RoundTrip.antt =====
-- Re-encoding a literal is the inverse of transcoding a stored value, so that the pushed comparison
-- of bytes decides the comparison of texts.
use mathlib.Core.Option.{some-injective}
use mathlib.Core.Path.{ap₂}
use mathlib.Core.List.{map-id}
use duckdb_firebird.Common.{
  ℕ, zero, suc, ◌-◌, ◌<◌, ◌≡◌, refl, sym, ◌∙◌, ap, ◌↔◌, Option, none, some, [], ◌∷◌, ◌++◌, map,
  Bytes, IsByte, All, length, drop, Option-cases, inl, inr, arith,
}
use duckdb_firebird.Charset.Utf8.{IsScalar, encode, encode_all, encode-cons, encode-length}
use duckdb_firebird.Charset.Validate.Sound.{drop-cons}
use duckdb_firebird.Charset.Transcode.{
  NoneEncoding, strict, win1252, iso_8859_1, blob, transcode_none_charset,
}
use duckdb_firebird.Charset.Transcode.Characters.{
  win1252_character-lt, win1252_to_utf8-encode_all, latin1_to_utf8-encode_all,
}
use duckdb_firebird.Charset.Literal.{
  decode_utf8_codepoint, encode_codepoint, encode_from, try_encode_none_literal,
}
use duckdb_firebird.Charset.Literal.Table.{
  Transcodes, character, IsDefined, encode_codepoint-character, encode_codepoint_exact,
  encode_codepoint_sound,
}
use duckdb_firebird.Charset.Literal.Decoding.{
  decode_utf8_codepoint-encode, decode_utf8_codepoint_sound,
}

-- The walk over what it has yet to pass, and then over the rest.
encode_from-skip :
    (mode : NoneEncoding) (xs rest : Bytes)
    → encode_from (length xs) mode (xs ++ rest) ≡ encode_from zero mode rest
unfolding encode_from
encode_from-skip mode [] rest = refl
encode_from-skip mode (x ∷ xs) rest = encode_from-skip mode xs rest

abbrev push_byte : Option ℕ → Option Bytes → Option Bytes
push_byte none rest = none
push_byte (some b) none = none
push_byte (some b) (some rest) = some (b ∷ rest)

push_byte-eq-some :
    (m : Option ℕ) (r : Option Bytes) {bytes : Bytes}
    → push_byte m r ≡ some bytes
    → (b : ℕ) × (rest : Bytes) × (m ≡ some b) × (r ≡ some rest) × (bytes ≡ b ∷ rest)
push_byte-eq-some none r e = cc
push_byte-eq-some (some b) none e = cc
push_byte-eq-some (some b) (some rest) e = (b, rest, refl, refl, cc)

abbrev after_decode : NoneEncoding → Option (ℕ × ℕ) → Bytes → Option Bytes
after_decode mode none s = none
after_decode mode (some (cp, len)) s =
    push_byte (encode_codepoint mode cp) (encode_from (len - 1) mode s)

encode_from-decode :
    (mode : NoneEncoding) (c : ℕ) (s : Bytes)
    → encode_from zero mode (c ∷ s) ≡ after_decode mode (decode_utf8_codepoint (c ∷ s)) s
unfolding encode_from
encode_from-decode mode c s = ground arith

suc-sub_one : (n : ℕ) → suc n - 1 ≡ n
suc-sub_one n = omega arith

-- One character in front of a text.
encode_from-encode :
    (mode : NoneEncoding) (cp : ℕ) (rest : Bytes)
    → IsScalar cp
    → encode_from zero mode (encode cp ++ rest)
      ≡ push_byte (encode_codepoint mode cp) (encode_from zero mode rest)
encode_from-encode mode cp rest h =
    let (c, t, e) = encode-cons cp in
    let decoded : decode_utf8_codepoint (c ∷ t ++ rest) ≡ some (cp, suc (length t)) =
      rw (e) at (decode_utf8_codepoint-encode cp rest h) in
    rw (
      e,
      encode_from-decode mode c (t ++ rest),
      decoded,
      suc-sub_one (length t),
      encode_from-skip mode t rest,
    )

-- The text of stored bytes, for both modes at once.
text_of : NoneEncoding → Bytes → Bytes
text_of mode raw = encode_all (map (character mode) raw)

character-IsScalar : (mode : NoneEncoding) (b : ℕ) → b < 256 → IsScalar (character mode b)
character-IsScalar iso_8859_1 b h = inl (omega arith)
character-IsScalar strict b h = inl (win1252_character-lt b h)
character-IsScalar win1252 b h = inl (win1252_character-lt b h)
character-IsScalar blob b h = inl (win1252_character-lt b h)

encode_from-text_of :
    (mode : NoneEncoding) (raw : Bytes)
    → All IsByte raw
    → All (IsDefined mode) raw
    → encode_from zero mode (text_of mode raw) ≡ some raw
unfolding text_of encode_from
encode_from-text_of mode [] b d = refl
encode_from-text_of mode (x ∷ xs) b d =
    encode_from-encode mode (character mode x) (text_of mode xs) (character-IsScalar mode x b.0)
    ∙ rw (encode_codepoint-character mode x b.0 d.0, encode_from-text_of mode xs b.1 d.1)

encode_from_exact :
    (mode : NoneEncoding) (raw bytes : Bytes)
    → All IsByte raw
    → encode_from zero mode (text_of mode raw) ≡ some bytes
    → bytes ≡ raw
unfolding text_of encode_from
encode_from_exact mode [] bytes b e = cc
encode_from_exact mode (x ∷ xs) bytes b e =
    let first = sym (
      encode_from-encode mode (character mode x) (text_of mode xs)
        (character-IsScalar mode x b.0)) in
    let (y, rest, byte, later, both) = push_byte-eq-some _ _ (first ∙ e) in
    both
    ∙ ap₂ ◌∷◌ (encode_codepoint_exact mode x y b.0 byte) (encode_from_exact mode xs rest b.1 later)

-- What the walk produces transcodes back to what it read.
encode_from_sound :
    (mode : NoneEncoding) (skip : ℕ) (s bytes : Bytes)
    → All IsByte s
    → encode_from skip mode s ≡ some bytes
    → (text_of mode bytes ≡ drop skip s) × All IsByte bytes
unfolding text_of encode_from
encode_from_sound mode zero [] bytes b e =
    (rw (sym (some-injective [] bytes e)), rw (sym (some-injective [] bytes e)) tt)
encode_from_sound mode (suc skip) [] bytes b e =
    (rw (sym (some-injective [] bytes e)), rw (sym (some-injective [] bytes e)) tt)
encode_from_sound mode (suc skip) (c ∷ s) bytes b e = encode_from_sound mode skip s bytes b.1 e
encode_from_sound mode zero (c ∷ s) bytes b e =
    elim (Option-cases (decode_utf8_codepoint (c ∷ s))) [
      | inl bad ↦ let stuck = rw (encode_from-decode mode c s, bad) at e in cc
      | inr ((cp, len), read) ↦
          let (scalar, splits, width) = decode_utf8_codepoint_sound (c ∷ s) cp len b read in
          let pushed = rw (encode_from-decode mode c s, read) at e in
          let (x, rest, byte, later, both) = push_byte-eq-some _ _ pushed in
          let (char, small) = encode_codepoint_sound mode cp x byte in
          let (texts, bytes_ok) = encode_from_sound mode (len - 1) s rest b.1 later in
          let tail = drop-cons len c s (omega (arith, encode-length cp)) in
          (
            rw (both, char) (ap (◌++◌ (encode cp)) (texts ∙ sym tail) ∙ sym splits),
            rw both (small, bytes_ok),
          )
    ]

transcode-text_of :
    (mode : NoneEncoding) (raw : Bytes)
    → Transcodes mode
    → All IsByte raw
    → transcode_none_charset raw mode ≡ some (text_of mode raw)
unfolding transcode_none_charset text_of
transcode-text_of win1252 raw t b = ap some (win1252_to_utf8-encode_all raw b)
transcode-text_of iso_8859_1 raw t b = ap some (latin1_to_utf8-encode_all raw b ∙ rw (map-id raw))
transcode-text_of strict raw t b = elim t [ inl e ↦ cc | inr e ↦ cc ]
transcode-text_of blob raw t b = elim t [ inl e ↦ cc | inr e ↦ cc ]

-- Re-encoding the transcoded text of stored bytes gives the stored bytes back, under Windows-1252
-- if none of them is one of the five undefined bytes.
pub try_encode_none_literal-transcode :
    (mode : NoneEncoding) (raw text : Bytes)
    → Transcodes mode
    → All IsByte raw
    → All (IsDefined mode) raw
    → transcode_none_charset raw mode ≡ some text
    → try_encode_none_literal text mode ≡ some raw
unfolding try_encode_none_literal
try_encode_none_literal-transcode mode raw text t b d e =
    let same = some-injective _ _ (sym (transcode-text_of mode raw t b) ∙ e) in
    rw (sym same) (encode_from-text_of mode raw b d)

-- A literal that was pushed compares as the code means it to: the stored bytes are equal to the
-- re-encoded literal exactly if their transcoded text is equal to the literal.
pub pushed_literal_exact :
    (mode : NoneEncoding) (literal bytes raw : Bytes)
    → Transcodes mode
    → All IsByte literal
    → All IsByte raw
    → try_encode_none_literal literal mode ≡ some bytes
    → (raw ≡ bytes) ↔ (transcode_none_charset raw mode ≡ some literal)
unfolding try_encode_none_literal
pushed_literal_exact mode literal bytes raw t bl br e = (
  (λ (same : raw ≡ bytes).
      transcode-text_of mode raw t br
      ∙ ap some (ap (text_of mode) same ∙ (encode_from_sound mode zero literal bytes bl e).0)),
  (λ (same : transcode_none_charset raw mode ≡ some literal).
      let text = some-injective _ _ (sym (transcode-text_of mode raw t br) ∙ same) in
      sym (encode_from_exact mode raw bytes br (ap (encode_from zero mode) text ∙ e))),
)
