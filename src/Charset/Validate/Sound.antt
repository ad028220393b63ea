-- ===== src/Charset/Validate/Sound.antt =====
-- `IsValidUtf8` accepts exactly the texts that RFC 3629 allows.
use duckdb_firebird.Common.{
  ℕ, zero, suc, ◌-◌, ◌*◌, ◌<◌, ◌≡◌, refl, ◌∙◌, ◌↔◌, Bool, true, false, Option, none, some, List, [],
  ◌∷◌, ◌++◌, Bytes, IsByte, All, length, drop, Option-cases, inl, inr, arith,
}
use Prim.Native.Nat.{bit_and, bit_or}
use duckdb_firebird.Charset.Utf8.{
  IsScalar, IsUtf8, encode, encode_all, encode-cons, encode-length, IsUtf8-cons,
}
use duckdb_firebird.Charset.Literal.{lead_length, more_bytes, in_range, decode_utf8_codepoint}
use duckdb_firebird.Charset.Literal.Decoding.{
  decode_utf8_codepoint-encode, decode_utf8_codepoint_sound,
}
use duckdb_firebird.Charset.Validate.{
  lead_form, continuation, sequence_ok, valid_from, is_valid_utf8,
}

continuation-more_bytes : (k cp : ℕ) (s : Bytes) → continuation k cp s ≡ more_bytes k cp s
unfolding continuation more_bytes
continuation-more_bytes zero cp s = refl
continuation-more_bytes (suc k) cp [] = refl
continuation-more_bytes (suc k) cp (b ∷ s) =
    ground (arith, continuation-more_bytes k (bit_or (cp * 64) (bit_and b 0x3F)) s)

-- What the walk does once it knows the outcome of decoding at the lead byte.
abbrev after_decode : Option (ℕ × ℕ) → Bytes → Bool
after_decode none s = false
after_decode (some (cp, len)) s = valid_from (len - 1) s

valid_from-decode :
    (c : ℕ) (s : Bytes) → valid_from zero (c ∷ s) ≡ after_decode (decode_utf8_codepoint (c ∷ s)) s
unfolding valid_from lead_form sequence_ok decode_utf8_codepoint lead_length in_range
valid_from-decode c s = ground (
  arith,
  continuation-more_bytes 1 (bit_and c 31) s,
  continuation-more_bytes 2 (bit_and c 15) s,
  continuation-more_bytes 3 (bit_and c 7) s,
)

valid_from-skip : (xs rest : Bytes) → valid_from (length xs) (xs ++ rest) ≡ valid_from zero rest
unfolding valid_from
valid_from-skip [] rest = refl
valid_from-skip (x ∷ xs) rest = valid_from-skip xs rest

pub suc-sub_one : (n : ℕ) → suc n - 1 ≡ n
suc-sub_one n = omega arith

pub drop-cons : (len c : ℕ) (s : Bytes) → 0 < len → drop len (c ∷ s) ≡ drop (len - 1) s
drop-cons zero c s h = absurd (omega arith)
drop-cons (suc len) c s h = rw suc-sub_one

valid_from-encode :
    (cp : ℕ) (rest : Bytes)
    → IsScalar cp
    → valid_from zero (encode cp ++ rest) ≡ valid_from zero rest
valid_from-encode cp rest h =
    let (c, t, e) = encode-cons cp in
    let decoded : decode_utf8_codepoint (c ∷ t ++ rest) ≡ some (cp, suc (length t)) =
      rw (e) at (decode_utf8_codepoint-encode cp rest h) in
    rw (e, valid_from-decode c (t ++ rest), decoded, suc-sub_one (length t))
      (valid_from-skip t rest)

valid_from-encode_all : (cps : List ℕ) → All IsScalar cps → valid_from zero (encode_all cps) ≡ true
unfolding valid_from
valid_from-encode_all [] h = refl
valid_from-encode_all (cp ∷ cps) h =
    valid_from-encode cp (encode_all cps) h.0 ∙ valid_from-encode_all cps h.1

valid_from-IsUtf8 :
    (skip : ℕ) (s : Bytes) → All IsByte s → valid_from skip s ≡ true → IsUtf8 (drop skip s)
valid_from-IsUtf8 zero [] b h = ([], tt, refl)
valid_from-IsUtf8 (suc skip) [] b h = ([], tt, refl)
valid_from-IsUtf8 (suc skip) (c ∷ s) b h = valid_from-IsUtf8 skip s b.1 (unfold valid_from in h)
valid_from-IsUtf8 zero (c ∷ s) b h = elim (Option-cases (decode_utf8_codepoint (c ∷ s))) [
  | inl bad ↦ let stuck = rw (valid_from-decode c s, bad) at h in cc
  | inr ((cp, len), read) ↦
      let (scalar, splits, width) = decode_utf8_codepoint_sound (c ∷ s) cp len b read in
      let walked = rw (valid_from-decode c s, read) at h in
      let later = valid_from-IsUtf8 (len - 1) s b.1 walked in
      let rest = drop-cons len c s (omega (arith, encode-length cp)) in
      rw (splits, rest) (IsUtf8-cons cp scalar later)
]

-- `IsValidUtf8` returns true exactly for the encodings of lists of scalar values.
pub is_valid_utf8_iff : (s : Bytes) → All IsByte s → (is_valid_utf8 s ≡ true) ↔ IsUtf8 s
unfolding is_valid_utf8
is_valid_utf8_iff s b =
    (valid_from-IsUtf8 zero s b, λ (t : IsUtf8 s). rw t.2 (valid_from-encode_all t.0 t.1))
