-- ===== src/Connection/Url.antt =====
-- Percent-encoding (RFC 3986), independent of the code, next to `UrlDecode` of
-- src/firebird_client.cpp.
use duckdb_firebird.Common.{
  ℕ, zero, ◌+◌, ◌/◌, ◌%◌, ◌<◌, ◌≡◌, refl, ap, ◌∙◌, Bool, true, false, ◌&&◌, ◌||◌, none, some, [],
  ◌∷◌, ◌++◌, Bytes, IsByte, All, All-append, leb, ◌==◌, ==_self, if◌then◌else◌, if-intro, arith,
}
use duckdb_firebird.Connection.Text.{hex_value, hex_byte, decoded_from, url_decode, cut_at}

-- Letters, digits, and `-._~`.
abbrev pub is_unreserved : ℕ → Bool
is_unreserved c =
    (leb 48 c && leb c 57)
    || (leb 65 c && leb c 90)
    || (leb 97 c && leb c 122)
    || (c == 45)
    || (c == 46)
    || (c == 95)
    || (c == 126)

abbrev pub hex_digit : ℕ → ℕ
hex_digit v = if leb v 9 then 48 + v else 55 + v

abbrev pub encoded_byte : ℕ → Bytes
encoded_byte c =
    if is_unreserved c then c ∷ [] else 37 ∷ hex_digit (c / 16) ∷ hex_digit (c % 16) ∷ []

unfoldable pub url_encode : Bytes → Bytes
url_encode [] = []
url_encode (c ∷ s) = encoded_byte c ++ url_encode s

hex_value-hex_digit : (v : ℕ) → v < 16 → hex_value (hex_digit v) ≡ some v
unfolding hex_value
hex_value-hex_digit v h = ground arith

hex_byte-hex_digit : (c : ℕ) → c < 256 → hex_byte (hex_digit (c / 16)) (hex_digit (c % 16)) ≡ c
unfolding hex_byte
hex_byte-hex_digit c h =
    rw
      (
        hex_byte,
        hex_value-hex_digit (c / 16) (omega arith),
        hex_value-hex_digit (c % 16) (omega arith),
      )
      (omega arith)

plain_decoded :
    (c : ℕ) (s : Bytes)
    → (c == 37) ≡ false
    → (c == 43) ≡ false
    → decoded_from zero (c ∷ s) ≡ c ∷ decoded_from zero s
unfolding decoded_from
plain_decoded c [] h k = rw k
plain_decoded c (a ∷ []) h k = rw k
plain_decoded c (a ∷ b ∷ s) h k = rw (decoded_from, h, k)

decoded_url_encode : (s : Bytes) → All IsByte s → decoded_from zero (url_encode s) ≡ s
unfolding url_encode decoded_from
decoded_url_encode [] h = refl
decoded_url_encode (c ∷ s) h =
    if-intro (λ e. decoded_from zero (e ++ url_encode s) ≡ c ∷ s) (is_unreserved c)
      (λ p.
        plain_decoded c (url_encode s) (ground arith) (ground arith)
        ∙ ap (◌∷◌ c) (decoded_url_encode s h.1))
      (λ p. rw (hex_byte-hex_digit c h.0, decoded_url_encode s h.1))

-- Decoding undoes percent-encoding, on every text of bytes.
pub url_decode-url_encode : (s : Bytes) → All IsByte s → url_decode (url_encode s) ≡ s
unfolding url_decode
url_decode-url_encode s h = decoded_url_encode s h

-- A byte that separates nothing in a URL.
abbrev pub IsInner : ℕ → Type 0
IsInner c =
    ((c == b':') ≡ false)
    × ((c == b'@') ≡ false)
    × ((c == b'?') ≡ false)
    × ((c == b'/') ≡ false)
    × ((c == b'&') ≡ false)
    × ((c == b'=') ≡ false)

hex_digit-IsInner : (v : ℕ) → v < 16 → IsInner (hex_digit v)
hex_digit-IsInner v h = ground arith

is_unreserved-IsInner : (c : ℕ) → is_unreserved c ≡ true → IsInner c
is_unreserved-IsInner c h = ground arith

encoded_byte-IsInner :
    (c : ℕ) → c < 256 → All IsInner (37 ∷ hex_digit (c / 16) ∷ hex_digit (c % 16) ∷ [])
encoded_byte-IsInner c h =
    let percent : IsInner 37 = (refl, refl, refl, refl, refl, refl) in
    (
      percent,
      (hex_digit-IsInner (c / 16) (omega arith), (hex_digit-IsInner (c % 16) (omega arith), tt)),
    )

pub url_encode-IsInner : (s : Bytes) → All IsByte s → All IsInner (url_encode s)
unfolding url_encode
url_encode-IsInner [] h = tt
url_encode-IsInner (c ∷ s) h =
    All-append IsInner (encoded_byte c) (url_encode s)
      (if-intro (All IsInner) (is_unreserved c) (λ p. (is_unreserved-IsInner c p, tt))
        (λ p. encoded_byte-IsInner c h.0))
      (url_encode-IsInner s h.1)

-- A text is cut at the first separator.
pub cut_at-append :
    (q : ℕ) (a b : Bytes) → All (λ c. (c == q) ≡ false) a → cut_at q (a ++ q ∷ b) ≡ some (a, b)
unfolding cut_at
cut_at-append q [] b h = rw (cut_at, ==_self q)
cut_at-append q (c ∷ a) b h = rw (cut_at, h.0, cut_at-append q a b h.1)

pub cut_at-none : (q : ℕ) (a : Bytes) → All (λ c. (c == q) ≡ false) a → cut_at q a ≡ none
unfolding cut_at
cut_at-none q [] h = refl
cut_at-none q (c ∷ a) h = rw (cut_at, h.0, cut_at-none q a h.1)
