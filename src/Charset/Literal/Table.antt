-- ===== src/Charset/Literal/Table.antt =====
-- The two tables of Windows-1252 agree: that of src/firebird_types.cpp, from bytes to code points,
-- and that of src/firebird_scanner.cpp, from code points to bytes.
use duckdb_firebird.Common.{
  ℕ, ◌<◌, ◌≡◌, refl, ◌⊎◌, Bool, true, false, not, ◌&&◌, ◌||◌, Option, none, some, List, [], ◌∷◌,
  ltb, ◌==◌, arith,
}
use duckdb_firebird.Common.Bits.{all_below, all_below-at}
use duckdb_firebird.Charset.Transcode.{
  NoneEncoding, strict, win1252, iso_8859_1, blob, cp1252_high_byte_to_code_point,
}
use duckdb_firebird.Charset.Transcode.Characters.{win1252_character}
use duckdb_firebird.Charset.Literal.{encode_codepoint, special_byte, win1252_special}

-- The two modes that transcode.
abbrev pub Transcodes : NoneEncoding → Type 0
Transcodes mode = (mode ≡ win1252) ⊎ (mode ≡ iso_8859_1)

-- The character that a stored byte stands for.
abbrev pub character : NoneEncoding → ℕ → ℕ
character iso_8859_1 b = b
character _ b = win1252_character b

-- The five bytes that Windows-1252 leaves undefined.
abbrev pub is_undefined : ℕ → Bool
is_undefined b = b == 0x81 || b == 0x8D || b == 0x8F || b == 0x90 || b == 0x9D

-- What the re-encoding makes of the character of byte `b`: the byte, but for the undefined ones.
abbrev gives_back : ℕ → Option ℕ → Bool
gives_back b none = is_undefined b
gives_back b (some x) = not (is_undefined b) && x == b

win1252_gives_back :
    (b : ℕ) → b < 256 → gives_back b (encode_codepoint win1252 (win1252_character b)) ≡ true
unfolding all_below win1252_character cp1252_high_byte_to_code_point encode_codepoint special_byte
win1252_gives_back b h =
    all_below-at (λ x. gives_back x (encode_codepoint win1252 (win1252_character x))) 256 b h refl

-- Under Latin-1 every byte comes back, under Windows-1252 all but the undefined ones.
abbrev pub IsDefined : NoneEncoding → ℕ → Type 0
IsDefined iso_8859_1 b = Unit
IsDefined _ b = is_undefined b ≡ false

pub encode_codepoint-character :
    (mode : NoneEncoding) (b : ℕ)
    → b < 256
    → IsDefined mode b
    → encode_codepoint mode (character mode b) ≡ some b
unfolding encode_codepoint
encode_codepoint-character iso_8859_1 b h d = ground arith
encode_codepoint-character strict b h d = ground (arith, win1252_gives_back b h)
encode_codepoint-character win1252 b h d = ground (arith, win1252_gives_back b h)
encode_codepoint-character blob b h d = ground (arith, win1252_gives_back b h)

-- Where the re-encoding gives a byte at all, it is that byte.
pub encode_codepoint_exact :
    (mode : NoneEncoding) (b x : ℕ)
    → b < 256
    → encode_codepoint mode (character mode b) ≡ some x
    → x ≡ b
unfolding encode_codepoint
encode_codepoint_exact iso_8859_1 b x h e = ground arith
encode_codepoint_exact strict b x h e = ground (arith, win1252_gives_back b h)
encode_codepoint_exact win1252 b x h e = ground (arith, win1252_gives_back b h)
encode_codepoint_exact blob b x h e = ground (arith, win1252_gives_back b h)

-- An entry of the table that agrees with the character of its byte.
entries_agree : List (ℕ × ℕ) → Bool
entries_agree [] = true
entries_agree ((b, c) ∷ rest) = (win1252_character b == c && ltb b 256) && entries_agree rest

special_byte-character :
    (t : List (ℕ × ℕ)) (cp x : ℕ)
    → entries_agree t ≡ true
    → special_byte t cp ≡ some x
    → (win1252_character x ≡ cp) × (x < 256)
unfolding entries_agree special_byte
special_byte-character [] cp x a e = cc
special_byte-character ((b, c) ∷ rest) cp x a e = ground (arith, special_byte-character rest cp x)

table_agrees : entries_agree win1252_special ≡ true
unfolding entries_agree win1252_character cp1252_high_byte_to_code_point
table_agrees = refl

win1252_sound :
    (cp x : ℕ) → encode_codepoint win1252 cp ≡ some x → (win1252_character x ≡ cp) × (x < 256)
unfolding encode_codepoint win1252_character
win1252_sound cp x e = ground (arith, special_byte-character win1252_special cp x table_agrees)

-- A byte that is produced stands for the code point that it was produced from.
pub encode_codepoint_sound :
    (mode : NoneEncoding) (cp x : ℕ)
    → encode_codepoint mode cp ≡ some x
    → (character mode x ≡ cp) × (x < 256)
unfolding encode_codepoint
encode_codepoint_sound iso_8859_1 cp x e = ground arith
encode_codepoint_sound win1252 cp x e = win1252_sound cp x e
encode_codepoint_sound strict cp x e = win1252_sound cp x e
encode_codepoint_sound blob cp x e = win1252_sound cp x e
