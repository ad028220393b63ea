-- ===== src/Dbt/Scalars.antt =====
-- The scalars that `YamlQuote` of src/firebird_dbt_sources.cpp writes, read back by the rules of YAML
-- for a double-quoted scalar.
use duckdb_firebird.Common.{
  ℕ, ◌+◌, ◌-◌, ◌*◌, ◌/◌, ◌%◌, ◌<◌, ◌≡◌, refl, sym, ap, ◌∙◌, true, Option, none, some, [], ◌∷◌, ◌++◌,
  append_assoc, Bytes, ltb, ◌==◌, ==_iff, if◌then◌else◌, if-intro, arith,
}
use duckdb_firebird.Common.Bits.{all_below, all_below-at}
use duckdb_firebird.Dbt.{hex_digit, yaml_escape, yaml_body, yaml_quote}

-- Where the reader is: in plain text, behind a backslash, or behind `\x` or its first digit.
pub data Reading : Type 0 where
  in_text after_backslash in_first : Reading
  in_second : ℕ → Reading

abbrev pub digit_value : ℕ → ℕ
digit_value d = if ltb d 58 then d - 48 else d - 55

-- The character of an escape of one letter.
abbrev pub escaped_character : ℕ → Option ℕ
escaped_character c =
    if c == b'\\'
    then some b'\\'
    else if c == b'"'
    then some b'"'
    else if c == b'n'
    then some 10
    else if c == b'r'
    then some 13
    else if c == b't'
    then some 9
    else none

abbrev pub with_byte : ℕ → Option (Bytes × Bytes) → Option (Bytes × Bytes)
with_byte c none = none
with_byte c (some (text, rest)) = some (c ∷ text, rest)

abbrev pub with_escape : Option ℕ → Option (Bytes × Bytes) → Option (Bytes × Bytes)
with_escape none r = none
with_escape (some c) r = with_byte c r

-- The text of a scalar behind its opening quote, and what follows its closing quote.
abbrev pub read_text : Reading → Bytes → Option (Bytes × Bytes)
read_text at [] = none
read_text in_text (c ∷ s) =
    let plain = with_byte c (read_text in_text s) in
    let escape = read_text after_backslash s in
    if c == b'"' then some ([], s) else if c == b'\\' then escape else plain
read_text after_backslash (c ∷ s) =
    let hex = read_text in_first s in
    let letter = with_escape (escaped_character c) (read_text in_text s) in
    if c == b'x' then hex else letter
read_text in_first (c ∷ s) = read_text (in_second (digit_value c)) s
read_text (in_second high) (c ∷ s) = with_byte (high * 16 + digit_value c) (read_text in_text s)

abbrev pub read_scalar : Bytes → Option (Bytes × Bytes)
read_scalar [] = none
read_scalar (c ∷ s) = if c == b'"' then read_text in_text s else none

hex_back :
    (c : ℕ) → c < 32 → digit_value (hex_digit (c / 16)) * 16 + digit_value (hex_digit (c % 16)) ≡ c
unfolding all_below
hex_back c h =
    (==_iff (digit_value (hex_digit (c / 16)) * 16 + digit_value (hex_digit (c % 16))) c).0 (
      all_below-at
        (λ x. digit_value (hex_digit (x / 16)) * 16 + digit_value (hex_digit (x % 16)) == x) 32 c h
        refl)

-- The reader takes the escape of a byte as this byte.
abbrev IsEscape : ℕ → Bytes → Bytes → Type 0
IsEscape c t e = read_text in_text (e ++ t) ≡ with_byte c (read_text in_text t)

of_byte :
    (c d : ℕ) (t : Bytes)
    → (c == d) ≡ true
    → with_byte d (read_text in_text t) ≡ with_byte c (read_text in_text t)
of_byte c d t p = ap (λ n. with_byte n (read_text in_text t)) (sym ((==_iff c d).0 p))

yaml_escape-IsEscape : (c : ℕ) (t : Bytes) → IsEscape c t (yaml_escape c)
unfolding yaml_escape
yaml_escape-IsEscape c t = if-intro (IsEscape c t) (c == b'\\') (of_byte c b'\\' t) (λ p.
    if-intro (IsEscape c t) (c == b'"') (of_byte c b'"' t) (λ q.
      if-intro (IsEscape c t) (c == 10) (of_byte c 10 t) (λ r.
        if-intro (IsEscape c t) (c == 13) (of_byte c 13 t) (λ r.
          if-intro (IsEscape c t) (c == 9) (of_byte c 9 t) (λ r.
            if-intro (IsEscape c t) (ltb c 0x20)
              (λ below.
                ap (λ n. with_byte n (read_text in_text t)) (hex_back c (ground (arith, below))))
              (λ above. rw (q, p) refl))))))

read_text-yaml_body : (s t : Bytes) → read_text in_text (yaml_body s ++ b'"' ∷ t) ≡ some (s, t)
unfolding yaml_body
read_text-yaml_body [] t = refl
read_text-yaml_body (c ∷ s) t =
    ap (read_text in_text) (append_assoc (yaml_escape c) (yaml_body s) (b'"' ∷ t))
    ∙ yaml_escape-IsEscape c (yaml_body s ++ b'"' ∷ t)
    ∙ ap (with_byte c) (read_text-yaml_body s t)

-- Whatever the text is, a reader of YAML takes its quoted form back as the text, and leaves what
-- follows it.
pub read_scalar-yaml_quote : (s t : Bytes) → read_scalar (yaml_quote s ++ t) ≡ some (s, t)
unfolding yaml_quote
read_scalar-yaml_quote s t =
    ap (read_text in_text) (append_assoc (yaml_body s) (b'"' ∷ []) t) ∙ read_text-yaml_body s t
