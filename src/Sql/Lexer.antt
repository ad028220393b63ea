-- ===== src/Sql/Lexer.antt =====
-- How the server's lexer cuts SQL text, independent of the code: quoted identifiers, string
-- literals and the `?` placeholders outside of both. A doubled quote closes and opens again.
use duckdb_firebird.Common.{
  ℕ, ◌+◌, ◌≡◌, refl, true, false, [], ◌∷◌, ◌++◌, Bytes, Option, none, some, ◌==◌, if◌then◌else◌,
  arith,
}

pub data Lexical : Type 0 where
  code ident text : Lexical

abbrev pub lex_byte : Lexical → ℕ → Lexical
lex_byte code c = if c == b'"' then ident else if c == b'\'' then text else code
lex_byte ident c = if c == b'"' then code else ident
lex_byte text c = if c == b'\'' then code else text

-- The state after the bytes.
unfoldable pub lex : Lexical → Bytes → Lexical
lex m [] = m
lex m (c ∷ s) = lex (lex_byte m c) s

abbrev pub is_mark : Lexical → ℕ → ℕ
is_mark code c = if c == b'?' then 1 else 0
is_mark ident c = 0
is_mark text c = 0

-- The number of placeholders.
unfoldable pub marks : Lexical → Bytes → ℕ
marks m [] = 0
marks m (c ∷ s) = is_mark m c + marks (lex_byte m c) s

pub lex-append : (m : Lexical) (s t : Bytes) → lex m (s ++ t) ≡ lex (lex m s) t
unfolding lex
lex-append m [] t = refl
lex-append m (c ∷ s) t = lex-append (lex_byte m c) s t

pub marks-append : (m : Lexical) (s t : Bytes) → marks m (s ++ t) ≡ marks m s + marks (lex m s) t
unfolding lex marks
marks-append m [] t = omega arith
marks-append m (c ∷ s) t = omega (arith, marks-append (lex_byte m c) s t)

-- Text that the lexer enters and leaves outside of quotes, with `n` placeholders.
pub record IsFragment (n : ℕ) (s : Bytes) : Type 0 where
  pub closed : lex code s ≡ code
  pub counted : marks code s ≡ n

-- The token after an opening quote: its meaning, and the text behind the closing quote.
abbrev pub push : ℕ → Option (Bytes × Bytes) → Option (Bytes × Bytes)
push c none = none
push c (some (name, rest)) = some (c ∷ name, rest)

unfoldable pub read_quoted : ℕ → Bytes → Option (Bytes × Bytes)
read_quoted q [] = none
read_quoted q (c ∷ []) = if c == q then some ([], []) else none
read_quoted q (c ∷ d ∷ s) = elim (c == q) [
  | false ↦ push c (read_quoted q (d ∷ s))
  | true ↦ elim (d == q) [ true ↦ push q (read_quoted q s) | false ↦ some ([], d ∷ s) ]
]
