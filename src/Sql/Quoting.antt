-- ===== src/Sql/Quoting.antt =====
-- A quoted name is one token: the server's lexer reads back the name that was quoted, whatever
-- bytes it holds, and goes on behind it.
use duckdb_firebird.Common.{
  ℕ, ◌≡◌, refl, ◌∙◌, ap, false, [], ◌∷◌, ◌++◌, append_assoc, Bytes, some, ◌==◌, ==_self, Bool-cases,
  inl, inr, arith,
}
use duckdb_firebird.Sql.{escaped, quote_ident, sql_literal}
use duckdb_firebird.Sql.Lexer.{read_quoted, push}

-- The text that follows does not go on with the quote.
abbrev pub EndsToken : ℕ → Bytes → Type 0
EndsToken q [] = Unit
EndsToken q (c ∷ s) = (c == q) ≡ false

closing : (q : ℕ) (rest : Bytes) → EndsToken q rest → read_quoted q (q ∷ rest) ≡ some ([], rest)
unfolding read_quoted
closing q [] h = rw ==_self
closing q (c ∷ s) h = ground (arith, ==_self q)

doubled : (q : ℕ) (s : Bytes) → read_quoted q (q ∷ q ∷ s) ≡ push q (read_quoted q s)
unfolding read_quoted
doubled q s = ground (arith, ==_self q)

plain :
    (q c d : ℕ) (s : Bytes)
    → (c == q) ≡ false
    → read_quoted q (c ∷ d ∷ s) ≡ push c (read_quoted q (d ∷ s))
unfolding read_quoted
plain q c d s h = ground arith

-- The escaped text in front of its closing quote is never empty.
escaped_start :
    (q : ℕ) (name rest : Bytes) → (d : ℕ) × (s : Bytes) × (escaped q name ++ q ∷ rest ≡ d ∷ s)
unfolding escaped
escaped_start q [] rest = (q, rest, refl)
escaped_start q (c ∷ name) rest = elim (Bool-cases (c == q)) [
  | inl hit ↦ (q, c ∷ (escaped q name ++ q ∷ rest), rw hit)
  | inr miss ↦ (c, escaped q name ++ q ∷ rest, rw miss)
]

read_quoted-escaped :
    (q : ℕ) (name rest : Bytes)
    → EndsToken q rest
    → read_quoted q (escaped q name ++ q ∷ rest) ≡ some (name, rest)
unfolding escaped
read_quoted-escaped q [] rest h = closing q rest h
read_quoted-escaped q (c ∷ name) rest h =
    let later = read_quoted-escaped q name rest h in
    elim (Bool-cases (c == q)) [
      | inl hit ↦ ground (arith, doubled q (escaped q name ++ q ∷ rest))
      | inr miss ↦
          let (d, s, e) = escaped_start q name rest in
          let step = plain q c d s miss in rw miss (rw e (step ∙ rw (rw e at later)))
    ]

-- The lexer reads a quoted identifier back as the name, in any text that follows and does not begin
-- with a quote.
pub read_quoted-quote_ident :
    (name rest : Bytes)
    → EndsToken b'"' rest
    → (quote_ident name ++ rest ≡ b'"' ∷ (escaped b'"' name ++ b'"' ∷ rest))
      × (read_quoted b'"' (escaped b'"' name ++ b'"' ∷ rest) ≡ some (name, rest))
unfolding quote_ident
read_quoted-quote_ident name rest h = (
  ap (◌∷◌ b'"') (append_assoc (escaped b'"' name) (b'"' ∷ []) rest),
  read_quoted-escaped b'"' name rest h,
)

-- The lexer reads a string literal back as the text, in any text that follows and does not begin with
-- a quote.
pub read_quoted-sql_literal :
    (s rest : Bytes)
    → EndsToken b'\'' rest
    → (sql_literal s ++ rest ≡ b'\'' ∷ (escaped b'\'' s ++ b'\'' ∷ rest))
      × (read_quoted b'\'' (escaped b'\'' s ++ b'\'' ∷ rest) ≡ some (s, rest))
unfolding sql_literal
read_quoted-sql_literal s rest h = (
  ap (◌∷◌ b'\'') (append_assoc (escaped b'\'' s) (b'\'' ∷ []) rest),
  read_quoted-escaped b'\'' s rest h,
)
