-- ===== src/Sql/Fragment.antt =====
-- Which texts leave the lexer outside of quotes, with how many placeholders: literals of the
-- source, quoted names, digits, and what is joined of them.
use duckdb_firebird.Common.{
  ℕ, suc, ◌+◌, ◌≡◌, refl, ◌∙◌, false, [], ◌∷◌, ◌++◌, Bytes, All, ◌==◌, arith,
}
use duckdb_firebird.Sql.{escaped, quote_ident, sql_literal}
use duckdb_firebird.Sql.Decimal.{decimal, decimal_ℤ, IsDigit, decimal-IsDigit}
use duckdb_firebird.Common.Int.{ℤ, pos, negsuc}
use duckdb_firebird.Sql.Lexer.{code, ident, text, lex, marks, lex-append, marks-append, IsFragment}

pub IsFragment-append :
    {m n : ℕ} (s t : Bytes) → IsFragment m s → IsFragment n t → IsFragment (m + n) (s ++ t)
IsFragment-append s t f g = record {
  closed = lex-append code s t ∙ rw f.closed g.closed;
  counted = marks-append code s t ∙ rw (f.closed, f.counted, g.counted);
}

pub IsFragment-nil : IsFragment 0 []
unfolding lex marks
IsFragment-nil = record { closed = refl; counted = refl }

inside_ident :
    (s : Bytes) → (lex ident (escaped b'"' s) ≡ ident) × (marks ident (escaped b'"' s) ≡ 0)
unfolding escaped lex marks
inside_ident [] = (refl, refl)
inside_ident (c ∷ s) = ground (arith, inside_ident s)

inside_text : (s : Bytes) → (lex text (escaped b'\'' s) ≡ text) × (marks text (escaped b'\'' s) ≡ 0)
unfolding escaped lex marks
inside_text [] = (refl, refl)
inside_text (c ∷ s) = ground (arith, inside_text s)

closed_ident : (s : Bytes) → marks ident (escaped b'"' s ++ b'"' ∷ []) ≡ 0
unfolding lex marks
closed_ident s =
    marks-append ident (escaped b'"' s) (b'"' ∷ []) ∙ rw ((inside_ident s).0, (inside_ident s).1)

closed_text : (s : Bytes) → marks text (escaped b'\'' s ++ b'\'' ∷ []) ≡ 0
unfolding lex marks
closed_text s =
    marks-append text (escaped b'\'' s) (b'\'' ∷ []) ∙ rw ((inside_text s).0, (inside_text s).1)

pub IsFragment-quote_ident : (name : Bytes) → IsFragment 0 (quote_ident name)
unfolding quote_ident lex marks
IsFragment-quote_ident name = record {
  closed = lex-append ident (escaped b'"' name) (b'"' ∷ []) ∙ rw (inside_ident name).0;
  counted = omega (arith, closed_ident name);
}

pub IsFragment-sql_literal : (s : Bytes) → IsFragment 0 (sql_literal s)
unfolding sql_literal lex marks
IsFragment-sql_literal s = record {
  closed = lex-append text (escaped b'\'' s) (b'\'' ∷ []) ∙ rw (inside_text s).0;
  counted = omega (arith, closed_text s);
}

-- Bytes that neither quote nor ask for a parameter.
abbrev pub IsPlain : ℕ → Type 0
IsPlain c = ((c == b'"') ≡ false) × ((c == b'\'') ≡ false) × ((c == b'?') ≡ false)

pub IsFragment-plain : (s : Bytes) → All IsPlain s → IsFragment 0 s
unfolding lex marks
IsFragment-plain [] h = record { closed = refl; counted = refl }
IsFragment-plain (c ∷ s) h =
    let rest = IsFragment-plain s h.1 in
    record { closed = ground (arith, rest.closed); counted = ground (arith, rest.counted) }

IsDigit-IsPlain : (s : Bytes) → All IsDigit s → All IsPlain s
IsDigit-IsPlain [] h = tt
IsDigit-IsPlain (c ∷ s) h = (ground arith, IsDigit-IsPlain s h.1)

pub IsFragment-decimal : (n : ℕ) → IsFragment 0 (decimal n)
IsFragment-decimal n =
    IsFragment-plain (decimal n) (IsDigit-IsPlain (decimal n) (decimal-IsDigit n))

pub IsFragment-decimal_ℤ : (z : ℤ) → IsFragment 0 (decimal_ℤ z)
unfolding decimal_ℤ
IsFragment-decimal_ℤ (pos n) = IsFragment-decimal n
IsFragment-decimal_ℤ (negsuc n) =
    IsFragment-append (b'-' ∷ []) (decimal (suc n))
      (IsFragment-plain (b'-' ∷ []) ((refl, refl, refl), tt)) (IsFragment-decimal (suc n))
