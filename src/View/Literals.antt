-- ===== src/View/Literals.antt =====
-- Literals and comments in a view's source, as `AnalyzeViewSource` reads them
-- (src/firebird_view_analysis.cpp).
use duckdb_firebird.Common.{
  ℕ, zero, ◌≡◌, refl, sym, ap, subst, ◌∙◌, false, Bool-cases, inl, inr, [], ◌∷◌, ◌++◌, append_assoc,
  Bytes, ◌==◌, All, arith,
}
use duckdb_firebird.Sql.{escaped, sql_literal}
use duckdb_firebird.Sql.Quoting.{EndsToken}
use duckdb_firebird.View.{in_code, in_string, in_line_comment, turn, next_byte, normalized}

-- As many blanks as there are bytes.
abbrev pub blanks : Bytes → Bytes
blanks [] = []
blanks (c ∷ s) = 32 ∷ blanks s

closing_turn :
    (n : ℕ)
    → (n == b'\'') ≡ false
    → turn in_string b'\'' n ≡ record { out = 32 ∷ []; next = in_code; skip = 0 }
unfolding turn
closing_turn n h = rw h

plain_turn :
    (c n : ℕ)
    → (c == b'\'') ≡ false
    → turn in_string c n ≡ record { out = 32 ∷ []; next = in_string; skip = 0 }
unfolding turn
plain_turn c n h = rw h

plain_step :
    (c : ℕ) (s : Bytes)
    → (c == b'\'') ≡ false
    → normalized in_string zero (c ∷ s) ≡ 32 ∷ normalized in_string zero s
unfolding normalized
plain_step c s h = ap (λ t. t.out ++ normalized t.next t.skip s) (plain_turn c (next_byte s) h)

escaped_plain :
    (c : ℕ) (s : Bytes) → (c == b'\'') ≡ false → escaped b'\'' (c ∷ s) ≡ c ∷ escaped b'\'' s
unfolding escaped
escaped_plain c s h = rw h

string_blank :
    (body rest : Bytes)
    → EndsToken b'\'' rest
    → normalized in_string zero (escaped b'\'' body ++ b'\'' ∷ rest)
      ≡ blanks (escaped b'\'' body ++ b'\'' ∷ []) ++ normalized in_code zero rest
unfolding escaped normalized turn
string_blank [] [] h = refl
string_blank [] (c ∷ rest) h =
    ap (λ t. t.out ++ normalized t.next t.skip (c ∷ rest)) (closing_turn c h)
string_blank (c ∷ body) rest h = elim (Bool-cases (c == b'\'')) [
  | inl p ↦
      let q : c ≡ b'\'' = ground arith in
      subst
        (λ d.
          normalized in_string zero (escaped b'\'' (d ∷ body) ++ b'\'' ∷ rest)
          ≡ blanks (escaped b'\'' (d ∷ body) ++ b'\'' ∷ []) ++ normalized in_code zero rest)
        (sym q) (ap (λ s. 32 ∷ 32 ∷ s) (string_blank body rest h))
  | inr p ↦
      let e = escaped_plain c body p in
      ap (λ s. normalized in_string zero (s ++ b'\'' ∷ rest)) e
      ∙ plain_step c (escaped b'\'' body ++ b'\'' ∷ rest) p
      ∙ ap (◌∷◌ 32) (string_blank body rest h)
      ∙ ap (λ s. blanks (s ++ b'\'' ∷ []) ++ normalized in_code zero rest) (sym e)
]

-- A string literal of a view's source is blanked byte for byte, whatever it contains, quotes
-- included, and the text behind it is read as before, if that does not begin with a quote.
pub normalized-sql_literal :
    (body rest : Bytes)
    → EndsToken b'\'' rest
    → normalized in_code zero (sql_literal body ++ rest)
      ≡ blanks (sql_literal body) ++ normalized in_code zero rest
unfolding sql_literal normalized turn
normalized-sql_literal body rest h =
    ap (λ s. 32 ∷ normalized in_string zero s) (append_assoc (escaped b'\'' body) (b'\'' ∷ []) rest)
    ∙ ap (◌∷◌ 32) (string_blank body rest h)

-- The text of a line comment behind its dashes, and of a block comment behind its opening.
line_blank :
    (body rest : Bytes)
    → All (λ c. (c == 10) ≡ false) body
    → normalized in_line_comment zero (body ++ 10 ∷ rest)
      ≡ blanks body ++ 10 ∷ normalized in_code zero rest
unfolding normalized turn
line_blank [] rest h = refl
line_blank (c ∷ body) rest h = rw h.0 (ap (◌∷◌ 32) (line_blank body rest h.1))

-- A line comment is blanked up to its line feed, whatever it contains, and what follows is read as
-- before.
pub normalized-line_comment :
    (body rest : Bytes)
    → All (λ c. (c == 10) ≡ false) body
    → normalized in_code zero (b'-' ∷ b'-' ∷ (body ++ 10 ∷ rest))
      ≡ 32 ∷ 32 ∷ (blanks body ++ 10 ∷ normalized in_code zero rest)
unfolding normalized turn
normalized-line_comment body rest h = ap (λ s. 32 ∷ 32 ∷ s) (line_blank body rest h)
