-- ===== src/Query/Placeholders.antt =====
-- The placeholders and the parameters of what a translation writes to `out` and `params_out` of
-- src/firebird_query.cpp, as the server's lexer counts them.
pub mod Values
pub mod Trees
pub mod Texts
pub mod Statement
use duckdb_firebird.Common.{
  ℕ, zero, suc, ◌+◌, ◌≡◌, refl, sym, ap, subst, ◌∙◌, Bool, true, false, Option, none, some, List,
  [], ◌∷◌, ◌++◌, append-nil, append_assoc, Bytes, codes, length, take, All, is_empty, arith,
  length-append, take-length-append, if◌then◌else◌,
}
use duckdb_firebird.Duck.{Value, Duckdb}
use duckdb_firebird.Sql.Lexer.{IsFragment, lex, marks, code}
use duckdb_firebird.Sql.Fragment.{IsFragment-append, IsFragment-nil, IsPlain}
use duckdb_firebird.Query.Values.{Outcome, rolled_back, is_inline_type}
use duckdb_firebird.Query.Expressions.{refused, written, join, joined}

-- What DuckDB documents of `ToString` on the numbers that are written inline: digits, a sign, a
-- decimal point.
pub record IsPrinter (db : Duckdb) : Type 0 where
  pub plain : (v : Value) → is_inline_type v.type ≡ true → All IsPlain (db.to_string v)

-- The text, if there is one, is a fragment with that many placeholders.
abbrev pub Counts : Option Bytes → ℕ → Type 0
Counts none n = Unit
Counts (some s) n = IsFragment n s

pub recount : {m n : ℕ} {s : Bytes} → IsFragment m s → m ≡ n → IsFragment n s
recount {m} {n} {s} f p = subst (λ k. IsFragment k s) p f

recounted : {m n : ℕ} (r : Option Bytes) → Counts r m → m ≡ n → Counts r n
recounted none c p = tt
recounted (some s) c p = recount c p

-- The parameters are those before and new ones; the text has `n` placeholders besides theirs.
pub record IsTranslation (n : ℕ) (ps : List Value) (r : Outcome) : Type 0 where
  pub new : List Value
  pub pushed : r.params ≡ ps ++ new
  pub counts : Counts r.fragment (n + length new)

pub IsTranslation-refused : (n : ℕ) (ps : List Value) → IsTranslation n ps (refused ps)
IsTranslation-refused n ps = record { new = []; pushed = sym (append-nil ps); counts = tt }

pub IsTranslation-written :
    (n : ℕ) (s : Bytes) (ps : List Value) → IsFragment n s → IsTranslation n ps (written s ps)
IsTranslation-written n s ps f = record {
  new = [];
  pushed = sym (append-nil ps);
  counts = recount f (omega arith);
}

pub IsTranslation-bound :
    (n : ℕ) (s : Bytes) (v : Value) (ps : List Value)
    → IsFragment (n + 1) s
    → IsTranslation n ps (record { fragment = some s; params = ps ++ v ∷ [] })
IsTranslation-bound n s v ps f = record { new = v ∷ []; pushed = refl; counts = f }

-- A translation that goes on where another one stopped.
pub IsTranslation-after :
    (n : ℕ) (ps new : List Value) (qs : List Value) (r : Outcome)
    → qs ≡ ps ++ new
    → IsTranslation (n + length new) qs r
    → IsTranslation n ps r
IsTranslation-after n ps new qs r p t = record {
  new = new ++ t.new;
  pushed = t.pushed ∙ ap (λ l. l ++ t.new) p ∙ append_assoc ps new t.new;
  counts = recounted r.fragment t.counts (omega (arith, length-append new t.new));
}

pub IsTranslation-rolled_back :
    (n : ℕ) (ps new qs : List Value)
    → qs ≡ ps ++ new
    → IsTranslation n ps (rolled_back (length ps) qs)
IsTranslation-rolled_back n ps new qs p = record {
  new = [];
  pushed = ap (take (length ps)) p ∙ take-length-append ps new ∙ sym (append-nil ps);
  counts = tt;
}

empty_marks : marks code [] ≡ 0
unfolding marks
empty_marks = refl

pub opening : IsFragment 0 (codes "(")
unfolding lex marks
opening = record { closed = refl; counted = refl }

pub closing : IsFragment 0 (codes ")")
unfolding lex marks
closing = record { closed = refl; counted = refl }

-- Text in parentheses behind other text.
pub parenthesised :
    {m n : ℕ} (front s : Bytes)
    → IsFragment m front
    → IsFragment n s
    → IsFragment (m + n) (front ++ codes "(" ++ s ++ codes ")")
parenthesised {m} {n} front s f g =
    let opened = IsFragment-append front (codes "(") f opening in
    let filled = IsFragment-append (front ++ codes "(") s opened g in
    recount (IsFragment-append (front ++ codes "(" ++ s) (codes ")") filled closing) (omega arith)

pub IsFragment-join :
    {m n : ℕ} (sep acc part : Bytes)
    → IsFragment 0 sep
    → IsFragment m acc
    → IsFragment n part
    → IsFragment (m + n) (join sep acc part)
IsFragment-join {m} {n} sep [] part s a p = parenthesised [] part a p
IsFragment-join {m} {n} sep (c ∷ acc) part s a p =
    let front : IsFragment m (c ∷ (acc ++ sep)) =
      recount (IsFragment-append (c ∷ acc) sep a s) (omega arith) in
    parenthesised (c ∷ (acc ++ sep)) part front p

joined_cases :
    (ps qs : List Value) (text : Option Bytes)
    → IsTranslation 0 ps (record { fragment = text; params = qs })
    → IsTranslation 0 ps (joined (length ps) (record { fragment = text; params = qs }))
joined_cases ps qs none t = IsTranslation-rolled_back 0 ps t.new qs t.pushed
joined_cases ps qs (some []) t = record { new = t.new; pushed = t.pushed; counts = tt }
joined_cases ps qs (some (c ∷ s)) t = record { new = t.new; pushed = t.pushed; counts = t.counts }

pub IsTranslation-joined :
    (ps : List Value) (r : Outcome)
    → IsTranslation 0 ps r
    → IsTranslation 0 ps (joined (length ps) r)
IsTranslation-joined ps r t = joined_cases ps r.params r.fragment t
