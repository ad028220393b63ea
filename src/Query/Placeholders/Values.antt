-- ===== src/Query/Placeholders/Values.antt =====
-- The placeholders of a comparison and of an IN-list.
use duckdb_firebird.Common.{
  ℕ, ◌+◌, ◌≡◌, refl, Bool, true, false, Option, none, some, List, [], ◌∷◌, ◌++◌, Bytes, codes,
  length, if◌then◌else◌, if-intro, arith, sym, append-nil,
}
use duckdb_firebird.Duck.{
  Value, Duckdb, ExpressionType, compare_equal, compare_notequal, compare_lessthan,
  compare_greaterthan, compare_lessthanorequalto, compare_greaterthanorequalto,
}
use duckdb_firebird.Sql.Lexer.{IsFragment, lex, marks}
use duckdb_firebird.Sql.Fragment.{IsFragment-append, IsFragment-plain}
use duckdb_firebird.Query.Values.{
  is_bindable_type, is_inline_type, safe_literal_inline, comparison_to_sql, compare_with, in_value,
  in_values, in_list, rolled_back,
}
use duckdb_firebird.Query.Placeholders.{
  IsPrinter, Counts, IsTranslation, IsTranslation-refused, IsTranslation-written,
  IsTranslation-bound, IsTranslation-after, IsTranslation-rolled_back, recount,
}

pub space : IsFragment 0 (codes " ")
unfolding lex marks
space = record { closed = refl; counted = refl }

placeholder : IsFragment 1 (codes " ?")
unfolding lex marks
placeholder = record { closed = refl; counted = refl }

null_text : IsFragment 0 (codes "NULL")
unfolding lex marks
null_text = record { closed = refl; counted = refl }

-- An inline literal has no placeholder.
pub safe_literal_inline-Counts :
    (db : Duckdb) → IsPrinter db → (v : Value) → Counts (safe_literal_inline db v) 0
unfolding safe_literal_inline
safe_literal_inline-Counts db h v =
    if-intro (λ o. Counts o 0) v.is_null (λ p. null_text)
      (λ p.
        if-intro (λ o. Counts o 0) (is_inline_type v.type)
          (λ q. IsFragment-plain (db.to_string v) (h.plain v q)) (λ q. tt))

pub comparison_to_sql-Counts : (type : ExpressionType) → Counts (comparison_to_sql type) 0
unfolding comparison_to_sql lex marks
comparison_to_sql-Counts compare_equal = record { closed = refl; counted = refl }
comparison_to_sql-Counts compare_notequal = record { closed = refl; counted = refl }
comparison_to_sql-Counts compare_lessthan = record { closed = refl; counted = refl }
comparison_to_sql-Counts compare_greaterthan = record { closed = refl; counted = refl }
comparison_to_sql-Counts compare_lessthanorequalto = record { closed = refl; counted = refl }
comparison_to_sql-Counts compare_greaterthanorequalto = record { closed = refl; counted = refl }
comparison_to_sql-Counts ExpressionType.compare_in = tt
comparison_to_sql-Counts ExpressionType.compare_not_in = tt
comparison_to_sql-Counts ExpressionType.operator_not = tt
comparison_to_sql-Counts ExpressionType.operator_is_null = tt
comparison_to_sql-Counts ExpressionType.operator_is_not_null = tt
comparison_to_sql-Counts ExpressionType.conjunction_and = tt
comparison_to_sql-Counts ExpressionType.conjunction_or = tt
comparison_to_sql-Counts ExpressionType.other = tt

-- Column, operator and operand, with the blanks between them.
comparison_text :
    {n : ℕ} (column op operand : Bytes)
    → IsFragment 0 column
    → IsFragment 0 op
    → IsFragment n operand
    → IsFragment n (column ++ codes " " ++ op ++ operand)
comparison_text {n} column op operand c o f =
    let spaced = IsFragment-append column (codes " ") c space in
    let left = IsFragment-append (column ++ codes " ") op spaced o in
    recount (IsFragment-append (column ++ codes " " ++ op) operand left f) (omega arith)

inline_comparison :
    (column op : Bytes) (r : Option Bytes) (ps : List Value)
    → IsFragment 0 column
    → IsFragment 0 op
    → Counts r 0
    → IsTranslation 0 ps (elim r [
      | none ↦ record { fragment = none; params = ps }
      | some lit ↦ record {
        fragment = some (column ++ codes " " ++ op ++ codes " " ++ lit);
        params = ps;
      }
    ])
inline_comparison column op none ps c o t = IsTranslation-refused 0 ps
inline_comparison column op (some lit) ps c o t =
    let left = comparison_text column op (codes " ") c o space in
    IsTranslation-written 0 (column ++ codes " " ++ op ++ codes " " ++ lit) ps
      (IsFragment-append (column ++ codes " " ++ op ++ codes " ") lit left t)

pub IsTranslation-compare_with :
    (db : Duckdb)
    → IsPrinter db
    → (column op : Bytes) (v : Value) (ps : List Value) → IsFragment 0 column
    → IsFragment 0 op
    → IsTranslation 0 ps (compare_with db column op v ps)
unfolding compare_with
IsTranslation-compare_with db h column op v ps c o =
    if-intro (IsTranslation 0 ps) (is_bindable_type v.type)
      (λ p.
        IsTranslation-bound 0 (column ++ codes " " ++ op ++ codes " ?") v ps
          (comparison_text column op (codes " ?") c o placeholder))
      (λ p.
        inline_comparison column op (safe_literal_inline db v) ps c o
          (safe_literal_inline-Counts db h v))

one_mark : IsFragment 1 (codes "?")
unfolding lex marks
one_mark = record { closed = refl; counted = refl }

comma : (first : Bool) → IsFragment 0 (if first then [] else codes ", ")
unfolding lex marks
comma true = record { closed = refl; counted = refl }
comma false = record { closed = refl; counted = refl }

IsTranslation-in_value :
    (db : Duckdb)
    → IsPrinter db
    → (v : Value) (ps : List Value) → IsTranslation 0 ps (in_value db v ps)
unfolding in_value
IsTranslation-in_value db h v ps =
    if-intro (IsTranslation 0 ps) (is_bindable_type v.type)
      (λ p. IsTranslation-bound 0 (codes "?") v ps one_mark)
      (λ p. record {
        new = [];
        pushed = sym (append-nil ps);
        counts = safe_literal_inline-Counts db h v;
      })

-- One turn of the loop, and the turns after it.
in_values_cases :
    (db : Duckdb) (vs : List Value) (m : ℕ) (acc : Bytes) (r : Option Bytes)
    (ps new qs : List Value)
    → qs ≡ ps ++ new
    → IsFragment m acc
    → Counts r (0 + length new)
    → ((k : ℕ) (text : Bytes)
        → IsFragment k text
        → IsTranslation k qs (in_values db false vs text qs))
    → IsTranslation m ps (elim r [
      | none ↦ record { fragment = none; params = qs }
      | some text ↦ in_values db false vs (acc ++ text) qs
    ])
in_values_cases db vs m acc none ps new qs p f t rest =
    IsTranslation-after m ps new qs (record { fragment = none; params = qs }) p
      (IsTranslation-refused (m + length new) qs)
in_values_cases db vs m acc (some text) ps new qs p f t rest =
    IsTranslation-after m ps new qs (in_values db false vs (acc ++ text) qs) p
      (rest (m + length new) (acc ++ text) (recount (IsFragment-append acc text f t) (omega arith)))

IsTranslation-in_values :
    (db : Duckdb)
    → IsPrinter db
    → (first : Bool) (vs : List Value) (m : ℕ) (acc : Bytes) (ps : List Value) → IsFragment m acc
    → IsTranslation m ps (in_values db first vs acc ps)
unfolding in_values
IsTranslation-in_values db h first [] m acc ps f = IsTranslation-written m acc ps f
IsTranslation-in_values db h first (v ∷ vs) m acc ps f =
    let one = IsTranslation-in_value db h v ps in
    let acc' = acc ++ (if first then [] else codes ", ") in
    in_values_cases db vs m acc' (in_value db v ps).fragment ps one.new (in_value db v ps).params
      one.pushed
      (recount (IsFragment-append acc (if first then [] else codes ", ") f (comma first))
        (omega arith))
      one.counts
      (λ k text g. IsTranslation-in_values db h false vs k text (in_value db v ps).params g)

never : IsFragment 0 (codes "(1=0)")
unfolding lex marks
never = record { closed = refl; counted = refl }

list_opening : IsFragment 0 (codes " IN (")
unfolding lex marks
list_opening = record { closed = refl; counted = refl }

list_closing : IsFragment 0 (codes ")")
unfolding lex marks
list_closing = record { closed = refl; counted = refl }

in_list_cases :
    (ps qs new : List Value) (r : Option Bytes)
    → qs ≡ ps ++ new
    → Counts r (0 + length new)
    → IsTranslation 0 ps (elim r [
      | none ↦ rolled_back (length ps) qs
      | some acc ↦ record { fragment = some (acc ++ codes ")"); params = qs }
    ])
in_list_cases ps qs new none p t = IsTranslation-rolled_back 0 ps new qs p
in_list_cases ps qs new (some acc) p t = record {
  new = new;
  pushed = p;
  counts = recount (IsFragment-append acc (codes ")") t list_closing) (omega arith);
}

pub IsTranslation-in_list :
    (db : Duckdb)
    → IsPrinter db
    → (column : Bytes) (vs ps : List Value) → IsFragment 0 column
    → IsTranslation 0 ps (in_list db column vs ps)
unfolding in_list
IsTranslation-in_list db h column [] ps c = IsTranslation-written 0 (codes "(1=0)") ps never
IsTranslation-in_list db h column (v ∷ vs) ps c =
    let opened = IsFragment-append column (codes " IN (") c list_opening in
    let r = in_values db true (v ∷ vs) (column ++ codes " IN (") ps in
    let t = IsTranslation-in_values db h true (v ∷ vs) 0 (column ++ codes " IN (") ps opened in
    in_list_cases ps r.params t.new r.fragment t.pushed t.counts
