-- ===== src/Query/Whole/Lists.antt =====
-- The IN-lists of src/firebird_query.cpp: every value is in the text; and what a text that is
-- written lets one conclude.
use duckdb_firebird.Common.{
  ℕ, ◌≡◌, refl, Bool, true, false, Option, none, some, List, [], ◌∷◌, ◌++◌, append-nil,
  append_assoc, Bytes, codes, length, is_empty, if◌then◌else◌, if-intro, ap, ◌∙◌, sym, subst,
}
use duckdb_firebird.Duck.{Value, Duckdb}
use duckdb_firebird.Query.Values.{Outcome, rolled_back, in_value, in_values, in_list}
use duckdb_firebird.Query.Expressions.{refused, written, joined}
use duckdb_firebird.Query.Whole.{Listed, no_value, next_value, with_commas, list_text}

-- What holds of the text and the parameters, if a text is written.
abbrev pub Whenever : (Bytes → List Value → Type 0) → Outcome → Type 0
Whenever P o = elim o.fragment [ none ↦ Unit | some text ↦ P text o.params ]

pub Whenever-written :
    (P : Bytes → List Value → Type 0) (o : Outcome)
    → ((text : Bytes) (qs : List Value) → o ≡ written text qs → P text qs)
    → Whenever P o
Whenever-written P o k = cases o.fragment o.params (λ text qs e. k text qs e)
  where
    cases :
        (fragment : Option Bytes) (params : List Value)
        → ((text : Bytes) (qs : List Value)
            → record { fragment = fragment; params = params } ≡ written text qs
            → P text qs)
        → Whenever P (record { fragment = fragment; params = params })
    cases none params k = tt
    cases (some text) params k = k text params refl

pub Whenever-joined :
    (P : Bytes → List Value → Type 0) (saved : ℕ) (o : Outcome)
    → Whenever P o
    → Whenever P (joined saved o)
Whenever-joined P saved o w = cases o.fragment o.params w
  where
    cases :
        (fragment : Option Bytes) (params : List Value)
        → Whenever P (record { fragment = fragment; params = params })
        → Whenever P (joined saved (record { fragment = fragment; params = params }))
    cases none params w = tt
    cases (some text) params w = if-intro (Whenever P) (is_empty text) (λ p. tt) (λ p. w)

pub Whenever-map :
    (P Q : Bytes → List Value → Type 0) (o : Outcome)
    → ((text : Bytes) (qs : List Value) → P text qs → Q text qs)
    → Whenever P o
    → Whenever Q o
Whenever-map P Q o k w = cases o.fragment o.params w
  where
    cases :
        (fragment : Option Bytes) (params : List Value)
        → Whenever P (record { fragment = fragment; params = params })
        → Whenever Q (record { fragment = fragment; params = params })
    cases none params w = tt
    cases (some text) params w = k text params w

-- One turn of the loop: with the text of the child and the rest of the loop.
pub Whenever-turn :
    (P Q : Bytes → List Value → Type 0) (o : Outcome) (rest : Bytes → List Value → Outcome)
    → Whenever P o
    → ((part : Bytes) (qs : List Value) → P part qs → Whenever Q (rest part qs))
    → Whenever Q (elim o.fragment [ none ↦ refused o.params | some part ↦ rest part o.params ])
Whenever-turn P Q o rest w k = cases o.fragment o.params w
  where
    cases :
        (fragment : Option Bytes) (params : List Value)
        → Whenever P (record { fragment = fragment; params = params })
        → Whenever Q (elim fragment [ none ↦ refused params | some part ↦ rest part params ])
    cases none params w = tt
    cases (some part) params w = k part params w

-- The text that the loop over the values makes of the items.
abbrev items_from : Bool → Bytes → List Bytes → Bytes
items_from first acc [] = acc
items_from first acc (item ∷ items) =
    items_from false ((acc ++ (if first then [] else codes ", ")) ++ item) items

items_from-with_commas :
    (acc : Bytes) (items : List Bytes) → items_from false acc items ≡ acc ++ with_commas items
items_from-with_commas acc [] = sym (append-nil acc)
items_from-with_commas acc (item ∷ items) =
    let more : ((acc ++ codes ", ") ++ item) ++ with_commas items
        ≡ acc ++ with_commas (item ∷ items) =
      simp (append_assoc) in
    items_from-with_commas ((acc ++ codes ", ") ++ item) items ∙ more

items_from-list_text :
    (column item : Bytes) (items : List Bytes)
    → items_from true (column ++ codes " IN (") (item ∷ items) ++ codes ")"
      ≡ list_text column (item ∷ items)
items_from-list_text column item items =
    let opened = column ++ codes " IN (" in
    let all : items_from true opened (item ∷ items) ≡ (opened ++ item) ++ with_commas items =
      items_from-with_commas ((opened ++ []) ++ item) items
      ∙ ap (λ l. (l ++ item) ++ with_commas items) (append-nil opened) in
    ap (λ l. l ++ codes ")") all

-- The loop over the values, with `acc` before them.
record Listing (db : Duckdb) (first : Bool) (acc : Bytes) (vs ps : List Value) (text : Bytes)
    (qs : List Value) : Type 0 where
  items : List Bytes
  listed : Listed db vs ps items qs
  shape : text ≡ items_from first acc items

values_listed :
    (db : Duckdb) (first : Bool) (acc : Bytes) (vs ps : List Value)
    → Whenever (Listing db first acc vs ps) (in_values db first vs acc ps)
unfolding in_values
values_listed db first acc [] ps = record { items = []; listed = no_value; shape = refl }
values_listed db first acc (v ∷ vs) ps =
    let sep = if first then [] else codes ", " in
    Whenever-turn (λ item qs. in_value db v ps ≡ written item qs) (Listing db first acc (v ∷ vs) ps)
      (in_value db v ps) (λ item qs. in_values db false vs ((acc ++ sep) ++ item) qs)
      (Whenever-written (λ item qs. in_value db v ps ≡ written item qs) (in_value db v ps)
        (λ item qs e. e))
      (λ item qs e.
        Whenever-map (Listing db false ((acc ++ sep) ++ item) vs qs)
          (Listing db first acc (v ∷ vs) ps) (in_values db false vs ((acc ++ sep) ++ item) qs)
          (λ text rs l. record {
            items = item ∷ l.items;
            listed = next_value e l.listed;
            shape = l.shape;
          })
          (values_listed db false ((acc ++ sep) ++ item) vs qs))

-- The closing parenthesis.
Whenever-closed :
    (P Q : Bytes → List Value → Type 0) (saved : ℕ) (o : Outcome)
    → ((text : Bytes) (qs : List Value) → P text qs → Q (text ++ codes ")") qs)
    → Whenever P o
    → Whenever Q (elim o.fragment [
      | none ↦ rolled_back saved o.params
      | some acc ↦ record { fragment = some (acc ++ codes ")"); params = o.params }
    ])
Whenever-closed P Q saved o k w = cases o.fragment o.params w
  where
    cases :
        (fragment : Option Bytes) (params : List Value)
        → Whenever P (record { fragment = fragment; params = params })
        → Whenever Q (elim fragment [
          | none ↦ rolled_back saved params
          | some acc ↦ record { fragment = some (acc ++ codes ")"); params = params }
        ])
    cases none params w = tt
    cases (some text) params w = k text params w

-- A text that is written for a list has every value of it.
pub every-Listed :
    (db : Duckdb) (column : Bytes) (v : Value) (vs ps : List Value)
    (Q : Bytes → List Value → Type 0)
    → ((items : List Bytes) (qs : List Value)
        → Listed db (v ∷ vs) ps items qs
        → Q (list_text column items) qs)
    → Whenever Q (in_list db column (v ∷ vs) ps)
unfolding in_list
every-Listed db column v vs ps Q make =
    Whenever-closed (Listing db true (column ++ codes " IN (") (v ∷ vs) ps) Q (length ps)
      (in_values db true (v ∷ vs) (column ++ codes " IN (") ps)
      (λ text qs l. closed text qs l.items l.listed l.shape)
      (values_listed db true (column ++ codes " IN (") (v ∷ vs) ps)
  where
    closed :
        (text : Bytes) (qs : List Value) (items : List Bytes)
        → Listed db (v ∷ vs) ps items qs
        → text ≡ items_from true (column ++ codes " IN (") items
        → Q (text ++ codes ")") qs
    closed text qs [] l shape = elim l [ ]
    closed text qs (item ∷ items) l shape =
        subst (λ t. Q t qs)
          (sym (ap (λ t. t ++ codes ")") shape ∙ items_from-list_text column item items))
          (make (item ∷ items) qs l)
