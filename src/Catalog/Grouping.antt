-- ===== src/Catalog/Grouping.antt =====
-- The constraints that the loops of src/firebird_storage.cpp build from rows in the order of their
-- relations and constraints.
use duckdb_firebird.Common.{
  ◌≡◌, refl, sym, ap, subst, ◌∙◌, Bool, true, false, not, ◌&&◌, ◌||◌, List, [], ◌∷◌, ◌++◌,
  append_assoc, append-nil, Bytes, str_eq, All, if-true, if◌then◌else◌, Bool-cases, inl, inr,
}
use duckdb_firebird.Catalog.{
  Grouper, Loop, start, at_key, change_last, open_constraint, extend_active, group_row, group_rows,
  unique_keys, load_unique_constraints, foreign_keys, load_foreign_keys,
}

module _ {R A : Type 0} (s : Grouper R A) where
  -- A row of the named constraint.
  abbrev pub IsOf : Bytes → Bytes → R → Type 0
  IsOf rel con r = (str_eq rel (s.relation r) ≡ true) × (str_eq con (s.constraint r) ≡ true)

  -- The rows of one constraint: the first, and the others.
  pub record Rows : Type 0 where
    pub first : R
    pub others : List R
    pub named : IsOf (s.relation first) (s.constraint first) first
    pub together : All (IsOf (s.relation first) (s.constraint first)) others

  abbrev pub rows_of : List Rows → List R
  rows_of [] = []
  rows_of (b ∷ bs) = (b.first ∷ b.others) ++ rows_of bs

  -- The neighbours differ in the relation or the constraint, the first one from the names given.
  abbrev pub IsGroupedAfter : Bytes → Bytes → List Rows → Type 0
  IsGroupedAfter rel con [] = Unit
  IsGroupedAfter rel con (b ∷ bs) =
      ((str_eq rel (s.relation b.first) && str_eq con (s.constraint b.first)) ≡ false)
      × IsGroupedAfter (s.relation b.first) (s.constraint b.first) bs

  abbrev pub extended_all : List R → A → A
  extended_all [] a = a
  extended_all (r ∷ rs) a = extended_all rs (s.extended r a)

  abbrev pub constraint_of : Rows → A
  constraint_of b = extended_all (b.first ∷ b.others) (s.opened b.first)

  -- The constraints of one relation, in order.
  abbrev pub constraints_of : Bytes → List Rows → List A
  constraints_of k [] = []
  constraints_of k (b ∷ bs) =
      let rest = constraints_of k bs in
      if str_eq (s.relation b.first) k then constraint_of b ∷ rest else rest

  change_last-append :
      (f : A → A) (l : List A) (a : A) → change_last f (l ++ a ∷ []) ≡ l ++ f a ∷ []
  change_last-append f [] a = refl
  change_last-append f (x ∷ []) a = refl
  change_last-append f (x ∷ y ∷ l) a = ap (λ l'. x ∷ l') (change_last-append f (y ∷ l) a)

  group_rows-append :
      (xs ys : List R) (g : Loop A)
      → group_rows s (xs ++ ys) g ≡ group_rows s ys (group_rows s xs g)
  unfolding group_rows
  group_rows-append [] ys g = refl
  group_rows-append (x ∷ xs) ys g = group_rows-append xs ys (group_row s x g)

  -- The state in a constraint that is active.
  record IsIn (rel con : Bytes) (g : Loop A) : Type 0 where
    pub of_rel : g.cur_rel ≡ rel
    pub of_con : g.cur_con ≡ con
    pub is_active : g.active ≡ true

  open_constraint-same :
      (rel con : Bytes) (r : R) (g : Loop A)
      → IsIn rel con g
      → IsOf rel con r
      → open_constraint s r g ≡ g
  unfolding open_constraint
  open_constraint-same rel con r g i h = elim (Bool-cases s.asks_active) [
    | inl p ↦ rw (i.of_rel, i.of_con, i.is_active, h.0, h.1, p) refl
    | inr p ↦ rw (i.of_rel, i.of_con, i.is_active, h.0, h.1, p) refl
  ]

  -- The state that a new constraint leaves.
  abbrev pushed : R → Loop A → Loop A
  pushed r g = record {
    out = at_key (s.relation r) (λ l. l ++ s.opened r ∷ []) g.out;
    cur_rel = s.relation r;
    cur_con = s.constraint r;
    active = true;
  }

  open_constraint-new :
      (r : R) (g : Loop A)
      → (str_eq g.cur_rel (s.relation r) && str_eq g.cur_con (s.constraint r)) ≡ false
      → open_constraint s r g ≡ pushed r g
  unfolding open_constraint
  open_constraint-new r g h = if-true (pushed r g) g (
      by_tests (s.asks_active && not g.active) (str_eq g.cur_rel (s.relation r))
        (str_eq g.cur_con (s.constraint r)) h)
    where
      by_tests : (a b c : Bool) → (b && c) ≡ false → (a || not b || not c) ≡ true
      by_tests true b c h = refl
      by_tests false true true h = cc
      by_tests false true false h = refl
      by_tests false false c h = refl

  group_row-same :
      (rel con : Bytes) (r : R) (g : Loop A)
      → IsIn rel con g
      → IsOf rel con r
      → group_row s r g ≡ extend_active s r g
  unfolding group_row
  group_row-same rel con r g i h = ap (extend_active s r) (open_constraint-same rel con r g i h)

  extend_active-IsIn :
      (rel con : Bytes) (r : R) (g : Loop A) → IsIn rel con g → IsIn rel con (extend_active s r g)
  unfolding extend_active
  extend_active-IsIn rel con r g i = record {
    of_rel = i.of_rel;
    of_con = i.of_con;
    is_active = i.is_active;
  }

  -- Rows of the active constraint stay in it, go into its last place, and change no other relation.
  group_rows-IsIn :
      (rel con : Bytes) (rs : List R) (g : Loop A)
      → IsIn rel con g
      → All (IsOf rel con) rs
      → IsIn rel con (group_rows s rs g)
  unfolding group_rows
  group_rows-IsIn rel con [] g i h = i
  group_rows-IsIn rel con (r ∷ rs) g i h =
      subst (λ g'. IsIn rel con (group_rows s rs g')) (sym (group_row-same rel con r g i h.0))
        (group_rows-IsIn rel con rs (extend_active s r g) (extend_active-IsIn rel con r g i) h.1)

  group_rows-last :
      (rel con k : Bytes) (rs : List R) (g : Loop A) (l : List A) (a : A)
      → IsIn rel con g
      → All (IsOf rel con) rs
      → str_eq rel k ≡ true
      → g.out k ≡ l ++ a ∷ []
      → (group_rows s rs g).out k ≡ l ++ extended_all rs a ∷ []
  unfolding group_rows extend_active
  group_rows-last rel con k [] g l a i h e o = o
  group_rows-last rel con k (r ∷ rs) g l a i h e o =
      let here : str_eq g.cur_rel k ≡ true = ap (λ n. str_eq n k) i.of_rel ∙ e in
      ap (λ g'. (group_rows s rs g').out k) (group_row-same rel con r g i h.0)
      ∙ group_rows-last rel con k rs (extend_active s r g) l (s.extended r a)
          (extend_active-IsIn rel con r g i) h.1 e
          (if-true (change_last (s.extended r) (g.out k)) (g.out k) here
            ∙ ap (change_last (s.extended r)) o
            ∙ change_last-append (s.extended r) l a)

  group_rows-else :
      (rel con k : Bytes) (rs : List R) (g : Loop A)
      → IsIn rel con g
      → All (IsOf rel con) rs
      → str_eq rel k ≡ false
      → (group_rows s rs g).out k ≡ g.out k
  unfolding group_rows extend_active
  group_rows-else rel con k [] g i h e = refl
  group_rows-else rel con k (r ∷ rs) g i h e =
      let here : str_eq g.cur_rel k ≡ false = ap (λ n. str_eq n k) i.of_rel ∙ e in
      let same : (extend_active s r g).out k ≡ g.out k = rw here refl in
      ap (λ g'. (group_rows s rs g').out k) (group_row-same rel con r g i h.0)
      ∙ group_rows-else rel con k rs (extend_active s r g) (extend_active-IsIn rel con r g i) h.1 e
      ∙ same

  pushed-IsIn : (r : R) (g : Loop A) → IsIn (s.relation r) (s.constraint r) (pushed r g)
  pushed-IsIn r g = record { of_rel = refl; of_con = refl; is_active = refl }

  -- The rows of a new constraint, from the state that it leaves.
  group_rows-pushed :
      (b : Rows) (g : Loop A)
      → (str_eq g.cur_rel (s.relation b.first) && str_eq g.cur_con (s.constraint b.first)) ≡ false
      → group_rows s (b.first ∷ b.others) g ≡ group_rows s (b.first ∷ b.others) (pushed b.first g)
  unfolding group_rows group_row
  group_rows-pushed b g h =
      ap (λ g'. group_rows s b.others (extend_active s b.first g'))
        (open_constraint-new b.first g h
          ∙ sym (
              open_constraint-same (s.relation b.first) (s.constraint b.first) b.first
                (pushed b.first g) (pushed-IsIn b.first g) b.named))

  -- What a new constraint does to the list of a relation.
  abbrev then_constraint : Bytes → Rows → List A → List A
  then_constraint k b l = if str_eq (s.relation b.first) k then l ++ constraint_of b ∷ [] else l

  out_after :
      (k : Bytes) (b : Rows) (g : Loop A)
      → (group_rows s (b.first ∷ b.others) (pushed b.first g)).out k ≡ then_constraint k b (g.out k)
  out_after k b g =
      let rel = s.relation b.first in
      let con = s.constraint b.first in
      elim (Bool-cases (str_eq rel k)) [
        | inl p ↦
            group_rows-last rel con k (b.first ∷ b.others) (pushed b.first g) (g.out k)
              (s.opened b.first) (pushed-IsIn b.first g) (b.named, b.together) p
              (if-true (g.out k ++ s.opened b.first ∷ []) (g.out k) p)
            ∙ sym (if-true (g.out k ++ constraint_of b ∷ []) (g.out k) p)
        | inr p ↦
            let same : (pushed b.first g).out k ≡ g.out k = rw p refl in
            let unchanged : then_constraint k b (g.out k) ≡ g.out k = rw p refl in
            group_rows-else rel con k (b.first ∷ b.others) (pushed b.first g)
              (pushed-IsIn b.first g) (b.named, b.together) p
            ∙ same
            ∙ sym unchanged
      ]

  then_constraints :
      (k : Bytes) (b : Rows) (bs : List Rows) (l : List A)
      → then_constraint k b l ++ constraints_of k bs ≡ l ++ constraints_of k (b ∷ bs)
  then_constraints k b bs l = elim (Bool-cases (str_eq (s.relation b.first) k)) [
    | inl p ↦ rw p (append_assoc l (constraint_of b ∷ []) (constraints_of k bs))
    | inr p ↦ rw p refl
  ]

  group_rows-each :
      (k : Bytes) (bs : List Rows) (g : Loop A)
      → IsGroupedAfter g.cur_rel g.cur_con bs
      → (group_rows s (rows_of bs) g).out k ≡ g.out k ++ constraints_of k bs
  unfolding group_rows
  group_rows-each k [] g h = sym (append-nil (g.out k))
  group_rows-each k (b ∷ bs) g h =
      let rel = s.relation b.first in
      let con = s.constraint b.first in
      let g' = group_rows s (b.first ∷ b.others) (pushed b.first g) in
      let i =
        group_rows-IsIn rel con (b.first ∷ b.others) (pushed b.first g) (pushed-IsIn b.first g)
          (b.named, b.together) in
      let h' : IsGroupedAfter g'.cur_rel g'.cur_con bs =
        subst (λ n. IsGroupedAfter n g'.cur_con bs) (sym i.of_rel)
          (subst (λ n. IsGroupedAfter rel n bs) (sym i.of_con) h.1) in
      ap (λ x. x.out k) (group_rows-append (b.first ∷ b.others) (rows_of bs) g)
      ∙ ap (λ x. (group_rows s (rows_of bs) x).out k) (group_rows-pushed b g h.0)
      ∙ group_rows-each k bs g' h'
      ∙ ap (λ l. l ++ constraints_of k bs) (out_after k b g)
      ∙ then_constraints k b bs (g.out k)

-- If the rows of each query come constraint by constraint, the first one not nameless, then each
-- relation gets exactly its constraints, in order, each with the columns of its rows.
pub load_constraints-each :
    (keys : List (Rows unique_keys)) (fkeys : List (Rows foreign_keys)) (rel : Bytes)
    → IsGroupedAfter unique_keys [] [] keys
    → IsGroupedAfter foreign_keys [] [] fkeys
    → (load_unique_constraints (rows_of unique_keys keys) rel ≡ constraints_of unique_keys rel keys)
      × (load_foreign_keys (rows_of foreign_keys fkeys) rel ≡ constraints_of foreign_keys rel fkeys)
unfolding load_unique_constraints load_foreign_keys
load_constraints-each keys fkeys rel hk hf =
    (group_rows-each unique_keys rel keys start hk, group_rows-each foreign_keys rel fkeys start hf)
