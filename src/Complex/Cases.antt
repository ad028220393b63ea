-- ===== src/Complex/Cases.antt =====
-- The cases of `FirebirdScanPushdownComplexFilter` of src/firebird_scanner.cpp: what is known of a
-- filter where each of its predicates is pushed.
use duckdb_firebird.Common.{
  ℕ, ◌≡◌, refl, sym, subst, Bool, true, false, some, List, Bytes, get_elem?, inl, inr, Bool-cases,
  Option-cases,
}
use duckdb_firebird.Duck.{Value, Expression}
use duckdb_firebird.Firebird.{FirebirdColumnDesc}
use duckdb_firebird.Complex.Matchers.{
  try_extract_like_prefix, try_extract_not_in, try_extract_not_bool_column,
}
use duckdb_firebird.Complex.Columns.{
  BoundColumns, none_pushdown_active, is_none_char_varchar_column, resolve_src_col,
  is_none_text_gated, is_decfloat,
}
use duckdb_firebird.Complex.Pushdown.{
  ExtraPredicate, Verdict, unmatched, kept, pushed, or_else, like_predicate, like_block, encode_all,
  values_predicate, match_values, push_values, values_block, not_in_predicate, not_in_block,
  not_predicate, not_block, verdict,
}

-- What has been tested of the column and the literals of `=` or IN when they are pushed.
pub record IsEncodable (bind : BoundColumns) (src : ℕ) (values encoded : List Bytes) : Type 0 where
  pub desc : FirebirdColumnDesc
  pub active : none_pushdown_active bind ≡ true
  pub found : get_elem? bind.column_descs src ≡ some desc
  pub is_text : is_none_char_varchar_column desc ≡ true
  pub encodes : encode_all bind.none_encoding values ≡ some encoded

-- A verdict on literals: if it is to push, all of them have been re-encoded.
abbrev pub Encoded : BoundColumns → Bool → ℕ → List Bytes → Verdict → Type 0
Encoded bind is_in src literals (pushed p) =
    (encoded : List Bytes) × IsEncodable bind src literals encoded
    × (p ≡ values_predicate bind is_in src encoded)
Encoded bind is_in src literals (kept reason) = Unit
Encoded bind is_in src literals unmatched = Unit

pub push_values-Encoded :
    (bind : BoundColumns) (is_in : Bool) (src : ℕ) (literals : List Bytes)
    → Encoded bind is_in src literals (push_values bind is_in src literals)
unfolding push_values
push_values-Encoded bind is_in src literals = elim (Bool-cases (none_pushdown_active bind)) [
  | inr a ↦ rw (push_values, a) tt
  | inl a ↦ elim (Option-cases (get_elem? bind.column_descs src)) [
    | inl d ↦ rw (push_values, a, d) tt
    | inr (desc, d) ↦ elim (Bool-cases (is_none_char_varchar_column desc)) [
      | inr c ↦ elim (Bool-cases (is_none_text_gated bind src)) [
        | inl g ↦ rw (push_values, a, d, c, g) tt
        | inr g ↦ rw (push_values, a, d, c, g) tt
      ]
      | inl c ↦ elim (Option-cases (encode_all bind.none_encoding literals)) [
        | inl x ↦ rw (push_values, a, d, c, x) tt
        | inr (encoded, x) ↦
            let tests : IsEncodable bind src literals encoded = record {
              desc = desc;
              active = a;
              found = d;
              is_text = c;
              encodes = x;
            } in
            rw (push_values, a, d, c, x) (encoded, tests, refl)
      ]
    ]
  ]
]

-- The four ways to push a filter, with the tests that it has passed.
pub data Push (bind : BoundColumns) (col_ids : List ℕ) (e : Expression)
    : ExtraPredicate → Type 0 where
  like :
      (projected src : ℕ) (pattern : Bytes)
      → try_extract_like_prefix e ≡ some (projected, pattern)
      → resolve_src_col bind col_ids projected ≡ some src
      → is_none_text_gated bind src ≡ false
      → Push bind col_ids e (like_predicate bind src pattern)
  values :
      (is_in : Bool) (projected src : ℕ) (literals encoded : List Bytes)
      → match_values e ≡ some (is_in, projected, literals)
      → resolve_src_col bind col_ids projected ≡ some src
      → IsEncodable bind src literals encoded
      → Push bind col_ids e (values_predicate bind is_in src encoded)
  not_in :
      (projected src : ℕ) (constants : List Value)
      → try_extract_not_in e ≡ some (projected, constants)
      → resolve_src_col bind col_ids projected ≡ some src
      → is_none_text_gated bind src ≡ false
      → Push bind col_ids e (not_in_predicate bind src constants)
  negation :
      (projected src : ℕ)
      → try_extract_not_bool_column e ≡ some projected
      → resolve_src_col bind col_ids projected ≡ some src
      → is_decfloat bind src ≡ false
      → Push bind col_ids e (not_predicate bind src)

module _ (bind : BoundColumns) (col_ids : List ℕ) (e : Expression) where
  -- A verdict with its grounds, if it is to push.
  abbrev pub Grounded : Verdict → Type 0
  Grounded (pushed p) = Push bind col_ids e p
  Grounded (kept reason) = Unit
  Grounded unmatched = Unit

  or_else-Grounded : (v w : Verdict) → Grounded v → Grounded w → Grounded (or_else v w)
  or_else-Grounded unmatched w f g = g
  or_else-Grounded (kept reason) w f g = f
  or_else-Grounded (pushed p) w f g = f

  like_block-Grounded : Grounded (like_block bind col_ids e)
  unfolding like_block
  like_block-Grounded = elim (Option-cases (try_extract_like_prefix e)) [
    | inl m ↦ rw (like_block, m) tt
    | inr ((projected, pattern), m) ↦ elim (Option-cases (resolve_src_col bind col_ids projected)) [
      | inl r ↦ rw (like_block, m, r) tt
      | inr (src, r) ↦ elim (Bool-cases (is_none_text_gated bind src)) [
        | inl g ↦ rw (like_block, m, r, g) tt
        | inr g ↦ rw (like_block, m, r, g) (like projected src pattern m r g)
      ]
    ]
  ]

  not_in_block-Grounded : Grounded (not_in_block bind col_ids e)
  unfolding not_in_block
  not_in_block-Grounded = elim (Option-cases (try_extract_not_in e)) [
    | inl m ↦ rw (not_in_block, m) tt
    | inr ((projected, constants), m) ↦
        elim (Option-cases (resolve_src_col bind col_ids projected)) [
          | inl r ↦ rw (not_in_block, m, r) tt
          | inr (src, r) ↦ elim (Bool-cases (is_none_text_gated bind src)) [
            | inl g ↦ rw (not_in_block, m, r, g) tt
            | inr g ↦ rw (not_in_block, m, r, g) (not_in projected src constants m r g)
          ]
        ]
  ]

  not_block-Grounded : Grounded (not_block bind col_ids e)
  unfolding not_block
  not_block-Grounded = elim (Option-cases (try_extract_not_bool_column e)) [
    | inl m ↦ rw (not_block, m) tt
    | inr (projected, m) ↦ elim (Option-cases (resolve_src_col bind col_ids projected)) [
      | inl r ↦ rw (not_block, m, r) tt
      | inr (src, r) ↦ elim (Bool-cases (is_decfloat bind src)) [
        | inl d ↦ rw (not_block, m, r, d) tt
        | inr d ↦ rw (not_block, m, r, d) (negation projected src m r d)
      ]
    ]
  ]

  values-Grounded :
      (is_in : Bool) (projected src : ℕ) (literals : List Bytes)
      → match_values e ≡ some (is_in, projected, literals)
      → resolve_src_col bind col_ids projected ≡ some src
      → (v : Verdict) → Encoded bind is_in src literals v
      → Grounded v
  values-Grounded is_in projected src literals m r unmatched h = tt
  values-Grounded is_in projected src literals m r (kept reason) h = tt
  values-Grounded is_in projected src literals m r (pushed p) (encoded, h, q) =
      subst (Push bind col_ids e) (sym q) (values is_in projected src literals encoded m r h)

  values_block-Grounded : Grounded (values_block bind col_ids e)
  unfolding values_block
  values_block-Grounded = elim (Option-cases (match_values e)) [
    | inl m ↦ rw (values_block, m) tt
    | inr ((is_in, projected, literals), m) ↦
        elim (Option-cases (resolve_src_col bind col_ids projected)) [
          | inl r ↦ rw (values_block, m, r) tt
          | inr (src, r) ↦
              rw (values_block, m, r)
                (values-Grounded is_in projected src literals m r
                  (push_values bind is_in src literals)
                  (push_values-Encoded bind is_in src literals))
        ]
  ]

-- A filter is erased only by one of the four blocks, which has found its shape, resolved its column,
-- and made its tests: no gate on the column of a LIKE or a NOT IN, the opt-in, a CHAR or VARCHAR of
-- CHARACTER SET NONE and re-encoded literals for `=` and IN, no DECFLOAT for NOT.
pub verdict-Grounded :
    (bind : BoundColumns) (col_ids : List ℕ) (e : Expression)
    → Grounded bind col_ids e (verdict bind col_ids e)
unfolding verdict
verdict-Grounded bind col_ids e =
    let negations = or_else (not_in_block bind col_ids e) (not_block bind col_ids e) in
    or_else-Grounded bind col_ids e (like_block bind col_ids e)
      (or_else (values_block bind col_ids e) negations) (like_block-Grounded bind col_ids e)
      (or_else-Grounded bind col_ids e (values_block bind col_ids e) negations
        (values_block-Grounded bind col_ids e)
        (or_else-Grounded bind col_ids e (not_in_block bind col_ids e) (not_block bind col_ids e)
          (not_in_block-Grounded bind col_ids e) (not_block-Grounded bind col_ids e)))
