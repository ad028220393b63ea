-- ===== src/Slice/Whole.antt =====
-- All the calls of `FirebirdScanFunction` (src/firebird_scanner.cpp) together.
use duckdb_firebird.Common.{
  ℕ, zero, suc, ◌+◌, ◌-◌, ◌≤◌, ◌<◌, ◌≡◌, refl, sym, ap, ◌∙◌, true, false, Bool-cases, inl, inr,
  Option, none, some, List, [], ◌∷◌, ◌++◌, length, take, drop, arith,
}
use duckdb_firebird.Slice.{LocalState, is_skipped, is_capped, scan_chunk, scanned}

-- The rows behind those that are still to be skipped.
abbrev pub behind {ℓ} : {A : Type ℓ} → Option ℕ → ℕ → List A → List A
behind none skipped rows = rows
behind (some n) skipped rows = drop (n - skipped) rows

-- At most as many rows as are still to be emitted.
abbrev pub at_most {ℓ} : {A : Type ℓ} → Option ℕ → ℕ → List A → List A
at_most none emitted rows = rows
at_most (some n) emitted rows = take (n - emitted) rows

module _ {ℓ} {A : Type ℓ} where
  skipped_row :
      (offset : Option ℕ) (s : ℕ) (r : A) (rows : List A)
      → is_skipped offset s ≡ true
      → behind offset s (r ∷ rows) ≡ behind offset (s + 1) rows
  skipped_row none s r rows h = cc
  skipped_row (some n) s r rows h = let k : n - s ≡ suc (n - (s + 1)) = ground arith in rw k

  kept_row :
      (offset : Option ℕ) (s : ℕ) (rows : List A)
      → is_skipped offset s ≡ false
      → behind offset s rows ≡ rows
  kept_row none s rows h = refl
  kept_row (some n) s rows h = let k : n - s ≡ 0 = ground arith in rw k

  behind-nil : (offset : Option ℕ) (s : ℕ) → behind {A = A} offset s [] ≡ []
  behind-nil none s = refl
  behind-nil (some n) s = drop_nil (n - s)
    where
      drop_nil : (k : ℕ) → drop {A = A} k [] ≡ []
      drop_nil zero = refl
      drop_nil (suc k) = refl

  at_most-nil : (limit : Option ℕ) (e : ℕ) → at_most {A = A} limit e [] ≡ []
  at_most-nil none e = refl
  at_most-nil (some n) e = take_nil (n - e)
    where
      take_nil : (k : ℕ) → take {A = A} k [] ≡ []
      take_nil zero = refl
      take_nil (suc k) = refl

  capped_row :
      (limit : Option ℕ) (e : ℕ) (rows : List A)
      → is_capped limit e ≡ true
      → at_most limit e rows ≡ []
  capped_row none e rows h = cc
  capped_row (some n) e rows h = let k : n - e ≡ 0 = ground arith in rw k

  emitted_row :
      (limit : Option ℕ) (e : ℕ) (r : A) (rows : List A)
      → is_capped limit e ≡ false
      → at_most limit e (r ∷ rows) ≡ r ∷ at_most limit (e + 1) rows
  emitted_row none e r rows h = refl
  emitted_row (some n) e r rows h = let k : n - e ≡ suc (n - (e + 1)) = ground arith in rw k

module _ {ℓ} {A : Type ℓ} (offset limit : Option ℕ) where
  abbrev wanted : ℕ → ℕ → List A → List A
  wanted s e rows = at_most limit e (behind offset s rows)

  abbrev left : LocalState A → List A
  left st = wanted st.rows_skipped st.rows_emitted st.cursor

  -- A call emits a prefix of the rows that are wanted, and leaves the others.
  scan_chunk-wanted :
      (room s e : ℕ) (rows : List A)
      → wanted s e rows
        ≡ (scan_chunk offset limit room s e rows).0
          ++ left (scan_chunk offset limit room s e rows).1
  unfolding scan_chunk
  scan_chunk-wanted zero s e rows = refl
  scan_chunk-wanted (suc room) s e [] = refl
  scan_chunk-wanted (suc room) s e (r ∷ rows) = elim (Bool-cases (is_skipped offset s)) [
    | inl p ↦
        rw (scan_chunk, p)
          (ap (at_most limit e) (skipped_row offset s r rows p)
            ∙ scan_chunk-wanted (suc room) (s + 1) e rows)
    | inr p ↦ elim (Bool-cases (is_capped limit e)) [
      | inl q ↦
          rw (scan_chunk, p, q)
            (capped_row limit e (behind offset s (r ∷ rows)) q
              ∙ sym (capped_row limit e (behind offset s []) q))
      | inr q ↦
          rw (scan_chunk, p, q)
            (ap (at_most limit e) (kept_row offset s (r ∷ rows) p)
              ∙ emitted_row limit e r rows q
              ∙ ap (◌∷◌ r) (
                  ap (at_most limit (e + 1)) (sym (kept_row offset s rows p))
                  ∙ scan_chunk-wanted room s (e + 1) rows))
    ]
  ]

  -- A call with room that emits nothing leaves nothing.
  scan_chunk-empty :
      (room s e : ℕ) (rows : List A)
      → (scan_chunk offset limit (suc room) s e rows).0 ≡ []
      → left (scan_chunk offset limit (suc room) s e rows).1 ≡ []
  unfolding scan_chunk
  scan_chunk-empty room s e [] =
      λ h. ap (at_most limit e) (behind-nil offset s) ∙ at_most-nil limit e
  scan_chunk-empty room s e (r ∷ rows) = elim (Bool-cases (is_skipped offset s)) [
    | inl p ↦ rw (scan_chunk, p) (scan_chunk-empty room (s + 1) e rows)
    | inr p ↦ elim (Bool-cases (is_capped limit e)) [
      | inl q ↦
          rw (scan_chunk, p, q)
            (λ h. ap (at_most limit e) (behind-nil offset s) ∙ at_most-nil limit e)
      | inr q ↦ rw (scan_chunk, p, q) (λ h. cc)
    ]
  ]

  -- What a call emits is taken from the cursor.
  scan_chunk-length :
      (room s e : ℕ) (rows : List A)
      → length (scan_chunk offset limit room s e rows).0
          + length (scan_chunk offset limit room s e rows).1.cursor
        ≤ length rows
  unfolding scan_chunk
  scan_chunk-length zero s e rows = omega arith
  scan_chunk-length (suc room) s e [] = omega arith
  scan_chunk-length (suc room) s e (r ∷ rows) = elim (Bool-cases (is_skipped offset s)) [
    | inl p ↦ rw (scan_chunk, p) (omega (arith, scan_chunk-length (suc room) (s + 1) e rows))
    | inr p ↦ elim (Bool-cases (is_capped limit e)) [
      | inl q ↦ rw (scan_chunk, p, q) (omega arith)
      | inr q ↦ rw (scan_chunk, p, q) (omega (arith, scan_chunk-length room s (e + 1) rows))
    ]
  ]

  -- One call and those after it.
  called :
      (out rest remaining : List A)
      → (out ≡ [] → remaining ≡ [])
      → (0 < length out → rest ≡ remaining)
      → elim out [ [] ↦ [] | x ∷ xs ↦ (x ∷ xs) ++ rest ] ≡ out ++ remaining
  called [] rest remaining h k = sym (h refl)
  called (x ∷ xs) rest remaining h k = ap (λ l. (x ∷ xs) ++ l) (k (omega arith))

  scanned-left :
      (room calls : ℕ) (st : LocalState A)
      → length st.cursor < calls
      → scanned offset limit (suc room) calls st ≡ left st
  unfolding scanned
  scanned-left room zero st h = absurd (omega arith)
  scanned-left room (suc calls) st h =
      let s = st.rows_skipped in
      let e = st.rows_emitted in
      let c = scan_chunk offset limit (suc room) s e st.cursor in
      called c.0 (scanned offset limit (suc room) calls c.1) (left c.1)
        (scan_chunk-empty room s e st.cursor)
        (λ k.
          scanned-left room calls c.1
            (omega (arith, k, scan_chunk-length (suc room) s e st.cursor)))
      ∙ sym (scan_chunk-wanted (suc room) s e st.cursor)

-- The calls of the scan function, each with room for at least one row, give the LIMIT rows behind
-- the first OFFSET ones and then nothing: one call more than there are rows is enough.
pub scanned-slice {ℓ} :
    {A : Type ℓ} (offset limit : Option ℕ) (room calls : ℕ) (rows : List A)
    → length rows < calls
    → scanned offset limit
        (suc room)
        calls
        (record { rows_skipped = 0; rows_emitted = 0; cursor = rows })
      ≡ at_most limit 0 (behind offset 0 rows)
scanned-slice offset limit room calls rows h =
    scanned-left offset limit room calls
      (record { rows_skipped = 0; rows_emitted = 0; cursor = rows }) h
