-- ===== src/Slice.antt =====
-- The local LIMIT and OFFSET of `FirebirdScanFunction` (src/firebird_scanner.cpp), where no ROWS
-- clause was pushed: the loop over the fetched rows of one partition, and the calls of it.
pub mod Whole
use duckdb_firebird.Common.{
  ℕ, zero, suc, ◌+◌, Bool, true, false, Option, none, some, List, [], ◌∷◌, ◌++◌, ltb, leb,
}

-- `rows_skipped` and `rows_emitted`, and the rows that the cursor has still to give; a cursor that
-- was dropped gives none.
pub record LocalState {ℓ} (A : Type ℓ) : Type ℓ where
  pub rows_skipped : ℕ
  pub rows_emitted : ℕ
  pub cursor : List A

-- `slice_offset.IsValid() && rows_skipped < slice_offset`.
abbrev pub is_skipped : Option ℕ → ℕ → Bool
is_skipped none skipped = false
is_skipped (some offset) skipped = ltb skipped offset

-- `slice_limit.IsValid() && rows_emitted >= slice_limit`.
abbrev pub is_capped : Option ℕ → ℕ → Bool
is_capped none emitted = false
is_capped (some limit) emitted = leb limit emitted

abbrev pub with_row {ℓ} : {A : Type ℓ} → A → List A × LocalState A → List A × LocalState A
with_row r (out, st) = (r ∷ out, st)

-- One call: at most `room` rows, and the state after it.
unfoldable pub scan_chunk {ℓ} :
    {A : Type ℓ} → Option ℕ → Option ℕ → ℕ → ℕ → ℕ → List A → List A × LocalState A
scan_chunk offset limit zero skipped emitted rows =
    ([], record { rows_skipped = skipped; rows_emitted = emitted; cursor = rows })
scan_chunk offset limit (suc room) skipped emitted [] =
    ([], record { rows_skipped = skipped; rows_emitted = emitted; cursor = [] })
scan_chunk offset limit (suc room) skipped emitted (r ∷ rows) = elim (is_skipped offset skipped) [
  | true ↦ scan_chunk offset limit (suc room) (skipped + 1) emitted rows
  | false ↦ elim (is_capped limit emitted) [
    | true ↦ ([], record { rows_skipped = skipped; rows_emitted = emitted; cursor = [] })
    | false ↦ with_row r (scan_chunk offset limit room skipped (emitted + 1) rows)
  ]
]

-- The calls by DuckDB, until one emits nothing; `calls` bounds their number.
unfoldable pub scanned {ℓ} : {A : Type ℓ} → Option ℕ → Option ℕ → ℕ → ℕ → LocalState A → List A
scanned offset limit room zero st = []
scanned offset limit room (suc calls) st =
    let c = scan_chunk offset limit room st.rows_skipped st.rows_emitted st.cursor in
    let rest = scanned offset limit room calls c.1 in
    elim c.0 [ [] ↦ [] | x ∷ xs ↦ (x ∷ xs) ++ rest ]
