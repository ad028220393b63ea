-- ===== src/Opening/Paging.antt =====
-- LIMIT and OFFSET of a scan: the decision of `OpenNextPartitionCursor` of src/firebird_scanner.cpp,
-- the window that `Build` writes, and the slice that `FirebirdScanFunction` takes.
use duckdb_firebird.Common.{
  ℕ, suc, ◌+◌, ◌-◌, ◌^◌, ◌<◌, ◌≡◌, refl, ap, ◌∙◌, subst, Bool, true, false, Option, none, some,
  List, ◌++◌, Bytes, codes, length, take, drop, arith,
}
use duckdb_firebird.Sql.{quote_ident}
use duckdb_firebird.Query.Build.{rows_bounds}
use duckdb_firebird.Query.Pushdown.{rows_window, rows_window-rows_bounds}
use duckdb_firebird.Slice.{scanned}
use duckdb_firebird.Slice.Whole.{scanned-slice}
use duckdb_firebird.Opening.Statement.{
  PrimaryKeyInfo, FirebirdBindData, Pagination, pushed_in_order, sliced_locally, pagination_case,
  pagination,
}

-- The rows that the server returns for the window that is pushed.
abbrev pub returned {ℓ} : {A : Type ℓ} → Pagination → List A → List A
returned page rows = elim page.limit_to_push [
  | none ↦ rows
  | some limit ↦ elim page.offset_to_push [
    | none ↦ take limit rows
    | some offset ↦ rows_window (rows_bounds offset limit) rows
  ]
]

-- The rows that the calls of the scan function emit of those that the server returns.
abbrev pub emitted {ℓ} : {A : Type ℓ} → Pagination → ℕ → ℕ → List A → List A
emitted page room calls rows =
    scanned page.slice_offset page.slice_limit (suc room) calls
      (record { rows_skipped = 0; rows_emitted = 0; cursor = returned page rows })

abbrev pub offset_of : Option ℕ → ℕ
offset_of none = 0
offset_of (some offset) = offset

-- The sum of LIMIT and OFFSET that bind lets through.
abbrev pub IsInRange : Option ℕ → ℕ → Type 0
IsInRange offset limit = (offset_of offset + limit < 2 ^ 64) × (offset_of offset + 1 < 2 ^ 64)

window {ℓ} :
    {A : Type ℓ} (bind : FirebirdBindData) (order_by : Bytes) (limit : ℕ) (offset : Option ℕ)
    (rows : List A)
    → IsInRange offset limit
    → bind.limit_override ≡ some limit
    → bind.offset_override ≡ offset
    → returned (pushed_in_order bind order_by) rows ≡ take limit (drop (offset_of offset) rows)
window bind order_by limit none rows h p q = rw (p, q) refl
window bind order_by limit (some offset) rows h p q =
    rw (p, q) (rows_window-rows_bounds offset limit rows h.0 h.1)

-- A window that was pushed is not cut again.
uncut {ℓ} :
    {A : Type ℓ} (bind : FirebirdBindData) (order_by : Bytes) (limit room calls : ℕ) (rows : List A)
    → IsInRange bind.offset_override limit
    → bind.limit_override ≡ some limit
    → length (returned (pushed_in_order bind order_by) rows) < calls
    → emitted (pushed_in_order bind order_by) room calls rows
      ≡ take limit (drop (offset_of bind.offset_override) rows)
uncut bind order_by limit room calls rows h p k =
    scanned-slice none none room calls (returned (pushed_in_order bind order_by) rows) k
    ∙ window bind order_by limit bind.offset_override rows h p refl

cut_here {ℓ} :
    {A : Type ℓ} (limit : ℕ) (offset : Option ℕ) (room calls : ℕ) (rows : List A)
    → length rows < calls
    → scanned
        (elim offset as (λ o. Option ℕ) [ none ↦ some 0 | some n ↦ some n ])
        (some limit)
        (suc room)
        calls
        (record { rows_skipped = 0; rows_emitted = 0; cursor = rows })
      ≡ take limit (drop (offset_of offset) rows)
cut_here limit none room calls rows k =
    let l : limit - 0 ≡ limit = omega arith in
    scanned-slice (some 0) (some limit) room calls rows k ∙ rw l refl
cut_here limit (some n) room calls rows k =
    let l : limit - 0 ≡ limit = omega arith in
    let o : n - 0 ≡ n = omega arith in
    scanned-slice (some n) (some limit) room calls rows k ∙ rw (l, o) refl

case-rows {ℓ} :
    {A : Type ℓ} (bind : FirebirdBindData) (limit : ℕ) (pk : Option PrimaryKeyInfo)
    (view simple : Bool) (room calls : ℕ) (rows : List A)
    → IsInRange bind.offset_override limit
    → bind.limit_override ≡ some limit
    → let page = pagination_case bind (some limit) pk view simple in
      length (returned page rows) < calls
      → emitted page room calls rows ≡ take limit (drop (offset_of bind.offset_override) rows)
case-rows bind limit (some pk) view simple room calls rows h p k =
    uncut bind (quote_ident pk.column ++ codes " ASC") limit room calls rows h p k
case-rows bind limit none false simple room calls rows h p k =
    uncut bind (codes "RDB$DB_KEY") limit room calls rows h p k
case-rows bind limit none true true room calls rows h p k =
    uncut bind (codes "RDB$DB_KEY") limit room calls rows h p k
case-rows bind limit none true false room calls rows h p k =
    ap (λ l. emitted (record (sliced_locally bind) { slice_limit = l }) room calls rows) p
    ∙ cut_here limit bind.offset_override room calls rows k

-- A scan with a LIMIT emits exactly the LIMIT rows behind the first OFFSET ones, and then stops,
-- whether the window goes to the server or is cut on this side, for tables with and without a key
-- and for views, if LIMIT and OFFSET are what bind lets through; one call more than there are rows
-- returned is enough.
pub paged-rows {ℓ} :
    {A : Type ℓ} (bind : FirebirdBindData) (limit room calls : ℕ) (rows : List A)
    → bind.limit_override ≡ some limit
    → IsInRange bind.offset_override limit
    → length (returned (pagination bind) rows) < calls
    → emitted (pagination bind) room calls rows
      ≡ take limit (drop (offset_of bind.offset_override) rows)
unfolding pagination
paged-rows bind limit room calls rows p h k =
    let by_case = λ (l : Option ℕ).
      pagination_case bind l bind.pk bind.is_view bind.is_view_simple_for_pagination in
    let same : by_case bind.limit_override ≡ by_case (some limit) = ap by_case p in
    ap (λ (page : Pagination). emitted page room calls rows) same
    ∙ case-rows bind limit bind.pk bind.is_view bind.is_view_simple_for_pagination room calls rows h
        p (subst (λ (page : Pagination). length (returned page rows) < calls) same k)
