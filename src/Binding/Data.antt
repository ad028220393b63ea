-- ===== src/Binding/Data.antt =====
-- The rest of `FirebirdScanBind` of src/firebird_scanner.cpp: the bind data of the options and of
-- what the server says of the table.
use duckdb_firebird.Common.{
  ℕ, ◌<◌, ◌≡◌, refl, ap, ◌∙◌, Bool, true, false, not, ◌&&◌, ◌||◌, Option, none, some, List, [],
  length, length-map, take, drop, ltb, ◌==◌, arith, if◌then◌else◌,
}
use duckdb_firebird.Common.Int.{ℤ, pos, ◌+ℤ◌, ◌-ℤ◌, ltb_ℤ, int64}
use duckdb_firebird.View.{ViewAnalysis}
use duckdb_firebird.Partition.{partition_count, ranges, where_clause, nonneg}
use duckdb_firebird.Schema.{Columns, KeyAnswers, probe_primary_key}
use duckdb_firebird.Opening.Statement.{
  PrimaryKeyInfo, FirebirdBindData, key_partitions, init_partitions, pagination,
}
use duckdb_firebird.Opening.Paging.{returned, emitted, offset_of, paged-rows}
use duckdb_firebird.Binding.{ScanOptions, is_paging, is_valid}
use duckdb_firebird.Binding.Paging.{IsPaged}

abbrev has_key : Option PrimaryKeyInfo → Bool
has_key none = false
has_key (some pk) = true

-- `columns` is the schema after the reconciliation of a view's types, `view` whether the table may
-- be a view.
unfoldable pub bind_data :
    ScanOptions → Columns → KeyAnswers → Bool → ViewAnalysis → FirebirdBindData
bind_data o columns key_answers view va =
    let pk =
      if not (o.partitions_override == 1) || is_paging o
      then probe_primary_key columns.names columns.types key_answers
      else none in
    record {
      table_name = o.table_name;
      columns = record {
        column_names = columns.names;
        column_descs = columns.descs;
        none_encoding = o.none_encoding;
        none_pushdown = o.none_pushdown;
      };
      lifted = record { extra_predicates = []; gated_complex_reasons = [] };
      partitions_override = o.partitions_override;
      limit_override = o.limit_override;
      offset_override = o.offset_override;
      pk = pk;
      is_view = view;
      is_view_simple_for_pagination =
          view
          && not (has_key pk)
          && is_paging o
          && va.inspected
          && not va.has_join
          && not va.has_group_by
          && not va.has_aggregate;
    }

one_of_one : (hw : ℕ) (lo hi : ℤ) → partition_count 1 hw lo hi ≡ 1
unfolding partition_count
one_of_one hw lo hi = capped (int64 (hi -ℤ lo +ℤ pos 1))
  where
    capped :
        (capacity : ℤ)
        → (if ltb_ℤ (pos 0) capacity && ltb (nonneg capacity) 1 then nonneg capacity else 1) ≡ 1
    capped (pos n) = ground arith
    capped (ℤ.negsuc n) = ground arith

one_range : (c : ℕ → ℕ) (lo hi : ℤ) (n : ℕ) → n ≡ 1 → length (ranges c lo hi 0 n) ≡ 1
unfolding ranges
one_range c lo hi n e = rw e refl

serial_key :
    (cut : ℤ → ℤ → ℕ → ℕ → ℕ) (hw : ℕ) (pk : Option PrimaryKeyInfo)
    → length (key_partitions cut hw 1 pk) ≡ 1
unfolding key_partitions
serial_key cut hw none = refl
serial_key cut hw (some pk) =
    let lo = pk.min_value in
    let hi = pk.max_value in
    let n = partition_count 1 hw lo hi in
    length-map (where_clause pk.column) (ranges (cut lo hi n) lo hi 0 n)
    ∙ one_range (cut lo hi n) lo hi n (one_of_one hw lo hi)

paging_valid :
    (limit offset : Option ℕ) (l : ℕ) → limit ≡ some l → (is_valid limit || is_valid offset) ≡ true
paging_valid none offset l e = cc
paging_valid (some k) offset l e = refl

-- A scan with a LIMIT, of options that bind lets through, has a single partition, and of that it
-- emits exactly the LIMIT rows behind the first OFFSET ones and then stops, for every table, key,
-- view and number of processors; one call more than there are rows returned is enough.
pub bind_data-slice {ℓ} :
    {A : Type ℓ} (o : ScanOptions) (limit : ℕ)
    → IsPaged o
    → o.limit_override ≡ some limit
    → (columns : Columns) (key_answers : KeyAnswers) (view : Bool) (va : ViewAnalysis)
      (cut : ℤ → ℤ → ℕ → ℕ → ℕ) (hw room calls : ℕ) (rows : List A)
    → let bind = bind_data o columns key_answers view va in
      length (returned (pagination bind) rows) < calls
      → (length (init_partitions cut hw bind) ≡ 1)
        × (emitted (pagination bind) room calls rows
            ≡ take limit (drop (offset_of o.offset_override) rows))
unfolding init_partitions bind_data
bind_data-slice o limit h e columns key_answers view va cut hw room calls rows k =
    let bind = bind_data o columns key_answers view va in
    let one = h.serial (paging_valid o.limit_override o.offset_override limit e) in
    (
      ap (λ n. length (key_partitions cut hw n bind.pk)) one ∙ serial_key cut hw bind.pk,
      paged-rows bind limit room calls rows e (h.window limit e).1 k,
    )
