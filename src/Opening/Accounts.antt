-- ===== src/Opening/Accounts.antt =====
-- The lists of filters that `OpenNextPartitionCursor` of src/firebird_scanner.cpp records.
use duckdb_firebird.Common.{
  ℕ, ◌≡◌, refl, List, [], ◌∷◌, ◌++◌, map, Bytes, codes, length, length-map, ap, ◌∙◌,
}
use duckdb_firebird.Duck.{Duckdb}
use duckdb_firebird.Query.Build.{build, nothing_pushed}
use duckdb_firebird.Query.Placeholders.{IsPrinter}
use duckdb_firebird.Query.Record.{Recorded, push_filters-IsRecorded}
use duckdb_firebird.Observability.{FirebirdQueryTelemetry}
use duckdb_firebird.Observability.Residual.{redact_bind_value}
use duckdb_firebird.Complex.Pushdown.{ExtraPredicate}
use duckdb_firebird.Opening.Statement.{FirebirdBindData, scan_of, partition_query}
use duckdb_firebird.Opening.Cursor.{GlobalState, Surroundings, telemetry, residual_entry}

-- The telemetry of one statement: of the table filters each is recorded once, its text or its own
-- index with the reason; behind them stand the lifted predicates and the gated filters.
pub record IsAccounted (db : Duckdb) (bind : FirebirdBindData) (g : GlobalState)
    (rec : FirebirdQueryTelemetry) (params : ℕ) : Type 0 where
  pub texts : List Bytes
  pub marks : List (ℕ × Bytes)
  pub recorded : Recorded db (scan_of bind g.column_ids) 0 g.filters texts marks
  pub pushed :
      rec.pushed_filters ≡ texts ++ map (λ (p : ExtraPredicate). p.sql) bind.lifted.extra_predicates
  pub left_over :
      rec.residual_filters
      ≡ map (λ m. residual_entry m.0) marks
        ++ map
            (λ (reason : Bytes). codes "complex_filter[none_gated]")
            bind.lifted.gated_complex_reasons
  pub reasons : rec.not_pushed_reasons ≡ map (λ m. m.1) marks ++ bind.lifted.gated_complex_reasons
  pub binds : length rec.binds_redacted ≡ params

map-map :
    {A B C : Type 0} (f : B → C) (g : A → B) (xs : List A)
    → map f (map g xs) ≡ map (λ x. f (g x)) xs
map-map f g [] = refl
map-map f g (x ∷ xs) = ap (λ l. f (g x) ∷ l) (map-map f g xs)

-- Every table filter is recorded once and in order: a pushed one by the text that is its
-- translation on its column, a residual one by its own index, with its reason at the same place
-- of the other list. Behind them stand the texts of the lifted predicates and, as residual, the
-- gated filters with their reasons; and there is a recorded bind for every parameter.
pub telemetry-accounts :
    (db : Duckdb)
    → IsPrinter db
    → (bind : FirebirdBindData) (g : GlobalState) (env : Surroundings) (clause : Bytes)
    → IsAccounted db bind g
        (telemetry db bind g env (partition_query db bind g.column_ids g.filters clause))
        (length (partition_query db bind g.column_ids g.filters clause).params)
unfolding telemetry partition_query build
telemetry-accounts db h bind g env clause =
    let q = partition_query db bind g.column_ids g.filters clause in
    let lifted = map (λ (p : ExtraPredicate). p.sql) bind.lifted.extra_predicates in
    let gated = bind.lifted.gated_complex_reasons in
    let entry = λ (reason : Bytes). codes "complex_filter[none_gated]" in
    let all = push_filters-IsRecorded db h (scan_of bind g.column_ids) 0 g.filters nothing_pushed in
    record {
      texts = all.texts;
      marks = all.marks;
      recorded = all.recorded;
      pushed = ap (λ l. l ++ lifted) all.pushed;
      left_over =
          ap (λ l. map residual_entry l ++ map entry gated) all.indices
          ∙ ap (λ l. l ++ map entry gated) (map-map residual_entry (λ m. m.0) all.marks);
      reasons = ap (λ l. l ++ gated) all.reasons;
      binds = length-map (redact_bind_value db) q.params;
    }
