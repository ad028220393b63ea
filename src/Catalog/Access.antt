-- ===== src/Catalog/Access.antt =====
-- The scan function of a table entry, the schemas and the transactions of the ATTACH catalog
-- (src/firebird_storage.cpp).
use duckdb_firebird.Common.{
  ◌≡◌, refl, ap, ◌∙◌, Bool, true, false, ◌||◌, Option, none, some, [], ◌∷◌, ◌++◌, Bytes, codes,
  is_empty, str_eq, if◌then◌else◌, if-true, if-intro,
}
use duckdb_firebird.Common.Int.{pos, ◌-ℤ◌}
use duckdb_firebird.Pool.{
  FirebirdConnectionPool, FirebirdConnectionLease, acquire_with_info, release,
}
use duckdb_firebird.Schema.{Columns, KeyAnswers, probe_primary_key}
use duckdb_firebird.Opening.Statement.{PrimaryKeyInfo}
use duckdb_firebird.Catalog.Entry.{TableEntry}
use duckdb_firebird.Catalog.Discovery.{Settings, Timing}
use duckdb_firebird.Catalog.Outcomes.{Counts, acquire_with_info-Counts, release-active, up_and_down}

-- The memo of a table entry, with the pool.
pub record KeyCache : Type 0 where
  pub pk_loaded : Bool
  pub pk_cache : Option PrimaryKeyInfo
  pub pool : FirebirdConnectionPool

-- The bind data of a scan, but for what all entries share.
pub record ScanData : Type 0 where
  pub table_name : Bytes
  pub columns : Columns
  pub pk : Option PrimaryKeyInfo

-- The probe on the connection that the pool gives; none where it throws.
unfoldable pub probe_with :
    Settings
    → Timing
    → TableEntry
    → KeyAnswers
    → KeyCache
    → Option FirebirdConnectionLease × FirebirdConnectionPool
    → Bool × KeyCache
probe_with o t e answers c (none, pool) = (false, record c { pool = pool })
probe_with o t e answers c (some lease, pool) = (
  true,
  record {
    pk_loaded = true;
    pk_cache = probe_primary_key e.columns.names e.columns.types answers;
    pool = release o.pool_config t.released_at (some lease.conn) pool;
  },
)

-- The part of `GetScanFunction` under the lock, and whether it returns.
unfoldable pub load_key : Settings → Timing → TableEntry → KeyAnswers → KeyCache → Bool × KeyCache
load_key o t e answers c =
    if c.pk_loaded
    then (true, c)
    else probe_with o t e answers c
        (acquire_with_info o.pool_config o.password t.acquired_at t.outcome c.pool)

abbrev pub scan_data : TableEntry → Bool × KeyCache → Option ScanData
scan_data e (false, c) = none
scan_data e (true, c) =
    some (record { table_name = e.table_name; columns = e.columns; pk = c.pk_cache })

-- `GetScanFunction`: the bind data, none where it throws, and the memo.
unfoldable pub get_scan_function :
    Settings → Timing → TableEntry → KeyAnswers → KeyCache → Option ScanData × KeyCache
get_scan_function o t e answers c = let r = load_key o t e answers c in (scan_data e r, r.1)

-- What `LookupSchema` gives: the main schema, null, or an exception.
pub data SchemaLookup : Type 0 where
  main_schema no_schema schema_not_found : SchemaLookup

unfoldable pub lookup_schema : Bytes → Bool → SchemaLookup
lookup_schema name return_null =
    if is_empty name || str_eq name (codes "main")
    then main_schema
    else if return_null
    then no_schema
    else schema_not_found

-- `Unsupported`: the message of the exception.
unfoldable pub unsupported : Bytes → Bytes
unsupported op =
    codes "Firebird ATTACH catalog is read-only "
    ++ 226 ∷ 128 ∷ 148 ∷ []
    ++ codes " "
    ++ op
    ++ codes " is not supported. Use a regular DuckDB schema for writes."

-- What holds of a call after which the pool counts as before: if it does not return, the memo is as
-- before; if it does, every further call, whatever the server and the clock say then, gives the same
-- data and leaves the memo and the pool alone.
abbrev pub IsMemoised : Settings → TableEntry → KeyCache → Option ScanData × KeyCache → Type 0
IsMemoised o e c (none, c') =
    (c'.pk_loaded ≡ c.pk_loaded) × ((c'.pk_cache ≡ c.pk_cache) × (c'.pool.active ≡ c.pool.active))
IsMemoised o e c (some d, c') =
    (c'.pool.active ≡ c.pool.active)
    × ((t' : Timing) (answers' : KeyAnswers) → get_scan_function o t' e answers' c' ≡ (some d, c'))

loaded_memo :
    (o : Settings) (t : Timing) (e : TableEntry) (answers : KeyAnswers) (c : KeyCache)
    → c.pk_loaded ≡ true
    → get_scan_function o t e answers c ≡ (scan_data e (true, c), c)
unfolding get_scan_function load_key
loaded_memo o t e answers c h =
    ap (λ (r : Bool × KeyCache). (scan_data e r, r.1)) (if-true (true, c) _ h)

probe_with-IsMemoised :
    (o : Settings) (t : Timing) (e : TableEntry) (answers : KeyAnswers) (c : KeyCache)
    (r : Option FirebirdConnectionLease × FirebirdConnectionPool)
    → Counts c.pool.active r
    → IsMemoised o e c (let r' = probe_with o t e answers c r in (scan_data e r', r'.1))
unfolding probe_with
probe_with-IsMemoised o t e answers c (none, pool) h = (refl, (refl, h))
probe_with-IsMemoised o t e answers c (some lease, pool) h = (
  release-active o.pool_config t.released_at lease.conn pool
      ∙ ap (λ n. n -ℤ pos 1) h
      ∙ up_and_down c.pool.active,
  λ t' answers'. loaded_memo o t' e answers' _ refl,
)

-- Whether the key was probed before or not, the pool counts as many active connections after the
-- call as before, and a call that returns fixes the answer of every later one.
pub get_scan_function-IsMemoised :
    (o : Settings) (t : Timing) (e : TableEntry) (answers : KeyAnswers) (c : KeyCache)
    → IsMemoised o e c (get_scan_function o t e answers c)
unfolding get_scan_function load_key
get_scan_function-IsMemoised o t e answers c =
    if-intro (λ (r : Bool × KeyCache). IsMemoised o e c (scan_data e r, r.1)) c.pk_loaded
      (λ p. (refl, λ t' answers'. loaded_memo o t' e answers' c p))
      (λ p.
        probe_with-IsMemoised o t e answers c
          (acquire_with_info o.pool_config o.password t.acquired_at t.outcome c.pool)
          (acquire_with_info-Counts o.pool_config o.password t.acquired_at t.outcome c.pool))
