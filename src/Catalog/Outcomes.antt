-- ===== src/Catalog/Outcomes.antt =====
-- How `EnsureTablesLoaded` of src/firebird_storage.cpp ends, and what its pool counts then.
use duckdb_firebird.Common.{
  ℕ, zero, suc, ◌≡◌, refl, ap, subst, ◌∙◌, true, false, not, Option, none, some, List, [], Bytes,
  if-intro,
}
use duckdb_firebird.Common.Int.{ℤ, pos, negsuc, ◌+ℤ◌, ◌-ℤ◌, int_laws}
use duckdb_firebird.Pool.{
  park, given_back, created, activated, FirebirdConnectionPoolConfig, IdleEntry,
  FirebirdConnectionPool, FirebirdConnectionLease, Attach, attached, failed, drain, pop_back,
  lease_last, reuse, connect, record_connection_error, take_idle, acquire_with_info, is_full,
  release,
}
use duckdb_firebird.Catalog.Entry.{TableEntry}
use duckdb_firebird.Catalog.Discovery.{
  Fetched, fetched, threw, Server, Settings, Timing, SchemaEntry, Exit, returned, not_connected,
  not_discovered, discovered, finish, with_lease, ensure_tables_loaded,
}

-- The counter of active connections goes up by one with a lease, and stays without one.
abbrev pub Counts : ℤ → Option FirebirdConnectionLease × FirebirdConnectionPool → Type 0
Counts n (none, p) = p.active ≡ n
Counts n (some lease, p) = p.active ≡ n +ℤ pos 1

drain-active :
    (timeout : ℤ) (now : ℕ) (p : FirebirdConnectionPool) → (drain timeout now p).active ≡ p.active
unfolding drain
drain-active (pos zero) now p = refl
drain-active (pos (suc n)) now p = refl
drain-active (negsuc n) now p = refl

lease_last-Counts :
    (o : Option (List IdleEntry × IdleEntry)) (p : FirebirdConnectionPool)
    → Counts p.active (lease_last o p)
unfolding lease_last
lease_last-Counts none p = refl
lease_last-Counts (some (front, last)) p = refl

take_idle-Counts :
    (config : FirebirdConnectionPoolConfig) (now : ℕ) (p : FirebirdConnectionPool)
    → Counts p.active (take_idle config now p)
unfolding take_idle reuse
take_idle-Counts config now p =
    let q = drain config.idle_timeout_ms now p in
    subst (λ n. Counts n (lease_last (pop_back q.idle) q))
      (drain-active config.idle_timeout_ms now p) (lease_last-Counts (pop_back q.idle) q)

connect-Counts :
    (password : Bytes) (outcome : Attach) (p : FirebirdConnectionPool)
    → Counts p.active (connect password outcome p)
unfolding connect record_connection_error created activated
connect-Counts password (attached c) p = refl
connect-Counts password (failed message) p = refl

pub acquire_with_info-Counts :
    (config : FirebirdConnectionPoolConfig) (password : Bytes) (now : ℕ) (outcome : Attach)
    (p : FirebirdConnectionPool)
    → Counts p.active (acquire_with_info config password now outcome p)
unfolding acquire_with_info
acquire_with_info-Counts config password now outcome p =
    if-intro (Counts p.active) (not config.enabled) (λ e. connect-Counts password outcome p)
      (λ e. by_lease (take_idle config now p) (take_idle-Counts config now p))
  where
    by_lease :
        (r : Option FirebirdConnectionLease × FirebirdConnectionPool)
        → Counts p.active r
        → Counts p.active
            (elim r.0 as (λ o. Option FirebirdConnectionLease × FirebirdConnectionPool) [
              | some lease ↦ (some lease, r.1)
              | none ↦ connect password outcome r.1
            ])
    by_lease (some lease, q) h = h
    by_lease (none, q) h =
        subst (λ n. Counts n (connect password outcome q)) h (connect-Counts password outcome q)

pub release-active :
    (config : FirebirdConnectionPoolConfig) (now c : ℕ) (p : FirebirdConnectionPool)
    → (release config now (some c) p).active ≡ p.active -ℤ pos 1
unfolding release park given_back
release-active config now c p =
    if-intro (λ (q : FirebirdConnectionPool). q.active ≡ p.active -ℤ pos 1) (not config.enabled)
      (λ e. refl)
      (λ e.
        if-intro (λ (q : FirebirdConnectionPool). q.active ≡ p.active -ℤ pos 1)
          (is_full config.max_size p.idle) (λ e'. refl) (λ e'. refl))

pub up_and_down : (n : ℤ) → n +ℤ pos 1 -ℤ pos 1 ≡ n
up_and_down n = omega int_laws

-- If the call returns, the tables are loaded and the pool counts as many active connections as
-- before; if the pool gives no connection, nothing changes but the pool, and it counts as before; if
-- the discovery throws, no table is loaded, and the pool counts one active connection more.
abbrev pub Ended : SchemaEntry → Exit × SchemaEntry → Type 0
Ended e (returned, e') = (e'.loaded ≡ true) × (e'.pool.active ≡ e.pool.active)
Ended e (not_connected, e') =
    (e'.loaded ≡ e.loaded) × ((e'.tables ≡ e.tables) × (e'.pool.active ≡ e.pool.active))
Ended e (not_discovered message, e') =
    (e'.loaded ≡ false) × ((e'.tables ≡ []) × (e'.pool.active ≡ e.pool.active +ℤ pos 1))

finish-Ended :
    (o : Settings) (t : Timing) (e : SchemaEntry) (lease : FirebirdConnectionLease)
    (pool : FirebirdConnectionPool) (r : Fetched (List (Bytes × TableEntry)))
    → pool.active ≡ e.pool.active +ℤ pos 1
    → Ended e (finish o t lease pool r)
unfolding finish
finish-Ended o t e lease pool (fetched ts) h = (
  refl,
  release-active o.pool_config t.released_at lease.conn pool
      ∙ ap (λ n. n -ℤ pos 1) h
      ∙ up_and_down e.pool.active,
)
finish-Ended o t e lease pool (threw message) h = (refl, (refl, h))

with_lease-Ended :
    (o : Settings) (s : Server) (t : Timing) (e : SchemaEntry)
    (r : Option FirebirdConnectionLease × FirebirdConnectionPool)
    → Counts e.pool.active r
    → Ended e (with_lease o s t e r)
unfolding with_lease
with_lease-Ended o s t e (none, pool) h = (refl, (refl, h))
with_lease-Ended o s t e (some lease, pool) h =
    finish-Ended o t e lease pool (discovered o s s.all_rows e.tables) h

-- However the call ends, the state is the one of `Ended`: loaded with as many active connections as
-- before if it returns, and, if the discovery throws, without tables and with one more.
pub ensure_tables_loaded-Ended :
    (o : Settings) (s : Server) (t : Timing) (e : SchemaEntry)
    → Ended e (ensure_tables_loaded o s t e)
unfolding ensure_tables_loaded
ensure_tables_loaded-Ended o s t e =
    if-intro (Ended e) e.loaded (λ p. (p, refl))
      (λ p.
        with_lease-Ended o s t e
          (acquire_with_info o.pool_config o.password t.acquired_at t.outcome e.pool)
          (acquire_with_info-Counts o.pool_config o.password t.acquired_at t.outcome e.pool))
