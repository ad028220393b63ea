-- ===== src/Pool/Steps.antt =====
-- The calls of the pool of src/firebird_client.cpp by any number of threads. A step is a section under
-- the lock as a whole, or one update of a counter outside of it.
use duckdb_firebird.Common.{ℕ, suc, ◌+◌, ◌≡◌, subst, Bytes, arith}
use duckdb_firebird.Common.Int.{pos}
use duckdb_firebird.Pool.{
  FirebirdConnectionPoolConfig, FirebirdConnectionPool, new_pool, record_connection_error, created,
  activated, take_idle, given_back, park,
}
use duckdb_firebird.Pool.Invariant.{
  IsPool, IsPool-new, IsPool-take_idle, IsPool-created, IsPool-activated,
  IsPool-record_connection_error, IsPool-given_back, IsPool-park,
}

-- The pool with the number of threads that are between the two updates for a new connection, and of
-- those that have left the first part of `Release` and not the second.
pub record Threads : Type 0 where
  pub pool : FirebirdConnectionPool
  pub connecting : ℕ
  pub returning : ℕ

abbrev pub no_threads : Threads
no_threads = record { pool = new_pool; connecting = 0; returning = 0 }

-- A step of some thread: the locked part of an acquisition; the two updates for a connection that was
-- attached, or the record of a failure; and the two parts of a release, which begins while a
-- connection is leased. Without the lock, `park` has the one update of a pool that is not enabled.
pub data Step (config : FirebirdConnectionPoolConfig) (password : Bytes)
    : Threads → Threads → Type 0 where
  takes :
      (now : ℕ) (s : Threads)
      → Step config password s (record s { pool = (take_idle config now s.pool).1 })
  creates :
      (s : Threads)
      → Step config password s (record s { pool = created s.pool; connecting = suc s.connecting })
  activates :
      (n : ℕ) (s : Threads)
      → s.connecting ≡ suc n
      → Step config password s (record s { pool = activated s.pool; connecting = n })
  fails :
      (message : Bytes) (s : Threads)
      → Step config password s (record s { pool = record_connection_error password message s.pool })
  gives_back :
      (n : ℕ) (s : Threads)
      → s.pool.active ≡ pos (suc n)
      → Step config password s (record s { pool = given_back s.pool; returning = suc s.returning })
  parks :
      (now c n : ℕ) (s : Threads)
      → s.returning ≡ suc n
      → Step config password s (record s { pool = park config now c s.pool; returning = n })

pub data Reachable (config : FirebirdConnectionPoolConfig) (password : Bytes)
    : Threads → Type 0 where
  started : Reachable config password no_threads
  then_step :
      (s t : Threads)
      → Reachable config password s
      → Step config password s t
      → Reachable config password t

-- The invariant with the connections that the threads have in between.
abbrev pub IsBalanced : FirebirdConnectionPoolConfig → Threads → Type 0
IsBalanced config s = IsPool config (s.connecting + s.returning) s.pool

recounted :
    (config : FirebirdConnectionPoolConfig) (m n : ℕ) (p : FirebirdConnectionPool)
    → m ≡ n
    → IsPool config m p
    → IsPool config n p
recounted config m n p e h = subst (λ k. IsPool config k p) e h

IsBalanced-Step :
    (config : FirebirdConnectionPoolConfig) (password : Bytes) (s t : Threads)
    → Step config password s t
    → IsBalanced config s
    → IsBalanced config t
IsBalanced-Step config password s t (takes now s') h =
    IsPool-take_idle config (s'.connecting + s'.returning) now s'.pool h
IsBalanced-Step config password s t (creates s') h =
    recounted config _ (suc s'.connecting + s'.returning) (created s'.pool) (omega arith)
      (IsPool-created config (s'.connecting + s'.returning) s'.pool h)
IsBalanced-Step config password s t (activates n s' e) h =
    IsPool-activated config (n + s'.returning) s'.pool (
      recounted config (s'.connecting + s'.returning) (suc (n + s'.returning)) s'.pool
        (omega (arith, e)) h)
IsBalanced-Step config password s t (fails message s') h =
    IsPool-record_connection_error config (s'.connecting + s'.returning) password message s'.pool h
IsBalanced-Step config password s t (gives_back n s' a) h =
    recounted config _ (s'.connecting + suc s'.returning) (given_back s'.pool) (omega arith)
      (IsPool-given_back config (s'.connecting + s'.returning) n s'.pool a h)
IsBalanced-Step config password s t (parks now c n s' e) h =
    IsPool-park config (s'.connecting + n) now c s'.pool (
      recounted config (s'.connecting + s'.returning) (suc (s'.connecting + n)) s'.pool
        (omega (arith, e)) h)

-- In every state between the steps of the threads, in whatever order these come, as many connections
-- were made as the counters of active and of discarded ones, the idle queue, and the threads that are
-- between two updates have together; the counter of active ones is not negative; and at most
-- `max_size` are idle if that is positive.
pub Reachable-IsBalanced :
    (config : FirebirdConnectionPoolConfig) (password : Bytes) (s : Threads)
    → Reachable config password s
    → IsBalanced config s
Reachable-IsBalanced config password s started = IsPool-new config
Reachable-IsBalanced config password s (then_step s' t r step) =
    IsBalanced-Step config password s' t step (Reachable-IsBalanced config password s' r)
