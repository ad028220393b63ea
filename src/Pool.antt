-- ===== src/Pool.antt =====
-- `FirebirdConnectionPool` of src/firebird_client.cpp. Connections are named by numbers; attaching
-- one is libfbclient's work, and its outcome is an argument. Times are in nanoseconds.
pub mod Invariant
pub mod Steps
pub mod Expiry
pub mod Ownership
use duckdb_firebird.Common.{
  ℕ, zero, suc, ◌+◌, ◌*◌, ◌-◌, Bool, true, false, not, ◌&&◌, Option, none, some, List, [], ◌∷◌,
  ◌++◌, Bytes, codes, length, take, ltb, leb, is_empty, starts_with, if◌then◌else◌,
}
use duckdb_firebird.Common.Int.{ℤ, pos, negsuc, ◌+ℤ◌, ◌-ℤ◌, ltb_ℤ, int64}

pub record FirebirdConnectionPoolConfig : Type 0 where
  pub enabled : Bool
  pub max_size : ℤ
  pub idle_timeout_ms : ℤ

pub record IdleEntry : Type 0 where
  pub conn : ℕ
  pub released_at : ℕ

pub record FirebirdConnectionPool : Type 0 where
  pub idle : List IdleEntry
  pub total_created : ℕ
  pub total_reused : ℕ
  pub total_discarded : ℕ
  pub active : ℤ
  pub last_error : Bytes

pub record FirebirdConnectionLease : Type 0 where
  pub conn : ℕ
  pub reused : Bool

abbrev pub new_pool : FirebirdConnectionPool
new_pool = record {
  idle = [];
  total_created = 0;
  total_reused = 0;
  total_discarded = 0;
  active = pos 0;
  last_error = [];
}

-- The loop that replaces the occurrences of a password, from the left; `skip` bytes of the last
-- occurrence are still to be passed over.
unfoldable pub redacted_from : Bytes → ℕ → Bytes → Bytes
redacted_from password skip [] = []
redacted_from password (suc skip) (c ∷ s) = redacted_from password skip s
redacted_from password zero (c ∷ s) = elim (starts_with password (c ∷ s)) [
  | true ↦ codes "****" ++ redacted_from password (length password - 1) s
  | false ↦ c ∷ redacted_from password zero s
]

unfoldable pub sanitize_connection_error : Bytes → Bytes → Bytes
sanitize_connection_error message password =
    take 500 (if is_empty password then message else redacted_from password zero message)

unfoldable pub record_connection_error :
    Bytes → Bytes → FirebirdConnectionPool → FirebirdConnectionPool
record_connection_error password message p = record {
  idle = p.idle;
  total_created = p.total_created;
  total_reused = p.total_reused;
  total_discarded = p.total_discarded;
  active = p.active;
  last_error = sanitize_connection_error message password;
}

-- Milliseconds, which are an int64, as nanoseconds, which are one too.
unfoldable pub nanoseconds : ℕ → ℤ
nanoseconds ms = int64 (pos (ms * 1000000))

-- The entries that the loop drops from the front, by their number.
unfoldable pub expired : ℤ → ℕ → List IdleEntry → ℕ
expired cutoff now [] = 0
expired cutoff now (e ∷ es) =
    let rest = expired cutoff now es in
    if ltb_ℤ cutoff (pos now -ℤ pos e.released_at) then suc rest else 0

unfoldable pub erased : ℕ → List IdleEntry → List IdleEntry
erased zero es = es
erased (suc n) [] = []
erased (suc n) (e ∷ es) = erased n es

-- The draining of expired entries; a timeout that is not positive is none.
unfoldable pub drain : ℤ → ℕ → FirebirdConnectionPool → FirebirdConnectionPool
drain (pos (suc n)) now p =
    let drop = expired (nanoseconds (suc n)) now p.idle in
    record {
      idle = erased drop p.idle;
      total_created = p.total_created;
      total_reused = p.total_reused;
      total_discarded = p.total_discarded + drop;
      active = p.active;
      last_error = p.last_error;
    }
drain (pos zero) now p = p
drain (negsuc n) now p = p

-- The entries but the last one, and the last one.
unfoldable pub pop_back : List IdleEntry → Option (List IdleEntry × IdleEntry)
pop_back [] = none
pop_back (e ∷ es) = elim (pop_back es) [
  | none ↦ some ([], e)
  | some (front, last) ↦ some (e ∷ front, last)
]

-- The lease of the last idle entry, if there is one.
unfoldable pub lease_last :
    Option (List IdleEntry × IdleEntry)
    → FirebirdConnectionPool
    → Option FirebirdConnectionLease × FirebirdConnectionPool
lease_last none p = (none, p)
lease_last (some (front, last)) p = (
  some (record { conn = last.conn; reused = true }),
  record {
    idle = front;
    total_created = p.total_created;
    total_reused = p.total_reused + 1;
    total_discarded = p.total_discarded;
    active = p.active +ℤ pos 1;
    last_error = p.last_error;
  },
)

-- What follows the draining, under the lock: the warmest connection, if there is one.
unfoldable pub reuse :
    FirebirdConnectionPool → Option FirebirdConnectionLease × FirebirdConnectionPool
reuse p = lease_last (pop_back p.idle) p

-- The outcome of attaching a new connection.
pub data Attach : Type 0 where
  attached : ℕ → Attach
  failed : Bytes → Attach

-- The two counters of a new connection, each with an update of its own.
unfoldable pub created : FirebirdConnectionPool → FirebirdConnectionPool
created p = record p { total_created = p.total_created + 1 }

unfoldable pub activated : FirebirdConnectionPool → FirebirdConnectionPool
activated p = record p { active = p.active +ℤ pos 1 }

-- The part of `AcquireWithInfo` that makes a new connection, or records the error and throws.
unfoldable pub connect :
    Bytes
    → Attach
    → FirebirdConnectionPool
    → Option FirebirdConnectionLease × FirebirdConnectionPool
connect password (attached c) p =
    (some (record { conn = c; reused = false }), activated (created p))
connect password (failed message) p = (none, record_connection_error password message p)

-- The part of `AcquireWithInfo` under the lock.
unfoldable pub take_idle :
    FirebirdConnectionPoolConfig
    → ℕ
    → FirebirdConnectionPool
    → Option FirebirdConnectionLease × FirebirdConnectionPool
take_idle config now p = reuse (drain config.idle_timeout_ms now p)

unfoldable pub acquire_with_info :
    FirebirdConnectionPoolConfig
    → Bytes
    → ℕ
    → Attach
    → FirebirdConnectionPool
    → Option FirebirdConnectionLease × FirebirdConnectionPool
acquire_with_info config password now outcome p =
    if not config.enabled
    then connect password outcome p
    else let r = take_idle config now p in
      elim r.0 [ some lease ↦ (some lease, r.1) | none ↦ connect password outcome r.1 ]

-- `config_.max_size > 0 && idle_.size() >= max_size`.
unfoldable pub is_full : ℤ → List IdleEntry → Bool
is_full (pos (suc n)) es = leb (suc n) (length es)
is_full (pos zero) es = false
is_full (negsuc n) es = false

-- The first update of `Release`, outside of the lock.
unfoldable pub given_back : FirebirdConnectionPool → FirebirdConnectionPool
given_back p = record p { active = p.active -ℤ pos 1 }

abbrev pub discarded : FirebirdConnectionPool → FirebirdConnectionPool
discarded p = record p { total_discarded = p.total_discarded + 1 }

-- The rest of `Release`.
unfoldable pub park :
    FirebirdConnectionPoolConfig → ℕ → ℕ → FirebirdConnectionPool → FirebirdConnectionPool
park config now c p =
    if not config.enabled
    then discarded p
    else if is_full config.max_size p.idle
    then discarded p
    else record p { idle = p.idle ++ record { conn = c; released_at = now } ∷ [] }

-- `Release`; a null pointer is none.
unfoldable pub release :
    FirebirdConnectionPoolConfig → ℕ → Option ℕ → FirebirdConnectionPool → FirebirdConnectionPool
release config now none p = p
release config now (some c) p = park config now c (given_back p)

-- `AddBytesReadEstimate`, on the counter that it adds to.
unfoldable pub add_bytes_read_estimate : ℤ → ℤ → ℤ
add_bytes_read_estimate bytes total = if ltb_ℤ (pos 0) bytes then total +ℤ bytes else total
