-- ===== src/Pool/Invariant.antt =====
-- The counts and the limit of the pool of src/firebird_client.cpp, under each of its operations.
use duckdb_firebird.Common.{
  ℕ, zero, suc, ◌+◌, ◌≤◌, ◌≡◌, refl, sym, ap, ◌∙◌, false, not, Option, none, some, List, [], ◌∷◌,
  ◌++◌, Bytes, length, length-append, if-intro, arith,
}
use duckdb_firebird.Common.Int.{ℤ, pos, negsuc, ◌+ℤ◌, ◌-ℤ◌}
use duckdb_firebird.Pool.{
  nanoseconds, FirebirdConnectionPoolConfig, IdleEntry, FirebirdConnectionPool, new_pool,
  record_connection_error, expired, erased, drain, pop_back, reuse, lease_last, take_idle, is_full,
  discarded, created, activated, given_back, park,
}

-- At most `max_size` entries, if that is positive.
abbrev pub IsWithin : ℤ → ℕ → Type 0
IsWithin (pos zero) n = Unit
IsWithin (pos (suc m)) n = n ≤ suc m
IsWithin (negsuc m) n = Unit

-- Every connection that was made is counted as leased, idle or discarded, but for those that are
-- pending between two updates of some thread, and the idle ones are no more than the limit.
pub record IsPool (config : FirebirdConnectionPoolConfig) (pending : ℕ) (p : FirebirdConnectionPool)
    : Type 0 where
  pub leased : ℕ
  pub counted : p.active ≡ pos leased
  pub conserved : p.total_created ≡ leased + length p.idle + p.total_discarded + pending
  pub bounded : IsWithin config.max_size (length p.idle)

erased-length : (n : ℕ) (es : List IdleEntry) → n ≤ length es → length (erased n es) + n ≡ length es
unfolding erased
erased-length zero es h = omega arith
erased-length (suc n) [] h = omega arith
erased-length (suc n) (e ∷ es) h = omega (arith, erased-length n es (omega arith))

expired-le : (cutoff : ℤ) (now : ℕ) (es : List IdleEntry) → expired cutoff now es ≤ length es
unfolding expired
expired-le cutoff now [] = omega arith
expired-le cutoff now (e ∷ es) = ground (arith, expired-le cutoff now es)

IsWithin-le : (size : ℤ) (m n : ℕ) → m ≤ n → IsWithin size n → IsWithin size m
IsWithin-le (pos zero) m n h k = tt
IsWithin-le (pos (suc s)) m n h k = omega arith
IsWithin-le (negsuc s) m n h k = tt

IsWithin-is_full :
    (size : ℤ) (es : List IdleEntry) → is_full size es ≡ false → IsWithin size (length es + 1)
unfolding is_full
IsWithin-is_full (pos zero) es h = tt
IsWithin-is_full (pos (suc s)) es h = ground arith
IsWithin-is_full (negsuc s) es h = tt

incremented : (n : ℕ) → pos n +ℤ pos 1 ≡ pos (n + 1)
unfolding ◌+ℤ◌
incremented n = ground arith

decremented : (n : ℕ) → pos (suc n) -ℤ pos 1 ≡ pos n
unfolding ◌-ℤ◌
decremented n = ground arith

pub IsPool-new : (config : FirebirdConnectionPoolConfig) → IsPool config 0 new_pool
IsPool-new config = record {
  leased = 0;
  counted = refl;
  conserved = omega arith;
  bounded = start config.max_size;
}
  where
    start : (size : ℤ) → IsWithin size 0
    start (pos zero) = tt
    start (pos (suc n)) = omega arith
    start (negsuc n) = tt

IsPool-drain :
    (config : FirebirdConnectionPoolConfig) (pending : ℕ) (timeout : ℤ) (now : ℕ)
    (p : FirebirdConnectionPool)
    → IsPool config pending p
    → IsPool config pending (drain timeout now p)
unfolding drain
IsPool-drain config pending (pos zero) now p h = h
IsPool-drain config pending (negsuc n) now p h = h
IsPool-drain config pending (pos (suc n)) now p h =
    let k = expired (nanoseconds (suc n)) now p.idle in
    let e = erased-length k p.idle (expired-le (nanoseconds (suc n)) now p.idle) in
    record {
      leased = h.leased;
      counted = h.counted;
      conserved = omega (arith, h.conserved, e);
      bounded =
          IsWithin-le config.max_size (length (erased k p.idle)) (length p.idle) (omega (arith, e))
            h.bounded;
    }

-- What `pop_back` says of the entries.
abbrev pub Parts : List IdleEntry → Option (List IdleEntry × IdleEntry) → Type 0
Parts es none = es ≡ []
Parts es (some (front, last)) = es ≡ front ++ last ∷ []

Parts-cons :
    (e : IdleEntry) (es : List IdleEntry) (o : Option (List IdleEntry × IdleEntry))
    → Parts es o
    → Parts (e ∷ es) (elim o [ none ↦ some ([], e) | some (front, last) ↦ some (e ∷ front, last) ])
Parts-cons e es none h = ap (◌∷◌ e) h
Parts-cons e es (some (front, last)) h = ap (◌∷◌ e) h

pub pop_back-Parts : (es : List IdleEntry) → Parts es (pop_back es)
unfolding pop_back
pop_back-Parts [] = refl
pop_back-Parts (e ∷ es) = Parts-cons e es (pop_back es) (pop_back-Parts es)

IsPool-lease_last :
    (config : FirebirdConnectionPoolConfig) (pending : ℕ) (p : FirebirdConnectionPool)
    (o : Option (List IdleEntry × IdleEntry))
    → Parts p.idle o
    → IsPool config pending p
    → IsPool config pending (lease_last o p).1
unfolding lease_last
IsPool-lease_last config pending p none e h = h
IsPool-lease_last config pending p (some (front, last)) e h =
    let l = ap length e ∙ length-append front (last ∷ []) in
    record {
      leased = h.leased + 1;
      counted = ap (λ a. a +ℤ pos 1) h.counted ∙ incremented h.leased;
      conserved = omega (arith, h.conserved, l);
      bounded =
          IsWithin-le config.max_size (length front) (length p.idle) (omega (arith, l)) h.bounded;
    }

pub IsPool-take_idle :
    (config : FirebirdConnectionPoolConfig) (pending : ℕ) (now : ℕ) (p : FirebirdConnectionPool)
    → IsPool config pending p
    → IsPool config pending (take_idle config now p).1
unfolding take_idle reuse
IsPool-take_idle config pending now p h =
    let d = drain config.idle_timeout_ms now p in
    IsPool-lease_last config pending d (pop_back d.idle) (pop_back-Parts d.idle)
      (IsPool-drain config pending config.idle_timeout_ms now p h)

-- A new connection is pending between its two updates.
pub IsPool-created :
    (config : FirebirdConnectionPoolConfig) (pending : ℕ) (p : FirebirdConnectionPool)
    → IsPool config pending p
    → IsPool config (suc pending) (created p)
unfolding created
IsPool-created config pending p h = record {
  leased = h.leased;
  counted = h.counted;
  conserved = omega (arith, h.conserved);
  bounded = h.bounded;
}

pub IsPool-activated :
    (config : FirebirdConnectionPoolConfig) (pending : ℕ) (p : FirebirdConnectionPool)
    → IsPool config (suc pending) p
    → IsPool config pending (activated p)
unfolding activated
IsPool-activated config pending p h = record {
  leased = h.leased + 1;
  counted = ap (λ a. a +ℤ pos 1) h.counted ∙ incremented h.leased;
  conserved = omega (arith, h.conserved);
  bounded = h.bounded;
}

pub IsPool-record_connection_error :
    (config : FirebirdConnectionPoolConfig) (pending : ℕ) (password message : Bytes)
    (p : FirebirdConnectionPool)
    → IsPool config pending p
    → IsPool config pending (record_connection_error password message p)
unfolding record_connection_error
IsPool-record_connection_error config pending password message p h = record {
  leased = h.leased;
  counted = h.counted;
  conserved = h.conserved;
  bounded = h.bounded;
}

pos_injective : (m n : ℕ) → pos m ≡ pos n → m ≡ n
pos_injective m n h = cc

-- A connection that is given back while one is leased is pending until it is parked or discarded.
pub IsPool-given_back :
    (config : FirebirdConnectionPoolConfig) (pending n : ℕ) (p : FirebirdConnectionPool)
    → p.active ≡ pos (suc n)
    → IsPool config pending p
    → IsPool config (suc pending) (given_back p)
unfolding given_back
IsPool-given_back config pending n p a h =
    let k = pos_injective h.leased (suc n) (sym h.counted ∙ a) in
    record {
      leased = n;
      counted = ap (λ z. z -ℤ pos 1) a ∙ decremented n;
      conserved = omega (arith, k, h.conserved);
      bounded = h.bounded;
    }

IsPool-discarded :
    (config : FirebirdConnectionPoolConfig) (pending : ℕ) (p : FirebirdConnectionPool)
    → IsPool config (suc pending) p
    → IsPool config pending (discarded p)
IsPool-discarded config pending p h = record {
  leased = h.leased;
  counted = h.counted;
  conserved = omega (arith, h.conserved);
  bounded = h.bounded;
}

pub IsPool-park :
    (config : FirebirdConnectionPoolConfig) (pending now c : ℕ) (p : FirebirdConnectionPool)
    → IsPool config (suc pending) p
    → IsPool config pending (park config now c p)
unfolding park
IsPool-park config pending now c p h =
    let parked = record { conn = c; released_at = now } ∷ [] in
    if-intro (IsPool config pending) (not config.enabled) (λ e. IsPool-discarded config pending p h)
      (λ e.
        if-intro (IsPool config pending) (is_full config.max_size p.idle)
          (λ f. IsPool-discarded config pending p h)
          (λ f. record {
            leased = h.leased;
            counted = h.counted;
            conserved = omega (arith, h.conserved, length-append p.idle parked);
            bounded =
                IsWithin-le config.max_size (length (p.idle ++ parked)) (length p.idle + 1)
                  (omega (arith, length-append p.idle parked))
                  (IsWithin-is_full config.max_size p.idle f);
          }))
