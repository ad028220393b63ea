-- ===== src/Pool/Ownership.antt =====
-- Who holds a connection of the pool of src/firebird_client.cpp.
use mathlib.Core.Option.{some-injective}
use duckdb_firebird.Common.{
  ℕ, zero, suc, ◌+◌, ◌≤◌, ◌≡◌, refl, sym, ap, ◌∙◌, subst, true, not, Option, none, some, List, [],
  ◌∷◌, ◌++◌, Bytes, ◌==◌, if◌then◌else◌, if-intro, Bool-cases, inl, inr, arith,
}
use duckdb_firebird.Common.Int.{ℤ, pos, negsuc}
use duckdb_firebird.Pool.{
  park, given_back, created, activated, FirebirdConnectionPoolConfig, IdleEntry,
  FirebirdConnectionPool, FirebirdConnectionLease, new_pool, record_connection_error, nanoseconds,
  expired, erased, drain, pop_back, lease_last, reuse, attached, failed, connect, take_idle,
  is_full, release,
}
use duckdb_firebird.Pool.Invariant.{Parts, pop_back-Parts}

-- How often a connection stands in a list of leases, and in the idle queue.
abbrev pub leases : ℕ → List ℕ → ℕ
leases c [] = 0
leases c (x ∷ xs) = (if c == x then 1 else 0) + leases c xs

abbrev pub parked : ℕ → List IdleEntry → ℕ
parked c [] = 0
parked c (e ∷ es) = (if c == e.conn then 1 else 0) + parked c es

leases-append : (c : ℕ) (xs ys : List ℕ) → leases c (xs ++ ys) ≡ leases c xs + leases c ys
leases-append c [] ys = omega arith
leases-append c (x ∷ xs) ys = omega (arith, leases-append c xs ys)

parked-append : (c : ℕ) (xs ys : List IdleEntry) → parked c (xs ++ ys) ≡ parked c xs + parked c ys
parked-append c [] ys = omega arith
parked-append c (x ∷ xs) ys = omega (arith, parked-append c xs ys)

parked-erased : (c n : ℕ) (es : List IdleEntry) → parked c (erased n es) ≤ parked c es
unfolding erased
parked-erased c zero es = omega arith
parked-erased c (suc n) [] = omega arith
parked-erased c (suc n) (e ∷ es) = omega (arith, parked-erased c n es)

parked-drain :
    (c : ℕ) (timeout : ℤ) (now : ℕ) (p : FirebirdConnectionPool)
    → parked c (drain timeout now p).idle ≤ parked c p.idle
unfolding drain
parked-drain c (pos zero) now p = omega arith
parked-drain c (pos (suc n)) now p =
    parked-erased c (expired (nanoseconds (suc n)) now p.idle) p.idle
parked-drain c (negsuc n) now p = omega arith

-- The connections that are leased, in any state that the calls of the pool lead to: a connection
-- that is attached is a new one, and only what is leased is given back.
pub data Holding (config : FirebirdConnectionPoolConfig) (password : Bytes)
    : List ℕ → FirebirdConnectionPool → Type 0 where
  opened : Holding config password [] new_pool
  reuses :
      (now : ℕ) (held : List ℕ) (p : FirebirdConnectionPool) (lease : FirebirdConnectionLease)
      → Holding config password held p
      → (take_idle config now p).0 ≡ some lease
      → Holding config password (lease.conn ∷ held) (take_idle config now p).1
  misses :
      (now : ℕ) (held : List ℕ) (p : FirebirdConnectionPool)
      → Holding config password held p
      → (take_idle config now p).0 ≡ none
      → Holding config password held (take_idle config now p).1
  attaches :
      (c : ℕ) (held : List ℕ) (p : FirebirdConnectionPool)
      → Holding config password held p
      → leases c held + parked c p.idle ≡ 0
      → Holding config password (c ∷ held) (connect password (attached c) p).1
  fails :
      (message : Bytes) (held : List ℕ) (p : FirebirdConnectionPool)
      → Holding config password held p
      → Holding config password held (connect password (failed message) p).1
  returns :
      (now c : ℕ) (before after : List ℕ) (p : FirebirdConnectionPool)
      → Holding config password (before ++ c ∷ after) p
      → Holding config password (before ++ after) (release config now (some c) p)

-- The idle queue after a lease, and the leased connection.
leased_once :
    (d : ℕ) (o : Option (List IdleEntry × IdleEntry)) (p : FirebirdConnectionPool)
    (lease : FirebirdConnectionLease)
    → Parts p.idle o
    → (lease_last o p).0 ≡ some lease
    → (if d == lease.conn then 1 else 0) + parked d (lease_last o p).1.idle ≡ parked d p.idle
unfolding lease_last
leased_once d none p lease h e = cc
leased_once d (some (front, last)) p lease h e =
    let k =
      ap (λ (l : FirebirdConnectionLease). l.conn)
        (some-injective (record { conn = last.conn; reused = true }) lease e) in
    let t = ap (parked d) h ∙ parked-append d front (last ∷ []) in
    subst (λ x. (if d == x then 1 else 0) + parked d front ≡ parked d p.idle) k (omega (arith, t))

not_leased :
    (d : ℕ) (o : Option (List IdleEntry × IdleEntry)) (p : FirebirdConnectionPool)
    → (lease_last o p).0 ≡ none
    → parked d (lease_last o p).1.idle ≡ parked d p.idle
unfolding lease_last
not_leased d none p e = refl
not_leased d (some (front, last)) p e = cc

parked-release :
    (d now c : ℕ) (config : FirebirdConnectionPoolConfig) (p : FirebirdConnectionPool)
    → parked d (release config now (some c) p).idle ≤ parked d p.idle + (if d == c then 1 else 0)
unfolding release park given_back
parked-release d now c config p =
    if-intro
      (λ (q : FirebirdConnectionPool).
        parked d q.idle ≤ parked d p.idle + (if d == c then 1 else 0))
      (not config.enabled) (λ e. omega arith)
      (λ e.
        if-intro
          (λ (q : FirebirdConnectionPool).
            parked d q.idle ≤ parked d p.idle + (if d == c then 1 else 0))
          (is_full config.max_size p.idle) (λ f. omega arith)
          (λ f.
            omega (arith, parked-append d p.idle (record { conn = c; released_at = now } ∷ []))))

returned :
    (d c : ℕ) (before after : List ℕ)
    → leases d (before ++ c ∷ after) ≡ leases d (before ++ after) + (if d == c then 1 else 0)
returned d c before after =
    omega (arith, leases-append d before (c ∷ after), leases-append d before after)

-- One more lease of a connection that nobody has.
fresh_lease :
    (d c : ℕ) (held : List ℕ) (idle : List IdleEntry)
    → leases c held + parked c idle ≡ 0
    → leases d held + parked d idle ≤ 1
    → (if d == c then 1 else 0) + leases d held + parked d idle ≤ 1
fresh_lease d c held idle z h = elim (Bool-cases (d == c)) [
  | inl p ↦
      let k : d ≡ c = ground arith in
      let z' = subst (λ x. leases x held + parked x idle ≡ 0) (sym k) z in rw p (omega arith)
  | inr p ↦ rw p (omega arith)
]

-- Whatever calls were made, by however many callers, no connection is leased twice, and none that is
-- leased is idle as well.
pub Holding-once :
    (config : FirebirdConnectionPoolConfig) (password : Bytes) (held : List ℕ)
    (p : FirebirdConnectionPool)
    → Holding config password held p
    → (d : ℕ) → leases d held + parked d p.idle ≤ 1
unfolding take_idle reuse connect record_connection_error created activated
Holding-once config password held p opened d = omega arith
Holding-once config password held p (reuses now held' p' lease h e) d =
    let q = drain config.idle_timeout_ms now p' in
    let k = leased_once d (pop_back q.idle) q lease (pop_back-Parts q.idle) e in
    omega (
      arith,
      k,
      parked-drain d config.idle_timeout_ms now p',
      Holding-once config password held' p' h d,
    )
Holding-once config password held p (misses now held' p' h e) d =
    let q = drain config.idle_timeout_ms now p' in
    omega (
      arith,
      not_leased d (pop_back q.idle) q e,
      parked-drain d config.idle_timeout_ms now p',
      Holding-once config password held' p' h d,
    )
Holding-once config password held p (attaches c held' p' h z) d =
    fresh_lease d c held' p'.idle z (Holding-once config password held' p' h d)
Holding-once config password held p (fails message held' p' h) d =
    Holding-once config password held' p' h d
Holding-once config password held p (returns now c before after p' h) d = omega (
  arith,
  returned d c before after,
  parked-release d now c config p',
  Holding-once config password (before ++ c ∷ after) p' h d,
)
