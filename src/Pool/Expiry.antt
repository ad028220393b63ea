-- ===== src/Pool/Expiry.antt =====
-- Which connection the pool of src/firebird_client.cpp hands out again.
use duckdb_firebird.Common.{
  ℕ, suc, ◌+◌, ◌*◌, ◌^◌, ◌≤◌, ◌<◌, ◌≡◌, refl, ap, ◌∙◌, true, false, Bool-cases, inl, inr, Option,
  none, some, List, [], ◌∷◌, ◌++◌, All, ltb, if◌then◌else◌, arith,
}
use duckdb_firebird.Common.Int.{pos, ltb_ℤ, ◌-ℤ◌, int64_small}
use duckdb_firebird.Pool.{
  nanoseconds, FirebirdConnectionPoolConfig, IdleEntry, FirebirdConnectionPool,
  FirebirdConnectionLease, expired, erased, drain, pop_back, lease_last, reuse, take_idle,
}

abbrev leased : Option (List IdleEntry × IdleEntry) → Option FirebirdConnectionLease
leased none = none
leased (some (front, last)) = some (record { conn = last.conn; reused = true })

lease_last-leased :
    (o : Option (List IdleEntry × IdleEntry)) (p : FirebirdConnectionPool)
    → (lease_last o p).0 ≡ leased o
unfolding lease_last
lease_last-leased none p = refl
lease_last-leased (some (front, last)) p = refl

pop_back-append :
    (front : List IdleEntry) (last : IdleEntry) → pop_back (front ++ last ∷ []) ≡ some (front, last)
unfolding pop_back
pop_back-append [] last = refl
pop_back-append (e ∷ front) last = rw (pop_back-append front last)

-- The test of the source, against the sum.
late : (cutoff now r : ℕ) → ltb_ℤ (pos cutoff) (pos now -ℤ pos r) ≡ ltb (r + cutoff) now
unfolding ◌-ℤ◌
late cutoff now r = ground arith

warmest :
    (cutoff now : ℕ) (front : List IdleEntry) (last : IdleEntry)
    → All (λ e. e.released_at ≤ last.released_at) front
    → leased
        (pop_back (erased (expired (pos cutoff) now (front ++ last ∷ [])) (front ++ last ∷ [])))
      ≡ (if ltb (last.released_at + cutoff) now
          then none
          else some (record { conn = last.conn; reused = true }))
unfolding expired erased pop_back
warmest cutoff now [] last h = elim (Bool-cases (ltb (last.released_at + cutoff) now)) [
  | inl p ↦ rw (late cutoff now last.released_at, p)
  | inr p ↦ rw (late cutoff now last.released_at, p)
]
warmest cutoff now (e ∷ front) last h = elim (Bool-cases (ltb (e.released_at + cutoff) now)) [
  | inl p ↦ rw (late cutoff now e.released_at, p) (warmest cutoff now front last h.1)
  | inr p ↦
      let k = h.0 in
      let q : ltb (last.released_at + cutoff) now ≡ false = ground arith in
      rw (late cutoff now e.released_at, p, q, pop_back-append front last)
]

-- With a timeout that 64 bits hold in nanoseconds, and if no idle connection was released after the
-- last one, the locked part of an acquisition takes the one that was released last, unless it is
-- older than the timeout: then it takes none, and the acquisition goes on to attach a new one.
pub take_idle-warmest :
    (config : FirebirdConnectionPoolConfig) (now n : ℕ) (p : FirebirdConnectionPool)
    (front : List IdleEntry) (last : IdleEntry)
    → config.idle_timeout_ms ≡ pos (suc n)
    → suc n * 1000000 < 2 ^ 63
    → p.idle ≡ front ++ last ∷ []
    → All (λ e. e.released_at ≤ last.released_at) front
    → (take_idle config now p).0 ≡ (
        if ltb (last.released_at + suc n * 1000000) now
        then none
        else some (record { conn = last.conn; reused = true }))
unfolding take_idle reuse drain nanoseconds
take_idle-warmest config now n p front last t small e h =
    let c = suc n * 1000000 in
    let d = drain (pos (suc n)) now p in
    ap (λ z. (lease_last (pop_back (drain z now p).idle) (drain z now p)).0) t
    ∙ lease_last-leased (pop_back d.idle) d
    ∙ ap (λ z. leased (pop_back (erased (expired z now p.idle) p.idle))) (int64_small c small)
    ∙ ap (λ es. leased (pop_back (erased (expired (pos c) now es) es))) e
    ∙ warmest c now front last h
