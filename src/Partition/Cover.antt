-- ===== src/Partition/Cover.antt =====
-- In which ranges of `FirebirdScanInitGlobal` (src/firebird_scanner.cpp) a key is.
use duckdb_firebird.Common.{
  ℕ, zero, suc, ◌+◌, ◌≤◌, ◌≡◌, ◌∙◌, Bool, not, ◌&&◌, List, [], ◌∷◌, ltb, if◌then◌else◌, arith,
}
use duckdb_firebird.Common.Int.{ℤ, pos, negsuc, ◌+ℤ◌, ◌-ℤ◌, ltb_ℤ}
use duckdb_firebird.Partition.{ranges}

-- `lo <= v && v <= hi`.
abbrev pub in_range : ℤ → ℤ × ℤ → Bool
in_range v (lo, hi) = not (ltb_ℤ v lo) && not (ltb_ℤ hi v)

-- How many of the ranges have the key.
abbrev pub hits : ℤ → List (ℤ × ℤ) → ℕ
hits v [] = 0
hits v (r ∷ rs) = (if in_range v r then 1 else 0) + hits v rs

ltb_shift : (lo : ℤ) (x y : ℕ) → ltb_ℤ (lo +ℤ pos x) (lo +ℤ pos y) ≡ ltb x y
unfolding ◌+ℤ◌
ltb_shift (pos l) x y = ground arith
ltb_shift (negsuc l) x y = ground arith

ltb_below : (lo : ℤ) (x y : ℕ) → not (ltb_ℤ (lo +ℤ pos x -ℤ pos 1) (lo +ℤ pos y)) ≡ ltb y x
unfolding ◌+ℤ◌ ◌-ℤ◌
ltb_below (pos l) x y = ground arith
ltb_below (negsuc l) x y = ground arith

last_share :
    (a span d : ℕ)
    → d ≤ span
    → (if not (ltb d a) && not (ltb span d) then 1 else 0) + 0 ≡ (if ltb d a then 0 else 1)
last_share a span d h = ground arith

inner_share :
    (a b d : ℕ)
    → a ≤ b
    → (if not (ltb d a) && ltb d b then 1 else 0) + (if ltb d b then 0 else 1)
      ≡ (if ltb d a then 0 else 1)
inner_share a b d h = ground arith

-- The keys, as distances from the lowest one.
module _ (cut : ℕ → ℕ) (grows : (i : ℕ) → cut i ≤ cut (suc i)) (lo : ℤ) (span : ℕ) where
  abbrev key : ℕ → ℤ
  key d = lo +ℤ pos d

  inner :
      (i d : ℕ)
      → in_range (key d) (key (cut i), key (cut (suc i)) -ℤ pos 1)
        ≡ (not (ltb d (cut i)) && ltb d (cut (suc i)))
  inner i d = rw (ltb_shift lo d (cut i), ltb_below lo (cut (suc i)) d)

  outer :
      (i d : ℕ)
      → in_range (key d) (key (cut i), key span) ≡ (not (ltb d (cut i)) && not (ltb span d))
  outer i d = rw (ltb_shift lo d (cut i), ltb_shift lo span d)

  -- A key below the ranges is in none of them, and another one is in exactly one.
  counted :
      (k i d : ℕ)
      → d ≤ span
      → hits (key d) (ranges cut lo (key span) i (suc k)) ≡ (if ltb d (cut i) then 0 else 1)
  unfolding ranges
  counted zero i d h = rw (outer i d) (last_share (cut i) span d h)
  counted (suc k) i d h =
      let rest = counted k (suc i) d h in
      let g = grows i in rw (inner i d, rest) (inner_share (cut i) (cut (suc i)) d (grows i))

not_below : (d : ℕ) → if◌then◌else◌ {A = ℕ} (ltb d 0) 0 1 ≡ 1
not_below d = ground arith

-- Every key from the lowest to the highest one is in exactly one of the ranges, if there is one,
-- the cuts begin at 0, and they do not decrease.
pub ranges-hits :
    (cut : ℕ → ℕ)
    → cut 0 ≡ 0
    → ((i : ℕ) → cut i ≤ cut (suc i))
    → (lo : ℤ) (span n d : ℕ) → d ≤ span
    → hits (lo +ℤ pos d) (ranges cut lo (lo +ℤ pos span) 0 (suc n)) ≡ 1
ranges-hits cut z grows lo span n d h = counted cut grows lo span n 0 d h ∙ rw z (not_below d)
