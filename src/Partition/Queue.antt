-- ===== src/Partition/Queue.antt =====
-- The queue of partitions of src/firebird_scanner.cpp under the workers of a scan. A call takes the
-- lock, so the calls of all workers are a sequence.
use mathlib.Core.Option.{some-injective}
use duckdb_firebird.Common.{
  ℕ, zero, suc, ◌+◌, ◌-◌, ◌≤◌, ◌≡◌, refl, sym, ap, ◌∙◌, Option, none, some, List, [], ◌∷◌, ◌++◌,
  Bytes, length, length-drop, get_elem?, take, drop, Option-cases, inl, inr, arith,
}
use duckdb_firebird.Partition.{PartitionQueue, next_partition}

abbrev pub handed : Option Bytes → List Bytes
handed none = []
handed (some p) = p ∷ []

-- What a number of calls hands out, in their order, by whichever workers.
unfoldable pub hand_out : ℕ → PartitionQueue → List Bytes
hand_out zero q = []
hand_out (suc calls) q = let (p, q') = next_partition q in handed p ++ hand_out calls q'

take_nil : (n : ℕ) → take {A = Bytes} n [] ≡ []
take_nil zero = refl
take_nil (suc n) = refl

none_left : (p : Bytes) (ps : List Bytes) → length (p ∷ ps) ≤ 0 → ⊥
none_left p ps h = omega (arith, h)

take_all : (n : ℕ) (ps : List Bytes) → length ps ≤ n → take n ps ≡ ps
take_all zero [] h = refl
take_all (suc n) [] h = refl
take_all zero (p ∷ ps) h = elim (none_left p ps h) [ ]
take_all (suc n) (p ∷ ps) h = ap (◌∷◌ p) (take_all n ps (omega (arith, h)))

drop_at :
    (ps : List Bytes) (i : ℕ) (p : Bytes)
    → get_elem? ps i ≡ some p
    → drop i ps ≡ p ∷ drop (suc i) ps
drop_at [] i p h = cc
drop_at (x ∷ ps) zero p h = ap (λ y. y ∷ ps) (some-injective _ _ h)
drop_at (x ∷ ps) (suc i) p h = drop_at ps i p h

drop_past : (ps : List Bytes) (i : ℕ) → get_elem? ps i ≡ none → drop i ps ≡ []
drop_past [] zero h = refl
drop_past [] (suc i) h = refl
drop_past (x ∷ ps) zero h = cc
drop_past (x ∷ ps) (suc i) h = drop_past ps i h

hand_out-take :
    (calls : ℕ) (ps : List Bytes) (i : ℕ)
    → hand_out calls (record { partitions = ps; next_partition = i }) ≡ take calls (drop i ps)
unfolding hand_out next_partition
hand_out-take zero ps i = refl
hand_out-take (suc calls) ps i = elim (Option-cases (get_elem? ps i)) [
  | inl h ↦
      rw (next_partition, h)
        (hand_out-take calls ps i
          ∙ ap (take calls) (drop_past ps i h)
          ∙ take_nil calls
          ∙ ap (take (suc calls)) (sym (drop_past ps i h)))
  | inr (p, h) ↦
      let next : i + 1 ≡ suc i = omega arith in
      rw (next_partition, h)
        (ap (λ l. p ∷ l) (rw next (hand_out-take calls ps (suc i)))
          ∙ ap (take (suc calls)) (sym (drop_at ps i p h)))
]

-- Every partition that is still queued is handed out, once and in order, within as many calls as
-- there are such partitions, by whichever workers; further calls hand out nothing.
pub hand_out-all :
    (q : PartitionQueue) (calls : ℕ)
    → length q.partitions - q.next_partition ≤ calls
    → hand_out calls q ≡ drop q.next_partition q.partitions
hand_out-all q calls h =
    hand_out-take calls q.partitions q.next_partition
    ∙ take_all calls (drop q.next_partition q.partitions)
        (omega (arith, length-drop q.next_partition q.partitions))
