-- ===== src/Indexes/Report.antt =====
-- What the report of src/firebird_index_profile.cpp says of the indexes and of the columns.
use duckdb_firebird.Common.{
  ◌≡◌, refl, sym, ap, ◌∙◌, Bool, true, false, not, ◌&&◌, ◌||◌, Option, none, some, List, [], ◌∷◌,
  ◌++◌, ◌==◌, map, Bytes, str_eq, All, Bool-cases, inl, inr, and-true_both, if-intro, if◌then◌else◌,
}
use duckdb_firebird.Common.Int.{ℤ, pos, negsuc}
use duckdb_firebird.Duck.{LogicalType}
use duckdb_firebird.Firebird.{FirebirdColumnDesc, int_eq}
use duckdb_firebird.Schema.{Columns}
use duckdb_firebird.Indexes.{
  Alert, IndexAnswer, IndexProfileRow, IndexProfileResult, index_row, is_cheap_filter_type,
  is_among, covered, candidates, synthetic, inactive_alert, statistics_alert, is_missing,
  with_alerts, reported, build_index_profile,
}

-- No index of the answer has the column.
abbrev pub IsUncovered : List IndexAnswer → Bytes → Type 0
IsUncovered answers n = All (λ (a : IndexAnswer). is_among n a.segments ≡ false) answers

abbrev pub is_one : ℤ → Bool
is_one (pos n) = n == 1
is_one (negsuc n) = false

-- The alerts of an index: one unless its flag is 1, and one if it has no statistics.
abbrev pub expected_alerts : IndexAnswer → List Alert
expected_alerts a =
    (if is_one a.active_flag then [] else inactive_alert a.name ∷ [])
    ++ (if is_missing a.statistics then statistics_alert a.name ∷ [] else [])

-- A row says of its index what the answer says, and has exactly its alerts.
pub record IsRowOf (r : IndexProfileRow) (a : IndexAnswer) : Type 0 where
  pub real : r.is_synthetic ≡ false
  pub named : r.index_name ≡ a.name
  pub segmented : r.columns ≡ a.segments
  pub unique : r.is_unique ≡ is_one a.unique_flag
  pub active : r.is_active ≡ is_one a.active_flag
  pub primary : r.is_primary_key ≡ is_one a.primary_flag
  pub foreign : r.is_foreign_key ≡ is_one a.foreign_flag
  pub selective : r.selectivity ≡ a.statistics
  pub alerted : r.alerts ≡ expected_alerts a

abbrev pub AreRowsOf : List IndexProfileRow → List IndexAnswer → Type 0
AreRowsOf [] [] = Unit
AreRowsOf (r ∷ rs) (a ∷ answers) = IsRowOf r a × AreRowsOf rs answers
AreRowsOf _ _ = ⊥

-- The rows of a report: one for each index, or the synthetic one.
abbrev pub AreReported : List IndexProfileRow → List IndexAnswer → Type 0
AreReported rows [] = rows ≡ synthetic ∷ []
AreReported rows (a ∷ answers) = AreRowsOf rows (a ∷ answers)

is_among-append :
    (n : Bytes) (xs ys : List Bytes) → is_among n (xs ++ ys) ≡ (is_among n xs || is_among n ys)
unfolding is_among
is_among-append n [] ys = refl
is_among-append n (x ∷ xs) ys = elim (Bool-cases (str_eq x n)) [
  | inl p ↦ rw p refl
  | inr p ↦ rw p (is_among-append n xs ys)
]

or-false : (a b : Bool) → (a || b) ≡ false → (a ≡ false) × (b ≡ false)
or-false true b h = cc
or-false false b h = (refl, h)

covered-IsUncovered :
    (answers : List IndexAnswer) (n : Bytes)
    → is_among n (covered (map index_row answers)) ≡ false
    → IsUncovered answers n
unfolding covered index_row
covered-IsUncovered [] n h = tt
covered-IsUncovered (a ∷ answers) n h =
    let (here, there) =
      or-false (is_among n a.segments) (is_among n (covered (map index_row answers)))
        (sym (is_among-append n a.segments (covered (map index_row answers))) ∙ h) in
    (here, covered-IsUncovered answers n there)

not-true : (b : Bool) → not b ≡ true → b ≡ false
not-true false h = refl
not-true true h = cc

-- Every name that the loop keeps is in none of the segments.
candidates-uncovered :
    (cover : List Bytes) (ns : List Bytes) (ts : List LogicalType) (ds : List FirebirdColumnDesc)
    → All (λ n. is_among n cover ≡ false) (candidates cover ns ts ds)
unfolding candidates
candidates-uncovered cover [] ts ds = tt
candidates-uncovered cover (n ∷ ns) [] ds = tt
candidates-uncovered cover (n ∷ ns) (t ∷ ts) [] = tt
candidates-uncovered cover (n ∷ ns) (t ∷ ts) (d ∷ ds) =
    if-intro (All (λ n. is_among n cover ≡ false))
      (not (is_among n cover) && is_cheap_filter_type d t)
      (λ p. (
        not-true (is_among n cover)
            (and-true_both (not (is_among n cover)) (is_cheap_filter_type d t) p).0,
        candidates-uncovered cover ns ts ds,
      ))
      (λ p. candidates-uncovered cover ns ts ds)

All-map {ℓ} :
    {A : Type ℓ} (P Q : A → Type 0) (l : List A) → ((a : A) → P a → Q a) → All P l → All Q l
All-map P Q [] f h = tt
All-map P Q (a ∷ l) f h = (f a h.0, All-map P Q l f h.1)

int_eq-is_one : (z : ℤ) → int_eq z (pos 1) ≡ is_one z
int_eq-is_one (pos n) = refl
int_eq-is_one (negsuc n) = refl

with_alerts-IsRowOf : (a : IndexAnswer) → IsRowOf (with_alerts (index_row a)) a
unfolding with_alerts index_row
with_alerts-IsRowOf a =
    let quiet = statistics_alert a.name ∷ [] in
    record {
      real = refl;
      named = refl;
      segmented = refl;
      unique = int_eq-is_one a.unique_flag;
      active = int_eq-is_one a.active_flag;
      primary = int_eq-is_one a.primary_flag;
      foreign = int_eq-is_one a.foreign_flag;
      selective = refl;
      alerted =
          ap
            (λ active.
              (if active then [] else inactive_alert a.name ∷ [])
              ++ (if is_missing a.statistics then quiet else []))
            (int_eq-is_one a.active_flag);
    }

reported-AreRowsOf :
    (answers : List IndexAnswer) → AreRowsOf (map with_alerts (map index_row answers)) answers
reported-AreRowsOf [] = tt
reported-AreRowsOf (a ∷ answers) = (with_alerts-IsRowOf a, reported-AreRowsOf answers)

reported-AreReported :
    (answers : List IndexAnswer) → AreReported (reported (map index_row answers)) answers
unfolding reported
reported-AreReported [] = refl
reported-AreReported (a ∷ answers) = reported-AreRowsOf (a ∷ answers)

-- How the report ends: if a load throws or the relation does not exist there is none, and else it is
-- about the indexes, and names no column that an index has.
abbrev pub IsProfile :
    Option Bool → Option (List IndexAnswer) → Option Columns → Option IndexProfileResult → Type 0
IsProfile (some true) (some answers) (some c) (some r) =
    AreReported r.rows answers × All (IsUncovered answers) r.unindexed_filter_candidates
IsProfile (some true) (some answers) (some c) none = ⊥
IsProfile (some true) (some answers) none r = r ≡ none
IsProfile (some true) none c r = r ≡ none
IsProfile (some false) answers c r = r ≡ none
IsProfile none answers c r = r ≡ none

-- The report is made exactly if the relation exists and neither that test nor the load of the indexes
-- or of the columns throws; then it has a row for each index, in order, with what the server says of
-- it, with an alert unless its flag says active and one if its statistics are missing, or the one
-- row for a table without indexes, and it proposes only columns that no index has.
pub build_index_profile-IsProfile :
    (exists : Option Bool) (answers : Option (List IndexAnswer)) (c : Option Columns)
    → IsProfile exists answers c (build_index_profile exists answers c)
unfolding build_index_profile
build_index_profile-IsProfile none answers c = refl
build_index_profile-IsProfile (some false) answers c = refl
build_index_profile-IsProfile (some true) none c = refl
build_index_profile-IsProfile (some true) (some answers) none = refl
build_index_profile-IsProfile (some true) (some answers) (some c) =
    let cover = covered (map index_row answers) in
    (
      reported-AreReported answers,
      All-map (λ n. is_among n cover ≡ false) (IsUncovered answers)
          (candidates cover c.names c.types c.descs) (covered-IsUncovered answers)
          (candidates-uncovered cover c.names c.types c.descs),
    )
