-- ===== src/Binding/Paging.antt =====
-- What the options of a scan satisfy when `FirebirdScanBind` of src/firebird_scanner.cpp lets them
-- through, on numbers of 64 bits with a sign.
use mathlib.Core.Option.{some-injective}
use duckdb_firebird.Common.{
  ℕ, ◌^◌, ◌≤◌, ◌<◌, ◌≡◌, refl, Bool, true, false, not, ◌&&◌, Option, none, some, List, [], ◌∷◌,
  Bytes, All, ltb, if-intro, arith, is_empty,
}
use duckdb_firebird.Common.Int.{ℤ, pos, negsuc, ltb_ℤ}
use duckdb_firebird.Connection.{parse, parse_none_encoding, validate_dummy_packet_interval}
use duckdb_firebird.Opening.Paging.{IsInRange}
use duckdb_firebird.Binding.{
  NamedParameter, not_supplied, unnamed, user, password, charset, role, dialect, partitions,
  row_limit, row_offset, Refusal, unknown_none_encoding, paging_overflow, bad_connection_string,
  Bound, bound, refused, ◌>>=◌, or_refuse, ScanOptions, is_accepted_charset, set_parameter,
  set_parameters, set_keepalive, is_valid, is_paging, sum_overflows, check_paging, seeded_mode,
  initial_options, seeded, scan_options,
}

-- The refusals that 64-bit numbers can meet.
abbrev pub IsReachable : Refusal → Type 0
IsReachable paging_overflow = ⊥
IsReachable _ = Unit

-- What holds of a result, if it is not refused, and the refusals that there can be.
abbrev pub Unless {ℓ} : {A : Type ℓ} → (A → Type 0) → Bound A → Type 0
Unless P (bound a) = P a
Unless P (refused e) = IsReachable e

then_Unless {ℓ κ} :
    {A : Type ℓ} {B : Type κ} (P : A → Type 0) (Q : B → Type 0) (m : Bound A) (f : A → Bound B)
    → Unless P m
    → ((a : A) → P a → Unless Q (f a))
    → Unless Q (m >>= f)
then_Unless P Q (bound a) f h k = k a h
then_Unless P Q (refused e) f h k = h

or_refuse-Unless {ℓ} :
    {A : Type ℓ} (e : Refusal) (m : Option A) → IsReachable e → Unless (λ a. Unit) (or_refuse e m)
or_refuse-Unless e none h = h
or_refuse-Unless e (some a) h = tt

seeded_mode-Unless : (s : Bytes) → Unless (λ mode. Unit) (seeded_mode s)
unfolding seeded_mode
seeded_mode-Unless s =
    if-intro (Unless (λ mode. Unit)) (is_empty s) (λ p. tt)
      (λ p. or_refuse-Unless unknown_none_encoding (parse_none_encoding s) tt)

-- The range of `int64_t`, for the numbers that a parameter can carry.
abbrev pub IsInt64 : ℤ → Type 0
IsInt64 (pos n) = n < 2 ^ 63
IsInt64 (negsuc n) = n < 2 ^ 63

abbrev pub IsMachine : NamedParameter → Type 0
IsMachine (row_limit l) = IsInt64 l
IsMachine (row_offset n) = IsInt64 n
IsMachine _ = Unit

abbrev IsLimit : Option ℕ → Type 0
IsLimit none = Unit
IsLimit (some l) = (1 ≤ l) × (l < 2 ^ 63)

abbrev IsOffset : Option ℕ → Type 0
IsOffset none = Unit
IsOffset (some n) = n < 2 ^ 63

abbrev IsSmall : ScanOptions → Type 0
IsSmall o = IsLimit o.limit_override × IsOffset o.offset_override

set_parameter-IsSmall :
    (p : NamedParameter) (o : ScanOptions)
    → IsMachine p
    → IsSmall o
    → Unless IsSmall (set_parameter p o)
unfolding set_parameter
set_parameter-IsSmall not_supplied o m h = h
set_parameter-IsSmall unnamed o m h = h
set_parameter-IsSmall (user s) o m h = h
set_parameter-IsSmall (password s) o m h = h
set_parameter-IsSmall (charset s) o m h =
    if-intro (Unless IsSmall) (is_accepted_charset s) (λ p. h) (λ p. tt)
set_parameter-IsSmall (role s) o m h = h
set_parameter-IsSmall (dialect n) o m h = h
set_parameter-IsSmall (partitions n) o m h =
    if-intro (Unless IsSmall) (ltb_ℤ n (pos 0)) (λ p. tt) (λ p. h)
set_parameter-IsSmall (row_limit (pos l)) o m h =
    if-intro (Unless IsSmall) (ltb_ℤ (pos 0) (pos l)) (λ p. ((ground arith, m), h.1)) (λ p. tt)
set_parameter-IsSmall (row_limit (negsuc l)) o m h =
    if-intro (Unless IsSmall) (ltb_ℤ (pos 0) (negsuc l)) (λ p. ground arith) (λ p. tt)
set_parameter-IsSmall (row_offset (pos n)) o m h =
    if-intro (Unless IsSmall) (ltb_ℤ (pos n) (pos 0)) (λ p. tt) (λ p. (h.0, m))
set_parameter-IsSmall (row_offset (negsuc n)) o m h =
    if-intro (Unless IsSmall) (ltb_ℤ (negsuc n) (pos 0)) (λ p. tt) (λ p. (h.0, omega arith))
set_parameter-IsSmall (NamedParameter.none_encoding s) o m h =
    then_Unless (λ mode. Unit) IsSmall (or_refuse unknown_none_encoding (parse_none_encoding s))
      (λ mode. bound (record o { none_encoding = mode }))
      (or_refuse-Unless unknown_none_encoding (parse_none_encoding s) tt) (λ mode u. h)
set_parameter-IsSmall (NamedParameter.none_pushdown b) o m h = h
set_parameter-IsSmall (NamedParameter.numeric_widen_int64 b) o m h = h

set_parameters-IsSmall :
    (ps : List NamedParameter) (o : ScanOptions)
    → All IsMachine ps
    → IsSmall o
    → Unless IsSmall (set_parameters ps o)
unfolding set_parameters
set_parameters-IsSmall [] o m h = h
set_parameters-IsSmall (p ∷ ps) o m h =
    then_Unless IsSmall IsSmall (set_parameter p o) (set_parameters ps)
      (set_parameter-IsSmall p o m.0 h) (λ o' h'. set_parameters-IsSmall ps o' m.1 h')

set_keepalive-IsSmall :
    (keepalive : Option ℤ) (o : ScanOptions)
    → IsSmall o
    → Unless IsSmall (set_keepalive keepalive o)
unfolding set_keepalive
set_keepalive-IsSmall none o h = h
set_keepalive-IsSmall (some secs) o h =
    if-intro (Unless IsSmall) (validate_dummy_packet_interval secs) (λ p. h) (λ p. tt)

seeded-IsSmall : (conn_str table : Bytes) → Unless IsSmall (seeded conn_str table)
unfolding seeded
seeded-IsSmall conn_str table =
    then_Unless (λ info. Unit) IsSmall (or_refuse bad_connection_string (parse conn_str))
      (λ info. seeded_mode info.none_encoding >>= λ mode. bound (initial_options table info mode))
      (or_refuse-Unless bad_connection_string (parse conn_str) tt)
      (λ info u.
        then_Unless (λ mode. Unit) IsSmall (seeded_mode info.none_encoding)
          (λ mode. bound (initial_options table info mode)) (seeded_mode-Unless info.none_encoding)
          (λ mode v. (tt, tt)))

-- What the scan relies on of its options: an OFFSET comes with a LIMIT, a LIMIT is positive and its
-- window within 64 bits, and with either there is one partition only.
pub record IsPaged (o : ScanOptions) : Type 0 where
  pub limited : is_valid o.offset_override ≡ true → is_valid o.limit_override ≡ true
  pub serial : is_paging o ≡ true → o.partitions_override ≡ 1
  pub window :
      (limit : ℕ) → o.limit_override ≡ some limit → (1 ≤ limit) × IsInRange o.offset_override limit

in_range :
    (limit offset : Option ℕ)
    → IsLimit limit
    → IsOffset offset
    → (l : ℕ) → limit ≡ some l
    → (1 ≤ l) × IsInRange offset l
in_range none offset a b l e = cc
in_range (some k) none a b l e =
    let same = some-injective k l e in
    (omega (arith, same, a.0), (omega (arith, same, a.1), omega arith))
in_range (some k) (some n) a b l e =
    let same = some-injective k l e in
    (omega (arith, same, a.0), (omega (arith, same, a.1, b), omega (arith, b)))

no_overflow :
    (limit offset : Option ℕ)
    → IsLimit limit
    → IsOffset offset
    → sum_overflows limit offset ≡ true
    → ⊥
no_overflow none offset a b h = cc
no_overflow (some k) none a b h = cc
no_overflow (some k) (some n) a b h = ground (arith, a, b)

implied : (a b : Bool) → (b && not a) ≡ false → b ≡ true → a ≡ true
implied true b h k = refl
implied false true h k = cc
implied false false h k = cc

check_paging-IsPaged : (o : ScanOptions) → IsSmall o → Unless IsPaged (check_paging o)
unfolding check_paging
check_paging-IsPaged o h =
    let window = in_range o.limit_override o.offset_override h.0 h.1 in
    if-intro (Unless IsPaged) (is_valid o.offset_override && not (is_valid o.limit_override))
      (λ p. tt)
      (λ p.
        let limited = implied (is_valid o.limit_override) (is_valid o.offset_override) p in
        if-intro (Unless IsPaged) (is_paging o && ltb 1 o.partitions_override) (λ q. tt)
          (λ q.
            if-intro (Unless IsPaged) (sum_overflows o.limit_override o.offset_override)
              (λ r. no_overflow o.limit_override o.offset_override h.0 h.1 r)
              (λ r.
                if-intro IsPaged (is_paging o)
                  (λ g. record { limited = limited; serial = λ k. refl; window = window })
                  (λ g. record { limited = limited; serial = λ k. cc; window = window }))))

-- Options that are let through have an OFFSET only with a LIMIT, a positive LIMIT whose window is
-- within 64 bits, and one partition if there is a LIMIT or an OFFSET; and the refusal of a sum of
-- LIMIT and OFFSET beyond 64 bits is never met; for every connection string, setting and list of
-- named parameters with 64-bit numbers.
pub scan_options-IsPaged :
    (conn_str table : Bytes) (ps : List NamedParameter) (keepalive : Option ℤ)
    → All IsMachine ps
    → Unless IsPaged (scan_options conn_str table ps keepalive)
unfolding scan_options
scan_options-IsPaged conn_str table ps keepalive m =
    then_Unless IsSmall IsPaged (seeded conn_str table)
      (λ o. set_parameters ps o >>= λ o'. set_keepalive keepalive o' >>= check_paging)
      (seeded-IsSmall conn_str table)
      (λ o h.
        then_Unless IsSmall IsPaged (set_parameters ps o)
          (λ o'. set_keepalive keepalive o' >>= check_paging) (set_parameters-IsSmall ps o m h)
          (λ o' h'.
            then_Unless IsSmall IsPaged (set_keepalive keepalive o') check_paging
              (set_keepalive-IsSmall keepalive o' h') check_paging-IsPaged))
