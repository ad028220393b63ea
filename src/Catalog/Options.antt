-- ===== src/Catalog/Options.antt =====
-- The options of ATTACH (src/firebird_storage.cpp) against the named parameters of a scan
-- (src/firebird_scanner.cpp), and what `FirebirdAttach` lets through.
use duckdb_firebird.Common.{
  ◌≡◌, refl, ap, ◌∙◌, true, false, Option, none, some, List, [], ◌∷◌, map, Bytes, All, if-true,
  if-intro,
}
use duckdb_firebird.Common.Int.{ℤ, pos, ltb_ℤ}
use duckdb_firebird.Charset.Transcode.{NoneEncoding}
use duckdb_firebird.Connection.{
  FirebirdConnectionInfo, parse, parse_none_encoding, validate_dummy_packet_interval,
}
use duckdb_firebird.Pool.{FirebirdConnectionPoolConfig}
use duckdb_firebird.Binding.{
  NamedParameter, Bound, bound, refused, bad_connection_string, unknown_none_encoding, ◌>>=◌,
  or_refuse, ScanOptions, is_accepted_charset, set_parameter, set_parameters, seeded_mode,
  initial_options, seeded,
}
use duckdb_firebird.Catalog.Attach.{
  AttachOption, unrecognised, null_text, null_number_or_flag, user, password, charset, role,
  dialect, Attached, set_option, set_options, initial_attached, build_connection_info,
  read_pool_setting, Session, build_pool_config, set_interval, firebird_attach,
}

-- The parameter of a scan that has the same name.
abbrev pub parameter_of : AttachOption → NamedParameter
parameter_of unrecognised = NamedParameter.unnamed
parameter_of (null_text key) = NamedParameter.not_supplied
parameter_of null_number_or_flag = NamedParameter.not_supplied
parameter_of (user s) = NamedParameter.user s
parameter_of (password s) = NamedParameter.password s
parameter_of (charset s) = NamedParameter.charset s
parameter_of (role s) = NamedParameter.role s
parameter_of (dialect n) = NamedParameter.dialect n
parameter_of (AttachOption.none_encoding s) = NamedParameter.none_encoding s
parameter_of (AttachOption.none_pushdown b) = NamedParameter.none_pushdown b
parameter_of (AttachOption.numeric_widen_int64 b) = NamedParameter.numeric_widen_int64 b

-- A value that is not NULL, and a character set that a scan accepts.
abbrev pub IsAccepted : AttachOption → Type 0
IsAccepted (null_text key) = ⊥
IsAccepted null_number_or_flag = ⊥
IsAccepted (charset s) = is_accepted_charset s ≡ true
IsAccepted _ = Unit

-- The options of a scan of a table, without paging or partitions.
abbrev pub scan_of : Bytes → Attached → ScanOptions
scan_of table a = record (initial_options table a.conn a.out_none) {
  none_pushdown = a.out_none_pushdown;
  numeric_widen_int64 = a.out_numeric_widen;
}

abbrev pub mapped : Bytes → Bound Attached → Bound ScanOptions
mapped table (bound a) = bound (scan_of table a)
mapped table (refused e) = refused e

set_option-set_parameter :
    (table : Bytes) (o : AttachOption) (a : Attached)
    → IsAccepted o
    → set_parameter (parameter_of o) (scan_of table a) ≡ mapped table (set_option o a)
unfolding set_parameter set_option
set_option-set_parameter table unrecognised a h = refl
set_option-set_parameter table (null_text key) a h = absurd h
set_option-set_parameter table null_number_or_flag a h = absurd h
set_option-set_parameter table (user s) a h = refl
set_option-set_parameter table (password s) a h = refl
set_option-set_parameter table (charset s) a h = if-true _ _ h
set_option-set_parameter table (role s) a h = refl
set_option-set_parameter table (dialect n) a h = refl
set_option-set_parameter table (AttachOption.none_encoding s) a h = by_mode (parse_none_encoding s)
  where
    by_mode :
        (m : Option NoneEncoding)
        → (or_refuse unknown_none_encoding m >>= λ mode.
            bound (record (scan_of table a) { none_encoding = mode }))
          ≡ mapped table
              (or_refuse unknown_none_encoding m >>= λ mode. bound (record a { out_none = mode }))
    by_mode none = refl
    by_mode (some mode) = refl
set_option-set_parameter table (AttachOption.none_pushdown b) a h = refl
set_option-set_parameter table (AttachOption.numeric_widen_int64 b) a h = refl

set_options-set_parameters :
    (table : Bytes) (os : List AttachOption) (a : Attached)
    → All IsAccepted os
    → set_parameters (map parameter_of os) (scan_of table a) ≡ mapped table (set_options os a)
unfolding set_parameters set_options
set_options-set_parameters table [] a h = refl
set_options-set_parameters table (o ∷ os) a h =
    ap (λ r. r >>= set_parameters (map parameter_of os)) (set_option-set_parameter table o a h.0)
    ∙ by_result (λ a'. set_options-set_parameters table os a' h.1) (set_option o a)
  where
    by_result :
        ((a' : Attached)
          → set_parameters (map parameter_of os) (scan_of table a')
            ≡ mapped table (set_options os a'))
        → (r : Bound Attached)
        → (mapped table r >>= set_parameters (map parameter_of os))
          ≡ mapped table (r >>= set_options os)
    by_result k (refused e) = refl
    by_result k (bound a') = k a'

-- If no option is NULL, and every character set is one that a scan accepts, then a scan with the
-- options of ATTACH as its parameters gets the connection and the settings that ATTACH gets, or is
-- refused for the same reason.
pub build_connection_info-set_parameters :
    (path table : Bytes) (os : List AttachOption)
    → All IsAccepted os
    → (seeded path table >>= set_parameters (map parameter_of os))
      ≡ mapped table (build_connection_info path os)
unfolding seeded build_connection_info
build_connection_info-set_parameters path table os h = by_info (parse path)
  where
    by_mode :
        (info : FirebirdConnectionInfo) (m : Bound NoneEncoding)
        → (m
            >>= (λ mode. bound (initial_options table info mode))
            >>= set_parameters (map parameter_of os))
          ≡ mapped table (m >>= λ mode. set_options os (initial_attached info mode))
    by_mode info (refused e) = refl
    by_mode info (bound mode) = set_options-set_parameters table os (initial_attached info mode) h

    by_info :
        (o : Option FirebirdConnectionInfo)
        → (or_refuse bad_connection_string o
            >>= (λ info.
                seeded_mode info.none_encoding >>= λ mode. bound (initial_options table info mode))
            >>= set_parameters (map parameter_of os))
          ≡ mapped table (
              or_refuse bad_connection_string o >>= λ info.
              seeded_mode info.none_encoding >>= λ mode.
              set_options os (initial_attached info mode))
    by_info none = refl
    by_info (some info) = by_mode info (seeded_mode info.none_encoding)

-- What `FirebirdAttach` lets through: a keep-alive interval that `int` holds, and no negative size or
-- timeout.
pub record IsSound (r : Attached × FirebirdConnectionPoolConfig) : Type 0 where
  pub keepalive : validate_dummy_packet_interval r.0.conn.dummy_packet_interval_secs ≡ true
  pub size : ltb_ℤ r.1.max_size (pos 0) ≡ false
  pub timeout : ltb_ℤ r.1.idle_timeout_ms (pos 0) ≡ false

abbrev pub Accepts {ℓ} : {A : Type ℓ} → (A → Type 0) → Bound A → Type 0
Accepts P (bound a) = P a
Accepts P (refused e) = Unit

then_Accepts {ℓ κ} :
    {A : Type ℓ} {B : Type κ} (P : A → Type 0) (Q : B → Type 0) (m : Bound A) (f : A → Bound B)
    → Accepts P m
    → ((a : A) → P a → Accepts Q (f a))
    → Accepts Q (m >>= f)
then_Accepts P Q (bound a) f h k = k a h
then_Accepts P Q (refused e) f h k = tt

set_interval-Accepts :
    (secs : ℤ) (a : Attached)
    → Accepts
        (λ (a' : Attached).
          validate_dummy_packet_interval a'.conn.dummy_packet_interval_secs ≡ true)
        (set_interval secs a)
unfolding set_interval
set_interval-Accepts secs a =
    if-intro
      (Accepts (λ (a' : Attached).
        validate_dummy_packet_interval a'.conn.dummy_packet_interval_secs ≡ true))
      (validate_dummy_packet_interval secs) (λ p. p) (λ p. tt)

abbrev IsNonnegative : FirebirdConnectionPoolConfig → Type 0
IsNonnegative c = (ltb_ℤ c.max_size (pos 0) ≡ false) × (ltb_ℤ c.idle_timeout_ms (pos 0) ≡ false)

build_pool_config-Accepts : (s : Session) → Accepts IsNonnegative (build_pool_config s)
unfolding build_pool_config
build_pool_config-Accepts s =
    if-intro (Accepts IsNonnegative) (ltb_ℤ (read_pool_setting s.pool_max_size (pos 0)) (pos 0))
      (λ p. tt)
      (λ p.
        if-intro (Accepts IsNonnegative)
          (ltb_ℤ (read_pool_setting s.pool_idle_timeout_ms (pos 0)) (pos 0)) (λ q. tt)
          (λ q. (p, q)))

anything {ℓ} : {A : Type ℓ} (m : Bound A) → Accepts (λ a. Unit) m
anything (bound a) = tt
anything (refused e) = tt

-- Whatever the path, the options and the settings are, a catalog that is attached has an interval
-- that the check lets through, and a pool whose size and timeout are not negative.
pub firebird_attach-IsSound :
    (path : Bytes) (os : List AttachOption) (s : Session)
    → Accepts IsSound (firebird_attach path os s)
unfolding firebird_attach
firebird_attach-IsSound path os s =
    then_Accepts (λ a. Unit) IsSound (build_connection_info path os) _
      (anything (build_connection_info path os))
      (λ a u.
        then_Accepts
          (λ (a' : Attached).
            validate_dummy_packet_interval a'.conn.dummy_packet_interval_secs ≡ true)
          IsSound (set_interval (read_pool_setting s.dummy_packet_interval (pos 0)) a) _
          (set_interval-Accepts (read_pool_setting s.dummy_packet_interval (pos 0)) a)
          (λ a' h.
            then_Accepts IsNonnegative IsSound (build_pool_config s) _ (build_pool_config-Accepts s)
              (λ c k. record { keepalive = h; size = k.0; timeout = k.1 })))
