-- ===== src/Observability/Snapshot.antt =====
-- The log of `FirebirdObservabilityState` (src/firebird_observability.cpp): its length, its snapshot,
-- its older entries, and its statements as text.
use duckdb_firebird.Common.{
  ℕ, zero, suc, ◌≤◌, ◌≡◌, refl, sym, ap, ◌∙◌, subst, Option, none, some, List, [], ◌∷◌, ◌++◌,
  IsByte, All, All-append, length, ltb, if-intro, arith,
}
use duckdb_firebird.Common.Int.{pos, negsuc, ◌+ℤ◌, ◌-ℤ◌}
use duckdb_firebird.Charset.Utf8.{IsUtf8}
use duckdb_firebird.Charset.Display.Safe.{make_telemetry_safe_utf8-IsUtf8}
use duckdb_firebird.Observability.Sanitize.{sanitize_error_message}
use duckdb_firebird.Observability.{
  FirebirdQueryTelemetry, displayable, with_rows_read, with_bytes_read_estimate,
  with_firebird_time_us, with_total_time_us, with_error_message, FirebirdObservabilityState, trim,
  record_query, at_back, add_rows, add_bytes, add_firebird_time_us, update_total_time_us, set_error,
  reversed, snapshot_log,
}
use duckdb_firebird.Observability.Log.{
  Operation, records, adds_rows, adds_bytes, adds_time, totals, fails, apply, run, newest,
}

-- Records are bytes, and are logged with a size of at most `n`.
abbrev pub IsCall : ℕ → Operation → Type 0
IsCall n (records rec (pos size) now) = All IsByte rec.remote_sql × size ≤ n
IsCall n (records rec (negsuc size) now) = All IsByte rec.remote_sql
IsCall n _ = Unit

abbrev pub IsDisplayed : FirebirdQueryTelemetry → Type 0
IsDisplayed r = IsUtf8 r.remote_sql

-- At most `n` entries, whose statements and that of the last query are UTF-8.
pub record IsLog (n : ℕ) (st : FirebirdObservabilityState) : Type 0 where
  pub bounded : length st.log ≤ n
  pub last_displayed : IsDisplayed st.last
  pub displayed : All IsDisplayed st.log

trim-length : (n : ℕ) (l : List FirebirdQueryTelemetry) → length (trim n l) ≤ n
unfolding trim
trim-length n [] = omega arith
trim-length n (x ∷ xs) = ground (arith, trim-length n xs)

trim-IsDisplayed :
    (n : ℕ) (l : List FirebirdQueryTelemetry) → All IsDisplayed l → All IsDisplayed (trim n l)
unfolding trim
trim-IsDisplayed n [] h = tt
trim-IsDisplayed n (x ∷ xs) h =
    if-intro (All IsDisplayed) (ltb n (suc (length xs))) (λ p. trim-IsDisplayed n xs h.1) (λ p. h)

at_back-length :
    (f : FirebirdQueryTelemetry → FirebirdQueryTelemetry) (l : List FirebirdQueryTelemetry)
    → length (at_back f l) ≡ length l
unfolding at_back
at_back-length f [] = refl
at_back-length f (x ∷ []) = refl
at_back-length f (x ∷ y ∷ xs) = ap suc (at_back-length f (y ∷ xs))

at_back-IsDisplayed :
    (f : FirebirdQueryTelemetry → FirebirdQueryTelemetry)
    → ((r : FirebirdQueryTelemetry) → (f r).remote_sql ≡ r.remote_sql)
    → (l : List FirebirdQueryTelemetry) → All IsDisplayed l
    → All IsDisplayed (at_back f l)
unfolding at_back
at_back-IsDisplayed f e [] h = tt
at_back-IsDisplayed f e (x ∷ []) h = (subst IsUtf8 (sym (e x)) h.0, tt)
at_back-IsDisplayed f e (x ∷ y ∷ xs) h = (h.0, at_back-IsDisplayed f e (y ∷ xs) h.1)

changed :
    (n : ℕ) (f : FirebirdQueryTelemetry → FirebirdQueryTelemetry) (st : FirebirdObservabilityState)
    → ((r : FirebirdQueryTelemetry) → (f r).remote_sql ≡ r.remote_sql)
    → IsLog n st
    → IsLog n (record { last = f st.last; start = st.start; log = at_back f st.log })
changed n f st e h = record {
  bounded = omega (arith, h.bounded, at_back-length f st.log);
  last_displayed = subst IsUtf8 (sym (e st.last)) h.last_displayed;
  displayed = at_back-IsDisplayed f e st.log h.displayed;
}

displayable-IsDisplayed :
    (r : FirebirdQueryTelemetry) → All IsByte r.remote_sql → IsDisplayed (displayable r)
unfolding displayable
displayable-IsDisplayed r h = make_telemetry_safe_utf8-IsUtf8 r.remote_sql h

IsLog-apply :
    (n : ℕ) (op : Operation) (st : FirebirdObservabilityState)
    → IsCall n op
    → IsLog n st
    → IsLog n (apply op st)
unfolding apply record_query add_rows add_bytes add_firebird_time_us update_total_time_us set_error
IsLog-apply n (records rec (pos zero) now) st c h = record {
  bounded = omega arith;
  last_displayed = displayable-IsDisplayed rec c.0;
  displayed = tt;
}
IsLog-apply n (records rec (pos (suc size)) now) st c h = record {
  bounded = omega (arith, c.1, trim-length (suc size) (st.log ++ displayable rec ∷ []));
  last_displayed = displayable-IsDisplayed rec c.0;
  displayed = trim-IsDisplayed (suc size) (st.log ++ displayable rec ∷ []) (
      All-append IsDisplayed st.log (displayable rec ∷ []) h.displayed
        (displayable-IsDisplayed rec c.0, tt));
}
IsLog-apply n (records rec (negsuc size) now) st c h = record {
  bounded = omega arith;
  last_displayed = displayable-IsDisplayed rec c;
  displayed = tt;
}
IsLog-apply n (adds_rows k) st c h =
    changed n (with_rows_read (st.last.rows_read +ℤ k)) st (λ r. refl) h
IsLog-apply n (adds_bytes k) st c h =
    changed n (with_bytes_read_estimate (st.last.bytes_read_estimate +ℤ k)) st (λ r. refl) h
IsLog-apply n (adds_time us) st c h =
    changed n (with_firebird_time_us (st.last.firebird_time_us +ℤ us)) st (λ r. refl) h
IsLog-apply n (totals now) st c h =
    changed n (with_total_time_us (now -ℤ st.start)) st (λ r. refl) h
IsLog-apply n (fails msg) st c h =
    changed n (with_error_message (sanitize_error_message msg)) st (λ r. refl) h

-- If every record is made of bytes and is logged with a size of at most `n`, then any sequence of
-- operations keeps the log at most `n` long, and keeps the statements of its entries and of the
-- last query UTF-8, from a state of which this holds.
pub run-IsLog :
    (n : ℕ) (ops : List Operation) (st : FirebirdObservabilityState)
    → All (IsCall n) ops
    → IsLog n st
    → IsLog n (run ops st)
unfolding run
run-IsLog n [] st c h = h
run-IsLog n (op ∷ ops) st c h = run-IsLog n ops (apply op st) c.1 (IsLog-apply n op st c.0 h)

-- The entries but the newest.
abbrev pub older : List FirebirdQueryTelemetry → List FirebirdQueryTelemetry
older [] = []
older (x ∷ []) = []
older (x ∷ y ∷ xs) = x ∷ older (y ∷ xs)

older-at_back :
    (f : FirebirdQueryTelemetry → FirebirdQueryTelemetry) (l : List FirebirdQueryTelemetry)
    → older (at_back f l) ≡ older l
unfolding at_back
older-at_back f [] = refl
older-at_back f (x ∷ []) = refl
older-at_back f (x ∷ y ∷ []) = refl
older-at_back f (x ∷ y ∷ z ∷ xs) = ap (◌∷◌ x) (older-at_back f (y ∷ z ∷ xs))

-- Operations on the running query.
abbrev pub IsUpdate : Operation → Type 0
IsUpdate (records rec size now) = ⊥
IsUpdate _ = Unit

-- Whatever a running query reports, the entries of older queries stay as they are.
pub apply-older :
    (op : Operation) (st : FirebirdObservabilityState)
    → IsUpdate op
    → older (apply op st).log ≡ older st.log
unfolding apply record_query add_rows add_bytes add_firebird_time_us update_total_time_us set_error
apply-older (records rec size now) st h = elim h [ ]
apply-older (adds_rows k) st h = older-at_back (with_rows_read (st.last.rows_read +ℤ k)) st.log
apply-older (adds_bytes k) st h =
    older-at_back (with_bytes_read_estimate (st.last.bytes_read_estimate +ℤ k)) st.log
apply-older (adds_time us) st h =
    older-at_back (with_firebird_time_us (st.last.firebird_time_us +ℤ us)) st.log
apply-older (totals now) st h = older-at_back (with_total_time_us (now -ℤ st.start)) st.log
apply-older (fails msg) st h =
    older-at_back (with_error_message (sanitize_error_message msg)) st.log

abbrev pub first : List FirebirdQueryTelemetry → Option FirebirdQueryTelemetry
first [] = none
first (x ∷ xs) = some x

first-reversed :
    (acc l : List FirebirdQueryTelemetry) (r : FirebirdQueryTelemetry)
    → newest l ≡ some r
    → first (reversed acc l) ≡ some r
unfolding reversed newest
first-reversed acc [] r h = cc
first-reversed acc (x ∷ []) r h = h
first-reversed acc (x ∷ y ∷ xs) r h = first-reversed (x ∷ acc) (y ∷ xs) r h

newest_of :
    (x : FirebirdQueryTelemetry) (xs : List FirebirdQueryTelemetry)
    → (r : FirebirdQueryTelemetry) × (newest (x ∷ xs) ≡ some r)
unfolding newest
newest_of x [] = (x, refl)
newest_of x (y ∷ xs) = newest_of y xs

reversed-newest : (l : List FirebirdQueryTelemetry) → first (reversed [] l) ≡ newest l
unfolding reversed newest
reversed-newest [] = refl
reversed-newest (x ∷ xs) = let r = newest_of x xs in first-reversed [] (x ∷ xs) r.0 r.1 ∙ sym r.1

-- The snapshot of a log shows the newest entry first, and is as empty as the log.
pub snapshot_log-newest :
    (st : FirebirdObservabilityState) → first (snapshot_log st) ≡ newest st.log
unfolding snapshot_log
snapshot_log-newest st = reversed-newest st.log
