-- ===== src/Observability/Log.antt =====
-- The log of `FirebirdObservabilityState` (src/firebird_observability.cpp) over any sequence of its
-- operations.
use duckdb_firebird.Common.{
  ℕ, zero, suc, ◌≡◌, refl, ◌∙◌, false, Option, none, some, List, [], ◌∷◌, ◌++◌, Bytes, length, ltb,
  if-intro, arith, ◌⊎◌, inl, inr,
}
use duckdb_firebird.Common.Int.{ℤ, pos, negsuc, ◌+ℤ◌, ◌-ℤ◌}
use duckdb_firebird.Observability.Sanitize.{sanitize_error_message}
use duckdb_firebird.Observability.{
  FirebirdQueryTelemetry, displayable, with_rows_read, with_bytes_read_estimate,
  with_firebird_time_us, with_total_time_us, with_error_message, FirebirdObservabilityState, trim,
  logged, record_query, at_back, add_rows, add_bytes, add_firebird_time_us, update_total_time_us,
  set_error,
}

-- One call, with the clock where the code reads it.
pub data Operation : Type 0 where
  records : FirebirdQueryTelemetry → ℤ → ℤ → Operation
  adds_rows adds_bytes adds_time totals : ℤ → Operation
  fails : Bytes → Operation

unfoldable pub apply : Operation → FirebirdObservabilityState → FirebirdObservabilityState
apply (records rec log_size now) st = record_query rec log_size now st
apply (adds_rows n) st = add_rows n st
apply (adds_bytes n) st = add_bytes n st
apply (adds_time us) st = add_firebird_time_us us st
apply (totals now) st = update_total_time_us now st
apply (fails msg) st = set_error msg st

unfoldable pub run : List Operation → FirebirdObservabilityState → FirebirdObservabilityState
run [] st = st
run (op ∷ ops) st = run ops (apply op st)

-- The newest entry.
unfoldable pub newest : List FirebirdQueryTelemetry → Option FirebirdQueryTelemetry
newest [] = none
newest (x ∷ []) = some x
newest (x ∷ y ∷ xs) = newest (y ∷ xs)

-- The log is empty, or its newest entry is the last query.
abbrev pub IsMirrored : FirebirdObservabilityState → Type 0
IsMirrored st = (st.log ≡ []) ⊎ (newest st.log ≡ some st.last)

newest-at_back :
    (f : FirebirdQueryTelemetry → FirebirdQueryTelemetry) (l : List FirebirdQueryTelemetry)
    (r : FirebirdQueryTelemetry)
    → newest l ≡ some r
    → newest (at_back f l) ≡ some (f r)
unfolding newest at_back
newest-at_back f [] r h = cc
newest-at_back f (x ∷ []) r h = cc
newest-at_back f (x ∷ y ∷ []) r h = newest-at_back f (y ∷ []) r h
newest-at_back f (x ∷ y ∷ z ∷ xs) r h = newest-at_back f (y ∷ z ∷ xs) r h

newest-trim :
    (n : ℕ) (x : FirebirdQueryTelemetry) (xs : List FirebirdQueryTelemetry)
    → newest (trim (suc n) (x ∷ xs)) ≡ newest (x ∷ xs)
unfolding newest trim
newest-trim n x [] = let p : ltb (suc n) 1 ≡ false = ground arith in rw p
newest-trim n x (y ∷ xs) =
    if-intro (λ l. newest l ≡ newest (y ∷ xs)) (ltb (suc n) (suc (suc (length xs))))
      (λ p. newest-trim n y xs) (λ p. refl)

newest-append :
    (l : List FirebirdQueryTelemetry) (r : FirebirdQueryTelemetry) → newest (l ++ r ∷ []) ≡ some r
unfolding newest
newest-append [] r = refl
newest-append (x ∷ []) r = refl
newest-append (x ∷ y ∷ xs) r = newest-append (y ∷ xs) r

newest-logged :
    (size : ℤ) (l : List FirebirdQueryTelemetry) (r : FirebirdQueryTelemetry)
    → (logged size l r ≡ []) ⊎ (newest (logged size l r) ≡ some r)
newest-logged (pos zero) l r = inl refl
newest-logged (pos (suc n)) [] r = inr (newest-trim n r [] ∙ newest-append [] r)
newest-logged (pos (suc n)) (x ∷ l) r =
    inr (newest-trim n x (l ++ r ∷ []) ∙ newest-append (x ∷ l) r)
newest-logged (negsuc n) l r = inl refl

mirrored_change :
    (f : FirebirdQueryTelemetry → FirebirdQueryTelemetry) (l : List FirebirdQueryTelemetry)
    (r : FirebirdQueryTelemetry)
    → (l ≡ []) ⊎ (newest l ≡ some r)
    → (at_back f l ≡ []) ⊎ (newest (at_back f l) ≡ some (f r))
unfolding at_back
mirrored_change f l r (inl h) = inl (rw h)
mirrored_change f l r (inr h) = inr (newest-at_back f l r h)

IsMirrored-apply :
    (op : Operation) (st : FirebirdObservabilityState) → IsMirrored st → IsMirrored (apply op st)
unfolding apply record_query add_rows add_bytes add_firebird_time_us update_total_time_us set_error
IsMirrored-apply (records rec size now) st h = newest-logged size st.log (displayable rec)
IsMirrored-apply (adds_rows n) st h =
    mirrored_change (with_rows_read (st.last.rows_read +ℤ n)) st.log st.last h
IsMirrored-apply (adds_bytes n) st h =
    mirrored_change (with_bytes_read_estimate (st.last.bytes_read_estimate +ℤ n)) st.log st.last h
IsMirrored-apply (adds_time us) st h =
    mirrored_change (with_firebird_time_us (st.last.firebird_time_us +ℤ us)) st.log st.last h
IsMirrored-apply (totals now) st h =
    mirrored_change (with_total_time_us (now -ℤ st.start)) st.log st.last h
IsMirrored-apply (fails msg) st h =
    mirrored_change (with_error_message (sanitize_error_message msg)) st.log st.last h

-- From any state in which the log is empty or its newest entry is the last query, this is so after
-- any sequence of operations, with the log size changed between them or not.
pub run-IsMirrored :
    (ops : List Operation) (st : FirebirdObservabilityState)
    → IsMirrored st
    → IsMirrored (run ops st)
unfolding run
run-IsMirrored [] st h = h
run-IsMirrored (op ∷ ops) st h = run-IsMirrored ops (apply op st) (IsMirrored-apply op st h)
