-- ===== src/Tests/Charset.antt =====
-- The theorems on src/firebird_types.cpp, src/firebird_scanner.cpp and
-- src/firebird_observability.cpp that read UTF-8, applied to the letter é and its neighbours.
use duckdb_firebird.Common.{
  ◌≡◌, ◌↔◌, refl, true, false, some, [], ◌∷◌, Bytes, IsByte, All, arith, inl,
}
use duckdb_firebird.Charset.Utf8.{encode, IsUtf8}
use duckdb_firebird.Charset.Validate.{is_valid_utf8}
use duckdb_firebird.Charset.Validate.Sound.{is_valid_utf8_iff}
use duckdb_firebird.Charset.Transcode.{
  win1252, win1252_to_utf8, transcode_none_charset, win1252_byte, append_utf8,
  cp1252_high_byte_to_code_point,
}
use duckdb_firebird.Charset.Literal.{
  decode_utf8_codepoint, try_encode_none_literal, encode_from, encode_codepoint, more_bytes,
  lead_length, in_range,
}
use duckdb_firebird.Charset.Literal.RoundTrip.{pushed_literal_exact}
use duckdb_firebird.Charset.Display.{make_telemetry_safe_utf8, is_ascii}
use duckdb_firebird.Charset.Display.Safe.{make_telemetry_safe_utf8-IsUtf8}

-- The letter é, in UTF-8 and as the byte of Windows-1252.
abbrev e_acute : Bytes
e_acute = 195 ∷ 169 ∷ []

abbrev e_stored : Bytes
e_stored = 233 ∷ []

e_acute-IsByte : All IsByte e_acute
e_acute-IsByte = (omega arith, (omega arith, tt))

e_stored-IsByte : All IsByte e_stored
e_stored-IsByte = (omega arith, tt)

e_acute-IsUtf8 : IsUtf8 e_acute
unfolding encode
e_acute-IsUtf8 = (233 ∷ [], (inl (omega arith), tt), refl)

e_encoded : try_encode_none_literal e_acute win1252 ≡ some e_stored
unfolding try_encode_none_literal encode_from decode_utf8_codepoint encode_codepoint more_bytes
    lead_length in_range
e_encoded = refl

e_transcoded : transcode_none_charset e_stored win1252 ≡ some e_acute
unfolding transcode_none_charset win1252_to_utf8 win1252_byte append_utf8
    cp1252_high_byte_to_code_point
e_transcoded = refl

e_decoded : decode_utf8_codepoint e_acute ≡ some (233, 2)
unfolding decode_utf8_codepoint more_bytes lead_length in_range
e_decoded = refl

e_wide : is_ascii e_acute ≡ false
unfolding is_ascii
e_wide = refl

is_valid_utf8_iff_example : (is_valid_utf8 e_acute ≡ true) ↔ IsUtf8 e_acute
is_valid_utf8_iff_example = is_valid_utf8_iff e_acute e_acute-IsByte

pushed_literal_exact_example :
    (e_stored ≡ e_stored) ↔ (transcode_none_charset e_stored win1252 ≡ some e_acute)
pushed_literal_exact_example =
    pushed_literal_exact win1252 e_acute e_stored e_stored (inl refl) e_acute-IsByte e_stored-IsByte
      e_encoded

make_telemetry_safe_utf8-IsUtf8_example : IsUtf8 (make_telemetry_safe_utf8 e_stored)
make_telemetry_safe_utf8-IsUtf8_example = make_telemetry_safe_utf8-IsUtf8 e_stored e_stored-IsByte
