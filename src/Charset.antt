-- ===== src/Charset.antt =====
-- Text of columns with CHARACTER SET NONE, and UTF-8: src/firebird_types.cpp (validation and
-- transcoding at fetch time), src/firebird_scanner.cpp (re-encoding of pushed literals) and
-- src/firebird_observability.cpp (display form of remote SQL).
pub mod Utf8
pub mod Validate
pub mod Literal
pub mod Transcode
pub mod Display
