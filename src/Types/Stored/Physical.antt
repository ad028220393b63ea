-- ===== src/Types/Stored/Physical.antt =====
-- The cell that `FirebirdAppendValue` writes (src/firebird_types.cpp) against the physical type of the
-- vector that src/firebird_scanner.cpp declares from the description in the catalog.
use duckdb_firebird.Common.{◌≡◌, false, ◌⊎◌}
use duckdb_firebird.Common.Int.{pos}
use duckdb_firebird.Charset.Transcode.{NoneEncoding}
use duckdb_firebird.Duck.{LogicalType}
use duckdb_firebird.Firebird.{
  FirebirdColumnDesc, SqlKind, int_eq, sql_varying, sql_dec16, sql_dec34,
}
use duckdb_firebird.Types.Stored.{Fetched, Vectors, kind_cell}
use duckdb_firebird.Types.Stored.Layout.{IsLayout, AllFits}

module _ (vs : Vectors) (lay : IsLayout vs.internal_type) (row : Fetched)
    (desc : FirebirdColumnDesc) (mode : NoneEncoding) where
  abbrev RawFits : SqlKind → Type 0
  RawFits k =
      AllFits (kind_cell vs row desc LogicalType.blob mode k) (vs.internal_type LogicalType.blob)

-- How the cursor describes a column of the catalog: alike, or, for a DECFLOAT, which the projection
-- casts, as a VARCHAR of a character set.
abbrev pub IsDelivered : FirebirdColumnDesc → FirebirdColumnDesc → Type 0
IsDelivered cat live =
    ((live.sqltype ≡ cat.sqltype)
      × (live.sqlsubtype ≡ cat.sqlsubtype)
      × (live.sqlscale ≡ cat.sqlscale)
      × (live.character_set_id ≡ cat.character_set_id))
    ⊎ (((cat.sqltype ≡ sql_dec16) ⊎ (cat.sqltype ≡ sql_dec34))
        × (live.sqltype ≡ sql_varying)
        × (int_eq live.character_set_id (pos 0) ≡ false))
