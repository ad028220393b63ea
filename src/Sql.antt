-- ===== src/Sql.antt =====
-- SQL text that the extension writes: `QuoteIdent` of src/firebird_types.cpp and `SqlLiteral` of
-- src/firebird_scanner.cpp, src/firebird_view_analysis.cpp and others.
pub mod Decimal
pub mod Lexer
pub mod Quoting
pub mod Fragment
use duckdb_firebird.Common.{ℕ, List, [], ◌∷◌, ◌++◌, Bytes, ◌==◌, if◌then◌else◌}

-- The loop over the bytes, which doubles the quote.
unfoldable pub escaped : ℕ → Bytes → Bytes
escaped q [] = []
escaped q (c ∷ s) = (if c == q then q ∷ c ∷ [] else c ∷ []) ++ escaped q s

unfoldable pub quote_ident : Bytes → Bytes
quote_ident name = b'"' ∷ (escaped b'"' name ++ b'"' ∷ [])

unfoldable pub sql_literal : Bytes → Bytes
sql_literal s = b'\'' ∷ (escaped b'\'' s ++ b'\'' ∷ [])
