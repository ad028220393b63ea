-- ===== src/Tests/Query.antt =====
-- The theorems on src/firebird_query.cpp, applied to a table of two columns.
use duckdb_firebird.Common.{
  ℕ, ◌≡◌, ◌⊎◌, refl, true, false, some, List, [], ◌∷◌, ◌++◌, codes, length,
}
use duckdb_firebird.Common.Int.{pos, negsuc}
use duckdb_firebird.Charset.Transcode.{win1252}
use duckdb_firebird.Duck.{
  Value, Duckdb, TableFilter, integer, compare_greaterthan, constant_comparison, is_not_null,
}
use duckdb_firebird.Firebird.{FirebirdColumnDesc}
use duckdb_firebird.Sql.{quote_ident, escaped}
use duckdb_firebird.Sql.Lexer.{IsFragment, lex, marks, read_quoted}
use duckdb_firebird.Sql.Quoting.{read_quoted-quote_ident}
use duckdb_firebird.Query.Values.{comparison_to_sql, compare_with, is_bindable_type}
use duckdb_firebird.Query.Translate.{translate_filter}
use duckdb_firebird.Query.Build.{Scan, nothing_pushed, push_filter, build}
use duckdb_firebird.Query.Placeholders.{IsPrinter}
use duckdb_firebird.Query.Placeholders.Statement.{build-IsFragment}
use duckdb_firebird.Query.Pushdown.{IsKeptBack, IsPushed, push_filter-verdict}

abbrev engine : Duckdb
engine = record { flip = λ type. type; to_string = λ v. codes "7" }

engine-IsPrinter : IsPrinter engine
engine-IsPrinter = record { plain = λ v h. ((refl, refl, refl), tt) }

abbrev number_column : FirebirdColumnDesc
number_column = record {
  name = codes "ID";
  sqltype = 496;
  sqlsubtype = pos 0;
  sqlscale = pos 0;
  sqllen = pos 4;
  character_set_id = negsuc 0;
  nullable = false;
}

abbrev text_column : FirebirdColumnDesc
text_column = record {
  name = codes "NAME";
  sqltype = 448;
  sqlsubtype = pos 0;
  sqlscale = pos 0;
  sqllen = pos 20;
  character_set_id = pos 0;
  nullable = true;
}

abbrev two_columns : Scan
two_columns = record {
  table_name = codes "PEOPLE";
  all_column_names = codes "ID" ∷ codes "NAME" ∷ [];
  column_ids = 0 ∷ 1 ∷ [];
  column_descs = some (number_column ∷ text_column ∷ []);
  none_encoding = win1252;
}

abbrev five : Value
five = record { type = integer; is_null = false; payload = codes "5" }

abbrev above_five : TableFilter
above_five = constant_comparison compare_greaterthan five

abbrev two_filters : List (ℕ × TableFilter)
two_filters = (0, above_five) ∷ (1, is_not_null) ∷ []

predicate : IsFragment 0 (codes "ID >= 1")
unfolding lex marks
predicate = record { closed = refl; counted = refl }

order : IsFragment 0 (codes "ID")
unfolding lex marks
order = record { closed = refl; counted = refl }

build-IsFragment_example :
    IsFragment
      (length
        (build engine two_columns two_filters
          (codes "ID >= 1")
          (some 10)
          (some 5)
          (codes "ID")).progress.params)
      (build engine two_columns two_filters (codes "ID >= 1") (some 10) (some 5) (codes "ID")).sql
build-IsFragment_example =
    build-IsFragment engine engine-IsPrinter two_columns two_filters (codes "ID >= 1") (some 10)
      (some 5) (codes "ID") predicate order

written_filter :
    (translate_filter engine (quote_ident (codes "ID")) above_five []).fragment
    ≡ some (codes "\"ID\" > ?")
unfolding translate_filter comparison_to_sql compare_with is_bindable_type quote_ident escaped
written_filter = refl

push_filter-verdict_example :
    IsKeptBack 1 nothing_pushed (push_filter engine two_columns 1 1 is_not_null nothing_pushed)
    ⊎ IsPushed engine two_columns 1 is_not_null nothing_pushed
        (push_filter engine two_columns 1 1 is_not_null nothing_pushed)
push_filter-verdict_example =
    push_filter-verdict engine engine-IsPrinter two_columns 1 1 is_not_null nothing_pushed

abbrev six_rows : List ℕ
six_rows = 1 ∷ 2 ∷ 3 ∷ 4 ∷ 5 ∷ 6 ∷ []

read_quoted-quote_ident_example :
    (quote_ident (codes "a\"b") ++ codes " = ?"
      ≡ b'"' ∷ (escaped b'"' (codes "a\"b") ++ b'"' ∷ codes " = ?"))
    × (read_quoted b'"' (escaped b'"' (codes "a\"b") ++ b'"' ∷ codes " = ?")
        ≡ some (codes "a\"b", codes " = ?"))
read_quoted-quote_ident_example = read_quoted-quote_ident (codes "a\"b") (codes " = ?") refl
