-- ===== src/Catalog.antt =====
-- The ATTACH catalog of src/firebird_storage.cpp: `LoadUniqueConstraints` and `LoadForeignKeys` on the
-- rows of their queries; the table entries and the discovery stand in the modules below.
pub mod Grouping
pub mod Entry
pub mod Discovery
pub mod Outcomes
pub mod Lookup
pub mod Paths
pub mod Attach
pub mod Options
pub mod Access
pub mod Classify
use duckdb_firebird.Common.{
  Bool, true, false, not, ◌&&◌, ◌||◌, List, [], ◌∷◌, ◌++◌, Bytes, codes, str_eq, if◌then◌else◌,
}

-- A row of the query on keys, and a row of the one on foreign keys.
pub record KeyRow : Type 0 where
  pub relation : Bytes
  pub constraint : Bytes
  pub constraint_type : Bytes
  pub field : Bytes

pub record ForeignKeyRow : Type 0 where
  pub relation : Bytes
  pub constraint : Bytes
  pub pk_table : Bytes
  pub fk_field : Bytes
  pub pk_field : Bytes

pub record UniqueKey : Type 0 where
  pub constraint_name : Bytes
  pub is_primary : Bool
  pub columns : List Bytes

pub record ForeignKey : Type 0 where
  pub constraint_name : Bytes
  pub pk_table : Bytes
  pub fk_columns : List Bytes
  pub pk_columns : List Bytes

-- What the two loops do with a row: the names that they compare, the constraint that they push, the
-- columns that they push, and whether the test asks for `!active` too.
pub record Grouper (R A : Type 0) : Type 0 where
  pub relation : R → Bytes
  pub constraint : R → Bytes
  pub opened : R → A
  pub extended : R → A → A
  pub asks_active : Bool

-- `out`, by its lists (a missing one is empty), and the names of the active constraint.
pub record Loop (A : Type 0) : Type 0 where
  pub out : Bytes → List A
  pub cur_rel : Bytes
  pub cur_con : Bytes
  pub active : Bool

abbrev pub start : {A : Type 0} → Loop A
start = record { out = λ rel. []; cur_rel = []; cur_con = []; active = false }

abbrev pub at_key : {A : Type 0} → Bytes → (List A → List A) → (Bytes → List A) → Bytes → List A
at_key rel f out k = if str_eq rel k then f (out k) else out k

-- The constraint that `active` points at is the last of its list.
abbrev pub change_last : {A : Type 0} → (A → A) → List A → List A
change_last f [] = []
change_last f (x ∷ []) = f x ∷ []
change_last f (x ∷ y ∷ l) = x ∷ change_last f (y ∷ l)

abbrev pub is_new : {R A : Type 0} → Grouper R A → R → Loop A → Bool
is_new s r g =
    s.asks_active && not g.active
    || not (str_eq g.cur_rel (s.relation r))
    || not (str_eq g.cur_con (s.constraint r))

unfoldable pub open_constraint : {R A : Type 0} → Grouper R A → R → Loop A → Loop A
open_constraint s r g =
    if is_new s r g
    then record {
      out = at_key (s.relation r) (λ l. l ++ s.opened r ∷ []) g.out;
      cur_rel = s.relation r;
      cur_con = s.constraint r;
      active = true;
    }
    else g

unfoldable pub extend_active : {R A : Type 0} → Grouper R A → R → Loop A → Loop A
extend_active s r g = record g { out = at_key g.cur_rel (change_last (s.extended r)) g.out }

unfoldable pub group_row : {R A : Type 0} → Grouper R A → R → Loop A → Loop A
group_row s r g = extend_active s r (open_constraint s r g)

unfoldable pub group_rows : {R A : Type 0} → Grouper R A → List R → Loop A → Loop A
group_rows s [] g = g
group_rows s (r ∷ rs) g = group_rows s rs (group_row s r g)

abbrev pub unique_keys : Grouper KeyRow UniqueKey
unique_keys = record {
  relation = λ r. r.relation;
  constraint = λ r. r.constraint;
  opened = λ r. record {
    constraint_name = r.constraint;
    is_primary = str_eq r.constraint_type (codes "PRIMARY KEY");
    columns = [];
  };
  extended = λ r k. record k { columns = k.columns ++ r.field ∷ [] };
  asks_active = false;
}

abbrev pub foreign_keys : Grouper ForeignKeyRow ForeignKey
foreign_keys = record {
  relation = λ r. r.relation;
  constraint = λ r. r.constraint;
  opened = λ r. record {
    constraint_name = r.constraint;
    pk_table = r.pk_table;
    fk_columns = [];
    pk_columns = [];
  };
  extended = λ r k. record k {
    fk_columns = k.fk_columns ++ r.fk_field ∷ [];
    pk_columns = k.pk_columns ++ r.pk_field ∷ [];
  };
  asks_active = true;
}

unfoldable pub unique_constraints_query : Bytes
unique_constraints_query =
    codes "SELECT TRIM(rc.RDB$RELATION_NAME), TRIM(rc.RDB$CONSTRAINT_NAME), "
    ++ codes "       TRIM(rc.RDB$CONSTRAINT_TYPE), TRIM(seg.RDB$FIELD_NAME), "
    ++ codes "       seg.RDB$FIELD_POSITION "
    ++ codes "  FROM RDB$RELATION_CONSTRAINTS rc "
    ++ codes "  JOIN RDB$INDEX_SEGMENTS seg ON seg.RDB$INDEX_NAME = rc.RDB$INDEX_NAME "
    ++ codes " WHERE rc.RDB$CONSTRAINT_TYPE IN ('PRIMARY KEY','UNIQUE') "
    ++ codes " ORDER BY rc.RDB$RELATION_NAME, rc.RDB$CONSTRAINT_NAME, seg.RDB$FIELD_POSITION"

unfoldable pub foreign_keys_query : Bytes
foreign_keys_query =
    codes "SELECT TRIM(rc.RDB$RELATION_NAME), TRIM(rc.RDB$CONSTRAINT_NAME), "
    ++ codes "       TRIM(uq.RDB$RELATION_NAME), TRIM(fkseg.RDB$FIELD_NAME), "
    ++ codes "       TRIM(uqseg.RDB$FIELD_NAME), fkseg.RDB$FIELD_POSITION "
    ++ codes "  FROM RDB$RELATION_CONSTRAINTS rc "
    ++ codes "  JOIN RDB$REF_CONSTRAINTS ref ON ref.RDB$CONSTRAINT_NAME = rc.RDB$CONSTRAINT_NAME "
    ++ codes "  JOIN RDB$RELATION_CONSTRAINTS uq ON uq.RDB$CONSTRAINT_NAME = ref.RDB$CONST_NAME_UQ "
    ++ codes "  JOIN RDB$INDEX_SEGMENTS fkseg ON fkseg.RDB$INDEX_NAME = rc.RDB$INDEX_NAME "
    ++ codes "  JOIN RDB$INDEX_SEGMENTS uqseg ON uqseg.RDB$INDEX_NAME = uq.RDB$INDEX_NAME "
    ++ codes "       AND uqseg.RDB$FIELD_POSITION = fkseg.RDB$FIELD_POSITION "
    ++ codes " WHERE rc.RDB$CONSTRAINT_TYPE = 'FOREIGN KEY' "
    ++ codes " ORDER BY rc.RDB$RELATION_NAME, rc.RDB$CONSTRAINT_NAME, fkseg.RDB$FIELD_POSITION"

-- `LoadUniqueConstraints`; no relation has the empty name.
unfoldable pub load_unique_constraints : List KeyRow → Bytes → List UniqueKey
load_unique_constraints rows = (group_rows unique_keys rows start).out

-- `LoadForeignKeys`.
unfoldable pub load_foreign_keys : List ForeignKeyRow → Bytes → List ForeignKey
load_foreign_keys rows = (group_rows foreign_keys rows start).out
