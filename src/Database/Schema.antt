-- ===== src/Database/Schema.antt =====
-- The statements of migrations/: CREATE, with IF NOT EXISTS or without, and DROP TABLE IF EXISTS. A catalog has the
-- tables and the indexes by name, as the server looks them up for IF NOT EXISTS, REFERENCES, ON and
-- DROP; a file is one query, so that a statement that fails undoes it.
pub mod Migrations
pub mod Rerun
pub mod Fresh
pub mod Down
use transfer_demo.Prelude.{
  Bool, true, false, ◌&&◌, ◌||◌, not, Option, none, some, List, [], ◌∷◌, String, if◌then◌else◌,
}
use transfer_demo.Platform.Tracer.{text, same_text}

pub data ColumnType : Type 0 where
  bigint bigserial numeric_38_18 timestamptz uuid_type text_type : ColumnType

pub record Column : Type 0 where
  pub name : String
  pub type : ColumnType
  pub not_null : Bool
  -- DEFAULT, as it is written.
  pub default : Option String

-- The primary key is the column `id` in each.
pub record Table : Type 0 where
  pub name : String
  pub columns : List Column
  -- Column and table of each REFERENCES … (id).
  pub references : List (String × String)
  -- Name, if it has one, and condition of each CHECK.
  pub checks : List (Option String × String)

pub record Index : Type 0 where
  pub name : String
  pub table : String
  pub columns : List String
  pub is_unique : Bool
  -- The WHERE of a partial index.
  pub condition : Option String

-- With IF NOT EXISTS, or without.
pub data Create : Type 0 where
  create_table : Bool → Table → Create
  create_index : Bool → Index → Create

pub record Catalog : Type 0 where
  pub tables : List Table
  pub indexes : List Index

abbrev pub is_same : String → String → Bool
is_same a b = same_text (text a) (text b)

abbrev pub has_table : String → List Table → Bool
has_table name [] = false
has_table name (t ∷ ts) = is_same t.name name || has_table name ts

abbrev pub has_index : String → List Index → Bool
has_index name [] = false
has_index name (i ∷ is) = is_same i.name name || has_index name is

-- Tables and indexes share their names.
abbrev pub has_relation : String → Catalog → Bool
has_relation name c = has_table name c.tables || has_index name c.indexes

abbrev pub all_known : List (String × String) → List Table → Bool
all_known [] ts = true
all_known ((column, table) ∷ rs) ts = has_table table ts && all_known rs ts

unfoldable pub execute_create : Create → Catalog → Option Catalog
execute_create (create_table if_not_exists t) c =
    if has_relation t.name c
    then (if if_not_exists then some c else none)
    else if all_known t.references c.tables
    then some (record c { tables = t ∷ c.tables })
    else none
execute_create (create_index if_not_exists i) c =
    if has_relation i.name c
    then (if if_not_exists then some c else none)
    else if has_table i.table c.tables
    then some (record c { indexes = i ∷ c.indexes })
    else none

abbrev pub then_run : (Catalog → Option Catalog) → Option Catalog → Option Catalog
then_run f none = none
then_run f (some c) = f c

unfoldable pub run_creates : List Create → Catalog → Option Catalog
unfolding execute_create
run_creates [] c = some c
run_creates (s ∷ ss) c = then_run (run_creates ss) (execute_create s c)

abbrev pub refers_to : String → List (String × String) → Bool
refers_to name [] = false
refers_to name ((column, table) ∷ rs) = is_same table name || refers_to name rs

-- Does a table of another name refer to this one?
abbrev pub is_referenced : String → List Table → Bool
is_referenced name [] = false
is_referenced name (t ∷ ts) =
    not (is_same t.name name) && refers_to name t.references || is_referenced name ts

abbrev pub without_table : String → List Table → List Table
without_table name [] = []
without_table name (t ∷ ts) =
    let rest = without_table name ts in if is_same t.name name then rest else t ∷ rest

abbrev pub without_indexes_on : String → List Index → List Index
without_indexes_on name [] = []
without_indexes_on name (i ∷ is) =
    let rest = without_indexes_on name is in if is_same i.table name then rest else i ∷ rest

-- DROP TABLE IF EXISTS, without CASCADE.
unfoldable pub drop_table : String → Catalog → Option Catalog
drop_table name c =
    if not (has_table name c.tables)
    then some c
    else if is_referenced name c.tables
    then none
    else some (record {
      tables = without_table name c.tables;
      indexes = without_indexes_on name c.indexes;
    })

unfoldable pub drop_all : List String → Catalog → Option Catalog
unfolding drop_table
drop_all [] c = some c
drop_all (name ∷ names) c = then_run (drop_all names) (drop_table name c)
