-- ===== src/Migrations/Agreement.antt =====
-- What the tables of alembic/versions/001_initial_schema.py and those of forwarder/app/models.py, which
-- init_db of forwarder/app/database.py creates, have in common. They are not the same: the migration has
-- server defaults where the models have Python's, it makes a column unique by a constraint beside an index
-- that is not unique, where the models make one unique index, and it cascades deletions.
use jd_relay.Common.{
  Bool, false, not, ◌&&◌, List, [], ◌∷◌, ◌++◌, Option, none, some, Text, codes, text_eq, map,
  if◌then◌else◌,
}
use mathlib.Core.Option
use jd_relay.Models.{ColumnType, ModelColumn, Model, Default, text_default, false_default, utcnow}
use jd_relay.Migrations.{
  ServerDefault, literal, now, Column, Constraint, primary_key, unique, foreign_key, Operation,
  create_table, create_index,
}

pub record Index : Type 0 where
  pub name : Text
  pub on : List Text
  pub is_unique : Bool

-- A table: its columns, its constraints, and its indexes.
pub record Table : Type 0 where
  pub columns : List Column
  pub primary : List (List Text)
  pub uniques : List (List Text)
  pub references : List (List Text × List Text)
  pub indexes : List Index

abbrev primary_of : List Constraint → List (List Text)
primary_of [] = []
primary_of (primary_key names ∷ rest) = names ∷ primary_of rest
primary_of (_ ∷ rest) = primary_of rest

abbrev uniques_of : List Constraint → List (List Text)
uniques_of [] = []
uniques_of (unique names ∷ rest) = names ∷ uniques_of rest
uniques_of (_ ∷ rest) = uniques_of rest

abbrev references_of : List Constraint → List (List Text × List Text)
references_of [] = []
references_of (foreign_key names targets on_delete ∷ rest) = (names, targets) ∷ references_of rest
references_of (_ ∷ rest) = references_of rest

-- `op.create_index(name, table, columns)` makes an index that is not unique.
abbrev indexes_on : Text → List Operation → List Index
indexes_on table [] = []
indexes_on table (create_index name on names ∷ ops) =
    let rest = indexes_on table ops in
    if text_eq on table then record { name = name; on = names; is_unique = false } ∷ rest else rest
indexes_on table (_ ∷ ops) = indexes_on table ops

abbrev created_with : List Index → Text → List Operation → Option Table
created_with indexes table [] = none
created_with indexes table (create_table name columns constraints ∷ ops) =
    let later = created_with indexes table ops in
    if text_eq name table
    then some (record {
      columns = columns;
      primary = primary_of constraints;
      uniques = uniques_of constraints;
      references = references_of constraints;
      indexes = indexes;
    })
    else later
created_with indexes table (_ ∷ ops) = created_with indexes table ops

-- The table that a migration creates under a name.
abbrev pub created_table : Text → List Operation → Option Table
created_table table ops = created_with (indexes_on table ops) table ops

-- A column without a server default.
abbrev column_of : ModelColumn → Column
column_of c = record {
  name = c.name;
  type = c.type;
  nullable = c.nullable;
  autoincrement = c.autoincrement;
  server_default = none;
}

abbrev names_where : (ModelColumn → Bool) → List ModelColumn → List Text
names_where test [] = []
names_where test (c ∷ cs) = let rest = names_where test cs in if test c then c.name ∷ rest else rest

abbrev declared_references : List ModelColumn → List (List Text × List Text)
declared_references [] = []
declared_references (c ∷ cs) = reference c.name c.foreign_key ++ declared_references cs
  where
    reference : Text → Option Text → List (List Text × List Text)
    reference name none = []
    reference name (some target) = (name ∷ [], target ∷ []) ∷ []

abbrev index_name : Text → Text → Text
index_name table name = codes "ix_" ++ table ++ codes "_" ++ name

abbrev declared_indexes : Text → List ModelColumn → List Index
declared_indexes table [] = []
declared_indexes table (c ∷ cs) =
    let rest = declared_indexes table cs in
    if c.index
    then record { name = index_name table c.name; on = c.name ∷ []; is_unique = c.unique } ∷ rest
    else rest

-- A column that is unique and has an index gets one unique index, and no constraint.
abbrev table_of : Model → Table
table_of m = record {
  columns = map column_of m.columns;
  primary = names_where (λ c. c.primary_key) m.columns ∷ [];
  uniques = map (λ name. name ∷ []) (names_where (λ c. c.unique && not c.index) m.columns);
  references = declared_references m.columns;
  indexes = declared_indexes m.tablename m.columns;
}

-- The table that the models declare under a name.
abbrev pub declared_table : Text → List Model → Option Table
declared_table table [] = none
declared_table table (m ∷ rest) =
    let later = declared_table table rest in
    if text_eq m.tablename table then some (table_of m) else later

abbrev unique_indexes : List Index → List (List Text)
unique_indexes [] = []
unique_indexes (i ∷ rest) =
    let more = unique_indexes rest in if i.is_unique then i.on ∷ more else more

-- What both ways to make a table have to say of it: the columns that must be unique, by a constraint or by
-- an index, and of the indexes the names and the columns.
pub record Shared : Type 0 where
  pub columns : List (Text × ColumnType × Bool × Bool)
  pub primary : List (List Text)
  pub references : List (List Text × List Text)
  pub required_unique : List (List Text)
  pub indexed : List (Text × List Text)

abbrev pub shared : Table → Shared
shared t = record {
  columns = map (λ c. (c.name, c.type, c.nullable, c.autoincrement)) t.columns;
  primary = t.primary;
  references = t.references;
  required_unique = t.uniques ++ unique_indexes t.indexes;
  indexed = map (λ i. (i.name, i.on)) t.indexes;
}

-- The server default that says what Python's default says.
abbrev rendered : Option Default → Option ServerDefault
rendered none = none
rendered (some (text_default t)) = some (literal t)
rendered (some false_default) = some (literal (codes "0"))
rendered (some utcnow) = some now

abbrev pub server_defaults : Table → List (Option ServerDefault)
server_defaults t = map (λ c. c.server_default) t.columns

abbrev pub python_defaults : Text → List Model → Option (List (Option ServerDefault))
python_defaults table [] = none
python_defaults table (m ∷ rest) =
    let later = python_defaults table rest in
    if text_eq m.tablename table then some (map (λ c. rendered c.default) m.columns) else later
