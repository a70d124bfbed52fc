-- ===== src/Migrations/Order.antt =====
-- The order of the operations in alembic/versions/001_initial_schema.py, against a database that takes
-- an operation only where what it needs is there.
use jd_relay.Common.{
  ◌≡◌, Bool, true, false, not, ◌&&◌, ◌||◌, List, [], ◌∷◌, ◌++◌, Option, none, some, Text, codes,
  text_eq, map, ◌==◌, if◌then◌else◌,
}
use jd_relay.Migrations.{
  Column, Constraint, primary_key, unique, foreign_key, Operation, create_table, create_index,
  drop_table, upgrade, downgrade,
}

-- What a database knows of a table: its columns, and the tables that it refers to.
pub record Entry : Type 0 where
  pub name : Text
  pub columns : List Text
  pub references : List Text

abbrev is_member : Text → List Text → Bool
is_member name [] = false
is_member name (n ∷ names) = text_eq n name || is_member name names

abbrev all_members : List Text → List Text → Bool
all_members [] names = true
all_members (n ∷ wanted) names = is_member n names && all_members wanted names

-- The table of a target such as `work_orders.id`.
abbrev table_part : Text → Text
table_part [] = []
table_part (c ∷ target) = let rest = table_part target in if c == b'.' then [] else c ∷ rest

abbrev referred : List Constraint → List Text
referred [] = []
referred (foreign_key names targets on_delete ∷ rest) = map table_part targets ++ referred rest
referred (_ ∷ rest) = referred rest

abbrev constrained : List Constraint → List Text
constrained [] = []
constrained (foreign_key names targets on_delete ∷ rest) = names ++ constrained rest
constrained (primary_key names ∷ rest) = names ++ constrained rest
constrained (unique names ∷ rest) = names ++ constrained rest

abbrev pub has_table : Text → List Entry → Bool
has_table name [] = false
has_table name (e ∷ s) = text_eq e.name name || has_table name s

abbrev has_columns : Text → List Text → List Entry → Bool
has_columns table names [] = false
has_columns table names (e ∷ s) =
    let rest = has_columns table names s in
    if text_eq e.name table then all_members names e.columns else rest

abbrev all_tables : List Text → List Entry → Bool
all_tables [] s = true
all_tables (name ∷ names) s = has_table name s && all_tables names s

abbrev pub is_referred_to : Text → List Entry → Bool
is_referred_to name [] = false
is_referred_to name (e ∷ s) = is_member name e.references || is_referred_to name s

abbrev without : Text → List Entry → List Entry
without name [] = []
without name (e ∷ s) = let rest = without name s in if text_eq e.name name then s else e ∷ rest

abbrev entry : Text → List Column → List Constraint → Entry
entry name columns constraints = record {
  name = name;
  columns = map (λ c. c.name) columns;
  references = referred constraints;
}

-- A new table has a new name, keys over its own columns, and refers to tables that are there; an index is
-- on columns of a table that is there; a table is dropped where it is there and no table refers to it.
abbrev pub take_operation : Operation → List Entry → Option (List Entry)
take_operation (create_table name columns constraints) s =
    let e = entry name columns constraints in
    if not (has_table name s)
      && all_members (constrained constraints) e.columns
      && all_tables e.references s
    then some (e ∷ s)
    else none
take_operation (create_index name table names) s =
    if has_columns table names s then some s else none
take_operation (drop_table name) s =
    if has_table name s && not (is_referred_to name s) then some (without name s) else none

abbrev and_then : Option (List Entry) → (List Entry → Option (List Entry)) → Option (List Entry)
and_then none more = none
and_then (some s) more = more s

abbrev pub replay : List Operation → List Entry → Option (List Entry)
replay [] s = some s
replay (op ∷ ops) s = and_then (take_operation op s) (replay ops)

-- A table that neither is there nor is referred to.
pub record IsFresh (name : Text) (s : List Entry) : Type 0 where
  pub absent : has_table name s ≡ false
  pub unreferred : is_referred_to name s ≡ false

-- In a database that has none of the four tables, and no reference to one, the upgrade and then the
-- downgrade go through, whatever other tables there are, and leave the database as it was: no
-- operation comes before what it needs, and none is left undone.
pub downgrade-upgrade :
    (s : List Entry)
    → IsFresh (codes "work_orders") s
    → IsFresh (codes "agents") s
    → IsFresh (codes "approvals") s
    → IsFresh (codes "build_results") s
    → replay (upgrade ++ downgrade) s ≡ some s
unfolding upgrade downgrade text_eq
downgrade-upgrade s w a p b =
    simp (
      w.absent, a.absent, p.absent, b.absent, w.unreferred, a.unreferred, p.unreferred,
      b.unreferred,
    )
