-- ===== src/Migrations.antt =====
-- The schema migration alembic/versions/001_initial_schema.py: the operations that it asks alembic for,
-- in their order. An operation is a value; what a database does with it is alembic's.
pub mod Agreement
pub mod Order
use jd_relay.Common.{Bool, true, false, List, [], ◌∷◌, ◌++◌, Option, none, some, Text, codes}
use jd_relay.Models.{ColumnType, integer, boolean, text, date_time, string}

-- `sa.func.now()`, or a text.
pub data ServerDefault : Type 0 where
  literal : Text → ServerDefault
  now : ServerDefault

pub record Column : Type 0 where
  pub name : Text
  pub type : ColumnType
  pub nullable : Bool
  pub autoincrement : Bool
  pub server_default : Option ServerDefault

pub data OnDelete : Type 0 where
  cascade no_action : OnDelete

pub data Constraint : Type 0 where
  primary_key unique : List Text → Constraint
  foreign_key : List Text → List Text → OnDelete → Constraint

pub data Operation : Type 0 where
  create_table : Text → List Column → List Constraint → Operation
  create_index : Text → Text → List Text → Operation
  drop_table : Text → Operation

-- `sa.Column(name, type, nullable=…, server_default=…)`
abbrev pub column : Text → ColumnType → Bool → Option ServerDefault → Column
column name type nullable server_default = record {
  name = name;
  type = type;
  nullable = nullable;
  autoincrement = false;
  server_default = server_default;
}

abbrev pub id_column : Column
id_column = record (column (codes "id") integer false none) { autoincrement = true }

abbrev pub to_work_orders : Constraint
to_work_orders = foreign_key (codes "work_order_id" ∷ []) (codes "work_orders.id" ∷ []) cascade

abbrev pub create_work_orders : List Operation
create_work_orders =
    create_table (codes "work_orders")
      (id_column
        ∷ column (codes "order_no") (string 64) false none
        ∷ column (codes "issue") (string 128) false none
        ∷ column (codes "project") (string 128) false none
        ∷ column (codes "branch") (string 256) false none
        ∷ column (codes "build_cmd") text false (some (literal []))
        ∷ column (codes "state") (string 32) false (some (literal (codes "DRAFT")))
        ∷ column (codes "created_at") date_time false (some now)
        ∷ column (codes "updated_at") date_time false (some now)
        ∷ column (codes "created_by") (string 64) false (some (literal []))
        ∷ [])
      (primary_key (codes "id" ∷ []) ∷ unique (codes "order_no" ∷ []) ∷ [])
    ∷ create_index (codes "ix_work_orders_order_no") (codes "work_orders") (codes "order_no" ∷ [])
    ∷ create_index (codes "ix_work_orders_project") (codes "work_orders") (codes "project" ∷ [])
    ∷ create_index (codes "ix_work_orders_state") (codes "work_orders") (codes "state" ∷ [])
    ∷ []

abbrev pub create_agents : List Operation
create_agents =
    create_table (codes "agents")
      (id_column
        ∷ column (codes "agent_id") (string 64) false none
        ∷ column (codes "projects") text false none
        ∷ column (codes "ecdsa_pub_pem") text false none
        ∷ column (codes "is_online") boolean false (some (literal (codes "0")))
        ∷ column (codes "last_seen_at") date_time true none
        ∷ column (codes "connected_at") date_time true none
        ∷ column (codes "created_at") date_time false (some now)
        ∷ [])
      (primary_key (codes "id" ∷ []) ∷ unique (codes "agent_id" ∷ []) ∷ [])
    ∷ create_index (codes "ix_agents_agent_id") (codes "agents") (codes "agent_id" ∷ [])
    ∷ []

abbrev pub create_approvals : List Operation
create_approvals =
    create_table (codes "approvals")
      (id_column
        ∷ column (codes "work_order_id") integer false none
        ∷ column (codes "approver") (string 64) false none
        ∷ column (codes "status") (string 16) false (some (literal (codes "PENDING")))
        ∷ column (codes "comment") text false (some (literal []))
        ∷ column (codes "review_type") (string 16) false (some (literal (codes "first")))
        ∷ column (codes "created_at") date_time false (some now)
        ∷ column (codes "responded_at") date_time true none
        ∷ [])
      (primary_key (codes "id" ∷ []) ∷ to_work_orders ∷ [])
    ∷ create_index (codes "ix_approvals_work_order_id") (codes "approvals")
        (codes "work_order_id" ∷ [])
    ∷ []

abbrev pub create_build_results : List Operation
create_build_results =
    create_table (codes "build_results")
      (id_column
        ∷ column (codes "work_order_id") integer false none
        ∷ column (codes "build_number") integer true none
        ∷ column (codes "status") (string 16) false (some (literal (codes "PENDING")))
        ∷ column (codes "log_url") text false (some (literal []))
        ∷ column (codes "duration_seconds") integer true none
        ∷ column (codes "started_at") date_time true none
        ∷ column (codes "finished_at") date_time true none
        ∷ column (codes "created_at") date_time false (some now)
        ∷ [])
      (primary_key (codes "id" ∷ []) ∷ to_work_orders ∷ [])
    ∷ create_index (codes "ix_build_results_work_order_id") (codes "build_results")
        (codes "work_order_id" ∷ [])
    ∷ []

unfoldable pub upgrade : List Operation
upgrade = create_work_orders ++ create_agents ++ create_approvals ++ create_build_results

unfoldable pub downgrade : List Operation
downgrade =
    drop_table (codes "build_results")
    ∷ drop_table (codes "approvals")
    ∷ drop_table (codes "agents")
    ∷ drop_table (codes "work_orders")
    ∷ []
