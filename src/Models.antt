-- ===== src/Models.antt =====
-- The tables that forwarder/app/models.py declares, one for each class. Where a declaration leaves the
-- type or the nullability to the annotation, the column has what the annotation says. The defaults are
-- Python's: a session fills them in when it writes a row, and the table has none. Comments and
-- relationships, which are no part of a table, are left out.
use jd_relay.Common.{Bool, true, false, List, [], ◌∷◌, Option, none, some, Text, codes, ℕ}

pub data ColumnType : Type 0 where
  integer boolean text date_time : ColumnType
  string : ℕ → ColumnType

-- What a session fills in: a text, False, or the result of utcnow.
pub data Default : Type 0 where
  text_default : Text → Default
  false_default utcnow : Default

pub record ModelColumn : Type 0 where
  pub name : Text
  pub type : ColumnType
  pub nullable : Bool
  pub default : Option Default
  pub onupdate : Option Default
  pub primary_key : Bool
  pub autoincrement : Bool
  pub unique : Bool
  pub index : Bool
  pub foreign_key : Option Text

pub record Model : Type 0 where
  pub tablename : Text
  pub columns : List ModelColumn

-- A column with a type, a nullability and a default for new rows, and nothing else said of it.
abbrev pub mapped_column : Text → ColumnType → Bool → Option Default → ModelColumn
mapped_column name type nullable default = record {
  name = name;
  type = type;
  nullable = nullable;
  default = default;
  onupdate = none;
  primary_key = false;
  autoincrement = false;
  unique = false;
  index = false;
  foreign_key = none;
}

abbrev pub id_column : ModelColumn
id_column = record (mapped_column (codes "id") integer false none) {
  primary_key = true;
  autoincrement = true;
}

abbrev pub created_at_column : ModelColumn
created_at_column = mapped_column (codes "created_at") date_time false (some utcnow)

abbrev pub work_order_id_column : ModelColumn
work_order_id_column = record (mapped_column (codes "work_order_id") integer false none) {
  index = true;
  foreign_key = some (codes "work_orders.id");
}

abbrev pub work_order : Model
work_order = record {
  tablename = codes "work_orders";
  columns =
      id_column
      ∷ record (mapped_column (codes "order_no") (string 64) false none) {
        unique = true;
        index = true;
      }
      ∷ mapped_column (codes "issue") (string 128) false none
      ∷ record (mapped_column (codes "project") (string 128) false none) { index = true }
      ∷ mapped_column (codes "branch") (string 256) false none
      ∷ mapped_column (codes "build_cmd") text false (some (text_default []))
      ∷ record (mapped_column (codes "state") (string 32) false
          (some (text_default (codes "DRAFT")))) { index = true }
      ∷ created_at_column
      ∷ record (mapped_column (codes "updated_at") date_time false (some utcnow)) {
        onupdate = some utcnow;
      }
      ∷ mapped_column (codes "created_by") (string 64) false (some (text_default []))
      ∷ [];
}

abbrev pub agent : Model
agent = record {
  tablename = codes "agents";
  columns =
      id_column
      ∷ record (mapped_column (codes "agent_id") (string 64) false none) {
        unique = true;
        index = true;
      }
      ∷ mapped_column (codes "projects") text false none
      ∷ mapped_column (codes "ecdsa_pub_pem") text false none
      ∷ mapped_column (codes "is_online") boolean false (some false_default)
      ∷ mapped_column (codes "last_seen_at") date_time true none
      ∷ mapped_column (codes "connected_at") date_time true none
      ∷ created_at_column
      ∷ [];
}

abbrev pub approval : Model
approval = record {
  tablename = codes "approvals";
  columns =
      id_column
      ∷ work_order_id_column
      ∷ mapped_column (codes "approver") (string 64) false none
      ∷ mapped_column (codes "status") (string 16) false (some (text_default (codes "PENDING")))
      ∷ mapped_column (codes "comment") text false (some (text_default []))
      ∷ mapped_column (codes "review_type") (string 16) false (some (text_default (codes "first")))
      ∷ created_at_column
      ∷ mapped_column (codes "responded_at") date_time true none
      ∷ [];
}

abbrev pub build_result : Model
build_result = record {
  tablename = codes "build_results";
  columns =
      id_column
      ∷ work_order_id_column
      ∷ mapped_column (codes "build_number") integer true none
      ∷ mapped_column (codes "status") (string 16) false (some (text_default (codes "PENDING")))
      ∷ mapped_column (codes "log_url") text false (some (text_default []))
      ∷ mapped_column (codes "duration_seconds") integer true none
      ∷ mapped_column (codes "started_at") date_time true none
      ∷ mapped_column (codes "finished_at") date_time true none
      ∷ created_at_column
      ∷ [];
}

-- The tables of Base.metadata.
abbrev pub models : List Model
models = work_order ∷ agent ∷ approval ∷ build_result ∷ []
