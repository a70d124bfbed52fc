-- ===== src/Admin/Rows.antt =====
-- The rows of agents and build results of forwarder/app/models.py, and the answers of forwarder/app/api/admin.py.
use jd_relay.Common.{ℕ, Bool, List, Option, Text}

-- The agents' rows come in the order that the query asks for.
pub record AgentRow : Type 0 where
  pub id : ℕ
  pub agent_id : Text
  pub projects : Text
  pub ecdsa_pub_pem : Text
  pub is_online : Bool
  pub last_seen_at : Option ℕ
  pub connected_at : Option ℕ
  pub created_at : ℕ

pub record BuildRow : Type 0 where
  pub id : ℕ
  pub work_order_id : ℕ
  pub build_number : Option ℕ
  pub status : Text
  pub log_url : Text
  pub duration_seconds : Option ℕ
  pub started_at : Option ℕ
  pub finished_at : Option ℕ
  pub created_at : ℕ

pub record WorkOrderSummary : Type 0 where
  pub id : ℕ
  pub order_no : Text
  pub issue : Text
  pub project : Text
  pub branch : Text
  pub state : Text
  pub created_at : Text
  pub created_by : Text

pub record ApprovalSummary : Type 0 where
  pub id : ℕ
  pub approver : Text
  pub status : Text
  pub review_type : Text
  pub created_at : Text
  pub responded_at : Option Text

pub record BuildResultSummary : Type 0 where
  pub id : ℕ
  pub build_number : Option ℕ
  pub status : Text
  pub log_url : Text
  pub duration_seconds : Option ℕ
  pub finished_at : Option Text

pub record WorkOrderDetail : Type 0 where
  pub summary : WorkOrderSummary
  pub build_cmd : Text
  pub updated_at : Text
  pub approvals : List ApprovalSummary
  pub build_results : List BuildResultSummary

pub record AgentSummary : Type 0 where
  pub agent_id : Text
  pub projects : List Text
  pub is_online : Bool
  pub connected_at : Option Text
  pub last_seen_at : Option Text

pub record StatsResponse : Type 0 where
  pub total_orders : ℕ
  pub pending_approval : ℕ
  pub building : ℕ
  pub success : ℕ
  pub failed : ℕ
  pub online_agents : ℕ
