-- ===== src/Approvals.antt =====
-- The DingTalk approval callback over the database, `_handle_approval_finish` of
-- forwarder/app/api/dingtalk.py with the rows of forwarder/app/models.py and the session of
-- forwarder/app/database.py. Times are numbers, and the clock's readings are arguments. A call
-- returns the committed database: what a session changed and did not commit is gone, also where an
-- exception passes through the session. `order_by` decides nothing, since at most one row is read. Texts
-- are compared exactly; a database whose collation ignores case may find more.
pub mod Asked
pub mod Finish
pub mod Callback
use jd_relay.Common.{
  ℕ, Bool, true, false, ◌&&◌, List, [], ◌∷◌, map, Option, none, some, Text, codes, text_eq,
  if◌then◌else◌, ◌==◌,
}
use jd_relay.Common.Outcome.{
  Outcome, returned, raised, library_error, value_error, or_raise, attempt,
}
use jd_relay.WorkOrder
use jd_relay.WorkOrder.{
  WorkOrderState, approved, closed, second_approved, second_rejected, value, of_value, transition,
  state_error,
}

pub record OrderRow : Type 0 where
  pub id : ℕ
  pub order_no : Text
  pub issue : Text
  pub project : Text
  pub branch : Text
  pub build_cmd : Text
  pub state : Text
  pub created_at : ℕ
  pub updated_at : ℕ
  pub created_by : Text

pub record ApprovalRow : Type 0 where
  pub id : ℕ
  pub work_order_id : ℕ
  pub approver : Text
  pub status : Text
  pub comment : Text
  pub review_type : Text
  pub created_at : ℕ
  pub responded_at : Option ℕ

pub record Database : Type 0 where
  pub orders : List OrderRow
  pub approvals : List ApprovalRow

-- `select(...).where(...)`
abbrev pub select {ℓ} : {A : Type ℓ} → (A → Bool) → List A → List A
select p [] = []
select p (x ∷ xs) = let rest = select p xs in if p x then x ∷ rest else rest

-- `scalar_one_or_none()`, which raises MultipleResultsFound.
abbrev pub scalar_one_or_none {ℓ} : {A : Type ℓ} → List A → Outcome (Option A)
scalar_one_or_none [] = returned none
scalar_one_or_none (x ∷ []) = returned (some x)
scalar_one_or_none (x ∷ y ∷ xs) = raised library_error

abbrev pub has_order_no : Text → OrderRow → Bool
has_order_no biz_id o = text_eq o.order_no biz_id

abbrev pub is_pending : ℕ → ApprovalRow → Bool
is_pending order_id a = a.work_order_id == order_id && text_eq a.status (codes "PENDING")

-- The answered approval.
unfoldable pub answer_row : ℕ → Text → ℕ → ApprovalRow → ApprovalRow
answer_row approval_id result now a =
    if a.id == approval_id
    then record a {
      status = if text_eq result (codes "agree") then codes "APPROVED" else codes "REJECTED";
      responded_at = some now;
    }
    else a

unfoldable pub answer : Option ApprovalRow → Text → ℕ → List ApprovalRow → List ApprovalRow
answer none result now rows = rows
answer (some a) result now rows = map (answer_row a.id result now) rows

-- `work_order.state = new_state.value`; the update also stamps `updated_at`.
unfoldable pub move_row : ℕ → WorkOrderState → ℕ → OrderRow → OrderRow
move_row order_id new_state now o =
    if o.id == order_id then record o { state = value new_state; updated_at = now } else o

abbrev pub review_type_of : Option ApprovalRow → Text
review_type_of none = codes "first"
review_type_of (some a) = a.review_type

-- The state that the callback asks for.
unfoldable pub finish_target : Text → Text → WorkOrderState
finish_target review_type result =
    if text_eq result (codes "agree")
    then (if text_eq review_type (codes "second") then second_approved else approved)
    else if text_eq review_type (codes "second")
    then second_rejected
    else closed

-- Commit, or roll back on StateError.
unfoldable pub commit_move :
    Database
    → OrderRow
    → Option ApprovalRow
    → Text
    → ℕ
    → ℕ
    → WorkOrder.Result WorkOrderState
    → Outcome (Unit {0}) × Database
unfolding answer move_row
commit_move db order approval result now now' (WorkOrder.Result.ok new_state) = (
  returned tt,
  record {
    orders = map (move_row order.id new_state now') db.orders;
    approvals = answer approval result now db.approvals;
  },
)
commit_move db order approval result now now' (state_error s t) = (returned tt, db)

unfoldable pub finish_found : Database → OrderRow → Text → ℕ → ℕ → Outcome (Unit {0}) × Database
unfolding commit_move finish_target
finish_found db order result now now' =
    attempt (scalar_one_or_none (select (is_pending order.id) db.approvals)) db λ approval.
      attempt (or_raise value_error (of_value order.state)) db λ current_state.
        commit_move db order approval result now now'
          (transition current_state (finish_target (review_type_of approval) result))

unfoldable pub finish_order :
    Database → Option OrderRow → Text → ℕ → ℕ → Outcome (Unit {0}) × Database
unfolding finish_found
finish_order db none result now now' = (returned tt, db)
finish_order db (some order) result now now' = finish_found db order result now now'

unfoldable pub handle_approval_finish :
    Database → Text → Text → ℕ → ℕ → Outcome (Unit {0}) × Database
unfolding finish_order
handle_approval_finish db biz_id result now now' =
    attempt (scalar_one_or_none (select (has_order_no biz_id) db.orders)) db
      λ found. finish_order db found result now now'
