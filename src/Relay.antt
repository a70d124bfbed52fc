-- ===== src/Relay.antt =====
-- The relay service, forwarder/app/services/relay.py: each method checks the state machine and then
-- calls DingTalk or the agent. A work order is the `dict` of strings that the methods are given; a
-- world `W` stands for what those calls change.
mod Monad
mod Forms
pub mod Spelling
pub mod Lifecycle
pub mod Effects
pub mod Delivery
pub use Monad.*
unfoldable pub use Forms.*
use jd_relay.Common.{
  ℕ, ◌-◌, Bool, true, false, not, ◌&&◌, List, [], ◌∷◌, ◌++◌, map, Option, none, some, Text, codes,
  text_eq, join, if◌then◌else◌, leb,
}
use jd_relay.Common.Dict.{Dict, lookup}
use jd_relay.Common.Json.{Value, str, Json}
use jd_relay.Crypto.Envelope.{MessageType, build_trigger}
use jd_relay.WorkOrder
use jd_relay.WorkOrder.{
  WorkOrderState, pending_approval, approved, building, success, failed, closed,
  pending_second_review, second_approved, second_rejected, of_value, transition, state_error,
}

-- What the service is configured with: None, or something to call. `create_approval` returns the
-- instance identifier, or raises.
pub record RelayService (W : Type 0) : Type 0 where
  pub dingtalk : Option (ApprovalRequest → W → Option Text × W)
  pub forwarder : Option (Text → MessageType → Text → W → Bool × W)

module _ {W : Type 0} where
  -- work_order[key]
  unfoldable pub require : Text → WorkOrderDict → Exec W Text
  require key work_order = or_throw missing_key (lookup key work_order)

  -- WorkOrderState(work_order["state"])
  unfoldable pub current_state : WorkOrderDict → Exec W WorkOrderState
  unfolding require
  current_state work_order = do
    s ← require (codes "state") work_order
    or_throw unknown_state (of_value s)

  -- The checked transition of the state machine, with StateError as an exception.
  abbrev lift_transition : WorkOrder.Result WorkOrderState → Exec W WorkOrderState
  lift_transition (WorkOrder.Result.ok s) w = (ok s, w)
  lift_transition (state_error s t) w = (failure (bad_transition s t), w)

  unfoldable pub move : WorkOrderState → WorkOrderState → Exec W WorkOrderState
  move current target = lift_transition (transition current target)

  abbrev answered : Option Text × W → Result Text × W
  answered (none, w) = (failure dingtalk_error, w)
  answered (some instance_id, w) = (ok instance_id, w)

  -- `await self._dt.create_approval(...)`, where the service is configured.
  unfoldable pub create_approval :
      Option (ApprovalRequest → W → Option Text × W) → ApprovalRequest → Exec W Text
  create_approval none request w = (failure not_configured, w)
  create_approval (some call) request w = answered (call request w)

  -- The log line after the call reads the order number, and raises where there is none.
  unfoldable pub submit_for_approval :
      RelayService W → WorkOrderDict → Text → Text → List Text → Exec W Text
  submit_for_approval service work_order originator_user_id process_code approvers = do
    current ← current_state work_order
    move current pending_approval
    instance_id ← create_approval service.dingtalk (record {
      originator_user_id = originator_user_id;
      process_code = process_code;
      title = approval_title work_order;
      form_values = approval_form work_order;
      approvers = approvers;
    })
    require (codes "order_no") work_order
    pure instance_id

  unfoldable pub on_approval_result : WorkOrderDict → Text → Exec W WorkOrderState
  on_approval_result work_order result = do
    current ← current_state work_order
    move current (if text_eq result (codes "agree") then approved else closed)

  unfoldable pub close_work_order : WorkOrderDict → Exec W WorkOrderState
  close_work_order work_order = do
    current ← current_state work_order
    new_state ← move current closed
    require (codes "order_no") work_order
    pure new_state

  unfoldable pub on_build_result : WorkOrderDict → Text → Exec W WorkOrderState
  on_build_result work_order build_status = do
    current ← current_state work_order
    target ← or_throw unknown_status (build_target build_status)
    new_state ← move current target
    require (codes "order_no") work_order
    pure new_state

  unfoldable pub on_second_review_result : WorkOrderDict → Text → Exec W WorkOrderState
  on_second_review_result work_order result = do
    current ← current_state work_order
    new_state ←
        move current (if text_eq result (codes "agree") then second_approved else second_rejected)
    require (codes "order_no") work_order
    pure new_state

  unfoldable pub on_sensitive_change_detected :
      RelayService W → WorkOrderDict → List Text → List Text → Exec W Text
  on_sensitive_change_detected service work_order changed_files approvers = do
    current ← current_state work_order
    move current pending_second_review
    instance_id ← create_approval service.dingtalk (record {
      originator_user_id = get_or (codes "created_by") work_order [];
      process_code = codes "SECOND_REVIEW";
      title =
          codes "[二次审核] "
          ++ (get_or (codes "issue") work_order (codes "None") ++ codes " — 敏感文件变更");
      form_values = review_form work_order changed_files;
      approvers = approvers;
    })
    require (codes "order_no") work_order
    pure instance_id

  -- `await self._fwd.send_to_project(...)`, where the server is configured.
  unfoldable pub send_to_project :
      Option (Text → MessageType → Text → W → Bool × W) → Text → Text → Exec W Bool
  send_to_project none project payload w = (failure not_configured, w)
  send_to_project (some call) project payload w =
      let r = call project build_trigger payload w in (ok r.0, r.1)

  unfoldable pub trigger_build : Json → RelayService W → WorkOrderDict → Exec W Bool
  trigger_build J service work_order = do
    current ← current_state work_order
    move current building
    let project = get_or (codes "project") work_order []
    order_no ← require (codes "order_no") work_order
    issue ← require (codes "issue") work_order
    branch ← require (codes "branch") work_order
    let payload = J.dumps (
        (codes "work_order_id", str order_no)
        ∷ (codes "issue", str issue)
        ∷ (codes "project", str project)
        ∷ (codes "branch", str branch)
        ∷ (codes "build_cmd", str (get_or (codes "build_cmd") work_order []))
        ∷ [])
    sent ← send_to_project service.forwarder project payload
    if sent then pure true else throw (no_agent project)
