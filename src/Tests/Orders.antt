-- ===== src/Tests/Orders.antt =====
-- Concrete runs of the work order's lifecycle, of the relay service and of the approval callback.
use mathlib.Core.List.{Memᴰ}
use jd_relay.Common.{
  ℕ, ◌≡◌, refl, ◌↔◌, ◌⊎◌, inl, Bool, true, List, [], ◌∷◌, none, some, Text, codes, text_eq, arith,
}
use jd_relay.Common.Dict.{lookup}
use jd_relay.Common.Outcome.{returned, raised, library_error}
use jd_relay.Crypto.Envelope.{MessageType}
use jd_relay.WorkOrder
use jd_relay.WorkOrder.{
  WorkOrderState, draft, pending_approval, approved, building, closed, failed, second_approved,
  second_rejected, pending_second_review, value, of_value, can_transition, transition, state_error,
  is_terminal, success,
}
use jd_relay.WorkOrder.Graph.{approve}
use jd_relay.WorkOrder.Documented.{Allowed, transition-iff-Allowed}
use jd_relay.WorkOrder.History.{building_needs_approval, follow}
use jd_relay.Relay.{
  unknown_status, WorkOrderDict, RelayService, bad_transition, failure, current_state,
  on_approval_result, on_second_review_result, on_build_result, close_work_order,
  submit_for_approval, on_sensitive_change_detected, trigger_build,
}
use jd_relay.Relay.Lifecycle.{MovesTo, Returns, methods_follow_lifecycle, methods_return}
use jd_relay.Relay.Spelling.{Decides, Reports, Spells}
use jd_relay.Approvals.Asked.{Moved, Answered, Rows}
use jd_relay.Relay.Effects.{no_effect_off_lifecycle}
use jd_relay.Approvals.{OrderRow, ApprovalRow, Database, handle_approval_finish}
use jd_relay.Approvals.Finish.{IsAtomic, finish-IsAtomic, two_pending_raise, finish_moves}
use jd_relay.Admin.{get_stats}
use jd_relay.Admin.Stats.{stats_count_orders}
use jd_relay.Tests.Wire.{wire}

transition-iff-Allowed_example :
    ((transition building pending_second_review ≡ WorkOrder.Result.ok pending_second_review)
      ↔ Allowed building pending_second_review)
    × ((transition building pending_second_review ≡ state_error building pending_second_review)
        ↔ (¬ Allowed building pending_second_review))
transition-iff-Allowed_example = transition-iff-Allowed building pending_second_review

building_needs_approval_example : Memᴰ approved (pending_approval ∷ approved ∷ building ∷ [])
unfolding follow transition
building_needs_approval_example =
    building_needs_approval (pending_approval ∷ approved ∷ building ∷ []) refl

-- A work order that may be built, and one that may not.
abbrev pub built_order : WorkOrderDict
built_order =
    (codes "state", codes "APPROVED")
    ∷ (codes "order_no", codes "WO-1")
    ∷ (codes "issue", codes "JD-7")
    ∷ (codes "project", codes "relay")
    ∷ (codes "branch", codes "main")
    ∷ []

abbrev closed_order : WorkOrderDict
closed_order = (codes "state", codes "CLOSED") ∷ (codes "order_no", codes "WO-2") ∷ []

-- A work order that is being built, and a world to which nothing was sent.
abbrev building_order : WorkOrderDict
building_order = (codes "state", codes "BUILDING") ∷ (codes "order_no", codes "WO-3") ∷ []

abbrev none_sent : List Text
none_sent = []

-- The world is the list of what was sent to agents; one project has an agent.
abbrev forward : Text → MessageType → Text → List Text → Bool × List Text
forward project type payload sent = (text_eq project (codes "relay"), payload ∷ sent)

abbrev service : RelayService (List Text)
service = record { dingtalk = none; forwarder = some forward }

methods_follow_lifecycle_example :
    MovesTo {W = List Text} built_order
      (Decides approved closed (codes "refuse"))
      []
      (on_approval_result built_order (codes "refuse") [])
    × MovesTo {W = List Text} built_order
        (Decides second_approved second_rejected (codes "refuse"))
        []
        (on_second_review_result built_order (codes "refuse") [])
    × MovesTo {W = List Text} built_order
        (Reports (codes "Success"))
        []
        (on_build_result built_order (codes "Success") [])
    × MovesTo {W = List Text} built_order (λ t. t ≡ closed) [] (close_work_order built_order [])
methods_follow_lifecycle_example =
    methods_follow_lifecycle built_order (codes "refuse") (codes "Success") [] (ground arith)

no_effect_off_lifecycle_example :
    ((can_transition closed pending_approval ≡ true)
      ⊎ (submit_for_approval service closed_order [] [] [] []
          ≡ (failure (bad_transition closed pending_approval), [])))
    × ((can_transition closed pending_second_review ≡ true)
        ⊎ (on_sensitive_change_detected service closed_order [] [] []
            ≡ (failure (bad_transition closed pending_second_review), [])))
    × ((can_transition closed building ≡ true)
        ⊎ (trigger_build wire service closed_order []
            ≡ (failure (bad_transition closed building), [])))
unfolding current_state lookup text_eq of_value
no_effect_off_lifecycle_example =
    no_effect_off_lifecycle wire service closed_order [] [] [] [] closed [] refl

abbrev order : OrderRow
order = record {
  id = 1;
  order_no = codes "WO-1";
  issue = codes "JD-7";
  project = codes "relay";
  branch = codes "main";
  build_cmd = [];
  state = codes "PENDING_APPROVAL";
  created_at = 10;
  updated_at = 10;
  created_by = codes "ann";
}

abbrev pub pending : ℕ → ApprovalRow
pending id = record {
  id = id;
  work_order_id = 1;
  approver = codes "bob";
  status = codes "PENDING";
  comment = [];
  review_type = codes "first";
  created_at = 11;
  responded_at = none;
}

abbrev pub database : List ApprovalRow → Database
database rows = record { orders = order ∷ []; approvals = rows }

finish-IsAtomic_example :
    IsAtomic
      (database (pending 5 ∷ []))
      (codes "WO-1")
      (codes "agree")
      20
      21
      (handle_approval_finish (database (pending 5 ∷ [])) (codes "WO-1") (codes "agree") 20 21)
finish-IsAtomic_example =
    finish-IsAtomic (database (pending 5 ∷ [])) (codes "WO-1") (codes "agree") 20 21

two_pending_raise_example :
    handle_approval_finish
      (database (pending 5 ∷ pending 6 ∷ []))
      (codes "WO-1")
      (codes "agree")
      20
      21
    ≡ (raised library_error, database (pending 5 ∷ pending 6 ∷ []))
unfolding text_eq
two_pending_raise_example =
    two_pending_raise (database (pending 5 ∷ pending 6 ∷ [])) (codes "WO-1") (codes "agree") 20 21
      order (pending 5) (pending 6) [] refl refl

methods_return_example :
    Returns building_order none_sent building
      (codes "WO-3")
      (Decides approved closed (codes "agree"))
      (on_approval_result building_order (codes "agree") none_sent)
    × Returns building_order none_sent building
        (codes "WO-3")
        (Decides second_approved second_rejected (codes "agree"))
        (on_second_review_result building_order (codes "agree") none_sent)
    × (Returns building_order none_sent building
          (codes "WO-3")
          (Reports (codes "Success"))
          (on_build_result building_order (codes "Success") none_sent)
        ⊎ ((¬ Spells (codes "Success") (codes "SUCCESS"))
            × (¬ Spells (codes "Success") (codes "FAILED"))
            × (on_build_result building_order (codes "Success") none_sent
                ≡ (failure unknown_status, none_sent))))
    × Returns building_order none_sent building
        (codes "WO-3")
        (λ t. t ≡ closed)
        (close_work_order building_order none_sent)
unfolding lookup text_eq value
methods_return_example =
    methods_return building_order none_sent building (codes "WO-3") (codes "agree")
      (codes "Success") refl refl (ground arith)

finish_moves_example :
    (db' : Database) × (handle_approval_finish
        (database (pending 5 ∷ []))
        (codes "WO-1")
        (codes "agree")
        20
        21
      ≡ (returned tt, db'))
    × Rows (Moved 1 approved 21) (order ∷ []) db'.orders
    × Rows (Answered (some (pending 5)) (codes "agree") 20) (pending 5 ∷ []) db'.approvals
unfolding text_eq value
finish_moves_example =
    finish_moves (database (pending 5 ∷ [])) (codes "WO-1") (codes "agree") 20 21 order
      (some (pending 5)) pending_approval approved refl refl refl
      (inl (refl, λ second. cc second, refl)) approve

stats_count_orders_example : get_stats {S = ℕ} none (order ∷ order ∷ []) ≡ record {
  total_orders = 2;
  pending_approval = 2;
  building = 0;
  success = 0;
  failed = 0;
  online_agents = 0;
}
unfolding text_eq
stats_count_orders_example = stats_count_orders {S = ℕ} none (order ∷ order ∷ [])
