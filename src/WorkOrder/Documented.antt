-- ===== src/WorkOrder/Documented.antt =====
-- The lifecycle that docs/architecture.md draws in its section 5, and the transitions that
-- forwarder/app/state.py allows. The drawing also has a state ABORTED, between SECOND_REJECTED and
-- CLOSED, which the code does not have.
use jd_relay.Common.{◌≡◌, refl, ◌⊎◌, inl, inr, ◌↔◌}
use jd_relay.WorkOrder.{
  WorkOrderState, draft, pending_approval, approved, building, success, failed, closed,
  pending_second_review, second_approved, second_rejected, transition, ok, state_error,
}
use jd_relay.WorkOrder.Graph
use jd_relay.WorkOrder.Graph.{◌⟶◌, transition-iff-edge}

-- The arrows of the drawing between states of the code, but for the one below.
pub data Drawn : WorkOrderState → WorkOrderState → Type 0 where
  submit : Drawn draft pending_approval
  approve : Drawn pending_approval approved
  build : Drawn approved building
  succeed : Drawn building success
  fail : Drawn building failed
  close_success : Drawn success closed
  close_failed : Drawn failed closed
  review_building : Drawn building pending_second_review
  second_approve : Drawn pending_second_review second_approved
  second_reject : Drawn pending_second_review second_rejected
  second_build : Drawn second_approved building

-- The arrows that the code has and the drawing has not.
pub data Undrawn : WorkOrderState → WorkOrderState → Type 0 where
  retry : Undrawn failed building
  review_approved : Undrawn approved pending_second_review
  close_draft : Undrawn draft closed
  refuse : Undrawn pending_approval closed
  close_approved : Undrawn approved closed
  close_second_approved : Undrawn second_approved closed
  close_second_rejected : Undrawn second_rejected closed

abbrev pub Allowed : WorkOrderState → WorkOrderState → Type 0
Allowed s t = (Drawn s t × (¬ ((s ≡ building) × (t ≡ pending_second_review)))) ⊎ Undrawn s t

edge-Allowed : (s t : WorkOrderState) → s ⟶ t → Allowed s t
edge-Allowed _ _ Graph.submit = inl (submit, λ e. cc e.0)
edge-Allowed _ _ Graph.approve = inl (approve, λ e. cc e.0)
edge-Allowed _ _ Graph.build = inl (build, λ e. cc e.0)
edge-Allowed _ _ Graph.succeed = inl (succeed, λ e. cc e.1)
edge-Allowed _ _ Graph.fail = inl (fail, λ e. cc e.1)
edge-Allowed _ _ Graph.retry = inr retry
edge-Allowed _ _ Graph.escalate = inr review_approved
edge-Allowed _ _ Graph.second_approve = inl (second_approve, λ e. cc e.0)
edge-Allowed _ _ Graph.second_reject = inl (second_reject, λ e. cc e.0)
edge-Allowed _ _ Graph.second_build = inl (second_build, λ e. cc e.0)
edge-Allowed _ _ Graph.close_draft = inr close_draft
edge-Allowed _ _ Graph.refuse = inr refuse
edge-Allowed _ _ Graph.close_approved = inr close_approved
edge-Allowed _ _ Graph.close_success = inl (close_success, λ e. cc e.0)
edge-Allowed _ _ Graph.close_failed = inl (close_failed, λ e. cc e.0)
edge-Allowed _ _ Graph.close_second_approved = inr close_second_approved
edge-Allowed _ _ Graph.close_second_rejected = inr close_second_rejected

drawn-edge :
    (s t : WorkOrderState) → Drawn s t → ¬ ((s ≡ building) × (t ≡ pending_second_review)) → s ⟶ t
drawn-edge _ _ submit n = Graph.submit
drawn-edge _ _ approve n = Graph.approve
drawn-edge _ _ build n = Graph.build
drawn-edge _ _ succeed n = Graph.succeed
drawn-edge _ _ fail n = Graph.fail
drawn-edge _ _ close_success n = Graph.close_success
drawn-edge _ _ close_failed n = Graph.close_failed
drawn-edge _ _ review_building n = absurd (n (refl, refl))
drawn-edge _ _ second_approve n = Graph.second_approve
drawn-edge _ _ second_reject n = Graph.second_reject
drawn-edge _ _ second_build n = Graph.second_build

undrawn-edge : (s t : WorkOrderState) → Undrawn s t → s ⟶ t
undrawn-edge _ _ retry = Graph.retry
undrawn-edge _ _ review_approved = Graph.escalate
undrawn-edge _ _ close_draft = Graph.close_draft
undrawn-edge _ _ refuse = Graph.refuse
undrawn-edge _ _ close_approved = Graph.close_approved
undrawn-edge _ _ close_second_approved = Graph.close_second_approved
undrawn-edge _ _ close_second_rejected = Graph.close_second_rejected

Allowed-edge : (s t : WorkOrderState) → Allowed s t → s ⟶ t
Allowed-edge s t (inl (d, n)) = drawn-edge s t d n
Allowed-edge s t (inr u) = undrawn-edge s t u

-- A transition gives its target exactly if docs/architecture.md draws it and it is not that from BUILDING
-- to PENDING_SECOND_REVIEW, or if it is one of seven that are not drawn: from FAILED to BUILDING, from
-- APPROVED to PENDING_SECOND_REVIEW, and to CLOSED from DRAFT, PENDING_APPROVAL, APPROVED, SECOND_APPROVED
-- and SECOND_REJECTED. Any other transition, that from BUILDING to PENDING_SECOND_REVIEW among them, raises
-- the error that names both states.
pub transition-iff-Allowed :
    (s t : WorkOrderState)
    → ((transition s t ≡ ok t) ↔ Allowed s t)
      × ((transition s t ≡ state_error s t) ↔ (¬ Allowed s t))
transition-iff-Allowed s t =
    let ((f, g), (h, k)) = transition-iff-edge s t in
    (
      (λ e. edge-Allowed s t (f e), λ a. g (Allowed-edge s t a)),
      (λ e a. h e (Allowed-edge s t a), λ n. k (λ x. n (edge-Allowed s t x))),
    )
