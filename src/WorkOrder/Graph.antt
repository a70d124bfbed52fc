-- ===== src/WorkOrder/Graph.antt =====
-- The transitions of forwarder/app/state.py as a relation, for proofs by induction. What the
-- documentation draws is in WorkOrder.Documented.
use jd_relay.Common.{
  ◌≡◌, refl, ◌↔◌, inl, inr, true, some, List, [], ◌∷◌, Text, text_eq, text_eq_iff, arith,
  Bool-cases,
}
use jd_relay.WorkOrder.{
  WorkOrderState, draft, pending_approval, approved, building, success, failed, closed,
  pending_second_review, second_approved, second_rejected, value, all_states, find_state, of_value,
  can_transition, ok, transition, state_error, is_terminal,
}

-- The transitions that the table allows, each with a name.
infix 40 ◌⟶◌ ◌⟶*◌
pub data ◌⟶◌ : WorkOrderState → WorkOrderState → Type 0 where
  submit : draft ⟶ pending_approval
  approve : pending_approval ⟶ approved
  build : approved ⟶ building
  succeed : building ⟶ success
  fail : building ⟶ failed
  retry : failed ⟶ building
  escalate : approved ⟶ pending_second_review
  second_approve : pending_second_review ⟶ second_approved
  second_reject : pending_second_review ⟶ second_rejected
  second_build : second_approved ⟶ building
  close_draft : draft ⟶ closed
  refuse : pending_approval ⟶ closed
  close_approved : approved ⟶ closed
  close_success : success ⟶ closed
  close_failed : failed ⟶ closed
  close_second_approved : second_approved ⟶ closed
  close_second_rejected : second_rejected ⟶ closed

pub data ◌⟶*◌ : WorkOrderState → WorkOrderState → Type 0 where
  here : {s : WorkOrderState} → s ⟶* s
  then : {s t u : WorkOrderState} → s ⟶ t → t ⟶* u → s ⟶* u

ruleset edges = (
  submit, approve, build, succeed, fail, retry, escalate, second_approve, second_reject,
  second_build, close_draft, refuse, close_approved, close_success, close_failed,
  close_second_approved, close_second_rejected,
)

pub edge-can_transition : {s t : WorkOrderState} → s ⟶ t → can_transition s t ≡ true
unfolding can_transition
edge-can_transition submit = refl
edge-can_transition approve = refl
edge-can_transition build = refl
edge-can_transition succeed = refl
edge-can_transition fail = refl
edge-can_transition retry = refl
edge-can_transition escalate = refl
edge-can_transition second_approve = refl
edge-can_transition second_reject = refl
edge-can_transition second_build = refl
edge-can_transition close_draft = refl
edge-can_transition refuse = refl
edge-can_transition close_approved = refl
edge-can_transition close_success = refl
edge-can_transition close_failed = refl
edge-can_transition close_second_approved = refl
edge-can_transition close_second_rejected = refl

pub can_transition-edge : (s t : WorkOrderState) → can_transition s t ≡ true → s ⟶ t
unfolding can_transition
can_transition-edge s t h = grind (arith, edges)

-- A transition gives the target exactly along an edge, and raises the error that names both states
-- exactly where there is none.
pub transition-iff-edge :
    (s t : WorkOrderState)
    → ((transition s t ≡ ok t) ↔ (s ⟶ t)) × ((transition s t ≡ state_error s t) ↔ (¬ (s ⟶ t)))
unfolding transition
transition-iff-edge s t = elim (Bool-cases (can_transition s t)) [
  | inl e ↦ rw e (
    (λ h. can_transition-edge s t e, λ x. refl),
    (λ h. cc, λ h. absurd (h (can_transition-edge s t e))),
  )
  | inr n ↦
      rw n
        ((λ h. cc, λ x. cc (edge-can_transition x)), (λ h x. cc (edge-can_transition x), λ h. refl))
]

closing : (s : WorkOrderState) → s ⟶* closed
closing closed = here
closing _ = search (here, then, edges)

-- A state is terminal exactly if it is CLOSED, and from every state CLOSED can be reached.
pub terminal-iff-closed :
    (s : WorkOrderState) → ((is_terminal s ≡ true) ↔ (s ≡ closed)) × (s ⟶* closed)
unfolding is_terminal
terminal-iff-closed s = (ground arith, closing s)

find_state-value :
    (ms : List WorkOrderState) (t : Text) (s : WorkOrderState)
    → find_state ms t ≡ some s
    → t ≡ value s
unfolding find_state
find_state-value [] t s h = cc
find_state-value (m ∷ ms) t s h = ground (arith, text_eq_iff (value m) t, find_state-value ms t s)

of_value_self : (s : WorkOrderState) → of_value (value s) ≡ some s
unfolding of_value text_eq
of_value_self draft = refl
of_value_self _ = refl

-- A string is read as a state exactly if it is that state's string, so any other string raises.
pub of_value-iff-value : (s : WorkOrderState) (t : Text) → (of_value t ≡ some s) ↔ (t ≡ value s)
of_value-iff-value s t =
    (unfold of_value in find_state-value all_states t s, λ e. rw e (of_value_self s))
