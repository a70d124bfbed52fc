-- ===== src/WorkOrder.antt =====
-- The work order state machine, forwarder/app/state.py: the states, the transition table, and the
-- checked transition. `StateError` is the error of `transition`, with the two states that its
-- message names.
pub mod Graph
pub mod Documented
pub mod History
use jd_relay.Common.{
  Bool, true, false, ◌||◌, List, [], ◌∷◌, Text, codes, if◌then◌else◌, Option, none, some, text_eq,
}

pub data WorkOrderState : Type 0 where
  draft pending_approval approved building success failed closed : WorkOrderState
  pending_second_review second_approved second_rejected : WorkOrderState

-- The strings of the enum, which the database and the messages carry.
unfoldable pub value : WorkOrderState → Text
value draft = codes "DRAFT"
value pending_approval = codes "PENDING_APPROVAL"
value approved = codes "APPROVED"
value building = codes "BUILDING"
value success = codes "SUCCESS"
value failed = codes "FAILED"
value closed = codes "CLOSED"
value pending_second_review = codes "PENDING_SECOND_REVIEW"
value second_approved = codes "SECOND_APPROVED"
value second_rejected = codes "SECOND_REJECTED"

abbrev pub all_states : List WorkOrderState
all_states =
    draft ∷ pending_approval ∷ approved ∷ building ∷ success ∷ failed ∷ closed
    ∷ pending_second_review ∷ second_approved ∷ second_rejected ∷ []

find_state : List WorkOrderState → Text → Option WorkOrderState
find_state [] s = none
find_state (m ∷ ms) s = if text_eq (value m) s then some m else find_state ms s

-- `WorkOrderState(s)`, which raises ValueError on an unknown string.
unfoldable pub of_value : Text → Option WorkOrderState
unfolding find_state value
of_value s = find_state all_states s

-- `a == b` on the enum.
unfoldable pub state_eq : WorkOrderState → WorkOrderState → Bool
state_eq draft draft = true
state_eq pending_approval pending_approval = true
state_eq approved approved = true
state_eq building building = true
state_eq success success = true
state_eq failed failed = true
state_eq closed closed = true
state_eq pending_second_review pending_second_review = true
state_eq second_approved second_approved = true
state_eq second_rejected second_rejected = true
state_eq _ _ = false

-- TRANSITIONS
unfoldable pub transitions : WorkOrderState → List WorkOrderState
transitions draft = pending_approval ∷ closed ∷ []
transitions pending_approval = approved ∷ closed ∷ []
transitions approved = building ∷ pending_second_review ∷ closed ∷ []
transitions building = success ∷ failed ∷ []
transitions success = closed ∷ []
transitions failed = building ∷ closed ∷ []
transitions closed = []
transitions pending_second_review = second_approved ∷ second_rejected ∷ []
transitions second_approved = building ∷ closed ∷ []
transitions second_rejected = closed ∷ []

-- `target in states`
is_in : WorkOrderState → List WorkOrderState → Bool
unfolding state_eq
is_in target [] = false
is_in target (s ∷ states) = state_eq target s || is_in target states

unfoldable pub can_transition : WorkOrderState → WorkOrderState → Bool
unfolding is_in transitions
can_transition current target = is_in target (transitions current)

pub data Result {ℓ} (A : Type ℓ) : Type ℓ where
  ok : A → Result A
  state_error : WorkOrderState → WorkOrderState → Result A

unfoldable pub transition : WorkOrderState → WorkOrderState → Result WorkOrderState
unfolding can_transition
transition current target =
    if can_transition current target then ok target else state_error current target

-- `TRANSITIONS.get(state, []) == []`
no_states : List WorkOrderState → Bool
no_states [] = true
no_states (s ∷ states) = false

unfoldable pub is_terminal : WorkOrderState → Bool
unfolding no_states transitions
is_terminal state = no_states (transitions state)
