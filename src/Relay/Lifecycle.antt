-- ===== src/Relay/Lifecycle.antt =====
-- The service of forwarder/app/services/relay.py moves a work order along the lifecycle only.
use jd_relay.Common.{
  ◌≡◌, refl, ap, ◌⊎◌, inl, inr, some, Text, codes, Bool-cases, Option-cases, All, IsAscii,
}
use jd_relay.Common.Dict.{lookup}
use jd_relay.WorkOrder.{
  WorkOrderState, approved, closed, second_approved, second_rejected, value, of_value,
  can_transition, transition,
}
use jd_relay.WorkOrder.Graph.{◌⟶◌, can_transition-edge, edge-can_transition, of_value-iff-value}
use jd_relay.Relay.{
  RelayError, bad_transition, missing_key, unknown_state, unknown_status, pure, ◌>>=◌, ◌>>◌, Result,
  ok, failure, WorkOrderDict, require, current_state, move, on_approval_result, close_work_order,
  on_build_result, on_second_review_result,
}
use jd_relay.Relay.Spelling.{Decides, decided, Spells, Reports, build_target-cases}

module _ {W : Type 0} where
  -- The method left the world alone, and it raised, or returned a state that it may ask for, one edge
  -- of the lifecycle away from the state that the work order names.
  pub record MovesTo (work_order : WorkOrderDict) (Target : WorkOrderState → Type 0) (w : W)
      (r : Result WorkOrderState × W) : Type 0 where
    pub unchanged : r.1 ≡ w
    pub moved :
        ((e : RelayError) × (r.0 ≡ failure e))
        ⊎ ((s : WorkOrderState) × (t : WorkOrderState) × (r.0 ≡ ok t)
            × (lookup (codes "state") work_order ≡ some (value s))
            × Target t
            × (s ⟶ t))

  failed_MovesTo :
      (wo : WorkOrderDict) (Target : WorkOrderState → Type 0) (w : W) (e : RelayError)
      → MovesTo wo Target w (failure e, w)
  failed_MovesTo wo Target w e = record { unchanged = refl; moved = inl (e, refl) }

  ok_MovesTo :
      (wo : WorkOrderDict) (Target : WorkOrderState → Type 0) (s t : WorkOrderState) (w : W)
      → lookup (codes "state") wo ≡ some (value s)
      → Target t
      → s ⟶ t
      → MovesTo wo Target w (ok t, w)
  ok_MovesTo wo Target s t w e target edge = record {
    unchanged = refl;
    moved = inr (s, t, refl, e, target, edge);
  }

  current_state-cases :
      (wo : WorkOrderDict) (w : W)
      → ((e : RelayError) × (current_state wo w ≡ (failure e, w)))
        ⊎ ((s : WorkOrderState) × (current_state wo w ≡ (ok s, w))
            × (lookup (codes "state") wo ≡ some (value s)))
  unfolding current_state
  current_state-cases wo w = elim (Option-cases (lookup (codes "state") wo)) [
    | inl n ↦ inl (missing_key, rw n refl)
    | inr (x, e) ↦ elim (Option-cases (of_value x)) [
      | inl n ↦ inl (unknown_state, rw (e, n) refl)
      | inr (s, f) ↦ inr (s, rw (e, f) refl, rw e (ap some ((of_value-iff-value s x).0 f)))
    ]
  ]

  move-cases :
      (s t : WorkOrderState) (w : W)
      → (move s t w ≡ (failure (bad_transition s t), w)) ⊎ ((move s t w ≡ (ok t, w)) × (s ⟶ t))
  unfolding move transition
  move-cases s t w = elim (Bool-cases (can_transition s t)) [
    | inl e ↦ inr (rw e refl, can_transition-edge s t e)
    | inr n ↦ inl (rw n refl)
  ]

  -- A check, a transition, and nothing more.
  plain_MovesTo :
      (wo : WorkOrderDict) (Target : WorkOrderState → Type 0) (target : WorkOrderState) (w : W)
      → Target target
      → MovesTo wo Target w ((current_state wo >>= λ s. move s target) w)
  plain_MovesTo wo Target target w asked = elim (current_state-cases wo w) [
    | inl (e, p) ↦ rw p (failed_MovesTo wo Target w e)
    | inr (s, p, n) ↦ elim (move-cases s target w) [
      | inl q ↦ rw p (rw q (failed_MovesTo wo Target w (bad_transition s target)))
      | inr (q, edge) ↦ rw p (rw q (ok_MovesTo wo Target s target w n asked edge))
    ]
  ]

  -- A check, a transition, and the log line that reads the order number.
  logged_MovesTo :
      (wo : WorkOrderDict) (Target : WorkOrderState → Type 0) (target : WorkOrderState) (w : W)
      → Target target
      → MovesTo wo Target w
          ((do s ← current_state wo; n ← move s target; require (codes "order_no") wo; pure n) w)
  unfolding require
  logged_MovesTo wo Target target w asked = elim (current_state-cases wo w) [
    | inl (e, p) ↦ rw p (failed_MovesTo wo Target w e)
    | inr (s, p, known) ↦ elim (move-cases s target w) [
      | inl q ↦ rw p (rw q (failed_MovesTo wo Target w (bad_transition s target)))
      | inr (q, edge) ↦ elim (Option-cases (lookup (codes "order_no") wo)) [
        | inl n ↦ rw p (rw q (rw n (failed_MovesTo wo Target w missing_key)))
        | inr (x, n) ↦ rw p (rw q (rw n (ok_MovesTo wo Target s target w known asked edge)))
      ]
    ]
  ]

  build_MovesTo :
      (wo : WorkOrderDict) (status : Text) (w : W)
      → MovesTo wo (Reports status) w (on_build_result wo status w)
  unfolding on_build_result
  build_MovesTo wo status w = elim (build_target-cases status) [
    | inl (t, e, r) ↦ simp e (logged_MovesTo wo (Reports status) t w r)
    | inr (e, x, y) ↦ elim (current_state-cases wo w) [
      | inl (x, p) ↦ rw p (failed_MovesTo wo (Reports status) w x)
      | inr (s, p, n) ↦ simp e (rw p (failed_MovesTo wo (Reports status) w unknown_status))
    ]
  ]

  -- Each method that returns a state leaves the world alone, and a state that it returns is one edge
  -- of the lifecycle away from the state of the work order: APPROVED for an approval that agrees and
  -- CLOSED for any other; SECOND_APPROVED or SECOND_REJECTED likewise for a second review; SUCCESS or
  -- FAILED where an ASCII build status is that word in any case of letters, and none for another ASCII
  -- status; CLOSED when the order is closed.
  pub methods_follow_lifecycle :
      (wo : WorkOrderDict) (text status : Text) (w : W)
      → All IsAscii status
      → MovesTo wo (Decides approved closed text) w (on_approval_result wo text w)
        × MovesTo wo
            (Decides second_approved second_rejected text)
            w
            (on_second_review_result wo text w)
        × MovesTo wo (Reports status) w (on_build_result wo status w)
        × MovesTo wo (λ t. t ≡ closed) w (close_work_order wo w)
  unfolding on_approval_result on_second_review_result close_work_order
  methods_follow_lifecycle wo text status w ascii = (
    plain_MovesTo wo (Decides approved closed text) _ w (decided approved closed text),
    logged_MovesTo wo (Decides second_approved second_rejected text) _ w
        (decided second_approved second_rejected text),
    build_MovesTo wo status w,
    logged_MovesTo wo (λ t. t ≡ closed) closed w refl,
  )

-- A transition that is asked for gives the target along an edge, and StateError off the edges.
abbrev pub Steps : WorkOrderState → WorkOrderState → Result WorkOrderState → Type 0
Steps s t r = ((s ⟶ t) × (r ≡ ok t)) ⊎ ((¬ (s ⟶ t)) × (r ≡ failure (bad_transition s t)))

module _ {W : Type 0} (wo : WorkOrderDict) (w : W) (s : WorkOrderState) (order_no : Text) where
  -- The method asks for a target, and ends in what that transition gives, with the world left alone.
  abbrev pub Returns : (WorkOrderState → Type 0) → Result WorkOrderState × W → Type 0
  Returns Target outcome =
      (t : WorkOrderState) × (r : Result WorkOrderState) × Target t
      × Steps s t r
      × (outcome ≡ (r, w))

  state_known : lookup (codes "state") wo ≡ some (value s) → current_state wo w ≡ (ok s, w)
  unfolding current_state
  state_known named = rw named (rw ((of_value-iff-value s (value s)).1 refl) refl)

  move-Returns :
      (Target : WorkOrderState → Type 0) (t : WorkOrderState)
      → Target t
      → Returns Target (move s t w)
  unfolding move transition
  move-Returns Target t asked = elim (Bool-cases (can_transition s t)) [
    | inl h ↦ (t, ok t, asked, inl (can_transition-edge s t h, refl), rw h refl)
    | inr h ↦ (
      t,
      failure (bad_transition s t),
      asked,
      inr (λ x. cc (edge-can_transition x), refl),
      rw h refl,
    )
  ]

  logged_Returns :
      (Target : WorkOrderState → Type 0) (t : WorkOrderState)
      → lookup (codes "order_no") wo ≡ some order_no
      → Target t
      → Returns Target ((do n ← move s t; require (codes "order_no") wo; pure n) w)
  unfolding move transition require
  logged_Returns Target t n asked = elim (Bool-cases (can_transition s t)) [
    | inl h ↦ (t, ok t, asked, inl (can_transition-edge s t h, refl), rw h (rw n refl))
    | inr h ↦ (
      t,
      failure (bad_transition s t),
      asked,
      inr (λ x. cc (edge-can_transition x), refl),
      rw h refl,
    )
  ]

  -- For a work order in a known state that has a number, each method returns the state that it is
  -- asked for where the lifecycle has an edge to it, and raises StateError where it has none; in all
  -- cases it leaves the world alone. An approval asks for APPROVED if it agrees and for CLOSED if not, a
  -- second review for SECOND_APPROVED or SECOND_REJECTED, closing for CLOSED, and an ASCII build status
  -- for SUCCESS or FAILED where it is that word in any case of letters; for any other ASCII status,
  -- ABORTED among them, the method raises.
  pub methods_return :
      (text status : Text)
      → lookup (codes "state") wo ≡ some (value s)
      → lookup (codes "order_no") wo ≡ some order_no
      → All IsAscii status
      → Returns (Decides approved closed text) (on_approval_result wo text w)
        × Returns (Decides second_approved second_rejected text) (on_second_review_result wo text w)
        × (Returns (Reports status) (on_build_result wo status w)
            ⊎ ((¬ Spells status (codes "SUCCESS"))
                × (¬ Spells status (codes "FAILED"))
                × (on_build_result wo status w ≡ (failure unknown_status, w))))
        × Returns (λ t. t ≡ closed) (close_work_order wo w)
  unfolding on_approval_result on_second_review_result on_build_result close_work_order
  methods_return text status named n ascii = rw (state_known named) (
    move-Returns (Decides approved closed text) _ (decided approved closed text),
    logged_Returns (Decides second_approved second_rejected text) _ n
        (decided second_approved second_rejected text),
    elim (build_target-cases status) [
      | inl (t, b, asked) ↦ rw b (inl (logged_Returns (Reports status) t n asked))
      | inr (b, x, y) ↦ rw b (inr (x, y, refl))
    ],
    logged_Returns (λ t. t ≡ closed) closed n refl,
  )
