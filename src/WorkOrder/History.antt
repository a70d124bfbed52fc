-- ===== src/WorkOrder/History.antt =====
-- What a work order has been through, read off the states that were asked of `transition` in turn.
use mathlib.Core.List.{Memᴰ}
use jd_relay.Common.{
  ◌≡◌, refl, sym, ◌⊎◌, inl, inr, Bool, true, false, List, [], ◌∷◌, arith, Bool-cases,
}
use jd_relay.WorkOrder.{
  WorkOrderState, draft, pending_approval, approved, building, closed, pending_second_review,
  second_approved, second_rejected, can_transition, Result, ok, state_error, transition,
}

abbrev continue :
    Result WorkOrderState → (WorkOrderState → Result WorkOrderState) → Result WorkOrderState
continue (ok s) f = f s
continue (state_error s t) f = state_error s t

-- The state after asking for each target in turn, or the first error.
unfoldable pub follow : WorkOrderState → List WorkOrderState → Result WorkOrderState
follow s [] = ok s
follow s (t ∷ ts) = continue (transition s t) (λ u. follow u ts)

-- The states before the first approval, and the one that a refusal leads to.
abbrev is_unapproved : WorkOrderState → Bool
is_unapproved draft = true
is_unapproved pending_approval = true
is_unapproved closed = true
is_unapproved _ = false

-- The states of a review that has not been passed.
abbrev is_held : WorkOrderState → Bool
is_held pending_second_review = true
is_held second_rejected = true
is_held closed = true
is_held _ = false

unapproved_step :
    (s t : WorkOrderState)
    → is_unapproved s ≡ true
    → can_transition s t ≡ true
    → (t ≡ approved) ⊎ (is_unapproved t ≡ true)
unfolding can_transition
unapproved_step s t h e = ground arith

held_step :
    (s t : WorkOrderState)
    → is_held s ≡ true
    → can_transition s t ≡ true
    → (t ≡ second_approved) ⊎ (is_held t ≡ true)
unfolding can_transition
held_step s t h e = ground arith

needs_approval :
    (s : WorkOrderState) (ts : List WorkOrderState)
    → is_unapproved s ≡ true
    → follow s ts ≡ ok building
    → Memᴰ approved ts
unfolding follow
needs_approval s [] u h = ground arith
needs_approval s (t ∷ ts) u h = elim (Bool-cases (can_transition s t)) [
  | inl e ↦ elim (unapproved_step s t u e) [
    | inl p ↦ Memᴰ.head (sym p)
    | inr q ↦ Memᴰ.tail (needs_approval t ts q (unfold transition in ground arith))
  ]
  | inr n ↦ absurd (unfold transition in ground arith)
]

needs_second_approval :
    (s : WorkOrderState) (ts : List WorkOrderState)
    → is_held s ≡ true
    → follow s ts ≡ ok building
    → Memᴰ second_approved ts
unfolding follow
needs_second_approval s [] u h = ground arith
needs_second_approval s (t ∷ ts) u h = elim (Bool-cases (can_transition s t)) [
  | inl e ↦ elim (held_step s t u e) [
    | inl p ↦ Memᴰ.head (sym p)
    | inr q ↦ Memᴰ.tail (needs_second_approval t ts q (unfold transition in ground arith))
  ]
  | inr n ↦ absurd (unfold transition in ground arith)
]

-- Whatever transitions are asked for, a work order that started in DRAFT and is BUILDING went
-- through APPROVED.
pub building_needs_approval :
    (ts : List WorkOrderState) → follow draft ts ≡ ok building → Memᴰ approved ts
building_needs_approval ts h = needs_approval draft ts refl h

-- Whatever transitions are asked for, a work order that was held for a second review and is BUILDING
-- went through SECOND_APPROVED.
pub building_needs_second_approval :
    (ts : List WorkOrderState)
    → follow pending_second_review ts ≡ ok building
    → Memᴰ second_approved ts
building_needs_second_approval ts h = needs_second_approval pending_second_review ts refl h
