-- ===== src/Approvals/Finish.antt =====
-- What an approval callback of forwarder/app/api/dingtalk.py does to the database.
use jd_relay.Common.{
  true, ℕ, ◌≡◌, refl, ◌⊎◌, inl, inr, List, [], ◌∷◌, map, Option, some, Text, Bool-cases,
  Option-cases,
}
use jd_relay.Common.Outcome.{Outcome, Outcome-cases, returned, raised, library_error}
use jd_relay.WorkOrder.{
  WorkOrderState, value, of_value, can_transition, transition, ok, state_error,
}
use jd_relay.WorkOrder.Graph.{◌⟶◌, can_transition-edge, edge-can_transition, of_value-iff-value}
use jd_relay.Approvals.Asked.{
  Asked, Moved, Answered, Rows, finish_target-Asked, Asked-finish_target, move_row-Moved,
  answer-Answered,
}
use jd_relay.Approvals.{
  OrderRow, ApprovalRow, Database, select, scalar_one_or_none, has_order_no, is_pending, answer,
  move_row, review_type_of, finish_target, commit_move, finish_found, finish_order,
  handle_approval_finish,
}

-- One order moved along an edge, to the state that the result and the kind of review ask for, and
-- its pending approval, if it has one, answered; nothing else changed.
pub record Moves (db : Database) (biz_id result : Text) (now now' : ℕ) (db' : Database)
    : Type 0 where
  pub order : OrderRow
  pub approval : Option ApprovalRow
  pub from_state : WorkOrderState
  pub to_state : WorkOrderState
  pub found : select (has_order_no biz_id) db.orders ≡ order ∷ []
  pub pending : scalar_one_or_none (select (is_pending order.id) db.approvals) ≡ returned approval
  pub was : order.state ≡ value from_state
  pub edge : from_state ⟶ to_state
  pub asked : Asked approval result to_state
  pub orders_moved : Rows (Moved order.id to_state now') db.orders db'.orders
  pub approvals_answered : Rows (Answered approval result now) db.approvals db'.approvals

scalar-some {ℓ} :
    {A : Type ℓ} (xs : List A) {x : A} → scalar_one_or_none xs ≡ returned (some x) → xs ≡ x ∷ []
scalar-some [] h = cc
scalar-some (y ∷ []) h = cc
scalar-some (y ∷ z ∷ xs) h = cc

transition-cases :
    (s t : WorkOrderState)
    → (transition s t ≡ state_error s t) ⊎ ((transition s t ≡ ok t) × (s ⟶ t))
unfolding transition
transition-cases s t = elim (Bool-cases (can_transition s t)) [
  | inl e ↦ inr (rw e refl, can_transition-edge s t e)
  | inr n ↦ inl (rw n refl)
]

module _ (db : Database) (biz_id result : Text) (now now' : ℕ) where
  abbrev pub IsAtomic : Outcome (Unit {0}) × Database → Type 0
  IsAtomic r = (r.1 ≡ db) ⊎ ((r.0 ≡ returned tt) × Moves db biz_id result now now' r.1)

  found-IsAtomic :
      (order : OrderRow)
      → select (has_order_no biz_id) db.orders ≡ order ∷ []
      → IsAtomic (finish_found db order result now now')
  unfolding finish_found
  found-IsAtomic order found =
      elim (Outcome-cases (scalar_one_or_none (select (is_pending order.id) db.approvals))) [
        | inr (x, e) ↦ rw e (inl refl)
        | inl (approval, e) ↦ elim (Option-cases (of_value order.state)) [
          | inl n ↦ rw e (rw n (inl refl))
          | inr (s, n) ↦
              let target = finish_target (review_type_of approval) result in
              elim (transition-cases s target) [
                | inl x ↦ rw e (rw n (rw x (unfold commit_move in inl refl)))
                | inr (x, edge) ↦ rw e (
                    rw n (
                      rw x (
                        unfold commit_move in
                        inr (
                          refl,
                          record {
                            order = order;
                            approval = approval;
                            from_state = s;
                            to_state = target;
                            found = found;
                            pending = e;
                            was = (of_value-iff-value s order.state).0 n;
                            edge = edge;
                            asked = finish_target-Asked approval result;
                            orders_moved = move_row-Moved order.id target now' db.orders;
                            approvals_answered = answer-Answered approval result now db.approvals;
                          },
                        ))))
              ]
        ]
      ]

  -- A callback changes nothing, or it moves the one order that has the number along an edge of the
  -- lifecycle and answers its pending approval, if it has one, in one commit. Where an exception leaves
  -- the call, nothing was changed.
  pub finish-IsAtomic : IsAtomic (handle_approval_finish db biz_id result now now')
  unfolding handle_approval_finish finish_order
  finish-IsAtomic =
      elim (Outcome-cases (scalar_one_or_none (select (has_order_no biz_id) db.orders))) [
        | inr (x, e) ↦ rw e (inl refl)
        | inl (o, e) ↦ elim (Option-cases o) [
          | inl n ↦ rw e (rw n (inl refl))
          | inr (order, n) ↦ rw e (rw n (found-IsAtomic order (scalar-some _ (rw n at e))))
        ]
      ]

  -- An order with two or more pending approvals is never moved: the callback raises, and the database
  -- stays as it was.
  pub two_pending_raise :
      (order : OrderRow) (first second : ApprovalRow) (more : List ApprovalRow)
      → select (has_order_no biz_id) db.orders ≡ order ∷ []
      → select (is_pending order.id) db.approvals ≡ first ∷ second ∷ more
      → handle_approval_finish db biz_id result now now' ≡ (raised library_error, db)
  unfolding handle_approval_finish finish_order finish_found
  two_pending_raise order first second more found pending = simp (found, pending)

  -- Where one order has the number, at most one of its approvals is pending, and the lifecycle has an edge
  -- from the order's state to the state that is asked for, the callback returns; the order then has that
  -- state and the time of its update, the pending approval, if there is one, is APPROVED if the result
  -- is "agree" and REJECTED if not, with the time of the answer, and all other rows are as they were. The
  -- state asked for is APPROVED on "agree" and CLOSED on any other result, and for a second review
  -- SECOND_APPROVED and SECOND_REJECTED.
  pub finish_moves :
      (order : OrderRow) (approval : Option ApprovalRow) (s t : WorkOrderState)
      → select (has_order_no biz_id) db.orders ≡ order ∷ []
      → scalar_one_or_none (select (is_pending order.id) db.approvals) ≡ returned approval
      → order.state ≡ value s
      → Asked approval result t
      → s ⟶ t
      → (db' : Database) × (handle_approval_finish db biz_id result now now' ≡ (returned tt, db'))
        × Rows (Moved order.id t now') db.orders db'.orders
        × Rows (Answered approval result now) db.approvals db'.approvals
  unfolding handle_approval_finish finish_order finish_found transition commit_move
  finish_moves order approval s t found pending named asked edge =
      let target : finish_target (review_type_of approval) result ≡ t =
        Asked-finish_target approval result t asked in
      let known : of_value order.state ≡ some s = (of_value-iff-value s order.state).1 named in
      let allowed : can_transition s (finish_target (review_type_of approval) result) ≡ true =
        rw target (edge-can_transition edge) in
      (
        record {
          orders = map (move_row order.id t now') db.orders;
          approvals = answer approval result now db.approvals;
        },
        rw found (rw pending (rw known (rw allowed (rw target refl)))),
        move_row-Moved order.id t now' db.orders,
        answer-Answered approval result now db.approvals,
      )
