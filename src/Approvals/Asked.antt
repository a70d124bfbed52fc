-- ===== src/Approvals/Asked.antt =====
-- What an approval callback of forwarder/app/api/dingtalk.py asks for, stated apart from the code: the
-- state that a result asks for, and the rows after it.
use jd_relay.Common.{
  ℕ, ◌≡◌, refl, ◌⊎◌, inl, inr, true, false, List, [], ◌∷◌, map, Option, none, some, Text, codes,
  text_eq, text_decided, ◌==◌, Bool-cases, arith,
}
use jd_relay.WorkOrder.{WorkOrderState, approved, closed, second_approved, second_rejected, value}
use jd_relay.Approvals.{
  OrderRow, ApprovalRow, answer, answer_row, move_row, review_type_of, finish_target,
}

-- The pending approval is one of a second review.
abbrev pub IsSecond : Option ApprovalRow → Type 0
IsSecond none = ⊥
IsSecond (some a) = a.review_type ≡ codes "second"

-- The state that a result asks for.
abbrev pub Asked : Option ApprovalRow → Text → WorkOrderState → Type 0
Asked approval result t =
    ((result ≡ codes "agree") × (¬ IsSecond approval) × (t ≡ approved))
    ⊎ ((result ≡ codes "agree") × IsSecond approval × (t ≡ second_approved))
    ⊎ ((¬ (result ≡ codes "agree")) × (¬ IsSecond approval) × (t ≡ closed))
    ⊎ ((¬ (result ≡ codes "agree")) × IsSecond approval × (t ≡ second_rejected))

-- The order's row and any other one, before and after.
abbrev pub Moved : ℕ → WorkOrderState → ℕ → OrderRow → OrderRow → Type 0
Moved id t now o o' =
    ((o.id ≡ id) × (o' ≡ record o { state = value t; updated_at = now }))
    ⊎ ((¬ (o.id ≡ id)) × (o' ≡ o))

-- The row is that of the pending approval.
abbrev pub IsThat : Option ApprovalRow → ApprovalRow → Type 0
IsThat none a = ⊥
IsThat (some p) a = a.id ≡ p.id

-- The approval's row and any other one, before and after.
abbrev pub Answered : Option ApprovalRow → Text → ℕ → ApprovalRow → ApprovalRow → Type 0
Answered approval result now a a' =
    (IsThat approval a
      × (result ≡ codes "agree")
      × (a' ≡ record a { status = codes "APPROVED"; responded_at = some now }))
    ⊎ (IsThat approval a
        × (¬ (result ≡ codes "agree"))
        × (a' ≡ record a { status = codes "REJECTED"; responded_at = some now }))
    ⊎ ((¬ IsThat approval a) × (a' ≡ a))

-- The same rows in the same order, each changed as the relation says.
pub data Rows {A : Type 0} (R : A → A → Type 0) : List A → List A → Type 0 where
  none_left : Rows R [] []
  row : {x y : A} {xs ys : List A} → R x y → Rows R xs ys → Rows R (x ∷ xs) (y ∷ ys)

map-Rows :
    {A : Type 0} (R : A → A → Type 0) (f : A → A)
    → ((x : A) → R x (f x))
    → (xs : List A) → Rows R xs (map f xs)
map-Rows R f h [] = none_left
map-Rows R f h (x ∷ xs) = row (h x) (map-Rows R f h xs)

IsSecond-cases :
    (approval : Option ApprovalRow)
    → (IsSecond approval × (text_eq (review_type_of approval) (codes "second") ≡ true))
      ⊎ ((¬ IsSecond approval) × (text_eq (review_type_of approval) (codes "second") ≡ false))
unfolding text_eq
IsSecond-cases none = inr (λ x. x, refl)
IsSecond-cases (some a) = text_decided a.review_type (codes "second")

pub finish_target-Asked :
    (approval : Option ApprovalRow) (result : Text)
    → Asked approval result (finish_target (review_type_of approval) result)
unfolding finish_target
finish_target-Asked approval result = elim (text_decided result (codes "agree")) [
  | inl (a, e) ↦ elim (IsSecond-cases approval) [
    | inr (s, f) ↦ rw (e, f) (inl (a, s, refl))
    | inl (s, f) ↦ rw (e, f) (inr (inl (a, s, refl)))
  ]
  | inr (a, e) ↦ elim (IsSecond-cases approval) [
    | inr (s, f) ↦ rw (e, f) (inr (inr (inl (a, s, refl))))
    | inl (s, f) ↦ rw (e, f) (inr (inr (inr (a, s, refl))))
  ]
]

pub Asked-finish_target :
    (approval : Option ApprovalRow) (result : Text) (t : WorkOrderState)
    → Asked approval result t
    → finish_target (review_type_of approval) result ≡ t
unfolding finish_target
Asked-finish_target approval result t asked = elim (text_decided result (codes "agree")) [
  | inl (a, e) ↦ elim (IsSecond-cases approval) [
    | inr (s, f) ↦ rw (e, f) (ground arith)
    | inl (s, f) ↦ rw (e, f) (ground arith)
  ]
  | inr (a, e) ↦ elim (IsSecond-cases approval) [
    | inr (s, f) ↦ rw (e, f) (ground arith)
    | inl (s, f) ↦ rw (e, f) (ground arith)
  ]
]

id_decided : (m n : ℕ) → ((m ≡ n) × ((m == n) ≡ true)) ⊎ ((¬ (m ≡ n)) × ((m == n) ≡ false))
id_decided m n = elim (Bool-cases (m == n)) [
  | inl e ↦ inl (ground arith, e)
  | inr e ↦ inr (ground arith, e)
]

pub move_row-Moved :
    (id : ℕ) (t : WorkOrderState) (now : ℕ) (orders : List OrderRow)
    → Rows (Moved id t now) orders (map (move_row id t now) orders)
unfolding move_row
move_row-Moved id t now orders =
    map-Rows (Moved id t now) (move_row id t now)
      (λ o. elim (id_decided o.id id) [
        | inl (a, e) ↦ rw e (inl (a, refl))
        | inr (a, e) ↦ rw e (inr (a, refl))
      ])
      orders

pub answer-Answered :
    (approval : Option ApprovalRow) (result : Text) (now : ℕ) (rows : List ApprovalRow)
    → Rows (Answered approval result now) rows (answer approval result now rows)
unfolding answer answer_row
answer-Answered none result now [] = none_left
answer-Answered none result now (a ∷ rows) =
    row (inr (inr (λ x. x, refl))) (answer-Answered none result now rows)
answer-Answered (some p) result now rows =
    map-Rows (Answered (some p) result now) (answer_row p.id result now)
      (λ a. elim (id_decided a.id p.id) [
        | inr (n, e) ↦ rw e (inr (inr (n, refl)))
        | inl (i, e) ↦ elim (text_decided result (codes "agree")) [
          | inl (y, f) ↦ rw (e, f) (inl (i, y, refl))
          | inr (y, f) ↦ rw (e, f) (inr (inl (i, y, refl)))
        ]
      ])
      rows
