-- ===== src/Admin/Stats.antt =====
-- The dashboard's numbers of forwarder/app/api/admin.py against the rows.
use jd_relay.Common.{
  ℕ, ◌+◌, ◌≡◌, refl, Bool, false, ◌||◌, List, [], ◌∷◌, Option, Text, codes, text_eq, text_eq_iff,
  length, arith,
}
use jd_relay.Common.Dict.{Dict, lookup, insert, lookup-insert}
use jd_relay.Approvals.{OrderRow, select}
use jd_relay.Ws.AgentManager.{AgentManager}
use jd_relay.Admin.{count_of, state_counts, sum_values, online_agents, get_stats}

abbrev pub in_state : Text → OrderRow → Bool
in_state s o = text_eq o.state s

abbrev pub counted : (OrderRow → Bool) → List OrderRow → ℕ
counted p orders = length (select p orders)

state_counts-lookup :
    (s : Text) (orders : List OrderRow)
    → count_of (lookup s (state_counts orders)) ≡ counted (in_state s) orders
unfolding state_counts
state_counts-lookup s [] = unfold lookup in refl
state_counts-lookup s (o ∷ orders) =
    let c = state_counts orders in
    ground (
      arith,
      text_eq_iff o.state s,
      state_counts-lookup s orders,
      lookup-insert o.state s (count_of (lookup o.state c) + 1) c,
    )

sum_values-insert :
    (k : Text) (d : Dict ℕ) → sum_values (insert k (count_of (lookup k d) + 1) d) ≡ sum_values d + 1
unfolding sum_values insert lookup
sum_values-insert k [] = refl
sum_values-insert k ((j, n) ∷ d) = ground (arith, sum_values-insert k d)

sum_values-state_counts :
    (orders : List OrderRow) → sum_values (state_counts orders) ≡ length orders
unfolding state_counts
sum_values-state_counts [] = unfold sum_values in refl
sum_values-state_counts (o ∷ orders) =
    omega (arith, sum_values-insert o.state (state_counts orders), sum_values-state_counts orders)

-- Rows that are in one of two different states.
counted_either :
    (s t : Text) (orders : List OrderRow)
    → text_eq s t ≡ false
    → counted (λ o. in_state s o || in_state t o) orders
      ≡ counted (in_state s) orders + counted (in_state t) orders
counted_either s t [] h = refl
counted_either s t (o ∷ orders) h = ground (
  arith,
  text_eq_iff o.state s,
  text_eq_iff o.state t,
  text_eq_iff s t,
  counted_either s t orders h,
)

-- The dashboard counts every order once: the total is the number of orders, the pending ones are
-- those in either of the two states that wait for an approval, and the other numbers are the orders in
-- the states that they name. The agents that it counts are those of the registry.
pub stats_count_orders :
    {S : Type 0} (manager : Option (AgentManager S)) (orders : List OrderRow)
    → get_stats manager orders ≡ record {
      total_orders = length orders;
      pending_approval =
          counted
            (λ o.
              in_state (codes "PENDING_APPROVAL") o || in_state (codes "PENDING_SECOND_REVIEW") o)
            orders;
      building = counted (in_state (codes "BUILDING")) orders;
      success = counted (in_state (codes "SUCCESS")) orders;
      failed = counted (in_state (codes "FAILED")) orders;
      online_agents = online_agents manager;
    }
unfolding get_stats
stats_count_orders manager orders =
    rw
      (
        sum_values-state_counts orders,
        state_counts-lookup (codes "PENDING_APPROVAL") orders,
        state_counts-lookup (codes "PENDING_SECOND_REVIEW") orders,
        state_counts-lookup (codes "BUILDING") orders,
        state_counts-lookup (codes "SUCCESS") orders,
        state_counts-lookup (codes "FAILED") orders,
        counted_either (codes "PENDING_APPROVAL") (codes "PENDING_SECOND_REVIEW") orders
            (unfold text_eq in refl),
      )
      refl
