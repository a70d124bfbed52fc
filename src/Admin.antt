-- ===== src/Admin.antt =====
-- The routes of forwarder/app/api/admin.py over the rows of forwarder/app/models.py. `newest_first` is the
-- database's `ORDER BY created_at DESC` on orders, `loads` is `json.loads` on a column, and `isoformat`
-- writes a time. A response that pydantic does not accept is a library error.
mod Rows
pub mod Stats
pub use Rows.*
use jd_relay.Common.{
  ℕ, zero, suc, ◌+◌, Bool, true, false, ◌&&◌, List, [], ◌∷◌, map, Option, none, some, Text, codes,
  text_eq, take, drop, if◌then◌else◌, ◌==◌, is_truthy, is_some, length,
}
use jd_relay.Common.Outcome.{Outcome, returned, raised, attribute_error, library_error, ◌>>=◌}
use jd_relay.Common.Dict.{Dict, lookup, insert}
use jd_relay.Common.Json.{Value, str, int, strs, other}
use jd_relay.Approvals.{OrderRow, ApprovalRow, select, scalar_one_or_none}
use jd_relay.Ws.AgentManager
use jd_relay.Ws.AgentManager.{AgentManager, count}
use jd_relay.Relay.{upper}

abbrev pub is_seen : Text → List AgentRow → Bool
is_seen agent_id [] = false
is_seen agent_id (a ∷ rows) =
    let rest = is_seen agent_id rows in if text_eq a.agent_id agent_id then true else rest

module _ (isoformat : ℕ → Text) where
  abbrev pub fmt_dt : Option ℕ → Option Text
  fmt_dt none = none
  fmt_dt (some t) = some (isoformat t)

  unfoldable pub order_to_summary : OrderRow → WorkOrderSummary
  order_to_summary o = record {
    id = o.id;
    order_no = o.order_no;
    issue = o.issue;
    project = o.project;
    branch = o.branch;
    state = o.state;
    created_at = isoformat o.created_at;
    created_by = o.created_by;
  }

  -- An empty filter is no filter.
  abbrev pub where_equal : (OrderRow → Text) → Option Text → Text → OrderRow → Bool
  where_equal field none wanted o = true
  where_equal field (some filter) wanted o =
      if is_truthy filter then text_eq (field o) wanted else true

  abbrev pub wanted_state : Option Text → Text
  wanted_state none = []
  wanted_state (some s) = upper s

  abbrev pub wanted_project : Option Text → Text
  wanted_project none = []
  wanted_project (some p) = p

  unfoldable pub list_orders :
      (List OrderRow → List OrderRow)
      → List OrderRow
      → Option Text
      → Option Text
      → ℕ
      → ℕ
      → List WorkOrderSummary
  unfolding order_to_summary
  list_orders newest_first orders state project limit offset =
      let by_state = where_equal (λ o. o.state) state (wanted_state state) in
      let by_project = where_equal (λ o. o.project) project (wanted_project project) in
      map order_to_summary
        (take limit (drop offset (newest_first (select (λ o. by_state o && by_project o) orders))))

  abbrev approval_summary : ApprovalRow → ApprovalSummary
  approval_summary a = record {
    id = a.id;
    approver = a.approver;
    status = a.status;
    review_type = a.review_type;
    created_at = isoformat a.created_at;
    responded_at = fmt_dt a.responded_at;
  }

  abbrev build_summary : BuildRow → BuildResultSummary
  build_summary b = record {
    id = b.id;
    build_number = b.build_number;
    status = b.status;
    log_url = b.log_url;
    duration_seconds = b.duration_seconds;
    finished_at = fmt_dt b.finished_at;
  }

  abbrev pub detail_of : List ApprovalRow → List BuildRow → Option OrderRow → Option WorkOrderDetail
  detail_of approvals builds none = none
  detail_of approvals builds (some o) = some (record {
    summary = order_to_summary o;
    build_cmd = o.build_cmd;
    updated_at = isoformat o.updated_at;
    approvals = map approval_summary (select (λ a. a.work_order_id == o.id) approvals);
    build_results = map build_summary (select (λ b. b.work_order_id == o.id) builds);
  })

  -- `none` is the answer 404.
  unfoldable pub get_order :
      List OrderRow → List ApprovalRow → List BuildRow → ℕ → Outcome (Option WorkOrderDetail)
  unfolding order_to_summary
  get_order orders approvals builds order_id =
      scalar_one_or_none (select (λ o. o.id == order_id) orders) >>= λ found.
      returned (detail_of approvals builds found)

  -- The loop over the live agents: `a.get` on a string raises.
  abbrev pub live_projects : List Text → Outcome (Dict (List Text))
  live_projects [] = returned []
  live_projects (a ∷ agents) = raised attribute_error

  abbrev pub agents_of : {S : Type 0} → Option (AgentManager S) → List Text
  agents_of none = []
  agents_of (some m) = AgentManager.list_agents m

  -- `json.loads(a.projects)`, or `[]` where it raises.
  abbrev pub column_projects : Option Value → Value
  column_projects none = strs []
  column_projects (some v) = v

  abbrev pub validated : Value → Outcome (List Text)
  validated (strs ps) = returned ps
  validated _ = raised library_error

  abbrev pub agent_projects : Option (List Text) → Value → Outcome (List Text)
  agent_projects none v = validated v
  agent_projects (some ps) v = returned ps

  abbrev pub summarise : (Text → Option Value) → Dict (List Text) → AgentRow → Outcome AgentSummary
  summarise loads online a =
      let live = lookup a.agent_id online in
      agent_projects live (column_projects (loads a.projects)) >>= λ projects. returned (record {
        agent_id = a.agent_id;
        projects = projects;
        is_online = is_some live;
        connected_at = if is_some live then fmt_dt a.connected_at else none;
        last_seen_at = fmt_dt a.last_seen_at;
      })

  unfoldable pub summarise_all :
      (Text → Option Value) → Dict (List Text) → List AgentRow → Outcome (List AgentSummary)
  summarise_all loads online [] = returned []
  summarise_all loads online (a ∷ rows) = summarise loads online a >>= λ s.
      summarise_all loads online rows >>= λ more. returned (s ∷ more)

  -- Agents that are online and have no row come first.
  unfoldable pub add_unregistered :
      Dict (List Text) → List AgentRow → List AgentSummary → List AgentSummary
  add_unregistered [] rows summaries = summaries
  add_unregistered ((agent_id, projects) ∷ online) rows summaries =
      let s : AgentSummary = record {
        agent_id = agent_id;
        projects = projects;
        is_online = true;
        connected_at = none;
        last_seen_at = none;
      } in
      add_unregistered online rows (if is_seen agent_id rows then summaries else s ∷ summaries)

  unfoldable pub list_agents :
      {S : Type 0}
      → (Text → Option Value)
      → Option (AgentManager S)
      → List AgentRow
      → Outcome (List AgentSummary)
  unfolding summarise_all add_unregistered
  list_agents loads manager rows = live_projects (agents_of manager) >>= λ online.
      summarise_all loads online rows >>= λ s. returned (add_unregistered online rows s)

-- `func.count(WorkOrder.id)` grouped by the state, as the dictionary that is made of it.
abbrev pub count_of : Option ℕ → ℕ
count_of none = 0
count_of (some n) = n

unfoldable pub state_counts : List OrderRow → Dict ℕ
state_counts [] = []
state_counts (o ∷ orders) =
    let counts = state_counts orders in insert o.state (count_of (lookup o.state counts) + 1) counts

-- `sum(d.values())`
unfoldable pub sum_values : Dict ℕ → ℕ
sum_values [] = 0
sum_values ((k, n) ∷ d) = n + sum_values d

abbrev pub online_agents : {S : Type 0} → Option (AgentManager S) → ℕ
online_agents none = 0
online_agents (some m) = count m

unfoldable pub get_stats : {S : Type 0} → Option (AgentManager S) → List OrderRow → StatsResponse
unfolding state_counts sum_values
get_stats manager orders =
    let counts = state_counts orders in
    let of_state = λ (s : Text). count_of (lookup s counts) in
    record {
      total_orders = sum_values counts;
      pending_approval =
          of_state (codes "PENDING_APPROVAL") + of_state (codes "PENDING_SECOND_REVIEW");
      building = of_state (codes "BUILDING");
      success = of_state (codes "SUCCESS");
      failed = of_state (codes "FAILED");
      online_agents = online_agents manager;
    }
