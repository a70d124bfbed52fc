-- ===== src/Ws/AgentManager/Registry.antt =====
-- What the registry of forwarder/app/ws/agent_manager.py guarantees to those who send through it.
use jd_relay.Common.{
  Option, Bool, ◌||◌, if◌then◌else◌, text_eq, ℕ, ◌≡◌, refl, inl, inr, true, false, List, [], ◌∷◌,
  none, some, Text, text_eq_iff, text_eq_refl, text_eq-cases, arith, is_some, Bool-cases,
  Option-cases,
}
use jd_relay.Common.Dict.{lookup, lookup-insert, lookup-remove}
use jd_relay.Ws.AgentManager.{
  AgentManager, new_manager, routes_to, add_agent, remove_agent, get_by_agent, get_by_project,
  stop_all,
}
use jd_relay.Ws.AgentManager.Routes.{
  contains, lookup-route_all, lookup-remove_all, contains-routes_to, other-routes_to, HasUniqueKeys,
  HasUniqueKeys-route_all, HasUniqueKeys-remove_all,
}

-- What can happen to a manager.
pub data Op (S : Type 0) : Type 0 where
  add : Text → List Text → S → ℕ → Op S
  drop : Text → Op S
  stop : Op S

abbrev pub leads_to : Option Text → Text → Bool
leads_to none agent_id = false
leads_to (some a) agent_id = text_eq agent_id a

module _ {S : Type 0} where
  -- Every route leads to a registered agent, and a stopped manager holds nothing.
  pub record IsWellFormed (m : AgentManager S) : Type 0 where
    pub unique : HasUniqueKeys m.project_to_agent
    pub routed :
        (p a : Text) → lookup p m.project_to_agent ≡ some a → is_some (lookup a m.by_agent) ≡ true
    pub halted : m.stopped ≡ true → (m.by_agent ≡ []) × (m.project_to_agent ≡ [])

  -- Whether the project is routed to the agent.
  abbrev pub is_routed_to : AgentManager S → Text → Text → Bool
  is_routed_to m agent_id p = leads_to (lookup p m.project_to_agent) agent_id

  add_agent-IsWellFormed :
      (m : AgentManager S) (agent_id : Text) (projects : List Text) (send : S) (now : ℕ)
      → IsWellFormed m
      → IsWellFormed (add_agent m agent_id projects send now)
  unfolding add_agent
  add_agent-IsWellFormed m agent_id projects send now w = elim (Bool-cases m.stopped) [
    | inl s ↦ simp s w
    | inr s ↦ rw s (record {
      unique = HasUniqueKeys-route_all agent_id projects m.project_to_agent w.unique;
      routed = λ p a h. rw lookup-insert (
          ground (
            arith,
            lookup-route_all agent_id projects m.project_to_agent p,
            text_eq_refl agent_id,
            w.routed p a,
          ));
      halted = λ h. cc;
    })
  ]

  remove_agent-IsWellFormed :
      (m : AgentManager S) (agent_id : Text)
      → IsWellFormed m
      → IsWellFormed (remove_agent m agent_id)
  unfolding remove_agent
  remove_agent-IsWellFormed m agent_id w = elim (Bool-cases m.stopped) [
    | inl s ↦ simp s w
    | inr s ↦ rw s (record {
      unique =
          HasUniqueKeys-remove_all (routes_to agent_id m.project_to_agent) m.project_to_agent
            w.unique;
      routed = λ p a h. rw lookup-remove (
          ground (
            arith,
            lookup-remove_all (routes_to agent_id m.project_to_agent) m.project_to_agent p,
            contains-routes_to agent_id m.project_to_agent p,
            text_eq_iff agent_id a,
            w.routed p a,
          ));
      halted = λ h. cc;
    })
  ]

  stop_all-IsWellFormed : (m : AgentManager S) → IsWellFormed (stop_all m)
  unfolding stop_all lookup
  stop_all-IsWellFormed m = record { unique = tt; routed = λ p a h. cc; halted = λ h. (refl, refl) }

  unfoldable pub run : AgentManager S → List (Op S) → AgentManager S
  run m [] = m
  run m (add agent_id projects send now ∷ ops) = run (add_agent m agent_id projects send now) ops
  run m (drop agent_id ∷ ops) = run (remove_agent m agent_id) ops
  run m (stop ∷ ops) = run (stop_all m) ops

  pub run-IsWellFormed :
      (m : AgentManager S) (ops : List (Op S)) → IsWellFormed m → IsWellFormed (run m ops)
  unfolding run
  run-IsWellFormed m [] w = w
  run-IsWellFormed m (add a ps s n ∷ ops) w =
      run-IsWellFormed (add_agent m a ps s n) ops (add_agent-IsWellFormed m a ps s n w)
  run-IsWellFormed m (drop a ∷ ops) w =
      run-IsWellFormed (remove_agent m a) ops (remove_agent-IsWellFormed m a w)
  run-IsWellFormed m (stop ∷ ops) w = run-IsWellFormed (stop_all m) ops (stop_all-IsWellFormed m)

  -- Whatever agents connect and disconnect, and whenever the manager stops, from the start every
  -- route leads to a registered agent and a stopped manager holds no agent and no route.
  pub manager-IsWellFormed : (ops : List (Op S)) → IsWellFormed (run new_manager ops)
  manager-IsWellFormed ops =
      run-IsWellFormed new_manager ops
        (record { unique = tt; routed = λ p a h. unfold lookup in cc; halted = λ h. cc })

  -- A manager that has stopped stays stopped and empty whatever happens to it.
  pub stopped_for_good :
      (m : AgentManager S) (ops : List (Op S)) → run (stop_all m) ops ≡ stop_all m
  unfolding run stop_all add_agent remove_agent
  stopped_for_good m [] = refl
  stopped_for_good m (add a ps s n ∷ ops) = stopped_for_good m ops
  stopped_for_good m (drop a ∷ ops) = stopped_for_good m ops
  stopped_for_good m (stop ∷ ops) = stopped_for_good m ops

  -- Registering an agent routes each of its projects to it, with the new connection; a project that
  -- was routed to the same agent before is routed to the new connection, also if it is not among the
  -- projects now given; every other project is routed as before. The manager has not stopped.
  pub get_by_project-add_agent :
      (m : AgentManager S) (agent_id : Text) (projects : List Text) (send : S) (now : ℕ) (p : Text)
      → m.stopped ≡ false
      → get_by_project (add_agent m agent_id projects send now) p ≡ (
          if contains p projects || is_routed_to m agent_id p
          then some
              (record { agent_id = agent_id; projects = projects; connected_at = now; send = send })
          else get_by_project m p)
  unfolding get_by_project add_agent
  get_by_project-add_agent m agent_id projects send now p s =
      simp (s, lookup-route_all agent_id projects m.project_to_agent p)
        (elim (Bool-cases (contains p projects)) [
          | inl c ↦ simp (c, lookup-insert, text_eq_refl)
          | inr c ↦ elim (Option-cases (lookup p m.project_to_agent)) [
            | inl e ↦ simp (c, e)
            | inr (b, e) ↦ elim (text_eq-cases agent_id b) [
              | inl same ↦
                  let to_it : lookup p m.project_to_agent ≡ some agent_id = cc in
                  simp (c, to_it, lookup-insert, text_eq_refl)
              | inr ne ↦ simp (c, e, lookup-insert, ne)
            ]
          ]
        ])

  -- Removing an agent leaves it unknown and the projects that were routed to it without a route, and
  -- every other agent and every other project as they were. The manager is well formed and has not
  -- stopped.
  pub get_by_project-remove_agent :
      (m : AgentManager S) (agent_id b p : Text)
      → IsWellFormed m
      → m.stopped ≡ false
      → (get_by_agent (remove_agent m agent_id) b
          ≡ (if text_eq agent_id b then none else get_by_agent m b))
        × (get_by_project (remove_agent m agent_id) p
            ≡ (if is_routed_to m agent_id p then none else get_by_project m p))
  unfolding get_by_project get_by_agent remove_agent
  get_by_project-remove_agent m agent_id b p w s =
      let gone = routes_to agent_id m.project_to_agent in
      simp (s, lookup-remove, lookup-remove_all)
        (
          refl,
          elim (Option-cases (lookup p m.project_to_agent)) [
            | inl e ↦ elim (Bool-cases (contains p gone)) [
              | inl c ↦ simp (c, e)
              | inr c ↦ simp (c, e)
            ]
            | inr (a, e) ↦ elim (text_eq-cases agent_id a) [
              | inl same ↦
                  let to_it : lookup p m.project_to_agent ≡ some agent_id = cc in
                  simp (contains-routes_to agent_id m.project_to_agent p to_it, to_it, text_eq_refl)
              | inr ne ↦
                  let kept : contains p gone ≡ false =
                    other-routes_to agent_id a m.project_to_agent p w.unique e
                      (ground (arith, text_eq_iff agent_id a, text_eq_iff a agent_id)) in
                  simp (kept, e, lookup-remove, ne)
            ]
          ],
        )
