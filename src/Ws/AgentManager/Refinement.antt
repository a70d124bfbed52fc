-- ===== src/Ws/AgentManager/Refinement.antt =====
-- The registry of forwarder/app/ws/agent_manager.py as what it stands for: which agent has which connection,
-- and which agent has which project, without its dictionaries and their order.
use jd_relay.Common.{
  ℕ, ◌≡◌, refl, sym, ap, ◌∙◌, inl, inr, Bool, true, false, List, [], ◌∷◌, Option, none, some, Text,
  text_eq, text_eq-cases, text_eq_iff, text_eq_refl, arith, Bool-cases, Option-cases, if◌then◌else◌,
}
use jd_relay.Common.Dict.{lookup, lookup-insert, lookup-remove}
use jd_relay.Ws.AgentManager.{
  AgentInfo, AgentManager, new_manager, routes_to, add_agent, remove_agent, get_by_agent,
  get_by_project, stop_all, routed_info, remove_all,
}
use jd_relay.Ws.AgentManager.Routes.{
  contains, lookup-route_all, lookup-remove_all, contains-routes_to, other-routes_to,
}
use jd_relay.Ws.AgentManager.Registry.{
  Op, add, drop, stop, IsWellFormed, run, run-IsWellFormed, manager-IsWellFormed,
}

pub record Directory (S : Type 0) : Type 0 where
  pub info : Text → Option (AgentInfo S)
  pub owner : Text → Option Text
  pub is_closed : Bool

-- A project whose owner leaves has none.
abbrev released : Text → Option Text → Option Text
released agent_id none = none
released agent_id (some a) = if text_eq agent_id a then none else some a

module _ {S : Type 0} where
  abbrev pub nobody : Bool → Directory S
  nobody is_closed = record { info = λ a. none; owner = λ p. none; is_closed = is_closed }

  abbrev joined : Text → List Text → S → ℕ → Directory S → Directory S
  joined agent_id projects send now d = record {
    info = λ a.
        if text_eq agent_id a
        then some
            (record { agent_id = agent_id; projects = projects; connected_at = now; send = send })
        else d.info a;
    owner = λ p. if contains p projects then some agent_id else d.owner p;
    is_closed = d.is_closed;
  }

  abbrev parted : Text → Directory S → Directory S
  parted agent_id d = record {
    info = λ a. if text_eq agent_id a then none else d.info a;
    owner = λ p. released agent_id (d.owner p);
    is_closed = d.is_closed;
  }

  -- A directory that is closed stays as it is.
  abbrev pub follow : List (Op S) → Directory S → Directory S
  follow [] d = d
  follow (add agent_id projects send now ∷ ops) d =
      follow ops (if d.is_closed then d else joined agent_id projects send now d)
  follow (drop agent_id ∷ ops) d = follow ops (if d.is_closed then d else parted agent_id d)
  follow (stop ∷ ops) d = follow ops (nobody true)

  abbrev info_of : Directory S → Option Text → Option (AgentInfo S)
  info_of d none = none
  info_of d (some a) = d.info a

  -- The connection for a project is that of its owner.
  abbrev pub reached : Directory S → Text → Option (AgentInfo S)
  reached d p = info_of d (d.owner p)

  record Shows (m : AgentManager S) (d : Directory S) : Type 0 where
    info : (a : Text) → lookup a m.by_agent ≡ d.info a
    owner : (p : Text) → lookup p m.project_to_agent ≡ d.owner p
    is_closed : m.stopped ≡ d.is_closed

  added :
      (m : AgentManager S) (d : Directory S) (a : Text) (ps : List Text) (s : S) (n : ℕ)
      → Shows m d
      → Shows (add_agent m a ps s n) (if d.is_closed then d else joined a ps s n d)
  unfolding add_agent
  added m d a ps s n h = elim (Bool-cases m.stopped) [
    | inl c ↦ simp (c, sym h.is_closed ∙ c) h
    | inr c ↦
        simp (c, sym h.is_closed ∙ c)
          (record {
            info = λ b. lookup-insert a b _ m.by_agent ∙ rw (h.info b) refl;
            owner = λ p. lookup-route_all a ps m.project_to_agent p ∙ rw (h.owner p) refl;
            is_closed = refl;
          })
  ]

  released_route :
      (m : AgentManager S) (a p : Text)
      → IsWellFormed m
      → lookup p (remove_all (routes_to a m.project_to_agent) m.project_to_agent)
        ≡ released a (lookup p m.project_to_agent)
  released_route m a p w =
      let gone = routes_to a m.project_to_agent in
      lookup-remove_all gone m.project_to_agent p
      ∙ elim (Option-cases (lookup p m.project_to_agent)) [
        | inl e ↦ elim (Bool-cases (contains p gone)) [ inl c ↦ simp (c, e) | inr c ↦ simp (c, e) ]
        | inr (b, e) ↦ elim (text_eq-cases a b) [
          | inl same ↦
              let to_it : lookup p m.project_to_agent ≡ some a = cc in
              simp (contains-routes_to a m.project_to_agent p to_it, to_it, text_eq_refl)
          | inr ne ↦
              let kept : contains p gone ≡ false =
                other-routes_to a b m.project_to_agent p w.unique e
                  (ground (arith, text_eq_iff a b, text_eq_iff b a)) in
              simp (kept, e, ne)
        ]
      ]

  removed :
      (m : AgentManager S) (d : Directory S) (a : Text)
      → IsWellFormed m
      → Shows m d
      → Shows (remove_agent m a) (if d.is_closed then d else parted a d)
  unfolding remove_agent
  removed m d a w h = elim (Bool-cases m.stopped) [
    | inl c ↦ simp (c, sym h.is_closed ∙ c) h
    | inr c ↦
        simp (c, sym h.is_closed ∙ c)
          (record {
            info = λ b. lookup-remove a b m.by_agent ∙ rw (h.info b) refl;
            owner = λ p. released_route m a p w ∙ ap (released a) (h.owner p);
            is_closed = refl;
          })
  ]

  run-Shows :
      (ops : List (Op S)) (m : AgentManager S) (d : Directory S)
      → IsWellFormed m
      → Shows m d
      → Shows (run m ops) (follow ops d)
  unfolding run
  run-Shows [] m d w h = h
  run-Shows (add a ps s n ∷ ops) m d w h =
      run-Shows ops (add_agent m a ps s n) _ (run-IsWellFormed m (add a ps s n ∷ []) w)
        (added m d a ps s n h)
  run-Shows (drop a ∷ ops) m d w h =
      run-Shows ops (remove_agent m a) _ (run-IsWellFormed m (drop a ∷ []) w) (removed m d a w h)
  run-Shows (stop ∷ ops) m d w h =
      run-Shows ops (stop_all m) (nobody true) (run-IsWellFormed m (stop ∷ []) w)
        (unfold stop_all lookup in record { info = λ a. refl; owner = λ p. refl; is_closed = refl })

  at_owner :
      (m : AgentManager S) (d : Directory S) (o : Option Text)
      → Shows m d
      → routed_info m o ≡ info_of d o
  at_owner m d none h = refl
  at_owner m d (some a) h = h.info a

  -- Whatever agents connect and disconnect, and whenever the registry stops, it answers as a directory of
  -- who has which connection and which project: an agent that connects takes its projects from whoever had
  -- them and keeps those that it had, one that leaves gives up all of its own, and after a stop nobody is
  -- there any more.
  pub registry_refines :
      (ops : List (Op S))
      → let m = run new_manager ops in
        let d = follow ops (nobody false) in
        ((a : Text) → get_by_agent m a ≡ d.info a)
        × ((p : Text) → get_by_project m p ≡ reached d p)
        × (m.stopped ≡ d.is_closed)
  unfolding get_by_agent get_by_project
  registry_refines ops =
      let m = run new_manager ops in
      let d = follow ops (nobody false) in
      let h =
        run-Shows ops new_manager (nobody false) (unfold run in manager-IsWellFormed [])
          (unfold lookup in record { info = λ a. refl; owner = λ p. refl; is_closed = refl }) in
      (
        h.info,
        λ p. at_owner m d (lookup p m.project_to_agent) h ∙ ap (info_of d) (h.owner p),
        h.is_closed,
      )
