-- ===== src/Ws/AgentManager.antt =====
-- The registry of connected agents, forwarder/app/ws/agent_manager.py. Each method holds the lock
-- throughout, so it is one step on the state; `S` is the type of the send callbacks, and a world
-- `W` stands for what calling one of them changes.
pub mod Routes
pub mod Registry
pub mod Refinement
use jd_relay.Common.{
  ℕ, Bool, true, false, List, [], ◌∷◌, Option, none, some, Text, text_eq, if◌then◌else◌, length,
  ◌||◌,
}
use jd_relay.Common.Dict.{Dict, lookup, insert, remove, keys}
use jd_relay.Crypto.Envelope.{MessageType}

pub record AgentInfo (S : Type 0) : Type 0 where
  pub agent_id : Text
  pub projects : List Text
  pub connected_at : ℕ
  pub send : S

pub record AgentManager (S : Type 0) : Type 0 where
  pub by_agent : Dict (AgentInfo S)
  pub project_to_agent : Dict Text
  pub stopped : Bool

-- `for p in projects: d[p] = agent_id`
unfoldable pub route_all : Text → List Text → Dict Text → Dict Text
route_all agent_id [] d = d
route_all agent_id (p ∷ ps) d = route_all agent_id ps (insert p agent_id d)

-- `[p for p, a in d.items() if a == agent_id]`
unfoldable pub routes_to : Text → Dict Text → List Text
routes_to agent_id [] = []
routes_to agent_id ((p, a) ∷ d) =
    let rest = routes_to agent_id d in if text_eq a agent_id then p ∷ rest else rest

-- `for p in to_remove: del d[p]`
unfoldable pub remove_all : List Text → Dict Text → Dict Text
remove_all [] d = d
remove_all (p ∷ ps) d = remove_all ps (remove p d)

module _ {S : Type 0} where
  abbrev pub new_manager : AgentManager S
  new_manager = record { by_agent = []; project_to_agent = []; stopped = false }

  -- The loop's clock is read once.
  unfoldable pub add_agent : AgentManager S → Text → List Text → S → ℕ → AgentManager S
  add_agent m agent_id projects send_cb now =
      if m.stopped
      then m
      else (let info : AgentInfo S = record {
        agent_id = agent_id;
        projects = projects;
        connected_at = now;
        send = send_cb;
      } in
          record m {
            by_agent = insert agent_id info m.by_agent;
            project_to_agent = route_all agent_id projects m.project_to_agent;
          })

  unfoldable pub remove_agent : AgentManager S → Text → AgentManager S
  remove_agent m agent_id = if m.stopped then m else record m {
    by_agent = remove agent_id m.by_agent;
    project_to_agent = remove_all (routes_to agent_id m.project_to_agent) m.project_to_agent;
  }

  unfoldable pub get_by_agent : AgentManager S → Text → Option (AgentInfo S)
  get_by_agent m agent_id = lookup agent_id m.by_agent

  abbrev pub routed_info : AgentManager S → Option Text → Option (AgentInfo S)
  routed_info m none = none
  routed_info m (some agent_id) = lookup agent_id m.by_agent

  unfoldable pub get_by_project : AgentManager S → Text → Option (AgentInfo S)
  get_by_project m project = routed_info m (lookup project m.project_to_agent)

  unfoldable pub list_agents : AgentManager S → List Text
  list_agents m = keys m.by_agent

  unfoldable pub count : AgentManager S → ℕ
  count m = length m.by_agent

  unfoldable pub stop_all : AgentManager S → AgentManager S
  stop_all m = record { by_agent = []; project_to_agent = []; stopped = true }

  module _ {W : Type 0} (call : S → MessageType → Text → W → Bool × W) where
    -- `return await info.send(msg_type, payload)`, or False where there is no agent.
    abbrev pub send_via : Option (AgentInfo S) → MessageType → Text → W → Bool × W
    send_via none type payload w = (false, w)
    send_via (some info) type payload w = call info.send type payload w

    unfoldable pub send_to_agent : AgentManager S → Text → MessageType → Text → W → Bool × W
    unfolding get_by_agent
    send_to_agent m agent_id type payload w = send_via (get_by_agent m agent_id) type payload w

    unfoldable pub send_to_project : AgentManager S → Text → MessageType → Text → W → Bool × W
    unfolding get_by_project
    send_to_project m project type payload w = send_via (get_by_project m project) type payload w
