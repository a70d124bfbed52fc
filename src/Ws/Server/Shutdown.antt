-- ===== src/Ws/Server/Shutdown.antt =====
-- What the server of forwarder/app/ws/server.py does after its end.
use jd_relay.Common.{
  ℕ, ◌≡◌, refl, ap, ◌∙◌, Bool, true, List, [], ◌∷◌, Option, none, Text, codes, Bool-cases, inl, inr,
}
use jd_relay.Common.Outcome.{Outcome, returned, raised}
use jd_relay.Common.Dict.{Dict, lookup}
use jd_relay.Common.Json.{Value, Json}
use jd_relay.Crypto.Primitives.{Primitives, KeyExchange}
use jd_relay.Crypto.Envelope.{MessageType}
use jd_relay.Crypto.Codec.{CryptoCodec}
use jd_relay.Ws.Handshake.Answer.{KeyFiles, Peer, do_handshake}
use jd_relay.Ws.AgentManager
use jd_relay.Ws.AgentManager.{
  AgentManager, add_agent, remove_agent, get_by_project, stop_all, count,
}
use jd_relay.Ws.AgentManager.Registry.{run, add, stopped_for_good}
use jd_relay.Ws.AgentHandler.{
  Callbacks, Event, call_connect, identity, is_named, io_loop, serve, serve_peer, unregister,
  after_handshake, handle_agent_connection,
}
use jd_relay.Ws.AgentHandler.Presence.{loop_registry}
use jd_relay.Ws.Server.{
  AppState, shutdown, health, list_agents_api, trigger_build_api, send_to_project, agent_ws,
}

module _ (J : Json) (P : Primitives) {W S : Type 0} (cb : Callbacks W) (m : AgentManager S) where
  kept :
      (a : Text) (n : AgentManager S) (w : W)
      → n ≡ stop_all m
      → (unregister J P cb a n w).0 ≡ stop_all m
  unfolding unregister remove_agent stop_all
  kept a n w e = elim (Bool-cases (is_named a)) [
    | inl h ↦ rw h (ap (λ k. remove_agent k a) e)
    | inr h ↦ rw h e
  ]

  served_stopped :
      (a : Text) (projects : List Text) (c : CryptoCodec P) (send : S) (now : ℕ)
      (events : List (Event S)) (w : W)
      → (serve J P cb a projects c (stop_all m) send now events w).0 ≡ stop_all m
  unfolding serve run
  served_stopped a projects c send now events w =
      let up = call_connect cb.connect_cb a true w in
      let registered = add_agent (stop_all m) a projects send now in
      let (ops, p) = loop_registry J P cb a registered c events up in
      let r = io_loop J P cb a registered c events up in
      kept a r.0 r.1.world (p ∙ stopped_for_good m (add a projects send now ∷ ops))

  peer_stopped :
      (who : Outcome (Text × List Text)) (c : CryptoCodec P) (send : S) (now : ℕ)
      (events : List (Event S)) (w : W)
      → (serve_peer J P cb who c (stop_all m) send now events w).0 ≡ stop_all m
  peer_stopped (raised e) c send now events w = refl
  peer_stopped (returned (a, projects)) c send now events w =
      served_stopped a projects c send now events w

  handshake_stopped :
      (r : Outcome (Peer P) × W) (send : S) (now : ℕ) (events : List (Event S))
      → (after_handshake J P cb r (stop_all m) send now events).0 ≡ stop_all m
  handshake_stopped (raised e, w) send now events = refl
  handshake_stopped (returned peer, w) send now events =
      peer_stopped (identity peer.agent_id peer.projects) peer.codec send now events w

module _ (J : Json) (P : Primitives) (X : KeyExchange P) (show : Value → Text) {E S W V : Type 0}
    (cb : Callbacks W) (files : KeyFiles) (call : S → MessageType → Text → V → Bool × V) where
  connection_stopped :
      (ecdh : P.PrivateKey) (seed : ℕ) (opening : Option Text) (a : AppState E S) (send : S)
      (now : ℕ) (events : List (Event S)) (w : W)
      → (agent_ws J P X show cb files ecdh seed opening (shutdown a) send now events w).0
        ≡ shutdown a
  unfolding agent_ws shutdown handle_agent_connection
  connection_stopped ecdh seed opening a send now events w =
      ap (λ m. record a { manager = m })
        (handshake_stopped J P cb a.manager
          (do_handshake J P X show cb.send_text files ecdh seed opening w) send now events)

  -- Once the application has ended, a connection of an agent, whatever happens on it and meanwhile, changes
  -- nothing in it; no agent is listed or counted, and a build that is triggered is answered with
  -- 404 and sends nothing.
  pub shutdown_is_final :
      (ecdh : P.PrivateKey) (seed : ℕ) (opening : Option Text) (a : AppState E S) (send : S)
      (now : ℕ) (events : List (Event S)) (w : W) (project : Text) (payload : Dict Value) (v : V)
      → let a' =
          (agent_ws J P X show cb files ecdh seed opening (shutdown a) send now events w).0 in
        (a' ≡ shutdown a)
        × (list_agents_api a' ≡ ([], 0))
        × (health a' ≡ record { status = codes "ok"; agents = 0; version = codes "3.0.0" })
        × (trigger_build_api call J a' project payload v ≡ (none, v))
  unfolding shutdown stop_all list_agents_api health trigger_build_api send_to_project
      get_by_project lookup AgentManager.send_to_project AgentManager.list_agents count
  shutdown_is_final ecdh seed opening a send now events w project payload v =
      let e = connection_stopped ecdh seed opening a send now events w in
      (
        e,
        ap list_agents_api e,
        ap health e,
        ap (λ b. trigger_build_api call J b project payload v) e,
      )
