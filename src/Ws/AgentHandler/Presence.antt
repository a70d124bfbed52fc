-- ===== src/Ws/AgentHandler/Presence.antt =====
-- Which agents a connection of forwarder/app/ws/agent_handler.py leaves in the registry.
use jd_relay.Common.{
  ◌∙◌, ℕ, ◌≡◌, refl, ap, true, false, List, [], ◌∷◌, ◌++◌, Option, none, some, Text, text_eq_refl,
  Bool-cases, inl, inr, All,
}
use jd_relay.Common.Outcome.{returned}
use jd_relay.Common.Json.{Value, Json}
use jd_relay.Common.Dict.{lookup, lookup-insert}
use jd_relay.Crypto.Primitives.{Primitives, KeyExchange}
use jd_relay.Crypto.Codec.{CryptoCodec}
use jd_relay.Ws.AgentManager.{AgentManager, add_agent, remove_agent, get_by_agent, stop_all}
use jd_relay.Ws.AgentManager.Registry.{
  Op, add, drop, stop, run, IsWellFormed, run-IsWellFormed, get_by_project-remove_agent,
}
use jd_relay.Ws.Handshake.Answer.{KeyFiles, Peer, do_handshake}
use jd_relay.Ws.AgentHandler.{
  Callbacks, Event, frame, elsewhere, on_event, on_registry, io_loop, is_named, identity, serve,
  unregister, handle_agent_connection, after_handshake, serve_peer, call_connect,
}

-- An event by which nobody else changes the registry.
abbrev pub IsOwn : {S : Type 0} → Event S → Type 0
IsOwn (elsewhere op) = ⊥
IsOwn _ = Unit

-- The same as operations.
abbrev event_ops : {S : Type 0} → Event S → List (Op S)
event_ops (elsewhere op) = op ∷ []
event_ops _ = []

run-append :
    {S : Type 0} (m : AgentManager S) (ops more : List (Op S))
    → run (run m ops) more ≡ run m (ops ++ more)
unfolding run
run-append m [] more = refl
run-append m (add a ps s n ∷ ops) more = run-append (add_agent m a ps s n) ops more
run-append m (drop a ∷ ops) more = run-append (remove_agent m a) ops more
run-append m (stop ∷ ops) more = run-append (stop_all m) ops more

registry-run :
    {S : Type 0} (m : AgentManager S) (e : Event S) → on_registry m e ≡ run m (event_ops e)
unfolding run
registry-run m (elsewhere op) = refl
registry-run m _ = refl

own-registry : {S : Type 0} (m : AgentManager S) (e : Event S) → IsOwn e → on_registry m e ≡ m
own-registry m (elsewhere op) h = absurd h
own-registry m (frame raw now now' fresh) h = refl
own-registry m _ h = refl

removed_unknown :
    {S : Type 0} (m : AgentManager S) (a : Text)
    → IsWellFormed m
    → get_by_agent (remove_agent m a) a ≡ none
removed_unknown m a w = elim (Bool-cases m.stopped) [
  | inl s ↦ unfold get_by_agent remove_agent lookup in rw (s, (w.halted s).0) refl
  | inr s ↦ rw ((get_by_project-remove_agent m a a [] w s).0) (rw (text_eq_refl a) refl)
]

module _ (J : Json) (P : Primitives) {W S : Type 0} (cb : Callbacks W) where
  -- The loop changes the registry by what others do to it, and by nothing else.
  pub loop_registry :
      (a : Text) (m : AgentManager S) (c : CryptoCodec P) (events : List (Event S)) (w : W)
      → (ops : List (Op S)) × ((io_loop J P cb a m c events w).0 ≡ run m ops)
  unfolding io_loop run
  loop_registry a m c [] w = ([], refl)
  loop_registry a m c (e ∷ events) w = elim (Bool-cases (on_event J P cb a c e w).alive) [
    | inr h ↦ (event_ops e, rw h (registry-run m e))
    | inl h ↦
        let turn = on_event J P cb a c e w in
        let (ops, p) = loop_registry a (on_registry m e) turn.codec events turn.world in
        (
          event_ops e ++ ops,
          rw h (p ∙ ap (λ n. run n ops) (registry-run m e) ∙ run-append m (event_ops e) ops),
        )
  ]

  own_registry :
      (a : Text) (m : AgentManager S) (c : CryptoCodec P) (events : List (Event S)) (w : W)
      → All IsOwn events
      → (io_loop J P cb a m c events w).0 ≡ m
  unfolding io_loop
  own_registry a m c [] w h = refl
  own_registry a m c (e ∷ events) w h = elim (Bool-cases (on_event J P cb a c e w).alive) [
    | inr n ↦ rw n (own-registry m e (h.0))
    | inl n ↦
        let turn = on_event J P cb a c e w in
        rw n (
          own_registry a (on_registry m e) turn.codec events turn.world (h.1)
          ∙ own-registry m e (h.0))
  ]

  module _ (X : KeyExchange P) (show : Value → Text) (files : KeyFiles) (ecdh : P.PrivateKey)
      (seed : ℕ) (opening : Option Text) (m : AgentManager S) (send : S) (now : ℕ)
      (events : List (Event S)) (w w1 : W) (peer : Peer P) (a : Text) (projects : List Text)
      (agreed : do_handshake J P X show cb.send_text files ecdh seed opening w
        ≡ (returned peer, w1))
      (who : identity peer.agent_id peer.projects ≡ returned (a, projects)) where
    -- The registry after the connection.
    abbrev pub after : AgentManager S
    after = (handle_agent_connection J P cb X show files ecdh seed opening m send now events w).0

    served : after ≡ (serve J P cb a projects peer.codec m send now events w1).0
    unfolding handle_agent_connection
    served =
        ap (λ r. (after_handshake J P cb r m send now events).0) agreed
        ∙ ap (λ r. (serve_peer J P cb r peer.codec m send now events w1).0) who

    -- When the connection of an agent ends, however it ends and whatever others did to the registry
    -- meanwhile, the registry does not know the agent, and it is well formed if it was before. The
    -- handshake succeeded, and the agent's identifier is not empty and not "<unknown>".
    pub connection_unregisters :
        is_named a ≡ true → IsWellFormed m → (get_by_agent after a ≡ none) × IsWellFormed after
    unfolding serve unregister run
    connection_unregisters named good =
        let up = call_connect cb.connect_cb a true w1 in
        let (ops, p) = loop_registry a (add_agent m a projects send now) peer.codec events up in
        let before : IsWellFormed (run (add_agent m a projects send now) ops) =
          run-IsWellFormed m (add a projects send now ∷ ops) good in
        rw served (
          rw (named, p)
            (
              removed_unknown (run (add_agent m a projects send now) ops) a before,
              run-IsWellFormed (run (add_agent m a projects send now) ops) (drop a ∷ []) before,
            ))

    -- An agent whose identifier is empty or "<unknown>" stays registered after its connection has
    -- ended, unless others change the registry or it has stopped.
    pub nameless_stays :
        is_named a ≡ false
        → m.stopped ≡ false
        → All IsOwn events
        → get_by_agent after a
          ≡ some (record { agent_id = a; projects = projects; connected_at = now; send = send })
    unfolding serve unregister get_by_agent add_agent
    nameless_stays nameless running own = rw served (
        rw nameless (
          rw
            (own_registry a (add_agent m a projects send now) peer.codec events
              (call_connect cb.connect_cb a true w1) own)
            (simp (running, lookup-insert, text_eq_refl))))
