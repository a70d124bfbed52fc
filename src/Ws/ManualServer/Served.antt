-- ===== src/Ws/ManualServer/Served.antt =====
-- A client of forwarder/app/ws/manual_server.py behind its handshake, to the end of its connection.
use mathlib.Core.List.{append_assoc}
use jd_relay.Common.{
  ℕ, ◌≡◌, refl, ap, ap₂, ◌∙◌, true, false, ◌&&◌, List, [], ◌∷◌, ◌++◌, map, some, Text, Bytes, All,
}
use jd_relay.Common.Json.{Value, Json}
use jd_relay.Crypto.Primitives.{Primitives, KeyExchange, Correct}
use jd_relay.Crypto.Ecdsa.{verifying_key}
use jd_relay.Crypto.Codec.{CryptoCodec}
use jd_relay.Ws.Handshake.Answer.{KeyFiles}
use jd_relay.Ws.AgentHandler.{is_named}
use jd_relay.Ws.AgentHandler.Session.{AllSent}
use jd_relay.Ws.ManualServer.{
  Call, add_agent, connect_cb, remove_agent, Client, Round, Server, Session, schedule, announced,
  serve_if, serve, unregister, io_loop,
}
use jd_relay.Ws.ManualServer.Opening.{ready, open_client, serve_opened, handle_client}
use jd_relay.Ws.ManualServer.Lifecycle.{goodbye, unregister-calls}
use jd_relay.Ws.ManualServer.Wire.{Stream}
use jd_relay.Ws.ManualServer.Endings.{Ends, ending-calls}
use jd_relay.Ws.ManualServer.Reports.{
  Carried, IsCarried, segments, round_of, call_of, after_reports, reports_scheduled,
}

module _ (server : Server) (J : Json) (P : Primitives) (correct : Correct P) (agent_id : Text)
    (loops : server.has_loop ≡ true) (hears : server.has_message_cb ≡ true)
    (tells : server.has_connect_cb ≡ true) (in_time : server.adds_in_time ≡ true) where
  calls_back : (server.has_message_cb && server.has_loop) ≡ true
  calls_back = rw (loops, hears) refl

  -- What the client's calls are in a connection with these reports.
  abbrev pub talk : List Text → List Carried → List Call
  talk projects xs =
      (add_agent agent_id projects ∷ connect_cb agent_id true ∷ [])
      ++ (map (call_of agent_id) xs ++ (remove_agent agent_id ∷ connect_cb agent_id false ∷ []))

  abbrev told : List Text → Client → Client
  told projects c = schedule (connect_cb agent_id true) (schedule (add_agent agent_id projects) c)

  goodbye_said :
      is_named agent_id ≡ true
      → goodbye server agent_id ≡ remove_agent agent_id ∷ connect_cb agent_id false ∷ []
  goodbye_said named = rw (named, tells) refl

  calls_joined :
      (before : List Call) (projects : List Text) (xs : List Carried)
      → (((before ++ add_agent agent_id projects ∷ []) ++ connect_cb agent_id true ∷ [])
            ++ map (call_of agent_id) xs)
          ++ (remove_agent agent_id ∷ connect_cb agent_id false ∷ [])
        ≡ before ++ talk projects xs
  calls_joined before projects xs = simp append_assoc

  -- The end of the loop, behind the reports.
  abbrev last_round : List Text → List Carried → List Round → Session P → Stream → Client
  last_round projects xs more s later = io_loop server J P agent_id more (record {
    codec = after_reports s.codec xs;
    client = record (told projects s.client) {
      incoming = later;
      calls = (told projects s.client).calls ++ map (call_of agent_id) xs;
    };
  })

  loop_served :
      (projects : List Text) (xs : List Carried) (more : List Round) (s : Session P)
      (agent : CryptoCodec P) (k : P.PrivateKey) (later : Stream)
      → s.client.incoming ≡ segments xs later
      → agent.signer.private_key ≡ some k
      → verifying_key P s.codec.verifier ≡ some (P.public_key k)
      → s.codec.cipher ≡ agent.cipher
      → All (IsCarried J P agent) xs
      → AllSent J P agent s.codec.guard (map (λ x. x.report) xs)
      → serve server J P agent_id projects (map round_of xs ++ more) s
        ≡ unregister server agent_id (last_round projects xs more s later)
  unfolding serve
  loop_served projects xs more s agent k later stream key peer same fine sent =
      let at : Client → Client = λ client. unregister server agent_id (
        io_loop server J P agent_id (map round_of xs ++ more)
          (record { codec = s.codec; client = client })) in
      ap₂ (λ b t. serve_if server J P b t agent_id projects (map round_of xs ++ more) s) loops
        in_time
      ∙ ap
          (λ b.
            at (announced server J P b agent_id (schedule (add_agent agent_id projects) s.client)))
          tells
      ∙ ap (λ i. at (record (told projects s.client) { incoming = i })) stream
      ∙ ap (unregister server agent_id) (
          reports_scheduled server J P correct agent_id calls_back xs more agent s.codec k later
            (told projects s.client) key peer same fine sent)

  -- Once a client's handshake is done, in a server with an event loop and both callbacks, and with the
  -- registration in time, the event loop is given just these calls, in this order: the registration of
  -- the agent, its connection, each of its reports, its removal and its disconnection; then the socket is
  -- closed. What follows the reports is a masked close frame, the end of the stream or an error of the
  -- socket, or the server is stopped before it reads on. The agent's name is not empty and not "<unknown>"; its reports are on the socket in masked text
  -- frames, one segment for each, are messages but heartbeats, acknowledgements and build triggers, have
  -- new nonces in turn, are received in their window, and can be encrypted and written in UTF-8; the
  -- connection's end has the agent's session key and verifies with its public key.
  pub reports_served :
      (X : KeyExchange P) (show : Value → Text) (sha1 : Bytes → Bytes) (files : KeyFiles)
      (ecdh : P.PrivateKey) (seed : ℕ) (c : Client) (projects : List Text) (s : Session P)
      (xs : List Carried) (more : List Round) (agent : CryptoCodec P) (k : P.PrivateKey)
      (later : Stream)
      → open_client server J P X show sha1 files ecdh seed c ≡ ready agent_id projects s
      → is_named agent_id ≡ true
      → s.client.incoming ≡ segments xs later
      → agent.signer.private_key ≡ some k
      → verifying_key P s.codec.verifier ≡ some (P.public_key k)
      → s.codec.cipher ≡ agent.cipher
      → All (IsCarried J P agent) xs
      → AllSent J P agent s.codec.guard (map (λ x. x.report) xs)
      → Ends more later
      → let r = handle_client server J P X show sha1 files ecdh seed (map round_of xs ++ more) c in
        (r.calls ≡ s.client.calls ++ talk projects xs) × (r.is_open ≡ false)
  unfolding handle_client
  reports_served X show sha1 files ecdh seed c projects s xs more agent k later opened named stream
        key peer same fine sent ends =
      let served =
        ap (serve_opened server J P X show sha1 files ecdh seed (map round_of xs ++ more)) opened
        ∙ loop_served projects xs more s agent k later stream key peer same fine sent in
      let last = last_round projects xs more s later in
      let reported : last.calls ≡ (told projects s.client).calls ++ map (call_of agent_id) xs =
        ending-calls server J P agent_id more (after_reports s.codec xs) later
          (record (told projects s.client) {
            calls = (told projects s.client).calls ++ map (call_of agent_id) xs;
          })
          ends in
      let (calls, closed) = unregister-calls server agent_id last loops in
      (
        ap (λ r. r.calls) served
            ∙ calls
            ∙ ap₂ (λ l g. l ++ g) reported (goodbye_said named)
            ∙ calls_joined s.client.calls projects xs,
        ap (λ r. r.is_open) served ∙ closed,
      )
