-- ===== src/Ws/AgentHandler/Session.antt =====
-- A whole connection of forwarder/app/ws/agent_handler.py: an agent connects, sends reports, and leaves.
use jd_relay.Common.{
  ℕ, ◌≡◌, refl, sym, ap, ap₂, ◌∙◌, true, false, List, [], ◌∷◌, some, Text, Bytes, IsBytes, IsAscii,
  All, codes, length, text_eq, arith,
}
use jd_relay.Common.Int.{pos}
use jd_relay.Common.Outcome.{returned, returned_injective}
use jd_relay.Common.Json.{Value, Json}
use jd_relay.Common.Utf8.{utf8_encode}
use jd_relay.Crypto.Primitives.{Primitives, KeyExchange, Correct, Agrees}
use jd_relay.Crypto.ReplayGuard.{ReplayGuard, new_guard, is_within_window, is_replay, record_nonce}
use jd_relay.Crypto.Base64.{b64_encode}
use jd_relay.Crypto.Envelope.{MessageType}
use jd_relay.Crypto.Ecdsa.{verifying_key}
use jd_relay.Crypto.Ecdh.{public_key_pem, derive_shared_secret_pem}
use jd_relay.Crypto.Codec.{CryptoCodec, Fresh, encrypt}
use jd_relay.Ws.AgentManager.{AgentManager, add_agent, remove_agent}
use jd_relay.Ws.Handshake.{ok, parse_handshake_init}
use jd_relay.Ws.Handshake.Answer.Agreement.{
  agent_init, forwarder_files, forwarder_answer, forwarder_signer, agent_verifier, handshake_agrees,
}
use jd_relay.Ws.AgentHandler.{
  Callbacks, Event, frame, call_connect, call_message, on_event, on_frame, io_loop, is_named, serve,
  unregister, after_handshake, handle_agent_connection,
}
use jd_relay.Ws.AgentHandler.Delivery.{IsReport, report_reaches_callback}

-- A report of the agent, with what its encryption takes from outside, and when it is received.
pub record Report : Type 0 where
  pub type : MessageType
  pub text : Text
  pub plaintext : Bytes
  pub ciphertext : Bytes
  pub sent : Fresh
  pub now : ℕ
  pub now' : ℕ
  pub fresh : Fresh

-- The frames in which the encrypted reports arrive.
abbrev pub frames_of : {S : Type 0} → List Report → List Text → List (Event S)
frames_of [] messages = []
frames_of (r ∷ reports) [] = []
frames_of (r ∷ reports) (message ∷ messages) =
    frame message r.now r.now' r.fresh ∷ frames_of reports messages

-- What the world is when the callback has heard each report of the agent, in order.
abbrev pub heard : {W : Type 0} → Callbacks W → Text → List Report → W → W
heard cb a [] w = w
heard cb a (r ∷ reports) w = heard cb a reports (call_message cb.message_cb a r.type r.text w)

module _ (J : Json) (P : Primitives) (agent : CryptoCodec P) where
  -- A report that the agent can encrypt and that a guard lets pass.
  pub record IsSent (g : ReplayGuard) (r : Report) : Type 0 where
    pub report : IsReport r.type
    pub ascii : All IsAscii r.sent.uuid
    pub size : length r.sent.iv_bytes ≡ 12
    pub bytes : IsBytes r.sent.iv_bytes
    pub read : utf8_encode r.text ≡ some r.plaintext
    pub made : P.aead_encrypt agent.cipher.key r.sent.iv_bytes r.plaintext ≡ some r.ciphertext
    pub inside : is_within_window g r.now (pos r.sent.now) ≡ true
    pub unseen : is_replay g (b64_encode r.sent.nonce_bytes) ≡ false

  -- Each report passes the guard that has recorded those before it.
  abbrev pub AllSent : ReplayGuard → List Report → Type 0
  AllSent g [] = Unit
  AllSent g (r ∷ reports) =
      IsSent g r × AllSent (record_nonce g r.now' (b64_encode r.sent.nonce_bytes)) reports

  -- The texts are the encrypted reports, one by one.
  abbrev pub Encrypts : List Report → List Text → Type 0
  Encrypts [] [] = Unit
  Encrypts [] (message ∷ messages) = ⊥
  Encrypts (r ∷ reports) [] = ⊥
  Encrypts (r ∷ reports) (message ∷ messages) =
      (encrypt J P agent r.plaintext r.type r.sent ≡ returned message) × Encrypts reports messages

named_known : (a : Text) → is_named a ≡ true → text_eq a (codes "<unknown>") ≡ false
named_known a h = ground arith

module _ (J : Json) (P : Primitives) (correct : Correct P) {W S : Type 0} (cb : Callbacks W)
    (a : Text) where
  frame_taken :
      (m : AgentManager S) (c c' : CryptoCodec P) (message : Text) (now now' : ℕ) (fresh : Fresh)
      (events : List (Event S)) (w w' : W)
      → on_frame J P cb a c message now now' fresh w
        ≡ record { alive = true; codec = c'; world = w' }
      → io_loop J P cb a m c (frame message now now' fresh ∷ events) w
        ≡ io_loop J P cb a m c' events w'
  unfolding io_loop on_event
  frame_taken m c c' message now now' fresh events w w' h = rw h refl

  reports_heard :
      (agent c : CryptoCodec P) (k : P.PrivateKey) (reports : List Report) (m : AgentManager S)
      (w : W)
      → agent.signer.private_key ≡ some k
      → verifying_key P c.verifier ≡ some (P.public_key k)
      → c.cipher ≡ agent.cipher
      → AllSent J P agent c.guard reports
      → (messages : List Text) × Encrypts J P agent reports messages
        × ((io_loop J P cb a m c (frames_of reports messages) w).0 ≡ m)
        × ((io_loop J P cb a m c (frames_of reports messages) w).1.world ≡ heard cb a reports w)
  reports_heard agent c k [] m w key peer same fine =
      ([], tt, unfold io_loop in refl, unfold io_loop in refl)
  reports_heard agent c k (r ∷ reports) m w key peer same (first, fine) =
      let (message, encrypted, taken) =
        report_reaches_callback J P correct cb a agent c k r.type r.text r.plaintext r.ciphertext
          r.sent r.now r.now' r.fresh w first.report key peer same first.ascii first.size
          first.bytes first.read first.made first.inside first.unseen in
      let c' : CryptoCodec P = record c {
        guard = record_nonce c.guard r.now' (b64_encode r.sent.nonce_bytes);
      } in
      let w' = call_message cb.message_cb a r.type r.text w in
      let (messages, all, registry, world) =
        reports_heard agent c' k reports m w' key peer same fine in
      let step =
        frame_taken m c c' message r.now r.now' r.fresh (frames_of reports messages) w w' taken in
      (
        message ∷ messages,
        (encrypted, all),
        ap (λ p. p.0) step ∙ registry,
        ap (λ p. p.1.world) step ∙ world,
      )

  -- The registry and the world after a connection's handshake and loop.
  closing :
      (m : AgentManager S) (w : W)
      → is_named a ≡ true
      → unregister J P cb a m w ≡ (remove_agent m a, call_connect cb.connect_cb a false w)
  unfolding unregister
  closing m w named = rw (named, named_known a named) refl

  module _ (X : KeyExchange P) (law : Agrees P X) (show : Value → Text)
      (ka ea kf ef : P.PrivateKey) where
    -- An agent that opens a connection with a signed handshake, encrypts reports with the key that it
    -- derives from the forwarder's answer, signed with its own key, and leaves: the connect callback is told
    -- that it is up, the message callback hears each report once and in order, and the connect callback is
    -- told that it is down; the registry is as after registering and removing the agent. The agent's
    -- name is ASCII, not empty and not "<unknown>", the exchange of the keys succeeds, and so does the send
    -- of the answer. The reports are messages but heartbeats, acknowledgements and build triggers, and their
    -- texts have no lone surrogates; their nonces are new in turn, they are received in their window,
    -- their identifiers are ASCII, their random IVs have 12 bytes, and the library encrypts them.
    pub session_heard :
        (text : Text) (projects : List Text) (seed seed' : ℕ) (secret : Bytes) (m : AgentManager S)
        (send : S) (now : ℕ) (agent : CryptoCodec P) (reports : List Report) (w w' : W)
        → parse_handshake_init J text
          ≡ ok (agent_init P X correct law show ka ea kf ef a projects seed)
        → All IsAscii a
        → is_named a ≡ true
        → X.exchange ef (P.public_key ea) ≡ some secret
        → cb.send_text
            (J.dumps (forwarder_answer P X correct law show ka ea kf ef secret seed').ack)
            w
          ≡ (true, w')
        → derive_shared_secret_pem P X ea (public_key_pem P X ef) ≡ returned agent.cipher.key
        → agent.signer.private_key ≡ some ka
        → AllSent J P agent new_guard reports
        → (messages : List Text) × Encrypts J P agent reports messages
          × (handle_agent_connection J P cb X show
                (forwarder_files P X correct law show ka ea kf ef)
                ef
                seed'
                (some text)
                m
                send
                now
                (frames_of reports messages)
                w
              ≡ (
                remove_agent (add_agent m a projects send now) a,
                call_connect cb.connect_cb a false
                    (heard cb a reports (call_connect cb.connect_cb a true w')),
              ))
    unfolding handle_agent_connection serve
    session_heard text projects seed seed' secret m send now agent reports w w' read ascii named
          made sent derived key fine =
        let (agreed, answered, verified) =
          handshake_agrees P X correct law show ka ea kf ef J cb.send_text text a projects seed
            seed' secret w w' read ascii made sent in
        let codec : CryptoCodec P = record {
          cipher = record { key = X.sha256 secret };
          signer = forwarder_signer P X correct law show ka ea kf ef;
          verifier = agent_verifier P X correct law show ka ea kf ef;
          guard = new_guard;
        } in
        let same : X.sha256 secret ≡ agent.cipher.key =
          returned_injective (sym answered ∙ derived) in
        let up = call_connect cb.connect_cb a true w' in
        let registered = add_agent m a projects send now in
        let (messages, all, registry, world) =
          reports_heard agent codec ka reports registered up key (unfold verifying_key in refl)
            (ap (λ k. record { key = k }) same) fine in
        (
          messages,
          all,
          ap (λ r. after_handshake J P cb r m send now (frames_of reports messages)) agreed
              ∙ ap₂ (λ n v. unregister J P cb a n v) registry world
              ∙ closing registered (heard cb a reports up) named,
        )
