-- ===== src/Ws/AgentHandler.antt =====
-- One agent's connection, `handle_agent_connection` of forwarder/app/ws/agent_handler.py. What happens
-- on it, and to the registry meanwhile, is a list of events: a received frame, a round of the heartbeat
-- task, a message that others send through the registered callback, and what other connections do to
-- the registry. The end of the list is a disconnect. A callback that raises is logged and ignored, so
-- it is a function on the world. An agent whose identifier is no string or whose projects are no list
-- of strings is not followed past its handshake: a TypeError stands for what Python does.
pub mod Presence
pub mod Delivery
pub mod Session
pub mod Frames
use jd_relay.Common.{
  ℕ, Bool, true, false, not, ◌&&◌, List, [], ◌∷◌, Option, none, some, Text, Bytes, codes, text_eq,
  is_truthy, if◌then◌else◌,
}
use jd_relay.Common.Int.{ℤ}
use jd_relay.Common.Outcome.{Outcome, returned, raised, type_error, attempt}
use jd_relay.Common.Json.{Value, str, int, strs, Json}
use jd_relay.Common.Utf8.{utf8_encode, utf8_decode}
use jd_relay.Crypto.Primitives.{Primitives, KeyExchange}
use jd_relay.Crypto.Envelope.{MessageType, CryptoEnvelope, build_trigger, heartbeat, ack, parse}
use jd_relay.Crypto.Codec.{CryptoCodec, DecryptResult, Fresh, from_json, encrypt, decrypt}
use jd_relay.Ws.AgentManager.{AgentManager, add_agent, remove_agent}
use jd_relay.Ws.AgentManager.Registry.{Op, run}
use jd_relay.Ws.Handshake.Answer.{KeyFiles, Peer, do_handshake}

-- The WebSocket's send, which answers `false` where it raises, and the two callbacks.
pub record Callbacks (W : Type 0) : Type 0 where
  pub send_text : Text → W → Bool × W
  pub message_cb : Option (Text → MessageType → Text → W → W)
  pub connect_cb : Option (Text → Bool → W → W)

abbrev pub call_connect : {W : Type 0} → Option (Text → Bool → W → W) → Text → Bool → W → W
call_connect none agent_id up w = w
call_connect (some f) agent_id up w = f agent_id up w

abbrev pub call_message :
    {W : Type 0} → Option (Text → MessageType → Text → W → W) → Text → MessageType → Text → W → W
call_message none agent_id type text w = w
call_message (some f) agent_id type text w = f agent_id type text w

-- One event; `Fresh` is what an encryption that it causes takes from outside.
pub data Event (S : Type 0) : Type 0 where
  frame : Text → ℕ → ℕ → Fresh → Event S
  beat : ℤ → Fresh → Event S
  outgoing : MessageType → Text → Fresh → Event S
  elsewhere : Op S → Event S

-- What an event does to the registry.
abbrev pub on_registry : {S : Type 0} → AgentManager S → Event S → AgentManager S
on_registry m (elsewhere op) = run m (op ∷ [])
on_registry m _ = m

-- The connection's own state; `alive` is whether its loop goes on.
pub record Turn (P : Primitives) (W : Type 0) : Type 0 where
  pub alive : Bool
  pub codec : CryptoCodec P
  pub world : W

module _ (J : Json) (P : Primitives) {W : Type 0} (cb : Callbacks W) where
  abbrev pub send_result : Outcome Text → W → Bool × W
  send_result (raised e) w = (false, w)
  send_result (returned enc_json) w = cb.send_text enc_json w

  abbrev pub encrypt_bytes : CryptoCodec P → MessageType → Fresh → Option Bytes → W → Bool × W
  encrypt_bytes c msg_type fresh none w = (false, w)
  encrypt_bytes c msg_type fresh (some b) w = send_result (encrypt J P c b msg_type fresh) w

  unfoldable pub send_encrypted : CryptoCodec P → MessageType → Text → Fresh → W → Bool × W
  send_encrypted c msg_type msg_json fresh w =
      encrypt_bytes c msg_type fresh (utf8_encode msg_json) w

  abbrev pub going : CryptoCodec P → W → Turn P W
  going c w = record { alive = true; codec = c; world = w }

  abbrev pub ended : CryptoCodec P → W → Turn P W
  ended c w = record { alive = false; codec = c; world = w }

  -- `message_cb(agent_id, msg_type, plaintext)`; a plaintext that is no UTF-8 is logged.
  abbrev pub dispatch_text : Text → MessageType → Option Text → W → W
  dispatch_text agent_id type none w = w
  dispatch_text agent_id type (some text) w = call_message cb.message_cb agent_id type text w

  unfoldable pub dispatch : Text → MessageType → Bytes → W → W
  dispatch agent_id type plaintext w = dispatch_text agent_id type (utf8_decode plaintext) w

  -- A decrypted message by its type; an unknown type is logged.
  unfoldable pub on_message :
      Text → CryptoCodec P → Fresh → CryptoEnvelope → Bytes → Option MessageType → W → Turn P W
  unfolding send_encrypted dispatch
  on_message agent_id c fresh env plaintext none w = going c w
  on_message agent_id c fresh env plaintext (some ack) w = going c w
  on_message agent_id c fresh env plaintext (some heartbeat) w =
      going c
        (send_encrypted c ack (J.dumps ((codes "ack", str (codes "heartbeat")) ∷ [])) fresh w).1
  on_message agent_id c fresh env plaintext (some build_trigger) w =
      let received =
        J.dumps
          ((codes "msg_id", str env.msg_id) ∷ (codes "status", str (codes "received")) ∷ []) in
      going c (dispatch agent_id build_trigger plaintext (send_encrypted c ack received fresh w).1)
  on_message agent_id c fresh env plaintext (some type) w =
      going c (dispatch agent_id type plaintext w)

  -- The envelope is read a second time; that this raises is not reached after a decryption.
  abbrev pub on_envelope :
      Text → CryptoCodec P → Fresh → Bytes → Outcome CryptoEnvelope → W → Turn P W
  on_envelope agent_id c fresh plaintext (raised e) w = ended c w
  on_envelope agent_id c fresh plaintext (returned env) w =
      on_message agent_id c fresh env plaintext (parse env.type) w

  -- A decryption that raises ends the connection, one that fails is logged.
  abbrev pub on_decrypted :
      Text → Text → Fresh → Outcome DecryptResult × CryptoCodec P → W → Turn P W
  on_decrypted agent_id raw fresh (raised e, c) w = ended c w
  on_decrypted agent_id raw fresh (returned r, c) w =
      if not r.is_ok
      then going c w
      else on_envelope agent_id c fresh r.plaintext (from_json J raw) w

  unfoldable pub on_frame : Text → CryptoCodec P → Text → ℕ → ℕ → Fresh → W → Turn P W
  unfolding on_message
  on_frame agent_id c raw now now' fresh w =
      on_decrypted agent_id raw fresh (decrypt J P c now now' raw) w

  -- What an event does to the connection.
  unfoldable pub on_event : {S : Type 0} → Text → CryptoCodec P → Event S → W → Turn P W
  unfolding on_frame
  on_event agent_id c (frame raw now now' fresh) w = on_frame agent_id c raw now now' fresh w
  on_event agent_id c (beat ts fresh) w =
      going c (send_encrypted c heartbeat (J.dumps ((codes "ts", int ts) ∷ [])) fresh w).1
  on_event agent_id c (outgoing type payload fresh) w =
      going c (send_encrypted c type payload fresh w).1
  on_event agent_id c (elsewhere op) w = going c w

  -- The I/O loop.
  unfoldable pub io_loop :
      {S : Type 0}
      → Text
      → AgentManager S
      → CryptoCodec P
      → List (Event S)
      → W
      → AgentManager S × Turn P W
  unfolding on_event
  io_loop agent_id m c [] w = (m, ended c w)
  io_loop agent_id m c (e ∷ events) w =
      let turn = on_event agent_id c e w in
      let rest = io_loop agent_id (on_registry m e) turn.codec events turn.world in
      if turn.alive then rest else (on_registry m e, turn)

-- `agent_id and agent_id != "<unknown>"`
abbrev pub is_named : Text → Bool
is_named agent_id = is_truthy agent_id && not (text_eq agent_id (codes "<unknown>"))

-- The names under which an agent is registered.
abbrev pub identity : Value → Value → Outcome (Text × List Text)
identity (str agent_id) (strs projects) = returned (agent_id, projects)
identity _ _ = raised type_error

module _ (J : Json) (P : Primitives) {W S : Type 0} (cb : Callbacks W) where
  -- The `finally` clause.
  unfoldable pub unregister : Text → AgentManager S → W → AgentManager S × W
  unregister agent_id m w = (
    (if is_named agent_id then remove_agent m agent_id else m),
    (if not (text_eq agent_id (codes "<unknown>"))
        then call_connect cb.connect_cb agent_id false w
        else w),
  )

  -- From a completed handshake to the end. `send` is the closure that is registered, and `now` the
  -- loop's clock when that happens.
  unfoldable pub serve :
      Text
      → List Text
      → CryptoCodec P
      → AgentManager S
      → S
      → ℕ
      → List (Event S)
      → W
      → AgentManager S × W
  unfolding unregister
  serve agent_id projects c m send now events w =
      let up = call_connect cb.connect_cb agent_id true w in
      let registered = add_agent m agent_id projects send now in
      let r = io_loop J P cb agent_id registered c events up in unregister agent_id r.0 r.1.world

  abbrev pub serve_peer :
      Outcome (Text × List Text)
      → CryptoCodec P
      → AgentManager S
      → S
      → ℕ
      → List (Event S)
      → W
      → AgentManager S × W
  serve_peer (raised e) c m send now events w = (m, w)
  serve_peer (returned (agent_id, projects)) c m send now events w =
      serve agent_id projects c m send now events w

  -- A handshake that raises leaves the agent unknown, so nothing is unregistered.
  abbrev pub after_handshake :
      Outcome (Peer P) × W → AgentManager S → S → ℕ → List (Event S) → AgentManager S × W
  after_handshake (raised e, w) m send now events = (m, w)
  after_handshake (returned peer, w) m send now events =
      serve_peer (identity peer.agent_id peer.projects) peer.codec m send now events w

  unfoldable pub handle_agent_connection :
      KeyExchange P
      → (Value → Text)
      → KeyFiles
      → P.PrivateKey
      → ℕ
      → Option Text
      → AgentManager S
      → S
      → ℕ
      → List (Event S)
      → W
      → AgentManager S × W
  handle_agent_connection X show files ecdh seed opening m send now events w =
      after_handshake (do_handshake J P X show cb.send_text files ecdh seed opening w) m send now
        events
