-- ===== src/Ws/ManualServer.antt =====
-- One client of the thread-based WebSocket server, `_handle_client` of
-- forwarder/app/ws/manual_server.py. What the thread schedules on the event loop is the list of calls. A
-- round of the loop is what it takes from outside, and the end of the list of rounds is the server's
-- stop. An agent whose identifier is no string or whose projects are no list of strings is not followed
-- past its handshake.
pub mod Wire
pub mod Opening
pub mod Lifecycle
pub mod Balance
pub mod Threads
pub mod Endings
pub mod Reports
pub mod Served
use jd_relay.Common.{
  ℕ, Bool, true, false, not, ◌&&◌, List, [], ◌∷◌, ◌++◌, Option, none, some, Text, Bytes, codes,
  if◌then◌else◌, ◌==◌,
}
use jd_relay.Common.Outcome.{
  Outcome, returned, raised, disconnected, key_error, type_error, unicode_error, value_error, ◌>>=◌,
  or_raise,
}
use jd_relay.Common.Dict.{Dict, lookup}
use jd_relay.Common.Json.{Value, str, Document, object, not_object, Json}
use jd_relay.Common.Utf8.{utf8_encode, utf8_decode}
use jd_relay.Crypto.Primitives.{Primitives, KeyExchange}
use jd_relay.Crypto.ReplayGuard.{new_guard}
use jd_relay.Crypto.AesGcm.{new_cipher}
use jd_relay.Crypto.Ecdsa.{EcdsaSigner}
use jd_relay.Crypto.Envelope.{MessageType, CryptoEnvelope, build_trigger, heartbeat, ack, parse}
use jd_relay.Crypto.Codec.{CryptoCodec, DecryptResult, Fresh, from_json, encrypt, decrypt}
use jd_relay.Ws.Handshake.{HandshakeInit}
use jd_relay.Ws.Handshake.Answer.{KeyFiles, Answer, error_fields, verify_init, make_answer}
use jd_relay.Ws.AgentHandler.{is_named, identity}
use jd_relay.Ws.RawWs.Upgrade.{
  parse_http_upgrade, client_key_of, compute_accept_key, build_upgrade_response,
}
use jd_relay.Ws.ManualServer.Wire.{Stream, recv, recv_frame, send_frame}

-- A coroutine that is handed to the event loop.
pub data Call : Type 0 where
  add_agent : Text → List Text → Call
  connect_cb : Text → Bool → Call
  message_cb : Text → MessageType → Text → Call
  remove_agent : Text → Call

pub record Client : Type 0 where
  pub incoming : Stream
  pub sent : List Bytes
  pub calls : List Call
  pub is_open : Bool

-- Whether the event loop runs, which callbacks there are, whether the registration ends in time, and
-- whether a `sendall` succeeds, by what was sent before.
pub record Server : Type 0 where
  pub has_loop : Bool
  pub has_message_cb : Bool
  pub has_connect_cb : Bool
  pub adds_in_time : Bool
  pub goes : List Bytes → Bytes → Bool

abbrev pub hang_up : Client → Client
hang_up c = record c { is_open = false }

abbrev pub schedule : Call → Client → Client
schedule call c = record c { calls = c.calls ++ call ∷ [] }

abbrev pub left : Client → Stream → Client
left c s = record c { incoming = s }

-- A round's readings of the clock, and what an encryption takes from outside.
pub record Round : Type 0 where
  pub now : ℕ
  pub now' : ℕ
  pub fresh : Fresh

pub record Session (P : Primitives) : Type 0 where
  pub codec : CryptoCodec P
  pub client : Client

-- A round goes on, or the loop is left.
pub data Step (P : Primitives) : Type 0 where
  going : Session P → Step P
  ended : Client → Step P

module _ (server : Server) where
  abbrev pub sendall : Outcome Bytes → Client → Outcome (Unit {0}) × Client
  sendall (raised e) c = (raised e, c)
  sendall (returned b) c =
      if server.goes c.sent b
      then (returned tt, record c { sent = c.sent ++ b ∷ [] })
      else (raised disconnected, c)

  -- A text frame.
  unfoldable pub send_text : Outcome Text → Client → Outcome (Unit {0}) × Client
  send_text text c =
      sendall
        (text >>= λ t. or_raise unicode_error (utf8_encode t) >>= λ payload. send_frame payload 0x1)
        c

  -- What follows a call that may raise.
  abbrev pub after_send {ℓ} :
      {A : Type ℓ} → Outcome (Unit {0}) × Client → (Client → A) → (Client → A) → A
  after_send (raised e, c) failing k = failing c
  after_send (returned u, c) failing k = k c

  -- The `finally` clause, once the loop is bound.
  unfoldable pub unregister : Text → Client → Client
  unregister agent_id c = hang_up (
      if server.has_loop && is_named agent_id
      then (if server.has_connect_cb
          then schedule (connect_cb agent_id false) (schedule (remove_agent agent_id) c)
          else schedule (remove_agent agent_id) c)
      else c)

  module _ (J : Json) (P : Primitives) where
    abbrev pub continue : CryptoCodec P → Client → Step P
    continue codec c = going (record { codec = codec; client = c })

    abbrev pub dispatch_text : Text → CryptoCodec P → MessageType → Option Text → Client → Step P
    dispatch_text agent_id codec type none c = ended c
    dispatch_text agent_id codec type (some text) c =
        continue codec (schedule (message_cb agent_id type text) c)

    abbrev pub dispatch : Text → CryptoCodec P → MessageType → Bytes → Client → Step P
    dispatch agent_id codec type plaintext c =
        if server.has_message_cb && server.has_loop
        then dispatch_text agent_id codec type (utf8_decode plaintext) c
        else continue codec c

    unfoldable pub on_message :
        Text → CryptoCodec P → Fresh → CryptoEnvelope → Bytes → Option MessageType → Client → Step P
    unfolding send_text
    on_message agent_id codec fresh env plaintext none c = continue codec c
    on_message agent_id codec fresh env plaintext (some heartbeat) c =
        after_send (send_text (encrypt J P codec (codes "{\"ack\":\"heartbeat\"}") ack fresh) c)
          ended (continue codec)
    on_message agent_id codec fresh env plaintext (some ack) c = continue codec c
    on_message agent_id codec fresh env plaintext (some build_trigger) c =
        let received =
          J.dumps
            ((codes "msg_id", str env.msg_id) ∷ (codes "status", str (codes "received")) ∷ []) in
        after_send
          (send_text
            (or_raise unicode_error (utf8_encode received) >>= λ payload.
              encrypt J P codec payload ack fresh)
            c)
          ended (dispatch agent_id codec build_trigger plaintext)
    on_message agent_id codec fresh env plaintext (some type) c =
        dispatch agent_id codec type plaintext c

    -- A ValueError of the second reading goes on; nothing else is raised by it.
    abbrev pub on_envelope :
        Text → CryptoCodec P → Fresh → Bytes → Outcome CryptoEnvelope → Client → Step P
    on_envelope agent_id codec fresh plaintext (raised value_error) c = continue codec c
    on_envelope agent_id codec fresh plaintext (raised e) c = ended c
    on_envelope agent_id codec fresh plaintext (returned env) c =
        on_message agent_id codec fresh env plaintext (parse env.type) c

    abbrev pub on_decrypted :
        Text → Text → Fresh → Outcome DecryptResult × CryptoCodec P → Client → Step P
    on_decrypted agent_id text fresh (raised e, codec) c = ended c
    on_decrypted agent_id text fresh (returned r, codec) c =
        if not r.is_ok
        then continue codec c
        else on_envelope agent_id codec fresh r.plaintext (from_json J text) c

    abbrev pub on_text : Text → CryptoCodec P → Round → Option Text → Client → Step P
    on_text agent_id codec round none c = ended c
    on_text agent_id codec round (some text) c =
        on_decrypted agent_id text round.fresh (decrypt J P codec round.now round.now' text) c

    abbrev pub on_frame :
        Text → CryptoCodec P → Round → Outcome (Option (ℕ × Bytes)) → Client → Step P
    on_frame agent_id codec round (raised e) c = ended c
    on_frame agent_id codec round (returned none) c = ended c
    on_frame agent_id codec round (returned (some (opcode, payload))) c =
        if opcode == 0x8 then ended c else on_text agent_id codec round (utf8_decode payload) c

    unfoldable pub one_round : Text → Round → Session P → Step P
    unfolding on_message recv_frame
    one_round agent_id round s =
        let r = recv_frame s.client.incoming in
        on_frame agent_id s.codec round r.0 (left s.client r.1)

    abbrev pub next : Step P → (Session P → Client) → Client
    next (ended c) more = c
    next (going s) more = more s

    unfoldable pub io_loop : Text → List Round → Session P → Client
    unfolding one_round
    io_loop agent_id [] s = s.client
    io_loop agent_id (round ∷ rounds) s =
        next (one_round agent_id round s) (io_loop agent_id rounds)

    abbrev pub announced : Bool → Text → Client → Client
    announced false agent_id c = c
    announced true agent_id c = schedule (connect_cb agent_id true) c

    -- By whether the event loop runs, and whether the registration ends in time.
    abbrev pub serve_if : Bool → Bool → Text → List Text → List Round → Session P → Client
    serve_if false in_time agent_id projects rounds s =
        unregister agent_id (io_loop agent_id rounds s)
    serve_if true false agent_id projects rounds s =
        unregister agent_id (schedule (add_agent agent_id projects) s.client)
    serve_if true true agent_id projects rounds s =
        let added = schedule (add_agent agent_id projects) s.client in
        unregister agent_id (
          io_loop agent_id rounds
            (record s { client = announced server.has_connect_cb agent_id added }))

    -- From the binding of the loop to the end.
    unfoldable pub serve : Text → List Text → List Round → Session P → Client
    serve agent_id projects rounds s =
        serve_if server.has_loop server.adds_in_time agent_id projects rounds s
