-- ===== src/Tests/Sessions.antt =====
-- Concrete runs of a handshake and of the connection behind it.
use jd_relay.Common.{
  Option, ◌⊎◌, ◌≡◌, refl, true, List, [], ◌∷◌, none, some, ℕ, Text, Bytes, text_eq, codes, All,
  IsAscii, arith,
}
use jd_relay.Common.Dict.{Dict, lookup}
use jd_relay.Common.Outcome.{returned}
use jd_relay.Common.Int.{pos}
use jd_relay.Common.Json.{Value, str, strs}
use jd_relay.Common.Utf8.{utf8_encode}
use jd_relay.Crypto.Base64.{b64_encode}
use jd_relay.Crypto.ReplayGuard.{new_guard}
use jd_relay.Crypto.Envelope.{build_trigger}
use jd_relay.Crypto.Codec.RoundTrip.{from_json-to_json}
use jd_relay.Crypto.Ecdh.{public_key_pem, derive_shared_secret_pem}
use jd_relay.Ws.Handshake.{
  HandshakeInit, ok, parse_handshake_init, IsInit, parse_handshake_init-iff-IsInit,
}
use jd_relay.Ws.Handshake.Answer.{Peer, do_handshake}
use jd_relay.Ws.Handshake.Answer.Agreement.{
  agent_init, forwarder_files, forwarder_data, forwarder_answer, handshake_agrees,
}
use jd_relay.Ws.AgentManager.{AgentManager, new_manager, get_by_agent}
use jd_relay.Ws.AgentManager.Registry.{add, IsWellFormed, run, manager-IsWellFormed}
use jd_relay.Ws.AgentHandler.{
  Callbacks, Event, frame, beat, outgoing, elsewhere, io_loop, on_frame, handle_agent_connection,
}
use jd_relay.Ws.AgentHandler.Presence.{connection_unregisters, nameless_stays}
use jd_relay.Ws.AgentHandler.Frames.{replayed_frame_ignored}
use jd_relay.Ws.RawWs.{text}
use jd_relay.Ws.RawWs.Frames.{client_frame}
use jd_relay.Ws.ManualServer.{Client, Server}
use jd_relay.Ws.ManualServer.Opening.{handle_client}
use jd_relay.Ws.ManualServer.Balance.{IsBalanced, handle_client_balances}
use jd_relay.Tests.Keys.{keys, keys-Correct, exchange, exchange-Agrees}
use jd_relay.Tests.Wire.{wire}
use jd_relay.Tests.Conversation.{server, fresh, message, envelope, message-accepted}

-- The world is what was sent and what the callbacks were given, the last one first.
abbrev pub callbacks : Callbacks (List Text)
callbacks = record {
  send_text = λ t w. (true, t ∷ w);
  message_cb = some (λ id type text w. text ∷ w);
  connect_cb = some (λ id up w. id ∷ w);
}

abbrev pub show : Value → Text
show v = codes "?"

-- The opening of an agent with the keys 7 and 3, to a forwarder with the keys 5 and 4.
abbrev pub opening_of : Text → Dict Value
opening_of a =
    (codes "type", str (codes "HANDSHAKE_INIT"))
    ∷ (codes "agent_id", str a)
    ∷ (codes "projects", strs (codes "relay" ∷ []))
    ∷ (codes "ecdh_pub_pem", str (exchange.public_pem 3))
    ∷ (codes "ecdsa_pub_pem", str (exchange.public_pem 7))
    ∷ (codes "signature", str (b64_encode (7 ∷ 9 ∷ [])))
    ∷ []

abbrev pub init_of_agent : Text → HandshakeInit
init_of_agent a =
    agent_init keys exchange keys-Correct exchange-Agrees show 7 3 5 4 a (codes "relay" ∷ []) 9

opening-IsInit : (a : Text) → IsInit wire (wire.dumps (opening_of a)) (init_of_agent a)
unfolding lookup text_eq public_key_pem
opening-IsInit a = record {
  fields = opening_of a;
  loaded = wire.loads-dumps (opening_of a);
  type_field = refl;
  agent_id_field = refl;
  projects_field = refl;
  ecdh_field = refl;
  ecdsa_field = refl;
  signature_field = refl;
}

pub opening-read :
    (a : Text) → parse_handshake_init wire (wire.dumps (opening_of a)) ≡ ok (init_of_agent a)
opening-read a =
    (parse_handshake_init-iff-IsInit wire (wire.dumps (opening_of a)) (init_of_agent a)).1
      (opening-IsInit a)

abbrev pub shared : Bytes
shared = 12 ∷ []

abbrev pub ack_text : Text
ack_text =
    wire.dumps
      (forwarder_answer keys exchange keys-Correct exchange-Agrees show 7 3 5 4 shared 6).ack

abbrev peer_of : Text → Peer keys
peer_of a = record {
  agent_id = str a;
  projects = strs (codes "relay" ∷ []);
  codec = record {
    cipher = record { key = exchange.sha256 shared };
    signer = record { private_key = some 5; public_key = none };
    verifier = record { private_key = none; public_key = some 7 };
    guard = new_guard;
  };
}

handshake_agrees_example :
    (do_handshake wire keys exchange show callbacks.send_text
        (forwarder_files keys exchange keys-Correct exchange-Agrees show 7 3 5 4)
        4
        6
        (some (wire.dumps (opening_of (codes "a"))))
        []
      ≡ (returned (peer_of (codes "a")), ack_text ∷ []))
    × (derive_shared_secret_pem keys exchange 3 (public_key_pem keys exchange 4)
        ≡ returned (exchange.sha256 shared))
    × (keys.ecdsa_verify 5
          (forwarder_data keys exchange keys-Correct exchange-Agrees show 7 3 5 4)
          (keys.ecdsa_sign 5
            (forwarder_data keys exchange keys-Correct exchange-Agrees show 7 3 5 4)
            6)
        ≡ true)
handshake_agrees_example =
    handshake_agrees keys exchange keys-Correct exchange-Agrees show 7 3 5 4 wire
      callbacks.send_text (wire.dumps (opening_of (codes "a"))) (codes "a") (codes "relay" ∷ []) 9 6
      shared [] (ack_text ∷ []) (opening-read (codes "a")) (omega arith) refl refl

-- The handshake of an agent by its name.
agreed_with :
    (a : Text)
    → All IsAscii a
    → do_handshake wire keys exchange show callbacks.send_text
        (forwarder_files keys exchange keys-Correct exchange-Agrees show 7 3 5 4)
        4
        6
        (some (wire.dumps (opening_of a)))
        []
      ≡ (returned (peer_of a), ack_text ∷ [])
agreed_with a h =
    (handshake_agrees keys exchange keys-Correct exchange-Agrees show 7 3 5 4 wire
      callbacks.send_text (wire.dumps (opening_of a)) a (codes "relay" ∷ []) 9 6 shared []
      (ack_text ∷ []) (opening-read a) h refl refl).0

-- A message, a heartbeat, and another connection meanwhile.
abbrev events : List (Event ℕ)
events =
    beat (pos 500) fresh
    ∷ elsewhere (add (codes "b") (codes "relay" ∷ []) 2 101)
    ∷ frame message 500010 500020 fresh
    ∷ outgoing build_trigger (codes "go") fresh
    ∷ []

abbrev registry_after : Text → List (Event ℕ) → AgentManager ℕ
registry_after a happened =
    (handle_agent_connection wire keys callbacks exchange show
      (forwarder_files keys exchange keys-Correct exchange-Agrees show 7 3 5 4) 4 6
      (some (wire.dumps (opening_of a))) new_manager 1 100 happened []).0

connection_unregisters_example :
    (get_by_agent (registry_after (codes "a") events) (codes "a") ≡ none)
    × IsWellFormed (registry_after (codes "a") events)
unfolding text_eq run
connection_unregisters_example =
    connection_unregisters wire keys callbacks exchange show
      (forwarder_files keys exchange keys-Correct exchange-Agrees show 7 3 5 4) 4 6
      (some (wire.dumps (opening_of (codes "a")))) new_manager 1 100 events [] (ack_text ∷ [])
      (peer_of (codes "a")) (codes "a") (codes "relay" ∷ []) (agreed_with (codes "a") (omega arith))
      refl refl (manager-IsWellFormed [])

nameless_stays_example :
    get_by_agent (registry_after (codes "<unknown>") []) (codes "<unknown>")
    ≡ some (record {
      agent_id = codes "<unknown>";
      projects = codes "relay" ∷ [];
      connected_at = 100;
      send = 1;
    })
unfolding text_eq
nameless_stays_example =
    nameless_stays wire keys callbacks exchange show
      (forwarder_files keys exchange keys-Correct exchange-Agrees show 7 3 5 4) 4 6
      (some (wire.dumps (opening_of (codes "<unknown>")))) new_manager 1 100 [] [] (ack_text ∷ [])
      (peer_of (codes "<unknown>")) (codes "<unknown>") (codes "relay" ∷ [])
      (agreed_with (codes "<unknown>") (omega arith)) refl refl refl tt

replayed_frame_ignored_example :
    let turn =
      (io_loop wire keys callbacks
        (codes "a")
        new_manager
        server
        (frame message 500010 500020 fresh ∷ events)
        []).1 in
    let again =
      on_frame wire keys callbacks (codes "a") turn.codec message 500050 500060 fresh turn.world in
    (again.world ≡ turn.world) × (again.codec ≡ turn.codec)
replayed_frame_ignored_example =
    replayed_frame_ignored wire keys callbacks (codes "a") new_manager server message 500010 500020
      fresh [] (codes "build") envelope events message 500050 500060 fresh envelope
      (from_json-to_json wire envelope) message-accepted (from_json-to_json wire envelope) refl

-- The same agent at the other server: its request, its opening and one message.
abbrev pub request : Text
request = codes "GET /agent-ws HTTP/1.1\r\nSec-WebSocket-Key: x3JJHMbDL1EzLkh9GBhXDw==\r\n\r\n"

abbrev pub encoded : Option Bytes → Bytes
encoded none = []
encoded (some b) = b

abbrev pub masked_text : Text → Bytes
masked_text t = client_frame (1 ∷ 2 ∷ 3 ∷ 4 ∷ []) (encoded (utf8_encode t)) text

abbrev pub manual : Server
manual = record {
  has_loop = true;
  has_message_cb = true;
  has_connect_cb = true;
  adds_in_time = true;
  goes = λ sent b. true;
}

abbrev client : Client
client = record {
  incoming =
      some request
      ∷ some (masked_text (wire.dumps (opening_of (codes "a"))))
      ∷ some (masked_text message)
      ∷ [];
  sent = [];
  calls = [];
  is_open = true;
}

abbrev served_client : Client
served_client =
    handle_client manual wire keys exchange show (λ b. b)
      (forwarder_files keys exchange keys-Correct exchange-Agrees show 7 3 5 4) 4 6
      (record { now = 500010; now' = 500020; fresh = fresh } ∷ []) client

handle_client_balances_example : (served_client.calls ≡ []) ⊎ IsBalanced manual served_client
handle_client_balances_example =
    handle_client_balances manual wire keys exchange show (λ b. b)
      (forwarder_files keys exchange keys-Correct exchange-Agrees show 7 3 5 4) 4 6
      (record { now = 500010; now' = 500020; fresh = fresh } ∷ []) client refl refl
