-- ===== src/Tests/Builds.antt =====
-- Builds that are triggered for a project with a connected agent, which decrypts what it gets.
use jd_relay.Common.{
  ◌≡◌, refl, Bool, true, false, List, [], ◌∷◌, ◌++◌, none, some, Text, Bytes, codes, text_eq, arith,
}
use jd_relay.Common.Dict.{Dict, lookup}
use jd_relay.Common.Json.{Value, object}
use jd_relay.Common.Outcome.{returned}
use jd_relay.Common.Utf8.{utf8_encode, utf8_decode}
use jd_relay.Crypto.Base64.{b64_encode}
use jd_relay.Crypto.ReplayGuard.{is_within_window, is_replay, record_nonce}
use jd_relay.Crypto.Ecdsa.{verifying_key}
use jd_relay.Crypto.Codec.{CryptoCodec, Fresh, accepted, from_json, encrypt, decrypt}
use jd_relay.WorkOrder.{approved, of_value, can_transition}
use jd_relay.Relay
use jd_relay.Relay.{RelayService, WorkOrderDict, current_state, get_or, trigger_build}
use jd_relay.Relay.Delivery.{trigger_fields, build_reaches_agent}
use jd_relay.Ws.AgentManager.{AgentInfo, get_by_project, get_by_agent}
use jd_relay.Ws.AgentHandler.{Callbacks, on_frame}
use jd_relay.Ws.AgentHandler.Delivery.{ack_text, heartbeat_answered}
use jd_relay.Crypto.Envelope.{CryptoEnvelope, heartbeat, ack, parse}
use jd_relay.Ws.Server.{AppState, new_state, send_to_project}
use jd_relay.Ws.Server.Delivery.{call}
use jd_relay.Tests.Keys.{keys, keys-Correct}
use jd_relay.Tests.Wire.{dump, wire}
use jd_relay.Tests.Conversation.{agent, server, fresh}
use jd_relay.Tests.Orders.{built_order}

-- The world is what was sent, the last message first.
abbrev callbacks : Callbacks (List Text)
callbacks = record { send_text = λ t w. (true, t ∷ w); message_cb = none; connect_cb = none }

-- The forwarder's end of the connection of an agent for one project; the agent has the other end.
abbrev connected : AgentInfo (CryptoCodec keys)
connected = record {
  agent_id = codes "a";
  projects = codes "relay" ∷ [];
  connected_at = 100;
  send = agent;
}

abbrev app : AppState Bool (CryptoCodec keys)
app = record (new_state none) {
  manager = record {
    by_agent = (codes "a", connected) ∷ [];
    project_to_agent = (codes "relay", codes "a") ∷ [];
    stopped = false;
  };
}

abbrev sealed : Bytes → Bytes
sealed plaintext = plaintext ++ (0 ∷ 0 ∷ 0 ∷ 0 ∷ 0 ∷ 0 ∷ 0 ∷ 0 ∷ 0 ∷ 0 ∷ 0 ∷ 0 ∷ 0 ∷ 0 ∷ 0 ∷ 0 ∷ [])

abbrev agent_after : CryptoCodec keys
agent_after = record server {
  guard = record_nonce server.guard 500020 (b64_encode fresh.nonce_bytes);
}

abbrev service : RelayService (List Text)
service = record {
  dingtalk = none;
  forwarder = some (send_to_project (call wire keys keys-Correct callbacks fresh) app);
}

abbrev fields : Dict Value
fields = trigger_fields built_order (codes "WO-1") (codes "JD-7") (codes "main")

build_reaches_agent_example :
    (message : Text) × (trigger_build wire service built_order []
      ≡ (Relay.Result.ok true, message ∷ []))
    × (decrypt wire keys server 500010 500020 message
        ≡ (returned (accepted (wire.dumps fields)), agent_after))
    × (utf8_decode (wire.dumps fields) ≡ some (wire.dumps fields))
    × (wire.loads (wire.dumps fields) ≡ some (object fields))
unfolding current_state can_transition of_value get_or get_by_project get_by_agent verifying_key
    is_within_window is_replay lookup text_eq utf8_encode dump
build_reaches_agent_example =
    build_reaches_agent wire keys keys-Correct callbacks fresh app service built_order approved
      (codes "WO-1") (codes "JD-7") (codes "main") connected server 7 (wire.dumps fields)
      (sealed (wire.dumps fields)) 500010 500020 [] (λ message. message ∷ []) refl refl refl refl
      refl refl refl refl refl refl (omega arith) refl (omega arith) refl refl refl refl
      (λ message. refl)

-- The two ends of a connection, with the keys 7 and 5.
abbrev agent_end : CryptoCodec keys
agent_end = record agent { verifier = record { private_key = none; public_key = some 5 } }

abbrev forwarder_end : CryptoCodec keys
forwarder_end = record server { signer = record { private_key = some 5; public_key = none } }

-- What an encryption of the forwarder takes from outside.
abbrev fresh_answer : Fresh
fresh_answer = record fresh { now = 500020; nonce_bytes = 5 ∷ 6 ∷ 7 ∷ 8 ∷ [] }

-- The world is what the callback was given.
abbrev hearing : Callbacks (List Text)
hearing = record {
  send_text = λ t w. (true, t ∷ w);
  message_cb = some (λ id type text w. text ∷ w);
  connect_cb = none;
}

heartbeat_answered_example :
    (message : Text) × (answer : Text) × (encrypt wire keys agent_end (codes "{}") heartbeat fresh
      ≡ returned message)
    × (on_frame wire keys hearing (codes "a") forwarder_end message 500010 500020 fresh_answer []
        ≡ record {
          alive = true;
          codec = record forwarder_end {
            guard = record_nonce forwarder_end.guard 500020 (b64_encode fresh.nonce_bytes);
          };
          world = answer ∷ [];
        })
    × (decrypt wire keys agent_end 500030 500040 answer ≡ (
      returned (accepted (ack_text wire)),
      record agent_end {
        guard = record_nonce agent_end.guard 500040 (b64_encode fresh_answer.nonce_bytes);
      },
    ))
    × (utf8_decode (ack_text wire) ≡ some (ack_text wire))
    × (env : CryptoEnvelope) × (from_json wire answer ≡ returned env)
    × (parse env.type ≡ some ack)
unfolding verifying_key is_within_window is_replay lookup utf8_encode dump
heartbeat_answered_example =
    heartbeat_answered wire keys keys-Correct hearing (codes "a") agent_end forwarder_end 7 5
      (codes "{}") (ack_text wire) (sealed (codes "{}")) (sealed (ack_text wire)) fresh fresh_answer
      500010 500020 500030 500040 [] refl refl refl refl refl (omega arith) (omega arith) refl refl
      (omega arith) (omega arith) refl refl refl refl refl refl refl
