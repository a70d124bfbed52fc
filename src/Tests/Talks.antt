-- ===== src/Tests/Talks.antt =====
-- A connection in which an agent sends two reports.
use jd_relay.Common.{
  none, false, ◌≡◌, refl, Bool, true, List, [], ◌∷◌, ◌++◌, some, Text, Bytes, codes, text_eq, arith,
}
use jd_relay.Common.Dict.{lookup, insert}
use jd_relay.Common.Utf8.{utf8_encode}
use jd_relay.Crypto.ReplayGuard.{new_guard, is_within_window, is_replay, record_nonce}
use jd_relay.Crypto.Base64.{b64_encode}
use jd_relay.Crypto.Envelope.{MessageType, build_result, second_review_result}
use jd_relay.Crypto.Ecdh.{ascii_encode, public_key_pem, derive_shared_secret_pem}
use jd_relay.Crypto.Codec.{CryptoCodec}
use jd_relay.Ws.AgentManager.{new_manager, add_agent, remove_agent}
use jd_relay.Ws.Handshake.Answer.Agreement.{forwarder_files}
use jd_relay.Ws.AgentHandler.{elsewhere, handle_agent_connection}
use jd_relay.Ws.AgentManager.Registry.{add}
use jd_relay.Ws.Server.{
  AppState, new_state, shutdown, health, list_agents_api, trigger_build_api, agent_ws,
}
use jd_relay.Ws.Server.Shutdown.{shutdown_is_final}
use jd_relay.Ws.AgentHandler.Session.{Report, frames_of, IsSent, Encrypts, session_heard}
use jd_relay.Tests.Keys.{keys, keys-Correct, exchange, exchange-Agrees}
use jd_relay.Tests.Wire.{wire}
use jd_relay.Tests.Conversation.{agent, fresh}
use jd_relay.Tests.Sessions.{callbacks, show, opening_of, opening-read, shared, ack_text}

-- The agent's end, with the key that it derives.
abbrev pub talker : CryptoCodec keys
talker = record agent { cipher = record { key = exchange.sha256 shared } }

abbrev sealed : Bytes → Bytes
sealed plaintext = plaintext ++ (0 ∷ 0 ∷ 0 ∷ 0 ∷ 0 ∷ 0 ∷ 0 ∷ 0 ∷ 0 ∷ 0 ∷ 0 ∷ 0 ∷ 0 ∷ 0 ∷ 0 ∷ 0 ∷ [])

abbrev pub first_report : Report
first_report = record {
  type = build_result;
  text = codes "done";
  plaintext = codes "done";
  ciphertext = sealed (codes "done");
  sent = fresh;
  now = 500010;
  now' = 500020;
  fresh = fresh;
}

abbrev second_report : Report
second_report = record {
  type = second_review_result;
  text = codes "agree";
  plaintext = codes "agree";
  ciphertext = sealed (codes "agree");
  sent = record fresh { now = 500040; nonce_bytes = 5 ∷ 6 ∷ 7 ∷ 8 ∷ [] };
  now = 500050;
  now' = 500060;
  fresh = fresh;
}

abbrev reports : List Report
reports = first_report ∷ second_report ∷ []

pub first-IsSent : IsSent wire keys talker new_guard first_report
unfolding is_within_window is_replay lookup utf8_encode
first-IsSent = record {
  report = tt;
  ascii = omega arith;
  size = refl;
  bytes = omega arith;
  read = refl;
  made = refl;
  inside = refl;
  unseen = refl;
}

second-IsSent :
    IsSent wire keys talker
      (record_nonce new_guard 500020 (b64_encode fresh.nonce_bytes))
      second_report
unfolding is_within_window is_replay record_nonce lookup text_eq b64_encode utf8_encode insert
second-IsSent = record {
  report = tt;
  ascii = omega arith;
  size = refl;
  bytes = omega arith;
  read = refl;
  made = refl;
  inside = refl;
  unseen = refl;
}

session_heard_example :
    (messages : List Text) × Encrypts wire keys talker reports messages
    × (handle_agent_connection wire keys callbacks exchange show
          (forwarder_files keys exchange keys-Correct exchange-Agrees show 7 3 5 4)
          4
          6
          (some (wire.dumps (opening_of (codes "a"))))
          (new_manager {S = Bool})
          true
          100
          (frames_of reports messages)
          []
        ≡ (
          remove_agent
              (add_agent new_manager (codes "a") (codes "relay" ∷ []) true 100)
              (codes "a"),
          codes "a" ∷ codes "agree" ∷ codes "done" ∷ codes "a" ∷ ack_text ∷ [],
        ))
unfolding derive_shared_secret_pem public_key_pem text_eq ascii_encode
session_heard_example =
    session_heard wire keys keys-Correct callbacks (codes "a") exchange exchange-Agrees show 7 3 5 4
      (wire.dumps (opening_of (codes "a"))) (codes "relay" ∷ []) 9 6 shared new_manager true 100
      talker reports [] (ack_text ∷ []) (opening-read (codes "a")) (omega arith) refl refl refl refl
      refl (first-IsSent, (second-IsSent, tt))

-- The same connection after the end of the application.
abbrev app : AppState Bool Bool
app = new_state none

abbrev app_after : AppState Bool Bool
app_after =
    (agent_ws wire keys exchange show callbacks
      (forwarder_files keys exchange keys-Correct exchange-Agrees show 7 3 5 4) 4 6
      (some (wire.dumps (opening_of (codes "a")))) (shutdown app) true 100
      (elsewhere (add (codes "b") (codes "relay" ∷ []) false 101) ∷ []) []).0

abbrev send_on : Bool → MessageType → Text → List Text → Bool × List Text
send_on send type text sent = (send, text ∷ sent)

shutdown_is_final_example :
    (app_after ≡ shutdown app)
    × (list_agents_api app_after ≡ ([], 0))
    × (health app_after ≡ record { status = codes "ok"; agents = 0; version = codes "3.0.0" })
    × (trigger_build_api send_on wire app_after (codes "relay") [] [] ≡ (none, []))
shutdown_is_final_example =
    shutdown_is_final wire keys exchange show callbacks
      (forwarder_files keys exchange keys-Correct exchange-Agrees show 7 3 5 4) send_on 4 6
      (some (wire.dumps (opening_of (codes "a")))) app true 100
      (elsewhere (add (codes "b") (codes "relay" ∷ []) false 101) ∷ []) [] (codes "relay") [] []
