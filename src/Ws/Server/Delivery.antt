-- ===== src/Ws/Server/Delivery.antt =====
-- A build trigger from the route of forwarder/app/ws/server.py, through the registry of
-- forwarder/app/ws/agent_manager.py and the connection of forwarder/app/ws/agent_handler.py, to the agent.
use jd_relay.Common.{
  ℕ, ◌≡◌, refl, ap, ◌∙◌, Bool, true, false, some, Text, Bytes, IsBytes, IsAscii, All, length,
}
use jd_relay.Common.Int.{pos}
use jd_relay.Common.Outcome.{returned}
use jd_relay.Common.Dict.{Dict}
use jd_relay.Common.Json.{Value, object, Json}
use jd_relay.Common.Utf8.{utf8_encode, utf8_decode, utf8_decode-encode}
use jd_relay.Crypto.Primitives.{Primitives, Correct}
use jd_relay.Crypto.ReplayGuard.{is_within_window, is_replay, record_nonce}
use jd_relay.Crypto.Base64.{b64_encode}
use jd_relay.Crypto.Envelope.{MessageType, build_trigger}
use jd_relay.Crypto.Ecdsa.{verifying_key}
use jd_relay.Crypto.Codec.{CryptoCodec, Fresh, accepted, decrypt}
use jd_relay.Crypto.Codec.RoundTrip.{channel_delivers}
use jd_relay.Ws.AgentManager
use jd_relay.Ws.AgentManager.{AgentInfo, AgentManager, get_by_project, send_via}
use jd_relay.Ws.AgentHandler.{Callbacks, send_encrypted}
use jd_relay.Ws.AgentHandler.Delivery.{encrypted_sent}
use jd_relay.Ws.Server.{AppState, send_to_project, trigger_build_api}

module _ (J : Json) (P : Primitives) (correct : Correct P) {W : Type 0} (cb : Callbacks W)
    (fresh : Fresh) where
  -- What a connection registers is its codec, with the websocket to send on.
  abbrev pub call : CryptoCodec P → MessageType → Text → W → Bool × W
  call codec msg_type msg_json w = send_encrypted J P cb codec msg_type msg_json fresh w

  routed :
      (m : AgentManager (CryptoCodec P)) (project text : Text) (type : MessageType)
      (info : AgentInfo (CryptoCodec P)) (w : W)
      → get_by_project m project ≡ some info
      → AgentManager.send_to_project call m project type text w ≡ call info.send type text w
  unfolding AgentManager.send_to_project
  routed m project text type info w h = ap (λ o. send_via call o type text w) h

  api_sent :
      {E : Type 0} (a : AppState E (CryptoCodec P)) (project : Text) (payload : Dict Value)
      (w w' : W)
      → AgentManager.send_to_project call a.manager project build_trigger (J.dumps payload) w
        ≡ (true, w')
      → trigger_build_api call J a project payload w ≡ (some project, w')
  unfolding trigger_build_api send_to_project
  api_sent a project payload w w' h = rw h refl

  -- What is sent for a project with a connected agent, as the theorem below has it.
  pub project_reached :
      (m : AgentManager (CryptoCodec P)) (project text : Text) (type : MessageType)
      (info : AgentInfo (CryptoCodec P)) (agent : CryptoCodec P) (k : P.PrivateKey)
      (plaintext ct : Bytes) (now now' : ℕ) (w : W) (sent : Text → W)
      → get_by_project m project ≡ some info
      → info.send.signer.private_key ≡ some k
      → verifying_key P agent.verifier ≡ some (P.public_key k)
      → agent.cipher ≡ info.send.cipher
      → All IsAscii fresh.uuid
      → length fresh.iv_bytes ≡ 12
      → IsBytes fresh.iv_bytes
      → utf8_encode text ≡ some plaintext
      → P.aead_encrypt info.send.cipher.key fresh.iv_bytes plaintext ≡ some ct
      → is_within_window agent.guard now (pos fresh.now) ≡ true
      → is_replay agent.guard (b64_encode fresh.nonce_bytes) ≡ false
      → ((message : Text) → cb.send_text message w ≡ (true, sent message))
      → (message : Text) × (AgentManager.send_to_project call m project type text w
          ≡ (true, sent message))
        × (decrypt J P agent now now' message ≡ (
          returned (accepted plaintext),
          record agent { guard = record_nonce agent.guard now' (b64_encode fresh.nonce_bytes) },
        ))
  project_reached m project text type info agent k plaintext ct now now' w sent found key peer same
        ascii size bytes read made inside unseen goes =
      let (message, encrypted, decrypted) =
        channel_delivers J P correct info.send agent k plaintext type fresh ct now now' key peer
          same ascii size bytes made inside unseen in
      (
        message,
        routed m project text type info w found
            ∙ encrypted_sent J P cb info.send type text message plaintext fresh w read encrypted
            ∙ goes message,
        decrypted,
      )

  -- A build that is triggered for a project with a connected agent is sent to that agent's websocket,
  -- and the agent decrypts the message to the payload, which it reads back. The agent's end has the
  -- connection's session key and verifies with its public key, has not seen the nonce, and gets the
  -- message in its window; the identifier is ASCII, the random IV has 12 bytes, the payload has no lone
  -- surrogate, the library's encryption succeeds, and so does the send.
  pub trigger_reaches_agent :
      {E : Type 0} (a : AppState E (CryptoCodec P)) (project : Text) (payload : Dict Value)
      (info : AgentInfo (CryptoCodec P)) (agent : CryptoCodec P) (k : P.PrivateKey)
      (plaintext ct : Bytes) (now now' : ℕ) (w : W) (sent : Text → W)
      → get_by_project a.manager project ≡ some info
      → info.send.signer.private_key ≡ some k
      → verifying_key P agent.verifier ≡ some (P.public_key k)
      → agent.cipher ≡ info.send.cipher
      → All IsAscii fresh.uuid
      → length fresh.iv_bytes ≡ 12
      → IsBytes fresh.iv_bytes
      → utf8_encode (J.dumps payload) ≡ some plaintext
      → P.aead_encrypt info.send.cipher.key fresh.iv_bytes plaintext ≡ some ct
      → is_within_window agent.guard now (pos fresh.now) ≡ true
      → is_replay agent.guard (b64_encode fresh.nonce_bytes) ≡ false
      → ((message : Text) → cb.send_text message w ≡ (true, sent message))
      → (message : Text) × (trigger_build_api call J a project payload w
          ≡ (some project, sent message))
        × (decrypt J P agent now now' message ≡ (
          returned (accepted plaintext),
          record agent { guard = record_nonce agent.guard now' (b64_encode fresh.nonce_bytes) },
        ))
        × (utf8_decode plaintext ≡ some (J.dumps payload))
        × (J.loads (J.dumps payload) ≡ some (object payload))
  trigger_reaches_agent a project payload info agent k plaintext ct now now' w sent found key peer
        same ascii size bytes read made inside unseen goes =
      let (message, reached, decrypted) =
        project_reached a.manager project (J.dumps payload) build_trigger info agent k plaintext ct
          now now' w sent found key peer same ascii size bytes read made inside unseen goes in
      (
        message,
        api_sent a project payload w (sent message) reached,
        decrypted,
        utf8_decode-encode (J.dumps payload) read,
        J.loads-dumps payload,
      )
