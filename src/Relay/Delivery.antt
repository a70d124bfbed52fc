-- ===== src/Relay/Delivery.antt =====
-- A build that forwarder/app/services/relay.py triggers, through the server of forwarder/app/ws/server.py
-- and the registry of forwarder/app/ws/agent_manager.py, to the agent.
use jd_relay.Common.{
  ℕ, ◌≡◌, ap, ◌∙◌, Bool, true, false, [], ◌∷◌, some, Text, Bytes, IsBytes, IsAscii, All, codes,
  length, if◌then◌else◌,
}
use jd_relay.Common.Int.{pos}
use jd_relay.Common.Outcome.{returned}
use jd_relay.Common.Dict.{Dict, lookup}
use jd_relay.Common.Json.{Value, str, object, Json}
use jd_relay.Common.Utf8.{utf8_encode, utf8_decode, utf8_decode-encode}
use jd_relay.Crypto.Primitives.{Primitives, Correct}
use jd_relay.Crypto.ReplayGuard.{is_within_window, is_replay, record_nonce}
use jd_relay.Crypto.Base64.{b64_encode}
use jd_relay.Crypto.Envelope.{build_trigger}
use jd_relay.Crypto.Ecdsa.{verifying_key}
use jd_relay.Crypto.Codec.{CryptoCodec, Fresh, accepted, decrypt}
use jd_relay.WorkOrder.{WorkOrderState, building, can_transition}
use jd_relay.Ws.AgentManager.{AgentInfo, get_by_project}
use jd_relay.Ws.AgentHandler.{Callbacks}
use jd_relay.Ws.Server.{AppState, send_to_project}
use jd_relay.Ws.Server.Delivery.{call, project_reached}
use jd_relay.Relay.{
  RelayService, WorkOrderDict, ok, failure, no_agent, current_state, get_or, trigger_build,
}
use jd_relay.Relay.Effects.{trigger_build_sends}

-- The five fields of a trigger.
abbrev pub trigger_fields : WorkOrderDict → Text → Text → Text → Dict Value
trigger_fields wo order_no issue branch =
    (codes "work_order_id", str order_no)
    ∷ (codes "issue", str issue)
    ∷ (codes "project", str (get_or (codes "project") wo []))
    ∷ (codes "branch", str branch)
    ∷ (codes "build_cmd", str (get_or (codes "build_cmd") wo []))
    ∷ []

module _ (J : Json) (P : Primitives) (correct : Correct P) {W : Type 0} (cb : Callbacks W)
    (fresh : Fresh) where
  -- A build trigger for a complete work order that may be built, by a service that sends with a server,
  -- succeeds where an agent is connected for the project, and that agent decrypts what its websocket was
  -- given to a JSON object with the five fields of the order. The agent's end has the connection's
  -- session key and verifies with its public key, has not seen the nonce, and gets the message in its
  -- window; the identifier is ASCII, the random IV has 12 bytes, the payload has no lone surrogate, the
  -- library's encryption succeeds, and so does the send.
  pub build_reaches_agent :
      {E : Type 0} (a : AppState E (CryptoCodec P)) (service : RelayService W) (wo : WorkOrderDict)
      (s : WorkOrderState) (order_no issue branch : Text) (info : AgentInfo (CryptoCodec P))
      (agent : CryptoCodec P) (k : P.PrivateKey) (plaintext ct : Bytes) (now now' : ℕ) (w : W)
      (sent : Text → W)
      → service.forwarder ≡ some (send_to_project (call J P correct cb fresh) a)
      → current_state wo w ≡ (ok s, w)
      → can_transition s building ≡ true
      → lookup (codes "order_no") wo ≡ some order_no
      → lookup (codes "issue") wo ≡ some issue
      → lookup (codes "branch") wo ≡ some branch
      → get_by_project a.manager (get_or (codes "project") wo []) ≡ some info
      → info.send.signer.private_key ≡ some k
      → verifying_key P agent.verifier ≡ some (P.public_key k)
      → agent.cipher ≡ info.send.cipher
      → All IsAscii fresh.uuid
      → length fresh.iv_bytes ≡ 12
      → IsBytes fresh.iv_bytes
      → utf8_encode (J.dumps (trigger_fields wo order_no issue branch)) ≡ some plaintext
      → P.aead_encrypt info.send.cipher.key fresh.iv_bytes plaintext ≡ some ct
      → is_within_window agent.guard now (pos fresh.now) ≡ true
      → is_replay agent.guard (b64_encode fresh.nonce_bytes) ≡ false
      → ((message : Text) → cb.send_text message w ≡ (true, sent message))
      → (message : Text) × (trigger_build J service wo w ≡ (ok true, sent message))
        × (decrypt J P agent now now' message ≡ (
          returned (accepted plaintext),
          record agent { guard = record_nonce agent.guard now' (b64_encode fresh.nonce_bytes) },
        ))
        × (utf8_decode plaintext ≡ some (J.dumps (trigger_fields wo order_no issue branch)))
        × (J.loads (J.dumps (trigger_fields wo order_no issue branch))
            ≡ some (object (trigger_fields wo order_no issue branch)))
  unfolding send_to_project
  build_reaches_agent a service wo s order_no issue branch info agent k plaintext ct now now' w sent
        forwarder state may number named from found key peer same ascii size bytes read made inside
        unseen goes =
      let fields = trigger_fields wo order_no issue branch in
      let project = get_or (codes "project") wo [] in
      let (message, reached, decrypted) =
        project_reached J P correct cb fresh a.manager project (J.dumps fields) build_trigger info
          agent k plaintext ct now now' w sent found key peer same ascii size bytes read made inside
          unseen goes in
      (
        message,
        trigger_build_sends J service wo (send_to_project (call J P correct cb fresh) a) s order_no
              issue branch w forwarder state may number named from
            ∙ ap {A = Bool × W} (λ r. ((if r.0 then ok true else failure (no_agent project)), r.1))
                reached,
        decrypted,
        utf8_decode-encode (J.dumps fields) read,
        J.loads-dumps fields,
      )
