-- ===== src/Ws/ManualServer/Opening.antt =====
-- A client of forwarder/app/ws/manual_server.py up to its registration, and `_handle_client` as a whole. The
-- event loop is bound behind the handshake: where the handshake raises, the `finally` clause raises too, and
-- does not reach the close of the socket. The opening's payload is read as strict UTF-8; `json.loads` on
-- bytes also takes UTF-16, UTF-32 and a byte order mark, which end here in an exception.
use jd_relay.Common.{ℕ, Bool, true, false, List, [], ◌∷◌, Option, none, some, Text, Bytes, codes}
use jd_relay.Common.Outcome.{
  Outcome, returned, raised, key_error, type_error, value_error, unicode_error, ◌>>=◌, or_raise,
}
use jd_relay.Common.Dict.{Dict, lookup}
use jd_relay.Common.Json.{Value, Document, object, not_object, Json}
use jd_relay.Common.Utf8.{utf8_encode, utf8_decode}
use jd_relay.Crypto.Primitives.{Primitives, KeyExchange}
use jd_relay.Crypto.ReplayGuard.{new_guard}
use jd_relay.Crypto.AesGcm.{AesGcmCipher, new_cipher}
use jd_relay.Crypto.Ecdsa.{EcdsaSigner}
use jd_relay.Crypto.Envelope.{MessageType}
use jd_relay.Crypto.Codec.{CryptoCodec, Fresh, encrypt}
use jd_relay.Ws.Handshake.{HandshakeInit}
use jd_relay.Ws.Handshake.Answer.{KeyFiles, Answer, error_fields, verify_init, make_answer}
use jd_relay.Ws.AgentHandler.{identity}
use jd_relay.Ws.RawWs.Upgrade.{
  parse_http_upgrade, client_key_of, compute_accept_key, build_upgrade_response,
}
use jd_relay.Ws.ManualServer.{
  Client, Server, Session, Round, hang_up, left, sendall, send_text, after_send, serve,
}
use jd_relay.Ws.ManualServer.Wire.{recv, recv_frame}

-- An early return with the socket closed, an exception, or an agent to register.
pub data Opened (P : Primitives) : Type 0 where
  refused : Client → Opened P
  failed : Client → Opened P
  ready : Text → List Text → Session P → Opened P

-- init[key]
abbrev pub field : Text → Dict Value → Outcome Value
field key d = or_raise key_error (lookup key d)

unfoldable pub read_fields : Option Document → Outcome HandshakeInit
read_fields none = raised value_error
read_fields (some not_object) = raised type_error
read_fields (some (object d)) = do
  agent_id ← field (codes "agent_id") d
  projects ← field (codes "projects") d
  ecdsa_pub_pem ← field (codes "ecdsa_pub_pem") d
  ecdh_pub_pem ← field (codes "ecdh_pub_pem") d
  signature ← field (codes "signature") d
  returned (record {
    agent_id = agent_id;
    projects = projects;
    ecdh_pub_pem = ecdh_pub_pem;
    ecdsa_pub_pem = ecdsa_pub_pem;
    signature_b64 = signature;
  })

-- `json.loads(init_raw)`
abbrev pub load_opening : Json → Option Text → Option Document
load_opening J none = none
load_opening J (some text) = J.loads text

module _ (server : Server) (J : Json) (P : Primitives) (X : KeyExchange P) (show : Value → Text)
    (sha1 : Bytes → Bytes) (files : KeyFiles) (ecdh : P.PrivateKey) (seed : ℕ) where
  -- What is registered for others to send with.
  unfoldable pub send_encrypted :
      CryptoCodec P → MessageType → Text → Fresh → Client → Bool × Client
  send_encrypted codec msg_type msg_json fresh c =
      let enc_json =
        or_raise unicode_error (utf8_encode msg_json) >>= λ b. encrypt J P codec b msg_type fresh in
      after_send server (send_text server enc_json c) (λ c'. (false, c')) (λ c'. (true, c'))

  abbrev session : EcdsaSigner P → Answer P → AesGcmCipher → Client → Session P
  session verifier answer cipher c = record {
    codec = record {
      cipher = cipher;
      signer = answer.signer;
      verifier = verifier;
      guard = new_guard;
    };
    client = c;
  }

  abbrev pub registered :
      Outcome (Text × List Text)
      → EcdsaSigner P
      → Answer P
      → Outcome AesGcmCipher
      → Client
      → Opened P
  registered who verifier answer (raised e) c = failed c
  registered (raised e) verifier answer (returned cipher) c = failed c
  registered (returned (agent_id, projects)) verifier answer (returned cipher) c =
      ready agent_id projects (session verifier answer cipher c)

  abbrev pub on_answer : HandshakeInit → EcdsaSigner P → Outcome (Answer P) → Client → Opened P
  on_answer init verifier (raised e) c = failed c
  on_answer init verifier (returned answer) c =
      after_send server (send_text server (returned (J.dumps answer.ack)) c) failed (
        registered (identity init.agent_id init.projects) verifier answer
          (new_cipher answer.shared_secret))

  abbrev pub on_checked : Outcome (HandshakeInit × (EcdsaSigner P × Bool)) → Client → Opened P
  on_checked (raised e) c = failed c
  on_checked (returned (init, (verifier, false))) c =
      after_send server
        (send_text server
          (returned (J.dumps (error_fields (codes "Signature verification failed")))) c)
        failed (λ c'. refused (hang_up c'))
  on_checked (returned (init, (verifier, true))) c =
      on_answer init verifier (make_answer P X files ecdh seed init) c

  abbrev pub on_opening : Outcome (Option (ℕ × Bytes)) → Client → Opened P
  on_opening (raised e) c = failed c
  on_opening (returned none) c = refused (hang_up c)
  on_opening (returned (some (opcode, init_raw))) c =
      on_checked
        (read_fields (load_opening J (utf8_decode init_raw)) >>= λ init.
          verify_init P show init >>= λ checked. returned (init, checked))
        c

  abbrev pub receive_opening : Client → Opened P
  receive_opening c = let r = recv_frame c.incoming in on_opening r.0 (left c r.1)

  abbrev pub on_client_key : Text → Client → Opened P
  on_client_key [] c = refused (hang_up c)
  on_client_key (k ∷ ks) c =
      after_send server
        (sendall server (compute_accept_key sha1 (k ∷ ks) >>= build_upgrade_response) c) failed
        receive_opening

  abbrev pub on_request : Outcome Bytes → Client → Opened P
  on_request (raised e) c = failed c
  on_request (returned request) c = on_client_key (client_key_of (parse_http_upgrade request)) c

  unfoldable pub open_client : Client → Opened P
  open_client c = let r = recv 4096 c.incoming in on_request r.0 (left c r.1)

  abbrev pub serve_opened : List Round → Opened P → Client
  serve_opened rounds (refused c) = c
  serve_opened rounds (failed c) = c
  serve_opened rounds (ready agent_id projects s) = serve server J P agent_id projects rounds s

  unfoldable pub handle_client : List Round → Client → Client
  unfolding open_client
  handle_client rounds c = serve_opened rounds (open_client c)
