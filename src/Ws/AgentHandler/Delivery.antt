-- ===== src/Ws/AgentHandler/Delivery.antt =====
-- An agent's messages at forwarder/app/ws/agent_handler.py, from the agent's codec to the callback or to
-- the answer.
use jd_relay.Common.{
  ℕ, ◌≡◌, refl, sym, ◌∙◌, true, false, ◌∷◌, [], some, Text, Bytes, IsBytes, IsAscii, All, codes,
  length,
}
use jd_relay.Common.Int.{pos}
use jd_relay.Common.Outcome.{returned}
use jd_relay.Common.Json.{Json, str}
use jd_relay.Common.Utf8.{utf8_encode, utf8_decode, utf8_decode-encode}
use jd_relay.Crypto.Primitives.{Primitives, Correct}
use jd_relay.Crypto.ReplayGuard.{is_within_window, is_replay, record_nonce}
use jd_relay.Crypto.Base64.{b64_encode}
use jd_relay.Crypto.Envelope.{
  MessageType, CryptoEnvelope, build_trigger, heartbeat, ack, parse, type_value,
}
use jd_relay.Crypto.Envelope.Payload.{parse-iff-type_value}
use jd_relay.Crypto.Ecdsa.{verifying_key}
use jd_relay.Crypto.Codec.{CryptoCodec, Fresh, accepted, from_json, encrypt, decrypt}
use jd_relay.Crypto.Codec.RoundTrip.{channel_sends}
use jd_relay.Ws.AgentHandler.{
  Callbacks, going, call_message, send_encrypted, on_message, on_frame, dispatch,
}

-- The types of message that a connection only hands on.
abbrev pub IsReport : MessageType → Type 0
IsReport heartbeat = ⊥
IsReport ack = ⊥
IsReport build_trigger = ⊥
IsReport _ = Unit {0}

-- What the forwarder answers to a heartbeat.
abbrev pub ack_text : Json → Text
ack_text J = J.dumps ((codes "ack", str (codes "heartbeat")) ∷ [])

module _ (J : Json) (P : Primitives) {W : Type 0} (cb : Callbacks W) where
  pub encrypted_sent :
      (codec : CryptoCodec P) (type : MessageType) (text message : Text) (plaintext : Bytes)
      (fresh : Fresh) (w : W)
      → utf8_encode text ≡ some plaintext
      → encrypt J P codec plaintext type fresh ≡ returned message
      → send_encrypted J P cb codec type text fresh w ≡ cb.send_text message w
  unfolding send_encrypted
  encrypted_sent codec type text message plaintext fresh w read made = rw (read, made) refl

module _ (J : Json) (P : Primitives) (correct : Correct P) {W : Type 0} (cb : Callbacks W)
    (agent_id : Text) where
  -- The codec of an end that has seen a nonce.
  abbrev pub having_seen : CryptoCodec P → ℕ → Fresh → CryptoCodec P
  having_seen c now fresh = record c {
    guard = record_nonce c.guard now (b64_encode fresh.nonce_bytes);
  }

  frame_handled :
      (c : CryptoCodec P) (c' : CryptoCodec P) (message : Text) (env : CryptoEnvelope)
      (type : MessageType) (plaintext : Bytes) (now now' : ℕ) (fresh : Fresh) (w : W)
      → from_json J message ≡ returned env
      → env.type ≡ type_value type
      → decrypt J P c now now' message ≡ (returned (accepted plaintext), c')
      → on_frame J P cb agent_id c message now now' fresh w
        ≡ on_message J P cb agent_id c' fresh env plaintext (some type) w
  unfolding on_frame
  frame_handled c c' message env type plaintext now now' fresh w read kind decrypted =
      let parsed : parse env.type ≡ some type = (parse-iff-type_value env.type type).1 kind in
      rw decrypted (rw (read, parsed) refl)

  handed_on :
      (c : CryptoCodec P) (fresh : Fresh) (env : CryptoEnvelope) (type : MessageType) (text : Text)
      (plaintext : Bytes) (w : W)
      → IsReport type
      → utf8_encode text ≡ some plaintext
      → on_message J P cb agent_id c fresh env plaintext (some type) w
        ≡ going J P cb c (call_message cb.message_cb agent_id type text w)
  unfolding on_message dispatch
  handed_on c fresh env heartbeat text plaintext w r e = absurd r
  handed_on c fresh env ack text plaintext w r e = absurd r
  handed_on c fresh env build_trigger text plaintext w r e = absurd r
  handed_on c fresh env _ text plaintext w r e = rw (utf8_decode-encode text e) refl

  -- A report that the agent encrypts, of a type that is neither a heartbeat, an acknowledgement nor a build
  -- trigger, reaches the message callback with the agent's name, its type and its text; nothing is sent,
  -- the connection goes on, and the nonce is recorded. The connection's end has the agent's session key and
  -- verifies with its public key, has not seen the nonce, and gets the message in its window; the
  -- identifier is ASCII, the random IV has 12 bytes, the text has no lone surrogate, and the library's
  -- encryption succeeds.
  pub report_reaches_callback :
      (agent c : CryptoCodec P) (k : P.PrivateKey) (type : MessageType) (text : Text)
      (plaintext ct : Bytes) (sent : Fresh) (now now' : ℕ) (fresh : Fresh) (w : W)
      → IsReport type
      → agent.signer.private_key ≡ some k
      → verifying_key P c.verifier ≡ some (P.public_key k)
      → c.cipher ≡ agent.cipher
      → All IsAscii sent.uuid
      → length sent.iv_bytes ≡ 12
      → IsBytes sent.iv_bytes
      → utf8_encode text ≡ some plaintext
      → P.aead_encrypt agent.cipher.key sent.iv_bytes plaintext ≡ some ct
      → is_within_window c.guard now (pos sent.now) ≡ true
      → is_replay c.guard (b64_encode sent.nonce_bytes) ≡ false
      → (message : Text) × (encrypt J P agent plaintext type sent ≡ returned message)
        × (on_frame J P cb agent_id c message now now' fresh w ≡ record {
          alive = true;
          codec = record c { guard = record_nonce c.guard now' (b64_encode sent.nonce_bytes) };
          world = call_message cb.message_cb agent_id type text w;
        })
  report_reaches_callback agent c k type text plaintext ct sent now now' fresh w report key peer
        same ascii size bytes read made inside unseen =
      let (message, encrypted, env, loaded, kind, decrypted) =
        channel_sends J P correct agent c k plaintext type sent ct now now' key peer same ascii size
          bytes made inside unseen in
      let c' = having_seen c now' sent in
      (
        message,
        encrypted,
        frame_handled c c' message env type plaintext now now' fresh w loaded kind decrypted
            ∙ handed_on c' fresh env type text plaintext w report read,
      )

  acknowledged :
      (c : CryptoCodec P) (fresh : Fresh) (env : CryptoEnvelope) (plaintext packed : Bytes)
      (answer : Text) (w : W)
      → utf8_encode (ack_text J) ≡ some packed
      → encrypt J P c packed ack fresh ≡ returned answer
      → on_message J P cb agent_id c fresh env plaintext (some heartbeat) w
        ≡ going J P cb c (cb.send_text answer w).1
  unfolding on_message
  acknowledged c fresh env plaintext packed answer w read made =
      rw (encrypted_sent J P cb c ack (ack_text J) answer packed fresh w read made) refl

  -- A heartbeat that the agent encrypts is answered with an envelope of type ACK, whose text the agent
  -- decrypts to the acknowledgement, and nothing else happens but that each end records the nonce of the
  -- other. Each end has the session
  -- key, signs with its own key and verifies with the other's public key, has not seen the other's nonce,
  -- and gets the message in its window; the identifiers are ASCII, the random IVs have 12 bytes, the
  -- acknowledgement has no lone surrogate, and the library's encryption succeeds.
  pub heartbeat_answered :
      (agent c : CryptoCodec P) (k l : P.PrivateKey) (beat packed ct ct' : Bytes)
      (sent fresh : Fresh) (now now' later later' : ℕ) (w : W)
      → agent.signer.private_key ≡ some k
      → c.signer.private_key ≡ some l
      → verifying_key P c.verifier ≡ some (P.public_key k)
      → verifying_key P agent.verifier ≡ some (P.public_key l)
      → c.cipher ≡ agent.cipher
      → All IsAscii sent.uuid
      → All IsAscii fresh.uuid
      → length sent.iv_bytes ≡ 12
      → length fresh.iv_bytes ≡ 12
      → IsBytes sent.iv_bytes
      → IsBytes fresh.iv_bytes
      → utf8_encode (ack_text J) ≡ some packed
      → P.aead_encrypt agent.cipher.key sent.iv_bytes beat ≡ some ct
      → P.aead_encrypt c.cipher.key fresh.iv_bytes packed ≡ some ct'
      → is_within_window c.guard now (pos sent.now) ≡ true
      → is_within_window agent.guard later (pos fresh.now) ≡ true
      → is_replay c.guard (b64_encode sent.nonce_bytes) ≡ false
      → is_replay agent.guard (b64_encode fresh.nonce_bytes) ≡ false
      → (message : Text) × (answer : Text) × (encrypt J P agent beat heartbeat sent
          ≡ returned message)
        × (on_frame J P cb agent_id c message now now' fresh w ≡ record {
          alive = true;
          codec = record c { guard = record_nonce c.guard now' (b64_encode sent.nonce_bytes) };
          world = (cb.send_text answer w).1;
        })
        × (decrypt J P agent later later' answer ≡ (
          returned (accepted packed),
          record agent { guard = record_nonce agent.guard later' (b64_encode fresh.nonce_bytes) },
        ))
        × (utf8_decode packed ≡ some (ack_text J))
        × (env : CryptoEnvelope) × (from_json J answer ≡ returned env)
        × (parse env.type ≡ some ack)
  heartbeat_answered agent c k l beat packed ct ct' sent fresh now now' later later' w key key' peer
        peer' same ascii ascii' size size' bytes bytes' read made made' inside inside' unseen
        unseen' =
      let (message, encrypted, env, loaded, kind, decrypted) =
        channel_sends J P correct agent c k beat heartbeat sent ct now now' key peer same ascii size
          bytes made inside unseen in
      let c' = having_seen c now' sent in
      let (answer, packed_up, reply, reread, named, unpacked) =
        channel_sends J P correct c' agent l packed ack fresh ct' later later' key' peer' (sym same)
          ascii' size' bytes' made' inside' unseen' in
      (
        message,
        answer,
        encrypted,
        frame_handled c c' message env heartbeat beat now now' fresh w loaded kind decrypted
            ∙ acknowledged c' fresh env beat packed answer w read packed_up,
        unpacked,
        utf8_decode-encode (ack_text J) read,
        reply,
        reread,
        (parse-iff-type_value reply.type ack).1 named,
      )
