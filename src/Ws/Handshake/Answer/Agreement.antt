-- ===== src/Ws/Handshake/Answer/Agreement.antt =====
-- What a handshake of forwarder/app/ws/agent_handler.py with an honest agent establishes.
use jd_relay.Common.{
  ℕ, ◌≡◌, refl, Bool, true, ◌∷◌, ◌++◌, none, some, Text, Bytes, All, IsAscii, All-append, arith,
  List,
}
use jd_relay.Common.Outcome.{returned}
use jd_relay.Common.Json.{Value, str, strs, Json}
use jd_relay.Common.Utf8.{utf8_encode-ascii}
use jd_relay.Crypto.Primitives.{Primitives, KeyExchange, Correct, Agrees}
use jd_relay.Crypto.Base64.{b64_encode}
use jd_relay.Crypto.Base64.RoundTrip.{b64_decode-encode}
use jd_relay.Crypto.ReplayGuard.{new_guard}
use jd_relay.Crypto.AesGcm.{new_cipher}
use jd_relay.Crypto.Ecdsa.{
  EcdsaSigner, sign, verify, verifying_key, from_public_key_data, from_private_key_file,
}
use jd_relay.Crypto.Ecdh.{public_key_pem, derive_shared_secret_pem, derive_shared_secret_agrees}
use jd_relay.Ws.Handshake.{HandshakeInit, ok, parse_handshake_init}
use jd_relay.Ws.Handshake.Answer.{
  KeyFiles, Answer, ack_fields, verify_init, make_answer, do_handshake, answer_init,
}

-- The signing key `ka` and the exchange key `ea` of the agent, and `kf` and `ef` of the forwarder.
module _ (P : Primitives) (X : KeyExchange P) (correct : Correct P) (law : Agrees P X)
    (show : Value → Text) (ka ea kf ef : P.PrivateKey) where
  -- The text that the agent signs, and the opening that it sends.
  abbrev pub agent_data : Text → Text
  agent_data a = a ++ b'|' ∷ (public_key_pem P X ea ++ b'|' ∷ X.public_pem (P.public_key ka))

  abbrev pub agent_init : Text → List Text → ℕ → HandshakeInit
  agent_init a projects seed = record {
    agent_id = str a;
    projects = strs projects;
    ecdh_pub_pem = str (public_key_pem P X ea);
    ecdsa_pub_pem = str (X.public_pem (P.public_key ka));
    signature_b64 = str (b64_encode (P.ecdsa_sign ka (agent_data a) seed));
  }

  abbrev pub forwarder_files : KeyFiles
  forwarder_files = record {
    ecdsa_priv_file = some (X.private_pem kf);
    ecdsa_pub_file = some (X.public_pem (P.public_key kf));
  }

  abbrev pub agent_verifier : EcdsaSigner P
  agent_verifier = record { private_key = none; public_key = some (P.public_key ka) }

  abbrev pub forwarder_signer : EcdsaSigner P
  forwarder_signer = record { private_key = some kf; public_key = none }

  -- The text that the forwarder signs.
  abbrev pub forwarder_data : Text
  forwarder_data = public_key_pem P X ef ++ b'|' ∷ X.public_pem (P.public_key kf)

  agent_data-IsAscii : (a : Text) → All IsAscii a → All IsAscii (agent_data a)
  unfolding public_key_pem
  agent_data-IsAscii a h = All-append IsAscii a _ h (
    omega arith,
    All-append IsAscii (X.public_pem (P.public_key ea)) _ (law.public_pem-IsAscii _)
        (omega arith, law.public_pem-IsAscii _),
  )

  forwarder_data-IsAscii : All IsAscii forwarder_data
  unfolding public_key_pem
  forwarder_data-IsAscii =
      All-append IsAscii (X.public_pem (P.public_key ef)) _ (law.public_pem-IsAscii _)
        (omega arith, law.public_pem-IsAscii _)

  agent_verified :
      (a : Text) (projects : List Text) (seed : ℕ)
      → All IsAscii a
      → verify_init P show (agent_init a projects seed) ≡ returned (agent_verifier, true)
  unfolding verify_init from_public_key_data verify verifying_key
  agent_verified a projects seed h =
      rw (utf8_encode-ascii (X.public_pem (P.public_key ka)) (law.public_pem-IsAscii _)) (
        rw (law.public_pem-ne-nil (P.public_key ka)) (
          rw (law.load-public_pem (P.public_key ka)) (
            rw (b64_decode-encode _ (correct.ecdsa_sign-IsBytes ka (agent_data a) seed)) (
              rw (utf8_encode-ascii (agent_data a) (agent_data-IsAscii a h))
                (rw (correct.ecdsa_verify-sign ka (agent_data a) seed) refl)))))

  -- The forwarder's answer.
  abbrev pub forwarder_answer : Bytes → ℕ → Answer P
  forwarder_answer secret seed = record {
    shared_secret = X.sha256 secret;
    signer = forwarder_signer;
    ack =
        ack_fields (public_key_pem P X ef) (X.public_pem (P.public_key kf))
          (P.ecdsa_sign kf forwarder_data seed);
  }

  answer_made :
      (a : Text) (projects : List Text) (seed seed' : ℕ) (secret : Bytes)
      → X.exchange ef (P.public_key ea) ≡ some secret
      → make_answer P X forwarder_files ef seed' (agent_init a projects seed)
        ≡ returned (forwarder_answer secret seed')
  unfolding make_answer from_private_key_file sign
  answer_made a projects seed seed' secret made =
      let agreed = derive_shared_secret_agrees P X ef ea secret law made in
      rw (agreed.2) (
        rw (law.private_pem-ne-nil kf) (
          rw (law.load-private_pem kf)
            (rw (utf8_encode-ascii forwarder_data forwarder_data-IsAscii) refl)))

  module _ (J : Json) {W : Type 0} (send_text : Text → W → Bool × W) where
    -- A handshake with an agent whose opening is signed with its key gives a codec with the key that
    -- the agent derives from the answer, that verifies with the agent's public key and signs with the
    -- forwarder's private key; the signature in the answer verifies with the forwarder's public key.
    -- The identifier is ASCII, the exchange of the two keys succeeds, and so does the send.
    pub handshake_agrees :
        (text a : Text) (projects : List Text) (seed seed' : ℕ) (secret : Bytes) (w w' : W)
        → parse_handshake_init J text ≡ ok (agent_init a projects seed)
        → All IsAscii a
        → X.exchange ef (P.public_key ea) ≡ some secret
        → send_text (J.dumps (forwarder_answer secret seed').ack) w ≡ (true, w')
        → (do_handshake J P X show send_text forwarder_files ef seed' (some text) w ≡ (
          returned (record {
            agent_id = str a;
            projects = strs projects;
            codec = record {
              cipher = record { key = X.sha256 secret };
              signer = forwarder_signer;
              verifier = agent_verifier;
              guard = new_guard;
            };
          }),
          w',
        ))
          × (derive_shared_secret_pem P X ea (public_key_pem P X ef) ≡ returned (X.sha256 secret))
          × (P.ecdsa_verify (P.public_key kf) forwarder_data (P.ecdsa_sign kf forwarder_data seed')
              ≡ true)
    unfolding do_handshake new_cipher answer_init
    handshake_agrees text a projects seed seed' secret w w' read ascii made sent =
        let agreed = derive_shared_secret_agrees P X ef ea secret law made in
        (
          rw read (
              rw (agent_verified a projects seed ascii) (
                rw (answer_made a projects seed seed' secret made)
                  (rw sent (rw (law.length-sha256 secret) refl)))),
          agreed.3,
          correct.ecdsa_verify-sign kf forwarder_data seed',
        )
