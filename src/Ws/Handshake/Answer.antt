-- ===== src/Ws/Handshake/Answer.antt =====
-- The answer to an agent's opening message, `_do_handshake` of forwarder/app/ws/agent_handler.py. The
-- world `W` is what sending on the WebSocket changes; a send that answers `false` raised. `show` is
-- Python's formatting of a JSON value that is no string.
pub mod Agreement
use jd_relay.Common.{
  ℕ, Bool, true, false, not, [], ◌∷◌, ◌++◌, Option, none, some, Text, Bytes, codes, if◌then◌else◌,
}
use jd_relay.Common.Outcome.{
  Outcome, returned, raised, value_error, attribute_error, unicode_error, library_error,
  disconnected, handshake_error, ◌>>=◌, or_raise, attempt,
}
use jd_relay.Common.Dict.{Dict}
use jd_relay.Common.Json.{Value, str, int, strs, other, Json}
use jd_relay.Common.Utf8.{utf8_encode}
use jd_relay.Crypto.Primitives.{Primitives, KeyExchange}
use jd_relay.Crypto.Base64.{b64_encode, b64_decode}
use jd_relay.Crypto.ReplayGuard.{new_guard}
use jd_relay.Crypto.AesGcm.{AesGcmCipher, new_cipher}
use jd_relay.Crypto.Ecdsa.{EcdsaSigner, from_public_key_data, from_private_key_file, sign, verify}
use jd_relay.Crypto.Ecdh.{public_key_pem, derive_shared_secret_pem}
use jd_relay.Crypto.Codec.{CryptoCodec}
use jd_relay.Ws.Handshake.{HandshakeInit, Parsed, ok, failure, parse_handshake_init}

-- The key files' contents; `none` is a file that cannot be read.
pub record KeyFiles : Type 0 where
  pub ecdsa_priv_file : Option Bytes
  pub ecdsa_pub_file : Option Text

-- What a handshake gives.
pub record Peer (P : Primitives) : Type 0 where
  pub agent_id : Value
  pub projects : Value
  pub codec : CryptoCodec P

-- A method of `str` on a JSON value.
abbrev pub text_of : Value → Outcome Text
text_of (str t) = returned t
text_of _ = raised attribute_error

-- A value in an f-string.
abbrev pub format_value : (Value → Text) → Value → Text
format_value show (str t) = t
format_value show v = show v

abbrev pub read_init : Parsed HandshakeInit → Outcome HandshakeInit
read_init (ok init) = returned init
read_init (failure e) = raised handshake_error

-- f"{agent_id}|{ecdh_pub_pem}|{ecdsa_pub_pem}"
unfoldable pub signing_data : (Value → Text) → HandshakeInit → Text
signing_data show init =
    format_value show init.agent_id
    ++ b'|' ∷ (format_value show init.ecdh_pub_pem ++ b'|' ∷ format_value show init.ecdsa_pub_pem)

abbrev pub error_fields : Text → Dict Value
error_fields error =
    (codes "type", str (codes "HANDSHAKE_ACK"))
    ∷ (codes "status", str (codes "ERROR"))
    ∷ (codes "error", str error)
    ∷ []

abbrev pub ack_fields : Text → Text → Bytes → Dict Value
ack_fields ecdh_pub_pem ecdsa_pub_pem signature =
    (codes "type", str (codes "HANDSHAKE_ACK"))
    ∷ (codes "status", str (codes "OK"))
    ∷ (codes "ecdh_pub_pem", str ecdh_pub_pem)
    ∷ (codes "ecdsa_pub_pem", str ecdsa_pub_pem)
    ∷ (codes "signature", str (b64_encode signature))
    ∷ []

module _ (P : Primitives) (show : Value → Text) where
  -- The verifier that the opening names, and whether it verifies the opening's signature.
  unfoldable pub verify_init : HandshakeInit → Outcome (EcdsaSigner P × Bool)
  unfolding signing_data
  verify_init init = do
    pem ← text_of init.ecdsa_pub_pem
    pem_data ← or_raise unicode_error (utf8_encode pem)
    verifier ← from_public_key_data P pem_data
    encoded ← text_of init.signature_b64
    signature ← or_raise value_error (b64_decode encoded)
    payload ← or_raise unicode_error (utf8_encode (signing_data show init))
    returned (verifier, verify P verifier payload signature)

-- What the answer is made of: the shared secret, the forwarder's signer, and the message's fields.
pub record Answer (P : Primitives) : Type 0 where
  pub shared_secret : Bytes
  pub signer : EcdsaSigner P
  pub ack : Dict Value

module _ (P : Primitives) (X : KeyExchange P) where
  -- From the derivation of the shared secret on, up to the message that is sent. `ecdh` is the key that
  -- was generated, and the number is the randomness of the signature.
  unfoldable pub make_answer : KeyFiles → P.PrivateKey → ℕ → HandshakeInit → Outcome (Answer P)
  make_answer files ecdh seed init = do
    peer_pub_pem ← text_of init.ecdh_pub_pem
    shared_secret ← derive_shared_secret_pem P X ecdh peer_pub_pem
    signer ← from_private_key_file P files.ecdsa_priv_file
    fwd_pub_pem ← or_raise library_error files.ecdsa_pub_file
    payload ← or_raise unicode_error (utf8_encode (public_key_pem P X ecdh ++ b'|' ∷ fwd_pub_pem))
    returned (record {
      shared_secret = shared_secret;
      signer = signer;
      ack = ack_fields (public_key_pem P X ecdh) fwd_pub_pem (sign P signer payload seed);
    })

module _ (J : Json) (P : Primitives) (X : KeyExchange P) (show : Value → Text) {W : Type 0}
    (send_text : Text → W → Bool × W) where
  -- The error message; an exception while it is sent is ignored.
  unfoldable pub send_handshake_error : Text → W → W
  send_handshake_error error w = (send_text (J.dumps (error_fields error)) w).1

  abbrev assembled : HandshakeInit → EcdsaSigner P → EcdsaSigner P → AesGcmCipher → Peer P
  assembled init signer verifier cipher = record {
    agent_id = init.agent_id;
    projects = init.projects;
    codec = record { cipher = cipher; signer = signer; verifier = verifier; guard = new_guard };
  }

  -- After the send: the codec.
  abbrev after_ack : HandshakeInit → EcdsaSigner P → Answer P → Bool × W → Outcome (Peer P) × W
  after_ack init verifier answer (false, w) = (raised disconnected, w)
  after_ack init verifier answer (true, w) = (
    new_cipher answer.shared_secret >>= λ c. returned (assembled init answer.signer verifier c),
    w,
  )

  unfoldable pub answer_init :
      KeyFiles → P.PrivateKey → ℕ → HandshakeInit → EcdsaSigner P × Bool → W → Outcome (Peer P) × W
  unfolding make_answer send_handshake_error
  answer_init files ecdh seed init (verifier, false) w =
      (raised handshake_error, send_handshake_error (codes "Signature verification failed") w)
  answer_init files ecdh seed init (verifier, true) w =
      attempt (make_answer P X files ecdh seed init) w
        λ answer. after_ack init verifier answer (send_text (J.dumps answer.ack) w)

  -- The first message that is received; `none` is a disconnect.
  unfoldable pub do_handshake : KeyFiles → P.PrivateKey → ℕ → Option Text → W → Outcome (Peer P) × W
  unfolding answer_init
  do_handshake files ecdh seed raw w = attempt (or_raise disconnected raw) w λ text.
      attempt (read_init (parse_handshake_init J text)) w λ init.
        attempt (verify_init P show init) w λ checked. answer_init files ecdh seed init checked w
