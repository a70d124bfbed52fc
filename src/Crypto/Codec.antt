-- ===== src/Crypto/Codec.antt =====
-- The codec that ties cipher, signer, verifier and replay guard together,
-- forwarder/app/crypto/codec.py. An error message is a `Rejection` with what it prints; what
-- `encrypt` takes from the outside (identifiers, clock, random bytes) is the record `Fresh`. An
-- envelope field of an unexpected JSON type counts as a TypeError when the envelope is read.
pub mod Checks
pub mod Channel
pub mod RoundTrip
use jd_relay.Common.{
  ℕ, Bool, true, false, not, [], ◌∷◌, Option, none, some, Text, Bytes, codes, if◌then◌else◌,
}
use jd_relay.Common.Int.{ℤ, pos}
use jd_relay.Common.Dict.{Dict, lookup}
use jd_relay.Common.Outcome.{
  Outcome, returned, raised, value_error, type_error, attribute_error, runtime_error, unicode_error,
  ◌>>=◌, ◌>>◌, or_raise, unless, attempt,
}
use jd_relay.Common.Json.{Value, str, int, strs, other, Document, object, not_object, Json}
use jd_relay.Common.Utf8.{utf8_encode}
use jd_relay.Crypto.Primitives.{Primitives}
use jd_relay.Crypto.ReplayGuard.{ReplayGuard, is_within_window, is_replay, record_nonce}
use jd_relay.Crypto.Base64.{b64_encode, b64_decode}
use jd_relay.Crypto.Envelope.{CryptoEnvelope, MessageType, type_value, build_signing_payload}
use jd_relay.Crypto.AesGcm
use jd_relay.Crypto.AesGcm.{AesGcmCipher, CipherError, EncryptResult}
use jd_relay.Crypto.Ecdsa.{EcdsaSigner, sign, verify}

-- The message identifier that an error names stands with each of its cases.
pub data Rejection : Type 0 where
  outside_window replay_detected bad_signature : Text → Rejection
  decryption_failed : Option CipherError → Text → Rejection

pub record DecryptResult : Type 0 where
  pub plaintext : Bytes
  pub is_ok : Bool
  pub error : Option Rejection

abbrev pub rejected : Rejection → DecryptResult
rejected e = record { plaintext = []; is_ok = false; error = some e }

abbrev pub accepted : Bytes → DecryptResult
accepted p = record { plaintext = p; is_ok = true; error = none }

pub record CryptoCodec (P : Primitives) : Type 0 where
  pub cipher : AesGcmCipher
  pub signer : EcdsaSigner P
  pub verifier : EcdsaSigner P
  pub guard : ReplayGuard

pub record Fresh : Type 0 where
  pub uuid : Text
  pub now : ℕ
  pub nonce_bytes : Bytes
  pub iv_bytes : Bytes
  pub seed : ℕ

-- The fields of `to_json`, in its order.
abbrev pub fields_of : CryptoEnvelope → Dict Value
fields_of env =
    (codes "msg_id", str env.msg_id)
    ∷ (codes "timestamp", int env.timestamp)
    ∷ (codes "nonce", str env.nonce)
    ∷ (codes "type", str env.type)
    ∷ (codes "iv", str env.iv)
    ∷ (codes "ciphertext", str env.ciphertext)
    ∷ (codes "tag", str env.tag)
    ∷ (codes "signature", str env.signature)
    ∷ []

-- `j.get(key, "")` and `j.get(key, 0)`
abbrev pub text_field : Option Value → Outcome Text
text_field none = returned []
text_field (some (str s)) = returned s
text_field (some _) = raised type_error

abbrev pub int_field : Option Value → Outcome ℤ
int_field none = returned (pos 0)
int_field (some (int n)) = returned n
int_field (some _) = raised type_error

unfoldable pub envelope_of : Dict Value → Outcome CryptoEnvelope
envelope_of j = do
  msg_id ← text_field (lookup (codes "msg_id") j)
  timestamp ← int_field (lookup (codes "timestamp") j)
  nonce ← text_field (lookup (codes "nonce") j)
  type ← text_field (lookup (codes "type") j)
  iv ← text_field (lookup (codes "iv") j)
  ciphertext ← text_field (lookup (codes "ciphertext") j)
  tag ← text_field (lookup (codes "tag") j)
  signature ← text_field (lookup (codes "signature") j)
  returned (record {
    msg_id = msg_id;
    timestamp = timestamp;
    nonce = nonce;
    type = type;
    iv = iv;
    ciphertext = ciphertext;
    tag = tag;
    signature = signature;
  })

abbrev pub document_envelope : Option Document → Outcome CryptoEnvelope
document_envelope none = raised value_error
document_envelope (some not_object) = raised attribute_error
document_envelope (some (object j)) = envelope_of j

module _ (J : Json) where
  unfoldable pub to_json : CryptoEnvelope → Text
  to_json env = J.dumps (fields_of env)

  unfoldable pub from_json : Text → Outcome CryptoEnvelope
  from_json json_str = document_envelope (J.loads json_str)

-- The envelope before it is signed.
unfoldable pub unsigned : MessageType → Fresh → EncryptResult → CryptoEnvelope
unsigned msg_type fresh enc = record {
  msg_id = fresh.uuid;
  timestamp = pos fresh.now;
  nonce = b64_encode fresh.nonce_bytes;
  type = type_value msg_type;
  iv = b64_encode enc.iv;
  ciphertext = b64_encode enc.ciphertext;
  tag = b64_encode enc.tag;
  signature = [];
}

module _ (P : Primitives) where
  -- The last two steps: decrypt, then record the nonce. The clock is read by the recording.
  unfoldable pub open_sealed :
      CryptoCodec P
      → ℕ
      → CryptoEnvelope
      → Bytes
      → Bytes
      → Bytes
      → Outcome DecryptResult × CryptoCodec P
  open_sealed c now env ciphertext iv tag =
      let dec = AesGcm.decrypt P c.cipher ciphertext iv tag in
      if not dec.is_ok then (returned (rejected (decryption_failed dec.error env.msg_id)), c) else (
        returned (accepted dec.plaintext),
        record c { guard = record_nonce c.guard now env.nonce },
      )

  -- From the signature check on.
  unfoldable pub check_signature :
      CryptoCodec P → ℕ → CryptoEnvelope → Outcome DecryptResult × CryptoCodec P
  unfolding open_sealed
  check_signature c now env =
      attempt (or_raise value_error (b64_decode env.signature)) c λ signature.
        attempt (or_raise unicode_error (utf8_encode (build_signing_payload env))) c λ payload.
          if not (verify P c.verifier payload signature)
          then (returned (rejected (bad_signature env.msg_id)), c)
          else attempt (or_raise value_error (b64_decode env.ciphertext)) c λ ciphertext.
            attempt (or_raise value_error (b64_decode env.iv)) c λ iv.
              attempt (or_raise value_error (b64_decode env.tag)) c
                λ tag. open_sealed c now env ciphertext iv tag

module _ (J : Json) (P : Primitives) where
  unfoldable pub encrypt : CryptoCodec P → Bytes → MessageType → Fresh → Outcome Text
  unfolding unsigned
  encrypt c plaintext msg_type fresh = do
    let enc = AesGcm.encrypt P c.cipher plaintext none fresh.iv_bytes
    unless enc.is_ok runtime_error
    let env = unsigned msg_type fresh enc
    payload ← or_raise unicode_error (utf8_encode (build_signing_payload env))
    returned
        (to_json J (record env { signature = b64_encode (sign P c.signer payload fresh.seed) }))

  -- The clock is read by the window check and by the recording of the nonce.
  unfoldable pub decrypt : CryptoCodec P → ℕ → ℕ → Text → Outcome DecryptResult × CryptoCodec P
  unfolding check_signature
  decrypt c now now' json_str = attempt (from_json J json_str) c λ env.
      if not (is_within_window c.guard now env.timestamp)
      then (returned (rejected (outside_window env.msg_id)), c)
      else if is_replay c.guard env.nonce
      then (returned (rejected (replay_detected env.msg_id)), c)
      else check_signature P c now' env
