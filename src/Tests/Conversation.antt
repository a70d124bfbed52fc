-- ===== src/Tests/Conversation.antt =====
-- A message from one end of the channel to the other, and the same message again.
use jd_relay.Common.{
  ◌≡◌, refl, ◌⊎◌, [], ◌∷◌, none, some, Text, Bytes, codes, text_eq, arith, ◌++◌, ap, drop,
}
use jd_relay.Common.Outcome.{returned}
use jd_relay.Common.Dict.{lookup}
use jd_relay.Crypto.ReplayGuard.{ReplayGuard, is_within_window, is_replay, record_nonce}
use jd_relay.Crypto.Base64.{b64_encode, b64_decode}
use jd_relay.Crypto.Envelope.{CryptoEnvelope, build_trigger, type_value, build_signing_payload}
use jd_relay.Crypto.AesGcm.{AesGcmCipher, split_tag}
use jd_relay.Crypto.Ecdsa.{verify, verifying_key, no_keys}
use jd_relay.Common.Utf8.{utf8_encode}
use jd_relay.Common.Decimal.{str}
use jd_relay.Crypto.AesGcm
use jd_relay.Crypto.Codec.{unsigned, CryptoCodec, Fresh, accepted, encrypt, decrypt, to_json}
use jd_relay.Crypto.Codec.Checks.{
  IsAuthentic, Passes-accepted, Passes, Accepts, Refuses, decrypt_decides,
}
use jd_relay.Crypto.Codec.Channel.{deliver, accepted_once}
use jd_relay.Crypto.Codec.RoundTrip.{channel_delivers, from_json-to_json}
use jd_relay.Tests.Keys.{keys, keys-Correct}
use jd_relay.Tests.Wire.{wire}

abbrev cipher : AesGcmCipher
cipher = record { key = codes "0123456789abcdef0123456789abcdef" }

abbrev guard : ReplayGuard
guard = record { window_seconds = 300; nonces = [] }

abbrev pub agent : CryptoCodec keys
agent = record {
  cipher = cipher;
  signer = record { private_key = some 7; public_key = none };
  verifier = no_keys keys;
  guard = guard;
}

abbrev pub server : CryptoCodec keys
server = record {
  cipher = cipher;
  signer = no_keys keys;
  verifier = record { private_key = none; public_key = some 7 };
  guard = guard;
}

abbrev pub fresh : Fresh
fresh = record {
  uuid = codes "id-1";
  now = 500000;
  nonce_bytes = 1 ∷ 2 ∷ 3 ∷ 4 ∷ [];
  iv_bytes = codes "twelve bytes";
  seed = 9;
}

abbrev ciphertext : Bytes
ciphertext = codes "build" ++ (0 ∷ 0 ∷ 0 ∷ 0 ∷ 0 ∷ 0 ∷ 0 ∷ 0 ∷ 0 ∷ 0 ∷ 0 ∷ 0 ∷ 0 ∷ 0 ∷ 0 ∷ 0 ∷ [])

abbrev server_after : CryptoCodec keys
server_after = record server {
  guard = record_nonce server.guard 500020 (b64_encode fresh.nonce_bytes);
}

channel_delivers_example :
    (message : Text) × (encrypt wire keys agent (codes "build") build_trigger fresh
      ≡ returned message)
    × (decrypt wire keys server 500010 500020 message
        ≡ (returned (accepted (codes "build")), server_after))
unfolding verifying_key is_within_window is_replay lookup
channel_delivers_example =
    channel_delivers wire keys keys-Correct agent server 7 (codes "build") build_trigger fresh
      ciphertext 500010 500020 refl refl refl (omega arith) refl (omega arith) refl refl refl

-- The envelope that the agent made, and the text that carries it.
abbrev pub envelope : CryptoEnvelope
envelope = record (unsigned build_trigger fresh (split_tag fresh.iv_bytes (some ciphertext))) {
  signature = b64_encode (7 ∷ 9 ∷ []);
}

abbrev pub message : Text
message = to_json wire envelope

envelope-IsAuthentic : IsAuthentic keys server envelope (codes "build")
unfolding unsigned b64_encode b64_decode build_signing_payload utf8_encode verify verifying_key
    AesGcm.decrypt text_eq str type_value
envelope-IsAuthentic = record {
  signature = 7 ∷ 9 ∷ [];
  payload = build_signing_payload envelope;
  ciphertext = codes "build";
  iv = fresh.iv_bytes;
  tag = drop 5 ciphertext;
  signature_read = refl;
  payload_read = refl;
  verified = refl;
  ciphertext_read = refl;
  iv_read = refl;
  tag_read = refl;
  opened = refl;
}

envelope-Passes : Passes wire keys server 500010 message envelope (codes "build")
unfolding is_within_window is_replay lookup
envelope-Passes = record {
  envelope_read = from_json-to_json wire envelope;
  in_window = unfold unsigned in refl;
  unseen = refl;
  authentic = envelope-IsAuthentic;
}

decrypt_decides_example :
    ((env : CryptoEnvelope) × (p : Bytes) × Passes wire keys server 500010 message env p
      × Accepts keys server 500020 env (decrypt wire keys server 500010 500020 message) p)
    ⊎ Refuses keys server (decrypt wire keys server 500010 500020 message)
decrypt_decides_example = decrypt_decides wire keys server 500010 500020 message

pub message-accepted :
    (decrypt wire keys server 500010 500020 message).0 ≡ returned (accepted (codes "build"))
message-accepted =
    ap (λ r. r.0)
      (Passes-accepted wire keys server 500010 500020 message envelope (codes "build")
        envelope-Passes)

-- The server after the message and a second, broken one.
abbrev server_later : CryptoCodec keys
server_later =
    deliver wire keys (decrypt wire keys server 500010 500020 message).1 ((500030, 500040, []) ∷ [])

accepted_once_example :
    Refuses keys server_later (decrypt wire keys server_later 500050 500060 message)
accepted_once_example =
    accepted_once wire keys server 500010 500020 message (codes "build") envelope
      (from_json-to_json wire envelope) message-accepted ((500030, 500040, []) ∷ []) 500050 500060
      message envelope (from_json-to_json wire envelope) refl
