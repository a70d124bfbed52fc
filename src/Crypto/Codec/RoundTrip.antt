-- ===== src/Crypto/Codec/RoundTrip.antt =====
-- What one end of the channel of forwarder/app/crypto/codec.py encrypts, the other end decrypts.
use jd_relay.Common.{
  ℕ, suc, ◌-◌, ◌≡◌, refl, ◌∙◌, true, false, [], ◌∷◌, some, Text, Bytes, IsBytes, IsAscii, All,
  All-imp, All-join, All-take, All-drop, length, arith, text_eq,
}
use jd_relay.Common.Int.{ℤ, pos, negsuc}
use jd_relay.Common.Decimal.{str, digits, digits-IsDigit, IsDigit}
use jd_relay.Common.Dict.{lookup}
use jd_relay.Common.Outcome.{returned}
use jd_relay.Common.Json.{Json}
use jd_relay.Common.Utf8.{utf8_encode-ascii}
use jd_relay.Crypto.Primitives.{Primitives, Correct}
use jd_relay.Crypto.ReplayGuard.{is_within_window, is_replay, record_nonce}
use jd_relay.Crypto.Base64.{b64_encode}
use jd_relay.Crypto.Base64.RoundTrip.{b64_decode-encode, b64_encode-IsEncoded, IsEncoded}
use jd_relay.Crypto.Envelope.{
  CryptoEnvelope, MessageType, build_trigger, type_value, signed_fields, build_signing_payload,
}
use jd_relay.Crypto.AesGcm.{split_tag, EncryptResult}
use jd_relay.Crypto.AesGcm.Laws.{encrypts_at, opens}
use jd_relay.Crypto.Ecdsa.{sign, verifying_key, verify_at}
use jd_relay.Crypto.Codec.{
  CryptoCodec, accepted, Fresh, unsigned, fields_of, envelope_of, to_json, from_json, encrypt,
  decrypt,
}
use jd_relay.Crypto.Codec.Checks.{IsAuthentic, Passes-accepted}

-- The eight fields of an envelope are read back as they were written.
envelope_of-fields_of : (env : CryptoEnvelope) → envelope_of (fields_of env) ≡ returned env
unfolding envelope_of lookup text_eq
envelope_of-fields_of env = refl

pub from_json-to_json :
    (J : Json) (env : CryptoEnvelope) → from_json J (to_json J env) ≡ returned env
unfolding from_json to_json
from_json-to_json J env = rw (J.loads-dumps (fields_of env)) (envelope_of-fields_of env)

str-IsAscii : (n : ℤ) → All IsAscii (str n)
unfolding str
str-IsAscii (pos n) = All-imp IsDigit IsAscii (digits n) (λ c h. omega arith) (digits-IsDigit n)
str-IsAscii (negsuc n) =
    (omega arith, All-imp IsDigit IsAscii _ (λ c h. omega arith) (digits-IsDigit (suc n)))

type_value-IsAscii : (m : MessageType) → All IsAscii (type_value m)
unfolding type_value
type_value-IsAscii build_trigger = omega arith
type_value-IsAscii _ = omega arith

b64-IsAscii : (d : Bytes) → All IsAscii (b64_encode d)
b64-IsAscii d =
    All-imp IsEncoded IsAscii (b64_encode d) (λ c h. omega arith) (b64_encode-IsEncoded d)

payload-IsAscii :
    (type : MessageType) (fresh : Fresh) (enc : EncryptResult)
    → All IsAscii fresh.uuid
    → All IsAscii (build_signing_payload (unsigned type fresh enc))
unfolding build_signing_payload unsigned
payload-IsAscii type fresh enc h =
    All-join IsAscii (b'|' ∷ []) (signed_fields (unsigned type fresh enc)) (omega arith) (
      h,
      (
        str-IsAscii (pos fresh.now),
        (
          b64-IsAscii fresh.nonce_bytes,
          (
            type_value-IsAscii type,
            (b64-IsAscii enc.iv, (b64-IsAscii enc.ciphertext, (b64-IsAscii enc.tag, tt))),
          ),
        ),
      ),
    )

module _ (J : Json) (P : Primitives) (correct : Correct P) where
  -- The envelope that the sender with key `k` makes of an encryption result.
  abbrev sealed_envelope : P.PrivateKey → MessageType → Fresh → EncryptResult → CryptoEnvelope
  sealed_envelope k type fresh enc =
      let env = unsigned type fresh enc in
      record env { signature = b64_encode (P.ecdsa_sign k (build_signing_payload env) fresh.seed) }

  encrypts :
      (a : CryptoCodec P) (k : P.PrivateKey) (plaintext : Bytes) (type : MessageType)
      (fresh : Fresh) (ct : Bytes)
      → a.signer.private_key ≡ some k
      → All IsAscii fresh.uuid
      → length fresh.iv_bytes ≡ 12
      → P.aead_encrypt a.cipher.key fresh.iv_bytes plaintext ≡ some ct
      → encrypt J P a plaintext type fresh
        ≡ returned (to_json J (sealed_envelope k type fresh (split_tag fresh.iv_bytes (some ct))))
  unfolding encrypt
  encrypts a k plaintext type fresh ct key ascii size made =
      rw (encrypts_at P a.cipher plaintext fresh.iv_bytes size, made)
        (rw
          (utf8_encode-ascii _
            (payload-IsAscii type fresh (split_tag fresh.iv_bytes (some ct)) ascii))
          (unfold sign in rw key refl))

  IsAuthentic-sealed :
      (a b : CryptoCodec P) (k : P.PrivateKey) (plaintext : Bytes) (type : MessageType)
      (fresh : Fresh) (ct : Bytes)
      → verifying_key P b.verifier ≡ some (P.public_key k)
      → b.cipher ≡ a.cipher
      → All IsAscii fresh.uuid
      → length fresh.iv_bytes ≡ 12
      → IsBytes fresh.iv_bytes
      → P.aead_encrypt a.cipher.key fresh.iv_bytes plaintext ≡ some ct
      → IsAuthentic P b
          (sealed_envelope k type fresh (split_tag fresh.iv_bytes (some ct)))
          plaintext
  IsAuthentic-sealed a b k plaintext type fresh ct key same ascii size bytes made =
      let enc = split_tag fresh.iv_bytes (some ct) in
      let payload = build_signing_payload (unsigned type fresh enc) in
      let is_bytes = correct.aead_encrypt-IsBytes a.cipher.key fresh.iv_bytes plaintext made in
      record {
        signature = P.ecdsa_sign k payload fresh.seed;
        payload = payload;
        ciphertext = enc.ciphertext;
        iv = fresh.iv_bytes;
        tag = enc.tag;
        signature_read = b64_decode-encode _ (correct.ecdsa_sign-IsBytes k payload fresh.seed);
        payload_read =
            unfold build_signing_payload in
            utf8_encode-ascii payload (payload-IsAscii type fresh enc ascii);
        verified =
            verify_at P b.verifier payload (P.ecdsa_sign k payload fresh.seed) key
            ∙ correct.ecdsa_verify-sign k payload fresh.seed;
        ciphertext_read =
            unfold unsigned in
            b64_decode-encode enc.ciphertext (All-take _ (length ct - 16) ct is_bytes);
        iv_read = unfold unsigned in b64_decode-encode fresh.iv_bytes bytes;
        tag_read =
            unfold unsigned in b64_decode-encode enc.tag (All-drop _ (length ct - 16) ct is_bytes);
        opened = rw same (opens P correct a.cipher plaintext fresh.iv_bytes ct size made);
      }

  -- The text that an end sends, with the envelope that it carries, and what the other end makes of it.
  pub channel_sends :
      (a b : CryptoCodec P) (k : P.PrivateKey) (plaintext : Bytes) (type : MessageType)
      (fresh : Fresh) (ct : Bytes) (now now' : ℕ)
      → a.signer.private_key ≡ some k
      → verifying_key P b.verifier ≡ some (P.public_key k)
      → b.cipher ≡ a.cipher
      → All IsAscii fresh.uuid
      → length fresh.iv_bytes ≡ 12
      → IsBytes fresh.iv_bytes
      → P.aead_encrypt a.cipher.key fresh.iv_bytes plaintext ≡ some ct
      → is_within_window b.guard now (pos fresh.now) ≡ true
      → is_replay b.guard (b64_encode fresh.nonce_bytes) ≡ false
      → (message : Text) × (encrypt J P a plaintext type fresh ≡ returned message)
        × (env : CryptoEnvelope) × (from_json J message ≡ returned env)
        × (env.type ≡ type_value type)
        × (decrypt J P b now now' message ≡ (
          returned (accepted plaintext),
          record b { guard = record_nonce b.guard now' (b64_encode fresh.nonce_bytes) },
        ))
  channel_sends a b k plaintext type fresh ct now now' key peer same ascii size bytes made inside
        unseen =
      let env = sealed_envelope k type fresh (split_tag fresh.iv_bytes (some ct)) in
      (
        to_json J env,
        encrypts a k plaintext type fresh ct key ascii size made,
        env,
        from_json-to_json J env,
        unfold unsigned in refl,
        unfold unsigned in
            Passes-accepted J P b now now' (to_json J env) env plaintext (record {
              envelope_read = from_json-to_json J env;
              in_window = inside;
              unseen = unseen;
              authentic =
                  IsAuthentic-sealed a b k plaintext type fresh ct peer same ascii size bytes made;
            }),
      )

  -- A message that one end encrypts is accepted by an end with the same session key that verifies
  -- with the sender's public key, for a message in its window and a nonce that it has not seen: the
  -- encryption returns a text, and decrypting it gives the plaintext and records the nonce. The
  -- identifier is ASCII, the random IV has 12 bytes, and the library's encryption succeeds.
  pub channel_delivers :
      (a b : CryptoCodec P) (k : P.PrivateKey) (plaintext : Bytes) (type : MessageType)
      (fresh : Fresh) (ct : Bytes) (now now' : ℕ)
      → a.signer.private_key ≡ some k
      → verifying_key P b.verifier ≡ some (P.public_key k)
      → b.cipher ≡ a.cipher
      → All IsAscii fresh.uuid
      → length fresh.iv_bytes ≡ 12
      → IsBytes fresh.iv_bytes
      → P.aead_encrypt a.cipher.key fresh.iv_bytes plaintext ≡ some ct
      → is_within_window b.guard now (pos fresh.now) ≡ true
      → is_replay b.guard (b64_encode fresh.nonce_bytes) ≡ false
      → (message : Text) × (encrypt J P a plaintext type fresh ≡ returned message)
        × (decrypt J P b now now' message ≡ (
          returned (accepted plaintext),
          record b { guard = record_nonce b.guard now' (b64_encode fresh.nonce_bytes) },
        ))
  channel_delivers a b k plaintext type fresh ct now now' key peer same ascii size bytes made inside
        unseen =
      let (message, encrypted, env, read, kind, decrypted) =
        channel_sends a b k plaintext type fresh ct now now' key peer same ascii size bytes made
          inside unseen in
      (message, encrypted, decrypted)
