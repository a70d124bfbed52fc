-- ===== src/DingTalk/Signature.antt =====
-- Which callback signatures forwarder/app/services/dingtalk.py accepts.
use jd_relay.Common.{
  is_ascii, ℕ, ◌≤◌, ◌≡◌, refl, ◌↔◌, inl, inr, true, false, ◌∷◌, ◌++◌, Option, some, Text, Bytes,
  arith, Option-cases, is_truthy, ltb, text_eq_iff, text_eq_refl,
}
use jd_relay.Common.Int.{ℤ}
use jd_relay.Common.Outcome.{returned}
use jd_relay.Common.Utf8.{utf8_encode}
use jd_relay.Crypto.Base64.{standard_encode}
use jd_relay.Crypto.Base64.RoundTrip.{is_ascii-plain, standard_encode-IsPlain}
use jd_relay.DingTalk.{DingTalkService, distance, compare_digest, verify_signature}

-- A secret is configured, the timestamp is a number at most five minutes away from the clock, and the
-- signature is the Base64 text of the HMAC over timestamp and nonce.
pub record IsSigned (hmac : Bytes → Bytes → Bytes) (to_int : Text → Option ℤ) (s : DingTalkService)
    (now : ℕ) (timestamp nonce signature : Text) : Type 0 where
  pub ts : ℤ
  pub secret : Bytes
  pub message : Bytes
  pub configured : is_truthy s.app_secret ≡ true
  pub timestamp_read : to_int timestamp ≡ some ts
  pub recent : distance now ts ≤ 300000
  pub secret_read : utf8_encode s.app_secret ≡ some secret
  pub message_read : utf8_encode (timestamp ++ b'\n' ∷ nonce) ≡ some message
  pub matches : signature ≡ standard_encode (hmac secret message)

compare_digest-true : (a b : Text) → compare_digest a b ≡ returned true → b ≡ a
unfolding compare_digest
compare_digest-true a b h = ground (arith, text_eq_iff a b)

compare_digest_self : (a : Text) → is_ascii a ≡ true → compare_digest a a ≡ returned true
unfolding compare_digest
compare_digest_self a h = rw (h, text_eq_refl a) refl

module _ (hmac : Bytes → Bytes → Bytes) (to_int : Text → Option ℤ) (s : DingTalkService) (now : ℕ)
    (timestamp nonce signature : Text) where
  signed :
      verify_signature hmac to_int s now timestamp nonce signature ≡ returned true
      → IsSigned hmac to_int s now timestamp nonce signature
  unfolding verify_signature
  signed h = elim (Option-cases (to_int timestamp)) [
    | inl n ↦ absurd (ground arith)
    | inr (ts, t) ↦ elim (Option-cases (utf8_encode s.app_secret)) [
      | inl n ↦ absurd (ground arith)
      | inr (secret, k) ↦ elim (Option-cases (utf8_encode (timestamp ++ b'\n' ∷ nonce))) [
        | inl n ↦ absurd (ground arith)
        | inr (message, m) ↦ record {
          ts = ts;
          secret = secret;
          message = message;
          configured = ground arith;
          timestamp_read = t;
          recent = ground arith;
          secret_read = k;
          message_read = m;
          matches =
              compare_digest-true (standard_encode (hmac secret message)) signature (ground arith);
        }
      ]
    ]
  ]

  verified :
      IsSigned hmac to_int s now timestamp nonce signature
      → verify_signature hmac to_int s now timestamp nonce signature ≡ returned true
  unfolding verify_signature
  verified h =
      let near : ltb 300000 (distance now h.ts) ≡ false = ground (arith, h.recent) in
      rw (h.configured, h.timestamp_read, near, h.secret_read, h.message_read, h.matches)
        (compare_digest_self (standard_encode (hmac h.secret h.message))
          (is_ascii-plain _ (standard_encode-IsPlain (hmac h.secret h.message))))

  -- A callback's signature is accepted exactly if a secret is configured, the timestamp is a number at
  -- most five minutes away from the clock, and the signature is that of timestamp and nonce.
  pub verify_signature-iff-IsSigned :
      (verify_signature hmac to_int s now timestamp nonce signature ≡ returned true)
      ↔ IsSigned hmac to_int s now timestamp nonce signature
  verify_signature-iff-IsSigned = (signed, verified)
