-- ===== src/Crypto/Codec/Checks.antt =====
-- Which messages `decrypt` of forwarder/app/crypto/codec.py accepts, and what a call changes.
use jd_relay.Common.{
  ℕ, ◌≡◌, refl, ◌⊎◌, inl, inr, true, false, Option, none, some, Text, Bytes, Bool-cases,
}
use jd_relay.Common.Outcome.{
  Outcome, Exception, returned, raised, value_error, unicode_error, or_raise, attempt,
  Outcome-cases,
}
use jd_relay.Common.Json.{Json}
use jd_relay.Common.Utf8.{utf8_encode}
use jd_relay.Crypto.Primitives.{Primitives}
use jd_relay.Crypto.ReplayGuard.{is_within_window, is_replay, record_nonce}
use jd_relay.Crypto.Base64.{b64_decode}
use jd_relay.Crypto.Envelope.{CryptoEnvelope, build_signing_payload}
use jd_relay.Crypto.AesGcm
use jd_relay.Crypto.AesGcm.Laws.{decrypt-cases}
use jd_relay.Crypto.Ecdsa.{verify}
use jd_relay.Crypto.Codec.{
  DecryptResult, accepted, CryptoCodec, from_json, open_sealed, check_signature, decrypt,
}

-- The signature verifies over the payload, and the cipher opens the text.
pub record IsAuthentic (P : Primitives) (c : CryptoCodec P) (env : CryptoEnvelope) (p : Bytes)
    : Type 0 where
  pub signature : Bytes
  pub payload : Bytes
  pub ciphertext : Bytes
  pub iv : Bytes
  pub tag : Bytes
  pub signature_read : b64_decode env.signature ≡ some signature
  pub payload_read : utf8_encode (build_signing_payload env) ≡ some payload
  pub verified : verify P c.verifier payload signature ≡ true
  pub ciphertext_read : b64_decode env.ciphertext ≡ some ciphertext
  pub iv_read : b64_decode env.iv ≡ some iv
  pub tag_read : b64_decode env.tag ≡ some tag
  pub opened : AesGcm.decrypt P c.cipher ciphertext iv tag ≡ AesGcm.opened (some p)

-- The envelope is read, fresh, unseen and authentic.
pub record Passes (J : Json) (P : Primitives) (c : CryptoCodec P) (now : ℕ) (json_str : Text)
    (env : CryptoEnvelope) (p : Bytes) : Type 0 where
  pub envelope_read : from_json J json_str ≡ returned env
  pub in_window : is_within_window c.guard now env.timestamp ≡ true
  pub unseen : is_replay c.guard env.nonce ≡ false
  pub authentic : IsAuthentic P c env p

abbrev pub IsRefused : Outcome DecryptResult → Type 0
IsRefused (returned r) = r.is_ok ≡ false
IsRefused (raised e) = Unit

-- A call that accepts records the nonce; one that does not leaves the codec alone.
module _ (P : Primitives) (c : CryptoCodec P) (now : ℕ) (env : CryptoEnvelope) where
  abbrev pub Accepts : Outcome DecryptResult × CryptoCodec P → Bytes → Type 0
  Accepts r p = r ≡ (returned (accepted p), record c { guard = record_nonce c.guard now env.nonce })

module _ (P : Primitives) (c : CryptoCodec P) where
  abbrev pub Refuses : Outcome DecryptResult × CryptoCodec P → Type 0
  Refuses r = IsRefused r.0 × (r.1 ≡ c)

-- A result that accepts an authentic envelope, or refuses.
abbrev Decides :
    (P : Primitives) (c : CryptoCodec P)
    → ℕ
    → CryptoEnvelope
    → Outcome DecryptResult × CryptoCodec P
    → Type 0
Decides P c now env r =
    ((p : Bytes) × IsAuthentic P c env p × Accepts P c now env r p) ⊎ Refuses P c r

-- A step that may raise refuses if it does.
attempt-Decides :
    (P : Primitives) (c : CryptoCodec P) (now : ℕ) (env : CryptoEnvelope) (o : Option Bytes)
    (x : Exception) (k : Bytes → Outcome DecryptResult × CryptoCodec P)
    → ((b : Bytes) → o ≡ some b → Decides P c now env (k b))
    → Decides P c now env (attempt (or_raise x o) c k)
attempt-Decides P c now env none x k h = inr (tt, refl)
attempt-Decides P c now env (some b) x k h = h b refl

check_signature-cases :
    (P : Primitives) (c : CryptoCodec P) (now : ℕ) (env : CryptoEnvelope)
    → Decides P c now env (check_signature P c now env)
unfolding check_signature
check_signature-cases P c now env =
    attempt-Decides P c now env (b64_decode env.signature) value_error _ λ signature s.
      attempt-Decides P c now env (utf8_encode (build_signing_payload env)) unicode_error _
        λ payload u. elim (Bool-cases (verify P c.verifier payload signature)) [
          | inr v ↦ rw v (inr (refl, refl))
          | inl v ↦ rw v (
              attempt-Decides P c now env (b64_decode env.ciphertext) value_error _ λ ciphertext t.
                attempt-Decides P c now env (b64_decode env.iv) value_error _ λ iv i.
                  attempt-Decides P c now env (b64_decode env.tag) value_error _ λ tag g.
                    elim (decrypt-cases P c.cipher ciphertext iv tag) [
                      | inl f ↦ unfold open_sealed in rw f (inr (refl, refl))
                      | inr (p, o) ↦ inl (
                        p,
                        record {
                          signature = signature;
                          payload = payload;
                          ciphertext = ciphertext;
                          iv = iv;
                          tag = tag;
                          signature_read = s;
                          payload_read = u;
                          verified = v;
                          ciphertext_read = t;
                          iv_read = i;
                          tag_read = g;
                          opened = o;
                        },
                        unfold open_sealed in rw o refl,
                      )
                    ])
        ]

authentic_accepted :
    (P : Primitives) (c : CryptoCodec P) (now : ℕ) (env : CryptoEnvelope) (p : Bytes)
    → IsAuthentic P c env p
    → Accepts P c now env (check_signature P c now env) p
unfolding check_signature open_sealed
authentic_accepted P c now env p a =
    rw
      (
        a.signature_read, a.payload_read, a.verified, a.ciphertext_read, a.iv_read, a.tag_read,
        a.opened,
      )
      refl

-- A message that passes all checks is accepted.
pub Passes-accepted :
    (J : Json) (P : Primitives) (c : CryptoCodec P) (now now' : ℕ) (json_str : Text)
    (env : CryptoEnvelope) (p : Bytes)
    → Passes J P c now json_str env p
    → Accepts P c now' env (decrypt J P c now now' json_str) p
unfolding decrypt
Passes-accepted J P c now now' json_str env p h =
    rw (h.envelope_read, h.in_window, h.unseen) (authentic_accepted P c now' env p h.authentic)

-- Every call accepts a message that passes all checks, returns its plaintext and records its nonce,
-- or else it raises or reports an error, and leaves the codec as it was.
pub decrypt_decides :
    (J : Json) (P : Primitives) (c : CryptoCodec P) (now now' : ℕ) (json_str : Text)
    → ((env : CryptoEnvelope) × (p : Bytes) × Passes J P c now json_str env p
        × Accepts P c now' env (decrypt J P c now now' json_str) p)
      ⊎ Refuses P c (decrypt J P c now now' json_str)
unfolding decrypt
decrypt_decides J P c now now' json_str = elim (Outcome-cases (from_json J json_str)) [
  | inr (x, e) ↦ rw e (inr (tt, refl))
  | inl (env, e) ↦ elim (Bool-cases (is_within_window c.guard now env.timestamp)) [
    | inr w ↦ inr (rw (e, w) (refl, refl))
    | inl w ↦ elim (Bool-cases (is_replay c.guard env.nonce)) [
      | inl n ↦ inr (rw (e, w, n) (refl, refl))
      | inr n ↦ elim (check_signature-cases P c now' env) [
        | inl (p, a, r) ↦ inl (
          env,
          p,
          record { envelope_read = e; in_window = w; unseen = n; authentic = a },
          rw (e, w, n) r,
        )
        | inr f ↦ inr (rw (e, w, n) f)
      ]
    ]
  ]
]
