-- ===== src/Crypto/Codec/Channel.antt =====
-- The codec of forwarder/app/crypto/codec.py over a whole conversation: what was accepted once is
-- never accepted again.
use jd_relay.Common.{
  ℕ, ◌≡◌, refl, inl, inr, true, List, [], ◌∷◌, Text, Bytes, arith, text_eq, text_eq_refl,
  if◌then◌else◌,
}
use jd_relay.Common.Dict.{lookup-insert}
use jd_relay.Common.Outcome.{Outcome, returned, raised}
use jd_relay.Common.Json.{Json}
use jd_relay.Crypto.Primitives.{Primitives}
use jd_relay.Crypto.ReplayGuard.{ReplayGuard, is_replay, record_nonce}
use jd_relay.Crypto.Envelope.{CryptoEnvelope}
use jd_relay.Crypto.Codec.{CryptoCodec, DecryptResult, accepted, from_json, decrypt}
use jd_relay.Crypto.Codec.Checks.{IsRefused, Refuses, decrypt_decides}

is_replay-record_nonce :
    (g : ReplayGuard) (now : ℕ) (k nonce : Text)
    → is_replay (record_nonce g now k) nonce ≡ (if text_eq k nonce then true else is_replay g nonce)
unfolding is_replay record_nonce
is_replay-record_nonce g now k nonce = rw lookup-insert (ground arith)

refused_ne_accepted :
    (o : Outcome DecryptResult) (p : Bytes) → o ≡ returned (accepted p) → IsRefused o → ⊥
refused_ne_accepted (returned r) p e h = ground arith
refused_ne_accepted (raised x) p e h = cc

module _ (J : Json) (P : Primitives) where
  -- The codec after a conversation: each message with the two readings of the clock.
  pub deliver : CryptoCodec P → List (ℕ × ℕ × Text) → CryptoCodec P
  deliver c [] = c
  deliver c ((now, now', message) ∷ rest) = deliver (decrypt J P c now now' message).1 rest

  pub seen_stays :
      (c : CryptoCodec P) (now now' : ℕ) (message nonce : Text)
      → is_replay c.guard nonce ≡ true
      → is_replay (decrypt J P c now now' message).1.guard nonce ≡ true
  seen_stays c now now' message nonce seen = elim (decrypt_decides J P c now now' message) [
    | inl (env, p, passed, a) ↦
        rw a (rw (is_replay-record_nonce c.guard now' env.nonce nonce) (ground arith))
    | inr r ↦ rw (r.1) seen
  ]

  seen_throughout :
      (c : CryptoCodec P) (messages : List (ℕ × ℕ × Text)) (nonce : Text)
      → is_replay c.guard nonce ≡ true
      → is_replay (deliver c messages).guard nonce ≡ true
  unfolding deliver
  seen_throughout c [] nonce seen = seen
  seen_throughout c ((now, now', message) ∷ rest) nonce seen =
      seen_throughout (decrypt J P c now now' message).1 rest nonce
        (seen_stays c now now' message nonce seen)

  pub seen_refused :
      (c : CryptoCodec P) (now now' : ℕ) (message : Text) (env : CryptoEnvelope)
      → from_json J message ≡ returned env
      → is_replay c.guard env.nonce ≡ true
      → Refuses P c (decrypt J P c now now' message)
  seen_refused c now now' message env e seen = elim (decrypt_decides J P c now now' message) [
    | inl (env', p, passed, a) ↦ absurd (cc (passed.envelope_read, passed.unseen))
    | inr r ↦ r
  ]

  pub recorded :
      (c : CryptoCodec P) (now now' : ℕ) (message : Text) (p : Bytes) (env : CryptoEnvelope)
      → from_json J message ≡ returned env
      → (decrypt J P c now now' message).0 ≡ returned (accepted p)
      → is_replay (decrypt J P c now now' message).1.guard env.nonce ≡ true
  recorded c now now' message p env e ok = elim (decrypt_decides J P c now now' message) [
    | inl (env', q, passed, a) ↦
        let same : env' ≡ env = cc (passed.envelope_read) in
        rw a (
          rw (is_replay-record_nonce c.guard now' env'.nonce env.nonce)
            (rw same (rw (text_eq_refl env.nonce) refl)))
    | inr r ↦ absurd (refused_ne_accepted (decrypt J P c now now' message).0 p ok r.0)
  ]

  -- Once a message was accepted, no message with its nonce is ever accepted again: after any later
  -- conversation, decrypting one raises or reports an error, and leaves the codec as it was.
  pub accepted_once :
      (c : CryptoCodec P) (now now' : ℕ) (message : Text) (p : Bytes) (env : CryptoEnvelope)
      → from_json J message ≡ returned env
      → (decrypt J P c now now' message).0 ≡ returned (accepted p)
      → (messages : List (ℕ × ℕ × Text)) (later later' : ℕ) (message' : Text)
        (env' : CryptoEnvelope)
      → from_json J message' ≡ returned env'
      → env'.nonce ≡ env.nonce
      → let c' = deliver (decrypt J P c now now' message).1 messages in
        Refuses P c' (decrypt J P c' later later' message')
  accepted_once c now now' message p env e ok messages later later' message' env' e' same =
      seen_refused (deliver (decrypt J P c now now' message).1 messages) later later' message' env'
        e'
        (rw same (
          seen_throughout (decrypt J P c now now' message).1 messages env.nonce
            (recorded c now now' message p env e ok)))
