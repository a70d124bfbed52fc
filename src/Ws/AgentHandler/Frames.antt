-- ===== src/Ws/AgentHandler/Frames.antt =====
-- What a received frame makes a connection of forwarder/app/ws/agent_handler.py do.
use jd_relay.Common.{
  ℕ, ◌≡◌, refl, ◌∙◌, ◌⊎◌, true, List, [], ◌∷◌, Option, none, some, Text, Bytes, Bool-cases, inl,
  inr,
}
use jd_relay.Common.Outcome.{Outcome, returned, raised}
use jd_relay.Common.Json.{Json}
use jd_relay.Crypto.Primitives.{Primitives}
use jd_relay.Crypto.ReplayGuard.{is_replay, record_nonce}
use jd_relay.Crypto.Envelope.{MessageType, CryptoEnvelope, build_trigger, heartbeat, ack, parse}
use jd_relay.Crypto.Codec.{CryptoCodec, DecryptResult, Fresh, accepted, from_json, decrypt}
use jd_relay.Crypto.Codec.Checks.{IsRefused, Refuses, Passes, decrypt_decides}
use jd_relay.Crypto.Codec.Channel.{seen_stays, seen_refused, recorded}
use jd_relay.Ws.AgentManager.{AgentManager}
use jd_relay.Ws.AgentHandler.{
  Callbacks, Event, frame, beat, outgoing, elsewhere, on_message, on_envelope, on_decrypted,
  on_frame, on_event, on_registry, io_loop,
}

module _ (J : Json) (P : Primitives) {W : Type 0} (cb : Callbacks W) (agent_id : Text) where
  message-codec :
      (c : CryptoCodec P) (fresh : Fresh) (env : CryptoEnvelope) (p : Bytes)
      (type : Option MessageType) (w : W)
      → (on_message J P cb agent_id c fresh env p type w).codec ≡ c
  unfolding on_message
  message-codec c fresh env p none w = refl
  message-codec c fresh env p (some ack) w = refl
  message-codec c fresh env p (some heartbeat) w = refl
  message-codec c fresh env p (some build_trigger) w = refl
  message-codec c fresh env p (some _) w = refl

  envelope-codec :
      (c : CryptoCodec P) (fresh : Fresh) (p : Bytes) (o : Outcome CryptoEnvelope) (w : W)
      → (on_envelope J P cb agent_id c fresh p o w).codec ≡ c
  envelope-codec c fresh p (raised e) w = refl
  envelope-codec c fresh p (returned env) w = message-codec c fresh env p (parse env.type) w

  decrypted-codec :
      (raw : Text) (fresh : Fresh) (r : Outcome DecryptResult × CryptoCodec P) (w : W)
      → (on_decrypted J P cb agent_id raw fresh r w).codec ≡ r.1
  decrypted-codec raw fresh (raised e, c) w = refl
  decrypted-codec raw fresh (returned r, c) w = elim (Bool-cases r.is_ok) [
    | inl h ↦ rw h (envelope-codec c fresh r.plaintext (from_json J raw) w)
    | inr h ↦ rw h refl
  ]

  refused_alone :
      (raw : Text) (fresh : Fresh) (r : Outcome DecryptResult × CryptoCodec P) (w : W)
      → IsRefused r.0
      → (on_decrypted J P cb agent_id raw fresh r w).world ≡ w
  refused_alone raw fresh (raised e, c) w h = refl
  refused_alone raw fresh (returned r, c) w h = rw h refl

  frame_refused :
      (c : CryptoCodec P) (raw : Text) (now now' : ℕ) (fresh : Fresh) (w : W)
      → Refuses P c (decrypt J P c now now' raw)
      → ((on_frame J P cb agent_id c raw now now' fresh w).world ≡ w)
        × ((on_frame J P cb agent_id c raw now now' fresh w).codec ≡ c)
  unfolding on_frame
  frame_refused c raw now now' fresh w h = (
    refused_alone raw fresh (decrypt J P c now now' raw) w (h.0),
    decrypted-codec raw fresh (decrypt J P c now now' raw) w ∙ h.1,
  )

  -- A received frame passes all checks of the codec, and is then handled by the type that its envelope
  -- names, with its nonce recorded; or it sends nothing, reaches no callback, and leaves the codec as it
  -- was.
  pub on_frame_decides :
      (c : CryptoCodec P) (raw : Text) (now now' : ℕ) (fresh : Fresh) (w : W)
      → ((env : CryptoEnvelope) × (p : Bytes) × Passes J P c now raw env p
          × (on_frame J P cb agent_id c raw now now' fresh w
              ≡ on_message J P cb agent_id
                  (record c { guard = record_nonce c.guard now' env.nonce })
                  fresh
                  env
                  p
                  (parse env.type)
                  w))
        ⊎ (((on_frame J P cb agent_id c raw now now' fresh w).world ≡ w)
            × ((on_frame J P cb agent_id c raw now now' fresh w).codec ≡ c))
  on_frame_decides c raw now now' fresh w = elim (decrypt_decides J P c now now' raw) [
    | inr refused ↦ inr (frame_refused c raw now now' fresh w refused)
    | inl (env, p, passed, a) ↦
        inl (env, p, passed, unfold on_frame in rw a (rw (passed.envelope_read) refl))
  ]

  event_seen :
      {S : Type 0} (c : CryptoCodec P) (e : Event S) (w : W) (nonce : Text)
      → is_replay c.guard nonce ≡ true
      → is_replay (on_event J P cb agent_id c e w).codec.guard nonce ≡ true
  unfolding on_event on_frame
  event_seen c (frame raw now now' fresh) w nonce seen =
      rw (decrypted-codec raw fresh (decrypt J P c now now' raw) w)
        (seen_stays J P c now now' raw nonce seen)
  event_seen c (beat ts fresh) w nonce seen = seen
  event_seen c (outgoing type payload fresh) w nonce seen = seen
  event_seen c (elsewhere op) w nonce seen = seen

  loop_seen :
      {S : Type 0} (m : AgentManager S) (c : CryptoCodec P) (events : List (Event S)) (w : W)
      (nonce : Text)
      → is_replay c.guard nonce ≡ true
      → is_replay (io_loop J P cb agent_id m c events w).1.codec.guard nonce ≡ true
  unfolding io_loop
  loop_seen m c [] w nonce seen = seen
  loop_seen m c (e ∷ events) w nonce seen =
      let turn = on_event J P cb agent_id c e w in
      let now_seen = event_seen c e w nonce seen in
      elim (Bool-cases turn.alive) [
        | inl h ↦ rw h (loop_seen (on_registry m e) turn.codec events turn.world nonce now_seen)
        | inr h ↦ rw h now_seen
      ]

  event_then_seen :
      {S : Type 0} (m : AgentManager S) (c : CryptoCodec P) (e : Event S) (events : List (Event S))
      (w : W) (nonce : Text)
      → is_replay (on_event J P cb agent_id c e w).codec.guard nonce ≡ true
      → is_replay (io_loop J P cb agent_id m c (e ∷ events) w).1.codec.guard nonce ≡ true
  unfolding io_loop
  event_then_seen m c e events w nonce seen =
      let turn = on_event J P cb agent_id c e w in
      elim (Bool-cases turn.alive) [
        | inl h ↦ rw h (loop_seen (on_registry m e) turn.codec events turn.world nonce seen)
        | inr h ↦ rw h seen
      ]

  -- Once a frame of a connection was accepted, a frame with its nonce sends nothing, reaches no callback
  -- and leaves the codec as it was, whatever happened on the connection in between.
  pub replayed_frame_ignored :
      {S : Type 0} (m : AgentManager S) (c : CryptoCodec P) (raw : Text) (now now' : ℕ)
      (fresh : Fresh) (w : W) (p : Bytes) (env : CryptoEnvelope) (events : List (Event S))
      (raw' : Text) (later later' : ℕ) (fresh' : Fresh) (env' : CryptoEnvelope)
      → from_json J raw ≡ returned env
      → (decrypt J P c now now' raw).0 ≡ returned (accepted p)
      → from_json J raw' ≡ returned env'
      → env'.nonce ≡ env.nonce
      → let turn = (io_loop J P cb agent_id m c (frame raw now now' fresh ∷ events) w).1 in
        let again = on_frame J P cb agent_id turn.codec raw' later later' fresh' turn.world in
        (again.world ≡ turn.world) × (again.codec ≡ turn.codec)
  replayed_frame_ignored {S} m c raw now now' fresh w p env events raw' later later' fresh' env' e
        ok e' same =
      let turn = (io_loop J P cb agent_id m c (frame raw now now' fresh ∷ events) w).1 in
      let first : is_replay
            (on_event J P cb {S = S} agent_id c (frame raw now now' fresh) w).codec.guard env.nonce
          ≡ true =
        unfold on_event on_frame in
        rw (decrypted-codec raw fresh (decrypt J P c now now' raw) w)
          (recorded J P c now now' raw p env e ok) in
      let seen : is_replay turn.codec.guard env'.nonce ≡ true =
        rw same (event_then_seen m c (frame raw now now' fresh) events w env.nonce first) in
      frame_refused turn.codec raw' later later' fresh' turn.world
        (seen_refused J P turn.codec later later' raw' env' e' seen)
