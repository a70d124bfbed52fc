-- ===== src/Ws/ManualServer/Lifecycle.antt =====
-- What a client of forwarder/app/ws/manual_server.py makes the event loop do.
use mathlib.Core.List.{append_assoc, append-nil, map-append}
use jd_relay.Common.{
  ℕ, ◌≡◌, refl, sym, ap, ◌∙◌, inl, inr, true, false, not, List, [], ◌∷◌, ◌++◌, map, Option, none,
  some, Text, Bytes, Bool-cases, if◌then◌else◌, ◌==◌, ◌&&◌,
}
use jd_relay.Common.Outcome.{Outcome, returned, raised, value_error}
use jd_relay.Common.Json.{Json}
use jd_relay.Common.Utf8.{utf8_decode}
use jd_relay.Crypto.Primitives.{Primitives}
use jd_relay.Crypto.Envelope.{MessageType, CryptoEnvelope, build_trigger, heartbeat, ack, parse}
use jd_relay.Crypto.Codec.{CryptoCodec, DecryptResult, Fresh, from_json, decrypt}
use jd_relay.Ws.AgentHandler.{is_named}
use jd_relay.Ws.ManualServer.Wire.{recv_frame}
use jd_relay.Ws.ManualServer.{
  Call, connect_cb, message_cb, remove_agent, Client, Server, Round, Session, Step, going, ended,
  sendall, send_text, after_send, dispatch_text, dispatch, on_message, on_envelope, on_decrypted,
  on_text, on_frame, one_round, io_loop, unregister, left, next,
}

abbrev pub message : Text → MessageType × Text → Call
message agent_id (type, text) = message_cb agent_id type text

abbrev step_calls : {P : Primitives} → Step P → List Call
step_calls (going s) = s.client.calls
step_calls (ended c) = c.calls

-- Nothing but messages of the agent was scheduled.
abbrev pub Grows : Text → List Call → List Call → Type 0
Grows agent_id before after =
    (messages : List (MessageType × Text)) × (after ≡ before ++ map (message agent_id) messages)

same-Grows : (agent_id : Text) (l : List Call) {m : List Call} → m ≡ l → Grows agent_id l m
same-Grows agent_id l e = ([], e ∙ sym (append-nil l))

module _ (server : Server) where
  pub sendall-calls : (o : Outcome Bytes) (c : Client) → (sendall server o c).1.calls ≡ c.calls
  sendall-calls (raised e) c = refl
  sendall-calls (returned b) c = elim (Bool-cases (server.goes c.sent b)) [
    | inl g ↦ rw g refl
    | inr g ↦ rw g refl
  ]

  pub send_text-calls : (o : Outcome Text) (c : Client) → (send_text server o c).1.calls ≡ c.calls
  unfolding send_text
  send_text-calls o c = sendall-calls _ c

  module _ (J : Json) (P : Primitives) (agent_id : Text) where
    send-Grows :
        (before : List Call) (r : Outcome (Unit {0}) × Client) (k : Client → Step P)
        → r.1.calls ≡ before
        → ((c : Client) → c.calls ≡ before → Grows agent_id before (step_calls (k c)))
        → Grows agent_id before (step_calls (after_send server r ended k))
    send-Grows before (raised e, c) k same rest = same-Grows agent_id before same
    send-Grows before (returned u, c) k same rest = rest c same

    text-Grows :
        (codec : CryptoCodec P) (type : MessageType) (o : Option Text) (before : List Call)
        (c : Client)
        → c.calls ≡ before
        → Grows agent_id before (step_calls (dispatch_text server J P agent_id codec type o c))
    text-Grows codec type none before c same = same-Grows agent_id before same
    text-Grows codec type (some text) before c same =
        ((type, text) ∷ [], ap (λ l. l ++ message_cb agent_id type text ∷ []) same)

    dispatch-Grows :
        (codec : CryptoCodec P) (type : MessageType) (plaintext : Bytes) (before : List Call)
        (c : Client)
        → c.calls ≡ before
        → Grows agent_id before (step_calls (dispatch server J P agent_id codec type plaintext c))
    dispatch-Grows codec type plaintext before c same =
        elim (Bool-cases (server.has_message_cb && server.has_loop)) [
          | inl g ↦ rw g (text-Grows codec type (utf8_decode plaintext) before c same)
          | inr g ↦ rw g (same-Grows agent_id before same)
        ]

    message-Grows :
        (codec : CryptoCodec P) (fresh : Fresh) (env : CryptoEnvelope) (p : Bytes)
        (type : Option MessageType) (c : Client)
        → Grows agent_id c.calls
            (step_calls (on_message server J P agent_id codec fresh env p type c))
    unfolding on_message
    message-Grows codec fresh env p none c = same-Grows agent_id c.calls refl
    message-Grows codec fresh env p (some ack) c = same-Grows agent_id c.calls refl
    message-Grows codec fresh env p (some heartbeat) c =
        send-Grows c.calls (send_text server _ c) _ (send_text-calls _ c)
          (λ c' same. same-Grows agent_id c.calls same)
    message-Grows codec fresh env p (some build_trigger) c =
        send-Grows c.calls (send_text server _ c) _ (send_text-calls _ c)
          (dispatch-Grows codec build_trigger p c.calls)
    message-Grows codec fresh env p (some type) c = dispatch-Grows codec type p c.calls c refl

    envelope-Grows :
        (codec : CryptoCodec P) (fresh : Fresh) (p : Bytes) (o : Outcome CryptoEnvelope)
        (c : Client)
        → Grows agent_id c.calls (step_calls (on_envelope server J P agent_id codec fresh p o c))
    envelope-Grows codec fresh p (raised value_error) c = same-Grows agent_id c.calls refl
    envelope-Grows codec fresh p (raised e) c = same-Grows agent_id c.calls refl
    envelope-Grows codec fresh p (returned env) c =
        message-Grows codec fresh env p (parse env.type) c

    decrypted-Grows :
        (text : Text) (fresh : Fresh) (r : Outcome DecryptResult × CryptoCodec P) (c : Client)
        → Grows agent_id c.calls (step_calls (on_decrypted server J P agent_id text fresh r c))
    decrypted-Grows text fresh (raised e, codec) c = same-Grows agent_id c.calls refl
    decrypted-Grows text fresh (returned r, codec) c = elim (Bool-cases r.is_ok) [
      | inl g ↦ rw g (envelope-Grows codec fresh r.plaintext (from_json J text) c)
      | inr g ↦ rw g (same-Grows agent_id c.calls refl)
    ]

    frame-Grows :
        (codec : CryptoCodec P) (round : Round) (o : Outcome (Option (ℕ × Bytes))) (c : Client)
        → Grows agent_id c.calls (step_calls (on_frame server J P agent_id codec round o c))
    frame-Grows codec round (raised e) c = same-Grows agent_id c.calls refl
    frame-Grows codec round (returned none) c = same-Grows agent_id c.calls refl
    frame-Grows codec round (returned (some (opcode, payload))) c =
        elim (Bool-cases (opcode == 0x8)) [
          | inl g ↦ rw g (same-Grows agent_id c.calls refl)
          | inr g ↦ rw g (go (utf8_decode payload))
        ]
      where
        go :
            (o : Option Text)
            → Grows agent_id c.calls (step_calls (on_text server J P agent_id codec round o c))
        go none = same-Grows agent_id c.calls refl
        go (some text) =
            decrypted-Grows text round.fresh (decrypt J P codec round.now round.now' text) c

    round-Grows :
        (round : Round) (s : Session P)
        → Grows agent_id s.client.calls (step_calls (one_round server J P agent_id round s))
    unfolding one_round
    round-Grows round s =
        let r = recv_frame s.client.incoming in frame-Grows s.codec round r.0 (left s.client r.1)

    next-Grows :
        (before : List Call) (st : Step P) (more : Session P → Client)
        → Grows agent_id before (step_calls st)
        → ((s : Session P) → Grows agent_id s.client.calls (more s).calls)
        → Grows agent_id before (next server J P st more).calls
    next-Grows before (ended c) more g rest = g
    next-Grows before (going s) more (messages, e) rest =
        let (others, e') = rest s in
        (
          messages ++ others,
          e'
              ∙ ap (λ l. l ++ map (message agent_id) others) e
              ∙ append_assoc before (map (message agent_id) messages)
                  (map (message agent_id) others)
              ∙ ap (λ l. before ++ l) (sym (map-append (message agent_id) messages others)),
        )

    pub loop-Grows :
        (rounds : List Round) (s : Session P)
        → Grows agent_id s.client.calls (io_loop server J P agent_id rounds s).calls
    unfolding io_loop
    loop-Grows [] s = same-Grows agent_id s.client.calls refl
    loop-Grows (round ∷ rounds) s =
        next-Grows s.client.calls (one_round server J P agent_id round s)
          (io_loop server J P agent_id rounds) (round-Grows round s) (λ s'. loop-Grows rounds s')

  -- What is scheduled at the end.
  abbrev pub goodbye : Text → List Call
  goodbye agent_id =
      if not (is_named agent_id)
      then []
      else if server.has_connect_cb
      then remove_agent agent_id ∷ connect_cb agent_id false ∷ []
      else remove_agent agent_id ∷ []

  pub unregister-calls :
      (agent_id : Text) (c : Client)
      → server.has_loop ≡ true
      → ((unregister server agent_id c).calls ≡ c.calls ++ goodbye agent_id)
        × ((unregister server agent_id c).is_open ≡ false)
  unfolding unregister
  unregister-calls agent_id c runs = rw runs (elim (Bool-cases (is_named agent_id)) [
    | inr n ↦ rw n (sym (append-nil c.calls), refl)
    | inl n ↦ elim (Bool-cases server.has_connect_cb) [
      | inl k ↦
          rw (n, k)
            (
              append_assoc c.calls (remove_agent agent_id ∷ []) (connect_cb agent_id false ∷ []),
              refl,
            )
      | inr k ↦ rw (n, k) (refl, refl)
    ]
  ])
