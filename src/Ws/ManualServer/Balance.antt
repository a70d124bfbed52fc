-- ===== src/Ws/ManualServer/Balance.antt =====
-- What `_handle_client` of forwarder/app/ws/manual_server.py schedules from its start to its end.
use mathlib.Core.Path.{subst}
use mathlib.Core.List.{append_assoc, append-nil}
use jd_relay.Common.{
  ℕ, ◌≡◌, refl, sym, ap, ◌∙◌, ◌⊎◌, inl, inr, Bool, true, false, List, [], ◌∷◌, ◌++◌, map, Option,
  none, some, Text, Bytes,
}
use jd_relay.Common.Outcome.{Outcome, returned, raised}
use jd_relay.Common.Json.{Value, Json}
use jd_relay.Crypto.Primitives.{Primitives, KeyExchange}
use jd_relay.Crypto.AesGcm.{AesGcmCipher, new_cipher}
use jd_relay.Crypto.Ecdsa.{EcdsaSigner}
use jd_relay.Crypto.Envelope.{MessageType}
use jd_relay.Ws.AgentHandler.{identity}
use jd_relay.Ws.Handshake.{HandshakeInit}
use jd_relay.Ws.Handshake.Answer.{KeyFiles, Answer, make_answer}
use jd_relay.Ws.RawWs.Upgrade.{parse_http_upgrade, client_key_of}
use jd_relay.Ws.ManualServer.{
  Call, add_agent, connect_cb, Client, Server, Round, Session, schedule, announced, serve_if, left,
  sendall, send_text, after_send, io_loop, unregister, serve,
}
use jd_relay.Ws.ManualServer.Wire.{recv, recv_frame}
use jd_relay.Ws.ManualServer.Lifecycle.{
  message, Grows, sendall-calls, send_text-calls, loop-Grows, goodbye, unregister-calls,
}
use jd_relay.Ws.ManualServer.Opening.{
  Opened, refused, failed, ready, registered, on_answer, on_checked, on_opening, on_client_key,
  on_request, open_client, serve_opened, handle_client,
}

-- An agent was registered, its messages were passed on, and it was unregistered; the socket is closed.
-- `up` is empty where there is no callback for it or the registration did not end in time.
pub record IsBalanced (server : Server) (r : Client) : Type 0 where
  pub agent_id : Text
  pub projects : List Text
  pub up : List Call
  pub messages : List (MessageType × Text)
  pub announced : (up ≡ []) ⊎ (up ≡ connect_cb agent_id true ∷ [])
  pub scheduled :
      r.calls
      ≡ add_agent agent_id projects
        ∷ (up ++ (map (message agent_id) messages ++ goodbye server agent_id))
  pub closed : r.is_open ≡ false

abbrev opened_calls : {P : Primitives} → Opened P → List Call
opened_calls (refused c) = c.calls
opened_calls (failed c) = c.calls
opened_calls (ready agent_id projects s) = s.client.calls

module _ (server : Server) (J : Json) (P : Primitives) (X : KeyExchange P) (show : Value → Text)
    (sha1 : Bytes → Bytes) (files : KeyFiles) (ecdh : P.PrivateKey) (seed : ℕ) where
  sent_keeps :
      (before : List Call) (r : Outcome (Unit {0}) × Client) (k : Client → Opened P)
      → r.1.calls ≡ before
      → ((c : Client) → c.calls ≡ before → opened_calls (k c) ≡ before)
      → opened_calls (after_send server r failed k) ≡ before
  sent_keeps before (raised e, c) k same rest = same
  sent_keeps before (returned u, c) k same rest = rest c same

  registered-calls :
      (who : Outcome (Text × List Text)) (verifier : EcdsaSigner P) (answer : Answer P)
      (cipher : Outcome AesGcmCipher) (c : Client)
      → opened_calls
          (registered server J P X show sha1 files ecdh seed who verifier answer cipher c)
        ≡ c.calls
  registered-calls who verifier answer (raised e) c = refl
  registered-calls (raised e) verifier answer (returned cipher) c = refl
  registered-calls (returned (a, ps)) verifier answer (returned cipher) c = refl

  answer-calls :
      (init : HandshakeInit) (verifier : EcdsaSigner P) (o : Outcome (Answer P)) (c : Client)
      → opened_calls (on_answer server J P X show sha1 files ecdh seed init verifier o c) ≡ c.calls
  answer-calls init verifier (raised e) c = refl
  answer-calls init verifier (returned answer) c =
      sent_keeps c.calls (send_text server _ c) _ (send_text-calls server _ c) (λ c' same.
        registered-calls (identity init.agent_id init.projects) verifier answer
          (new_cipher answer.shared_secret) c'
        ∙ same)

  checked-calls :
      (o : Outcome (HandshakeInit × (EcdsaSigner P × Bool))) (c : Client)
      → opened_calls (on_checked server J P X show sha1 files ecdh seed o c) ≡ c.calls
  checked-calls (raised e) c = refl
  checked-calls (returned (init, (verifier, false))) c =
      sent_keeps c.calls (send_text server _ c) _ (send_text-calls server _ c) (λ c' same. same)
  checked-calls (returned (init, (verifier, true))) c =
      answer-calls init verifier (make_answer P X files ecdh seed init) c

  opening-calls :
      (o : Outcome (Option (ℕ × Bytes))) (c : Client)
      → opened_calls (on_opening server J P X show sha1 files ecdh seed o c) ≡ c.calls
  opening-calls (raised e) c = refl
  opening-calls (returned none) c = refl
  opening-calls (returned (some (opcode, init_raw))) c = checked-calls _ c

  key-calls :
      (key : Text) (c : Client)
      → opened_calls (on_client_key server J P X show sha1 files ecdh seed key c) ≡ c.calls
  key-calls [] c = refl
  key-calls (k ∷ ks) c =
      sent_keeps c.calls (sendall server _ c) _ (sendall-calls server _ c)
        (λ c' same. let r = recv_frame c'.incoming in opening-calls r.0 (left c' r.1) ∙ same)

  request-calls :
      (o : Outcome Bytes) (c : Client)
      → opened_calls (on_request server J P X show sha1 files ecdh seed o c) ≡ c.calls
  request-calls (raised e) c = refl
  request-calls (returned request) c = key-calls (client_key_of (parse_http_upgrade request)) c

  open_client-calls :
      (c : Client) → opened_calls (open_client server J P X show sha1 files ecdh seed c) ≡ c.calls
  unfolding open_client
  open_client-calls c = let r = recv 4096 c.incoming in request-calls r.0 (left c r.1)

  -- An agent of which only messages were scheduled between its registration and the end.
  ended-IsBalanced :
      (agent_id : Text) (projects : List Text) (up : List Call) (c : Client)
      → server.has_loop ≡ true
      → (up ≡ []) ⊎ (up ≡ connect_cb agent_id true ∷ [])
      → Grows agent_id (add_agent agent_id projects ∷ up) c.calls
      → IsBalanced server (unregister server agent_id c)
  ended-IsBalanced agent_id projects up c runs announced (messages, e) =
      let (calls, closed) = unregister-calls server agent_id c runs in
      record {
        agent_id = agent_id;
        projects = projects;
        up = up;
        messages = messages;
        announced = announced;
        scheduled =
            calls
            ∙ ap (λ l. l ++ goodbye server agent_id) e
            ∙ append_assoc (add_agent agent_id projects ∷ up) (map (message agent_id) messages)
                (goodbye server agent_id);
        closed = closed;
      }

  announced-calls :
      (b : Bool) (agent_id : Text) (c : Client)
      → (up : List Call) × ((up ≡ []) ⊎ (up ≡ connect_cb agent_id true ∷ []))
        × ((announced server J P b agent_id c).calls ≡ c.calls ++ up)
  announced-calls false agent_id c = ([], inl refl, sym (append-nil c.calls))
  announced-calls true agent_id c = (connect_cb agent_id true ∷ [], inr refl, refl)

  if_IsBalanced :
      (in_time : Bool) (agent_id : Text) (projects : List Text) (rounds : List Round)
      (s : Session P)
      → server.has_loop ≡ true
      → s.client.calls ≡ []
      → IsBalanced server (serve_if server J P true in_time agent_id projects rounds s)
  if_IsBalanced false agent_id projects rounds s runs none_yet =
      ended-IsBalanced agent_id projects [] (schedule (add_agent agent_id projects) s.client) runs
        (inl refl) ([], ap (λ l. l ++ add_agent agent_id projects ∷ []) none_yet)
  if_IsBalanced true agent_id projects rounds s runs none_yet =
      let added = schedule (add_agent agent_id projects) s.client in
      let start = record s { client = announced server J P server.has_connect_cb agent_id added } in
      let (up, once, e) = announced-calls server.has_connect_cb agent_id added in
      let (messages, e') = loop-Grows server J P agent_id rounds start in
      ended-IsBalanced agent_id projects up (io_loop server J P agent_id rounds start) runs once (
        messages,
        e'
            ∙ ap (λ l. l ++ map (message agent_id) messages)
                (e ∙ ap (λ l. (l ++ add_agent agent_id projects ∷ []) ++ up) none_yet),
      )

  serve-IsBalanced :
      (agent_id : Text) (projects : List Text) (rounds : List Round) (s : Session P)
      → server.has_loop ≡ true
      → s.client.calls ≡ []
      → IsBalanced server (serve server J P agent_id projects rounds s)
  unfolding serve
  serve-IsBalanced agent_id projects rounds s runs none_yet =
      subst
        (λ b.
          IsBalanced server (serve_if server J P b server.adds_in_time agent_id projects rounds s))
        (sym runs) (if_IsBalanced server.adds_in_time agent_id projects rounds s runs none_yet)

  -- Where the event loop runs, a client has nothing scheduled, or it is one agent that is registered,
  -- announced at most once, has its messages passed on, and in the end is unregistered, unless it has
  -- no name, with its socket closed.
  pub handle_client_balances :
      (rounds : List Round) (c : Client)
      → server.has_loop ≡ true
      → c.calls ≡ []
      → let r = handle_client server J P X show sha1 files ecdh seed rounds c in
        (r.calls ≡ []) ⊎ IsBalanced server r
  unfolding handle_client
  handle_client_balances rounds c runs none_yet =
      go (open_client server J P X show sha1 files ecdh seed c) (open_client-calls c ∙ none_yet)
    where
      go :
          (o : Opened P)
          → opened_calls o ≡ []
          → let r = serve_opened server J P X show sha1 files ecdh seed rounds o in
            (r.calls ≡ []) ⊎ IsBalanced server r
      go (refused c') e = inl e
      go (failed c') e = inl e
      go (ready agent_id projects s) e = inr (serve-IsBalanced agent_id projects rounds s runs e)
