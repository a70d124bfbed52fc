-- ===== src/Ws/ManualServer/Reports.antt =====
-- Reports of an agent at forwarder/app/ws/manual_server.py, from the bytes on the socket to the calls that
-- the event loop is given.
use mathlib.Core.List.{append_assoc, append-nil}
use jd_relay.Common.{
  ◌<◌, ◌^◌, ◌≡◌, refl, sym, ap, ◌∙◌, true, ◌&&◌, List, [], ◌∷◌, ◌++◌, map, some, Text, Bytes,
  IsBytes, length, All,
}
use jd_relay.Common.Outcome.{returned, returned_injective}
use jd_relay.Common.Json.{Json}
use jd_relay.Common.Utf8.{utf8_encode, utf8_decode-encode}
use jd_relay.Crypto.Primitives.{Primitives, Correct}
use jd_relay.Crypto.ReplayGuard.{record_nonce}
use jd_relay.Crypto.Base64.{b64_encode}
use jd_relay.Crypto.Envelope.{
  MessageType, CryptoEnvelope, build_trigger, heartbeat, ack, parse, type_value,
}
use jd_relay.Crypto.Envelope.Payload.{parse-iff-type_value}
use jd_relay.Crypto.Ecdsa.{verifying_key}
use jd_relay.Crypto.Codec.{CryptoCodec, Fresh, accepted, from_json, encrypt, decrypt}
use jd_relay.Crypto.Codec.RoundTrip.{channel_sends}
use jd_relay.Ws.RawWs.{text, opcode_value}
use jd_relay.Ws.RawWs.Frames.{client_frame}
use jd_relay.Ws.AgentHandler.Delivery.{IsReport}
use jd_relay.Ws.AgentHandler.Session.{Report, IsSent, AllSent}
use jd_relay.Ws.ManualServer.{
  Call, message_cb, Client, Server, Round, going, schedule, left, continue, on_message, on_text,
  one_round, io_loop, next,
}
use jd_relay.Ws.ManualServer.Wire.{Stream, recv_frame}
use jd_relay.Ws.ManualServer.Wire.Frames.{recv_frame-client_frame}

-- A report with the text that carries it, that text's bytes, and the mask of its frame.
pub record Carried : Type 0 where
  pub report : Report
  pub message : Text
  pub packed : Bytes
  pub key : Bytes

pub record IsCarried (J : Json) (P : Primitives) (agent : CryptoCodec P) (x : Carried)
    : Type 0 where
  pub made : encrypt J P agent x.report.plaintext x.report.type x.report.sent ≡ returned x.message
  pub read : utf8_encode x.message ≡ some x.packed
  pub fits : length x.packed < 2 ^ 64
  pub packed_bytes : IsBytes x.packed
  pub size : length x.key ≡ 4
  pub key_bytes : IsBytes x.key

-- The frames on the socket, a segment each.
abbrev pub segments : List Carried → Stream → Stream
segments [] later = later
segments (x ∷ xs) later = some (client_frame x.key x.packed text) ∷ segments xs later

abbrev pub round_of : Carried → Round
round_of x = record { now = x.report.now; now' = x.report.now'; fresh = x.report.fresh }

-- The codec once the reports were taken.
abbrev pub after_reports : {P : Primitives} → CryptoCodec P → List Carried → CryptoCodec P
after_reports codec [] = codec
after_reports codec (x ∷ xs) =
    after_reports
      (record codec {
        guard = record_nonce codec.guard x.report.now' (b64_encode x.report.sent.nonce_bytes);
      })
      xs

-- The call of the message callback.
abbrev pub call_of : Text → Carried → Call
call_of agent_id x = message_cb agent_id x.report.type x.report.text

module _ (server : Server) (J : Json) (P : Primitives) (correct : Correct P) (agent_id : Text)
    (calls_back : (server.has_message_cb && server.has_loop) ≡ true) where
  handed_on :
      (codec : CryptoCodec P) (fresh : Fresh) (env : CryptoEnvelope) (type : MessageType)
      (words : Text) (plaintext : Bytes) (c : Client)
      → IsReport type
      → utf8_encode words ≡ some plaintext
      → on_message server J P agent_id codec fresh env plaintext (some type) c
        ≡ continue server J P codec (schedule (message_cb agent_id type words) c)
  unfolding on_message
  handed_on codec fresh env heartbeat words plaintext c r e = absurd r
  handed_on codec fresh env ack words plaintext c r e = absurd r
  handed_on codec fresh env build_trigger words plaintext c r e = absurd r
  handed_on codec fresh env _ words plaintext c r e =
      rw (calls_back, utf8_decode-encode words e) refl

  text_handled :
      (codec codec' : CryptoCodec P) (message : Text) (env : CryptoEnvelope) (type : MessageType)
      (plaintext : Bytes) (round : Round) (c : Client)
      → from_json J message ≡ returned env
      → env.type ≡ type_value type
      → decrypt J P codec round.now round.now' message ≡ (returned (accepted plaintext), codec')
      → on_text server J P agent_id codec round (some message) c
        ≡ on_message server J P agent_id codec' round.fresh env plaintext (some type) c
  text_handled codec codec' message env type plaintext round c read kind decrypted =
      let parsed : parse env.type ≡ some type = (parse-iff-type_value env.type type).1 kind in
      rw decrypted (rw (read, parsed) refl)

  frame_received :
      (x : Carried) (agent codec : CryptoCodec P) (later : Stream) (client : Client)
      → IsCarried J P agent x
      → one_round server J P agent_id
          (round_of x)
          (record { codec = codec; client = record client { incoming = segments (x ∷ []) later } })
        ≡ on_text server J P agent_id codec (round_of x) (some x.message) (left client later)
  unfolding one_round opcode_value
  frame_received x agent codec later client fine =
      let whole = client_frame x.key x.packed text in
      let received : recv_frame (some whole ∷ later)
          ≡ (returned (some (opcode_value text, x.packed)), later) =
        ap (λ b. recv_frame (some b ∷ later)) (sym (append-nil whole))
        ∙ recv_frame-client_frame x.key x.packed [] text later fine.fits fine.size fine.key_bytes
            fine.packed_bytes in
      rw received (rw (utf8_decode-encode x.message fine.read) refl)

  -- One round takes one report.
  round_scheduled :
      (x : Carried) (agent codec : CryptoCodec P) (k : P.PrivateKey) (later : Stream)
      (client : Client)
      → IsCarried J P agent x
      → agent.signer.private_key ≡ some k
      → verifying_key P codec.verifier ≡ some (P.public_key k)
      → codec.cipher ≡ agent.cipher
      → IsSent J P agent codec.guard x.report
      → one_round server J P agent_id
          (round_of x)
          (record { codec = codec; client = record client { incoming = segments (x ∷ []) later } })
        ≡ going (record {
          codec = record codec {
            guard = record_nonce codec.guard x.report.now' (b64_encode x.report.sent.nonce_bytes);
          };
          client = schedule (call_of agent_id x) (left client later);
        })
  round_scheduled x agent codec k later client fine key peer same sent =
      let r = x.report in
      let (message, encrypted, env, loaded, kind, decrypted) =
        channel_sends J P correct agent codec k r.plaintext r.type r.sent r.ciphertext r.now r.now'
          key peer same sent.ascii sent.size sent.bytes sent.made sent.inside sent.unseen in
      let own : message ≡ x.message = returned_injective (sym encrypted ∙ fine.made) in
      let codec' : CryptoCodec P = record codec {
        guard = record_nonce codec.guard r.now' (b64_encode r.sent.nonce_bytes);
      } in
      frame_received x agent codec later client fine
      ∙ text_handled codec codec' x.message env r.type r.plaintext (round_of x) (left client later)
          (ap (from_json J) (sym own) ∙ loaded) kind
          (ap (decrypt J P codec r.now r.now') (sym own) ∙ decrypted)
      ∙ handed_on codec' r.fresh env r.type r.text r.plaintext (left client later) sent.report
          sent.read

  -- Reports that an agent encrypts and sends in masked text frames, one segment for each, make the loop
  -- schedule the message callback with each text, once and in order, and nothing else, and go on with
  -- what follows them on the socket; nothing is sent. There are a message callback and an event loop;
  -- the connection's end has the agent's session key and verifies with its public key; the reports are
  -- messages but heartbeats, acknowledgements and build triggers, have new nonces in turn, are received
  -- in their window, and can be encrypted and written in UTF-8.
  pub reports_scheduled :
      (xs : List Carried) (more : List Round) (agent codec : CryptoCodec P) (k : P.PrivateKey)
      (later : Stream) (client : Client)
      → agent.signer.private_key ≡ some k
      → verifying_key P codec.verifier ≡ some (P.public_key k)
      → codec.cipher ≡ agent.cipher
      → All (IsCarried J P agent) xs
      → AllSent J P agent codec.guard (map (λ x. x.report) xs)
      → io_loop server J P agent_id
          (map round_of xs ++ more)
          (record { codec = codec; client = record client { incoming = segments xs later } })
        ≡ io_loop server J P agent_id more (record {
          codec = after_reports codec xs;
          client = record client {
            incoming = later;
            calls = client.calls ++ map (call_of agent_id) xs;
          };
        })
  unfolding io_loop
  reports_scheduled [] more agent codec k later client key peer same fine sent =
      ap
        (λ l.
          io_loop server J P agent_id more
            (record { codec = codec; client = record client { incoming = later; calls = l } }))
        (sym (append-nil client.calls))
  reports_scheduled (x ∷ xs) more agent codec k later client key peer same (first, fine)
        (sent, rest) =
      let codec' : CryptoCodec P = record codec {
        guard = record_nonce codec.guard x.report.now' (b64_encode x.report.sent.nonce_bytes);
      } in
      ap (λ s. next server J P s (io_loop server J P agent_id (map round_of xs ++ more)))
        (round_scheduled x agent codec k (segments xs later) client first key peer same sent)
      ∙ reports_scheduled xs more agent codec' k later (schedule (call_of agent_id x) client) key
          peer same fine rest
      ∙ ap
          (λ l. io_loop server J P agent_id more (record {
            codec = after_reports codec' xs;
            client = record client { incoming = later; calls = l };
          }))
          (append_assoc client.calls (call_of agent_id x ∷ []) (map (call_of agent_id) xs))
