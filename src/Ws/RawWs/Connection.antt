-- ===== src/Ws/RawWs/Connection.antt =====
-- RawWebSocket of forwarder/app/ws/raw_ws.py. What `reader.read` will answer is a list of chunks, an
-- empty chunk or the end of the list being the end of the stream; what was written is a list of
-- messages. `flush` and a write do not raise here.
pub mod Receive
use jd_relay.Common.{
  Bool, true, false, List, [], ◌∷◌, ◌++◌, Option, none, some, Text, Bytes, if◌then◌else◌,
}
use jd_relay.Common.Outcome.{Outcome, returned, raised, unicode_error, or_raise, ◌>>=◌}
use jd_relay.Common.Utf8.{utf8_encode, utf8_decode}
use jd_relay.Ws.RawWs.{Opcode, text, binary, close, ping, pong, encode_frame, decode_frame}

pub record RawWebSocket : Type 0 where
  pub incoming : List Bytes
  pub written : List Bytes
  pub is_closed : Bool
  -- whether the writer was closed
  pub hung_up : Bool

abbrev pub write : RawWebSocket → Bytes → RawWebSocket
write w message = record w { written = w.written ++ message ∷ [] }

abbrev pub read_up_to : RawWebSocket → List Bytes → RawWebSocket
read_up_to w chunks = record w { incoming = chunks }

-- `self._closed = True`
abbrev pub mark_closed : RawWebSocket → RawWebSocket
mark_closed w = record w { is_closed = true }

abbrev pub received_text : Bytes → Outcome (Option Text)
received_text payload = or_raise unicode_error (utf8_decode payload) >>= λ s. returned (some s)

-- One round of the loop: what was decoded from the buffer `buf`. `more` goes on with a buffer.
abbrev pub on_decoded :
    Outcome (Option (Opcode × Bytes))
    → Bytes
    → RawWebSocket
    → (Bytes → RawWebSocket → Outcome (Option Text) × RawWebSocket)
    → Outcome (Option Text) × RawWebSocket
on_decoded (raised e) buf w more = (raised e, w)
on_decoded (returned none) buf w more = more buf w
on_decoded (returned (some (close, payload))) buf w more = (returned none, mark_closed w)
on_decoded (returned (some (ping, payload))) buf w more =
    more [] (write w (encode_frame payload pong))
on_decoded (returned (some (text, payload))) buf w more = (received_text payload, w)
on_decoded (returned (some (binary, payload))) buf w more = (received_text payload, w)
on_decoded (returned (some (pong, payload))) buf w more = more [] w

-- The loop, on the chunks that `w` has still to read.
unfoldable pub recv_loop : List Bytes → Bytes → RawWebSocket → Outcome (Option Text) × RawWebSocket
recv_loop [] buf w = (returned none, mark_closed (read_up_to w []))
recv_loop ([] ∷ chunks) buf w = (returned none, mark_closed (read_up_to w chunks))
recv_loop ((b ∷ bs) ∷ chunks) buf w =
    on_decoded (decode_frame (buf ++ b ∷ bs)) (buf ++ b ∷ bs) (read_up_to w chunks)
      (recv_loop chunks)

unfoldable pub recv : RawWebSocket → Outcome (Option Text) × RawWebSocket
unfolding recv_loop
recv w = recv_loop w.incoming [] w

abbrev pub send_payload : Option Bytes → RawWebSocket → Outcome (Unit {0}) × RawWebSocket
send_payload none w = (raised unicode_error, w)
send_payload (some payload) w = (returned tt, write w (encode_frame payload text))

unfoldable pub send : Text → RawWebSocket → Outcome (Unit {0}) × RawWebSocket
send s w = send_payload (utf8_encode s) w

abbrev pub hang_up : RawWebSocket → RawWebSocket
hang_up w = record w { is_closed = true; hung_up = true }

unfoldable pub close_socket : RawWebSocket → RawWebSocket
close_socket w = if w.is_closed then w else hang_up (write w (encode_frame [] close))
