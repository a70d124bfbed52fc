-- ===== src/Ws/RawWs/Connection/Receive.antt =====
-- What the loop of RawWebSocket.recv in forwarder/app/ws/raw_ws.py makes of a frame in chunks.
use mathlib.Core.List.{append_assoc, append-nil}
use jd_relay.Common.{
  ◌^◌, ◌<◌, ◌≡◌, refl, sym, ap, ◌∙◌, List, [], ◌∷◌, ◌++◌, none, some, Text, Bytes, IsBytes, All,
  length, take, take-append, length-append, arith,
}
use jd_relay.Common.Outcome.{returned}
use jd_relay.Common.Utf8.{utf8_encode, utf8_decode-encode}
use jd_relay.Ws.RawWs.{Opcode, text, ping, pong, encode_frame, decode_frame}
use jd_relay.Ws.RawWs.Frames.{client_frame, decode_frame-encode_frame}
use jd_relay.Ws.RawWs.Prefixes.{decode_frame-take}
use jd_relay.Ws.RawWs.Connection.{RawWebSocket, write, read_up_to, on_decoded, recv_loop, recv}

-- `b"".join(chunks)`
abbrev pub concat : List Bytes → Bytes
concat [] = []
concat (c ∷ chunks) = c ++ concat chunks

abbrev pub IsFilled : Bytes → Type 0
IsFilled chunk = 0 < length chunk

module _ (key payload : Bytes) (opcode : Opcode) (fits : length payload < 2 ^ 64)
    (size : length key ≡ 4) (h : IsBytes key) (k : IsBytes payload) where
  part :
      (read rest : Bytes)
      → read ++ rest ≡ client_frame key payload opcode
      → 0 < length rest
      → decode_frame read ≡ returned none
  part read rest e more =
      let long : length (read ++ rest) ≡ length (client_frame key payload opcode) = ap length e in
      sym (ap decode_frame (ap (λ l. take (length read) l) (sym e) ∙ take-append read rest))
      ∙ decode_frame-take key payload opcode (length read) fits size
          (omega (arith, length-append read rest))

  whole :
      (read : Bytes)
      → read ≡ client_frame key payload opcode
      → decode_frame read ≡ returned (some (opcode, payload))
  whole read e =
      ap decode_frame (e ∙ sym (append-nil (client_frame key payload opcode)))
      ∙ (decode_frame-encode_frame key payload opcode [] fits size h k).1

  -- The loop decodes once the last chunk is there.
  loop_frame :
      (c : Bytes) (chunks later : List Bytes) (buf : Bytes) (w : RawWebSocket)
      → All IsFilled (c ∷ chunks)
      → buf ++ concat (c ∷ chunks) ≡ client_frame key payload opcode
      → recv_loop (c ∷ (chunks ++ later)) buf w
        ≡ on_decoded
            (returned (some (opcode, payload)))
            (client_frame key payload opcode)
            (read_up_to w later)
            (recv_loop later)
  unfolding recv_loop
  loop_frame [] chunks later buf w f e = absurd (omega arith)
  loop_frame (b ∷ bs) [] later buf w f e =
      let same : buf ++ b ∷ bs ≡ client_frame key payload opcode =
        ap (λ l. buf ++ l) (sym (append-nil (b ∷ bs))) ∙ e in
      rw (whole (buf ++ b ∷ bs) same) (rw same refl)
  loop_frame (b ∷ bs) (d ∷ more) later buf w f e =
      let same = append_assoc buf (b ∷ bs) (concat (d ∷ more)) ∙ e in
      let rest : 0 < length (concat (d ∷ more)) = omega (arith, length-append d (concat more)) in
      rw (part (buf ++ b ∷ bs) (concat (d ∷ more)) same rest)
        (loop_frame d more later (buf ++ b ∷ bs) (read_up_to w (d ∷ (more ++ later))) f.1 same)

-- A frame of a client and the chunks in which it arrives.
pub record Arrival : Type 0 where
  pub key : Bytes
  pub payload : Bytes
  pub chunks : List Bytes

abbrev pub IsArrival : Opcode → Arrival → Type 0
IsArrival opcode a =
    (length a.payload < 2 ^ 64)
    × (length a.key ≡ 4)
    × IsBytes a.key
    × IsBytes a.payload
    × All IsFilled a.chunks
    × (concat a.chunks ≡ client_frame a.key a.payload opcode)

-- What the stream holds where frames arrive one after the other.
abbrev pub arriving : List Arrival → List Bytes → List Bytes
arriving [] later = later
arriving (a ∷ more) later = a.chunks ++ arriving more later

abbrev pub pongs : List Arrival → List Bytes
pongs [] = []
pongs (a ∷ more) = encode_frame a.payload pong ∷ pongs more

after_frame :
    (opcode : Opcode) (a : Arrival) (later : List Bytes) (w : RawWebSocket)
    → IsArrival opcode a
    → recv_loop (a.chunks ++ later) [] w
      ≡ on_decoded
          (returned (some (opcode, a.payload)))
          (client_frame a.key a.payload opcode)
          (read_up_to w later)
          (recv_loop later)
after_frame opcode a later w (fits, size, h, k, filled, e) = go a.chunks filled e
  where
    go :
        (chunks : List Bytes)
        → All IsFilled chunks
        → concat chunks ≡ client_frame a.key a.payload opcode
        → recv_loop (chunks ++ later) [] w
          ≡ on_decoded
              (returned (some (opcode, a.payload)))
              (client_frame a.key a.payload opcode)
              (read_up_to w later)
              (recv_loop later)
    go [] f e = unfold client_frame in cc
    go (c ∷ chunks) f e = loop_frame a.key a.payload opcode fits size h k c chunks later [] w f e

loop_text :
    (pings : List Arrival) (last : Arrival) (s : Text) (later : List Bytes) (w : RawWebSocket)
    → All (IsArrival ping) pings
    → IsArrival text last
    → utf8_encode s ≡ some last.payload
    → recv_loop (arriving pings (last.chunks ++ later)) [] w
      ≡ (returned (some s), record w { incoming = later; written = w.written ++ pongs pings })
loop_text [] last s later w h k e =
    rw (after_frame text last later w k) (rw (utf8_decode-encode s e, append-nil w.written) refl)
loop_text (a ∷ pings) last s later w h k e =
    rw (after_frame ping a (arriving pings (last.chunks ++ later)) w h.0) (
      loop_text pings last s later
        (write (read_up_to w (arriving pings (last.chunks ++ later))) (encode_frame a.payload pong))
        h.1 k e
      ∙ ap (λ l. (returned (some s), record w { incoming = later; written = l }))
          (append_assoc w.written (encode_frame a.payload pong ∷ []) (pongs pings)))

-- Any number of pings and then a text, each a client's frame that arrives in chunks of its own,
-- however it is cut: recv comes to an end, returns the text, has written a pong with each ping's
-- payload in order, and has read what belongs to these frames and no more.
pub recv_text :
    (pings : List Arrival) (last : Arrival) (s : Text) (later : List Bytes) (w : RawWebSocket)
    → All (IsArrival ping) pings
    → IsArrival text last
    → utf8_encode s ≡ some last.payload
    → w.incoming ≡ arriving pings (last.chunks ++ later)
    → recv w
      ≡ (returned (some s), record w { incoming = later; written = w.written ++ pongs pings })
unfolding recv
recv_text pings last s later w h k e i =
    ap (λ l. recv_loop l [] w) i ∙ loop_text pings last s later w h k e
