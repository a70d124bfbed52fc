-- ===== src/Ws/RawWs/Upgrade/Accepts.antt =====
-- A client that opens a WebSocket at forwarder/app/ws/raw_ws.py, from its request to its first text.
use mathlib.Core.List.{append_assoc, append-nil}
use jd_relay.Common.{
  ◌<◌, ◌≤◌, ◌≡◌, refl, sym, ap, ◌∙◌, true, false, List, [], ◌∷◌, ◌++◌, some, Text, Bytes, All,
  IsAscii, codes, length, length-append, take, drop, take-append, take-append-le, take-append-drop,
  arith, ltb, is_truthy,
}
use jd_relay.Common.Outcome.{returned}
use jd_relay.Common.Dict.{lookup}
use jd_relay.Common.Utf8.{utf8_encode}
use jd_relay.Ws.RawWs.{text, ping}
use jd_relay.Ws.RawWs.Connection.{RawWebSocket, recv}
use jd_relay.Ws.RawWs.Connection.Receive.{
  concat, IsFilled, Arrival, IsArrival, arriving, pongs, recv_text,
}
use jd_relay.Ws.RawWs.Upgrade.{has_blank_line, is_complete, read_request, upgraded, from_upgrade}
use jd_relay.Ws.RawWs.Upgrade.Request.{
  lacks, lacks-append, header_text, first_line, request_text, IsHeader, IsWord, headers_of,
  request_fields, parse_http_upgrade-request_text,
}
use jd_relay.Ws.RawWs.Upgrade.BlankLine.{
  has_blank_line-append, skip_plain, skip_end, headers_open, header_text-append, headers_closed,
}
use jd_relay.Ws.RawWs.Upgrade.Response.{response_to, accepted_key, response_built}

abbrev pub socket_after : (Bytes → Bytes) → Text → List Bytes → RawWebSocket
socket_after sha1 key later = record {
  incoming = later;
  written = response_to sha1 key ∷ [];
  is_closed = false;
  hung_up = false;
}

module _ (method path version : Text) (headers : List (Text × Text)) (m : IsWord method)
    (p : IsWord path) (v : IsWord version) (h : All IsHeader headers) where
  abbrev pub request : Text
  request = request_text method path version headers (13 ∷ 10 ∷ [])

  abbrev but_last : Text
  but_last = request_text method path version headers (13 ∷ [])

  unbroken : lacks 13 (first_line method path version) ≡ true
  unbroken =
      lacks-append 13 method (b' ' ∷ (path ++ b' ' ∷ version)) m.1
        (lacks-append 13 path (b' ' ∷ version) p.1 v.1)

  request-but_last : request ≡ but_last ++ 10 ∷ []
  request-but_last =
      ap (λ l. first_line method path version ++ 13 ∷ 10 ∷ l)
        (header_text-append headers (13 ∷ []) (10 ∷ []))
      ∙ sym (
          append_assoc (first_line method path version) (13 ∷ 10 ∷ header_text headers (13 ∷ []))
            (10 ∷ []))

  request_ends : has_blank_line request ≡ true
  request_ends =
      skip_plain (first_line method path version) (13 ∷ 10 ∷ header_text headers (13 ∷ 10 ∷ []))
        unbroken
      ∙ headers_closed headers h

  but_last_open : has_blank_line but_last ≡ false
  but_last_open =
      let (later, start) = headers_open headers h in
      skip_plain (first_line method path version) (13 ∷ 10 ∷ header_text headers (13 ∷ [])) unbroken
      ∙ skip_end (header_text headers (13 ∷ [])) start
      ∙ later

  -- No part of the request that is not the whole of it ends the reading.
  part_open :
      (read rest : Bytes)
      → read ++ rest ≡ request
      → 0 < length rest
      → length request ≤ 8192
      → is_complete read ≡ false
  part_open read rest e more short =
      let n = length read in
      let total : length (read ++ rest) ≡ length (but_last ++ 10 ∷ []) =
        ap length (e ∙ request-but_last) in
      let fits : n ≤ length but_last =
        omega (arith, length-append read rest, length-append but_last (10 ∷ [])) in
      let cut : read ≡ take n but_last =
        sym (take-append read rest)
        ∙ ap (take n) (e ∙ request-but_last)
        ∙ take-append-le n but_last (10 ∷ []) fits in
      let open_part : has_blank_line read ≡ false =
        ap has_blank_line cut
        ∙ has_blank_line-append (take n but_last) (drop n but_last)
            (ap has_blank_line (take-append-drop n but_last) ∙ but_last_open) in
      let size : length (read ++ rest) ≡ length request = ap length e in
      let below : ltb n 8192 ≡ true = ground (arith, length-append read rest) in
      rw (open_part, below) refl

  whole_read : (later : List Bytes) → read_request later request ≡ (some request, later)
  unfolding read_request
  whole_read [] = rw request_ends refl
  whole_read ([] ∷ later) = rw request_ends refl
  whole_read ((b ∷ bs) ∷ later) = rw request_ends refl

  chunks_read :
      (chunks later : List Bytes) (read : Bytes)
      → All IsFilled chunks
      → read ++ concat chunks ≡ request
      → length request ≤ 8192
      → read_request (chunks ++ later) read ≡ (some request, later)
  unfolding read_request
  chunks_read [] later read f e short =
      ap (read_request later) (sym (append-nil read) ∙ e) ∙ whole_read later
  chunks_read ([] ∷ chunks) later read f e short = absurd (omega arith)
  chunks_read ((b ∷ bs) ∷ chunks) later read f e short =
      let rest = (b ∷ bs) ++ concat chunks in
      let waiting = part_open read rest e (omega arith) short in
      let more =
        chunks_read chunks later (read ++ b ∷ bs) f.1
          (append_assoc read (b ∷ bs) (concat chunks) ∙ e) short in
      rw waiting more

  upgraded_at :
      (sha1 : Bytes → Bytes) (key : Text) (later : List Bytes)
      → is_truthy key ≡ true
      → All IsAscii key
      → upgraded sha1 later key ≡ returned (some (socket_after sha1 key later))
  unfolding upgraded
  upgraded_at sha1 [] later named ascii = cc
  upgraded_at sha1 (c ∷ key) later named ascii =
      rw (accepted_key sha1 (c ∷ key) ascii) (rw (response_built sha1 (c ∷ key)) refl)

  accepts :
      (sha1 : Bytes → Bytes) (key : Text) (chunks later : List Bytes)
      → All IsFilled chunks
      → concat chunks ≡ request
      → length request ≤ 8192
      → lookup (codes "sec-websocket-key") (headers_of headers (request_fields method path version))
        ≡ some key
      → is_truthy key ≡ true
      → All IsAscii key
      → from_upgrade sha1 (chunks ++ later) ≡ returned (some (socket_after sha1 key later))
  unfolding from_upgrade
  accepts sha1 key chunks later f e short found named ascii =
      rw (chunks_read chunks later [] f e short) (
        rw (parse_http_upgrade-request_text method path version headers [] m p v h)
          (rw found (upgraded_at sha1 key later named ascii)))

  -- A client that asks for an upgrade with a key in its headers is answered with the accept key that is
  -- made of it, and then its pings and its first text are received: a pong is written for each ping, the
  -- text is returned, and what follows is left. The request is a line of three words with single spaces
  -- between them and header lines with a colon and a space between name and value, each line ended by
  -- CRLF, and an empty line; it has at most 8192 bytes, and the key is ASCII and not empty. The request
  -- and each frame arrive in chunks of their own, however they are cut.
  pub upgrade_then_text :
      (sha1 : Bytes → Bytes) (key : Text) (chunks : List Bytes) (pings : List Arrival)
      (last : Arrival) (s : Text) (later : List Bytes)
      → All IsFilled chunks
      → concat chunks ≡ request
      → length request ≤ 8192
      → lookup (codes "sec-websocket-key") (headers_of headers (request_fields method path version))
        ≡ some key
      → is_truthy key ≡ true
      → All IsAscii key
      → All (IsArrival ping) pings
      → IsArrival text last
      → utf8_encode s ≡ some last.payload
      → (w : RawWebSocket) × (from_upgrade sha1 (chunks ++ arriving pings (last.chunks ++ later))
          ≡ returned (some w))
        × (recv w ≡ (
          returned (some s),
          record {
            incoming = later;
            written = response_to sha1 key ∷ pongs pings;
            is_closed = false;
            hung_up = false;
          },
        ))
  upgrade_then_text sha1 key chunks pings last s later f e short found named ascii k l read =
      let w = socket_after sha1 key (arriving pings (last.chunks ++ later)) in
      (
        w,
        accepts sha1 key chunks (arriving pings (last.chunks ++ later)) f e short found named ascii,
        recv_text pings last s later w k l read refl,
      )
