-- ===== src/Ws/RawWs/Upgrade/Response.antt =====
-- The answer of forwarder/app/ws/raw_ws.py to an upgrade request.
use jd_relay.Common.{◌≡◌, refl, ◌++◌, Text, Bytes, All, All-append, All-imp, IsAscii, codes, arith}
use jd_relay.Common.Outcome.{returned}
use jd_relay.Common.Utf8.{utf8_encode-ascii}
use jd_relay.Crypto.Base64.{standard_encode}
use jd_relay.Crypto.Base64.RoundTrip.{IsPlain, standard_encode-IsPlain}
use jd_relay.Ws.RawWs.Upgrade.{ws_guid, crlf, compute_accept_key, build_upgrade_response}

abbrev response_head : Text
response_head =
    codes "HTTP/1.1 101 Switching Protocols"
    ++ crlf
    ++ (codes "Upgrade: websocket" ++ crlf)
    ++ (codes "Connection: Upgrade" ++ crlf)

-- What the server answers to a key.
abbrev pub response_to : (Bytes → Bytes) → Text → Bytes
response_to sha1 key =
    response_head
    ++ (codes "Sec-WebSocket-Accept: " ++ (standard_encode (sha1 (key ++ ws_guid)) ++ crlf))
    ++ crlf

pub accepted_key :
    (sha1 : Bytes → Bytes) (key : Text)
    → All IsAscii key
    → compute_accept_key sha1 key ≡ returned (standard_encode (sha1 (key ++ ws_guid)))
unfolding compute_accept_key
accepted_key sha1 key h =
    rw (utf8_encode-ascii (key ++ ws_guid) (All-append IsAscii key ws_guid h (omega arith))) refl

pub response_built :
    (sha1 : Bytes → Bytes) (key : Text)
    → build_upgrade_response (standard_encode (sha1 (key ++ ws_guid)))
      ≡ returned (response_to sha1 key)
unfolding build_upgrade_response
response_built sha1 key =
    let accept = standard_encode (sha1 (key ++ ws_guid)) in
    let ascii : All IsAscii accept =
      All-imp IsPlain IsAscii accept (λ c h. omega arith)
        (standard_encode-IsPlain (sha1 (key ++ ws_guid))) in
    let value = codes "Sec-WebSocket-Accept: " in
    let whole : All IsAscii (response_to sha1 key) =
      All-append IsAscii (response_head ++ (value ++ (accept ++ crlf))) crlf
        (All-append IsAscii response_head (value ++ (accept ++ crlf)) (omega arith) (
          All-append IsAscii value (accept ++ crlf) (omega arith)
            (All-append IsAscii accept crlf ascii (omega arith))))
        (omega arith) in
    rw (utf8_encode-ascii (response_to sha1 key) whole) refl
