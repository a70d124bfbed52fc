-- ===== src/Ws/RawWs/Upgrade.antt =====
-- The HTTP upgrade of forwarder/app/ws/raw_ws.py. `sha1` is the digest of the standard library. Text
-- that was decoded from Latin-1 has the bytes as its code points.
pub mod Request
pub mod BlankLine
pub mod Response
pub mod Accepts
use jd_relay.Common.{
  ℕ, Bool, true, false, ◌+◌, ◌&&◌, ◌||◌, not, List, [], ◌∷◌, ◌++◌, Option, none, some, Text, Bytes,
  codes, length, if◌then◌else◌, ltb, leb, ◌==◌,
}
use jd_relay.Common.Outcome.{Outcome, returned, unicode_error, or_raise, ◌>>=◌}
use jd_relay.Common.Dict.{Dict, lookup, insert}
use jd_relay.Common.Utf8.{utf8_encode}
use jd_relay.Crypto.Base64.{standard_encode}
use jd_relay.Ws.RawWs.Connection.{RawWebSocket}

abbrev pub ws_guid : Text
ws_guid = codes "258EAFA5-E914-47DA-95CA-C5AB0DC85B11"

unfoldable pub compute_accept_key : (Bytes → Bytes) → Text → Outcome Text
compute_accept_key sha1 client_key = do
  salted ← or_raise unicode_error (utf8_encode (client_key ++ ws_guid))
  returned (standard_encode (sha1 salted))

abbrev pub crlf : Text
crlf = 13 ∷ 10 ∷ []

-- One more character in front of the first part.
abbrev pub extend : ℕ → List Text → List Text
extend x [] = []
extend x (part ∷ parts) = (x ∷ part) ∷ parts

-- `text.split("\r\n")`; the flag says that a carriage return was read and not yet used.
unfoldable pub split_lines : Bool → Text → List Text
split_lines false [] = [] ∷ []
split_lines true [] = (13 ∷ []) ∷ []
split_lines false (x ∷ s) =
    let rest = split_lines (x == 13) s in if x == 13 then rest else extend x rest
split_lines true (x ∷ s) =
    let rest = split_lines (x == 13) s in
    if x == 10 then [] ∷ rest else extend 13 (if x == 13 then rest else extend x rest)

-- `line.split(" ")`
unfoldable pub split_words : Text → List Text
split_words [] = [] ∷ []
split_words (x ∷ s) = let rest = split_words s in if x == b' ' then [] ∷ rest else extend x rest

abbrev pub before : ℕ → Option (Text × Text) → Option (Text × Text)
before x none = none
before x (some (key, value)) = some (x ∷ key, value)

-- `line.split(": ", 1)` where `": "` is in the line.
unfoldable pub cut_header : Text → Option (Text × Text)
cut_header [] = none
cut_header (x ∷ []) = none
cut_header (x ∷ y ∷ s) =
    let rest = cut_header (y ∷ s) in
    if (x == b':') && (y == b' ') then some ([], s) else before x rest

-- `key.lower()` on Latin-1.
abbrev pub lower_char : ℕ → ℕ
lower_char c =
    if (leb 65 c && leb c 90) || (leb 192 c && leb c 222 && not (c == 215)) then c + 32 else c

unfoldable pub lower : Text → Text
lower [] = []
lower (c ∷ s) = lower_char c ∷ lower s

-- One header line; `more` reads the lines behind it.
abbrev pub on_line : Option (Text × Text) → Text → (Dict Text → Dict Text) → Dict Text → Dict Text
on_line (some (key, value)) line more headers = more (insert (lower key) value headers)
on_line none [] more headers = headers
on_line none (c ∷ line) more headers = more headers

unfoldable pub read_headers : List Text → Dict Text → Dict Text
unfolding cut_header lower
read_headers [] headers = headers
read_headers (line ∷ lines) headers = on_line (cut_header line) line (read_headers lines) headers

abbrev pub on_request : List Text → List Text → Option (Dict Text)
on_request (method ∷ path ∷ version ∷ more) lines = some (
    read_headers lines
      ((codes "_method", method) ∷ (codes "_path", path) ∷ (codes "_version", version) ∷ []))
on_request _ lines = none

abbrev pub on_lines : List Text → Option (Dict Text)
on_lines [] = none
on_lines (line ∷ lines) = on_request (split_words line) lines

unfoldable pub parse_http_upgrade : Bytes → Option (Dict Text)
unfolding split_lines split_words read_headers
parse_http_upgrade request = on_lines (split_lines false request)

unfoldable pub build_upgrade_response : Text → Outcome Bytes
build_upgrade_response accept_key = or_raise unicode_error (
    utf8_encode (
      codes "HTTP/1.1 101 Switching Protocols"
      ++ crlf
      ++ (codes "Upgrade: websocket" ++ crlf)
      ++ (codes "Connection: Upgrade" ++ crlf)
      ++ (codes "Sec-WebSocket-Accept: " ++ (accept_key ++ crlf))
      ++ crlf))

unfoldable pub starts_with : Bytes → Bytes → Bool
starts_with [] s = true
starts_with (p ∷ ps) [] = false
starts_with (p ∷ ps) (x ∷ s) = (x == p) && starts_with ps s

-- `b"\r\n\r\n" in data`
unfoldable pub has_blank_line : Bytes → Bool
unfolding starts_with
has_blank_line [] = false
has_blank_line (b ∷ s) = starts_with (crlf ++ crlf) (b ∷ s) || has_blank_line s

abbrev pub is_complete : Bytes → Bool
is_complete request = has_blank_line request || not (ltb (length request) 8192)

-- The loop that reads the request, on the chunks to come; `none` is the end of the stream.
unfoldable pub read_request : List Bytes → Bytes → Option Bytes × List Bytes
unfolding has_blank_line
read_request [] request = (if is_complete request then some request else none, [])
read_request ([] ∷ chunks) request =
    if is_complete request then (some request, [] ∷ chunks) else (none, chunks)
read_request ((b ∷ bs) ∷ chunks) request =
    let rest = read_request chunks (request ++ b ∷ bs) in
    if is_complete request then (some request, (b ∷ bs) ∷ chunks) else rest

-- `headers.get(key, "")`
abbrev pub or_nothing : Option Text → Text
or_nothing none = []
or_nothing (some value) = value

abbrev pub client_key_of : Option (Dict Text) → Text
client_key_of none = []
client_key_of (some headers) = or_nothing (lookup (codes "sec-websocket-key") headers)

unfoldable pub upgraded : (Bytes → Bytes) → List Bytes → Text → Outcome (Option RawWebSocket)
unfolding compute_accept_key build_upgrade_response
upgraded sha1 chunks [] = returned none
upgraded sha1 chunks (c ∷ client_key) = do
  accept_key ← compute_accept_key sha1 (c ∷ client_key)
  response ← build_upgrade_response accept_key
  returned (
      some
        (record { incoming = chunks; written = response ∷ []; is_closed = false; hung_up = false }))

abbrev pub on_read : (Bytes → Bytes) → Option Bytes × List Bytes → Outcome (Option RawWebSocket)
on_read sha1 (none, chunks) = returned none
on_read sha1 (some request, chunks) =
    upgraded sha1 chunks (client_key_of (parse_http_upgrade request))

unfoldable pub from_upgrade : (Bytes → Bytes) → List Bytes → Outcome (Option RawWebSocket)
unfolding read_request
from_upgrade sha1 incoming = on_read sha1 (read_request incoming [])
