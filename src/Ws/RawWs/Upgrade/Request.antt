-- ===== src/Ws/RawWs/Upgrade/Request.antt =====
-- An HTTP upgrade request as a client writes it, and what forwarder/app/ws/raw_ws.py reads in it.
use jd_relay.Common.{
  ℕ, ◌≡◌, refl, ap, Bool, true, false, ◌&&◌, not, List, [], ◌∷◌, ◌++◌, some, Text, All, codes, ◌==◌,
  arith,
}
use jd_relay.Common.Dict.{Dict, insert}
use jd_relay.Ws.RawWs.Upgrade.{
  split_lines, split_words, cut_header, lower, read_headers, parse_http_upgrade,
}

-- The character does not stand in the text.
abbrev pub lacks : ℕ → Text → Bool
lacks c [] = true
lacks c (x ∷ xs) = not (x == c) && lacks c xs

-- The header lines, each with its line end, in front of what follows them.
abbrev pub header_text : List (Text × Text) → Text → Text
header_text [] tail = tail
header_text ((key, value) ∷ headers) tail =
    (key ++ b':' ∷ b' ' ∷ value) ++ 13 ∷ 10 ∷ header_text headers tail

abbrev pub first_line : Text → Text → Text → Text
first_line method path version = method ++ b' ' ∷ (path ++ b' ' ∷ version)

abbrev pub request_text : Text → Text → Text → List (Text × Text) → Text → Text
request_text method path version headers tail =
    first_line method path version ++ 13 ∷ 10 ∷ header_text headers tail

-- A name holds no colon, and neither part a carriage return.
abbrev pub IsHeader : Text × Text → Type 0
IsHeader (key, value) = (lacks b':' key ≡ true) × (lacks 13 key ≡ true) × (lacks 13 value ≡ true)

-- A word of the first line.
abbrev pub IsWord : Text → Type 0
IsWord word = (lacks b' ' word ≡ true) × (lacks 13 word ≡ true)

-- What a header list means: a later header of the same name, in whatever case, wins.
abbrev pub headers_of : List (Text × Text) → Dict Text → Dict Text
headers_of [] d = d
headers_of ((key, value) ∷ headers) d = headers_of headers (insert (lower key) value d)

abbrev pub request_fields : Text → Text → Text → Dict Text
request_fields method path version =
    (codes "_method", method) ∷ (codes "_path", path) ∷ (codes "_version", version) ∷ []

pub lacks-append :
    (c : ℕ) (xs ys : Text) → lacks c xs ≡ true → lacks c ys ≡ true → lacks c (xs ++ ys) ≡ true
lacks-append c [] ys h k = k
lacks-append c (x ∷ xs) ys h k = ground (arith, lacks-append c xs ys)

split_line :
    (xs ys : Text)
    → lacks 13 xs ≡ true
    → split_lines false (xs ++ 13 ∷ 10 ∷ ys) ≡ xs ∷ split_lines false ys
unfolding split_lines
split_line [] ys h = refl
split_line (x ∷ xs) ys h =
    let other : (x == 13) ≡ false = ground arith in
    rw other (rw (split_line xs ys (ground arith)) refl)

split_word :
    (xs ys : Text) → lacks b' ' xs ≡ true → split_words (xs ++ b' ' ∷ ys) ≡ xs ∷ split_words ys
unfolding split_words
split_word [] ys h = refl
split_word (x ∷ xs) ys h =
    let other : (x == b' ') ≡ false = ground arith in
    rw other (rw (split_word xs ys (ground arith)) refl)

last_word : (xs : Text) → lacks b' ' xs ≡ true → split_words xs ≡ xs ∷ []
unfolding split_words
last_word [] h = refl
last_word (x ∷ xs) h =
    let other : (x == b' ') ≡ false = ground arith in
    rw other (rw (last_word xs (ground arith)) refl)

cut_key :
    (key value : Text)
    → lacks b':' key ≡ true
    → cut_header (key ++ b':' ∷ b' ' ∷ value) ≡ some (key, value)
unfolding cut_header
cut_key [] value h = refl
cut_key (x ∷ []) value h = let other : (x == b':') ≡ false = ground arith in rw other refl
cut_key (x ∷ y ∷ key) value h =
    let other : (x == b':') ≡ false = ground arith in
    rw other (rw (cut_key (y ∷ key) value (ground arith)) refl)

headers_read :
    (headers : List (Text × Text)) (body : Text) (d : Dict Text)
    → All IsHeader headers
    → read_headers (split_lines false (header_text headers (13 ∷ 10 ∷ body))) d
      ≡ headers_of headers d
unfolding read_headers
headers_read [] body d h = rw (split_line [] body refl) (unfold cut_header in refl)
headers_read ((key, value) ∷ headers) body d ((colon, k, v), h) =
    rw
      (split_line (key ++ b':' ∷ b' ' ∷ value) (header_text headers (13 ∷ 10 ∷ body))
        (lacks-append 13 key (b':' ∷ b' ' ∷ value) k v))
      (rw (cut_key key value colon) (headers_read headers body (insert (lower key) value d) h))

-- A request whose header lines have a colon and a space between name and value is read as its method,
-- path and version and its headers, the names in lower case, whatever bytes follow it.
pub parse_http_upgrade-request_text :
    (method path version : Text) (headers : List (Text × Text)) (body : Text)
    → IsWord method
    → IsWord path
    → IsWord version
    → All IsHeader headers
    → parse_http_upgrade (request_text method path version headers (13 ∷ 10 ∷ body))
      ≡ some (headers_of headers (request_fields method path version))
unfolding parse_http_upgrade
parse_http_upgrade-request_text method path version headers body (m, m') (p, p') (v, v') h =
    let line = first_line method path version in
    let unbroken : lacks 13 line ≡ true =
      lacks-append 13 method (b' ' ∷ (path ++ b' ' ∷ version)) m'
        (lacks-append 13 path (b' ' ∷ version) p' v') in
    rw (split_line line (header_text headers (13 ∷ 10 ∷ body)) unbroken) (
      rw (split_word method (path ++ b' ' ∷ version) m) (
        rw (split_word path version p) (
          rw (last_word version v)
            (ap some (headers_read headers body (request_fields method path version) h)))))
