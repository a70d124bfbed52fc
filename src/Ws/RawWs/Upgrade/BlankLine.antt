-- ===== src/Ws/RawWs/Upgrade/BlankLine.antt =====
-- Where the reader of an HTTP upgrade request in forwarder/app/ws/raw_ws.py finds the blank line.
use mathlib.Core.List.{append_assoc}
use jd_relay.Common.{
  ◌≡◌, refl, sym, ap, ◌∙◌, Bool, true, false, ◌||◌, List, [], ◌∷◌, ◌++◌, Text, Bytes, All, arith,
  ◌==◌,
}
use jd_relay.Ws.RawWs.Upgrade.{crlf, starts_with, has_blank_line}
use jd_relay.Ws.RawWs.Upgrade.Request.{lacks, lacks-append, header_text, IsHeader}

-- A blank line is not found sooner in a longer text than in its beginning.
starts_with-append :
    (ps xs ys : Bytes) → starts_with ps (xs ++ ys) ≡ false → starts_with ps xs ≡ false
unfolding starts_with
starts_with-append [] xs ys h = cc
starts_with-append (p ∷ ps) [] ys h = refl
starts_with-append (p ∷ ps) (x ∷ xs) ys h = ground (arith, starts_with-append ps xs ys)

pub has_blank_line-append :
    (xs ys : Bytes) → has_blank_line (xs ++ ys) ≡ false → has_blank_line xs ≡ false
unfolding has_blank_line
has_blank_line-append [] ys h = refl
has_blank_line-append (x ∷ xs) ys h =
    let (here, later) =
      or_false (starts_with (crlf ++ crlf) (x ∷ (xs ++ ys))) (has_blank_line (xs ++ ys)) h in
    rw (starts_with-append (crlf ++ crlf) (x ∷ xs) ys here) (has_blank_line-append xs ys later)
  where
    or_false : (a b : Bool) → (a || b) ≡ false → (a ≡ false) × (b ≡ false)
    or_false true b h = cc
    or_false false b h = (refl, h)

pub skip_plain :
    (xs ys : Bytes) → lacks 13 xs ≡ true → has_blank_line (xs ++ ys) ≡ has_blank_line ys
unfolding has_blank_line starts_with
skip_plain [] ys h = refl
skip_plain (x ∷ xs) ys h =
    let other : (x == 13) ≡ false = ground arith in rw other (skip_plain xs ys (ground arith))

-- A line end in front of what does not start with one.
pub skip_end :
    (ys : Bytes) → starts_with crlf ys ≡ false → has_blank_line (13 ∷ 10 ∷ ys) ≡ has_blank_line ys
unfolding has_blank_line starts_with
skip_end ys h = rw h refl

header_starts :
    (key value rest : Bytes)
    → lacks 13 key ≡ true
    → starts_with crlf ((key ++ b':' ∷ b' ' ∷ value) ++ rest) ≡ false
unfolding starts_with
header_starts [] value rest h = refl
header_starts (x ∷ key) value rest h = let other : (x == 13) ≡ false = ground arith in rw other refl

-- Up to its last byte, a request holds no blank line.
pub headers_open :
    (headers : List (Text × Text))
    → All IsHeader headers
    → (has_blank_line (header_text headers (13 ∷ [])) ≡ false)
      × (starts_with crlf (header_text headers (13 ∷ [])) ≡ false)
headers_open [] h = (unfold has_blank_line starts_with in refl, unfold starts_with in refl)
headers_open ((key, value) ∷ headers) ((colon, k, v), h) =
    let rest = header_text headers (13 ∷ []) in
    let (later, start) = headers_open headers h in
    (
      skip_plain (key ++ b':' ∷ b' ' ∷ value) (13 ∷ 10 ∷ rest)
            (lacks-append 13 key (b':' ∷ b' ' ∷ value) k v)
          ∙ skip_end rest start
          ∙ later,
      header_starts key value (13 ∷ 10 ∷ rest) k,
    )

pub header_text-append :
    (headers : List (Text × Text)) (xs ys : Text)
    → header_text headers (xs ++ ys) ≡ header_text headers xs ++ ys
header_text-append [] xs ys = refl
header_text-append ((key, value) ∷ headers) xs ys =
    ap (λ l. (key ++ b':' ∷ b' ' ∷ value) ++ 13 ∷ 10 ∷ l) (header_text-append headers xs ys)
    ∙ sym (append_assoc (key ++ b':' ∷ b' ' ∷ value) (13 ∷ 10 ∷ header_text headers xs) ys)

pub headers_closed :
    (headers : List (Text × Text))
    → All IsHeader headers
    → has_blank_line (13 ∷ 10 ∷ header_text headers (13 ∷ 10 ∷ [])) ≡ true
headers_closed [] h = unfold has_blank_line starts_with in refl
headers_closed ((key, value) ∷ headers) ((colon, k, v), h) =
    let rest = header_text headers (13 ∷ 10 ∷ []) in
    skip_end ((key ++ b':' ∷ b' ' ∷ value) ++ 13 ∷ 10 ∷ rest)
      (header_starts key value (13 ∷ 10 ∷ rest) k)
    ∙ skip_plain (key ++ b':' ∷ b' ' ∷ value) (13 ∷ 10 ∷ rest)
        (lacks-append 13 key (b':' ∷ b' ' ∷ value) k v)
    ∙ headers_closed headers h
