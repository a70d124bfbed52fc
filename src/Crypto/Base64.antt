-- ===== src/Crypto/Base64.antt =====
-- Base64 and the line format around it, forwarder/app/crypto/base64.py. `standard_encode` and
-- `scan` are the standard library's `b64encode` and its lenient decoder, which skips characters
-- outside the alphabet; a decoding error is `none`.
pub mod RoundTrip
pub mod Hex
use jd_relay.Common.{
  is_ascii, ℕ, zero, suc, ◌≡◌, refl, codes, ◌+◌, ◌-◌, ◌*◌, ◌/◌, ◌%◌, Bool, true, false, ◌&&◌, List,
  [], ◌∷◌, ◌++◌, Option, none, some, Text, Bytes, join, delete, length, take, drop, if◌then◌else◌,
  ltb, leb, ◌==◌,
}

-- The alphabet, A-Z a-z 0-9 + /.
letter : ℕ → ℕ
letter v =
    if ltb v 26
    then b'A' + v
    else if ltb v 52
    then b'a' + (v - 26)
    else if ltb v 62
    then b'0' + (v - 52)
    else if v == 62
    then b'+'
    else b'/'

unfoldable pub standard_encode : Bytes → Text
unfolding letter
standard_encode [] = []
standard_encode (a ∷ []) = letter (a / 4) ∷ letter (a % 4 * 16) ∷ b'=' ∷ b'=' ∷ []
standard_encode (a ∷ b ∷ []) =
    letter (a / 4) ∷ letter (a % 4 * 16 + b / 16) ∷ letter (b % 16 * 4) ∷ b'=' ∷ []
standard_encode (a ∷ b ∷ c ∷ rest) =
    letter (a / 4)
    ∷ letter (a % 4 * 16 + b / 16)
    ∷ letter (b % 16 * 4 + c / 64)
    ∷ letter (c % 64)
    ∷ standard_encode rest

pub data Symbol : Type 0 where
  pad skipped : Symbol
  digit : ℕ → Symbol

classify : ℕ → Symbol
classify ch =
    if ch == b'='
    then pad
    else if leb b'A' ch && leb ch b'Z'
    then digit (ch - b'A')
    else if leb b'a' ch && leb ch b'z'
    then digit (ch - b'a' + 26)
    else if leb b'0' ch && leb ch b'9'
    then digit (ch - b'0' + 52)
    else if ch == b'+'
    then digit 62
    else if ch == b'/'
    then digit 63
    else skipped

-- How many characters of the current group of four were read.
pub data Quad : Type 0 where
  first second third fourth : Quad

abbrev is_late : Quad → Bool
is_late third = true
is_late fourth = true
is_late _ = false

abbrev pub emit : ℕ → Option Bytes → Option Bytes
emit b none = none
emit b (some bs) = some (b ∷ bs)

-- Padding that completes a group ends the text.
abbrev is_complete : Quad → ℕ → Bool
is_complete third pads = leb 1 pads
is_complete fourth pads = true
is_complete _ pads = false

scan : Quad → ℕ → ℕ → Text → Option Bytes
unfolding classify
scan first left pads [] = some []
scan second left pads [] = none
scan third left pads [] = none
scan fourth left pads [] = none
scan q left pads (ch ∷ rest) = elim (classify ch) [
  | pad ↦
      if is_complete q pads
      then some []
      else scan q left (if is_late q then pads + 1 else pads) rest
  | skipped ↦ scan q left pads rest
  | digit v ↦ elim q [
    | first ↦ scan second v 0 rest
    | second ↦ emit (left * 4 + v / 16) (scan third (v % 16) 0 rest)
    | third ↦ emit (left * 16 + v / 4) (scan fourth (v % 4) 0 rest)
    | fourth ↦ emit (left * 64 + v) (scan first 0 0 rest)
  ]
]

-- A string with a character outside ASCII is refused before it is decoded.
unfoldable pub standard_decode : Text → Option Bytes
unfolding scan
standard_decode s = if is_ascii s then scan first 0 0 s else none

-- `[raw[i:i+64] for i in range(0, len(raw), 64)]`; the first argument bounds the number of lines.
unfoldable pub lines : ℕ → Text → List Text
lines zero raw = []
lines (suc fuel) [] = []
lines (suc fuel) (c ∷ raw) = take 64 (c ∷ raw) ∷ lines fuel (drop 64 (c ∷ raw))

unfoldable pub b64_encode : Bytes → Text
unfolding standard_encode lines join
b64_encode data_ =
    let raw = standard_encode data_ in join (b'\n' ∷ []) (lines (length raw) raw) ++ b'\n' ∷ []

unfoldable pub clean : Text → Text
unfolding delete
clean encoded = delete b' ' (delete b'\r' (delete b'\n' encoded))

unfoldable pub b64_decode : Text → Option Bytes
unfolding clean standard_decode
b64_decode encoded = standard_decode (clean encoded)

hello : b64_encode (104 ∷ 105 ∷ 33 ∷ 33 ∷ []) ≡ codes "aGkhIQ==\n"
unfolding b64_encode
hello = refl
