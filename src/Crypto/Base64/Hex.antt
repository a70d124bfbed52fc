-- ===== src/Crypto/Base64/Hex.antt =====
-- The hexadecimal text of `hex_encode` and `hex_decode` in forwarder/app/crypto/base64.py. `from_hex`
-- is the standard library's `bytes.fromhex`, which takes both cases and skips white space before a
-- byte; it raises ValueError on anything else.
use jd_relay.Common.{
  ℕ, ◌+◌, ◌-◌, ◌*◌, ◌/◌, ◌%◌, ◌<◌, ◌≡◌, refl, ap, true, false, ◌&&◌, [], ◌∷◌, Option, none, some,
  Text, Bytes, IsBytes, is_space, leb, ltb, if◌then◌else◌, arith,
}
use jd_relay.Common.Outcome.{Outcome, returned, raised, value_error, ◌>>=◌}

-- The lower-case digit of a number below 16.
unfoldable pub hex_digit : ℕ → ℕ
hex_digit n = if ltb n 10 then b'0' + n else b'a' + (n - 10)

unfoldable pub digit_value : ℕ → Option ℕ
digit_value c =
    if leb b'0' c && leb c b'9'
    then some (c - b'0')
    else if leb b'a' c && leb c b'f'
    then some (c - b'a' + 10)
    else if leb b'A' c && leb c b'F'
    then some (c - b'A' + 10)
    else none

-- `data.hex()`
unfoldable pub hex_encode : Bytes → Text
hex_encode [] = []
hex_encode (b ∷ bs) = hex_digit (b / 16) ∷ hex_digit (b % 16) ∷ hex_encode bs

abbrev put_byte : Option ℕ → Option ℕ → Outcome Bytes → Outcome Bytes
put_byte (some high) (some low) rest = rest >>= λ bs. returned ((high * 16 + low) ∷ bs)
put_byte _ _ rest = raised value_error

unfoldable from_hex : Text → Outcome Bytes
from_hex [] = returned []
from_hex (c ∷ []) = if is_space c then returned [] else raised value_error
from_hex (c ∷ d ∷ s) = elim (is_space c) [
  | true ↦ from_hex (d ∷ s)
  | false ↦ put_byte (digit_value c) (digit_value d) (from_hex s)
]

unfoldable pub hex_decode : Text → Outcome Bytes
unfolding from_hex
hex_decode hex_str = from_hex hex_str

hex_digit-printed : (n : ℕ) → n < 16 → is_space (hex_digit n) ≡ false
unfolding hex_digit
hex_digit-printed n h = ground arith

digit_value-hex_digit : (n : ℕ) → n < 16 → digit_value (hex_digit n) ≡ some n
unfolding hex_digit digit_value
digit_value-hex_digit n h = ground arith

from_hex-pair :
    (c d : ℕ) (s : Text)
    → is_space c ≡ false
    → from_hex (c ∷ d ∷ s) ≡ put_byte (digit_value c) (digit_value d) (from_hex s)
unfolding from_hex
from_hex-pair c d s h =
    ap
      (λ b. elim b as (λ x. Outcome Bytes) [
        | true ↦ from_hex (d ∷ s)
        | false ↦ put_byte (digit_value c) (digit_value d) (from_hex s)
      ])
      h

from_hex-hex_encode : (d : Bytes) → IsBytes d → from_hex (hex_encode d) ≡ returned d
unfolding hex_encode
from_hex-hex_encode [] h = unfold from_hex in refl
from_hex-hex_encode (b ∷ bs) h =
    rw
      (
        from_hex-pair _ _ (hex_encode bs) (hex_digit-printed (b / 16) (omega arith)),
        digit_value-hex_digit (b / 16) (omega arith),
        digit_value-hex_digit (b % 16) (omega arith),
        from_hex-hex_encode bs (h.1),
      )
      (ap (λ x. returned (x ∷ bs)) (omega arith))

-- The bytes that were written as hexadecimal digits are read back.
pub hex_decode-encode : (d : Bytes) → IsBytes d → hex_decode (hex_encode d) ≡ returned d
unfolding hex_decode
hex_decode-encode d h = from_hex-hex_encode d h
