-- ===== src/Ws/RawWs.antt =====
-- The WebSocket frames of forwarder/app/ws/raw_ws.py. `decode_frame` answers `none` for an incomplete
-- frame, and raises ValueError for an opcode that the enum does not name.
pub mod Masks
pub mod Frames
pub mod Prefixes
pub mod Upgrade
pub mod Connection
use Prim.Native.Nat.{bit_or, bit_xor}
use jd_relay.Common.{
  ℕ, zero, suc, ◌+◌, ◌*◌, ◌/◌, ◌%◌, ◌^◌, Bool, true, false, List, [], ◌∷◌, ◌++◌, Option, none, some,
  Bytes, length, take, drop, if◌then◌else◌, ltb, ◌==◌,
}
use jd_relay.Common.Outcome.{Outcome, returned, raised, value_error, ◌>>=◌, or_raise}
use jd_relay.Common.Words.{to_bytes, from_bytes}

pub data Opcode : Type 0 where
  text binary close ping pong : Opcode

unfoldable pub opcode_value : Opcode → ℕ
opcode_value text = 0x1
opcode_value binary = 0x2
opcode_value close = 0x8
opcode_value ping = 0x9
opcode_value pong = 0xa

-- `Opcode(n)`
unfoldable pub opcode_of : ℕ → Option Opcode
opcode_of n =
    if n == 0x1
    then some text
    else if n == 0x2
    then some binary
    else if n == 0x8
    then some close
    else if n == 0x9
    then some ping
    else if n == 0xa
    then some pong
    else none

-- The length field, and what follows it for longer payloads.
unfoldable pub length_field : ℕ → Bytes
length_field n =
    if ltb n 126 then n ∷ [] else if ltb n 65536 then 126 ∷ to_bytes 2 n else 127 ∷ to_bytes 8 n

unfoldable pub encode_frame : Bytes → Opcode → Bytes
unfolding length_field opcode_value
encode_frame payload opcode =
    bit_or 0x80 (opcode_value opcode) ∷ (length_field (length payload) ++ payload)

-- `key[i]`
abbrev pub at : Bytes → ℕ → ℕ
at [] i = 0
at (b ∷ key) zero = b
at (b ∷ key) (suc i) = at key i

-- `payload[i] ^= mask_key[i % 4]` from position `i` on.
unfoldable pub unmask : Bytes → ℕ → Bytes → Bytes
unmask key i [] = []
unmask key i (b ∷ bs) = bit_xor b (at key (i % 4)) ∷ unmask key (suc i) bs

-- The rest of a frame behind its length: the mask key, if the frame has one, and the payload.
unfoldable pub decode_payload : Bool → ℕ → Bytes → Option Bytes
unfolding unmask
decode_payload true n rest =
    if ltb (length rest) 4
    then none
    else if ltb (length (drop 4 rest)) n
    then none
    else some (unmask (take 4 rest) 0 (take n (drop 4 rest)))
decode_payload false n rest = if ltb (length rest) n then none else some (take n rest)

-- What the length field says, and the bytes behind it; `rest` is the data from its third byte.
unfoldable pub decode_length : ℕ → Bytes → Option (ℕ × Bytes)
unfolding from_bytes
decode_length n rest =
    if n == 126
    then (if ltb (length rest) 2 then none else some (from_bytes (take 2 rest), drop 2 rest))
    else if n == 127
    then (if ltb (length rest) 8 then none else some (from_bytes (take 8 rest), drop 8 rest))
    else some (n, rest)

abbrev pub with_opcode : Opcode → Option Bytes → Option (Opcode × Bytes)
with_opcode opcode none = none
with_opcode opcode (some payload) = some (opcode, payload)

abbrev pub decode_rest : Opcode → Bool → Option (ℕ × Bytes) → Option (Opcode × Bytes)
decode_rest opcode masked none = none
decode_rest opcode masked (some (n, rest)) = with_opcode opcode (decode_payload masked n rest)

-- Bits 0-3 of the first byte, bit 7 of the second and bits 0-6 of the second.
unfoldable pub decode_frame : Bytes → Outcome (Option (Opcode × Bytes))
unfolding opcode_of decode_length decode_payload
decode_frame [] = returned none
decode_frame (first ∷ []) = returned none
decode_frame (first ∷ second ∷ rest) = or_raise value_error (opcode_of (first % 16)) >>= λ opcode.
    returned (decode_rest opcode (second / 128 % 2 == 1) (decode_length (second % 128) rest))
