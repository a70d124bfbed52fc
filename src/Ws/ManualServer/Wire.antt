-- ===== src/Ws/ManualServer/Wire.antt =====
-- `_send_frame` and `_recv_frame` of forwarder/app/ws/manual_server.py. What a socket will give is a list of
-- segments: `recv n` answers at most `n` bytes of the first one, `none` is a call that raises (a timeout,
-- say), and an empty segment or the end of the list is the end of the stream.
pub mod Frames
pub mod Fuel
use Prim.Native.Nat.{bit_or, bit_xor}
use jd_relay.Common.{
  ℕ, zero, suc, ◌-◌, ◌/◌, ◌%◌, Bool, true, false, List, [], ◌∷◌, ◌++◌, Option, none, some, Bytes,
  length, take, drop, if◌then◌else◌, ltb, ◌==◌,
}
use jd_relay.Common.Outcome.{
  Outcome, returned, raised, disconnected, index_error, overflow_error, ◌>>=◌,
}
use jd_relay.Common.Words.{to_bytes, from_bytes}

abbrev pub Stream : Type 0
Stream = List (Option Bytes)

-- What stays of a segment in front of the others.
abbrev pub behind : Bytes → Stream → Stream
behind [] s = s
behind (b ∷ bs) s = some (b ∷ bs) ∷ s

unfoldable pub recv : ℕ → Stream → Outcome Bytes × Stream
recv n [] = (returned [], [])
recv n (none ∷ s) = (raised disconnected, s)
recv n (some segment ∷ s) = (returned (take n segment), behind (drop n segment) s)

-- A call on the socket and what follows it.
abbrev pub and_then {ℓ κ} :
    {A : Type ℓ} {B : Type κ}
    → Outcome A × Stream
    → (A → Stream → Outcome B × Stream)
    → Outcome B × Stream
and_then (returned a, s) k = k a s
and_then (raised e, s) k = (raised e, s)

abbrev pub smaller : ℕ → ℕ → ℕ
smaller a b = if ltb a b then a else b

abbrev pub on_chunk :
    Bytes
    → Stream
    → (Bytes → Stream → Outcome (Option Bytes) × Stream)
    → Outcome (Option Bytes) × Stream
on_chunk [] s more = (returned none, s)
on_chunk (b ∷ bs) s more = more (b ∷ bs) s

-- The loop that reads a payload of `n` bytes; each round reads at least one, so the fuel `n` is enough.
unfoldable pub read_payload : ℕ → ℕ → Bytes → Stream → Outcome (Option Bytes) × Stream
unfolding recv
read_payload zero n payload s = (returned (some payload), s)
read_payload (suc fuel) n payload s =
    let round =
      and_then (recv (smaller (n - length payload) 16384) s)
        λ chunk s'. on_chunk chunk s' λ c s''. read_payload fuel n (payload ++ c) s'' in
    if ltb (length payload) n then round else (returned (some payload), s)

-- `key[i]`
abbrev pub index : Bytes → ℕ → Outcome ℕ
index [] i = raised index_error
index (b ∷ key) zero = returned b
index (b ∷ key) (suc i) = index key i

-- `payload[i] ^= mask_key[i % 4]` from position `i` on.
unfoldable pub apply_mask : Bytes → ℕ → Bytes → Outcome Bytes
apply_mask key i [] = returned []
apply_mask key i (b ∷ bs) =
    let rest = apply_mask key (suc i) bs in
    index key (i % 4) >>= λ k. rest >>= λ bs'. returned (bit_xor b k ∷ bs')

-- The length in the header's second byte, or in the bytes behind it.
unfoldable pub read_length : ℕ → Stream → Outcome ℕ × Stream
unfolding recv
read_length n s =
    if n == 126
    then and_then (recv 2 s) (λ b s'. (returned (from_bytes b), s'))
    else if n == 127
    then and_then (recv 8 s) (λ b s'. (returned (from_bytes b), s'))
    else (returned n, s)

abbrev pub unmasked : ℕ → Bytes → Option Bytes → Outcome (Option (ℕ × Bytes))
unmasked opcode key none = returned none
unmasked opcode key (some payload) =
    apply_mask key 0 payload >>= λ clear. returned (some (opcode, clear))

-- The frame behind its two first bytes.
unfoldable pub recv_rest : ℕ → ℕ → Stream → Outcome (Option (ℕ × Bytes)) × Stream
unfolding recv read_length read_payload
recv_rest first second s = and_then (read_length (second % 128) s) λ n s1.
    and_then (recv 4 s1) λ key s2.
      and_then (read_payload n n [] s2) λ payload s3. (unmasked (first % 16) key payload, s3)

abbrev pub on_header : Outcome Bytes × Stream → Outcome (Option (ℕ × Bytes)) × Stream
on_header (raised e, s) = (returned none, s)
on_header (returned (first ∷ second ∷ more), s) = recv_rest first second s
on_header (returned _, s) = (returned none, s)

unfoldable pub recv_frame : Stream → Outcome (Option (ℕ × Bytes)) × Stream
unfolding recv
recv_frame s = on_header (recv 2 s)

-- `length.to_bytes(2, 'big')`
abbrev pub two_bytes : ℕ → Outcome Bytes
two_bytes n = if ltb n 65536 then returned (to_bytes 2 n) else raised overflow_error

-- What is sent.
unfoldable pub send_frame : Bytes → ℕ → Outcome Bytes
send_frame payload opcode =
    let n = length payload in
    (if ltb n 126 then returned (n ∷ []) else (two_bytes n >>= λ b. returned (126 ∷ b))) >>= λ size.
    returned (bit_or 0x80 opcode ∷ (size ++ payload))
