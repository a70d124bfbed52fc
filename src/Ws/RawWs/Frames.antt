-- ===== src/Ws/RawWs/Frames.antt =====
-- What forwarder/app/ws/raw_ws.py encodes or a client of RFC 6455 sends, it decodes.
use Prim.Native.Nat.{bit_or}
use jd_relay.Common.{
  ℕ, ◌+◌, ◌/◌, ◌%◌, ◌^◌, ◌<◌, ◌≡◌, refl, ap, ◌∙◌, inl, inr, Bool, true, false, [], ◌∷◌, ◌++◌, some,
  Bytes, IsBytes, length, take, drop, take-append, take-prefix, drop-prefix, length-append, ltb,
  ◌==◌, arith, Bool-cases,
}
use mathlib.Core.List.{append_assoc}
use jd_relay.Common.Outcome.{returned}
use jd_relay.Common.Words.{to_bytes, from_bytes, length-to_bytes, from_bytes-to_bytes}
use jd_relay.Ws.RawWs.{
  Opcode, text, opcode_value, opcode_of, length_field, encode_frame, unmask, decode_payload,
  decode_length, with_opcode, decode_frame,
}
use jd_relay.Ws.RawWs.Masks.{unmask-unmask, length-unmask}

-- The mask bit in front of a length field.
abbrev pub mark : Bool → Bytes → Bytes
mark false l = l
mark true [] = []
mark true (b ∷ l) = (128 + b) ∷ l

decode_word :
    (k n : ℕ) (r : Bytes)
    → n < 256 ^ k
    → (ltb (length (to_bytes k n ++ r)) k ≡ false)
      × (from_bytes (take k (to_bytes k n ++ r)) ≡ n)
      × (drop k (to_bytes k n ++ r) ≡ r)
decode_word k n r h = (
  ground (arith, length-append (to_bytes k n) r, length-to_bytes k n),
  rw (take-prefix k (to_bytes k n) r (length-to_bytes k n)) (from_bytes-to_bytes k n h),
  drop-prefix k (to_bytes k n) r (length-to_bytes k n),
)

pub first_byte :
    (opcode : Opcode) → opcode_of (bit_or 0x80 (opcode_value opcode) % 16) ≡ some opcode
unfolding opcode_of opcode_value
first_byte text = refl
first_byte _ = refl

-- Where the first byte names an opcode, the frame is read by its length field and its payload.
decode_second :
    (opcode : Opcode) (second : ℕ) (rest : Bytes) (n : ℕ) (r : Bytes)
    → decode_length (second % 128) rest ≡ some (n, r)
    → decode_frame (bit_or 0x80 (opcode_value opcode) ∷ second ∷ rest)
      ≡ returned (with_opcode opcode (decode_payload (second / 128 % 2 == 1) n r))
unfolding decode_frame
decode_second opcode second rest n r h = rw (first_byte opcode) (rw h refl)

pub decode_marked :
    (masked : Bool) (opcode : Opcode) (b : ℕ) (tail : Bytes) (n : ℕ) (r : Bytes)
    → b < 128
    → decode_length b (tail ++ r) ≡ some (n, r)
    → decode_frame (bit_or 0x80 (opcode_value opcode) ∷ (mark masked (b ∷ tail) ++ r))
      ≡ returned (with_opcode opcode (decode_payload masked n r))
decode_marked false opcode b tail n r small h =
    decode_second opcode b (tail ++ r) n r (rw (low b small) h)
    ∙ ap (λ m. returned (with_opcode opcode (decode_payload m n r))) (ground arith)
  where
    low : (b : ℕ) → b < 128 → b % 128 ≡ b
    low b h = omega arith
decode_marked true opcode b tail n r small h =
    decode_second opcode (128 + b) (tail ++ r) n r (rw (low b small) h)
    ∙ ap (λ m. returned (with_opcode opcode (decode_payload m n r))) (ground arith)
  where
    low : (b : ℕ) → b < 128 → (128 + b) % 128 ≡ b
    low b h = omega arith

pub decode_length-word :
    (n : ℕ) (r : Bytes)
    → (n < 65536 → decode_length 126 (to_bytes 2 n ++ r) ≡ some (n, r))
      × (n < 2 ^ 64 → decode_length 127 (to_bytes 8 n ++ r) ≡ some (n, r))
unfolding decode_length
decode_length-word n r = (
  λ h. let (long, value, rest) = decode_word 2 n r h in rw (long, value, rest) refl,
  λ h. let (long, value, rest) = decode_word 8 n r h in rw (long, value, rest) refl,
)

pub decode_length-short : (n : ℕ) (r : Bytes) → n < 126 → decode_length n r ≡ some (n, r)
unfolding decode_length
decode_length-short n r h = ground arith

decode_header :
    (masked : Bool) (opcode : Opcode) (n : ℕ) (r : Bytes)
    → n < 2 ^ 64
    → decode_frame (bit_or 0x80 (opcode_value opcode) ∷ (mark masked (length_field n) ++ r))
      ≡ returned (with_opcode opcode (decode_payload masked n r))
unfolding length_field
decode_header masked opcode n r h = elim (Bool-cases (ltb n 126)) [
  | inl p ↦
      rw p (
        decode_marked masked opcode n [] n r (ground arith)
          (decode_length-short n r (ground arith)))
  | inr p ↦ rw p (elim (Bool-cases (ltb n 65536)) [
    | inl q ↦ rw q (
        decode_marked masked opcode 126 (to_bytes 2 n) n r (omega arith)
          ((decode_length-word n r).0 (ground arith)))
    | inr q ↦ rw q (
        decode_marked masked opcode 127 (to_bytes 8 n) n r (omega arith)
          ((decode_length-word n r).1 h))
  ])
]

plain_payload :
    (payload rest : Bytes) → decode_payload false (length payload) (payload ++ rest) ≡ some payload
unfolding decode_payload
plain_payload payload rest =
    let long : ltb (length (payload ++ rest)) (length payload) ≡ false =
      ground (arith, length-append payload rest) in
    rw (long, take-append payload rest) refl

masked_payload :
    (key payload rest : Bytes)
    → length key ≡ 4
    → IsBytes key
    → IsBytes payload
    → decode_payload true (length payload) (key ++ (unmask key 0 payload ++ rest)) ≡ some payload
unfolding decode_payload
masked_payload key payload rest size h k =
    let body = unmask key 0 payload ++ rest in
    let masked : length (unmask key 0 payload) ≡ length payload = length-unmask key 0 payload in
    let has_key : ltb (length (key ++ body)) 4 ≡ false = ground (arith, length-append key body) in
    let long : ltb (length body) (length payload) ≡ false =
      ground (arith, length-append (unmask key 0 payload) rest) in
    rw has_key (
      rw (take-prefix 4 key body size) (
        rw (drop-prefix 4 key body size) (
          rw long (
            rw (take-prefix (length payload) (unmask key 0 payload) rest masked)
              (ap some (unmask-unmask key 0 payload h k))))))

-- A frame as RFC 6455 has a client send it: the mask bit, the key, and the masked payload.
unfoldable pub client_frame : Bytes → Bytes → Opcode → Bytes
client_frame key payload opcode =
    bit_or 0x80 (opcode_value opcode)
    ∷ (mark true (length_field (length payload)) ++ (key ++ unmask key 0 payload))

-- A frame that the server encodes, and a frame that a client sends masked, are decoded to their
-- opcode and payload whatever bytes follow; the payload is below 2^64 bytes, and the client's key
-- has four bytes.
pub decode_frame-encode_frame :
    (key payload : Bytes) (opcode : Opcode) (rest : Bytes)
    → length payload < 2 ^ 64
    → length key ≡ 4
    → IsBytes key
    → IsBytes payload
    → (decode_frame (encode_frame payload opcode ++ rest) ≡ returned (some (opcode, payload)))
      × (decode_frame (client_frame key payload opcode ++ rest) ≡ returned (some (opcode, payload)))
unfolding encode_frame client_frame
decode_frame-encode_frame key payload opcode rest fits size h k =
    let n = length payload in
    (
      rw (append_assoc (length_field n) payload rest) (
          decode_header false opcode n (payload ++ rest) fits
          ∙ ap (λ p. returned (with_opcode opcode p)) (plain_payload payload rest)),
      rw (append_assoc (mark true (length_field n)) (key ++ unmask key 0 payload) rest) (
          rw (append_assoc key (unmask key 0 payload) rest) (
            decode_header true opcode n (key ++ (unmask key 0 payload ++ rest)) fits
            ∙ ap (λ p. returned (with_opcode opcode p))
                (masked_payload key payload rest size h k))),
    )
