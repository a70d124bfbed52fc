-- ===== src/Ws/RawWs/Prefixes.antt =====
-- A part of a frame is incomplete for the decoder of forwarder/app/ws/raw_ws.py.
use Prim.Native.Nat.{bit_or}
use jd_relay.Common.{
  ℕ, zero, suc, ◌+◌, ◌-◌, ◌%◌, ◌^◌, ◌<◌, ◌≡◌, refl, ap, ◌∙◌, inl, inr, true, [], ◌∷◌, ◌++◌, none,
  some, Bytes, length, take, length-append, length-take-le, take-append-ge, length-drop, ltb, arith,
  Bool-cases,
}
use jd_relay.Common.Outcome.{returned}
use jd_relay.Common.Words.{to_bytes, length-to_bytes}
use jd_relay.Ws.RawWs.{
  Opcode, opcode_value, length_field, unmask, decode_payload, decode_length, with_opcode,
  decode_frame,
}
use jd_relay.Ws.RawWs.Masks.{length-unmask}
use jd_relay.Ws.RawWs.Frames.{
  first_byte, decode_marked, decode_length-word, decode_length-short, client_frame,
}

payload_missing : (n i : ℕ) (body : Bytes) → i < 4 + n → decode_payload true n (take i body) ≡ none
unfolding decode_payload
payload_missing n i body h = ground (arith, length-take-le i body, length-drop 4 (take i body))

-- A frame with its length in `ext`: short parts hold no length, longer ones no payload.
module _ (opcode : Opcode) (n b : ℕ) (ext body : Bytes) (small : b < 128)
    (short : (r : Bytes) → length r < length ext → decode_length b r ≡ none)
    (long : (r : Bytes) → decode_length b (ext ++ r) ≡ some (n, r))
    (size : length body ≡ 4 + n) where
  length_missing :
      (r : Bytes)
      → length r < length ext
      → decode_frame (bit_or 0x80 (opcode_value opcode) ∷ (128 + b) ∷ r) ≡ returned none
  unfolding decode_frame
  length_missing r h =
      let low : (128 + b) % 128 ≡ b = omega arith in
      rw (first_byte opcode) (rw low (rw (short r h) refl))

  part_incomplete :
      (j : ℕ)
      → j < 2 + length ext + length body
      → decode_frame (take j (bit_or 0x80 (opcode_value opcode) ∷ (128 + b) ∷ (ext ++ body)))
        ≡ returned none
  part_incomplete zero h = unfold decode_frame in refl
  part_incomplete (suc zero) h = unfold decode_frame in refl
  part_incomplete (suc (suc i)) h = elim (Bool-cases (ltb i (length ext))) [
    | inl l ↦ length_missing (take i (ext ++ body)) (ground (arith, length-take-le i (ext ++ body)))
    | inr l ↦ rw (take-append-ge i ext body (ground arith)) (
        decode_marked true opcode b ext n (take (i - length ext) body) small
          (long (take (i - length ext) body))
        ∙ ap (λ p. returned (with_opcode opcode p))
            (payload_missing n (i - length ext) body (ground arith)))
  ]

short_word :
    (r : Bytes)
    → (length r < 2 → decode_length 126 r ≡ none) × (length r < 8 → decode_length 127 r ≡ none)
unfolding decode_length
short_word r = (λ h. ground arith, λ h. ground arith)

-- Any part of a client's frame that is not the whole of it is incomplete: the decoder asks for more.
pub decode_frame-take :
    (key payload : Bytes) (opcode : Opcode) (j : ℕ)
    → length payload < 2 ^ 64
    → length key ≡ 4
    → j < length (client_frame key payload opcode)
    → decode_frame (take j (client_frame key payload opcode)) ≡ returned none
unfolding client_frame length_field
decode_frame-take key payload opcode j fits size h =
    let n = length payload in
    let body = key ++ unmask key 0 payload in
    let full : length body ≡ 4 + n =
      omega (arith, length-append key (unmask key 0 payload), length-unmask key 0 payload) in
    elim (Bool-cases (ltb n 126)) [
      | inl p ↦ rw p (
          part_incomplete opcode n n [] body (ground arith) (λ r l. absurd (omega arith))
            (λ r. decode_length-short n r (ground arith)) full j (let g = rw p at h in omega arith))
      | inr p ↦ rw p (elim (Bool-cases (ltb n 65536)) [
        | inl q ↦ rw q (
            part_incomplete opcode n 126 (to_bytes 2 n) body (omega arith)
              (λ r l. (short_word r).0 (omega (arith, length-to_bytes 2 n)))
              (λ r. (decode_length-word n r).0 (ground arith)) full j
              (let g = rw (p, q) at h in
                omega (arith, length-append (to_bytes 2 n) body, length-to_bytes 2 n)))
        | inr q ↦ rw q (
            part_incomplete opcode n 127 (to_bytes 8 n) body (omega arith)
              (λ r l. (short_word r).1 (omega (arith, length-to_bytes 8 n)))
              (λ r. (decode_length-word n r).1 fits) full j
              (let g = rw (p, q) at h in
                omega (arith, length-append (to_bytes 8 n) body, length-to_bytes 8 n)))
      ])
    ]
