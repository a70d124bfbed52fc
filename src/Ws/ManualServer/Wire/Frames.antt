-- ===== src/Ws/ManualServer/Wire/Frames.antt =====
-- The frames of forwarder/app/ws/manual_server.py against those of forwarder/app/ws/raw_ws.py.
use Prim.Native.Nat.{bit_or}
use mathlib.Core.List.{append_assoc, append-nil}
use jd_relay.Common.{
  ℕ, zero, suc, ◌+◌, ◌-◌, ◌%◌, ◌^◌, ◌<◌, ◌≤◌, ◌≡◌, refl, ap, ◌∙◌, ◌⊎◌, inl, inr, true, false, [],
  ◌∷◌, ◌++◌, some, Option, Bytes, IsBytes, length, take, drop, take-prefix, drop-prefix,
  take-append-le, drop-append-le, length-take, length-append, take-append-drop, length-drop, ltb,
  arith, Bool-cases,
}
use jd_relay.Common.Outcome.{Outcome, returned, raised, overflow_error}
use jd_relay.Common.Words.{to_bytes, length-to_bytes, from_bytes-to_bytes}
use jd_relay.Ws.RawWs.{Opcode, text, opcode_value, length_field, encode_frame, unmask, at}
use jd_relay.Ws.RawWs.Masks.{unmask-unmask, length-unmask}
use jd_relay.Ws.RawWs.Frames.{client_frame}
use jd_relay.Ws.ManualServer.Wire.{
  Stream, behind, recv, smaller, on_chunk, read_payload, apply_mask, read_length, index, recv_rest,
  recv_frame, send_frame,
}

behind-some : (b : Bytes) (s : Stream) → 0 < length b → behind b s ≡ some b ∷ s
behind-some [] s h = absurd (omega arith)
behind-some (b ∷ bs) s h = refl

-- What a call gives where the segment is long enough.
recv_prefix :
    (k : ℕ) (xs ys : Bytes) (s : Stream)
    → 0 < k
    → length xs ≡ k
    → recv k (behind (xs ++ ys) s) ≡ (returned xs, behind ys s)
recv_prefix k xs ys s h size =
    rw (behind-some (xs ++ ys) s (omega (arith, length-append xs ys)))
      (unfold recv in rw (take-prefix k xs ys size, drop-prefix k xs ys size) refl)

on_filled :
    (c : Bytes) (s : Stream) (more : Bytes → Stream → Outcome (Option Bytes) × Stream)
    → 0 < length c
    → on_chunk c s more ≡ more c s
on_filled [] s more h = absurd (omega arith)
on_filled (b ∷ bs) s more h = refl

-- A call that leaves a part of the segment behind.
recv_part :
    (k : ℕ) (xs rest : Bytes) (s : Stream)
    → 0 < length xs
    → k ≤ length xs
    → recv k (behind (xs ++ rest) s) ≡ (returned (take k xs), behind (drop k xs ++ rest) s)
recv_part k xs rest s some_left h =
    rw (behind-some (xs ++ rest) s (omega (arith, length-append xs rest)))
      (unfold recv in rw (take-append-le k xs rest h, drop-append-le k xs rest h) refl)

-- A round takes at least one byte, and no more than is missing.
round_size :
    (n m : ℕ) (xs : Bytes)
    → m + length xs ≡ n
    → 0 < length xs
    → (0 < smaller (n - m) 16384) × (smaller (n - m) 16384 ≤ length xs)
round_size n m xs size h = ground arith

read_payload_step :
    (fuel n : ℕ) (payload xs rest : Bytes) (s : Stream)
    → length payload + length xs ≡ n
    → 0 < length xs
    → let k = smaller (n - length payload) 16384 in
      read_payload (suc fuel) n payload (behind (xs ++ rest) s)
      ≡ read_payload fuel n (payload ++ take k xs) (behind (drop k xs ++ rest) s)
unfolding read_payload
read_payload_step fuel n payload xs rest s size left =
    let k = smaller (n - length payload) 16384 in
    let (positive, fits) = round_size n (length payload) xs size left in
    let more : ltb (length payload) n ≡ true = ground arith in
    rw more (
      rw (recv_part k xs rest s left fits) (
        on_filled (take k xs) (behind (drop k xs ++ rest) s)
          (λ c s'. read_payload fuel n (payload ++ c) s') (omega (arith, length-take k xs fits))))

-- With the missing bytes as fuel or more, the loop reads them all and no more.
read_whole :
    (fuel n : ℕ) (payload xs rest : Bytes) (s : Stream)
    → length payload + length xs ≡ n
    → length xs ≤ fuel
    → read_payload fuel n payload (behind (xs ++ rest) s)
      ≡ (returned (some (payload ++ xs)), behind rest s)
unfolding read_payload
read_whole zero n payload [] rest s size enough = rw (append-nil payload) refl
read_whole zero n payload (x ∷ xs) rest s size enough = absurd (omega arith)
read_whole (suc fuel) n payload [] rest s size enough =
    let done : ltb (length payload) n ≡ false = ground arith in rw (done, append-nil payload) refl
read_whole (suc fuel) n payload (x ∷ xs) rest s size enough =
    let k = smaller (n - length payload) 16384 in
    let l = x ∷ xs in
    let left : 0 < length l = omega arith in
    let (positive, fits) = round_size n (length payload) l size left in
    read_payload_step fuel n payload l rest s size left
    ∙ read_whole fuel n (payload ++ take k l) (drop k l) rest s
        (omega (arith, length-append payload (take k l), length-take k l fits, length-drop k l))
        (omega (arith, length-drop k l))
    ∙ ap (λ p. (returned (some p), behind rest s))
        (append_assoc payload (take k l) (drop k l) ∙ ap (λ t. payload ++ t) (take-append-drop k l))

index-at : (key : Bytes) (i : ℕ) → i < length key → index key i ≡ returned (at key i)
index-at [] i h = absurd (omega arith)
index-at (b ∷ key) zero h = refl
index-at (b ∷ key) (suc i) h = index-at key i (omega arith)

mask_applied :
    (key payload : Bytes) (i : ℕ)
    → length key ≡ 4
    → apply_mask key i payload ≡ returned (unmask key i payload)
unfolding apply_mask unmask
mask_applied key [] i size = refl
mask_applied key (b ∷ bs) i size =
    rw (index-at key (i % 4) (omega arith), mask_applied key bs (suc i) size) refl

-- The length is read where it stands, by the three forms of its field.
length_read :
    (n : ℕ) (ys : Bytes) (s : Stream)
    → 0 < length ys
    → (n < 126 → read_length n (behind ys s) ≡ (returned n, behind ys s))
      × (n < 65536 → read_length 126 (behind (to_bytes 2 n ++ ys) s) ≡ (returned n, behind ys s))
      × (n < 2 ^ 64 → read_length 127 (behind (to_bytes 8 n ++ ys) s) ≡ (returned n, behind ys s))
unfolding read_length
length_read n ys s left = (
  λ h. ground arith,
  λ h.
      rw (recv_prefix 2 (to_bytes 2 n) ys s (omega arith) (length-to_bytes 2 n))
        (rw (from_bytes-to_bytes 2 n h) refl),
  λ h.
      rw (recv_prefix 8 (to_bytes 8 n) ys s (omega arith) (length-to_bytes 8 n))
        (rw (from_bytes-to_bytes 8 n (omega arith)) refl),
)

first_opcode : (opcode : Opcode) → bit_or 0x80 (opcode_value opcode) % 16 ≡ opcode_value opcode
unfolding opcode_value
first_opcode text = refl
first_opcode _ = refl

module _ (key payload rest : Bytes) (opcode : Opcode) (later : Stream) (size : length key ≡ 4)
    (h : IsBytes key) (k : IsBytes payload) where
  abbrev masked : Bytes
  masked = unmask key 0 payload

  -- A frame with its length in `ext`.
  framed :
      (b : ℕ) (ext : Bytes)
      → b < 128
      → read_length b (behind (ext ++ (key ++ (masked ++ rest))) later)
        ≡ (returned (length payload), behind (key ++ (masked ++ rest)) later)
      → recv_frame (
          some (bit_or 0x80 (opcode_value opcode) ∷ (128 + b) ∷ (ext ++ (key ++ (masked ++ rest))))
          ∷ later)
        ≡ (returned (some (opcode_value opcode, payload)), behind rest later)
  unfolding recv_frame recv_rest unmask opcode_value
  framed b ext small read =
      let low : (128 + b) % 128 ≡ b = omega arith in
      let whole =
        read_whole (length payload) (length payload) [] masked rest later
          (omega (arith, length-unmask key 0 payload))
          (omega (arith, length-unmask key 0 payload)) in
      rw (low, first_opcode opcode)
        (rw read (
          rw (recv_prefix 4 key (masked ++ rest) later (omega arith) size) (
            rw whole
              (rw (mask_applied key masked 0 size) (rw (unmask-unmask key 0 payload h k) refl)))))

-- A frame that a client sends masked is received as the number of its opcode and its payload, and what
-- follows it is left to the next call. The frame is all in the segment that comes first, the payload
-- is below 2^64 bytes, and the key has four bytes.
pub recv_frame-client_frame :
    (key payload rest : Bytes) (opcode : Opcode) (later : Stream)
    → length payload < 2 ^ 64
    → length key ≡ 4
    → IsBytes key
    → IsBytes payload
    → recv_frame (some (client_frame key payload opcode ++ rest) ∷ later)
      ≡ (returned (some (opcode_value opcode, payload)), behind rest later)
unfolding client_frame length_field
recv_frame-client_frame key payload rest opcode later fits size h k =
    let n = length payload in
    let ys = key ++ (unmask key 0 payload ++ rest) in
    let left : 0 < length ys = omega (arith, length-append key (unmask key 0 payload ++ rest)) in
    let (short, word, long) = length_read n ys later left in
    let with_length = framed key payload rest opcode later size h k in
    elim (Bool-cases (ltb n 126)) [
      | inl p ↦
          rw (p, append_assoc key (unmask key 0 payload) rest)
            (with_length n [] (ground arith) (short (ground arith)))
      | inr p ↦ elim (Bool-cases (ltb n 65536)) [
        | inl q ↦
            rw
              (
                p,
                q,
                append_assoc (to_bytes 2 n) (key ++ unmask key 0 payload) rest,
                append_assoc key (unmask key 0 payload) rest,
              )
              (with_length 126 (to_bytes 2 n) (omega arith) (word (ground arith)))
        | inr q ↦
            rw
              (
                p,
                q,
                append_assoc (to_bytes 8 n) (key ++ unmask key 0 payload) rest,
                append_assoc key (unmask key 0 payload) rest,
              )
              (with_length 127 (to_bytes 8 n) (omega arith) (long fits))
      ]
    ]

-- A text frame of up to 65535 bytes is what the other server encodes; sending a longer one raises
-- OverflowError.
send_frame-encode_frame :
    (payload : Bytes)
    → ((length payload < 65536)
        × (send_frame payload (opcode_value text) ≡ returned (encode_frame payload text)))
      ⊎ ((65536 ≤ length payload)
          × (send_frame payload (opcode_value text) ≡ raised overflow_error))
unfolding send_frame encode_frame length_field
send_frame-encode_frame payload = elim (Bool-cases (ltb (length payload) 65536)) [
  | inr q ↦ inr (ground arith, rw q (ground arith))
  | inl q ↦ inl (
    ground arith,
    elim (Bool-cases (ltb (length payload) 126)) [ inl p ↦ rw p refl | inr p ↦ rw (p, q) refl ],
  )
]
