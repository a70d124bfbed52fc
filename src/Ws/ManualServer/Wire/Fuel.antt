-- ===== src/Ws/ManualServer/Wire/Fuel.antt =====
-- The rounds in which forwarder/app/ws/manual_server.py reads a payload.
use jd_relay.Common.{
  ℕ, zero, suc, ◌-◌, ◌<◌, ◌≤◌, ◌≡◌, refl, inl, inr, false, [], ◌∷◌, ◌++◌, Option, Bytes, length,
  length-append, ltb, arith, Bool-cases,
}
use jd_relay.Common.Outcome.{Outcome, returned, raised}
use jd_relay.Ws.ManualServer.Wire.{Stream, recv, smaller, and_then, on_chunk, read_payload}

same_rest :
    (r : Outcome Bytes × Stream) (k l : Bytes → Stream → Outcome (Option Bytes) × Stream)
    → ((c : Bytes) (s : Stream) → 0 < length c → k c s ≡ l c s)
    → and_then r (λ c s. on_chunk c s k) ≡ and_then r (λ c s. on_chunk c s l)
same_rest (raised e, s) k l h = refl
same_rest (returned [], s) k l h = refl
same_rest (returned (b ∷ bs), s) k l h = h (b ∷ bs) s (omega arith)

-- From the number of the missing bytes on, more fuel gives the same, whatever the socket gives.
read_payload-fuel :
    (f g n : ℕ) (payload : Bytes) (s : Stream)
    → n - length payload ≤ f
    → n - length payload ≤ g
    → read_payload f n payload s ≡ read_payload g n payload s
unfolding read_payload
read_payload-fuel zero zero n payload s h k = refl
read_payload-fuel zero (suc g) n payload s h k =
    let done : ltb (length payload) n ≡ false = ground arith in rw done refl
read_payload-fuel (suc f) zero n payload s h k =
    let done : ltb (length payload) n ≡ false = ground arith in rw done refl
read_payload-fuel (suc f) (suc g) n payload s h k = elim (Bool-cases (ltb (length payload) n)) [
  | inr done ↦ rw done refl
  | inl more ↦ rw more (
      same_rest (recv (smaller (n - length payload) 16384) s)
        (λ c s'. read_payload f n (payload ++ c) s') (λ c s'. read_payload g n (payload ++ c) s')
        (λ c s' some_read.
          read_payload-fuel f g n (payload ++ c) s' (omega (arith, length-append payload c))
            (omega (arith, length-append payload c))))
]
