-- ===== src/Ws/RawWs/Masks.antt =====
-- Masking twice with the same key changes nothing, for forwarder/app/ws/raw_ws.py.
use Prim.Native.Nat.{bit_xor}
use jd_relay.Common.{
  if◌then◌else◌, ℕ, zero, suc, ◌%◌, ◌<◌, ◌≡◌, refl, Bool, true, false, [], ◌∷◌, Bytes, IsBytes,
  ◌==◌, arith, length,
}
use jd_relay.Ws.RawWs.{at, unmask}

-- Whether masking a byte twice gives it back, for every key byte below a bound.
keys_restore : ℕ → ℕ → Bool
keys_restore byte zero = true
keys_restore byte (suc k) =
    let others = keys_restore byte k in if bit_xor (bit_xor byte k) k == byte then others else false

bytes_restored : ℕ → Bool
bytes_restored zero = true
bytes_restored (suc byte) =
    let others = bytes_restored byte in if keys_restore byte 256 then others else false

keys_restore-at :
    (byte bound k : ℕ)
    → k < bound
    → keys_restore byte bound ≡ true
    → bit_xor (bit_xor byte k) k ≡ byte
unfolding keys_restore
keys_restore-at byte zero k below h = absurd (omega arith)
keys_restore-at byte (suc bound) k below h = ground (arith, keys_restore-at byte bound k)

bytes_restored-at :
    (bound byte : ℕ) → byte < bound → bytes_restored bound ≡ true → keys_restore byte 256 ≡ true
unfolding bytes_restored
bytes_restored-at zero byte below h = absurd (omega arith)
bytes_restored-at (suc bound) byte below h = ground (arith, bytes_restored-at bound byte)

every_byte : bytes_restored 256 ≡ true
unfolding bytes_restored keys_restore
every_byte = refl

xor_twice : (x k : ℕ) → x < 256 → k < 256 → bit_xor (bit_xor x k) k ≡ x
xor_twice x k h l = keys_restore-at x 256 k l (bytes_restored-at 256 x h every_byte)

at-byte : (key : Bytes) (i : ℕ) → IsBytes key → at key i < 256
at-byte [] i h = omega arith
at-byte (b ∷ key) zero h = h.0
at-byte (b ∷ key) (suc i) h = at-byte key i h.1

-- Masking and unmasking with the same key of bytes gives the payload.
pub unmask-unmask :
    (key : Bytes) (i : ℕ) (payload : Bytes)
    → IsBytes key
    → IsBytes payload
    → unmask key i (unmask key i payload) ≡ payload
unfolding unmask
unmask-unmask key i [] h k = refl
unmask-unmask key i (b ∷ bs) h k = cc (
  xor_twice b (at key (i % 4)) (k.0) (at-byte key (i % 4) h),
  unmask-unmask key (suc i) bs h (k.1),
)

pub length-unmask :
    (key : Bytes) (i : ℕ) (payload : Bytes) → length (unmask key i payload) ≡ length payload
unfolding unmask
length-unmask key i [] = refl
length-unmask key i (b ∷ bs) = omega (arith, length-unmask key (suc i) bs)
