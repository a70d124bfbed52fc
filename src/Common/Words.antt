-- ===== src/Common/Words.antt =====
-- Unsigned words in network byte order: `struct.pack`, `int.to_bytes` and their readers.
use Prim.Native.Nat.{ℕ, zero, suc, ◌+◌, ◌*◌, ◌/◌, ◌%◌, ◌^◌, ◌<◌}
use mathlib.Core.Path.{◌≡◌, refl}
use mathlib.Core.List.{[], ◌∷◌, ◌++◌}
use native.Mathlib.Omega.{arith}
use native.Mathlib.Nat.{pow-suc}
use jd_relay.Common.Texts.{Bytes}
use jd_relay.Common.Lists.{length, length-append}

-- The last `k` bytes of a number.
unfoldable pub to_bytes : ℕ → ℕ → Bytes
to_bytes zero n = []
to_bytes (suc k) n = to_bytes k (n / 256) ++ (n % 256) ∷ []

from_bytes_after : ℕ → Bytes → ℕ
from_bytes_after n [] = n
from_bytes_after n (b ∷ bs) = from_bytes_after (n * 256 + b) bs

unfoldable pub from_bytes : Bytes → ℕ
unfolding from_bytes_after
from_bytes bs = from_bytes_after 0 bs

from_bytes_after-append :
    (n : ℕ) (s t : Bytes) → from_bytes_after n (s ++ t) ≡ from_bytes_after (from_bytes_after n s) t
unfolding from_bytes_after
from_bytes_after-append n [] t = refl
from_bytes_after-append n (b ∷ s) t = from_bytes_after-append (n * 256 + b) s t

pub length-to_bytes : (k n : ℕ) → length (to_bytes k n) ≡ k
unfolding to_bytes
length-to_bytes zero n = refl
length-to_bytes (suc k) n =
    omega
      (arith, length-append (to_bytes k (n / 256)) ((n % 256) ∷ []), length-to_bytes k (n / 256))

-- A number that fits is read back.
pub from_bytes-to_bytes : (k n : ℕ) → n < 256 ^ k → from_bytes (to_bytes k n) ≡ n
unfolding from_bytes to_bytes
from_bytes-to_bytes zero n h = omega arith
from_bytes-to_bytes (suc k) n h =
    let fits : n / 256 < 256 ^ k = omega (arith, pow-suc 256 k) in
    let ih = from_bytes-to_bytes k (n / 256) fits in
    rw (from_bytes_after-append 0 (to_bytes k (n / 256)) ((n % 256) ∷ []))
      (unfold from_bytes_after in omega (arith, ih))
