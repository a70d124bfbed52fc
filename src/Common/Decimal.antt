-- ===== src/Common/Decimal.antt =====
-- `str(n)` of a Python integer.
use mathlib.Core.WellFounded.{Acc}
use mathlib.Core.Logic.{dite}
use native.Mathlib.Decide.{dec_lt}
use Prim.Native.Nat.{ℕ, zero, suc, ◌+◌, ◌-◌, ◌*◌, ◌/◌, ◌%◌, ◌≤◌, ◌<◌}
use mathlib.Core.Path.{◌≡◌, refl, ◌∙◌, ap, sym}
use mathlib.Core.Logic.{◌≢◌}
use mathlib.Core.List.{[], ◌∷◌, ◌++◌}
use native.Mathlib.Omega.{arith}
use jd_relay.Common.Lists.{All, All-append}
use jd_relay.Common.Int.{ℤ, pos, negsuc}
use jd_relay.Common.Texts.{Text}

below-Acc : (k n : ℕ) → n < k → Acc ◌<◌ n
below-Acc zero n h = absurd (omega arith)
below-Acc (suc k) n h = Acc.intro n (λ m p. below-Acc k m (omega arith))

tenth-lt : {n : ℕ} → 9 < n → n / 10 < n
tenth-lt h = omega arith

digits_acc : (n : ℕ) → Acc ◌<◌ n → Text
digits_acc n (Acc.intro _ smaller) =
    dite (dec_lt 9 n)
      (λ h. digits_acc (n / 10) (smaller (n / 10) (tenth-lt h)) ++ (b'0' + n % 10) ∷ [])
      (λ _. (b'0' + n) ∷ [])

unfoldable pub digits : ℕ → Text
unfolding digits_acc below-Acc tenth-lt dec_lt
digits n = digits_acc n (below-Acc (suc n) n (omega arith))

unfoldable pub str : ℤ → Text
unfolding digits
str (pos n) = digits n
str (negsuc n) = b'-' ∷ digits (suc n)

-- The number that a text of digits stands for, after the digits read so far.
pub read : ℕ → Text → ℕ
read n [] = n
read n (c ∷ s) = read (n * 10 + (c - b'0')) s

read-append : (n : ℕ) (s t : Text) → read n (s ++ t) ≡ read (read n s) t
unfolding read
read-append n [] t = refl
read-append n (c ∷ s) t = read-append (n * 10 + (c - b'0')) s t

abbrev pub IsDigit : ℕ → Type 0
IsDigit c = (48 ≤ c) × (c ≤ 57)

abbrev branches : (n : ℕ) → ((m : ℕ) → m < n → Acc ◌<◌ m) → Dec (9 < n) → Text
branches n smaller d =
    dite d (λ h. digits_acc (n / 10) (smaller (n / 10) (tenth-lt h)) ++ (b'0' + n % 10) ∷ [])
      (λ _. (b'0' + n) ∷ [])

read-digits_acc : (n : ℕ) (w : Acc ◌<◌ n) → read 0 (digits_acc n w) ≡ n
unfolding digits_acc read
read-digits_acc n (Acc.intro _ smaller) =
    elim (dec_lt 9 n) as (λ d. read 0 (branches n smaller d) ≡ n) [
      | yes h ↦
          let ih = read-digits_acc (n / 10) (smaller (n / 10) (tenth-lt h)) in
          rw
            (read-append 0 (digits_acc (n / 10) (smaller (n / 10) (tenth-lt h)))
              ((b'0' + n % 10) ∷ []))
            (omega arith)
      | no h ↦ omega arith
    ]

digits_acc-IsDigit : (n : ℕ) (w : Acc ◌<◌ n) → All IsDigit (digits_acc n w)
unfolding digits_acc
digits_acc-IsDigit n (Acc.intro _ smaller) =
    elim (dec_lt 9 n) as (λ d. All IsDigit (branches n smaller d)) [
      | yes h ↦
          All-append IsDigit (digits_acc (n / 10) (smaller (n / 10) (tenth-lt h)))
            ((b'0' + n % 10) ∷ []) (digits_acc-IsDigit (n / 10) (smaller (n / 10) (tenth-lt h)))
            (omega arith)
      | no h ↦ omega arith
    ]

pub read-digits : (n : ℕ) → read 0 (digits n) ≡ n
unfolding digits
read-digits n = read-digits_acc n (below-Acc (suc n) n (omega arith))

pub digits-IsDigit : (n : ℕ) → All IsDigit (digits n)
unfolding digits
digits-IsDigit n = digits_acc-IsDigit n (below-Acc (suc n) n (omega arith))

-- No text of digits begins with a minus sign.
digits-ne-minus : (n : ℕ) (s : Text) → digits n ≢ b'-' ∷ s
digits-ne-minus n s e =
    let d = digits-IsDigit n in let d' : All IsDigit (b'-' ∷ s) = rw e at d in omega (arith, d'.0)

digits-injective : (m n : ℕ) → digits m ≡ digits n → m ≡ n
digits-injective m n e = sym (read-digits m) ∙ ap (read 0) e ∙ read-digits n

tail_of : Text → Text
tail_of [] = []
tail_of (c ∷ s) = s

-- Different integers print differently.
pub str-injective : (m n : ℤ) → str m ≡ str n → m ≡ n
unfolding str tail_of
str-injective (pos m) (pos n) e = ap pos (digits-injective m n e)
str-injective (pos m) (negsuc n) e = absurd (digits-ne-minus m (digits (suc n)) e)
str-injective (negsuc m) (pos n) e = absurd (digits-ne-minus n (digits (suc m)) (sym e))
str-injective (negsuc m) (negsuc n) e =
    let p = digits-injective (suc m) (suc n) (ap tail_of e) in ap negsuc (omega arith)
