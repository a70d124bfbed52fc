-- ===== src/Common/Utf8.antt =====
-- `s.encode("utf-8")` and `b.decode("utf-8")`; `none` is a UnicodeError.
use Prim.Native.Nat.{ℕ, zero, suc, ◌+◌, ◌-◌, ◌*◌, ◌/◌, ◌%◌, ◌≤◌, ◌<◌}
use mathlib.Core.Path.{◌≡◌, refl, ap, ◌∙◌}
use mathlib.Core.Bool.{Bool, true, false, not, ◌&&◌}
use mathlib.Core.Option.{Option, none, some}
use mathlib.Core.List.{[], ◌∷◌, ◌++◌}
use native.Mathlib.Omega.{arith}
use mathlib.Core.Logic.{inl, inr}
use jd_relay.Common.Tests.{Bool-cases, Option-cases, ltb, leb, if◌then◌else◌}
use jd_relay.Common.Lists.{All}
use jd_relay.Common.Texts.{Text, Bytes}

-- A code point that is no surrogate.
abbrev pub is_scalar : ℕ → Bool
is_scalar c = ltb c 1114112 && not (leb 55296 c && leb c 57343)

encode_char : ℕ → Bytes
encode_char c =
    if ltb c 128
    then c ∷ []
    else if ltb c 2048
    then (192 + c / 64) ∷ (128 + c % 64) ∷ []
    else if ltb c 65536
    then (224 + c / 4096) ∷ (128 + c / 64 % 64) ∷ (128 + c % 64) ∷ []
    else (240 + c / 262144) ∷ (128 + c / 4096 % 64) ∷ (128 + c / 64 % 64) ∷ (128 + c % 64) ∷ []

abbrev prepend : Bytes → Option Bytes → Option Bytes
prepend b none = none
prepend b (some bs) = some (b ++ bs)

unfoldable pub utf8_encode : Text → Option Bytes
unfolding encode_char
utf8_encode [] = some []
utf8_encode (c ∷ s) =
    let rest = utf8_encode s in if is_scalar c then prepend (encode_char c) rest else none

-- What a leading byte announces: how many bytes follow, less one, the bits that it carries, and the
-- least code point that needs so many bytes.
pub data Lead : Type 0 where
  invalid : Lead
  ascii : Lead
  lead : ℕ → ℕ → ℕ → Lead

lead_of : ℕ → Lead
lead_of b =
    if ltb b 128
    then ascii
    else if ltb b 192
    then invalid
    else if ltb b 224
    then lead 0 (b - 192) 128
    else if ltb b 240
    then lead 1 (b - 224) 2048
    else if ltb b 248
    then lead 2 (b - 240) 65536
    else invalid

abbrev emit : ℕ → Option Text → Option Text
emit c none = none
emit c (some s) = some (c ∷ s)

-- The first argument counts the continuation bytes that are still to come.
scan : ℕ → ℕ → ℕ → Bytes → Option Text
unfolding lead_of
scan zero acc low [] = some []
scan (suc n) acc low [] = none
scan zero acc low (b ∷ bs) = elim (lead_of b) [
  | invalid ↦ none
  | ascii ↦ emit b (scan 0 0 0 bs)
  | lead k v least ↦ scan (suc k) v least bs
]
scan (suc zero) acc low (b ∷ bs) =
    elim (leb 128 b
      && ltb b 192
      && leb low (acc * 64 + (b - 128))
      && is_scalar (acc * 64 + (b - 128))) [
        | true ↦ emit (acc * 64 + (b - 128)) (scan 0 0 0 bs)
        | false ↦ none
      ]
scan (suc (suc n)) acc low (b ∷ bs) = elim (leb 128 b && ltb b 192) [
  | true ↦ scan (suc n) (acc * 64 + (b - 128)) low bs
  | false ↦ none
]

unfoldable pub utf8_decode : Bytes → Option Text
unfolding scan
utf8_decode bs = scan 0 0 0 bs

module _ (c : ℕ) (bs : Bytes) where
  scan_one : c < 128 → scan 0 0 0 (c ∷ bs) ≡ emit c (scan 0 0 0 bs)
  unfolding scan
  scan_one h = ground arith

scan_last :
    (acc low b : ℕ) (bs : Bytes) (c : ℕ)
    → 128 ≤ b
    → b < 192
    → acc * 64 + (b - 128) ≡ c
    → low ≤ c
    → is_scalar c ≡ true
    → scan 1 acc low (b ∷ bs) ≡ emit c (scan 0 0 0 bs)
unfolding scan
scan_last acc low b bs c h k e l s = rw (e, scan) (ground arith)

scan_next :
    (n acc low b : ℕ) (bs : Bytes)
    → 128 ≤ b
    → b < 192
    → scan (suc (suc n)) acc low (b ∷ bs) ≡ scan (suc n) (acc * 64 + (b - 128)) low bs
unfolding scan
scan_next n acc low b bs h k = ground arith

scan_lead :
    (b k v least : ℕ) (bs : Bytes)
    → lead_of b ≡ lead k v least
    → scan 0 0 0 (b ∷ bs) ≡ scan (suc k) v least bs
unfolding scan
scan_lead b k v least bs e = rw (e, scan) refl

scan-encode_char :
    (c : ℕ) (bs : Bytes)
    → is_scalar c ≡ true
    → scan 0 0 0 (encode_char c ++ bs) ≡ emit c (scan 0 0 0 bs)
unfolding encode_char
scan-encode_char c bs h = elim (Bool-cases (ltb c 128)) [
  | inl p ↦ rw p (scan_one c bs (ground arith))
  | inr p ↦ rw p (elim (Bool-cases (ltb c 2048)) [
    | inl q ↦ rw q (
        scan_lead (192 + c / 64) 0 (192 + c / 64 - 192) 128 _ (unfold lead_of in ground arith)
        ∙ scan_last (192 + c / 64 - 192) 128 (128 + c % 64) bs c (omega arith) (omega arith)
            (omega arith) (ground arith) h)
    | inr q ↦ rw q (elim (Bool-cases (ltb c 65536)) [
      | inl r ↦ rw r (
          scan_lead (224 + c / 4096) 1 (224 + c / 4096 - 224) 2048 _
            (unfold lead_of in ground arith)
          ∙ scan_next 0 (224 + c / 4096 - 224) 2048 (128 + c / 64 % 64) _ (omega arith)
              (omega arith)
          ∙ scan_last _ 2048 (128 + c % 64) bs c (omega arith) (omega arith) (omega arith)
              (ground arith) h)
      | inr r ↦ rw r (
          scan_lead (240 + c / 262144) 2 (240 + c / 262144 - 240) 65536 _
            (unfold lead_of in ground arith)
          ∙ scan_next 1 (240 + c / 262144 - 240) 65536 (128 + c / 4096 % 64) _ (omega arith)
              (omega arith)
          ∙ scan_next 0 _ 65536 (128 + c / 64 % 64) _ (omega arith) (omega arith)
          ∙ scan_last _ 65536 (128 + c % 64) bs c (omega arith) (omega arith) (omega arith)
              (ground arith) h)
    ])
  ])
]

-- A text that can be encoded is read back.
pub utf8_decode-encode : (s : Text) {b : Bytes} → utf8_encode s ≡ some b → utf8_decode b ≡ some s
unfolding utf8_encode utf8_decode
utf8_decode-encode [] {b} h = cc
utf8_decode-encode (c ∷ s) {b} h = elim (Option-cases (utf8_encode s)) [
  | inl e ↦ absurd (ground arith)
  | inr (bs, e) ↦
      let split : (is_scalar c ≡ true) × (encode_char c ++ bs ≡ b) = ground arith in
      rw (← split.1) (
        (unfold utf8_decode in scan-encode_char c bs split.0)
        ∙ ap (emit c) (unfold utf8_decode in utf8_decode-encode s e))
]

-- An ASCII text is its own encoding.
pub utf8_encode-ascii : (s : Text) → All (λ c. c < 128) s → utf8_encode s ≡ some s
unfolding utf8_encode
utf8_encode-ascii [] h = refl
utf8_encode-ascii (c ∷ s) h = rw (utf8_encode-ascii s h.1) (ground arith)
