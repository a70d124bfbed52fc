-- ===== src/Common/Texts.antt =====
-- Python's `str` and `bytes` as lists of code points or bytes, and their equality test.
use Prim.Native.Char.{code}
use Prim.Native.String.{String}
use Prim.Native.Nat.{ℕ, ◌<◌}
use mathlib.Core.Path.{◌≡◌, refl}
use mathlib.Core.Logic.{◌↔◌, ◌⊎◌, inl, inr}
use mathlib.Core.Bool.{Bool, true, false, ◌&&◌, ◌||◌}
use mathlib.Core.List.{List, [], ◌∷◌, ◌++◌}
use native.Mathlib.Omega.{arith}
use jd_relay.Common.Tests.{ltb, leb, ◌==◌, Bool-cases, if◌then◌else◌}
use jd_relay.Common.Lists.{All, All-append}

abbrev pub Text : Type 0
Text = List ℕ

abbrev pub Bytes : Type 0
Bytes = List ℕ

-- Every element fits one byte.
abbrev pub IsBytes : Bytes → Type 0
IsBytes = All (λ x. x < 256)

-- The code points of a literal.
abbrev pub codes : String → Text
codes String.[] = []
codes (String.◌∷◌ c s) = code c ∷ codes s

-- White space of ASCII.
abbrev pub is_space : ℕ → Bool
is_space c = (leb 9 c && leb c 13) || c == b' '

-- `a == b` on strings.
unfoldable pub text_eq : Text → Text → Bool
text_eq [] [] = true
text_eq [] (y ∷ ys) = false
text_eq (x ∷ xs) [] = false
text_eq (x ∷ xs) (y ∷ ys) = (x == y) && text_eq xs ys

pub text_eq_iff : (a b : Text) → (text_eq a b ≡ true) ↔ (a ≡ b)
unfolding text_eq
text_eq_iff [] [] = (λ h. refl, λ h. refl)
text_eq_iff [] (y ∷ ys) = (λ h. cc, λ h. cc)
text_eq_iff (x ∷ xs) [] = (λ h. cc, λ h. cc)
text_eq_iff (x ∷ xs) (y ∷ ys) = ground (arith, text_eq_iff xs ys)

pub text_eq_refl : (a : Text) → text_eq a a ≡ true
text_eq_refl a = (text_eq_iff a a).1 refl

pub text_eq-cases : (a b : Text) → (a ≡ b) ⊎ (text_eq a b ≡ false)
text_eq-cases a b = elim (Bool-cases (text_eq a b)) [
  | inl e ↦ inl ((text_eq_iff a b).0 e)
  | inr n ↦ inr n
]

pub text_decided :
    (s t : Text) → ((s ≡ t) × (text_eq s t ≡ true)) ⊎ ((¬ (s ≡ t)) × (text_eq s t ≡ false))
text_decided s t = elim (Bool-cases (text_eq s t)) [
  | inl e ↦ inl ((text_eq_iff s t).0 e, e)
  | inr e ↦ inr (λ p. cc ((text_eq_iff s t).1 p), e)
]

-- `sep.join(parts)`
unfoldable pub join : Text → List Text → Text
join sep [] = []
join sep (x ∷ []) = x
join sep (x ∷ y ∷ parts) = x ++ (sep ++ join sep (y ∷ parts))

-- `s.replace(c, "")` for a single character.
unfoldable pub delete : ℕ → Text → Text
delete c [] = []
delete c (x ∷ xs) = let rest = delete c xs in if x == c then rest else x ∷ rest

-- Whether a string is not empty: Python's `if s`.
abbrev pub is_truthy : Text → Bool
is_truthy [] = false
is_truthy (x ∷ xs) = true

-- `s.isascii()`
abbrev pub is_ascii : Text → Bool
is_ascii [] = true
is_ascii (c ∷ s) = ltb c 128 && is_ascii s

module _ {κ} (P : ℕ → Type κ) where
  pub All-join :
      (sep : Text) (parts : List Text) → All P sep → All (All P) parts → All P (join sep parts)
  unfolding join
  All-join sep [] h k = tt
  All-join sep (x ∷ []) h k = k.0
  All-join sep (x ∷ y ∷ parts) h k =
      All-append P x (sep ++ join sep (y ∷ parts)) k.0
        (All-append P sep (join sep (y ∷ parts)) h (All-join sep (y ∷ parts) h k.1))

abbrev pub IsAscii : ℕ → Type 0
IsAscii c = c < 128
