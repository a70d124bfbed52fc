-- ===== src/Common/Outcome.antt =====
-- A call that returns or raises.
use mathlib.Core.Bool.{Bool, true, false}
use mathlib.Core.Option.{Option, none, some}
use mathlib.Core.Path.{◌≡◌, refl}
use mathlib.Core.Logic.{◌⊎◌, inl, inr}

pub data Exception : Type 0 where
  value_error type_error key_error attribute_error runtime_error unicode_error : Exception
  -- what a third-party library raises
  library_error : Exception
  -- the WebSocket's, and the program's own
  disconnected handshake_error : Exception
  index_error overflow_error : Exception

pub data Outcome {ℓ} (A : Type ℓ) : Type ℓ where
  returned : A → Outcome A
  raised : Exception → Outcome A

infixl 5 ◌>>=◌ ◌>>◌
abbrev pub ◌>>=◌ {ℓ κ} : {A : Type ℓ} {B : Type κ} → Outcome A → (A → Outcome B) → Outcome B
returned a >>= f = f a
raised e >>= f = raised e

abbrev pub ◌>>◌ {ℓ} : {B : Type ℓ} → Outcome (Unit {0}) → Outcome B → Outcome B
m >> k = m >>= λ _. k

-- A missing result as an exception.
abbrev pub or_raise {ℓ} : {A : Type ℓ} → Exception → Option A → Outcome A
or_raise e none = raised e
or_raise e (some a) = returned a

abbrev pub unless : Bool → Exception → Outcome (Unit {0})
unless true e = returned tt
unless false e = raised e

-- A step that may raise, in a method that changes an object: what the object was stays.
abbrev pub attempt {ℓ κ μ} :
    {A : Type ℓ} {B : Type κ} {S : Type μ} → Outcome A → S → (A → Outcome B × S) → Outcome B × S
attempt (returned a) s k = k a
attempt (raised e) s k = (raised e, s)

pub Outcome-cases {ℓ} :
    {A : Type ℓ} (o : Outcome A) → ((a : A) × (o ≡ returned a)) ⊎ ((e : Exception) × (o ≡ raised e))
Outcome-cases (returned a) = inl (a, refl)
Outcome-cases (raised e) = inr (e, refl)

pub or_raise-returned {ℓ} :
    {A : Type ℓ} (e : Exception) (o : Option A) {a : A} → or_raise e o ≡ returned a → o ≡ some a
or_raise-returned e none h = cc
or_raise-returned e (some a) h = cc

pub returned_injective {ℓ} : {A : Type ℓ} {x y : A} → returned x ≡ returned y → x ≡ y
returned_injective h = cc
