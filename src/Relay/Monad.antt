-- ===== src/Relay/Monad.antt =====
-- Methods of forwarder/app/services/relay.py that may raise and that act on a world.
use mathlib.Core.Option.{Option, none, some}
use jd_relay.Common.{Text}
use jd_relay.WorkOrder.{WorkOrderState}

pub data RelayError : Type 0 where
  bad_transition : WorkOrderState → WorkOrderState → RelayError
  unknown_state missing_key not_configured unknown_status dingtalk_error : RelayError
  no_agent : Text → RelayError

pub data Result {ℓ} (A : Type ℓ) : Type ℓ where
  ok : A → Result A
  failure : RelayError → Result A

-- A method that may raise and that acts on the world.
abbrev pub Exec {ℓ} : Type 0 → Type ℓ → Type ℓ
Exec W A = W → Result A × W

infixl 5 ◌>>=◌ ◌>>◌
abbrev pub continue {ℓ κ} :
    {W : Type 0} {A : Type ℓ} {B : Type κ} → Result A → (A → Exec W B) → Exec W B
continue (ok a) f w = f a w
continue (failure e) f w = (failure e, w)

abbrev pub ◌>>=◌ {ℓ κ} :
    {W : Type 0} {A : Type ℓ} {B : Type κ} → Exec W A → (A → Exec W B) → Exec W B
◌>>=◌ m f w = let r = m w in continue r.0 f r.1

abbrev pub ◌>>◌ {ℓ κ} : {W : Type 0} {A : Type ℓ} {B : Type κ} → Exec W A → Exec W B → Exec W B
m >> n = m >>= λ _. n

module _ {ℓ} {W : Type 0} {A : Type ℓ} where
  abbrev pub pure : A → Exec W A
  pure a w = (ok a, w)

  abbrev pub throw : RelayError → Exec W A
  throw e w = (failure e, w)

  abbrev pub or_throw : RelayError → Option A → Exec W A
  or_throw e none w = (failure e, w)
  or_throw e (some a) w = (ok a, w)
