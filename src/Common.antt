-- ===== src/Common.antt =====
-- The vocabulary that every module shares: tests on numbers, lists and texts, Python's `dict` with
-- string keys, and signed integers. A Python `str` or `bytes` is the list of its code points or
-- bytes.
mod Tests
mod Lists
pub mod Int
mod Texts
pub mod Dict
pub mod Words
pub mod Json
pub mod Outcome
pub mod Utf8
pub mod Decimal
pub use Tests.*
pub use Lists.*
unfoldable pub use Texts.*
pub use Prim.Native.Nat.{ℕ, zero, suc, ◌+◌, ◌-◌, ◌*◌, ◌/◌, ◌%◌, ◌^◌, ◌≤◌, ◌<◌}
pub use mathlib.Core.Path.{◌≡◌, refl, sym, ap, ap₂, ◌∙◌}
pub use mathlib.Core.Logic.{◌≢◌, ◌↔◌, ◌⊎◌, inl, inr}
pub use mathlib.Core.Bool.{Bool, true, false, not, ◌&&◌, ◌||◌}
pub use mathlib.Core.Option.{Option, none, some}
pub use mathlib.Core.List.{List, [], ◌∷◌, ◌++◌, map}
pub use native.Mathlib.Omega.{arith}
