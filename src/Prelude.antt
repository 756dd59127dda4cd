-- ===== src/Prelude.antt =====
-- What the modules share: library names passed on, Boolean tests, lists over the native numbers,
-- arrays as functions, outcomes of code that may panic, and words of C.
mod Tests
mod Lists
mod Bits
unfoldable pub use Bits.{digit}
pub use Bits.*
mod Check
mod Pigeon
pub use Pigeon.*
pub use Tests.*
pub use Lists.*
pub use Check.*
pub use Prim.Native.Nat.{ℕ, zero, suc, ◌+◌, ◌-◌, ◌*◌, ◌/◌, ◌%◌, ◌^◌, ◌≤◌, ◌<◌, min, max}
pub use mathlib.Core.Path.{◌≡◌, refl, sym, ap, subst, ap₂, ◌∙◌, fun_ext}
pub use mathlib.Core.Logic.{◌≢◌, ◌↔◌, ◌⊎◌, inl, inr}
pub use mathlib.Core.Bool.{Bool, true, false, ◌&&◌, ◌||◌, not}
pub use mathlib.Core.Option.{Option, none, some}
pub use mathlib.Core.List.{List, [], ◌∷◌, ◌++◌, map}
pub use native.Mathlib.Omega.{arith}
