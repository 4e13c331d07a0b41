-- ===== src/Base.antt =====
-- What the modules share: library names passed on, Boolean tests, machine words, arrays and the
-- laws of the bit operations.
mod Test
mod Word
mod Array
mod Step
mod Bits
mod Shift
mod Signed
mod Sequence
pub use Test.*
pub use Word.*
pub use Array.*
pub use Bits.*
pub use Shift.*
unfoldable pub use Signed.*
pub use Sequence.*
pub use Prim.Native.Nat.{ℕ, zero, suc, ◌+◌, ◌-◌, ◌*◌, ◌/◌, ◌%◌, ◌^◌, ◌≤◌, ◌<◌, min, max}
pub use Prim.Native.Nat.{bit_and, bit_or, bit_xor}
pub use mathlib.Core.Path.{◌≡◌, refl, sym, ◌∙◌, ap, ap₂}
pub use mathlib.Core.Logic.{◌≢◌, ◌↔◌, ◌⊎◌, inl, inr}
pub use mathlib.Core.Bool.{Bool, true, false, not, ◌&&◌, ◌||◌}
pub use mathlib.Core.Option.{Option, none, some}
pub use mathlib.Core.List.{List, [], ◌∷◌, ◌++◌}
pub use native.Mathlib.Omega.{arith}
