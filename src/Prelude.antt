-- ===== src/Prelude.antt =====
-- Names shared by every module of the kernel and shell model: the libraries' logic, data and native
-- numbers, the Boolean tests of `Prelude.Tests`, the list operations of `Prelude.Lists`
-- and the checks by evaluation of `Prelude.Finite`.
mod Tests
mod Lists
mod Finite
pub mod Int
pub use Tests.*
pub use Lists.*
unfoldable pub use Finite.*
pub use Prim.Native.Nat.{ℕ, zero, suc, ◌+◌, ◌-◌, ◌*◌, ◌/◌, ◌%◌, ◌^◌, ◌≤◌, ◌<◌, min, max}
pub use Prim.Native.Nat.{bit_and, bit_or, bit_xor}
pub use mathlib.Core.Path.{◌≡◌, refl, sym, ap, ◌∙◌}
pub use mathlib.Core.Logic.{◌≢◌, ◌↔◌, ◌⊎◌, inl, inr}
pub use mathlib.Core.Bool.{Bool, true, false, not, ◌&&◌, ◌||◌}
pub use mathlib.Core.Option.{Option, none, some}
pub use mathlib.Core.List.{List, [], ◌∷◌, ◌++◌, map}
pub use native.Mathlib.Omega.{arith}
