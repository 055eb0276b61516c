-- ===== src/Base.antt =====
-- Names that every other module shares: the libraries', passed on, and those of the children.
-- Machine words are native numbers, with their wrap-around written out.
mod Tests
mod Lists
mod Words
mod Results
mod Loops
pub mod Bits
pub mod Int
pub mod Order
pub mod Text
pub use Tests.*
pub use Lists.*
pub use Words.*
pub use Results.*
unfoldable pub use Loops.*
pub use Prim.Native.Nat.{
  ℕ, zero, suc, ◌+◌, ◌-◌, ◌*◌, ◌/◌, ◌%◌, ◌^◌, ◌≤◌, ◌<◌, min, max, bit_and, bit_or, bit_xor,
}
pub use mathlib.Core.Path.{◌≡◌, refl, sym, ap, ap₂, subst, ◌∙◌, fun_ext}
pub use mathlib.Core.Logic.{◌≢◌, ◌↔◌, ◌⊎◌, inl, inr}
pub use mathlib.Core.Bool.{Bool, true, false, not, ◌&&◌, ◌||◌}
pub use mathlib.Core.Option.{Option, none, some}
pub use mathlib.Core.List.{List, [], ◌∷◌, ◌++◌, map}
pub use native.Mathlib.Omega.{arith}
