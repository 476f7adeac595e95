-- ===== src/Base.antt =====
-- Names that the other modules share: the libraries', passed on, with Boolean tests on the native
-- numbers, integers and point updates of maps.
mod Tests
pub mod Int
pub mod Maps
pub mod Totals
pub mod Text
pub mod Words
pub mod Order
pub mod Pages
pub mod Parts
pub mod Result
pub mod Environment
pub mod Decimal
pub use Tests.*
pub use Prim.Native.Nat.{ℕ, zero, suc, ◌+◌, ◌-◌, ◌*◌, ◌/◌, ◌%◌, ◌^◌, ◌≤◌, ◌<◌}
pub use mathlib.Core.Path.{◌≡◌, refl, sym, ap, ◌∙◌, subst}
pub use mathlib.Core.Logic.{◌≢◌, ◌↔◌, ◌⊎◌, inl, inr}
pub use mathlib.Core.Bool.{Bool, true, false, not, ◌&&◌, ◌||◌}
pub use mathlib.Core.Option.{Option, none, some}
pub use mathlib.Core.List.{List, [], ◌∷◌, ◌++◌, map}
pub use native.Mathlib.Omega.{arith}
