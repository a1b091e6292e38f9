-- ===== src/Base.antt =====
-- The names, tests, lists and outcomes that the models of all packages share.
mod Tests
mod Lists
mod Outcomes
mod Slices
pub mod Order
pub mod Int
pub use Tests.*
unfoldable pub use Tests.{each_below}
pub use Lists.*
pub use Outcomes.*
pub use Slices.*
unfoldable pub use Slices.{slice}
pub use Prim.Native.Nat.{ℕ, zero, suc, ◌+◌, ◌-◌, ◌*◌, ◌/◌, ◌%◌, ◌^◌, ◌≤◌, ◌<◌, min, max}
pub use mathlib.Core.Path.{◌≡◌, refl, sym, ap, ◌∙◌}
pub use mathlib.Core.Logic.{◌≢◌, ◌↔◌, ◌⊎◌, inl, inr}
pub use mathlib.Core.Bool.{Bool, true, false, not, ◌&&◌, ◌||◌}
pub use mathlib.Core.Option.{Option, none, some}
pub use mathlib.Core.List.{List, [], ◌∷◌, ◌++◌, map, append_assoc, append-nil}
pub use native.Mathlib.Omega.{arith}
