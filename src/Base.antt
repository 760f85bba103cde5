-- ===== src/Base.antt =====
-- The names that the modules share: the libraries', passed on, and those of the children: tests
-- on numbers, lists, signed integers, rows of a table, and actions that may fail.
mod Tests
mod Lists
pub mod Int
pub mod Rows
pub mod Text
pub mod Strings
pub mod Time
pub mod Action
pub mod Keeps
pub mod Hoare
pub mod Atomic
pub mod Inversion
pub mod Runs
pub use Tests.*
pub use Lists.*
pub use Prim.Native.Nat.{ℕ, zero, suc, ◌+◌, ◌-◌, ◌*◌, ◌/◌, ◌%◌, ◌^◌, ◌≤◌, ◌<◌}
pub use mathlib.Core.Path.{◌≡◌, refl, sym, ap, subst, ◌∙◌}
pub use mathlib.Core.Logic.{◌≢◌, ◌⊎◌, inl, inr}
pub use mathlib.Core.Bool.{Bool, true, false, ◌&&◌, ◌||◌, not}
pub use mathlib.Core.Option.{Option, none, some}
pub use mathlib.Core.List.{List, [], ◌∷◌, ◌++◌, map}
pub use native.Mathlib.Omega.{arith}
