-- ===== src/Prelude.antt =====
-- Names and lemmas that the components share: numbers, tests, lists, byte ranges.
mod Tests
mod Lists
mod Slices
mod Sums
mod Arrays
mod Agenda
pub mod Int
pub use Tests.*
pub use Lists.*
pub use Slices.*
unfoldable pub use Agenda.*
unfoldable pub use Arrays.*
unfoldable pub use Sums.*
pub use Prim.Native.Nat.{ℕ, zero, suc, ◌+◌, ◌-◌, ◌*◌, ◌/◌, ◌%◌, ◌^◌, ◌≤◌, ◌<◌, min}
pub use mathlib.Core.Path.{◌≡◌, refl, sym, ap, ap₂, subst, transport, ◌∙◌}
pub use mathlib.Core.Logic.{◌≢◌, ◌↔◌, ◌⊎◌, inl, inr}
pub use mathlib.Core.Bool.{Bool, true, false, ◌&&◌, ◌||◌, not}
pub use mathlib.Core.Option.{Option, none, some}
pub use mathlib.Core.List.{List, [], ◌∷◌, ◌++◌, map, append-nil, append_assoc}
pub use native.Mathlib.Omega.{arith}
