-- ===== src/Common.antt =====
-- Names that every component shares: the libraries', passed on, tests on numbers and texts, lists
-- measured by native numbers, and the outcome of fallible code with its log of effects.
mod Tests
mod Lists
mod Actions
pub mod Emits
pub mod Last
pub mod Returns
pub mod Panics
pub mod Completes
unfoldable pub use Tests.*
unfoldable pub use Lists.*
unfoldable pub use Actions.*
pub use Prim.Native.Nat.{ℕ, zero, suc, ◌+◌, ◌-◌, ◌*◌, ◌/◌, ◌%◌, ◌^◌, ◌≤◌, ◌<◌}
pub use Prim.Native.String.{String, ◌++◌ as ◌<>◌}
pub use mathlib.Core.Path.{◌≡◌, refl, sym, ap, subst, ◌∙◌}
pub use mathlib.Core.Logic.{◌≢◌, ◌↔◌, ◌⊎◌, inl, inr}
pub use mathlib.Core.Bool.{Bool, true, false, not, ◌&&◌, ◌||◌}
pub use mathlib.Core.Option.{Option, none, some}
pub use mathlib.Core.List.{List, [], ◌∷◌, ◌++◌, map}
pub use native.Mathlib.Omega.{arith}
