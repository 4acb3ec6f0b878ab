-- ===== src/Prelude.antt =====
-- Shared helpers of the models: the libraries' names passed on, Boolean tests on numbers, lists
-- measured by native numbers, association maps, text as code points, and results.
mod Tests
mod Lists
mod Outcome
pub mod Assoc
pub mod Text
pub use Tests.*
pub use Lists.*
pub use Outcome.*
unfoldable pub use Outcome.{wrapping_add}
pub use Prim.Native.Nat.{ℕ, zero, suc, ◌+◌, ◌-◌, ◌*◌, ◌/◌, ◌%◌, ◌^◌, ◌≤◌, ◌<◌, min, max}
pub use mathlib.Core.Path.{◌≡◌, refl, sym, ap, subst, ◌∙◌}
pub use mathlib.Core.Logic.{◌≢◌, ◌↔◌, ◌⊎◌, inl, inr}
pub use mathlib.Core.Bool.{Bool, true, false, not, ◌&&◌, ◌||◌}
pub use mathlib.Core.Option.{Option, none, some}
pub use mathlib.Core.List.{List, [], ◌∷◌, ◌++◌, map, append-nil, append_assoc}
pub use native.Mathlib.Omega.{arith}
