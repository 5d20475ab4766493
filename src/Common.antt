-- ===== src/Common.antt =====
-- The names that all modules share: the libraries', passed on, and the Boolean tests, options and
-- dictionaries of the three children.
mod Tests
mod Lists
pub mod Dict
pub mod Int
pub use Tests.*
pub use Lists.*
pub use Prim.Native.Nat.{ℕ, zero, suc, ◌+◌, ◌-◌, ◌*◌, ◌/◌, ◌%◌, ◌^◌, ◌≤◌, ◌<◌, min, max}
pub use Prim.Native.String.{String, ◌++◌ as ◌<>◌}
pub use text.Mathlib.Text.{◌==◌ as str_eq, starts_with}
pub use text.Mathlib.TextEquality.{eq_iff}
pub use mathlib.Core.Path.{◌≡◌, refl, sym, ap, ◌∙◌, subst}
pub use mathlib.Core.Logic.{◌≢◌, ◌↔◌, ◌⊎◌, inl, inr}
pub use mathlib.Core.Bool.{Bool, true, false, ◌&&◌, ◌||◌, not}
pub use mathlib.Core.Option.{Option, none, some}
pub use mathlib.Core.List.{List, [], ◌∷◌, ◌++◌, map}
pub use native.Mathlib.Omega.{arith}
