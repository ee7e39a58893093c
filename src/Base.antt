-- ===== src/Base.antt =====
-- Names that the modules share: the libraries', passed on, and those of the children.
mod Tests
mod Lists
mod Branches
mod Texts
pub mod Int
pub use Tests.*
pub use Lists.*
pub use Branches.*
pub use Texts.*
pub use Prim.Native.Nat.{ℕ, zero, suc, ◌+◌, ◌-◌, ◌*◌, ◌/◌, ◌%◌, ◌^◌, ◌≤◌, ◌<◌}
pub use Prim.Native.String.{String, ◌++◌ as str_append}
pub use text.Mathlib.Text.{◌==◌ as str_eq, starts_with, find?}
pub use text.Mathlib.TextEquality.{eq_iff}
pub use mathlib.Core.Path.{◌≡◌, refl, sym, ap, ◌∙◌}
pub use mathlib.Core.Logic.{◌≢◌, ◌↔◌, ◌⊎◌, inl, inr}
pub use mathlib.Core.Bool.{Bool, true, false, not, ◌&&◌, ◌||◌}
pub use mathlib.Core.Option.{Option, none, some}
pub use mathlib.Core.List.{List, [], ◌∷◌, ◌++◌, map}
pub use native.Mathlib.Omega.{arith}
