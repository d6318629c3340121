-- ===== src/Prelude.antt =====
-- Names that the modules share: the libraries', passed on, and those of the children.
mod Tests
mod Lists
mod Equality
mod Members
pub mod Map
pub mod Unique
pub use Tests.*
pub use Lists.*
unfoldable pub use Equality.*
unfoldable pub use Members.*
pub use Prim.Native.Nat.{ℕ, zero, suc, ◌+◌, ◌-◌, ◌*◌, ◌/◌, ◌%◌, ◌^◌, ◌≤◌, ◌<◌, max, min}
pub use Prim.Native.String.{String}
pub use mathlib.Core.Path.{◌≡◌, refl, sym, ap, ◌∙◌, subst, fun_ext}
pub use mathlib.Core.Logic.{◌≢◌, ◌↔◌, ◌⊎◌, inl, inr}
unfoldable pub use mathlib.Core.Logic.{ite, dite}
pub use mathlib.Core.Logic.{if_pos, if_neg}
pub use mathlib.Core.Bool.{Bool, true, false, ◌&&◌, ◌||◌, not}
pub use mathlib.Core.Option.{Option, none, some}
pub use mathlib.Core.List.{List, [], ◌∷◌}
unfoldable pub use mathlib.Core.List.{◌++◌, map}
pub use native.Mathlib.Omega.{arith}
unfoldable pub use native.Mathlib.Decide.{dec_lt, dec_le, ℕ_discrete}
