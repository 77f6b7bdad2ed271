-- ===== src/Prelude.antt =====
-- The names that the other modules share: the libraries', passed on, and those of the children.
mod Tests
mod Sets
mod Outcomes
mod Assoc
mod Channels
mod Int
mod Slices
mod Strings
mod Below
pub use Tests.*
unfoldable pub use Sets.*
pub use Outcomes.*
unfoldable pub use Assoc.*
pub use Int.*
unfoldable pub use Slices.*
unfoldable pub use Strings.*
unfoldable pub use Below.*
unfoldable pub use Channels.*
pub use Prim.Native.Nat.{ℕ, zero, suc, ◌+◌, ◌-◌, ◌*◌, ◌/◌, ◌%◌, ◌^◌, ◌≤◌, ◌<◌}
pub use Prim.Native.String.{String}
pub use mathlib.Core.Path.{◌≡◌, refl, sym, ap, ◌∙◌, fun_ext}
pub use mathlib.Core.Logic.{◌≢◌, ◌↔◌, ◌⊎◌, inl, inr}
pub use mathlib.Core.Bool.{Bool, true, false, ◌&&◌, ◌||◌, not}
pub use mathlib.Core.Option.{Option, none, some}
pub use mathlib.Core.List.{List, [], ◌∷◌, ◌++◌, map, reverse, Perm}
pub use native.Mathlib.Omega.{arith}
