-- ===== src/Prelude.antt =====
-- Names that every other module shares: the libraries', passed on, and those of the modules below.
mod Tests
mod Lists
mod Equality
mod Distinct
pub mod Int
pub mod Text
pub mod Dict
pub mod Bytes
pub mod Search
pub mod Fallible
pub use Tests.*
pub use Lists.*
unfoldable pub use Equality.*
pub use Distinct.*
pub use Prim.Native.Nat.{ℕ, zero, suc, ◌+◌, ◌-◌, ◌*◌, ◌/◌, ◌%◌, ◌^◌, ◌≤◌, ◌<◌}
pub use Prim.Native.String.{String}
pub use mathlib.Core.Path.{◌≡◌, refl, sym, ap, ◌∙◌, subst}
pub use mathlib.Core.Logic.{◌≢◌, ◌↔◌, ◌⊎◌, inl, inr}
pub use mathlib.Core.Bool.{Bool, true, false, not, ◌&&◌, ◌||◌}
pub use mathlib.Core.Option.{Option, none, some}
pub use mathlib.Core.List.{List, [], ◌∷◌, ◌++◌, map}
pub use native.Mathlib.Omega.{arith}
