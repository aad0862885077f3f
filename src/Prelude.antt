-- ===== src/Prelude.antt =====
-- The names that all modules share: the libraries', passed on, and those of its children.
mod Tests
mod Rows
mod Laws
mod Searches
mod Strip
mod First
mod Sorted
mod Keys
mod Writes
pub use Tests.*
pub use First.*
pub use Sorted.*
pub use Keys.*
pub use Writes.*
unfoldable pub use Rows.*
pub use Laws.*
pub use Searches.*
unfoldable pub use Strip.*
pub use Prim.Native.Nat.{ℕ, zero, suc, ◌+◌, ◌-◌, ◌*◌, ◌^◌, ◌≤◌, ◌<◌, min, max}
pub use Prim.Native.String.{String}
pub use mathlib.Core.Path.{◌≡◌, refl, sym, ap, subst, ◌∙◌}
pub use mathlib.Core.Logic.{◌≢◌, ◌↔◌, ◌⊎◌, inl, inr}
pub use mathlib.Core.Bool.{Bool, true, false, not, ◌&&◌, ◌||◌}
pub use mathlib.Core.Option.{Option, none, some, some-injective}
pub use mathlib.Core.List.{List, [], ◌∷◌, ◌++◌, map, Memᴰ}
pub use native.Mathlib.Omega.{arith}
unfoldable pub use text.Mathlib.Text.{◌==◌ as str_eq}
pub use text.Mathlib.TextEquality.{eq_iff}
