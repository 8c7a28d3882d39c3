-- ===== src/Base.antt =====
-- Names that every part of the library shares: the libraries' names, passed on, tests on numbers and
-- texts (Base/Tests), texts as Python's `str` (Base/Text), lists and sets of texts (Base/Lists).
pub mod Int
pub mod Member
pub mod Groups
pub mod Unique
pub mod Decimal
mod Result
mod Tests
mod Text
mod Lists
mod Slugs
pub use Result.*
pub use Tests.*
unfoldable pub use Text.*
unfoldable pub use Lists.*
unfoldable pub use Slugs.*
pub use Prim.Native.Nat.{ℕ, zero, suc, ◌+◌, ◌-◌, ◌*◌, ◌/◌, ◌≤◌, ◌<◌}
pub use Prim.Native.String.{String}
pub use mathlib.Core.Path.{◌≡◌, refl, sym, ap, ◌∙◌}
pub use mathlib.Core.Logic.{◌≢◌, ◌↔◌, ◌⊎◌, inl, inr}
pub use mathlib.Core.Bool.{Bool, true, false, not, ◌&&◌, ◌||◌}
pub use mathlib.Core.Option.{Option, none, some}
pub use mathlib.Core.List.{List, [], ◌∷◌, ◌++◌, map}
pub use native.Mathlib.Omega.{arith}
pub use text.Mathlib.TextEquality.{eq_iff}
