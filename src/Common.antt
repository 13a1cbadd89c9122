-- ===== src/Common.antt =====
-- The names that all other modules share: the libraries', passed on, and those of the children.
mod Tests
mod Lists
mod Words
mod Exceptions
pub mod Actions
mod Order
mod Int
pub mod Formatting
pub mod Stoi
pub mod BinaryDigits
pub use Tests.*
pub use Lists.*
unfoldable pub use Words.*
unfoldable pub use Order.{lt_wf}
unfoldable pub use Int.*
pub use Exceptions.*
pub use Prim.Native.Nat.{ℕ, zero, suc, ◌+◌, ◌-◌, ◌*◌, ◌/◌, ◌%◌, ◌^◌, ◌≤◌, ◌<◌, min}
pub use Prim.Native.String.{String}
pub use mathlib.Core.Path.{◌≡◌, refl, sym, ap, ap₂, ◌∙◌}
pub use mathlib.Core.Logic.{◌≢◌, ◌↔◌, ◌⊎◌, inl, inr}
pub use mathlib.Core.Bool.{Bool, true, false, not, ◌&&◌, ◌||◌}
pub use mathlib.Core.Option.{Option, none, some}
pub use mathlib.Core.List.{List, [], ◌∷◌, ◌++◌, map, append-nil, append_assoc}
pub use native.Mathlib.Omega.{arith}
unfoldable pub use native.Mathlib.Decide.{dec_lt}
