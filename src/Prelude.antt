-- ===== src/Prelude.antt =====
-- Names that the other modules share: library names passed on, Boolean tests on numbers and texts,
-- tables as lists of rows, and the result type of a request handler.
mod Tests
mod Lists
mod Rows
mod RowLaws
mod Outcome
pub use Tests.*
unfoldable pub use Lists.*
unfoldable pub use Rows.*
pub use RowLaws.*
pub use Outcome.*
pub use Prim.Native.Nat.{ℕ, zero, suc, ◌+◌, ◌-◌, ◌*◌, ◌/◌, ◌%◌, ◌≤◌, ◌<◌, min, max}
pub use Prim.Native.String.{String}
pub use mathlib.Core.Path.{◌≡◌, refl, sym, ap, ◌∙◌}
pub use mathlib.Core.Logic.{◌≢◌, ◌↔◌, ◌⊎◌, inl, inr}
pub use mathlib.Core.Bool.{Bool, true, false, not, ◌&&◌, ◌||◌}
pub use mathlib.Core.Option.{Option, none, some}
pub use mathlib.Core.List.{List, [], ◌∷◌, ◌++◌, map}
pub use native.Mathlib.Omega.{arith}
pub use text.Mathlib.TextEquality.{eq_iff}
