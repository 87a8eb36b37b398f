-- ===== src/Base.antt =====
-- The names that the other modules share: the libraries', passed on, and those of three children:
-- tests and equality (Tests), texts (Texts) and tables, lists of rows under constraints (Tables).
mod Tests
mod Texts
mod Tables
pub use Tests.*
pub use Texts.*
unfoldable pub use Texts.{decimal_onto, to_decimal}
pub use Tables.*
pub use Prim.Native.Nat.{ℕ, zero, suc, ◌+◌, ◌-◌, ◌*◌, ◌/◌, ◌%◌, ◌^◌, ◌≤◌, ◌<◌, max}
pub use Prim.Native.String.{String}
pub use mathlib.Core.Path.{◌≡◌, refl, sym, ap, ◌∙◌}
pub use mathlib.Core.Logic.{◌≢◌, ◌↔◌, ◌⊎◌, inl, inr}
pub use mathlib.Core.Bool.{Bool, true, false, not, ◌&&◌, ◌||◌}
pub use mathlib.Core.Option.{Option, none, some}
pub use mathlib.Core.List.{List, [], ◌∷◌, ◌++◌, map}
pub use native.Mathlib.Omega.{arith}
