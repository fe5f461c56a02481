-- ===== src/Base.antt =====
-- Names shared by the whole development: the libraries', passed on, and those of the children.
-- The children hold Boolean tests, lists over the native numbers, integers, the text functions of
-- Python that the service uses, SQL cells, and the outcome of a database transaction.
mod Tests
mod Lists
mod Equality
mod Int
mod Text
mod Outcome
mod Cells
pub use Tests.*
pub use Lists.*
pub use Equality.*
unfoldable pub use Int.*
unfoldable pub use Text.*
pub use Outcome.*
unfoldable pub use Cells.*
pub use Prim.Native.Nat.{ℕ, zero, suc, ◌+◌, ◌-◌, ◌*◌, ◌/◌, ◌%◌, ◌^◌, ◌≤◌, ◌<◌}
pub use Prim.Native.String.{String, ◌++◌}
pub use mathlib.Core.Path.{◌≡◌, refl, sym, ap, subst, ◌∙◌}
pub use mathlib.Core.Logic.{◌≢◌, ◌↔◌, ◌⊎◌, inl, inr}
pub use mathlib.Core.Bool.{Bool, true, false, not, ◌&&◌, ◌||◌}
pub use mathlib.Core.Option.{Option, none, some}
pub use mathlib.Core.List.{List, [], ◌∷◌}
pub use native.Mathlib.Omega.{arith}
