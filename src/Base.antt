-- ===== src/Base.antt =====
-- What every component of the model shares: names of the libraries, passed on, and the children
-- with tests, text, integers, errors, effects, tables and paging.
mod Tests
pub mod Text
pub mod Exec
pub mod Status
pub mod Table
pub mod Postgres
pub mod Moves
pub mod Refusals
pub mod Statements
pub mod Paging
pub mod Rows
pub mod Unicode
pub mod Redis
pub mod Keeps
pub use Tests.*
pub use Prim.Native.Nat.{ℕ, zero, suc, ◌+◌, ◌-◌, ◌*◌, ◌/◌, ◌≤◌, ◌<◌}
pub use Prim.Native.String.{String}
pub use mathlib.Core.Path.{◌≡◌, refl, sym, ap, ◌∙◌}
pub use mathlib.Core.Logic.{◌≢◌, ◌↔◌, ◌⊎◌, inl, inr}
pub use mathlib.Core.Bool.{Bool, true, false, not, ◌&&◌, ◌||◌}
pub use mathlib.Core.Option.{Option, none, some}
pub use mathlib.Core.List.{List, [], ◌∷◌, ◌++◌, map}
pub use native.Mathlib.Omega.{arith}
pub use text.Mathlib.Text.{◌==◌}
pub use text.Mathlib.TextEquality.{eq_iff}
