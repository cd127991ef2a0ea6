-- ===== src/Base.antt =====
-- Shared names: the libraries' types and tactics, Boolean tests on numbers and texts, list and
-- option helpers. Nothing here models a particular file of the program.
mod Tests
mod Lists
mod Texts
mod Options
mod Results
mod Ints
pub use Tests.*
pub use Lists.*
unfoldable pub use Texts.*
pub use Options.*
pub use Results.*
pub use Ints.*
pub use Prim.Native.Nat.{ℕ, zero, suc, ◌+◌, ◌-◌, ◌*◌, ◌/◌, ◌%◌, ◌^◌, ◌≤◌, ◌<◌}
pub use Prim.Native.String.{String}
pub use mathlib.Core.Path.{◌≡◌, refl, sym, ap, ◌∙◌}
pub use mathlib.Core.Logic.{◌≢◌, ◌↔◌, ◌⊎◌, inl, inr}
pub use mathlib.Core.Bool.{Bool, true, false, not, ◌&&◌, ◌||◌}
pub use mathlib.Core.Option.{Option, none, some}
pub use mathlib.Core.List.{List, [], ◌∷◌, ◌++◌, map, Memᴰ}
pub use native.Mathlib.Omega.{arith}
