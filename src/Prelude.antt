-- ===== src/Prelude.antt =====
-- Names shared by the whole development: the libraries', passed on, and those of the children.
mod Tests
mod Lists
mod Counting
mod Maps
mod Texts
mod Results
mod Numbers
mod Unicode
mod Among
mod TextMaps
mod Parsing
mod Sorting
pub use Tests.*
pub use Lists.*
pub use Counting.*
pub use Maps.*
pub use Texts.*
pub use Results.*
pub use Numbers.*
pub use Unicode.*
pub use Among.*
pub use TextMaps.*
pub use Parsing.*
pub use Sorting.*
pub use Prim.Native.Nat.{ℕ, zero, suc, ◌+◌, ◌-◌, ◌*◌, ◌/◌, ◌%◌, ◌^◌, ◌≤◌, ◌<◌, min, max}
pub use mathlib.Core.Path.{◌≡◌, refl, sym, ap, subst, ◌∙◌}
pub use mathlib.Core.Logic.{◌≢◌, ◌↔◌, ◌⊎◌, inl, inr}
pub use mathlib.Core.Bool.{Bool, true, false, not, ◌&&◌, ◌||◌}
pub use mathlib.Core.Option.{Option, none, some}
pub use mathlib.Core.List.{List, [], ◌∷◌, ◌++◌, map, foldl}
pub use native.Mathlib.Omega.{arith}
