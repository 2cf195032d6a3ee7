-- ===== src/Base.antt =====
-- What every component shares: the libraries' names, tests on numbers, lists, byte strings,
-- dictionaries and results.
mod Tests
mod Lists
mod Strings
pub mod Sort
pub mod Dict
mod Results
pub use Tests.*
pub use Lists.*
pub use Strings.*
unfoldable pub use Strings.{◌==◌, bytes, has_prefix, has_suffix, trim_right, trim_left, contains}
unfoldable pub use Strings.{split, join}
pub use Results.*
pub use Prim.Native.Nat.{ℕ, zero, suc, ◌+◌, ◌-◌, ◌*◌, ◌/◌, ◌%◌, ◌^◌, ◌≤◌, ◌<◌}
pub use Prim.Native.String.{String}
pub use mathlib.Core.Path.{◌≡◌, refl, sym, ap, ap₂, ◌∙◌, subst}
pub use mathlib.Core.Logic.{◌≢◌, ◌↔◌, ◌⊎◌, inl, inr}
pub use mathlib.Core.Bool.{Bool, true, false, not, ◌&&◌, ◌||◌}
pub use mathlib.Core.Option.{Option, none, some}
pub use mathlib.Core.List.{List, [], ◌∷◌, ◌++◌, map, append-nil, append_assoc, map-append}
pub use native.Mathlib.Omega.{arith}
