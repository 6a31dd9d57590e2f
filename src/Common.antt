-- ===== src/Common.antt =====
-- The names that the components share: the libraries', passed on, and those of the children.
mod Tests
mod Lists
mod Strings
mod Machine
mod Results
mod Maps
mod Pieces
mod Trims
mod HeaderMaps
pub use Tests.*
pub use Lists.*
pub use Trims.*
pub use Machine.*
pub use Results.*
pub use Strings.{
  Text, codes, text_eq_refl, eq_of_text_eq, text_eq_iff, strip_prefix-append, eq_of_strip_prefix,
}
unfoldable pub use Strings.{text_eq, strip_prefix, is_blank}
pub use HeaderMaps.*
unfoldable pub use Pieces.*
pub use Maps.{
  lookup-insert, lookup-remove, IsAbsent, IsMap, insert-IsMap, remove-IsMap, lookup_of_IsAbsent,
}
unfoldable pub use Maps.{lookup, insert, remove}
pub use Prim.Native.Nat.{ℕ, zero, suc, ◌+◌, ◌-◌, ◌*◌, ◌/◌, ◌%◌, ◌^◌, ◌≤◌, ◌<◌, min, max}
pub use mathlib.Core.Path.{◌≡◌, refl, sym, ap, subst, ◌∙◌}
pub use mathlib.Core.Logic.{◌≢◌, ◌↔◌, ◌⊎◌, inl, inr}
pub use mathlib.Core.Bool.{Bool, true, false, not, ◌&&◌, ◌||◌}
pub use mathlib.Core.Option.{Option, none, some}
pub use mathlib.Core.List.{List, [], ◌∷◌, ◌++◌, map}
pub use native.Mathlib.Omega.{arith}
