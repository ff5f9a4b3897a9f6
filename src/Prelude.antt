-- ===== src/Prelude.antt =====
-- The names that the other modules share: the libraries', passed on, and those of the children.
mod Tests
mod Lists
mod Strings
pub mod Int
pub mod Search
pub mod Splits
pub mod Maps
pub use Tests.*
pub use Lists.*
unfoldable pub use Strings.{
  text_eq, starts_with, ends_with, contains, lower, to_lower, upper, to_upper, is_space, trim_left,
  trim_space, split, join,
}
pub use Strings.{Text, bytes, text_eq_sound, text_eq_refl, text_eq_iff, is_empty}
pub use Prim.Native.Nat.{ℕ, zero, suc, ◌+◌, ◌-◌, ◌*◌, ◌/◌, ◌%◌, ◌^◌, ◌≤◌, ◌<◌, min, max}
pub use mathlib.Core.Path.{◌≡◌, refl, sym, ap, ap₂, ◌∙◌, subst}
pub use mathlib.Core.Logic.{◌≢◌, ◌↔◌, ◌⊎◌, inl, inr}
pub use mathlib.Core.Bool.{Bool, true, false, not, ◌&&◌, ◌||◌}
pub use mathlib.Core.Option.{Option, none, some}
pub use mathlib.Core.List.{List, [], ◌∷◌, ◌++◌, map, reverse, filter_map, append_assoc, append-nil}
pub use native.Mathlib.Omega.{arith}
