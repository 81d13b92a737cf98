-- ===== src/Prelude.antt =====
-- The names that the other modules share: the libraries', passed on, and those of the children.
mod Tests
mod Lists
mod Bytes
mod Int
mod Errors
mod Maps
pub mod Actions
pub use Tests.*
pub use Lists.*
unfoldable pub use Lists.{any, all}
pub use Bytes.*
pub use Int.*
pub use Errors.*
pub use Maps.*
unfoldable pub use Maps.{lookup, insert}
unfoldable pub use Bytes.{
  lit, ◌==◌, has_prefix, has_suffix, lower_byte, upper_byte, to_lower, to_upper, equal_fold, trim,
  contains, trim_left, cut_byte, split, join, replace_from, replace_all, texts,
}
unfoldable pub use Int.{◌+ℤ◌, ◌-ℤ◌, to_int64, wrap_int64, digits_of, itoa}
pub use Prim.Native.Nat.{ℕ, zero, suc, ◌+◌, ◌-◌, ◌*◌, ◌/◌, ◌%◌, ◌^◌, ◌≤◌, ◌<◌}
pub use mathlib.Core.Path.{◌≡◌, refl, sym, ap, ap₂, subst, ◌∙◌}
pub use mathlib.Core.Logic.{◌≢◌, ◌↔◌, ◌⊎◌, inl, inr}
pub use mathlib.Core.Bool.{Bool, true, false, not, ◌&&◌, ◌||◌}
pub use mathlib.Core.Option.{Option, none, some}
pub use mathlib.Core.List.{List, [], ◌∷◌}
unfoldable pub use mathlib.Core.List.{◌++◌, map, reverse}
pub use native.Mathlib.Omega.{arith}
