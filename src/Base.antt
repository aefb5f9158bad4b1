-- ===== src/Base.antt =====
-- The names that the other modules share: the libraries', passed on, and those of the children.
mod Tests
mod Lists
mod Results
mod Texts
mod Maps
mod Ints
pub mod Exec
pub mod Keeps
unfoldable pub use Tests.*
pub use Lists.*
pub use Results.*
unfoldable pub use Texts.{
  Text, codes, ◌==◌, is_space, trim_left, trim_right, trim_space, to_lower, has_prefix, contains,
  split, split_cons, has_suffix, text_gt, quoted, join, fields,
}
unfoldable pub use Maps.{Map, lookup, put, is_some}
pub use Ints.{ℤ, pos, negsuc, is_negative}
unfoldable pub use Ints.{is_digit, digits_value, atoi, cut, drop, cut_text}
pub use Maps.{lookup-put}
pub use Texts.{==_iff, ==_refl, ==_false, ne_of_==, texts}
pub use Prim.Native.Nat.{ℕ, zero, suc, ◌+◌, ◌-◌, ◌*◌, ◌/◌, ◌%◌, ◌^◌, ◌≤◌, ◌<◌}
pub use Prim.Native.String.{String}
pub use mathlib.Core.Path.{◌≡◌, refl, sym, ap, subst, fun_ext, ◌∙◌}
pub use mathlib.Core.Logic.{◌≢◌, ◌↔◌, ◌⊎◌, inl, inr}
pub use mathlib.Core.Bool.{Bool, true, false, not, ◌&&◌, ◌||◌}
pub use mathlib.Core.Option.{Option, none, some}
pub use mathlib.Core.List.{List, [], ◌∷◌, ◌++◌, map, reverse}
pub use native.Mathlib.Omega.{arith}
