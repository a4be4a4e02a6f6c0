-- ===== src/Base.antt =====
-- The names that the other modules share: the libraries', passed on, and those of the children.
mod Tests
mod Lists
pub mod Bytes
pub mod Split
pub mod Exec
pub mod Leaves
pub mod Table
pub mod Sorting
pub use Tests.*
pub use Lists.*
pub use Bytes.{
  Text, codes, newline, text_eq_iff, text_eq_refl, text_ne, contains-append, contains-middle,
  contains-nil, contains_behind, has_prefix-append, trim_prefix-append,
}
unfoldable pub use Bytes.{
  text_eq, text_lt, has_prefix, has_suffix, contains, trim_prefix, trim_right, trim_space,
}
pub use Prim.Native.Nat.{ℕ, zero, suc, ◌+◌, ◌-◌, ◌*◌, ◌/◌, ◌%◌, ◌^◌, ◌≤◌, ◌<◌}
pub use mathlib.Core.Path.{◌≡◌, refl, sym, ap, subst, ◌∙◌}
pub use mathlib.Core.Logic.{◌≢◌, ◌↔◌, ◌⊎◌, inl, inr}
pub use mathlib.Core.Bool.{Bool, true, false, ◌&&◌, ◌||◌, not}
pub use mathlib.Core.Option.{Option, none, some}
pub use mathlib.Core.List.{List, [], ◌∷◌, ◌++◌, map, append-nil, append_assoc}
pub use native.Mathlib.Omega.{arith}
