-- ===== src/Prelude.antt =====
-- The names that all modules share: the libraries', passed on, and those of the children.
mod Tests
mod Lists
mod Strings
mod Dict
mod While
mod Int
pub use Tests.*
pub use Lists.*
pub use Int.*
pub use While.{between, Stops, between-append, drop_while-append, Passes, drop_while-Passes}
unfoldable pub use While.{drop_while}
pub use Dict.{lookup-assign}
unfoldable pub use Dict.{lookup, assign}
pub use Strings.{Bytes, codes, equal_iff, equal_self, get_lines_from-append}
unfoldable pub use Strings.{
  equal, starts_with, is_space, is_alpha, is_digit, is_alnum, to_lower, get_lines_from, get_lines,
}
pub use Prim.Native.Nat.{ℕ, zero, suc, ◌+◌, ◌-◌, ◌*◌, ◌/◌, ◌%◌, ◌^◌, ◌≤◌, ◌<◌}
pub use mathlib.Core.Path.{◌≡◌, refl, sym, ap, subst, ◌∙◌}
pub use mathlib.Core.Logic.{◌≢◌, ◌↔◌, ◌⊎◌, inl, inr}
pub use mathlib.Core.Bool.{Bool, true, false, not, ◌&&◌, ◌||◌}
pub use mathlib.Core.Option.{Option, none, some}
pub use mathlib.Core.List.{List, [], ◌∷◌, ◌++◌, map, append-nil, append_assoc}
pub use native.Mathlib.Omega.{arith}
