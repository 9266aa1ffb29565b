-- ===== src/Base.antt =====
-- The names that the components share: the libraries', passed on, and those of the children.
mod Tests
mod Lists
mod Texts
mod Dicts
mod Splits
pub use Tests.*
pub use Lists.*
pub use Prim.Native.Nat.{ℕ, zero, suc, ◌+◌, ◌-◌, ◌*◌, ◌/◌, ◌%◌, ◌≤◌, ◌<◌, min, max}
pub use mathlib.Core.Path.{◌≡◌, refl, sym, ap, ap₂, ◌∙◌, subst}
pub use mathlib.Core.Logic.{◌≢◌, ◌↔◌, ◌⊎◌, inl, inr}
pub use mathlib.Core.Bool.{Bool, true, false, not, ◌&&◌, ◌||◌}
pub use mathlib.Core.Option.{Option, none, some}
pub use mathlib.Core.List.{List, [], ◌∷◌, ◌++◌, map, reverse, Perm}
pub use native.Mathlib.Omega.{arith}
pub use Texts.{Text, codes, ===_refl, ===_iff, ===_flip, is_empty}
unfoldable pub use Texts.{◌===◌}
pub use Dicts.{
  Distinct, put-Distinct, get-put, get-put_self, get-put_ne, get-delete, get-delete_self,
  get-delete_ne, put_cases, or_else, get-put_all,
}
unfoldable pub use Dicts.{get, put, delete, put_all}
pub use Splits.{onto_head, between, is_digit, is_lower, is_upper}
unfoldable pub use Splits.{split_on, decimal_from, digits_onto, show_number}
