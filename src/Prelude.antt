-- ===== src/Prelude.antt =====
-- The names that the other modules share: the libraries', passed on, and those of the children.
pub mod Tests
pub mod Lists
pub mod Int
pub mod Keys
pub use Tests.*
pub use Lists.{
  length, length-append, drop, take, get_or, In, Any, In-keep, In-append_left, In-append_right,
  In-append, All, All-append,
}
unfoldable pub use Lists.{keep}
pub use Int.*
pub use Keys.{
  Eq, Pair-Eq, pair_eq_iff, get-put, get-delete, IsMap, put-IsMap, delete-IsMap, beq_refl,
}
unfoldable pub use Keys.{pair_eq, get, put, delete}
pub use Prim.Native.Nat.{ℕ, zero, suc, ◌+◌, ◌-◌, ◌*◌, ◌/◌, ◌%◌, ◌≤◌, ◌<◌}
pub use mathlib.Core.Path.{◌≡◌, refl, sym, ap, ◌∙◌, subst}
pub use mathlib.Core.Logic.{◌≢◌, ◌↔◌, ◌⊎◌, inl, inr}
pub use mathlib.Core.Bool.{Bool, true, false, ◌&&◌, ◌||◌, not}
pub use mathlib.Core.Option.{Option, none, some}
pub use mathlib.Core.List.{List, [], ◌∷◌, ◌++◌, map}
pub use native.Mathlib.Omega.{arith}
