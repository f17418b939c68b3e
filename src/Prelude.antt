-- ===== src/Prelude.antt =====
-- The names that the other modules share: the libraries' own, passed on, and those of three children.
mod Tests
mod Lists
mod Actions
mod Sort
pub use Tests.*
pub use Lists.*
pub use Actions.*
pub use Sort.*
unfoldable pub use Sort.{insert_by, sort_by}
unfoldable pub use Tests.{list_beq, ◌≟◌}
unfoldable pub use Lists.{filter, any, all, find, elem, append_new}
pub use Prim.Native.Nat.{ℕ, zero, suc, ◌+◌, ◌-◌, ◌*◌, ◌/◌, ◌%◌, ◌≤◌, ◌<◌, max, min}
pub use Prim.Native.String.{String}
pub use mathlib.Core.Path.{◌≡◌, refl, sym, ap, subst, ◌∙◌, fun_ext}
pub use mathlib.Core.Logic.{◌≢◌, ◌↔◌, ◌⊎◌, inl, inr}
pub use mathlib.Core.Bool.{Bool, true, false, not, ◌&&◌, ◌||◌}
pub use mathlib.Core.Option.{Option, none, some}
pub use mathlib.Core.List.{List, [], ◌∷◌, ◌++◌, map, append-nil, append_assoc}
pub use native.Mathlib.Omega.{arith}
