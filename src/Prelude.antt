-- ===== src/Prelude.antt =====
-- The names that the other modules share: the libraries', passed on, and those of two children.
mod Tests
mod Lists
mod Firsts
mod Results
mod Best
pub use Best.{NoLarger, Smaller, IsBest, best_from-IsBest}
unfoldable pub use Best.{best_from}
pub use Results.*
pub use Firsts.*
pub use Tests.*
pub use Lists.{
  length, get_elem?, is_empty, any, all, length-append, filter-append, filter_congr, All,
  All-append, All-mono,
}
unfoldable pub use Tests.{list_beq}
unfoldable pub use Lists.{filter, find?}
pub use Prim.Native.Nat.{ℕ, zero, suc, ◌+◌, ◌-◌, ◌*◌, ◌/◌, ◌%◌, ◌^◌, ◌≤◌, ◌<◌}
pub use mathlib.Core.Path.{◌≡◌, refl, sym, ap, ◌∙◌}
pub use mathlib.Core.Logic.{◌≢◌, ◌↔◌, ◌⊎◌, inl, inr}
pub use mathlib.Core.Bool.{Bool, true, false, not, ◌&&◌, ◌||◌}
pub use mathlib.Core.Option.{Option, none, some}
pub use mathlib.Core.List.{List, [], ◌∷◌, ◌++◌, map, append_assoc, append-nil}
pub use native.Mathlib.Omega.{arith}
