-- ===== src/Prelude.antt =====
-- The names that the other modules share: the libraries' names, passed on, and the children's.
mod Tests
mod Lists
mod Results
mod Loops
mod Steps
mod Triples
pub mod Sort
pub mod Int
pub mod Dict
pub mod Outcomes
pub use Tests.*
pub use Lists.*
unfoldable pub use Loops.*
pub use Steps.*
pub use Triples.*
unfoldable pub use Results.*
pub use Prim.Native.Nat.{ℕ, zero, suc, ◌+◌, ◌-◌, ◌*◌, ◌/◌, ◌%◌, ◌^◌, ◌≤◌, ◌<◌}
pub use mathlib.Core.Path.{◌≡◌, refl, sym, ap, ◌∙◌}
pub use mathlib.Core.Logic.{◌≢◌, ◌↔◌, ◌⊎◌, inl, inr}
pub use mathlib.Core.Bool.{Bool, true, false, not, ◌&&◌, ◌||◌}
pub use mathlib.Core.Option.{Option, none, some}
pub use mathlib.Core.List.{List, [], ◌∷◌, ◌++◌, map, Mem, Nodup, Perm, Pairwise}
pub use native.Mathlib.Omega.{arith}
unfoldable pub use native.Mathlib.Decide.{ℕ_discrete}
