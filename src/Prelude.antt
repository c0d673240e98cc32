-- ===== src/Prelude.antt =====
-- The names that all the modules share: the libraries' names, passed on, Boolean tests on the
-- native numbers, machine words, C arrays, and the result of a C function that may abort.
mod Arrays
mod Results
mod Tables
mod Tests
mod Words
unfoldable pub use Arrays.*
pub use Results.*
unfoldable pub use Tables.*
pub use Tests.*
pub use Words.*
pub use Prim.Native.Nat.{
  ℕ, zero, suc, ◌+◌, ◌-◌, ◌*◌, ◌/◌, ◌%◌, ◌^◌, ◌≤◌, ◌<◌, min, max, bit_and, bit_xor,
}
pub use mathlib.Core.Path.{◌≡◌, refl, sym, ap, ◌∙◌, subst}
pub use mathlib.Core.Logic.{◌≢◌, ◌↔◌, ◌⊎◌, inl, inr}
pub use mathlib.Core.Bool.{Bool, true, false, not, ◌&&◌, ◌||◌}
pub use mathlib.Core.Option.{Option, none, some}
pub use mathlib.Core.List.{List, [], ◌∷◌, ◌++◌, map}
pub use native.Mathlib.Omega.{arith}
