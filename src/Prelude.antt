-- ===== src/Prelude.antt =====
-- The names that every module shares: the libraries', passed on, and those of the children: tests,
-- lists over the native numbers, equality of keys, keyed storage and bounded words.
mod Tests
mod Lists
mod Keys
mod Maps
pub mod Words
pub use Tests.*
pub use Lists.*
pub use Keys.{Key, ◌==◌, nat_eq, pair_eq, Text, text_beq_iff, text_eq, text_ne, text_beq-of_ne}
unfoldable pub use Keys.{text_beq}
pub use Maps.*
pub use Prim.Native.Nat.{ℕ, zero, suc, ◌+◌, ◌-◌, ◌*◌, ◌/◌, ◌%◌, ◌^◌, ◌≤◌, ◌<◌}
pub use mathlib.Core.Path.{◌≡◌, refl, sym, ap, ◌∙◌, subst}
pub use mathlib.Core.Logic.{◌≢◌, ◌↔◌, ◌⊎◌, inl, inr}
pub use mathlib.Core.Bool.{Bool, true, false, not, ◌&&◌, ◌||◌}
pub use mathlib.Core.Option.{Option, none, some}
pub use mathlib.Core.List.{List, [], ◌∷◌, ◌++◌, map}
pub use native.Mathlib.Omega.{arith}
