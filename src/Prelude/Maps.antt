-- ===== src/Prelude/Maps.antt =====
-- Keyed storage: a map gives the value stored at a key, if any.
use mathlib.Core.Path.{◌≡◌, refl}
use mathlib.Core.Logic.{◌≢◌}
use mathlib.Core.Option.{Option, none, some}
use native.Mathlib.Omega.{arith}
use sl.Prelude.Tests.{if◌then◌else◌}
use sl.Prelude.Keys.{Key, ◌==◌}

abbrev pub Map {ℓ κ} : Type ℓ → Type κ → Type (ℓ ⊔ κ)
Map K V = K → Option V

abbrev pub no_entries {ℓ κ} : {K : Type ℓ} {V : Type κ} → Map K V
no_entries k = none

module _ {ℓ κ} {K : Type ℓ} {V : Type κ} ⦃e : Key K⦄ where
  abbrev pub insert : K → V → Map K V → Map K V
  insert k v m j = if k == j then some v else m j

  pub insert_self : (k : K) (v : V) (m : Map K V) → insert k v m k ≡ some v
  insert_self k v m = rw ((e.same_iff k k).1 refl)

  pub insert_ne : (k j : K) (v : V) (m : Map K V) → k ≢ j → insert k v m j ≡ m j
  insert_ne k j v m h = ground (arith, e.same_iff k j)
