-- ===== src/Panic.antt =====
-- Code that returns or panics, as an `Option`: in a contract a panic drops every write of the call, so
-- only what returns gives a value.
use sl.Prelude.{ℕ, ◌≡◌, refl, Bool, true, false, Option, none, some, ltb, if◌then◌else◌}

infixl 5 ◌>>=◌ ◌>>◌
abbrev pub ◌>>=◌ {ℓ κ} : {A : Type ℓ} {B : Type κ} → Option A → (A → Option B) → Option B
none >>= rest = none
some value >>= rest = rest value

abbrev pub ◌>>◌ {κ} : {B : Type κ} → Option (Unit {0}) → Option B → Option B
test >> rest = test >>= λ done. rest

-- `assert!`
abbrev pub assert : Bool → Option (Unit {0})
assert true = some tt
assert false = none

-- An addition under overflow checks.
abbrev pub fits : ℕ → ℕ → Option ℕ
fits modulus v = if ltb v modulus then some v else none

-- What the statements before have done when the rest returns.
module _ {ℓ κ} {A : Type ℓ} {B : Type κ} where
  pub >>=-eq-some :
      (o : Option A) (rest : A → Option B) {b : B}
      → (o >>= rest) ≡ some b
      → (v : A) × (o ≡ some v) × (rest v ≡ some b)
  >>=-eq-some none rest h = cc
  >>=-eq-some (some v) rest h = (v, refl, h)

pub some-injective {ℓ} : {A : Type ℓ} {a b : A} → some a ≡ some b → a ≡ b
some-injective h = cc

pub assert-eq-some : (b : Bool) {u : Unit {0}} → assert b ≡ some u → b ≡ true
assert-eq-some true h = refl
assert-eq-some false h = cc
