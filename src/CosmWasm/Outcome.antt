-- ===== src/CosmWasm/Outcome.antt =====
-- cosmwasm/contracts/privacy-pool/src/error.rs, and what a call of the contract comes to. An error
-- and a panic both end the transaction, and the chain then drops every write of the call: so only
-- `ok` carries a state.
use sl.Prelude.{
  ℕ, ◌⊎◌, inl, inr, ◌≡◌, Bool, true, false, Option, none, some, Text, ltb, if◌then◌else◌, arith,
  refl,
}

pub data ContractError : Type 0 where
  std unauthorized zero_deposit commitment_already_exists tree_full invalid_proof : ContractError
  nullifier_already_spent : Text → ContractError
  unknown_merkle_root insufficient_pool_balance zero_withdrawal : ContractError
  epoch_not_ready epoch_already_finalized epoch_nullifier_overflow : ContractError
  invalid_hex : Text → ContractError
  invalid_nullifier_root : ContractError

pub data Outcome {ℓ} (A : Type ℓ) : Type ℓ where
  panic : Outcome A
  err : (why : ContractError) → Outcome A
  ok : (value : A) → Outcome A

-- The `?` operator, and the statements after a panic.
abbrev pub ◌>>=◌ {ℓ κ} : {A : Type ℓ} {B : Type κ} → Outcome A → (rest : A → Outcome B) → Outcome B
panic >>= rest = panic
err why >>= rest = err why
ok value >>= rest = rest value

abbrev pub ◌>>◌ {κ} : {B : Type κ} → Outcome (Unit {0}) → Outcome B → Outcome B
test >> rest = test >>= λ done. rest

infixl 5 ◌>>=◌ ◌>>◌
-- `if c { return Err(e) }`
abbrev pub refuse_if : Bool → ContractError → Outcome (Unit {0})
refuse_if true e = err e
refuse_if false e = ok tt

-- `Item::load` and `Map::load`: a missing value is a standard error.
abbrev pub load {ℓ} : {A : Type ℓ} → Option A → Outcome A
load none = err std
load (some a) = ok a

abbrev pub or_panic {ℓ} : {A : Type ℓ} → Option A → Outcome A
or_panic none = panic
or_panic (some a) = ok a

-- Integer arithmetic in a build with overflow checks: a result that does not fit panics.
abbrev pub checked : ℕ → ℕ → Outcome ℕ
checked modulus v = if ltb v modulus then ok v else panic

module _ {ℓ κ} {A : Type ℓ} {B : Type κ} where
  pub >>=-eq-ok :
      (o : Outcome A) (rest : A → Outcome B) {b : B}
      → (o >>= rest) ≡ ok b
      → (v : A) × (o ≡ ok v) × (rest v ≡ ok b)
  >>=-eq-ok panic rest h = cc
  >>=-eq-ok (err why) rest h = cc
  >>=-eq-ok (ok v) rest h = (v, refl, h)

pub refuse_if-eq-ok : (b : Bool) (e : ContractError) → refuse_if b e ≡ ok tt → b ≡ false
refuse_if-eq-ok true e h = cc
refuse_if-eq-ok false e h = refl

pub Outcome-cases {ℓ} :
    {A : Type ℓ} (m : Outcome A)
    → ((a : A) × (m ≡ ok a)) ⊎ (((e : ContractError) × (m ≡ err e)) ⊎ (m ≡ panic))
Outcome-cases (ok a) = inl (a, refl)
Outcome-cases (err e) = inr (inl (e, refl))
Outcome-cases panic = inr (inr refl)

pub ok-injective {ℓ} : {A : Type ℓ} {a b : A} → ok a ≡ ok b → a ≡ b
ok-injective h = cc

pub load-eq-ok {ℓ} : {A : Type ℓ} (o : Option A) {a : A} → load o ≡ ok a → o ≡ some a
load-eq-ok o h = ground arith

pub or_panic-eq-ok {ℓ} : {A : Type ℓ} (o : Option A) {a : A} → or_panic o ≡ ok a → o ≡ some a
or_panic-eq-ok o h = ground arith
