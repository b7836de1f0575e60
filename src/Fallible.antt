-- ===== src/Fallible.antt =====
-- Calls that give a value, return an error of the component's own, or panic. On the chains where these
-- components run, an error and a panic both drop every write of the call: so only `ok` carries a state.
use sl.Prelude.{
  ℕ, ◌%◌, ◌<◌, ◌≡◌, refl, Bool, true, false, Option, none, some, ltb, if◌then◌else◌, arith,
}

pub data Result {ℓ} (E : Type 0) (A : Type ℓ) : Type ℓ where
  panic : Result E A
  err : (why : E) → Result E A
  ok : (value : A) → Result E A

-- The `?` operator, and the statements after a panic.
abbrev pub ◌>>=◌ {ℓ κ} :
    {E : Type 0} {A : Type ℓ} {B : Type κ} → Result E A → (rest : A → Result E B) → Result E B
panic >>= rest = panic
err why >>= rest = err why
ok value >>= rest = rest value

abbrev pub ◌>>◌ {κ} : {E : Type 0} {B : Type κ} → Result E (Unit {0}) → Result E B → Result E B
test >> rest = test >>= λ done. rest

infixl 5 ◌>>=◌ ◌>>◌
-- `if c { return Err(e) }`
abbrev pub refuse_if : {E : Type 0} → Bool → E → Result E (Unit {0})
refuse_if true e = err e
refuse_if false e = ok tt

-- `ok_or`
abbrev pub ok_or {ℓ} : {E : Type 0} {A : Type ℓ} → Option A → E → Result E A
ok_or none e = err e
ok_or (some a) e = ok a

-- `unwrap`
abbrev pub or_panic {ℓ} : {E : Type 0} {A : Type ℓ} → Option A → Result E A
or_panic none = panic
or_panic (some a) = ok a

-- The sum of two words: where it does not fit it panics, in a build with overflow checks, or wraps.
abbrev pub word : {E : Type 0} → (checks : Bool) → (modulus v : ℕ) → Result E ℕ
word true modulus v = if ltb v modulus then ok v else panic
word false modulus v = ok (v % modulus)

module _ {ℓ κ} {E : Type 0} {A : Type ℓ} {B : Type κ} where
  pub >>=-eq-ok :
      (o : Result E A) (rest : A → Result E B) {b : B}
      → (o >>= rest) ≡ ok b
      → (v : A) × (o ≡ ok v) × (rest v ≡ ok b)
  >>=-eq-ok panic rest h = cc
  >>=-eq-ok (err why) rest h = cc
  >>=-eq-ok (ok v) rest h = (v, refl, h)

pub ok-injective {ℓ} :
    {E : Type 0} {A : Type ℓ} {a b : A} → ◌≡◌ {A = Result E A} (ok a) (ok b) → a ≡ b
ok-injective h = cc

pub refuse_if-eq-ok :
    {E : Type 0} (b : Bool) (e : E) {u : Unit {0}} → refuse_if b e ≡ ok u → b ≡ false
refuse_if-eq-ok true e h = cc
refuse_if-eq-ok false e h = refl

pub ok_or-eq-ok {ℓ} :
    {E : Type 0} {A : Type ℓ} (o : Option A) (e : E) {a : A} → ok_or o e ≡ ok a → o ≡ some a
ok_or-eq-ok o e h = ground arith

pub or_panic-eq-ok {ℓ} :
    {E : Type 0} {A : Type ℓ} (o : Option A) {a : A} → or_panic {E = E} o ≡ ok a → o ≡ some a
or_panic-eq-ok o h = ground arith

-- A sum that fits is the sum, in either build.
pub word-fits :
    {E : Type 0} (checks : Bool) (modulus v : ℕ) {r : ℕ}
    → word {E = E} checks modulus v ≡ ok r
    → v < modulus
    → r ≡ v
word-fits true modulus v h lt = ground arith
word-fits false modulus v h lt = grind arith
