-- ===== src/Near/Key/Injective.antt =====
-- Decimal digits are read back, and different epochs have different keys.
use sl.Prelude.{
  ℕ, zero, suc, ◌+◌, ◌-◌, ◌*◌, ◌/◌, ◌%◌, ◌<◌, ◌≡◌, refl, sym, ap, ◌∙◌, Bool, true, ◌&&◌, not, [],
  ◌∷◌, ◌++◌, Text, arith, ltb, nat_beq, if◌then◌else◌, all_of, Bool-cases, inl, inr,
}
use sl.Near.Key.{decimal_from, decimal, remote_key}

-- Reading digits from the left.
abbrev value_from : ℕ → Text → ℕ
value_from acc [] = acc
value_from acc (c ∷ s) = value_from (acc * 10 + (c - 48)) s

value_from-append_one :
    (acc : ℕ) (s : Text) (c : ℕ) → value_from acc (s ++ c ∷ []) ≡ value_from acc s * 10 + (c - 48)
value_from-append_one acc [] c = refl
value_from-append_one acc (x ∷ s) c = value_from-append_one (acc * 10 + (x - 48)) s c

value_from-decimal_from : (fuel n : ℕ) → n < fuel → value_from 0 (decimal_from fuel n) ≡ n
unfolding decimal_from
value_from-decimal_from zero n h = absurd (omega arith)
value_from-decimal_from (suc fuel) n h = elim (Bool-cases (ltb n 10)) [
  | inl small ↦ rw small (omega arith)
  | inr large ↦ rw large (
      value_from-append_one 0 (decimal_from fuel (n / 10)) (48 + n % 10)
      ∙ (rw (value_from-decimal_from fuel (n / 10) (ground arith)) (omega arith)))
]

-- Not a colon.
abbrev is_inner : ℕ → Bool
is_inner c = not (nat_beq c 58)

all_of-append_one : (p : ℕ → Bool) (s : Text) (c : ℕ) → all_of p (s ++ c ∷ []) ≡ all_of p s && p c
all_of-append_one p [] c = ground arith
all_of-append_one p (x ∷ s) c = ground (arith, all_of-append_one p s c)

decimal_from-inner : (fuel n : ℕ) → all_of is_inner (decimal_from fuel n) ≡ true
unfolding decimal_from
decimal_from-inner zero n = refl
decimal_from-inner (suc fuel) n = ground (
  arith,
  decimal_from-inner fuel (n / 10),
  all_of-append_one is_inner (decimal_from fuel (n / 10)) (48 + n % 10),
)

abbrev before_colon : Text → Text
before_colon [] = []
before_colon (c ∷ s) = if is_inner c then c ∷ before_colon s else []

abbrev after_colon : Text → Text
after_colon [] = []
after_colon (c ∷ s) = if is_inner c then after_colon s else s

before_colon-append : (s rest : Text) → all_of is_inner s ≡ true → before_colon (s ++ 58 ∷ rest) ≡ s
before_colon-append [] rest h = refl
before_colon-append (c ∷ s) rest h = ground (arith, before_colon-append s rest)

after_colon-append :
    (s rest : Text) → all_of is_inner s ≡ true → after_colon (s ++ 58 ∷ rest) ≡ rest
after_colon-append [] rest h = refl
after_colon-append (c ∷ s) rest h = ground (arith, after_colon-append s rest)

-- The two numbers of a key are read back from it.
chain_of-remote_key :
    (chain epoch_id : ℕ) → value_from 0 (before_colon (remote_key chain epoch_id)) ≡ chain
unfolding remote_key decimal
chain_of-remote_key chain epoch_id =
    ap (value_from 0) (
      before_colon-append (decimal_from (suc chain) chain) _ (decimal_from-inner (suc chain) chain))
    ∙ value_from-decimal_from (suc chain) chain (omega arith)

epoch_of-remote_key :
    (chain epoch_id : ℕ) → value_from 0 (after_colon (remote_key chain epoch_id)) ≡ epoch_id
unfolding remote_key decimal
epoch_of-remote_key chain epoch_id =
    ap (value_from 0)
      (after_colon-append (decimal_from (suc chain) chain) _ (decimal_from-inner (suc chain) chain))
    ∙ value_from-decimal_from (suc epoch_id) epoch_id (omega arith)

pub remote_key-injective :
    (chain epoch_id chain' epoch_id' : ℕ)
    → remote_key chain epoch_id ≡ remote_key chain' epoch_id'
    → (chain ≡ chain') × (epoch_id ≡ epoch_id')
remote_key-injective chain epoch_id chain' epoch_id' same = (
  sym (chain_of-remote_key chain epoch_id)
      ∙ (ap (λ k. value_from 0 (before_colon k)) same ∙ chain_of-remote_key chain' epoch_id'),
  sym (epoch_of-remote_key chain epoch_id)
      ∙ (ap (λ k. value_from 0 (after_colon k)) same ∙ epoch_of-remote_key chain' epoch_id'),
)
