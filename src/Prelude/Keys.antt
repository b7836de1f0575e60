-- ===== src/Prelude/Keys.antt =====
-- Equality of keys as an interface, texts as lists of bytes.
use Prim.Native.Nat.{ℕ}
use mathlib.Core.Path.{◌≡◌}
use mathlib.Core.Logic.{◌↔◌, ◌≢◌, inl, inr}
use mathlib.Core.Bool.{Bool, true, false, ◌&&◌}
use mathlib.Core.List.{List, [], ◌∷◌}
use native.Mathlib.Omega.{arith}
use sl.Prelude.Tests.{nat_beq, nat_beq_iff, Bool-cases}

-- A type whose values a map can be keyed by: a Boolean test that decides equality.
pub record Key {κ} (K : Type κ) : Type κ where
  pub same : K → K → Bool
  pub same_iff : (k l : K) → (same k l ≡ true) ↔ (k ≡ l)

abbrev pub ◌==◌ {κ} : {K : Type κ} ⦃key : Key K⦄ → K → K → Bool
◌==◌ ⦃key⦄ k l = key.same k l

infix 50 ◌==◌
instance abbrev pub nat_eq : Key ℕ
nat_eq = record { same_iff = nat_beq_iff; same = nat_beq }

-- A `String` or a byte vector, as its bytes.
abbrev pub Text : Type 0
Text = List ℕ

unfoldable pub text_beq : Text → Text → Bool
text_beq [] [] = true
text_beq [] (y ∷ ys) = false
text_beq (x ∷ xs) [] = false
text_beq (x ∷ xs) (y ∷ ys) = nat_beq x y && text_beq xs ys

pub text_beq_iff : (a b : Text) → (text_beq a b ≡ true) ↔ (a ≡ b)
unfolding text_beq
text_beq_iff [] [] = ground arith
text_beq_iff [] (y ∷ ys) = ground arith
text_beq_iff (x ∷ xs) [] = ground arith
text_beq_iff (x ∷ xs) (y ∷ ys) = ground (arith, text_beq_iff xs ys)

instance abbrev pub text_eq : Key Text
text_eq = record { same = text_beq; same_iff = text_beq_iff }

abbrev pub pair_same : ℕ × ℕ → ℕ × ℕ → Bool
pair_same (a, b) (c, d) = nat_beq a c && nat_beq b d

pub pair_same_iff : (p q : ℕ × ℕ) → (pair_same p q ≡ true) ↔ (p ≡ q)
pair_same_iff (a, b) (c, d) = ground arith

instance abbrev pub pair_eq : Key (ℕ × ℕ)
pair_eq = record { same = pair_same; same_iff = pair_same_iff }

pub text_ne : (a b : Text) → text_beq a b ≡ false → a ≢ b
text_ne a b h same = ground (arith, text_beq_iff a b)

pub text_beq-of_ne : (a b : Text) → a ≢ b → text_beq a b ≡ false
text_beq-of_ne a b ne = elim (Bool-cases (text_beq a b)) [
  | inl same ↦ absurd (ne ((text_beq_iff a b).0 same))
  | inr h ↦ h
]
