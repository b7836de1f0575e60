-- ===== src/ProofText/Form.antt =====
-- What the checks of a proof's text and of the public inputs ask for, in terms of their characters.
use sl.Prelude.{
  ℕ, zero, suc, ◌*◌, ◌/◌, ◌%◌, ◌≤◌, ◌≡◌, ◌≢◌, ◌⊎◌, ◌↔◌, refl, Bool, true, false, not, ◌&&◌, inl,
  inr, Bool-cases, List, [], ◌∷◌, Text, some, get_elem?, arith, ltb, nat_beq, length, all_of,
}
use sl.ProofText.{is_zero_digit, is_ascii_hexdigit, is_blank, is_proof_text}

-- `0` to `9`, `a` to `f` or `A` to `F`.
abbrev pub IsHexDigit : ℕ → Type 0
IsHexDigit c = ((48 ≤ c) × (c ≤ 57)) ⊎ (((97 ≤ c) × (c ≤ 102)) ⊎ ((65 ≤ c) × (c ≤ 70)))

-- A text with a character other than `0`.
abbrev pub IsFilled : Text → Type 0
IsFilled t = (i c : ℕ) × (get_elem? t i ≡ some c) × (c ≢ 48)

-- A proof of 192 to 4096 bytes in hexadecimal, not all zero.
pub record IsProofForm (proof : Text) : Type 0 where
  pub bytes : ℕ
  pub measured : length proof ≡ 2 * bytes
  pub long : 192 ≤ bytes
  pub short : bytes ≤ 4096
  pub hex : (i c : ℕ) → get_elem? proof i ≡ some c → IsHexDigit c
  pub set : IsFilled proof

module _ {ℓ} {A : Type ℓ} (p : A → Bool) where
  all_of-at :
      (xs : List A) (i : ℕ) (a : A) → all_of p xs ≡ true → get_elem? xs i ≡ some a → p a ≡ true
  all_of-at [] i a h at = cc
  all_of-at (x ∷ xs) zero a h at = ground (arith, h, at)
  all_of-at (x ∷ xs) (suc i) a h at = all_of-at xs i a (ground (arith, h)) at

  all_of-everywhere :
      (xs : List A) → ((i : ℕ) (a : A) → get_elem? xs i ≡ some a → p a ≡ true) → all_of p xs ≡ true
  all_of-everywhere [] h = refl
  all_of-everywhere (x ∷ xs) h = rw (h 0 x refl) (all_of-everywhere xs (λ i a at. h (suc i) a at))

  all_of-fails :
      (xs : List A)
      → all_of p xs ≡ false
      → (i : ℕ) × (a : A) × (get_elem? xs i ≡ some a) × (p a ≡ false)
  all_of-fails [] h = cc
  all_of-fails (x ∷ xs) h = elim (Bool-cases (p x)) [
    | inl holds ↦ let (i, a, at, fails) = all_of-fails xs (rw holds at h) in (suc i, a, at, fails)
    | inr fails ↦ (0, x, refl, fails)
  ]

  fails-all_of :
      (xs : List A) (i : ℕ) (a : A) → get_elem? xs i ≡ some a → p a ≡ false → all_of p xs ≡ false
  fails-all_of xs i a at fails = elim (Bool-cases (all_of p xs)) [
    | inl holds ↦ let it = all_of-at xs i a holds at in ground (arith, it, fails)
    | inr done ↦ done
  ]

hex-IsHexDigit : (c : ℕ) → is_ascii_hexdigit c ≡ true → IsHexDigit c
hex-IsHexDigit c h = ground (arith, h)

IsHexDigit-hex : (c : ℕ) → IsHexDigit c → is_ascii_hexdigit c ≡ true
IsHexDigit-hex c h = ground (arith, h)

zeros-IsFilled : (t : Text) → all_of is_zero_digit t ≡ false → IsFilled t
zeros-IsFilled t h =
    let (i, c, at, fails) = all_of-fails is_zero_digit t h in
    (i, c, at, λ same. ground (arith, fails, same))

IsFilled-zeros : (t : Text) → IsFilled t → all_of is_zero_digit t ≡ false
IsFilled-zeros t (i, c, at, ne) = fails-all_of is_zero_digit t i c at (ground (arith, ne))

-- A text is blank exactly if it has no other character than `0`.
pub is_blank_iff : (t : Text) → (is_blank t ≡ false) ↔ IsFilled t
unfolding is_blank
is_blank_iff [] = (λ h. cc, λ (i, c, at, ne). cc)
is_blank_iff (x ∷ t) = (zeros-IsFilled (x ∷ t), IsFilled-zeros (x ∷ t))

five :
    (low high hex even zeros : Bool)
    → (not low && not high && hex && even && not zeros) ≡ true
    → (low ≡ false) × (high ≡ false) × (hex ≡ true) × (even ≡ true) × (zeros ≡ false)
five low high hex even zeros h =
    (ground (arith, h), ground (arith, h), ground (arith, h), ground (arith, h), ground (arith, h))

-- A proof's text passes its checks exactly if it has the form.
pub is_proof_text_iff : (proof : Text) → (is_proof_text proof ≡ true) ↔ IsProofForm proof
unfolding is_proof_text
is_proof_text_iff proof = (
  λ h.
      let n : ℕ = length proof in
      let (low, high, hex, even, set) =
        five (ltb n 384) (ltb 8192 n) (all_of is_ascii_hexdigit proof) (nat_beq (n % 2) 0)
          (all_of is_zero_digit proof) h in
      record {
        bytes = n / 2;
        measured = ground (arith, even);
        long = ground (arith, low);
        short = ground (arith, high);
        hex = λ i c at. hex-IsHexDigit c (all_of-at is_ascii_hexdigit proof i c hex at);
        set = zeros-IsFilled proof set;
      },
  λ form.
      let hex =
        all_of-everywhere is_ascii_hexdigit proof (λ i c at. IsHexDigit-hex c (form.hex i c at)) in
      let low : ltb (length proof) 384 ≡ false = ground (arith, form.measured, form.long) in
      let high : ltb 8192 (length proof) ≡ false = ground (arith, form.measured, form.short) in
      let even : nat_beq (length proof % 2) 0 ≡ true = ground (arith, form.measured) in
      rw (low, high, hex, even, IsFilled-zeros proof form.set) refl,
)
