-- ===== src/Coprocessor/Envelope.antt =====
-- Envelopes have their size and give their content back, and domains are told apart.
use sl.Prelude.{
  ℕ, zero, suc, ◌+◌, ◌-◌, ◌%◌, ◌<◌, ◌≤◌, ◌≡◌, refl, sym, ap, ◌∙◌, [], ◌∷◌, ◌++◌, Text, arith,
  length, length-append, take, drop,
}
use sl.Prelude.Words.{u32_mod}
use mathlib.Core.List.{append_assoc}
use sl.CosmWasm.Poseidon.{be_bytes, from_be_bytes}
use sl.CosmWasm.Poseidon.Digest.{from_be_bytes-be_bytes, length-be_bytes}
use sl.Coprocessor.{Crates, domain_bytes, filled_envelope, padded_proof_envelope}

length-take : (n : ℕ) (xs : Text) → n ≤ length xs → length (take n xs) ≡ n
length-take zero xs h = refl
length-take (suc n) [] h = absurd (omega arith)
length-take (suc n) (x ∷ xs) h = omega (arith, length-take n xs (omega arith))

take-append : (n : ℕ) (xs ys : Text) → length xs ≡ n → take n (xs ++ ys) ≡ xs
take-append zero [] ys h = refl
take-append zero (x ∷ xs) ys h = absurd (omega arith)
take-append (suc n) [] ys h = absurd (omega arith)
take-append (suc n) (x ∷ xs) ys h = rw (take-append n xs ys (omega arith)) refl

drop-append : (n : ℕ) (xs ys : Text) → length xs ≡ n → drop n (xs ++ ys) ≡ ys
drop-append zero [] ys h = refl
drop-append zero (x ∷ xs) ys h = absurd (omega arith)
drop-append (suc n) [] ys h = absurd (omega arith)
drop-append (suc n) (x ∷ xs) ys h = drop-append n xs ys (omega arith)

take-all : (n : ℕ) (xs : Text) → length xs ≡ n → take n xs ≡ xs
take-all zero [] h = refl
take-all zero (x ∷ xs) h = absurd (omega arith)
take-all (suc n) [] h = absurd (omega arith)
take-all (suc n) (x ∷ xs) h = rw (take-all n xs (omega arith)) refl

-- Different chains or applications, as 32-bit numbers, give different domain bytes.
pub domain_bytes-injective :
    (chain app chain' app' : ℕ)
    → chain < u32_mod
    → app < u32_mod
    → chain' < u32_mod
    → app' < u32_mod
    → domain_bytes chain app ≡ domain_bytes chain' app'
    → (chain ≡ chain') × (app ≡ app')
unfolding domain_bytes
domain_bytes-injective chain app chain' app' h1 h2 h3 h4 same =
    let first : be_bytes 4 chain ≡ be_bytes 4 chain' =
      sym (take-append 4 (be_bytes 4 chain) (be_bytes 4 app) (length-be_bytes 4 chain))
      ∙ (ap (take 4) same
          ∙ take-append 4 (be_bytes 4 chain') (be_bytes 4 app') (length-be_bytes 4 chain')) in
    let second : be_bytes 4 app ≡ be_bytes 4 app' =
      sym (drop-append 4 (be_bytes 4 chain) (be_bytes 4 app) (length-be_bytes 4 chain))
      ∙ (ap (drop 4) same
          ∙ drop-append 4 (be_bytes 4 chain') (be_bytes 4 app') (length-be_bytes 4 chain')) in
    (
      sym (from_be_bytes-be_bytes 4 chain h1)
          ∙ (ap (from_be_bytes 0) first ∙ from_be_bytes-be_bytes 4 chain' h3),
      sym (from_be_bytes-be_bytes 4 app h2)
          ∙ (ap (from_be_bytes 0) second ∙ from_be_bytes-be_bytes 4 app' h4),
    )

-- What the documentation of `fill_bytes` says: it fills the buffer.
pub record IsRandom (crates : Crates) : Type 0 where
  pub filled : (draw n : ℕ) → length (crates.fill_bytes draw n) ≡ n

module _ (crates : Crates) where
  -- An envelope that has room for its content, whose length is below 2 ^ 32, has exactly its size, its
  -- first four bytes hold the length of the content, and the content follows them, whatever the
  -- padding. The random source is taken to fill its buffer.
  pub padded_proof_envelope_lem :
      (draw : ℕ) (body : Text) (size : ℕ)
      → IsRandom crates
      → 4 + length body ≤ size
      → length body < u32_mod
      → let envelope = padded_proof_envelope crates draw body size in
        (length envelope ≡ size)
        × (from_be_bytes 0 (take 4 envelope) ≡ length body)
        × (take (length body) (drop 4 envelope) ≡ body)
  unfolding padded_proof_envelope filled_envelope
  padded_proof_envelope_lem draw body size random room small =
      let word : length body % u32_mod ≡ length body = omega arith in
      let prefix : Text = be_bytes 4 (length body) in
      let pad : Text = crates.fill_bytes draw (size - length (prefix ++ body)) in
      let four = length-be_bytes 4 (length body) in
      let content = length-append prefix body in
      let all = length-append (prefix ++ body) pad in
      let whole : length ((prefix ++ body) ++ pad) ≡ size =
        omega (arith, four, content, all, random.filled draw (size - length (prefix ++ body))) in
      let split : (prefix ++ body) ++ pad ≡ prefix ++ (body ++ pad) =
        append_assoc prefix body pad in
      rw (word, take-all size ((prefix ++ body) ++ pad) whole)
        (
          whole,
          ap (λ (t : Text). from_be_bytes 0 (take 4 t)) split
              ∙ (ap (from_be_bytes 0) (take-append 4 prefix (body ++ pad) four)
                  ∙ from_be_bytes-be_bytes 4 (length body) small),
          ap (λ (t : Text). take (length body) (drop 4 t)) split
              ∙ (ap (take (length body)) (drop-append 4 prefix (body ++ pad) four)
                  ∙ take-append (length body) body pad refl),
        )
