-- ===== src/Pallet/Verifier/Form.antt =====
-- The form and the tag of a proof in pallets/privacy-pool/src/verifier.rs.
use sl.Prelude.{
  ℕ, ◌+◌, ◌-◌, ◌*◌, ◌/◌, ◌%◌, ◌≤◌, ◌≡◌, refl, Bool, true, false, not, ◌&&◌, ◌||◌, ◌++◌, Text, arith,
  ltb, nat_beq, text_beq, text_beq_iff, length-drop, length, take, drop, all_of,
}
use sl.Pallet.Verifier.{is_proof_format, verify_halo2_ipa_proof, binding_tag}

-- The form of a proof: a tag of 32 bytes, a commitment, an evaluation, and 1 to 32 rounds of 64 bytes.
pub record IsFormed (proof : Text) : Type 0 where
  pub rounds : ℕ
  pub some_rounds : 1 ≤ rounds
  pub few_rounds : rounds ≤ 32
  pub measured : length proof ≡ 128 + 64 * rounds
  pub not_blank : all_of (λ b. nat_beq b 0) proof ≡ false

-- The tests of the length, over a number.
abbrev length_test : ℕ → Bool
length_test n =
    not (ltb n 192 || ltb 4096 n)
    && nat_beq (n % 32) 0
    && not (ltb n 192)
    && nat_beq ((n - 32 - 96) % 64) 0
    && not (nat_beq ((n - 32 - 96) / 64) 0 || ltb 32 ((n - 32 - 96) / 64))

length_test-true :
    (n : ℕ)
    → length_test n ≡ true
    → (1 ≤ (n - 128) / 64) × ((n - 128) / 64 ≤ 32) × (n ≡ 128 + 64 * ((n - 128) / 64))
length_test-true n h =
    let a : ltb n 192 ≡ false = ground (arith, h) in
    let b : nat_beq ((n - 32 - 96) % 64) 0 ≡ true = ground (arith, h) in
    let c : ltb 32 ((n - 32 - 96) / 64) ≡ false = ground (arith, h) in
    (ground (arith, a), ground (arith, c), ground (arith, a, b))

length_test-of_rounds :
    (n rounds : ℕ) → 1 ≤ rounds → rounds ≤ 32 → n ≡ 128 + 64 * rounds → length_test n ≡ true
length_test-of_rounds n rounds h1 h2 e =
    let long : ltb n 192 ≡ false = ground (arith, h1, e) in
    let short : ltb 4096 n ≡ false = ground (arith, h2, e) in
    let words : nat_beq (n % 32) 0 ≡ true = ground (arith, e) in
    let whole : nat_beq ((n - 32 - 96) % 64) 0 ≡ true = ground (arith, e) in
    let some_ : nat_beq ((n - 32 - 96) / 64) 0 ≡ false = ground (arith, h1, e) in
    let few : ltb 32 ((n - 32 - 96) / 64) ≡ false = ground (arith, h2, e) in
    rw (long, short, words, whole, some_, few) refl

-- The tests of the two functions, with the length of the rounds apart.
abbrev format_test : ℕ → Bool → Bool
format_test n blank = not (ltb n 192 || ltb 4096 n) && nat_beq (n % 32) 0 && not blank

abbrev round_test : ℕ → ℕ → Bool → Bool
round_test n r tag =
    not (ltb n 192) && nat_beq (r % 64) 0 && not (nat_beq (r / 64) 0 || ltb 32 (r / 64)) && tag

tests_of :
    (n r : ℕ) (blank tag : Bool)
    → r ≡ n - 32 - 96
    → format_test n blank ≡ true
    → round_test n r tag ≡ true
    → (length_test n ≡ true) × (blank ≡ false) × (tag ≡ true)
tests_of n r blank tag e h h' =
    let here : round_test n (n - 32 - 96) tag ≡ true = rw (← e) h' in
    (ground (arith, h, here), ground (arith, h), ground (arith, h'))

of_tests :
    (n r : ℕ) (blank tag : Bool)
    → r ≡ n - 32 - 96
    → length_test n ≡ true
    → blank ≡ false
    → tag ≡ true
    → (format_test n blank ≡ true) × (round_test n r tag ≡ true)
of_tests n r blank tag e h h0 h1 = (ground (arith, h, h0), rw e (ground (arith, h, h1)))

module _ (blake2_256 : Text → Text) where
  -- The tag that binds the rest of a proof to its public inputs.
  abbrev pub IsTagged : Text → Text → Type 0
  IsTagged proof inputs = take 32 proof ≡ blake2_256 (binding_tag ++ (inputs ++ drop 32 proof))

  checks_of :
      (proof inputs : Text)
      → is_proof_format proof ≡ true
      → verify_halo2_ipa_proof blake2_256 proof inputs ≡ true
      → (length_test (length proof) ≡ true)
        × (all_of (λ b. nat_beq b 0) proof ≡ false)
        × (text_beq (take 32 proof) (blake2_256 (binding_tag ++ (inputs ++ drop 32 proof))) ≡ true)
  unfolding is_proof_format verify_halo2_ipa_proof
  checks_of proof inputs h h' =
      let split : length (drop 96 (drop 32 proof)) ≡ length proof - 32 - 96 =
        rw (length-drop 96 (drop 32 proof), length-drop 32 proof) refl in
      let it =
        tests_of (length proof) (length (drop 96 (drop 32 proof))) (all_of (λ b. nat_beq b 0) proof)
          (text_beq (take 32 proof) (blake2_256 (binding_tag ++ (inputs ++ drop 32 proof)))) split h
          h' in
      it

  pub IsFormed-of :
      (proof inputs : Text)
      → is_proof_format proof ≡ true
      → verify_halo2_ipa_proof blake2_256 proof inputs ≡ true
      → IsFormed proof × IsTagged proof inputs
  IsFormed-of proof inputs h h' =
      let (measured, blank, tag) = checks_of proof inputs h h' in
      let (some_rounds, few_rounds, e) = length_test-true (length proof) measured in
      (
        record {
          rounds = (length proof - 128) / 64;
          some_rounds = some_rounds;
          few_rounds = few_rounds;
          measured = e;
          not_blank = blank;
        },
        (text_beq_iff _ _).0 tag,
      )

  pub verify-IsFormed :
      (proof inputs : Text)
      → IsFormed proof
      → IsTagged proof inputs
      → (is_proof_format proof ≡ true) × (verify_halo2_ipa_proof blake2_256 proof inputs ≡ true)
  unfolding is_proof_format verify_halo2_ipa_proof
  verify-IsFormed proof inputs formed tagged =
      let split : length (drop 96 (drop 32 proof)) ≡ length proof - 32 - 96 =
        rw (length-drop 96 (drop 32 proof), length-drop 32 proof) refl in
      of_tests (length proof) (length (drop 96 (drop 32 proof))) (all_of (λ b. nat_beq b 0) proof)
        (text_beq (take 32 proof) (blake2_256 (binding_tag ++ (inputs ++ drop 32 proof)))) split
        (length_test-of_rounds (length proof) formed.rounds formed.some_rounds formed.few_rounds
          formed.measured)
        formed.not_blank ((text_beq_iff _ _).1 tagged)
