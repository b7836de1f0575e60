-- ===== src/Ink/Proof/Binding.antt =====
-- What `verify_proof_structure` of ink/privacy-pool/lib.rs accepts.
use sl.Prelude.{
  not-false, ℕ, ◌-◌, ◌%◌, ◌/◌, ◌*◌, ◌+◌, ◌≤◌, ◌≡◌, ◌≢◌, ◌↔◌, refl, Bool, true, false, not, ◌||◌,
  Text, arith, ltb, nat_beq, text_beq, text_beq_iff, text_ne, text_beq-of_ne, length-drop, length,
  take, drop, all_of,
}
use sl.Fallible.{ok, >>=-eq-ok, refuse_if, refuse_if-eq-ok}
use sl.Ink.State.{Host, invalid_proof}
use sl.Ink.Tree.{zero_value}
use sl.Ink.Proof.{Pair, expected_binding, verify_proof_structure}

or_false : (a b : Bool) → (a || b) ≡ false → (a ≡ false) × (b ≡ false)
or_false a b h = ground arith

whole_rounds :
    (n t : ℕ)
    → t ≡ n - 32
    → ltb n 192 ≡ false
    → (ltb t 160 || not (nat_beq ((t - 96) % 64) 0)) ≡ false
    → (1 ≤ (n - 128) / 64) × (n ≡ 128 + 64 * ((n - 128) / 64))
whole_rounds n t e long whole =
    let (h1, h2) = or_false (ltb t 160) (not (nat_beq ((t - 96) % 64) 0)) whole in
    let a : 192 ≤ n = ground (arith, long) in
    let b : (t - 96) % 64 ≡ 0 = ground (arith, h2) in (omega arith, omega arith)

not_above : (n m : ℕ) → ltb m n ≡ false → n ≤ m
not_above n m h = ground arith

length_tests :
    (n t rounds : ℕ)
    → t ≡ n - 32
    → 1 ≤ rounds
    → n ≡ 128 + 64 * rounds
    → n ≤ 4096
    → (ltb n 192 ≡ false)
      × (ltb 4096 n ≡ false)
      × (nat_beq (n % 32) 0 ≡ true)
      × (ltb t 160 ≡ false)
      × (nat_beq ((t - 96) % 64) 0 ≡ true)
length_tests n t rounds e enough measured short =
    (ground arith, ground arith, ground arith, ground arith, ground arith)

-- What the checks ask for, on the length and the values: a whole number of rounds of 64 bytes, at least
-- one, after the 128 bytes of the tag, the commitment and the evaluation.
pub record IsBound (host : Host) (proof : Text) (nullifiers outputs : Pair) : Type 0 where
  pub rounds : ℕ
  pub some_rounds : 1 ≤ rounds
  pub measured : length proof ≡ 128 + 64 * rounds
  pub short : length proof ≤ 4096
  pub not_blank : all_of (λ b. nat_beq b 0) proof ≡ false
  pub nullifiers_differ : nullifiers.0 ≢ nullifiers.1
  pub nullifier_0_set : nullifiers.0 ≢ zero_value
  pub nullifier_1_set : nullifiers.1 ≢ zero_value
  pub output_0_set : outputs.0 ≢ zero_value
  pub output_1_set : outputs.1 ≢ zero_value
  pub tagged : take 32 proof ≡ expected_binding host nullifiers outputs (drop 32 proof)

module _ (host : Host) where
  verify-IsBound :
      (proof n0 n1 c0 c1 : Text)
      → verify_proof_structure host proof (n0, n1) (c0, c1) ≡ ok tt
      → IsBound host proof (n0, n1) (c0, c1)
  unfolding verify_proof_structure
  verify-IsBound proof n0 n1 c0 c1 h =
      let n : ℕ = length proof in
      let t : ℕ = length (drop 32 proof) in
      let (u1, e1, h1) = >>=-eq-ok (refuse_if (ltb n 192) invalid_proof) _ h in
      let (u2, e2, h2) = >>=-eq-ok (refuse_if (ltb 4096 n) invalid_proof) _ h1 in
      let (u3, e3, h3) = >>=-eq-ok (refuse_if (not (nat_beq (n % 32) 0)) invalid_proof) _ h2 in
      let (u4, e4, h4) =
        >>=-eq-ok (refuse_if (all_of (λ b. nat_beq b 0) proof) invalid_proof) _ h3 in
      let (u5, e5, h5) = >>=-eq-ok (refuse_if (text_beq n0 n1) invalid_proof) _ h4 in
      let (u6, e6, h6) =
        >>=-eq-ok (refuse_if (text_beq n0 zero_value || text_beq n1 zero_value) invalid_proof) _
          h5 in
      let (u7, e7, h7) = >>=-eq-ok (refuse_if (text_beq c0 zero_value) invalid_proof) _ h6 in
      let (u8, e8, h8) = >>=-eq-ok (refuse_if (text_beq c1 zero_value) invalid_proof) _ h7 in
      let (u9, e9, h9) =
        >>=-eq-ok (refuse_if (ltb t 160 || not (nat_beq ((t - 96) % 64) 0)) invalid_proof) _ h8 in
      let (enough, measured) =
        whole_rounds n t (length-drop 32 proof) (refuse_if-eq-ok (ltb n 192) invalid_proof e1)
          (refuse_if-eq-ok (ltb t 160 || not (nat_beq ((t - 96) % 64) 0)) invalid_proof e9) in
      let set =
        or_false (text_beq n0 zero_value) (text_beq n1 zero_value)
          (refuse_if-eq-ok (text_beq n0 zero_value || text_beq n1 zero_value) invalid_proof e6) in
      let tag : Text = expected_binding host (n0, n1) (c0, c1) (drop 32 proof) in
      record {
        rounds = (n - 128) / 64;
        some_rounds = enough;
        measured = measured;
        short = not_above n 4096 (refuse_if-eq-ok (ltb 4096 n) invalid_proof e2);
        not_blank = refuse_if-eq-ok (all_of (λ b. nat_beq b 0) proof) invalid_proof e4;
        nullifiers_differ = text_ne n0 n1 (refuse_if-eq-ok (text_beq n0 n1) invalid_proof e5);
        nullifier_0_set = text_ne n0 zero_value set.0;
        nullifier_1_set = text_ne n1 zero_value set.1;
        output_0_set =
            text_ne c0 zero_value (refuse_if-eq-ok (text_beq c0 zero_value) invalid_proof e7);
        output_1_set =
            text_ne c1 zero_value (refuse_if-eq-ok (text_beq c1 zero_value) invalid_proof e8);
        tagged = (text_beq_iff (take 32 proof) tag).0 (
            not-false (text_beq (take 32 proof) tag)
              (refuse_if-eq-ok (not (text_beq (take 32 proof) tag)) invalid_proof h9));
      }

  IsBound-verify :
      (proof n0 n1 c0 c1 : Text)
      → IsBound host proof (n0, n1) (c0, c1)
      → verify_proof_structure host proof (n0, n1) (c0, c1) ≡ ok tt
  unfolding verify_proof_structure
  IsBound-verify proof n0 n1 c0 c1 bound =
      let tests =
        length_tests (length proof) (length (drop 32 proof)) bound.rounds (length-drop 32 proof)
          bound.some_rounds bound.measured bound.short in
      rw
        (
          tests.0,
          tests.1,
          tests.2,
          bound.not_blank,
          text_beq-of_ne n0 n1 bound.nullifiers_differ,
          text_beq-of_ne n0 zero_value bound.nullifier_0_set,
          text_beq-of_ne n1 zero_value bound.nullifier_1_set,
          text_beq-of_ne c0 zero_value bound.output_0_set,
          text_beq-of_ne c1 zero_value bound.output_1_set,
          tests.3,
          tests.4,
          (text_beq_iff (take 32 proof) (expected_binding host (n0, n1) (c0, c1) (drop 32 proof))).1
              bound.tagged,
        )
        refl

  pub verify_proof_structure_iff :
      (proof : Text) (nullifiers outputs : Pair)
      → (verify_proof_structure host proof nullifiers outputs ≡ ok tt)
        ↔ IsBound host proof nullifiers outputs
  verify_proof_structure_iff proof (n0, n1) (c0, c1) =
      (verify-IsBound proof n0 n1 c0 c1, IsBound-verify proof n0 n1 c0 c1)
