-- ===== src/Near/Verifier/Binding.antt =====
-- What the verifier accepts.
use sl.Prelude.{
  ◌≡◌, ◌↔◌, ap, ◌∙◌, true, false, List, ◌++◌, Text, arith, ltb, text_beq_iff, length, take, drop,
}
use sl.ProofText.{is_blank, is_proof_text}
use sl.Near.Hash.{Host}
use sl.Near.Verifier.{starts_twice, no_blanks, join, expected_binding, verify_proof_binding}

is_proof_text-reaches_64 :
    (proof : Text) → is_proof_text proof ≡ true → ltb (length proof) 64 ≡ false
unfolding is_proof_text
is_proof_text-reaches_64 proof h = ground arith

-- The checks of the public inputs.
pub record IsSound (root : Text) (nullifiers outputs : List Text) : Type 0 where
  pub nullifiers_differ : starts_twice nullifiers ≡ false
  pub nullifiers_set : no_blanks nullifiers ≡ true
  pub root_set : is_blank root ≡ false
  pub outputs_set : no_blanks outputs ≡ true
  pub outputs_differ : starts_twice outputs ≡ false

module _ (host : Host) where
  -- A proof is accepted exactly if its text has the right form, the inputs are sound, and its first
  -- 64 digits are the binding of the inputs' texts, one after the other, and the body.
  pub verify-accepts_iff :
      (proof root : Text) (nullifiers outputs : List Text)
      → (verify_proof_binding host proof root nullifiers outputs ≡ true) ↔ (
          (is_proof_text proof ≡ true)
          × IsSound root nullifiers outputs
          × (take 64 proof
              ≡ expected_binding host (root ++ (join nullifiers ++ join outputs)) (drop 64 proof)))
  unfolding verify_proof_binding
  verify-accepts_iff proof root nullifiers outputs =
      let tag =
        text_beq_iff (take 64 proof)
          (expected_binding host (root ++ (join nullifiers ++ join outputs)) (drop 64 proof)) in
      (
        λ h. (
          ground (arith, h),
          record {
            nullifiers_differ = ground (arith, h);
            nullifiers_set = ground (arith, h);
            root_set = ground (arith, h);
            outputs_set = ground (arith, h);
            outputs_differ = ground (arith, h);
          },
          tag.0 (ground (arith, h)),
        ),
        λ (form, sound, same).
            rw
              (
                form,
                sound.nullifiers_differ,
                sound.nullifiers_set,
                sound.root_set,
                sound.outputs_set,
                sound.outputs_differ,
                is_proof_text-reaches_64 proof form,
              )
              (tag.1 same),
      )

  -- A proof that is accepted for one root, nullifiers and outputs is accepted for all others that are
  -- sound and whose texts, joined, are the same.
  pub verify-replayed :
      (proof root root' : Text) (nullifiers nullifiers' outputs outputs' : List Text)
      → verify_proof_binding host proof root nullifiers outputs ≡ true
      → IsSound root' nullifiers' outputs'
      → root ++ (join nullifiers ++ join outputs) ≡ root' ++ (join nullifiers' ++ join outputs')
      → verify_proof_binding host proof root' nullifiers' outputs' ≡ true
  verify-replayed proof root root' ns ns' outs outs' h sound same =
      let (form, sound', tag) = (verify-accepts_iff proof root ns outs).0 h in
      (verify-accepts_iff proof root' ns' outs').1
        (form, sound, tag ∙ ap (λ t. expected_binding host t (drop 64 proof)) same)
