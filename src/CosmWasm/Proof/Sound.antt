-- ===== src/CosmWasm/Proof/Sound.antt =====
-- What `verify_proof_binding` of cosmwasm/contracts/privacy-pool/src/contract.rs accepts, in terms of the
-- characters of its texts.
use sl.Prelude.{
  refl, ◌≡◌, ◌≢◌, ◌↔◌, Bool, true, false, not, ◌&&◌, ◌++◌, Text, arith, take, drop, text_beq,
  text_ne, text_beq-of_ne,
}
use sl.ProofText.{bind_tag, is_blank}
use sl.ProofText.Form.{IsFilled, IsProofForm, is_blank_iff, is_proof_text_iff}
use sl.CosmWasm.Poseidon.{Crates}
use sl.CosmWasm.Msg.{Pair}
use sl.CosmWasm.Proof.{inputs_text, are_inputs_sound, expected_hex, verify_proof_binding}
use sl.CosmWasm.Proof.Binding.{verify_proof_binding_lem}

-- Public inputs that are set, with different nullifiers and different outputs.
pub record IsSoundInputs (root : Text) (nuls outs : Pair) : Type 0 where
  pub root_set : IsFilled root
  pub nullifier_0_set : IsFilled nuls.0
  pub nullifier_1_set : IsFilled nuls.1
  pub output_0_set : IsFilled outs.0
  pub output_1_set : IsFilled outs.1
  pub nullifiers_differ : nuls.0 ≢ nuls.1
  pub outputs_differ : outs.0 ≢ outs.1

seven :
    (a0 a1 a2 a3 a4 a5 a6 : Bool)
    → (not a0 && not a1 && not a2 && not a3 && not a4 && not a5 && not a6) ≡ true
    → (a0 ≡ false)
      × (a1 ≡ false)
      × (a2 ≡ false)
      × (a3 ≡ false)
      × (a4 ≡ false)
      × (a5 ≡ false)
      × (a6 ≡ false)
seven a0 a1 a2 a3 a4 a5 a6 h = (
  ground (arith, h),
  ground (arith, h),
  ground (arith, h),
  ground (arith, h),
  ground (arith, h),
  ground (arith, h),
  ground (arith, h),
)

are_inputs_sound_iff :
    (root : Text) (nuls outs : Pair)
    → (are_inputs_sound root nuls outs ≡ true) ↔ IsSoundInputs root nuls outs
unfolding are_inputs_sound
are_inputs_sound_iff root (n0, n1) (c0, c1) = (
  λ h.
      let (differ, set0, set1, set_root, out0, out1, differ') =
        seven (text_beq n0 n1) (is_blank n0) (is_blank n1) (is_blank root) (is_blank c0)
          (is_blank c1) (text_beq c0 c1) h in
      record {
        root_set = (is_blank_iff root).0 set_root;
        nullifier_0_set = (is_blank_iff n0).0 set0;
        nullifier_1_set = (is_blank_iff n1).0 set1;
        output_0_set = (is_blank_iff c0).0 out0;
        output_1_set = (is_blank_iff c1).0 out1;
        nullifiers_differ = text_ne n0 n1 differ;
        outputs_differ = text_ne c0 c1 differ';
      },
  λ it.
      rw
        (
          text_beq-of_ne n0 n1 it.nullifiers_differ,
          (is_blank_iff n0).1 it.nullifier_0_set,
          (is_blank_iff n1).1 it.nullifier_1_set,
          (is_blank_iff root).1 it.root_set,
          (is_blank_iff c0).1 it.output_0_set,
          (is_blank_iff c1).1 it.output_1_set,
          text_beq-of_ne c0 c1 it.outputs_differ,
        )
        refl,
)

module _ (crates : Crates) where
  -- A proof is accepted exactly if it is 192 to 4096 bytes in hexadecimal and not all zero; the root,
  -- the nullifiers and the outputs each have a character other than 0; the nullifiers differ and so do
  -- the outputs; and the first 64 digits are the hash of the tag, the hash of the five texts one after
  -- the other, and the rest.
  pub verify_proof_binding_iff :
      (proof root : Text) (nuls outs : Pair)
      → (verify_proof_binding crates proof root nuls outs ≡ true) ↔ (
          IsProofForm proof
          × IsSoundInputs root nuls outs
          × (take 64 proof
              ≡ crates.hex_encode (
                  crates.sha256 (
                    bind_tag
                    ++ (crates.sha256 (root ++ (nuls.0 ++ (nuls.1 ++ (outs.0 ++ outs.1))))
                        ++ drop 64 proof)))))
  unfolding expected_hex inputs_text
  verify_proof_binding_iff proof root (n0, n1) (c0, c1) =
      let checks = verify_proof_binding_lem crates proof root (n0, n1) (c0, c1) in
      let sound = are_inputs_sound_iff root (n0, n1) (c0, c1) in
      (
        λ h.
            let (form, inputs, tag) = checks.0 h in
            ((is_proof_text_iff proof).0 form, sound.0 inputs, tag),
        λ (form, inputs, tag). checks.1 ((is_proof_text_iff proof).1 form, sound.1 inputs, tag),
      )
