-- ===== src/Pallet/Verifier/Binding.antt =====
-- What the verifiers of pallets/privacy-pool/src/verifier.rs accept.
use sl.Prelude.{◌≡◌, ◌≢◌, ◌↔◌, refl, true, false, Text, arith, nat_beq, text_ne, text_beq-of_ne}
use sl.Pallet.State.{TransferPublicInputs, WithdrawPublicInputs}
use sl.Pallet.Poseidon.{zero_h256}
use sl.Pallet.Verifier.{is_mainnet_chain, encode_withdraw_inputs, verify_withdraw}
use sl.Pallet.Verifier.Form.{IsFormed, IsTagged, IsFormed-of, verify-IsFormed}

-- What the two verifiers ask of a root and nullifiers.
pub record IsSpend (root : Text) (nullifiers : Text × Text) : Type 0 where
  pub some_root : root ≢ zero_h256
  pub different : nullifiers.0 ≢ nullifiers.1
  pub some_0 : nullifiers.0 ≢ zero_h256
  pub some_1 : nullifiers.1 ≢ zero_h256

-- What the verifier of transfers asks of the outputs and the domain.
pub record IsOutput (inputs : TransferPublicInputs) : Type 0 where
  pub testing : is_mainnet_chain inputs.domain_chain_id ≡ false
  pub some_0 : inputs.output_commitments.0 ≢ zero_h256
  pub some_1 : inputs.output_commitments.1 ≢ zero_h256
  pub different : inputs.output_commitments.0 ≢ inputs.output_commitments.1
  pub some_chain : nat_beq inputs.domain_chain_id 0 ≡ false
  pub some_app : nat_beq inputs.domain_app_id 0 ≡ false

module _ (blake2_256 : Text → Text) where
  -- A proof of a withdrawal is accepted exactly if it has 1 to 32 rounds and is not all zero, the root,
  -- the nullifiers and the value are not zero, the two nullifiers differ, and the first 32 bytes are
  -- the hash of these four inputs and the rest.
  pub verify_withdraw_iff :
      (proof : Text) (inputs : WithdrawPublicInputs)
      → (verify_withdraw blake2_256 proof inputs ≡ true) ↔ (
          IsFormed proof
          × IsSpend inputs.merkle_root inputs.nullifiers
          × (nat_beq inputs.exit_value 0 ≡ false)
          × IsTagged blake2_256 proof (encode_withdraw_inputs inputs))
  unfolding verify_withdraw
  verify_withdraw_iff proof inputs = (
    λ h.
        let (formed, tagged) =
          IsFormed-of blake2_256 proof (encode_withdraw_inputs inputs) (ground (arith, h))
            (ground (arith, h)) in
        (
          formed,
          record {
            some_root = text_ne _ _ (ground (arith, h));
            different = text_ne _ _ (ground (arith, h));
            some_0 = text_ne _ _ (ground (arith, h));
            some_1 = text_ne _ _ (ground (arith, h));
          },
          ground (arith, h),
          tagged,
        ),
    λ it.
        let spend = it.1 in
        let (format, tag) =
          verify-IsFormed blake2_256 proof (encode_withdraw_inputs inputs) it.0 it.3 in
        rw
          (
            format,
            text_beq-of_ne _ _ spend.some_root,
            text_beq-of_ne _ _ spend.different,
            text_beq-of_ne _ _ spend.some_0,
            text_beq-of_ne _ _ spend.some_1,
            it.2,
            tag,
          )
          refl,
  )
