-- ===== src/Pallet/Verifier.antt =====
-- pallets/privacy-pool/src/verifier.rs, with `blake2_256` as a parameter.
pub mod Form
pub mod Binding
use sl.Prelude.{
  ℕ, ◌-◌, ◌/◌, ◌%◌, Bool, true, false, not, ◌&&◌, ◌||◌, List, [], ◌∷◌, ◌++◌, Text, ltb, nat_beq,
  text_beq, length, take, drop, all_of,
}
use sl.CosmWasm.Poseidon.{be_bytes}
use sl.Pallet.State.{TransferPublicInputs, WithdrawPublicInputs}
use sl.Pallet.Poseidon.{zero_h256}

abbrev pub min_proof_size : ℕ
min_proof_size = 192

abbrev pub max_proof_size : ℕ
max_proof_size = 4096

abbrev pub proof_alignment : ℕ
proof_alignment = 32

abbrev pub testnet_only : Bool
testnet_only = true

-- "Halo2-IPA-bind"
abbrev pub binding_tag : Text
binding_tag = 72 ∷ 97 ∷ 108 ∷ 111 ∷ 50 ∷ 45 ∷ 73 ∷ 80 ∷ 65 ∷ 45 ∷ 98 ∷ 105 ∷ 110 ∷ 100 ∷ []

unfoldable pub is_mainnet_chain : ℕ → Bool
is_mainnet_chain chain_id =
    nat_beq chain_id 0
    || nat_beq chain_id 1284
    || nat_beq chain_id 592
    || nat_beq chain_id 43114
    || nat_beq chain_id 9001

unfoldable pub encode_transfer_inputs : TransferPublicInputs → Text
encode_transfer_inputs inputs =
    inputs.merkle_root
    ++ (inputs.nullifiers.0
        ++ (inputs.nullifiers.1
            ++ (inputs.output_commitments.0
                ++ (inputs.output_commitments.1
                    ++ (be_bytes 8 inputs.domain_chain_id ++ be_bytes 8 inputs.domain_app_id)))))

unfoldable pub encode_withdraw_inputs : WithdrawPublicInputs → Text
encode_withdraw_inputs inputs =
    inputs.merkle_root
    ++ (inputs.nullifiers.0 ++ (inputs.nullifiers.1 ++ be_bytes 16 inputs.exit_value))

-- The checks of a proof's size and bytes that both verifiers make first.
unfoldable pub is_proof_format : Text → Bool
is_proof_format proof =
    not (ltb (length proof) min_proof_size || ltb max_proof_size (length proof))
    && nat_beq (length proof % proof_alignment) 0
    && not (all_of (λ b. nat_beq b 0) proof)

module _ (blake2_256 : Text → Text) where
  unfoldable pub verify_halo2_ipa_proof : Text → Text → Bool
  verify_halo2_ipa_proof proof public_input_bytes =
      let body = drop 32 proof in
      let ipa_rounds = drop 96 body in
      let num_rounds = length ipa_rounds / 64 in
      not (ltb (length proof) 192)
      && nat_beq (length ipa_rounds % 64) 0
      && not (nat_beq num_rounds 0 || ltb 32 num_rounds)
      && text_beq (take 32 proof) (blake2_256 (binding_tag ++ (public_input_bytes ++ body)))

  unfoldable pub verify_transfer : Text → TransferPublicInputs → Bool
  verify_transfer proof inputs =
      not (testnet_only && is_mainnet_chain inputs.domain_chain_id)
      && is_proof_format proof
      && not (text_beq inputs.merkle_root zero_h256)
      && not (text_beq inputs.nullifiers.0 inputs.nullifiers.1)
      && not (text_beq inputs.nullifiers.0 zero_h256)
      && not (text_beq inputs.nullifiers.1 zero_h256)
      && not (text_beq inputs.output_commitments.0 zero_h256)
      && not (text_beq inputs.output_commitments.1 zero_h256)
      && not (text_beq inputs.output_commitments.0 inputs.output_commitments.1)
      && not (nat_beq inputs.domain_chain_id 0 || nat_beq inputs.domain_app_id 0)
      && verify_halo2_ipa_proof proof (encode_transfer_inputs inputs)

  unfoldable pub verify_withdraw : Text → WithdrawPublicInputs → Bool
  verify_withdraw proof inputs =
      is_proof_format proof
      && not (text_beq inputs.merkle_root zero_h256)
      && not (text_beq inputs.nullifiers.0 inputs.nullifiers.1)
      && not (text_beq inputs.nullifiers.0 zero_h256)
      && not (text_beq inputs.nullifiers.1 zero_h256)
      && not (nat_beq inputs.exit_value 0)
      && verify_halo2_ipa_proof proof (encode_withdraw_inputs inputs)
