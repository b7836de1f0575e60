-- ===== src/CosmWasm/Proof.antt =====
-- `verify_proof_binding` of cosmwasm/contracts/privacy-pool/src/contract.rs.
pub mod Binding
pub mod Sound
use sl.Prelude.{
  ℕ, ◌%◌, Bool, true, false, not, ◌&&◌, ◌||◌, List, [], ◌∷◌, ◌++◌, Text, ltb, leb, nat_beq,
  text_beq, if◌then◌else◌, length, take, drop, all_of,
}
use sl.ProofText.{is_blank, bind_tag, is_proof_text}
use sl.CosmWasm.Poseidon.{Crates}
use sl.CosmWasm.Msg.{Pair}

-- What is hashed of the public inputs: the texts, one after the other.
unfoldable pub inputs_text : Text → Pair → Pair → Text
inputs_text merkle_root (n0, n1) (c0, c1) = merkle_root ++ (n0 ++ (n1 ++ (c0 ++ c1)))

-- The checks of the public inputs.
unfoldable pub are_inputs_sound : Text → Pair → Pair → Bool
unfolding is_blank
are_inputs_sound merkle_root (n0, n1) (c0, c1) =
    not (text_beq n0 n1)
    && not (is_blank n0)
    && not (is_blank n1)
    && not (is_blank merkle_root)
    && not (is_blank c0)
    && not (is_blank c1)
    && not (text_beq c0 c1)

module _ (crates : Crates) where
  unfoldable pub expected_hex : Text → Text → Text
  expected_hex inputs body =
      crates.hex_encode (crates.sha256 (bind_tag ++ (crates.sha256 inputs ++ body)))

  unfoldable pub verify_proof_binding : Text → Text → Pair → Pair → Bool
  verify_proof_binding proof merkle_root nullifiers output_commitments =
      is_proof_text proof
      && are_inputs_sound merkle_root nullifiers output_commitments
      && not (ltb (length proof) 64)
      && text_beq (take 64 proof)
          (expected_hex (inputs_text merkle_root nullifiers output_commitments) (drop 64 proof))
