-- ===== src/Coprocessor.antt =====
-- lumora-coprocessor/src/proof.rs and the types of types.rs that it uses.
pub mod Envelope
mod Tests
use sl.Prelude.{
  ℕ, zero, suc, ◌+◌, ◌-◌, ◌%◌, Bool, true, false, not, ◌&&◌, Option, none, some, List, [], ◌∷◌,
  ◌++◌, Text, leb, nat_beq, length, take, drop, if◌then◌else◌,
}
use sl.Prelude.Words.{u32_mod}
use sl.CosmWasm.Poseidon.{be_bytes}

pub data TargetChain : Type 0 where
  avalanche_fuji avalanche_mainnet moonbase_alpha moonbeam astar_shibuya astar evmos_testnet evmos
        aurora_testnet aurora :
      TargetChain

unfoldable pub chain_id : TargetChain → ℕ
chain_id avalanche_fuji = 43113
chain_id avalanche_mainnet = 43114
chain_id moonbase_alpha = 1287
chain_id moonbeam = 1284
chain_id astar_shibuya = 81
chain_id astar = 592
chain_id evmos_testnet = 9000
chain_id evmos = 9001
chain_id aurora_testnet = 1313161555
chain_id aurora = 1313161554

pub data ProofType : Type 0 where
  transfer withdraw aggregated : ProofType

pub record GeneratedProof : Type 0 where
  pub raw_proof : Text
  pub snark_wrapper : Option Text
  pub public_inputs : List Text
  pub proof_type : ProofType

pub record OutputNote : Type 0 where
  pub recipient_pk : Text
  pub value : ℕ
  pub blinding : Text

pub record MerklePath : Type 0 where
  pub siblings : List Text
  pub indices : List ℕ

pub record TransferRequest : Type 0 where
  pub input_notes : Text × Text
  pub spending_keys : Text × Text
  pub output_notes : OutputNote × OutputNote
  pub merkle_paths : MerklePath × MerklePath
  pub merkle_root : Text
  pub target_chain : TargetChain
  pub app_id : ℕ

pub record WithdrawRequest : Type 0 where
  pub input_notes : Text × Text
  pub spending_keys : Text × Text
  pub change_note : OutputNote
  pub exit_value : ℕ
  pub merkle_paths : MerklePath × MerklePath
  pub merkle_root : Text
  pub target_chain : TargetChain
  pub app_id : ℕ

pub data ProofError : Type 0 where
  invalid_input : Text → ProofError
  merkle_path_invalid : ProofError
  prover_failed snark_wrap_failed : Text → ProofError

pub data Proved : Type 0 where
  generated : GeneratedProof → Proved
  refused : ProofError → Proved

-- `poseidon.hash_bytes_be` on elements of 32 bytes, and the `n` bytes of a draw of the random source.
-- The hash is asked for two or three elements below the modulus, since the code hashes 32 to 80 bytes.
-- It then takes its arity and has a result.
pub record Crates : Type 0 where
  pub hash_bytes_be : List Text → Text
  pub fill_bytes : (draw n : ℕ) → Text

unfoldable pub is_valid_path : MerklePath → Bool
is_valid_path path =
    nat_beq (length path.siblings) (length path.indices) && not (nat_beq (length path.siblings) 0)

unfoldable pub zero_bytes : ℕ → Text
zero_bytes zero = []
zero_bytes (suc n) = 0 ∷ zero_bytes n

-- `data.chunks(31)`, each padded on the left to 32 bytes, on fuel for the chunks: there are at most as
-- many as bytes.
unfoldable pub padded_chunks : ℕ → Text → List Text
unfolding zero_bytes
padded_chunks zero bytes = []
padded_chunks (suc fuel) [] = []
padded_chunks (suc fuel) (b ∷ bytes) =
    (zero_bytes (32 - length (take 31 (b ∷ bytes))) ++ take 31 (b ∷ bytes))
    ∷ padded_chunks fuel (drop 31 (b ∷ bytes))

-- The bytes that separate domains.
unfoldable pub domain_bytes : ℕ → ℕ → Text
domain_bytes chain app = be_bytes 4 chain ++ be_bytes 4 app

module _ (crates : Crates) where
  unfoldable pub poseidon_hash : Text → Text
  unfolding padded_chunks
  poseidon_hash bytes = crates.hash_bytes_be (padded_chunks (length bytes) bytes)

  unfoldable pub nullifier_v2 : Text → Text → ℕ → ℕ → Text
  nullifier_v2 spending_key commitment chain app =
      poseidon_hash (poseidon_hash (spending_key ++ commitment) ++ domain_bytes chain app)

  unfoldable pub compute_nullifiers_v2 : Text × Text → Text × Text → ℕ → ℕ → Text × Text
  compute_nullifiers_v2 (k0, k1) (c0, c1) chain app =
      (nullifier_v2 k0 c0 chain app, nullifier_v2 k1 c1 chain app)

  unfoldable pub compute_single_commitment : OutputNote → Text
  compute_single_commitment note =
      poseidon_hash (note.recipient_pk ++ (be_bytes 16 note.value ++ note.blinding))

  unfoldable pub compute_output_commitments : OutputNote × OutputNote → Text × Text
  compute_output_commitments (n0, n1) = (compute_single_commitment n0, compute_single_commitment n1)

  -- The envelope before it is cut to its size.
  unfoldable pub filled_envelope : ℕ → Text → ℕ → Text
  filled_envelope draw proof_bytes total_size =
      let content = be_bytes 4 (length proof_bytes % u32_mod) ++ proof_bytes in
      content ++ crates.fill_bytes draw (total_size - length content)

  unfoldable pub padded_proof_envelope : ℕ → Text → ℕ → Text
  padded_proof_envelope draw proof_bytes total_size =
      take total_size (filled_envelope draw proof_bytes total_size)

  unfoldable pub wrap : Bool → Text → Option Text
  wrap true nullifier = some (padded_proof_envelope 1 (poseidon_hash nullifier) 256)
  wrap false nullifier = none

  -- `has_wrapper` is whether the generator holds a key for the wrapper.
  unfoldable pub generate_transfer : (has_wrapper : Bool) → TransferRequest → Proved
  generate_transfer has_wrapper request =
      if is_valid_path request.merkle_paths.0 && is_valid_path request.merkle_paths.1
      then (let nuls =
            compute_nullifiers_v2 request.spending_keys request.input_notes
              (chain_id request.target_chain % u32_mod) request.app_id in
          let outs = compute_output_commitments request.output_notes in
          generated (record {
            raw_proof = padded_proof_envelope 0 (poseidon_hash outs.0) 2048;
            snark_wrapper = wrap has_wrapper nuls.0;
            public_inputs = request.merkle_root ∷ nuls.0 ∷ nuls.1 ∷ outs.0 ∷ outs.1 ∷ [];
            proof_type = transfer;
          }))
      else refused merkle_path_invalid

  unfoldable pub generate_withdraw : (has_wrapper : Bool) → WithdrawRequest → Proved
  generate_withdraw has_wrapper request =
      if is_valid_path request.merkle_paths.0 && is_valid_path request.merkle_paths.1
      then (let nuls =
            compute_nullifiers_v2 request.spending_keys request.input_notes
              (chain_id request.target_chain % u32_mod) request.app_id in
          let change = compute_single_commitment request.change_note in
          generated (record {
            raw_proof = padded_proof_envelope 0 (poseidon_hash change) 2048;
            snark_wrapper = wrap has_wrapper nuls.0;
            public_inputs =
                request.merkle_root
                ∷ nuls.0
                ∷ nuls.1
                ∷ change
                ∷ zero_bytes 32
                ∷ (zero_bytes 16 ++ be_bytes 16 request.exit_value)
                ∷ [];
            proof_type = withdraw;
          }))
      else refused merkle_path_invalid
