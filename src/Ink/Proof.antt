-- ===== src/Ink/Proof.antt =====
-- `verify_proof_structure` of ink/privacy-pool/lib.rs.
pub mod Binding
use sl.Prelude.{
  ℕ, ◌-◌, ◌%◌, Bool, true, false, not, ◌&&◌, ◌||◌, List, [], ◌∷◌, ◌++◌, Text, ltb, nat_beq,
  text_beq, length, take, drop, all_of,
}
use sl.Fallible.{Result, ok, err, ◌>>=◌, ◌>>◌, refuse_if}
use sl.Ink.State.{Host, Outcome, Error, invalid_proof}
use sl.Ink.Tree.{zero_value}

abbrev pub Pair : Type 0
Pair = Text × Text

-- "Halo2-IPA-bind"
abbrev pub binding_tag : Text
binding_tag = 72 ∷ 97 ∷ 108 ∷ 111 ∷ 50 ∷ 45 ∷ 73 ∷ 80 ∷ 65 ∷ 45 ∷ 98 ∷ 105 ∷ 110 ∷ 100 ∷ []

unfoldable pub encode_inputs : Pair → Pair → Text
encode_inputs (n0, n1) (c0, c1) = n0 ++ (n1 ++ (c0 ++ c1))

module _ (host : Host) where
  unfoldable pub expected_binding : Pair → Pair → Text → Text
  unfolding encode_inputs
  expected_binding nullifiers output_commitments body =
      host.keccak256 (binding_tag ++ (encode_inputs nullifiers output_commitments ++ body))

  unfoldable pub verify_proof_structure : Text → Pair → Pair → Outcome (Unit {0})
  verify_proof_structure proof (n0, n1) (c0, c1) = do
    refuse_if (ltb (length proof) 192) invalid_proof
    refuse_if (ltb 4096 (length proof)) invalid_proof
    refuse_if (not (nat_beq (length proof % 32) 0)) invalid_proof
    refuse_if (all_of (λ b. nat_beq b 0) proof) invalid_proof
    refuse_if (text_beq n0 n1) invalid_proof
    refuse_if (text_beq n0 zero_value || text_beq n1 zero_value) invalid_proof
    refuse_if (text_beq c0 zero_value) invalid_proof
    refuse_if (text_beq c1 zero_value) invalid_proof
    refuse_if
        (ltb (length (drop 32 proof)) 160 || not (nat_beq ((length (drop 32 proof) - 96) % 64) 0))
        invalid_proof
    refuse_if (not (text_beq (take 32 proof) (expected_binding (n0, n1) (c0, c1) (drop 32 proof))))
        invalid_proof
