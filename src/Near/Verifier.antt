-- ===== src/Near/Verifier.antt =====
-- near/contracts/privacy-pool/src/verifier.rs.
pub mod Binding
pub mod Sound
use sl.Prelude.{
  Bool, true, false, not, ◌&&◌, List, [], ◌∷◌, ◌++◌, Text, ltb, text_beq, length, take, drop,
}
use sl.ProofText.{is_blank, bind_tag, is_proof_text}
use sl.Near.Hash.{Host}

-- `xs.len() >= 2 && xs[0] == xs[1]`
unfoldable pub starts_twice : List Text → Bool
starts_twice (x ∷ y ∷ rest) = text_beq x y
starts_twice _ = false

-- The loops that reject an empty or zero text.
unfoldable pub no_blanks : List Text → Bool
no_blanks [] = true
no_blanks (x ∷ xs) = not (is_blank x) && no_blanks xs

-- The loops that append texts to a buffer.
unfoldable pub join : List Text → Text
join [] = []
join (x ∷ xs) = x ++ join xs

module _ (host : Host) where
  unfoldable pub expected_binding : Text → Text → Text
  expected_binding inputs_data body =
      host.hex_encode (host.keccak256 (bind_tag ++ (host.keccak256 inputs_data ++ body)))

  unfoldable pub verify_proof_binding : Text → Text → List Text → List Text → Bool
  verify_proof_binding proof merkle_root nullifiers output_commitments =
      is_proof_text proof
      && not (starts_twice nullifiers)
      && no_blanks nullifiers
      && not (is_blank merkle_root)
      && no_blanks output_commitments
      && not (starts_twice output_commitments)
      && not (ltb (length proof) 64)
      && text_beq (take 64 proof) (
          expected_binding (merkle_root ++ (join nullifiers ++ join output_commitments))
            (drop 64 proof))
