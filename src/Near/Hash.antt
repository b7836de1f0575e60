-- ===== src/Near/Hash.antt =====
-- near/contracts/privacy-pool/src/hash.rs.
use sl.Prelude.{ℕ, zero, suc, List, [], ◌∷◌, ◌++◌, Text}

-- `env::keccak256` and `hex::encode`.
pub record Host : Type 0 where
  pub keccak256 : Text → Text
  pub hex_encode : Text → Text

-- The bytes of "Poseidon".
abbrev pub poseidon_tag : Text
poseidon_tag = 80 ∷ 111 ∷ 115 ∷ 101 ∷ 105 ∷ 100 ∷ 111 ∷ 110 ∷ []

unfoldable zero_chars : ℕ → Text
zero_chars zero = []
zero_chars (suc n) = 48 ∷ zero_chars n

-- `ZERO_HASH`
unfoldable pub zero_hash_text : Text
unfolding zero_chars
zero_hash_text = zero_chars 64

module _ (host : Host) where
  unfoldable pub poseidon_hash_hex : Text → Text → Text
  poseidon_hash_hex left right = host.hex_encode (host.keccak256 (poseidon_tag ++ (left ++ right)))

  -- The loop of `zero_hash`, for the rounds left.
  unfoldable pub zero_hash_from : ℕ → Text → Text
  zero_hash_from zero z = z
  zero_hash_from (suc rounds) z = zero_hash_from rounds (poseidon_hash_hex z z)

  unfoldable pub zero_hash : ℕ → Text
  zero_hash level = zero_hash_from level zero_hash_text

  unfoldable pub fold_nullifiers : Text → List Text → Text
  fold_nullifiers current [] = current
  fold_nullifiers current (nul ∷ rest) = fold_nullifiers (poseidon_hash_hex current nul) rest

  unfoldable pub compute_nullifier_root : List Text → Text
  compute_nullifier_root [] = zero_hash_text
  compute_nullifier_root (first ∷ rest) = fold_nullifiers first rest
