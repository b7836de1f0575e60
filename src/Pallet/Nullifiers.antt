-- ===== src/Pallet/Nullifiers.antt =====
-- `check_and_spend_nullifiers` and `compute_nullifier_root` of pallets/privacy-pool/src/lib.rs.
use sl.Prelude.{
  ℕ, Bool, true, false, List, [], ◌∷◌, ◌++◌, Text, leb, text_eq, nat_eq, length, insert,
}
use sl.Merkle.{unwrap_or}
use sl.Fallible.{ok, ◌>>=◌, ◌>>◌, refuse_if}
use sl.Pallet.State.{Config, Storage, Dispatch, nullifier_already_spent, epoch_nullifier_overflow}
use sl.Pallet.Poseidon.{poseidon_hash, zero_h256}

unfoldable pub is_spent : Storage → Text → Bool
is_spent s nullifier = unwrap_or false (s.nullifier_spent nullifier)

-- `EpochNullifiers::get(epoch_id)`
unfoldable pub nullifiers_of : ℕ → Storage → List Text
nullifiers_of epoch_id s = unwrap_or [] (s.epoch_nullifiers epoch_id)

-- The body of the loop: it marks a nullifier that is not spent, and lists it in the current epoch.
unfoldable pub spend_nullifier : Config → Text → Storage → Dispatch Storage
unfolding is_spent nullifiers_of
spend_nullifier config nullifier s = do
  refuse_if (is_spent s nullifier) nullifier_already_spent
  let nuls = nullifiers_of s.current_epoch_id s
  refuse_if (leb config.max_nullifiers_per_epoch (length nuls)) epoch_nullifier_overflow
  ok (record s {
    nullifier_spent = insert nullifier true s.nullifier_spent;
    epoch_nullifiers = insert s.current_epoch_id (nuls ++ nullifier ∷ []) s.epoch_nullifiers;
  })

unfoldable pub check_and_spend_nullifiers : Config → Text × Text → Storage → Dispatch Storage
check_and_spend_nullifiers config (n0, n1) s = do
  s' ← spend_nullifier config n0 s
  spend_nullifier config n1 s'

unfoldable pub fold_nullifiers : Text → List Text → Text
fold_nullifiers current [] = current
fold_nullifiers current (nul ∷ rest) = fold_nullifiers (poseidon_hash current nul) rest

unfoldable pub compute_nullifier_root : List Text → Text
compute_nullifier_root [] = zero_h256
compute_nullifier_root (first ∷ rest) = fold_nullifiers first rest
