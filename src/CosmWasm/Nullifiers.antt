-- ===== src/CosmWasm/Nullifiers.antt =====
-- `check_and_spend_nullifiers` and `compute_nullifier_root` of
-- cosmwasm/contracts/privacy-pool/src/contract.rs.
use sl.Prelude.{
  ℕ, Bool, true, false, Option, none, some, List, [], ◌∷◌, ◌++◌, Text, leb, length, text_eq, nat_eq,
  insert,
}
use sl.CosmWasm.Outcome.{
  Outcome, ok, nullifier_already_spent, epoch_nullifier_overflow, ◌>>=◌, ◌>>◌, refuse_if, load,
}
use sl.CosmWasm.Poseidon.{Crates, poseidon_hash_hex}
use sl.CosmWasm.State.{State}
use sl.CosmWasm.Msg.{Pair}
use sl.CosmWasm.Tree.{zero_hash_text}

-- `may_load(key)?.unwrap_or(false)`
abbrev pub flag : Option Bool → Bool
flag none = false
flag (some b) = b

-- One round of the loop, in the order of the code: the mark of the nullifier is saved before the
-- epoch's list is checked.
unfoldable pub spend_nullifier : ℕ → Text → State → Outcome State
spend_nullifier epoch_id nullifier s = do
  refuse_if (flag (s.nullifier_spent nullifier)) (nullifier_already_spent nullifier)
  epoch_nuls ← load (s.epoch_nullifiers epoch_id)
  refuse_if (leb s.config.max_nullifiers_per_epoch (length epoch_nuls)) epoch_nullifier_overflow
  ok (record s {
    nullifier_spent = insert nullifier true s.nullifier_spent;
    epoch_nullifiers = insert epoch_id (epoch_nuls ++ nullifier ∷ []) s.epoch_nullifiers;
  })

unfoldable pub check_and_spend_nullifiers : Pair → State → Outcome State
check_and_spend_nullifiers (n0, n1) s = do
  s' ← spend_nullifier s.current_epoch_id n0 s
  spend_nullifier s.current_epoch_id n1 s'

module _ (crates : Crates) where
  unfoldable pub fold_nullifiers : Text → List Text → Outcome Text
  fold_nullifiers current [] = ok current
  fold_nullifiers current (nul ∷ rest) = do
    next ← poseidon_hash_hex crates current nul
    fold_nullifiers next rest

  unfoldable pub compute_nullifier_root : List Text → Outcome Text
  compute_nullifier_root [] = ok zero_hash_text
  compute_nullifier_root (first ∷ rest) = fold_nullifiers first rest
