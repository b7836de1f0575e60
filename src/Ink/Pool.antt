-- ===== src/Ink/Pool.antt =====
-- The messages of ink/privacy-pool/lib.rs. A message that returns an error or panics is reverted by the
-- host, with the tokens that came with it.
pub mod Effects
pub mod Inflow
pub mod Decrees
pub mod Deposits
pub mod Governance
use sl.Prelude.{
  ℕ, ◌+◌, ◌-◌, Bool, true, false, not, Option, none, some, [], ◌∷◌, Text, ltb, leb, nat_beq,
  text_beq, text_eq, nat_eq, Map, insert, no_entries, if◌then◌else◌,
}
use sl.Prelude.Words.{u128_mod}
use sl.Merkle.{unwrap_or}
use sl.Fallible.{Result, ok, err, panic, ◌>>=◌, ◌>>◌, refuse_if, word}
use sl.Ink.State.{
  PrivacyPool, EpochInfo, Env, Host, Payment, Outcome, Error, nullifier_already_spent, unknown_root,
  insufficient_funds, pool_paused,
}
use sl.Ink.Tree.{zero_value, add_output, push_root, is_known_root}
use sl.Ink.Proof.{Pair, verify_proof_structure}

unfoldable pub open_epoch : ℕ → EpochInfo
open_epoch epoch_id = record {
  epoch_id = epoch_id;
  root = zero_value;
  finalized = false;
  block_finalized = 0;
}

unfoldable pub new : Env → (epoch_duration : ℕ) → PrivacyPool
unfolding open_epoch
new env epoch_duration = record {
  governance = env.caller;
  leaves = no_entries;
  nodes = no_entries;
  next_leaf_index = 0;
  root_history = no_entries;
  root_history_cursor = 0;
  current_root = zero_value;
  nullifiers = no_entries;
  current_epoch = 0;
  epochs = insert 0 (open_epoch 0) no_entries;
  epoch_duration = epoch_duration;
  epoch_start_block = env.block_number;
  remote_roots = no_entries;
  pool_balance = 0;
  paused = false;
  pending_commits = no_entries;
}

unfoldable pub is_nullifier_spent : PrivacyPool → Text → Bool
is_nullifier_spent s nullifier = unwrap_or false (s.nullifiers nullifier)

-- The loop that checks both nullifiers, and the loop that marks them.
unfoldable pub check_unspent : Pair → PrivacyPool → Outcome (Unit {0})
unfolding is_nullifier_spent
check_unspent (n0, n1) s = do
  refuse_if (is_nullifier_spent s n0) nullifier_already_spent
  refuse_if (is_nullifier_spent s n1) nullifier_already_spent

unfoldable pub mark_spent : Pair → PrivacyPool → PrivacyPool
mark_spent (n0, n1) s = record s { nullifiers = insert n1 true (insert n0 true s.nullifiers) }

module _ (host : Host) where
  unfoldable pub transfer : Text → Text → Pair → Pair → PrivacyPool → Outcome PrivacyPool
  transfer proof merkle_root nullifiers output_commitments s = do
    refuse_if s.paused pool_paused
    refuse_if (not (is_known_root merkle_root s)) unknown_root
    check_unspent nullifiers s
    verify_proof_structure host proof nullifiers output_commitments
    s1 ← add_output host output_commitments.0 (mark_spent nullifiers s)
    s2 ← add_output host output_commitments.1 s1
    ok (push_root s2)

  -- The loop of `withdraw` over one output passes over zero.
  unfoldable pub add_change : Text → PrivacyPool → Outcome PrivacyPool
  add_change cm s = if text_beq cm zero_value then ok s else add_output host cm s

  unfoldable pub withdraw :
      Env
      → Text
      → Text
      → Pair
      → Pair
      → (recipient : Text) → (amount : ℕ) → PrivacyPool
      → Outcome (Payment × PrivacyPool)
  withdraw env proof merkle_root nullifiers output_commitments recipient amount s = do
    refuse_if s.paused pool_paused
    refuse_if (not (is_known_root merkle_root s)) unknown_root
    check_unspent nullifiers s
    verify_proof_structure host proof nullifiers output_commitments
    refuse_if (ltb s.pool_balance amount) insufficient_funds
    s1 ← add_change output_commitments.0 (mark_spent nullifiers s)
    s2 ← add_change output_commitments.1 s1
    let s3 = push_root (record s2 { pool_balance = s2.pool_balance - amount })
    refuse_if (not env.pays) insufficient_funds
    ok (record { recipient = recipient; amount = amount }, s3)
