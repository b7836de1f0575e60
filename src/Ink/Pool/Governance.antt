-- ===== src/Ink/Pool/Governance.antt =====
-- The messages of governance and the queries of ink/privacy-pool/lib.rs.
use sl.Prelude.{ℕ, ◌+◌, Bool, true, false, not, Option, Text, text_beq, nat_eq, pair_eq, insert}
use sl.Prelude.Words.{u32_mod}
use sl.Fallible.{ok, ◌>>=◌, ◌>>◌, refuse_if, or_panic, word}
use sl.Ink.State.{
  PrivacyPool, EpochInfo, Env, Host, Outcome, epoch_already_finalized, not_governance, zero_address,
}
use sl.Ink.Tree.{zero_value}

-- `self.env().caller() != self.governance`
unfoldable pub is_stranger : Env → PrivacyPool → Bool
is_stranger env s = not (text_beq env.caller s.governance)

unfoldable pub finalize_epoch : Host → Env → PrivacyPool → Outcome (ℕ × PrivacyPool)
finalize_epoch host env s = do
  refuse_if (is_stranger env s) not_governance
  let epoch_id = s.current_epoch
  epoch ← or_panic (s.epochs epoch_id)
  refuse_if epoch.finalized epoch_already_finalized
  let closed : EpochInfo = record {
    epoch_id = epoch_id;
    root = s.current_root;
    finalized = true;
    block_finalized = env.block_number;
  }
  next_epoch ← word host.overflow_checks u32_mod (epoch_id + 1)
  let next : EpochInfo = record {
    epoch_id = next_epoch;
    root = zero_value;
    finalized = false;
    block_finalized = 0;
  }
  ok (
    next_epoch,
    record s {
      epochs = insert next_epoch next (insert epoch_id closed s.epochs);
      current_epoch = next_epoch;
      epoch_start_block = env.block_number;
    },
  )

unfoldable pub sync_remote_root : Env → ℕ → ℕ → Text → PrivacyPool → Outcome PrivacyPool
sync_remote_root env chain_id epoch_id root s = do
  refuse_if (is_stranger env s) not_governance
  ok (record s { remote_roots = insert (chain_id, epoch_id) root s.remote_roots })

unfoldable pub pause : Env → PrivacyPool → Outcome PrivacyPool
pause env s = do refuse_if (is_stranger env s) not_governance; ok (record s { paused = true })

unfoldable pub unpause : Env → PrivacyPool → Outcome PrivacyPool
unpause env s = do refuse_if (is_stranger env s) not_governance; ok (record s { paused = false })

unfoldable pub transfer_governance : Env → Text → PrivacyPool → Outcome PrivacyPool
transfer_governance env new_governance s = do
  refuse_if (is_stranger env s) not_governance
  refuse_if (text_beq new_governance zero_value) zero_address
  ok (record s { governance = new_governance })

unfoldable pub get_current_root : PrivacyPool → Text
get_current_root s = s.current_root

unfoldable pub get_next_leaf_index : PrivacyPool → ℕ
get_next_leaf_index s = s.next_leaf_index

unfoldable pub get_current_epoch : PrivacyPool → ℕ
get_current_epoch s = s.current_epoch

unfoldable pub get_pool_balance : PrivacyPool → ℕ
get_pool_balance s = s.pool_balance

unfoldable pub get_remote_root : PrivacyPool → ℕ → ℕ → Option Text
get_remote_root s chain_id epoch_id = s.remote_roots (chain_id, epoch_id)

unfoldable pub is_paused : PrivacyPool → Bool
is_paused s = s.paused

unfoldable pub get_governance : PrivacyPool → Text
get_governance s = s.governance
