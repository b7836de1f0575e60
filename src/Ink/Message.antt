-- ===== src/Ink/Message.antt =====
-- A call of a message of ink/privacy-pool/lib.rs that changes the state, with what it pays.
use sl.Prelude.{ℕ, List, [], ◌∷◌, Text}
use sl.Fallible.{ok, ◌>>=◌}
use sl.Ink.State.{PrivacyPool, Env, Host, Payment, Outcome}
use sl.Ink.Proof.{Pair}
use sl.Ink.Pool
use sl.Ink.Pool.Deposits
use sl.Ink.Pool.Governance

pub data Message : Type 0 where
  deposit : (commitment : Text) → Message
  transfer : (proof merkle_root : Text) → (nullifiers output_commitments : Pair) → Message
  withdraw :
      (proof merkle_root : Text)
      → (nullifiers output_commitments : Pair) → (recipient : Text) → (amount : ℕ) → Message
  finalize_epoch : Message
  sync_remote_root : (chain_id epoch_id : ℕ) → (root : Text) → Message
  commit_deposit : (commit_hash : Text) → Message
  reveal_deposit : (commit_hash commitment : Text) → Message
  reclaim_expired_commit : (commit_hash : Text) → Message
  pause unpause : Message
  transfer_governance : (new_governance : Text) → Message

abbrev pub quiet : Outcome PrivacyPool → Outcome (List Payment × PrivacyPool)
quiet o = o >>= λ s. ok ([], s)

abbrev pub numbered : Outcome (ℕ × PrivacyPool) → Outcome (List Payment × PrivacyPool)
numbered o = o >>= λ (n, s). ok ([], s)

module _ (host : Host) where
  unfoldable pub call : Env → Message → PrivacyPool → Outcome (List Payment × PrivacyPool)
  call env (deposit c) s = numbered (Deposits.deposit host env c s)
  call env (transfer p r ns outs) s = quiet (Pool.transfer host p r ns outs s)
  call env (withdraw p r ns outs to v) s =
      Pool.withdraw host env p r ns outs to v s >>= λ (paid, s'). ok (paid ∷ [], s')
  call env finalize_epoch s = numbered (Governance.finalize_epoch host env s)
  call env (sync_remote_root chain id root) s =
      quiet (Governance.sync_remote_root env chain id root s)
  call env (commit_deposit h) s = quiet (Deposits.commit_deposit host env h s)
  call env (reveal_deposit h c) s = numbered (Deposits.reveal_deposit host env h c s)
  call env (reclaim_expired_commit h) s = quiet (Deposits.reclaim_expired_commit env h s)
  call env pause s = quiet (Governance.pause env s)
  call env unpause s = quiet (Governance.unpause env s)
  call env (transfer_governance g) s = quiet (Governance.transfer_governance env g s)
