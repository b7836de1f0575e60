-- ===== src/Near/State.antt =====
-- The state of the contract in near/contracts/privacy-pool/src/lib.rs, its types.rs, and what a method
-- sees of the host.
use sl.Prelude.{ℕ, Bool, Option, List, Text, Map}

pub record EpochInfo : Type 0 where
  pub start_block : ℕ
  pub end_block : Option ℕ
  pub nullifier_root : Text
  pub nullifier_count : ℕ
  pub finalized : Bool

pub record PrivacyPool : Type 0 where
  pub next_leaf_index : ℕ
  pub filled_subtrees : Map ℕ Text
  pub roots : Map ℕ Text
  pub current_root_index : ℕ
  pub nullifier_spent : Map Text Bool
  pub commitment_exists : Map Text Bool
  pub pool_balance : ℕ
  pub current_epoch_id : ℕ
  pub epochs : Map ℕ EpochInfo
  pub epoch_nullifiers : Map ℕ (List Text)
  pub remote_epoch_roots : Map Text Text
  pub governance : Text
  pub authorized_relayer : Option Text
  pub domain_chain_id : ℕ
  pub domain_app_id : ℕ

pub record PoolStatus : Type 0 where
  pub total_deposits : ℕ
  pub pool_balance : ℕ
  pub current_epoch : ℕ
  pub latest_root : Text
  pub domain_chain_id : ℕ
  pub domain_app_id : ℕ

-- `env::predecessor_account_id`, `env::attached_deposit`, `env::block_height`.
pub record Context : Type 0 where
  pub predecessor : Text
  pub attached_deposit : ℕ
  pub block_height : ℕ

-- A `Promise` that transfers tokens.
pub record Transfer : Type 0 where
  pub recipient : Text
  pub amount : ℕ
