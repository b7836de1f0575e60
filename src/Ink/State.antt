-- ===== src/Ink/State.antt =====
-- The storage of the contract in ink/privacy-pool/lib.rs, its errors, and what a message sees of the host.
use sl.Prelude.{ℕ, Bool, Text, Map}
use sl.Fallible.{Result}

pub record EpochInfo : Type 0 where
  pub epoch_id : ℕ
  pub root : Text
  pub finalized : Bool
  pub block_finalized : ℕ

pub record CommitRecord : Type 0 where
  pub depositor : Text
  pub block_number : ℕ
  pub revealed : Bool

pub data Error : Type 0 where
  duplicate_commitment tree_full invalid_proof nullifier_already_spent unknown_root zero_amount
        insufficient_funds epoch_already_finalized not_governance pool_paused duplicate_commit
        commit_not_found reveal_too_early commit_expired already_revealed not_depositor
        commit_not_expired zero_address :
      Error

-- `Result<T>`, with the panics of the host.
abbrev pub Outcome : Type 0 → Type 0
Outcome A = Result Error A

pub record PrivacyPool : Type 0 where
  pub governance : Text
  pub leaves : Map Text ℕ
  pub nodes : Map (ℕ × ℕ) Text
  pub next_leaf_index : ℕ
  pub root_history : Map ℕ Text
  pub root_history_cursor : ℕ
  pub current_root : Text
  pub nullifiers : Map Text Bool
  pub current_epoch : ℕ
  pub epochs : Map ℕ EpochInfo
  pub epoch_duration : ℕ
  pub epoch_start_block : ℕ
  pub remote_roots : Map (ℕ × ℕ) Text
  pub pool_balance : ℕ
  pub paused : Bool
  pub pending_commits : Map Text CommitRecord

-- `self.env()`, with whether the host makes the transfer that the message asks for.
pub record Env : Type 0 where
  pub caller : Text
  pub block_number : ℕ
  pub transferred_value : ℕ
  pub pays : Bool

-- The hash of the host, and whether the build has overflow checks.
pub record Host : Type 0 where
  pub keccak256 : Text → Text
  pub overflow_checks : Bool

-- A transfer that the host has made.
pub record Payment : Type 0 where
  pub recipient : Text
  pub amount : ℕ
