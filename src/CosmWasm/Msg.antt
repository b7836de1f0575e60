-- ===== src/CosmWasm/Msg.antt =====
-- cosmwasm/contracts/privacy-pool/src/msg.rs, and the parts of `Env`, `MessageInfo`, `Response` and
-- `BankMsg` that the contract reads and writes. Attributes of a response, which only log, are left out.
use sl.Prelude.{ℕ, Bool, Option, List, Text}

pub record InstantiateMsg : Type 0 where
  pub tree_depth : ℕ
  pub epoch_duration : ℕ
  pub max_nullifiers_per_epoch : ℕ
  pub root_history_size : ℕ
  pub domain_chain_id : ℕ
  pub domain_app_id : ℕ
  pub governance : Text
  pub accepted_denom : Text

-- `[String; 2]`
abbrev pub Pair : Type 0
Pair = Text × Text

pub data ExecuteMsg : Type 0 where
  deposit : Text → ExecuteMsg
  transfer : (proof merkle_root : Text) (nullifiers output_commitments : Pair) → ExecuteMsg
  withdraw :
      (proof merkle_root : Text) (nullifiers output_commitments : Pair) (recipient : Text)
      (exit_value : ℕ)
      → ExecuteMsg
  finalize_epoch : ExecuteMsg
  sync_epoch_root : (source_chain_id epoch_id : ℕ) (nullifier_root : Text) → ExecuteMsg
  update_governance : (new_governance : Text) → ExecuteMsg
  set_authorized_relayer : (relayer : Option Text) → ExecuteMsg

pub data QueryMsg : Type 0 where
  latest_root : QueryMsg
  is_known_root is_spent : Text → QueryMsg
  pool_status : QueryMsg
  epoch_info : ℕ → QueryMsg
  remote_epoch_root : (source_chain_id epoch_id : ℕ) → QueryMsg

pub record PoolStatusResponse : Type 0 where
  pub total_deposits : ℕ
  pub pool_balance : ℕ
  pub current_epoch : ℕ
  pub latest_root : Text

pub record EpochInfoResponse : Type 0 where
  pub epoch_id : ℕ
  pub nullifier_root : Text
  pub nullifier_count : ℕ
  pub finalized : Bool

-- The value that a query encodes as JSON.
pub data QueryResponse : Type 0 where
  root : Text → QueryResponse
  known : Bool → QueryResponse
  status : PoolStatusResponse → QueryResponse
  epoch : EpochInfoResponse → QueryResponse
  remote_root : Option Text → QueryResponse

pub record Coin : Type 0 where
  pub denom : Text
  pub amount : ℕ

pub record Env : Type 0 where
  pub height : ℕ

pub record MessageInfo : Type 0 where
  pub sender : Text
  pub funds : List Coin

-- `BankMsg::Send`
pub record Send : Type 0 where
  pub to_address : Text
  pub amount : List Coin

pub record Response : Type 0 where
  pub messages : List Send
