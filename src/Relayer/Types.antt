-- ===== src/Relayer/Types.antt =====
-- relayer/src/lib.rs, config.rs and adapters/mod.rs: what the parts of the relayer hand to each other.
use sl.Prelude.{ℕ, Bool, Option, List, Text}

pub record EpochEvent : Type 0 where
  pub chain_id : ℕ
  pub chain_name : Text
  pub epoch_id : ℕ
  pub nullifier_root : Text
  pub nullifier_count : ℕ
  pub block_number : ℕ
  pub tx_hash : Text
  pub timestamp : ℕ

pub data RelayCommand : Type 0 where
  send_to_chain :
      (target_chain_id source_chain_id epoch_id : ℕ) → (nullifier_root : Text) → RelayCommand
  submit_to_registry :
      (source_chain_id epoch_id : ℕ)
      → (nullifier_root : Text) → (nullifier_count : ℕ) → RelayCommand

pub record ChainWatchConfig : Type 0 where
  pub chain_id : ℕ
  pub name : Text
  pub ws_rpc_url : Text
  pub http_rpc_url : Text
  pub epoch_manager_address : Text
  pub privacy_pool_address : Text
  pub bridge_adapter_address : Option Text
  pub signer_key : Text
  pub poll_interval_secs : ℕ
  pub confirmation_blocks : ℕ

pub record MetadataResistanceConfig : Type 0 where
  pub jitter_enabled : Bool
  pub max_jitter_ms : ℕ
  pub batching_enabled : Bool
  pub batch_size : ℕ
  pub batch_timeout_ms : ℕ
  pub dummy_padding_enabled : Bool
  pub target_messages_per_minute : ℕ

pub record RegistryConfig : Type 0 where
  pub chain_id : ℕ
  pub address : Text
  pub rpc_url : Text
  pub signer_key : Text

pub record RelayerConfig : Type 0 where
  pub chains : List ChainWatchConfig
  pub registry : RegistryConfig
  pub metadata_resistance : MetadataResistanceConfig
  pub metrics_port : ℕ

pub record EpochRootMessage : Type 0 where
  pub source_chain_id : ℕ
  pub epoch_id : ℕ
  pub nullifier_root : Text
  pub nullifier_count : ℕ
