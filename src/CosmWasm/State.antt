-- ===== src/CosmWasm/State.antt =====
-- cosmwasm/contracts/privacy-pool/src/state.rs: what the contract stores. An `Item` that `instantiate`
-- writes is a field; a `Map` gives the stored value, if any.
use sl.Prelude.{ℕ, Bool, ◌&&◌, Option, List, Text, nat_beq, Map, Key, ◌≡◌, ◌↔◌, true, arith}

pub record Config : Type 0 where
  pub tree_depth : ℕ
  pub epoch_duration : ℕ
  pub max_nullifiers_per_epoch : ℕ
  pub root_history_size : ℕ
  pub domain_chain_id : ℕ
  pub domain_app_id : ℕ
  pub governance : Text
  pub accepted_denom : Text
  pub authorized_relayer : Option Text

pub record EpochInfo : Type 0 where
  pub start_height : ℕ
  pub end_height : Option ℕ
  pub nullifier_root : Text
  pub nullifier_count : ℕ
  pub finalized : Bool

-- A source chain and an epoch.
abbrev pub RemoteKey : Type 0
RemoteKey = ℕ × ℕ

abbrev pub remote_key_beq : RemoteKey → RemoteKey → Bool
remote_key_beq (a, b) (c, d) = nat_beq a c && nat_beq b d

pub remote_key_beq_iff : (a b : RemoteKey) → (remote_key_beq a b ≡ true) ↔ (a ≡ b)
remote_key_beq_iff (a, b) (c, d) = ground arith

instance abbrev pub remote_key_eq : Key RemoteKey
remote_key_eq = record { same = remote_key_beq; same_iff = remote_key_beq_iff }

pub record State : Type 0 where
  pub config : Config
  pub next_leaf_index : ℕ
  pub filled_subtrees : Map ℕ Text
  pub roots : Map ℕ Text
  pub current_root_index : ℕ
  pub nullifier_spent : Map Text Bool
  pub commitment_exists : Map Text Bool
  pub pool_balance : ℕ
  pub current_epoch_id : ℕ
  pub epochs : Map ℕ EpochInfo
  pub epoch_nullifiers : Map ℕ (List Text)
  pub remote_epoch_roots : Map RemoteKey Text
