-- ===== src/Pallet/State.antt =====
-- pallets/privacy-pool/src/types.rs, and the configuration, storage and errors of its lib.rs.
use sl.Prelude.{false, ◌<◌, ◌⊎◌, ℕ, ◌+◌, ◌≡◌, ◌≢◌, Bool, Option, some, List, Text, Map}
use sl.Fallible.{Result}

pub record EpochInfo : Type 0 where
  pub start_block : ℕ
  pub end_block : Option ℕ
  pub nullifier_root : Text
  pub nullifier_count : ℕ
  pub finalized : Bool

pub record TransferPublicInputs : Type 0 where
  pub merkle_root : Text
  pub nullifiers : Text × Text
  pub output_commitments : Text × Text
  pub domain_chain_id : ℕ
  pub domain_app_id : ℕ

pub record WithdrawPublicInputs : Type 0 where
  pub merkle_root : Text
  pub nullifiers : Text × Text
  pub output_commitments : Text × Text
  pub exit_value : ℕ

-- The constants of `Config` that the calls read.
pub record Config : Type 0 where
  pub tree_depth : ℕ
  pub max_nullifiers_per_epoch : ℕ
  pub root_history_size : ℕ
  pub para_id : ℕ
  pub app_id : ℕ
  -- The account that `PalletId` derives.
  pub pool_account : Text

-- The errors of the pallet, and that of an origin that a call does not take.
pub data Error : Type 0 where
  zero_deposit commitment_already_exists tree_full invalid_proof nullifier_already_spent
        unknown_merkle_root insufficient_pool_balance zero_withdrawal epoch_not_ready
        epoch_already_finalized epoch_nullifier_overflow transfer_failed not_authorized
        invalid_nullifier_root bad_origin :
      Error

-- `DispatchResult` and its like, with the panics of the runtime.
abbrev pub Dispatch : Type 0 → Type 0
Dispatch A = Result Error A

pub data Origin : Type 0 where
  root none_origin : Origin
  signed : Text → Origin

-- The storage of the pallet. A map whose query has a default is read with it.
pub record Storage : Type 0 where
  pub next_leaf_index : ℕ
  pub filled_subtrees : Map ℕ Text
  pub roots : Map ℕ Text
  pub current_root_index : ℕ
  pub nullifier_spent : Map Text Bool
  pub commitment_exists : Map Text Bool
  pub pool_balance : ℕ
  pub current_epoch_id : ℕ
  pub epochs : Map ℕ EpochInfo
  pub epoch_nullifiers : Map ℕ (List Text)
  pub remote_epoch_roots : Map (ℕ × ℕ) Text

-- The free balances of the accounts.
abbrev pub Balances : Type 0
Balances = Text → ℕ

-- `T::Currency`: its `transfer`, where `none` is an error, and its `minimum_balance`.
pub record Currency : Type 0 where
  pub transfer : (from to : Text) → (amount : ℕ) → (keep_alive : Bool) → Balances → Option Balances
  pub minimum_balance : ℕ

-- What the documentation of pallet-balances says of a transfer that succeeds: the recipient gets the
-- amount; the sender loses it, and where the sender need not be kept alive and the rest is below the
-- minimum, its account is reaped and the rest is dropped.
pub record IsCurrency (currency : Currency) : Type 0 where
  pub credits :
      (from to : Text) (amount : ℕ) (keep_alive : Bool) (b b' : Balances)
      → currency.transfer from to amount keep_alive b ≡ some b'
      → from ≢ to
      → b' to ≡ b to + amount
  pub debits :
      (from to : Text) (amount : ℕ) (keep_alive : Bool) (b b' : Balances)
      → currency.transfer from to amount keep_alive b ≡ some b'
      → from ≢ to
      → (b' from + amount ≡ b from)
        ⊎ ((keep_alive ≡ false) × (b' from ≡ 0) × (b from < amount + currency.minimum_balance))
  pub same :
      (from : Text) (amount : ℕ) (keep_alive : Bool) (b b' : Balances)
      → currency.transfer from from amount keep_alive b ≡ some b'
      → b' from ≡ b from
