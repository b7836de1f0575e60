-- ===== src/Relayer/Engine.antt =====
-- `RelayEngine` and `backoff_duration` of relayer/src/core/mod.rs, with the chains that the adapters of
-- relayer/src/adapters support.
pub mod Retries
use sl.Prelude.{
  ℕ, zero, suc, ◌+◌, ◌-◌, ◌*◌, ◌^◌, ◌%◌, Bool, true, false, ◌||◌, Option, none, some, List, [], ◌∷◌,
  ◌++◌, Text, leb, nat_beq, if◌then◌else◌,
}
use sl.Prelude.Words.{u32_mod, u64_mod}
use sl.Panic.{◌>>=◌}
use sl.Relayer.Types.{ChainWatchConfig, RelayerConfig, EpochRootMessage}

abbrev pub max_retries : ℕ
max_retries = 5

abbrev pub base_backoff_ms : ℕ
base_backoff_ms = 1000

pub data TxState : Type 0 where
  pending : TxState
  submitted : (tx_hash : Text) → TxState
  confirmed : (tx_hash : Text) → (block : ℕ) → TxState
  finalized : (tx_hash : Text) → TxState
  failed : (reason : Text) → TxState

pub record RelayTask : Type 0 where
  pub target_chain_id : ℕ
  pub message : EpochRootMessage
  pub state : TxState
  pub retries : ℕ

unfoldable pub build_task : ℕ → ℕ → ℕ → Text → ℕ → RelayTask
build_task source_chain_id target_chain_id epoch_id nullifier_root nullifier_count = record {
  target_chain_id = target_chain_id;
  message = record {
    source_chain_id = source_chain_id;
    epoch_id = epoch_id;
    nullifier_root = nullifier_root;
    nullifier_count = nullifier_count;
  };
  state = pending;
  retries = 0;
}

-- The adapters, in the order in which the engine registers them.
pub data Adapter : Type 0 where
  awm xcm ibc rainbow : Adapter

abbrev pub adapters : List Adapter
adapters = awm ∷ xcm ∷ ibc ∷ rainbow ∷ []

abbrev pub is_avalanche : ℕ → Bool
is_avalanche id = nat_beq id 43114 || nat_beq id 43113

abbrev pub is_polkadot_parachain : ℕ → Bool
is_polkadot_parachain id = nat_beq id 1284 || nat_beq id 1287 || nat_beq id 592 || nat_beq id 81

abbrev pub is_cosmos_chain : ℕ → Bool
is_cosmos_chain id = nat_beq id 9001 || nat_beq id 9000

abbrev pub is_aurora : ℕ → Bool
is_aurora id = nat_beq id 1313161554 || nat_beq id 1313161555

-- The method of the trait, by the adapter that implements it.
unfoldable pub supports_chain : Adapter → ℕ → Bool
supports_chain awm id = is_avalanche id
supports_chain xcm id = is_polkadot_parachain id
supports_chain ibc id = is_cosmos_chain id
supports_chain rainbow id = is_aurora id

-- `iter().find(..)`
unfoldable pub find {ℓ} : {A : Type ℓ} → (A → Bool) → List A → Option A
find p [] = none
find p (x ∷ xs) = if p x then some x else find p xs

unfoldable pub adapter_for : ℕ → Option Adapter
unfolding find
adapter_for chain_id = find (λ a. supports_chain a chain_id) adapters

unfoldable pub chain_config : RelayerConfig → ℕ → Option ChainWatchConfig
unfolding find
chain_config config chain_id = find (λ c. nat_beq c.chain_id chain_id) config.chains

-- What an adapter answers when it is asked to send a root.
pub data Answer : Type 0 where
  sent : (tx_hash : Text) → Answer
  refused : (why : Text) → Answer

pub data Dispatched : Type 0 where
  done : (tx_hash : Text) → Dispatched
  no_adapter : (chain_id : ℕ) → Dispatched
  not_in_config : (chain_id : ℕ) → Dispatched
  gave_up : (reason : Text) → Dispatched

-- "max retries (5) exceeded: "
abbrev pub exceeded : Text
exceeded =
    109 ∷ 97 ∷ 120 ∷ 32 ∷ 114 ∷ 101 ∷ 116 ∷ 114 ∷ 105 ∷ 101 ∷ 115 ∷ 32 ∷ 40 ∷ 53 ∷ 41 ∷ 32 ∷ 101
    ∷ 120 ∷ 99 ∷ 101 ∷ 101 ∷ 100 ∷ 101 ∷ 100 ∷ 58 ∷ 32 ∷ []

-- `2u64.saturating_pow(n)`
abbrev pub saturating_pow2 : ℕ → ℕ
saturating_pow2 n = if leb u64_mod (2 ^ n) then u64_mod - 1 else 2 ^ n

unfoldable pub backoff_ms : ℕ → ℕ
backoff_ms retries = base_backoff_ms * saturating_pow2 (retries - 1)

-- `attempt.min(5)`
unfoldable pub backoff_duration : ℕ → ℕ
backoff_duration attempt = base_backoff_ms * saturating_pow2 (if leb attempt 5 then attempt else 5)

-- The loop, on fuel, against the answers still to come: the result, the task and the waits.
unfoldable pub dispatch_loop :
    ℕ → (ℕ → Answer) → RelayTask → Option (Dispatched × RelayTask × List ℕ)
dispatch_loop zero answers task = none
dispatch_loop (suc fuel) answers task = elim (answers 0) [
  | sent tx_hash ↦ some (done tx_hash, record task { state = submitted tx_hash }, [])
  | refused why ↦
      let retries = (task.retries + 1) % u32_mod in
      if leb max_retries retries
      then some (
        gave_up (exceeded ++ why),
        record task { state = failed (exceeded ++ why); retries = retries },
        [],
      )
      else (do
        (result, task', waits) ←
            dispatch_loop fuel (λ i. answers (suc i))
              (record task { state = pending; retries = retries })
        some (result, task', backoff_ms retries ∷ waits))
]

-- A dispatch against the answers of the adapter that is found. A task that has been tried `retries`
-- times is tried at most `max_retries` times more.
unfoldable pub dispatch :
    RelayerConfig
    → (Adapter → ChainWatchConfig → ℕ → Answer)
    → RelayTask
    → Option (Dispatched × RelayTask × List ℕ)
dispatch config answers task = elim (adapter_for task.target_chain_id) [
  | none ↦ some (no_adapter task.target_chain_id, task, [])
  | some adapter ↦ elim (chain_config config task.target_chain_id) [
    | none ↦ some (not_in_config task.target_chain_id, task, [])
    | some chain ↦ dispatch_loop max_retries (answers adapter chain) task
  ]
]

-- The tasks of a batch, one after the other; the answers may differ from task to task.
unfoldable pub process_batch :
    RelayerConfig
    → (ℕ → Adapter → ChainWatchConfig → ℕ → Answer)
    → List RelayTask
    → Option (List Dispatched)
process_batch config answers [] = some []
process_batch config answers (task ∷ tasks) = do
  (result, task', waits) ← dispatch config (answers 0) task
  results ← process_batch config (λ i. answers (suc i)) tasks
  some (result ∷ results)
