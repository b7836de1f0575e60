-- ===== src/Relayer/Aggregator.antt =====
-- relayer/src/aggregator.rs. The channel to the dispatcher is taken to accept every command, in the
-- order in which they are sent.
pub mod Order
use sl.Prelude.{
  ℕ, ◌+◌, Bool, true, false, ◌&&◌, not, Option, none, some, List, [], ◌∷◌, ◌++◌, ltb, leb, nat_beq,
  if◌then◌else◌, length,
}
use sl.Panic.{◌>>=◌, ◌>>◌}
use sl.Relayer.Types.{
  EpochEvent, RelayCommand, ChainWatchConfig, MetadataResistanceConfig, RelayerConfig,
  send_to_chain, submit_to_registry,
}

-- Whether a chain is sent the root of an event.
unfoldable pub is_target : EpochEvent → ChainWatchConfig → Bool
is_target event chain =
    if nat_beq chain.chain_id event.chain_id
    then false
    else elim chain.bridge_adapter_address [ none ↦ false | some address ↦ true ]

-- The loop over the other chains.
unfoldable pub send_to_chains : EpochEvent → List ChainWatchConfig → List RelayCommand
send_to_chains event [] = []
send_to_chains event (chain ∷ chains) =
    let rest = send_to_chains event chains in
    if is_target event chain
    then send_to_chain chain.chain_id event.chain_id event.epoch_id event.nullifier_root ∷ rest
    else rest

unfoldable pub dispatch_event : RelayerConfig → EpochEvent → List RelayCommand
dispatch_event config event =
    submit_to_registry event.chain_id event.epoch_id event.nullifier_root event.nullifier_count
    ∷ send_to_chains event config.chains

-- `gen_range(0..max_ms)` panics on an empty range; the number it draws only delays.
unfoldable pub rand_jitter : ℕ → Option (Unit {0})
rand_jitter max_ms = if ltb 0 max_ms then some tt else none

-- The wait before a dispatch, if it applies.
unfoldable pub wait_if : Bool → ℕ → Option (Unit {0})
wait_if true max_ms = rand_jitter max_ms
wait_if false max_ms = some tt

unfoldable pub flush_batch : RelayerConfig → List EpochEvent → Option (List RelayCommand)
flush_batch config [] = some []
flush_batch config (event ∷ batch) = do
  wait_if config.metadata_resistance.jitter_enabled config.metadata_resistance.max_jitter_ms
  rest ← flush_batch config batch
  some (dispatch_event config event ++ rest)

-- What the loop waits for: an event, the end of the batch timeout, or the end of all watchers.
pub data Wake : Type 0 where
  event : EpochEvent → Wake
  timeout : Wake

-- One round of the loop: the commands that are sent and the batch that is kept. A timeout is only
-- waited for under batching.
unfoldable pub step :
    RelayerConfig → Wake → List EpochEvent → Option (List RelayCommand × List EpochEvent)
step config (event ev) batch =
    if config.metadata_resistance.batching_enabled
    then (if leb config.metadata_resistance.batch_size (length (batch ++ ev ∷ []))
        then (do sent ← flush_batch config (batch ++ ev ∷ []); some (sent, []))
        else some ([], batch ++ ev ∷ []))
    else (do
      wait_if
          (config.metadata_resistance.jitter_enabled
            && ltb 0 config.metadata_resistance.max_jitter_ms)
          config.metadata_resistance.max_jitter_ms
      some (dispatch_event config ev, batch))
step config timeout batch = do sent ← flush_batch config batch; some (sent, [])

-- `run_aggregator`, until all watchers are gone: what is left of the batch is flushed then.
unfoldable pub run_aggregator :
    RelayerConfig → List Wake → List EpochEvent → Option (List RelayCommand)
run_aggregator config [] batch = flush_batch config batch
run_aggregator config (wake ∷ wakes) batch = do
  (sent, kept) ← step config wake batch
  rest ← run_aggregator config wakes kept
  some (sent ++ rest)
