-- ===== src/Relayer/Tests.antt =====
-- The theorems of the relayer at concrete inputs.
use sl.Prelude.{
  ℕ, ◌≡◌, refl, true, false, ◌&&◌, none, some, List, [], ◌∷◌, ◌++◌, ◌+◌, nat_beq, text_beq, length,
  take, arith, leb, if◌then◌else◌,
}
use sl.CosmWasm.Fixtures.{encode_hex, repeat}
use sl.CosmWasm.Poseidon.{from_be_bytes}
use sl.Relayer.Types.{EpochEvent, ChainWatchConfig, RelayerConfig}
use sl.Relayer.Nonce.{NonceManager}
use sl.Relayer.Aggregator
use sl.Relayer.Aggregator.{Wake, run_aggregator, step}
use sl.Relayer.Aggregator.Order.{
  events_of, commands_for, run_aggregator-in_order, run_aggregator-panics,
}
use sl.Relayer.Engine.{
  Adapter, awm, Answer, sent, refused, RelayTask, build_task, Dispatched, dispatch, adapter_for,
  chain_config, find, supports_chain,
}
use sl.Relayer.Engine.Retries.{IsRetried, dispatch-returns}
use sl.Relayer.Watcher.{
  Log, Host, Poll, watch_via_polling, poll_events, next_block, send_logs, send_log,
  parse_epoch_finalized_log, second_topic, parse_topic, tx_hash_text, block_of,
}
use sl.Relayer.Watcher.Polls.{IsLogSource, AllOutside, watch_via_polling-drops}
use sl.Relayer.Watcher.Complete.{watch_via_polling_complete, parse_all, last_polled}
use sl.Relayer.Health
use sl.Relayer.Health.{HealthState, Change, run_changes}

abbrev nonces_at_start : NonceManager
nonces_at_start = λ chain_id. none

abbrev requests : List ℕ
requests = 43114 ∷ 1284 ∷ 43114 ∷ []

abbrev chain : ℕ → ℕ → ChainWatchConfig
chain id confirmations = record {
  chain_id = id;
  name = [];
  ws_rpc_url = [];
  http_rpc_url = [];
  epoch_manager_address = 48 ∷ 120 ∷ repeat 40 49;
  privacy_pool_address = [];
  bridge_adapter_address = some (49 ∷ []);
  signer_key = [];
  poll_interval_secs = 12;
  confirmation_blocks = confirmations;
}

abbrev config_with : ℕ → RelayerConfig
config_with max_jitter = record {
  chains = chain 43114 0 ∷ chain 1284 12 ∷ [];
  registry = record { chain_id = 43113; address = []; rpc_url = []; signer_key = [] };
  metrics_port = 9090;
  metadata_resistance = record {
    jitter_enabled = true;
    max_jitter_ms = max_jitter;
    batching_enabled = true;
    batch_size = 2;
    batch_timeout_ms = 30000;
    dummy_padding_enabled = false;
    target_messages_per_minute = 0;
  };
}

abbrev epoch_event : ℕ → EpochEvent
epoch_event id = record {
  chain_id = 43114;
  chain_name = [];
  epoch_id = id;
  nullifier_root = repeat 32 7;
  nullifier_count = 2;
  block_number = 5;
  tx_hash = [];
  timestamp = 0;
}

abbrev three_wakes : List Wake
three_wakes =
    Aggregator.event (epoch_event 1)
    ∷ Aggregator.timeout
    ∷ Aggregator.event (epoch_event 2)
    ∷ Aggregator.event (epoch_event 3)
    ∷ []

run_aggregator-in_order_example :
    run_aggregator (config_with 5000) three_wakes []
    ≡ some (commands_for (config_with 5000) (events_of three_wakes))
run_aggregator-in_order_example =
    run_aggregator-in_order (config_with 5000) three_wakes (λ on. omega arith)

run_aggregator-panics_example :
    run_aggregator
      (config_with 0)
      (Aggregator.timeout ∷ Aggregator.event (epoch_event 1) ∷ Aggregator.timeout ∷ [])
      []
    ≡ none
run_aggregator-panics_example =
    run_aggregator-panics (config_with 0) (Aggregator.timeout ∷ []) (epoch_event 1)
      (Aggregator.timeout ∷ []) refl refl refl refl

-- The third try is not refused.
abbrev third_time : Adapter → ChainWatchConfig → ℕ → Answer
third_time a c n = if leb 2 n then sent (49 ∷ []) else refused (50 ∷ [])

abbrev new_task : RelayTask
new_task = build_task 1284 43114 1 (repeat 32 7) 2

dispatch-returns_example :
    (out : Dispatched × RelayTask × List ℕ) × (dispatch (config_with 5000) third_time new_task
      ≡ some out)
    × IsRetried (third_time awm (chain 43114 0)) new_task out
dispatch-returns_example =
    dispatch-returns (config_with 5000) third_time new_task awm (chain 43114 0)
      (unfold build_task adapter_for supports_chain find in refl)
      (unfold build_task chain_config find in refl) (unfold build_task in omega arith)

abbrev log_at : ℕ → Log
log_at block = record {
  topics = repeat 32 9 ∷ repeat 32 0 ∷ [];
  bytes = repeat 32 7 ++ repeat 32 0;
  block_number = some block;
  transaction_hash = none;
  log_index = some 0;
}

-- One log in block 5 and one in block 20.
abbrev logs_between : ℕ → ℕ → List Log
logs_between from to =
    (if leb from 5 && leb 5 to then log_at 5 ∷ [] else [])
    ++ (if leb from 20 && leb 20 to then log_at 20 ∷ [] else [])

logs_between-IsLogSource : IsLogSource logs_between
logs_between-IsLogSource = record {
  within = λ from to. ground arith;
  empty = λ from. ground arith;
  joined = λ from mid to le le'. ground arith;
}

abbrev host : Host
host = record {
  hex_encode = encode_hex;
  is_address = λ t. nat_beq (length t) 42 && text_beq (take 2 t) (48 ∷ 120 ∷ []);
  now = λ log. 1000 + block_of log;
}

abbrev polls : List Poll
polls =
    record { block = some 6; answered = true }
    ∷ record { block = none; answered = true }
    ∷ record { block = some 40; answered = true }
    ∷ []

watch_via_polling_complete_example :
    watch_via_polling host (chain 43114 0) logs_between 3 polls
    ≡ parse_all host (chain 43114 0) (logs_between 4 (last_polled 3 polls))
unfolding text_beq
watch_via_polling_complete_example =
    watch_via_polling_complete host (chain 43114 0) logs_between logs_between-IsLogSource 3 polls
      refl refl (refl, (refl, (refl, tt)))

abbrev late_event : EpochEvent
late_event = record {
  chain_id = 1284;
  chain_name = [];
  epoch_id = 0;
  nullifier_root = repeat 32 7;
  nullifier_count = 0;
  block_number = 20;
  tx_hash = [];
  timestamp = 1020;
}

watch_via_polling-drops_example : AllOutside 6 12 (late_event ∷ [])
watch_via_polling-drops_example =
    watch_via_polling-drops host (chain 1284 12) logs_between logs_between-IsLogSource 3 6
      (record { block = some 40; answered = true } ∷ []) (late_event ∷ []) (omega arith)
      (unfold watch_via_polling poll_events next_block send_logs send_log parse_epoch_finalized_log
          second_topic parse_topic tx_hash_text from_be_bytes text_beq in
        refl)

abbrev changes : List Change
changes = Health.connected ∷ Health.connected ∷ Health.relayed 9 ∷ Health.disconnected ∷ []
