-- ===== src/Relayer/Watcher.antt =====
-- The polling watcher of relayer/src/watcher.rs, and the parsing of its logs. The channel to the
-- aggregator is taken to accept every event.
pub mod Polls
pub mod Complete
use sl.Prelude.{
  ℕ, ◌+◌, ◌-◌, ◌<◌, ◌≤◌, ◌≡◌, Bool, true, false, Option, none, some, List, [], ◌∷◌, ◌++◌, Text, ltb,
  leb, length, take, drop, if◌then◌else◌,
}
use sl.Prelude.Words.{u32_mod, u64_mod}
use sl.Merkle.{unwrap_or}
use sl.Panic.{◌>>=◌}
use sl.CosmWasm.Poseidon.{from_be_bytes}
use sl.Relayer.Types.{EpochEvent, ChainWatchConfig}

-- A log as the provider returns it.
pub record Log : Type 0 where
  pub topics : List Text
  pub bytes : Text
  pub block_number : Option ℕ
  pub transaction_hash : Option Text
  pub log_index : Option ℕ

pub data Parsed : Type 0 where
  parsed : EpochEvent → Parsed
  rejected : Parsed
  panicked : Parsed

-- `hex::encode`; whether `parse::<Address>` reads a text; and what the clock says when a log is parsed,
-- which happens once, since no round asks for the blocks of another.
pub record Host : Type 0 where
  pub hex_encode : Text → Text
  pub is_address : Text → Bool
  pub now : Log → ℕ

-- `format!("0x{}", ..)`, or the empty text.
unfoldable pub tx_hash_text : Host → Option Text → Text
tx_hash_text host none = []
tx_hash_text host (some h) = 48 ∷ 120 ∷ host.hex_encode h

-- The block of a log, zero for a pending one.
abbrev pub block_of : Log → ℕ
block_of log = unwrap_or 0 log.block_number

-- The event of a log with its second topic. `as_u64` and `as_u32` panic on a number that does not fit.
unfoldable pub parse_topic : Host → ChainWatchConfig → Log → Text → Parsed
parse_topic host config log topic =
    let epoch_id = from_be_bytes 0 topic in
    let nullifier_count = from_be_bytes 0 (take 32 (drop 32 log.bytes)) in
    if leb u64_mod epoch_id
    then panicked
    else (if ltb (length log.bytes) 64
        then rejected
        else (if leb u32_mod nullifier_count
            then panicked
            else parsed (record {
              chain_id = config.chain_id;
              chain_name = config.name;
              epoch_id = epoch_id;
              nullifier_root = take 32 log.bytes;
              nullifier_count = nullifier_count;
              block_number = block_of log;
              tx_hash = tx_hash_text host log.transaction_hash;
              timestamp = host.now log;
            })))

-- The second topic, if there is one.
unfoldable pub second_topic : List Text → Option Text
second_topic (t0 ∷ t1 ∷ rest) = some t1
second_topic _ = none

unfoldable pub parse_epoch_finalized_log : Host → ChainWatchConfig → Log → Parsed
parse_epoch_finalized_log host config log = elim (second_topic log.topics) [
  | none ↦ rejected
  | some topic ↦ parse_topic host config log topic
]

-- What a log of a poll at `current_block` sends, or `none` for a panic.
unfoldable pub send_log : ChainWatchConfig → ℕ → Log → Parsed → Option (List EpochEvent)
send_log config current_block log (parsed event) =
    if leb config.confirmation_blocks (current_block - block_of log)
    then some (event ∷ [])
    else some []
send_log config current_block log rejected = some []
send_log config current_block log panicked = none

-- The loop over the logs of a poll.
unfoldable pub send_logs : Host → ChainWatchConfig → ℕ → List Log → Option (List EpochEvent)
send_logs host config current_block [] = some []
send_logs host config current_block (log ∷ logs) = do
  first ← send_log config current_block log (parse_epoch_finalized_log host config log)
  rest ← send_logs host config current_block logs
  some (first ++ rest)

-- What the provider answers in one round: the current block, and whether it then returns the logs.
pub record Poll : Type 0 where
  pub block : Option ℕ
  pub answered : Bool

-- The block that a round ends with.
unfoldable pub next_block : ℕ → Poll → ℕ
next_block last_block poll = elim poll.block [
  | none ↦ last_block
  | some current_block ↦ if leb current_block last_block then last_block else current_block
]

-- The events of a round, or `none` for a panic, as on a configured address that cannot be parsed.
-- `get_logs from to` is what the provider holds from one block to another.
unfoldable pub poll_events :
    Host → ChainWatchConfig → (get_logs : ℕ → ℕ → List Log) → ℕ → Poll → Option (List EpochEvent)
poll_events host config get_logs last_block poll = elim poll.block [
  | none ↦ some []
  | some current_block ↦
      if leb current_block last_block
      then some []
      else (if host.is_address config.epoch_manager_address
          then (if poll.answered
              then send_logs host config current_block (get_logs (last_block + 1) current_block)
              else some [])
          else none)
]

-- The loop of `watch_via_polling` over some rounds.
unfoldable pub watch_via_polling :
    Host
    → ChainWatchConfig
    → (get_logs : ℕ → ℕ → List Log) → ℕ
    → List Poll
    → Option (List EpochEvent)
watch_via_polling host config get_logs last_block [] = some []
watch_via_polling host config get_logs last_block (poll ∷ polls) = do
  first ← poll_events host config get_logs last_block poll
  rest ← watch_via_polling host config get_logs (next_block last_block poll) polls
  some (first ++ rest)
