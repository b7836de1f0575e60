-- ===== src/Relayer/Watcher/Complete.antt =====
-- What the polls of relayer/src/watcher.rs send when every one of them is answered.
use sl.Prelude.{
  ℕ, ◌+◌, ◌≤◌, ◌≡◌, refl, sym, ap, true, Option, none, some, List, [], ◌∷◌, ◌++◌, arith, leb,
  Bool-cases, Option-cases, inl, inr,
}
use mathlib.Core.List.{append_assoc}
use sl.Panic.{◌>>=◌}
use sl.Relayer.Types.{EpochEvent, ChainWatchConfig}
use sl.Relayer.Watcher.{
  Log, Parsed, parsed, rejected, panicked, Host, parse_epoch_finalized_log, send_log, send_logs,
  Poll, next_block, poll_events, watch_via_polling,
}
use sl.Relayer.Watcher.Polls.{IsLogSource, next_block-ge}

-- The event of a log that is not rejected, or `none` for a panic.
abbrev pub events_from : Parsed → Option (List EpochEvent)
events_from (parsed e) = some (e ∷ [])
events_from rejected = some []
events_from panicked = none

-- One list after the other, unless one panics.
abbrev pub both : Option (List EpochEvent) → Option (List EpochEvent) → Option (List EpochEvent)
both none ys = none
both (some xs) none = none
both (some xs) (some ys) = some (xs ++ ys)

-- The statements that send one list and then another.
abbrev after_both : Option (List EpochEvent) → List EpochEvent → Option (List EpochEvent)
after_both ys first = do rest ← ys; some (first ++ rest)

both_assoc : (xs ys zs : Option (List EpochEvent)) → both (both xs ys) zs ≡ both xs (both ys zs)
both_assoc none ys zs = refl
both_assoc (some xs) none zs = refl
both_assoc (some xs) (some ys) none = refl
both_assoc (some xs) (some ys) (some zs) = ap some (append_assoc xs ys zs)

bind-both : (xs ys : Option (List EpochEvent)) → (xs >>= after_both ys) ≡ both xs ys
bind-both none ys = refl
bind-both (some xs) none = refl
bind-both (some xs) (some ys) = refl

both-nothing : (ys : Option (List EpochEvent)) → both (some []) ys ≡ ys
both-nothing none = refl
both-nothing (some ys) = refl

-- The events of all logs that are not rejected, in order, or `none` if one panics.
abbrev pub parse_all : Host → ChainWatchConfig → List Log → Option (List EpochEvent)
parse_all host config [] = some []
parse_all host config (log ∷ logs) =
    both (events_from (parse_epoch_finalized_log host config log)) (parse_all host config logs)

-- Every round is answered.
abbrev pub AllAnswered : List Poll → Type 0
AllAnswered [] = Unit
AllAnswered (poll ∷ polls) = (poll.answered ≡ true) × AllAnswered polls

-- The block that the rounds end with.
abbrev pub last_polled : ℕ → List Poll → ℕ
last_polled last_block [] = last_block
last_polled last_block (poll ∷ polls) = last_polled (next_block last_block poll) polls

last_polled-ge : (last_block : ℕ) (polls : List Poll) → last_block ≤ last_polled last_block polls
last_polled-ge last_block [] = omega arith
last_polled-ge last_block (poll ∷ polls) =
    omega (arith, next_block-ge last_block poll, last_polled-ge (next_block last_block poll) polls)

module _ (host : Host) (config : ChainWatchConfig) where
  send_log-unconfirmed :
      (head : ℕ) (log : Log) (p : Parsed)
      → config.confirmation_blocks ≡ 0
      → send_log config head log p ≡ events_from p
  unfolding send_log
  send_log-unconfirmed head log (parsed e) zero_blocks = rw zero_blocks (ground arith)
  send_log-unconfirmed head log rejected zero_blocks = refl
  send_log-unconfirmed head log panicked zero_blocks = refl

  send_logs-unconfirmed :
      (head : ℕ) (logs : List Log)
      → config.confirmation_blocks ≡ 0
      → send_logs host config head logs ≡ parse_all host config logs
  unfolding send_logs
  send_logs-unconfirmed head [] zero_blocks = refl
  send_logs-unconfirmed head (log ∷ logs) zero_blocks =
      rw
        (
          send_log-unconfirmed head log (parse_epoch_finalized_log host config log) zero_blocks,
          send_logs-unconfirmed head logs zero_blocks,
        )
        (bind-both (events_from (parse_epoch_finalized_log host config log))
          (parse_all host config logs))

  parse_all-append :
      (xs ys : List Log)
      → parse_all host config (xs ++ ys)
        ≡ both (parse_all host config xs) (parse_all host config ys)
  parse_all-append [] ys = sym (both-nothing (parse_all host config ys))
  parse_all-append (x ∷ xs) ys = rw (parse_all-append xs ys) (
      sym (
        both_assoc (events_from (parse_epoch_finalized_log host config x))
          (parse_all host config xs) (parse_all host config ys)))

  module _ (get_logs : ℕ → ℕ → List Log) (source : IsLogSource get_logs) where
    poll_events-unconfirmed :
        (last_block : ℕ) (poll : Poll)
        → config.confirmation_blocks ≡ 0
        → host.is_address config.epoch_manager_address ≡ true
        → poll.answered ≡ true
        → poll_events host config get_logs last_block poll
          ≡ parse_all host config (get_logs (last_block + 1) (next_block last_block poll))
    unfolding poll_events next_block
    poll_events-unconfirmed last_block poll zero_blocks address answered =
        elim (Option-cases poll.block) [
          | inl down ↦ rw (poll_events, next_block, down, source.empty last_block) refl
          | inr (current, at_block) ↦ elim (Bool-cases (leb current last_block)) [
            | inl old ↦ rw (poll_events, next_block, at_block, old, source.empty last_block) refl
            | inr new ↦
                rw (poll_events, next_block, at_block, new, address, answered)
                  (send_logs-unconfirmed current (get_logs (last_block + 1) current) zero_blocks)
          ]
        ]

    -- Without confirmations, where the configured address can be parsed and every round is answered,
    -- polling sends the events of all logs from the block after the first to the last one polled, each
    -- once and in order, or panics if parsing one of them does; where the provider returns the logs of
    -- the blocks that it is asked for.
    pub watch_via_polling_complete :
        (last_block : ℕ) (polls : List Poll)
        → config.confirmation_blocks ≡ 0
        → host.is_address config.epoch_manager_address ≡ true
        → AllAnswered polls
        → watch_via_polling host config get_logs last_block polls
          ≡ parse_all host config (get_logs (last_block + 1) (last_polled last_block polls))
    unfolding watch_via_polling
    watch_via_polling_complete last_block [] zero_blocks address all =
        rw (source.empty last_block) refl
    watch_via_polling_complete last_block (poll ∷ polls) zero_blocks address all =
        let next = next_block last_block poll in
        let split =
          source.joined (last_block + 1) next (last_polled next polls)
            (omega (arith, next_block-ge last_block poll)) (last_polled-ge next polls) in
        rw
          (
            poll_events-unconfirmed last_block poll zero_blocks address all.0,
            watch_via_polling_complete next polls zero_blocks address all.1,
            ← split,
            parse_all-append (get_logs (last_block + 1) next)
                (get_logs (next + 1) (last_polled next polls)),
          )
          (bind-both _ _)
