-- ===== src/Relayer/Watcher/Polls.antt =====
-- Which events polling sends: all of them without confirmations, and none of the blocks that were not
-- yet confirmed when they were polled.
use sl.Prelude.{
  ℕ, ◌+◌, ◌-◌, ◌<◌, ◌≤◌, ◌≡◌, refl, true, false, none, some, List, [], ◌∷◌, ◌++◌, Text, arith, leb,
  Bool-cases, Option-cases, inl, inr, ◌⊎◌,
}
use sl.Panic.{>>=-eq-some, some-injective}
use sl.Relayer.Types.{EpochEvent, ChainWatchConfig}
use sl.Relayer.Watcher.{
  Log, Parsed, parsed, rejected, panicked, Host, block_of, parse_topic, second_topic,
  parse_epoch_finalized_log, send_log, send_logs, Poll, next_block, poll_events, watch_via_polling,
}

-- All logs lie between two blocks.
abbrev pub AllWithin : ℕ → ℕ → List Log → Type 0
AllWithin from to [] = Unit
AllWithin from to (log ∷ logs) =
    (from ≤ block_of log) × (block_of log ≤ to) × AllWithin from to logs

-- What the documentation of `eth_getLogs` says of a range of blocks.
pub record IsLogSource (get_logs : ℕ → ℕ → List Log) : Type 0 where
  pub within : (from to : ℕ) → AllWithin from to (get_logs from to)
  pub empty : (from : ℕ) → get_logs (from + 1) from ≡ []
  pub joined :
      (from mid to : ℕ)
      → from ≤ mid + 1
      → mid ≤ to
      → get_logs from mid ++ get_logs (mid + 1) to ≡ get_logs from to

-- All events lie from a block on, and `depth` blocks below another.
abbrev AllDeep : ℕ → ℕ → ℕ → List EpochEvent → Type 0
AllDeep from to depth [] = Unit
AllDeep from to depth (e ∷ events) =
    (from ≤ e.block_number) × (e.block_number + depth ≤ to) × AllDeep from to depth events

-- No event lies in the `depth` blocks up to a block.
abbrev pub AllOutside : ℕ → ℕ → List EpochEvent → Type 0
AllOutside head depth [] = Unit
AllOutside head depth (e ∷ events) =
    ((e.block_number + depth ≤ head) ⊎ (head < e.block_number)) × AllOutside head depth events

pub next_block-ge : (last_block : ℕ) (poll : Poll) → last_block ≤ next_block last_block poll
unfolding next_block
next_block-ge last_block poll = ground arith

module _ (host : Host) (config : ChainWatchConfig) where
  parse_topic-block_number :
      (log : Log) (topic : Text) (e : EpochEvent)
      → parse_topic host config log topic ≡ parsed e
      → e.block_number ≡ block_of log
  unfolding parse_topic
  parse_topic-block_number log topic e h = ground (arith, h)

  parse-block_number :
      (log : Log) (e : EpochEvent)
      → parse_epoch_finalized_log host config log ≡ parsed e
      → e.block_number ≡ block_of log
  unfolding parse_epoch_finalized_log
  parse-block_number log e h = elim (Option-cases (second_topic log.topics)) [
    | inl missing ↦ ground (arith, missing, h)
    | inr (topic, there) ↦
        parse_topic-block_number log topic e (rw (parse_epoch_finalized_log, there) at h)
  ]

  send_log-AllDeep :
      (from to : ℕ) (log : Log) (p : Parsed) (events : List EpochEvent)
      → parse_epoch_finalized_log host config log ≡ p
      → from ≤ block_of log
      → block_of log ≤ to
      → send_log config to log p ≡ some events
      → AllDeep from to config.confirmation_blocks events
  unfolding send_log
  send_log-AllDeep from to log (parsed e) events ep low high h =
      let b = parse-block_number log e ep in
      elim (Bool-cases (leb config.confirmation_blocks (to - block_of log))) [
        | inl deep ↦
            let is : e ∷ [] ≡ events = some-injective (rw deep at h) in
            rw (← is) (omega (arith, b), ground (arith, b, deep), tt)
        | inr shallow ↦ let is : [] ≡ events = some-injective (rw shallow at h) in rw (← is) tt
      ]
  send_log-AllDeep from to log rejected events ep low high h = rw (← some-injective h) tt
  send_log-AllDeep from to log panicked events ep low high h = cc

  AllDeep-append :
      (from to depth : ℕ) (xs ys : List EpochEvent)
      → AllDeep from to depth xs
      → AllDeep from to depth ys
      → AllDeep from to depth (xs ++ ys)
  AllDeep-append from to depth [] ys h k = k
  AllDeep-append from to depth (x ∷ xs) ys h k =
      (h.0, h.1, AllDeep-append from to depth xs ys h.2 k)

  send_logs-AllDeep :
      (from to : ℕ) (logs : List Log) (events : List EpochEvent)
      → AllWithin from to logs
      → send_logs host config to logs ≡ some events
      → AllDeep from to config.confirmation_blocks events
  unfolding send_logs
  send_logs-AllDeep from to [] events within h = rw (← some-injective h) tt
  send_logs-AllDeep from to (log ∷ logs) events within h =
      let (first, e1, h1) =
        >>=-eq-some (send_log config to log (parse_epoch_finalized_log host config log)) _ h in
      let (rest, e2, h2) = >>=-eq-some (send_logs host config to logs) _ h1 in
      rw (← some-injective h2) (
        AllDeep-append from to config.confirmation_blocks first rest
          (send_log-AllDeep from to log (parse_epoch_finalized_log host config log) first refl
            within.0 within.1 e1)
          (send_logs-AllDeep from to logs rest within.2 e2))

  AllOutside-append :
      (head depth : ℕ) (xs ys : List EpochEvent)
      → AllOutside head depth xs
      → AllOutside head depth ys
      → AllOutside head depth (xs ++ ys)
  AllOutside-append head depth [] ys h k = k
  AllOutside-append head depth (x ∷ xs) ys h k = (h.0, AllOutside-append head depth xs ys h.1 k)

  -- Events of later blocks, and events that are deep below the head, lie outside.
  later-AllOutside :
      (from to depth head depth' : ℕ) (events : List EpochEvent)
      → head < from
      → AllDeep from to depth events
      → AllOutside head depth' events
  later-AllOutside from to depth head depth' [] lt h = tt
  later-AllOutside from to depth head depth' (e ∷ events) lt h =
      (inr (omega (arith, h.0)), later-AllOutside from to depth head depth' events lt h.2)

  deep-AllOutside :
      (from head depth : ℕ) (events : List EpochEvent)
      → AllDeep from head depth events
      → AllOutside head depth events
  deep-AllOutside from head depth [] h = tt
  deep-AllOutside from head depth (e ∷ events) h =
      (inl h.1, deep-AllOutside from head depth events h.2)

  module _ (get_logs : ℕ → ℕ → List Log) (source : IsLogSource get_logs) where
    -- What a round sends: nothing, or events of new blocks that are deep enough.
    poll_events-cases :
        (last_block : ℕ) (poll : Poll) (events : List EpochEvent)
        → poll_events host config get_logs last_block poll ≡ some events
        → AllDeep (last_block + 1) (next_block last_block poll) config.confirmation_blocks events
    unfolding poll_events next_block
    poll_events-cases last_block poll events h = elim (Option-cases poll.block) [
      | inl down ↦
          let is : [] ≡ events = some-injective (rw (poll_events, down) at h) in rw (← is) tt
      | inr (current, at_block) ↦ elim (Bool-cases (leb current last_block)) [
        | inl old ↦
            let is : [] ≡ events = some-injective (rw (poll_events, at_block, old) at h) in
            rw (← is) tt
        | inr new ↦ elim (Bool-cases (host.is_address config.epoch_manager_address)) [
          | inl address ↦ elim (Bool-cases poll.answered) [
            | inl answered ↦
                let h' = rw (poll_events, at_block, new, address, answered) at h in
                rw (next_block, at_block, new)
                  (send_logs-AllDeep (last_block + 1) current (get_logs (last_block + 1) current)
                    events (source.within (last_block + 1) current) h')
            | inr failed ↦
                let is : [] ≡ events =
                  some-injective (rw (poll_events, at_block, new, address, failed) at h) in
                rw (← is) tt
          ]
          | inr garbled ↦
              let h' : none ≡ some events = rw (poll_events, at_block, new, garbled) at h in cc
        ]
      ]
    ]

    watch-AllOutside :
        (head depth last_block : ℕ) (polls : List Poll) (events : List EpochEvent)
        → head ≤ last_block
        → watch_via_polling host config get_logs last_block polls ≡ some events
        → AllOutside head depth events
    unfolding watch_via_polling
    watch-AllOutside head depth last_block [] events le h = rw (← some-injective h) tt
    watch-AllOutside head depth last_block (poll ∷ polls) events le h =
        let (first, e1, h1) = >>=-eq-some (poll_events host config get_logs last_block poll) _ h in
        let (rest, e2, h2) =
          >>=-eq-some (watch_via_polling host config get_logs (next_block last_block poll) polls) _
            h1 in
        rw (← some-injective h2) (
          AllOutside-append head depth first rest
            (later-AllOutside (last_block + 1) (next_block last_block poll)
              config.confirmation_blocks head depth first (omega arith)
              (poll_events-cases last_block poll first e1))
            (watch-AllOutside head depth (next_block last_block poll) polls rest
              (omega (arith, next_block-ge last_block poll)) e2))

    -- Polling never sends an event of the last `confirmation_blocks` blocks up to the head at which
    -- they were polled, in that round or in any later one.
    pub watch_via_polling-drops :
        (last_block head : ℕ) (polls : List Poll) (events : List EpochEvent)
        → last_block < head
        → watch_via_polling host config get_logs last_block
            (record { block = some head; answered = true } ∷ polls)
          ≡ some events
        → AllOutside head config.confirmation_blocks events
    unfolding watch_via_polling next_block
    watch_via_polling-drops last_block head polls events lt h =
        let poll : Poll = record { block = some head; answered = true } in
        let (first, e1, h1) = >>=-eq-some (poll_events host config get_logs last_block poll) _ h in
        let (rest, e2, h2) =
          >>=-eq-some (watch_via_polling host config get_logs (next_block last_block poll) polls) _
            h1 in
        let new : leb head last_block ≡ false = ground arith in
        let at_head : next_block last_block poll ≡ head = rw new refl in
        rw (← some-injective h2) (
          AllOutside-append head config.confirmation_blocks first rest
            (deep-AllOutside (last_block + 1) head config.confirmation_blocks first
              (rw at_head at (poll_events-cases last_block poll first e1)))
            (watch-AllOutside head config.confirmation_blocks (next_block last_block poll) polls
              rest (omega (arith, at_head)) e2))
