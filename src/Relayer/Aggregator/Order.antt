-- ===== src/Relayer/Aggregator/Order.antt =====
-- No event is lost, repeated or reordered, whatever the batching and the timeouts.
use sl.Prelude.{
  ℕ, ◌<◌, ◌≡◌, refl, sym, ap, ◌∙◌, Bool, true, false, ◌&&◌, none, some, List, [], ◌∷◌, ◌++◌, arith,
  ltb, lt→ltb, leb, length, Bool-cases, inl, inr,
}
use mathlib.Core.List.{append_assoc, append-nil}
use sl.Panic.{some-injective}
use sl.Relayer.Types.{EpochEvent, RelayCommand, RelayerConfig}
use sl.Relayer.Aggregator
use sl.Relayer.Aggregator.{
  is_target, send_to_chains, dispatch_event, rand_jitter, wait_if, flush_batch, Wake, event,
  timeout, step, run_aggregator,
}

-- The events that arrive.
abbrev pub events_of : List Wake → List EpochEvent
events_of [] = []
events_of (Aggregator.event e ∷ wakes) = e ∷ events_of wakes
events_of (Aggregator.timeout ∷ wakes) = events_of wakes

events_of-cons :
    (wake : Wake) (wakes : List Wake)
    → events_of (wake ∷ []) ++ events_of wakes ≡ events_of (wake ∷ wakes)
events_of-cons (Aggregator.event e) wakes = refl
events_of-cons Aggregator.timeout wakes = refl

-- The commands for some events, one event after the other.
abbrev pub commands_for : RelayerConfig → List EpochEvent → List RelayCommand
commands_for config [] = []
commands_for config (e ∷ events) = dispatch_event config e ++ commands_for config events

commands_for-append :
    (config : RelayerConfig) (xs ys : List EpochEvent)
    → commands_for config (xs ++ ys) ≡ commands_for config xs ++ commands_for config ys
commands_for-append config [] ys = refl
commands_for-append config (x ∷ xs) ys =
    rw (commands_for-append config xs ys) (
      sym
        (append_assoc (dispatch_event config x) (commands_for config xs) (commands_for config ys)))

-- A configuration whose jitter has a range to draw from.
abbrev pub HasJitter : RelayerConfig → Type 0
HasJitter config =
    config.metadata_resistance.jitter_enabled ≡ true → 0 < config.metadata_resistance.max_jitter_ms

wait_if-returns : (b : Bool) (v : ℕ) → (b ≡ true → 0 < v) → wait_if b v ≡ some tt
unfolding wait_if rand_jitter
wait_if-returns true v h = rw (lt→ltb 0 v (h refl)) refl
wait_if-returns false v h = refl

flush_batch-returns :
    (config : RelayerConfig) (batch : List EpochEvent)
    → HasJitter config
    → flush_batch config batch ≡ some (commands_for config batch)
unfolding flush_batch
flush_batch-returns config [] h = refl
flush_batch-returns config (e ∷ batch) h =
    rw
      (
        wait_if-returns config.metadata_resistance.jitter_enabled
            config.metadata_resistance.max_jitter_ms h,
        flush_batch-returns config batch h,
      )
      refl

-- What one round sends and keeps, joined, is what it had and what arrived.
record Rounds (config : RelayerConfig) (wake : Wake) (batch : List EpochEvent) : Type 0 where
  pub out : List EpochEvent
  pub kept : List EpochEvent
  pub returns : step config wake batch ≡ some (commands_for config out, kept)
  pub joined : out ++ kept ≡ batch ++ events_of (wake ∷ [])
  pub idle : config.metadata_resistance.batching_enabled ≡ false → kept ≡ []
  pub bounded :
      length batch < config.metadata_resistance.batch_size
      → length kept < config.metadata_resistance.batch_size

step-Rounds :
    (config : RelayerConfig) (wake : Wake) (batch : List EpochEvent)
    → HasJitter config
    → (config.metadata_resistance.batching_enabled ≡ false → batch ≡ [])
    → Rounds config wake batch
unfolding step
step-Rounds config (Aggregator.event e) batch h idle =
    elim (Bool-cases config.metadata_resistance.batching_enabled) [
      | inl on ↦
          elim (Bool-cases (leb config.metadata_resistance.batch_size (length (batch ++ e ∷ [])))) [
            | inl full ↦ record {
              out = batch ++ e ∷ [];
              kept = [];
              returns = simp (on, full, flush_batch-returns config (batch ++ e ∷ []) h);
              joined = append-nil (batch ++ e ∷ []);
              idle = λ off. refl;
              bounded = λ lt. omega arith;
            }
            | inr short ↦ record {
              out = [];
              kept = batch ++ e ∷ [];
              returns = simp (on, short);
              joined = refl;
              idle = λ off. cc (on, off);
              bounded = λ lt. ground (arith, short);
            }
          ]
      | inr off ↦ rw (idle off) (record {
        out = e ∷ [];
        kept = [];
        returns = simp (
          off,
          wait_if-returns
              (config.metadata_resistance.jitter_enabled
                && ltb 0 config.metadata_resistance.max_jitter_ms)
              config.metadata_resistance.max_jitter_ms (λ both. ground (arith, both)),
          append-nil (dispatch_event config e),
        );
        joined = refl;
        idle = λ off'. refl;
        bounded = λ lt. lt;
      })
    ]
step-Rounds config Aggregator.timeout batch h idle = record {
  out = batch;
  kept = [];
  returns = rw (flush_batch-returns config batch h) refl;
  joined = refl;
  idle = λ off. refl;
  bounded = λ lt. omega arith;
}

run_aggregator-returns :
    (config : RelayerConfig) (wakes : List Wake) (batch : List EpochEvent)
    → HasJitter config
    → (config.metadata_resistance.batching_enabled ≡ false → batch ≡ [])
    → run_aggregator config wakes batch ≡ some (commands_for config (batch ++ events_of wakes))
unfolding run_aggregator
run_aggregator-returns config [] batch h idle =
    rw (append-nil batch) (flush_batch-returns config batch h)
run_aggregator-returns config (wake ∷ wakes) batch h idle =
    let round = step-Rounds config wake batch h idle in
    let rest = run_aggregator-returns config wakes round.kept h round.idle in
    let all : round.out ++ (round.kept ++ events_of wakes) ≡ batch ++ events_of (wake ∷ wakes) =
      sym (append_assoc round.out round.kept (events_of wakes))
      ∙ (ap (λ (l : List EpochEvent). l ++ events_of wakes) round.joined
          ∙ (append_assoc batch (events_of (wake ∷ [])) (events_of wakes)
              ∙ ap (λ (l : List EpochEvent). batch ++ l) (events_of-cons wake wakes))) in
    rw (round.returns, rest)
      (ap some (
        sym (commands_for-append config round.out (round.kept ++ events_of wakes))
        ∙ ap (commands_for config) all))

-- Where jitter, if enabled, has a positive maximum, the aggregator sends the commands of every event
-- exactly once, in the order of arrival, whatever the batch size and the timeouts.
pub run_aggregator-in_order :
    (config : RelayerConfig) (wakes : List Wake)
    → HasJitter config
    → run_aggregator config wakes [] ≡ some (commands_for config (events_of wakes))
run_aggregator-in_order config wakes h = run_aggregator-returns config wakes [] h (λ off. refl)

-- A batch that is kept stays below the batch size.
pub step-bounded :
    (config : RelayerConfig) (wake : Wake) (batch kept : List EpochEvent) (sent : List RelayCommand)
    → HasJitter config
    → (config.metadata_resistance.batching_enabled ≡ false → batch ≡ [])
    → step config wake batch ≡ some (sent, kept)
    → length batch < config.metadata_resistance.batch_size
    → length kept < config.metadata_resistance.batch_size
step-bounded config wake batch kept sent h idle e lt =
    let round = step-Rounds config wake batch h idle in
    let same : round.kept ≡ kept =
      ap (λ (t : List RelayCommand × List EpochEvent). t.1)
        (some-injective (sym round.returns ∙ e)) in
    rw (← same) (round.bounded lt)

-- A batch with jitter out of an empty range cannot be flushed.
flush_batch-panics :
    (config : RelayerConfig) (e : EpochEvent) (batch : List EpochEvent)
    → config.metadata_resistance.jitter_enabled ≡ true
    → config.metadata_resistance.max_jitter_ms ≡ 0
    → flush_batch config (e ∷ batch) ≡ none
unfolding flush_batch wait_if rand_jitter
flush_batch-panics config e batch on zero_max = simp (on, zero_max)

run_aggregator-stuck :
    (config : RelayerConfig) (wakes : List Wake) (e : EpochEvent) (batch : List EpochEvent)
    → config.metadata_resistance.jitter_enabled ≡ true
    → config.metadata_resistance.max_jitter_ms ≡ 0
    → config.metadata_resistance.batching_enabled ≡ true
    → run_aggregator config wakes (e ∷ batch) ≡ none
unfolding run_aggregator step
run_aggregator-stuck config [] e batch on zero_max batching =
    flush_batch-panics config e batch on zero_max
run_aggregator-stuck config (Aggregator.event x ∷ wakes) e batch on zero_max batching =
    elim (Bool-cases (leb config.metadata_resistance.batch_size (length ((e ∷ batch) ++ x ∷ [])))) [
      | inl full ↦ simp (batching, full, flush_batch-panics config e (batch ++ x ∷ []) on zero_max)
      | inr short ↦ simp (
        batching,
        short,
        run_aggregator-stuck config wakes e (batch ++ x ∷ []) on zero_max batching,
      )
    ]
run_aggregator-stuck config (Aggregator.timeout ∷ wakes) e batch on zero_max batching =
    simp (flush_batch-panics config e batch on zero_max)

-- Under batching with jitter enabled and a maximum of 0, the aggregator panics in every run in which
-- an event arrives.
pub run_aggregator-panics :
    (config : RelayerConfig) (before : List Wake) (e : EpochEvent) (wakes : List Wake)
    → config.metadata_resistance.jitter_enabled ≡ true
    → config.metadata_resistance.max_jitter_ms ≡ 0
    → config.metadata_resistance.batching_enabled ≡ true
    → events_of before ≡ []
    → run_aggregator config (before ++ Aggregator.event e ∷ wakes) [] ≡ none
unfolding run_aggregator step flush_batch
run_aggregator-panics config [] e wakes on zero_max batching none_before =
    elim (Bool-cases (leb config.metadata_resistance.batch_size 1)) [
      | inl full ↦ simp (batching, full, flush_batch-panics config e [] on zero_max)
      | inr short ↦
          simp (batching, short, run_aggregator-stuck config wakes e [] on zero_max batching)
    ]
run_aggregator-panics config (Aggregator.event x ∷ before) e wakes on zero_max batching
      none_before =
    cc
run_aggregator-panics config (Aggregator.timeout ∷ before) e wakes on zero_max batching
      none_before =
    simp (run_aggregator-panics config before e wakes on zero_max batching none_before)
