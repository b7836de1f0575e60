-- ===== src/Relayer/Engine/Retries.antt =====
-- How often and how long the engine retries.
use sl.Prelude.{
  ℕ, zero, suc, ◌+◌, ◌-◌, ◌*◌, ◌^◌, ◌%◌, ◌<◌, ◌≤◌, ◌≡◌, refl, true, false, some, List, [], ◌∷◌,
  ◌++◌, Text, arith, leb, nat_beq, length, Option-cases, Bool-cases, inl, inr, ◌⊎◌,
}
use sl.Prelude.Words.{u32_mod}
use native.Mathlib.Nat.{pow-suc}
use sl.Relayer.Types.{ChainWatchConfig, RelayerConfig}
use sl.Relayer.Engine.{
  max_retries, pending, submitted, failed, RelayTask, Adapter, awm, xcm, ibc, rainbow,
  supports_chain, find, adapter_for, chain_config, Answer, sent, refused, Dispatched, done, gave_up,
  no_adapter, not_in_config, exceeded, backoff_ms, backoff_duration, dispatch_loop, dispatch,
  process_batch,
}

-- The waits between `count` tries and the ones after them, from the try `start` on.
abbrev pub backoffs : ℕ → ℕ → List ℕ
backoffs start zero = []
backoffs start (suc count) = 1000 * 2 ^ start ∷ backoffs (start + 1) count

abbrev pub total : List ℕ → ℕ
total [] = 0
total (x ∷ xs) = x + total xs

backoff_ms-small : (r : ℕ) → r < 5 → backoff_ms (r + 1) ≡ 1000 * 2 ^ r
unfolding backoff_ms
backoff_ms-small zero h = refl
backoff_ms-small (suc zero) h = refl
backoff_ms-small (suc (suc zero)) h = refl
backoff_ms-small (suc (suc (suc zero))) h = refl
backoff_ms-small (suc (suc (suc (suc zero)))) h = refl
backoff_ms-small (suc (suc (suc (suc (suc r))))) h = absurd (omega arith)

-- The answers before a number are refusals.
abbrev pub AllRefused : (ℕ → Answer) → ℕ → Type 0
AllRefused answers n = (i : ℕ) → i < n → (why : Text) × (answers i ≡ refused why)

loop-submits :
    (fuel k : ℕ) (answers : ℕ → Answer) (task : RelayTask) (tx_hash : Text)
    → AllRefused answers k
    → answers k ≡ sent tx_hash
    → task.retries + k < max_retries
    → k < fuel
    → dispatch_loop fuel answers task
      ≡ some (
        done tx_hash,
        record task { state = submitted tx_hash; retries = task.retries + k },
        backoffs task.retries k,
      )
unfolding dispatch_loop
loop-submits zero k answers task tx_hash refusals accepted few enough = absurd (omega arith)
loop-submits (suc fuel) zero answers task tx_hash refusals accepted few enough =
    let same : task.retries + 0 ≡ task.retries = omega arith in
    rw (dispatch_loop, accepted, same) refl
loop-submits (suc fuel) (suc k) answers task tx_hash refusals accepted few enough =
    let (why, e) = refusals 0 (omega arith) in
    let word : (task.retries + 1) % u32_mod ≡ task.retries + 1 = omega arith in
    let again : leb max_retries (task.retries + 1) ≡ false = ground arith in
    let rest =
      loop-submits fuel k (λ i. answers (suc i))
        (record task { state = pending; retries = task.retries + 1 }) tx_hash
        (λ i lt. refusals (suc i) (omega arith)) accepted (omega arith) (omega arith) in
    let sum : task.retries + 1 + k ≡ task.retries + suc k = omega arith in
    rw (dispatch_loop, e, word, again, rest, backoff_ms-small task.retries (omega arith), sum) refl

loop-gives_up :
    (fuel k : ℕ) (answers : ℕ → Answer) (task : RelayTask) (why : Text)
    → AllRefused answers k
    → answers k ≡ refused why
    → task.retries + suc k ≡ max_retries
    → k < fuel
    → dispatch_loop fuel answers task
      ≡ some (
        gave_up (exceeded ++ why),
        record task { state = failed (exceeded ++ why); retries = max_retries },
        backoffs task.retries k,
      )
unfolding dispatch_loop
loop-gives_up zero k answers task why refusals last all enough = absurd (omega arith)
loop-gives_up (suc fuel) zero answers task why refusals last all enough =
    let word : (task.retries + 1) % u32_mod ≡ 5 = omega arith in rw (dispatch_loop, last, word) refl
loop-gives_up (suc fuel) (suc k) answers task why refusals last all enough =
    let (why', e) = refusals 0 (omega arith) in
    let word : (task.retries + 1) % u32_mod ≡ task.retries + 1 = omega arith in
    let again : leb max_retries (task.retries + 1) ≡ false = ground arith in
    let rest =
      loop-gives_up fuel k (λ i. answers (suc i))
        (record task { state = pending; retries = task.retries + 1 }) why
        (λ i lt. refusals (suc i) (omega arith)) last (omega arith) (omega arith) in
    rw (dispatch_loop, e, word, again, rest, backoff_ms-small task.retries (omega arith)) refl

-- One more answer, after refusals only.
next_answer :
    (answers : ℕ → Answer) (n : ℕ) (a : Answer)
    → answers n ≡ a
    → AllRefused answers n
    → ((k : ℕ) × (tx_hash : Text) × (k < suc n) × AllRefused answers k × (answers k ≡ sent tx_hash))
      ⊎ AllRefused answers (suc n)
next_answer answers n (sent tx_hash) e refusals = inl (n, tx_hash, omega arith, refusals, e)
next_answer answers n (refused why) e refusals = inr (λ i lt. elim (Bool-cases (nat_beq i n)) [
  | inl same ↦ let is : i ≡ n = ground arith in rw is (why, e)
  | inr other ↦ refusals i (ground arith)
])

-- Either the first answers up to some number are refusals and the next is not, or all are.
first_sent :
    (answers : ℕ → Answer) (n : ℕ)
    → ((k : ℕ) × (tx_hash : Text) × (k < n) × AllRefused answers k × (answers k ≡ sent tx_hash))
      ⊎ AllRefused answers n
first_sent answers zero = inr (λ i lt. absurd (omega arith))
first_sent answers (suc n) = elim (first_sent answers n) [
  | inl (k, tx_hash, lt, refusals, accepted) ↦ inl (k, tx_hash, omega arith, refusals, accepted)
  | inr refusals ↦ next_answer answers n (answers n) refl refusals
]

total-backoffs :
    (start count : ℕ)
    → start + count < 5
    → total (backoffs start count) + 1000 * 2 ^ start ≡ 1000 * 2 ^ (start + count)
total-backoffs start zero h = let e : start + 0 ≡ start = omega arith in rw e (omega arith)
total-backoffs start (suc count) h =
    let e : start + 1 + count ≡ start + suc count = omega arith in
    let ih = total-backoffs (start + 1) count (omega arith) in
    let next : start + 1 ≡ suc start = omega arith in
    let double : 2 ^ (start + 1) ≡ 2 * 2 ^ start = rw next (omega (arith, pow-suc 2 start)) in
    rw (← e) (omega (arith, ih, double))

-- What a dispatch comes to once the adapter and the chain are found: the first try that is not
-- refused, within five tries over all, or giving up after the fifth.
pub record IsRetried (answers : ℕ → Answer) (task : RelayTask)
    (out : Dispatched × RelayTask × List ℕ) : Type 0 where
  pub tries : ℕ
  pub refusals : AllRefused answers tries
  pub waits : out.2 ≡ backoffs task.retries tries
  pub total_wait : total out.2 + 1000 * 2 ^ task.retries ≡ 1000 * 2 ^ (task.retries + tries)
  pub result :
      ((tx_hash : Text) × (answers tries ≡ sent tx_hash)
        × (task.retries + tries < max_retries)
        × (out.0 ≡ done tx_hash)
        × (out.1 ≡ record task { state = submitted tx_hash; retries = task.retries + tries }))
      ⊎ ((why : Text) × (answers tries ≡ refused why)
          × (task.retries + tries + 1 ≡ max_retries)
          × (out.0 ≡ gave_up (exceeded ++ why))
          × (out.1 ≡ record task { state = failed (exceeded ++ why); retries = max_retries }))

-- A dispatch to a chain with an adapter and a configuration, of a task with fewer than five retries,
-- returns: with the hash of the first try that is not refused, or giving up when the task has had five
-- retries, after waits that double from 1000 * 2 ^ retries milliseconds on.
pub dispatch-returns :
    (config : RelayerConfig) (answers : Adapter → ChainWatchConfig → ℕ → Answer) (task : RelayTask)
    (adapter : Adapter) (chain : ChainWatchConfig)
    → adapter_for task.target_chain_id ≡ some adapter
    → chain_config config task.target_chain_id ≡ some chain
    → task.retries < max_retries
    → (out : Dispatched × RelayTask × List ℕ) × (dispatch config answers task ≡ some out)
      × IsRetried (answers adapter chain) task out
unfolding dispatch
dispatch-returns config answers task adapter chain found configured few =
    let given = answers adapter chain in
    elim (first_sent given (max_retries - task.retries)) [
      | inl (k, tx_hash, lt, refusals, accepted) ↦ (
        _,
        rw (dispatch, found, configured)
            (loop-submits max_retries k given task tx_hash refusals accepted (omega arith)
              (omega arith)),
        record {
          tries = k;
          refusals = refusals;
          waits = refl;
          total_wait = total-backoffs task.retries k (omega arith);
          result = inl (tx_hash, accepted, omega arith, refl, refl);
        },
      )
      | inr refusals ↦
          let k : ℕ = max_retries - task.retries - 1 in
          let (why, last) = refusals k (omega arith) in
          (
            _,
            rw (dispatch, found, configured)
                (loop-gives_up max_retries k given task why (λ i lt. refusals i (omega arith)) last
                  (omega arith) (omega arith)),
            record {
              tries = k;
              refusals = λ i lt. refusals i (omega arith);
              waits = refl;
              total_wait = total-backoffs task.retries k (omega arith);
              result = inr (why, last, omega arith, refl, refl);
            },
          )
    ]

-- An adapter that supports a chain is the one that the engine finds for it, so that no chain has two.
pub adapter_for-supports_chain :
    (a : Adapter) (chain_id : ℕ) → supports_chain a chain_id ≡ true → adapter_for chain_id ≡ some a
unfolding supports_chain adapter_for find
adapter_for-supports_chain awm chain_id h = ground (arith, h)
adapter_for-supports_chain xcm chain_id h = ground (arith, h)
adapter_for-supports_chain ibc chain_id h = ground (arith, h)
adapter_for-supports_chain rainbow chain_id h = ground (arith, h)

-- Every dispatch of a task with fewer than five retries returns.
dispatch-total :
    (config : RelayerConfig) (answers : Adapter → ChainWatchConfig → ℕ → Answer) (task : RelayTask)
    → task.retries < max_retries
    → (out : Dispatched × RelayTask × List ℕ) × (dispatch config answers task ≡ some out)
unfolding dispatch
dispatch-total config answers task few = elim (Option-cases (adapter_for task.target_chain_id)) [
  | inl missing ↦ ((no_adapter task.target_chain_id, task, []), rw (dispatch, missing) refl)
  | inr (adapter, found) ↦ elim (Option-cases (chain_config config task.target_chain_id)) [
    | inl missing ↦
        ((not_in_config task.target_chain_id, task, []), rw (dispatch, found, missing) refl)
    | inr (chain, configured) ↦
        let r = dispatch-returns config answers task adapter chain found configured few in
        (r.0, r.1)
  ]
]

abbrev pub AllNew : List RelayTask → Type 0
AllNew [] = Unit
AllNew (task ∷ tasks) = (task.retries < max_retries) × AllNew tasks

-- A batch of tasks with fewer than five retries each is processed to its end, with one result for
-- each task, whatever the adapters answer.
pub process_batch-returns :
    (config : RelayerConfig) (answers : ℕ → Adapter → ChainWatchConfig → ℕ → Answer)
    (tasks : List RelayTask)
    → AllNew tasks
    → (results : List Dispatched) × (process_batch config answers tasks ≡ some results)
      × (length results ≡ length tasks)
unfolding process_batch
process_batch-returns config answers [] all = ([], refl, refl)
process_batch-returns config answers (task ∷ tasks) all =
    let (out, e) = dispatch-total config (answers 0) task all.0 in
    let (results, e', size) = process_batch-returns config (λ i. answers (suc i)) tasks all.1 in
    (out.0 ∷ results, rw (e, e') refl, omega (arith, size))

-- The documented backoff is at most 32 seconds, and doubles up to the fifth attempt.
pub backoff_duration-capped :
    (attempt : ℕ)
    → (backoff_duration attempt ≤ 32000)
      × (attempt < 5 → backoff_duration (attempt + 1) ≡ 2 * backoff_duration attempt)
unfolding backoff_duration
backoff_duration-capped zero = (omega arith, λ h. refl)
backoff_duration-capped (suc zero) = (omega arith, λ h. refl)
backoff_duration-capped (suc (suc zero)) = (omega arith, λ h. refl)
backoff_duration-capped (suc (suc (suc zero))) = (omega arith, λ h. refl)
backoff_duration-capped (suc (suc (suc (suc zero)))) = (omega arith, λ h. refl)
backoff_duration-capped (suc (suc (suc (suc (suc n))))) = (ground arith, λ h. absurd (omega arith))
