-- ===== src/Pallet/Solvent.antt =====
-- What the account of the pool of pallets/privacy-pool holds, against the balance that the pool has stored.
use sl.Prelude.{
  ℕ, ◌+◌, ◌-◌, ◌*◌, ◌<◌, ◌≤◌, ◌≡◌, ◌≢◌, sym, ap, ◌∙◌, subst, true, false, some, Text, arith,
  text_beq, text_beq_iff, inl, inr, Bool-cases,
}
use sl.Fallible.{ok, >>=-eq-ok, ok-injective, refuse_if, ok_or}
use sl.Pallet.State.{
  Storage, Origin, signed, Balances, IsCurrency, epoch_not_ready, epoch_already_finalized,
  invalid_nullifier_root,
}
use sl.Pallet.Poseidon.{zero_h256}
use sl.Pallet.Tree.Insert.{IsSane}
use sl.Pallet.Pool
use sl.Pallet.Pool.{saturating_add, ensure_root}
use sl.Pallet.Effects.{Moves, deposit-eq-ok, transfer-eq-ok, withdraw-eq-ok}
use sl.Pallet.Call.{Pair, Call, Runtime, call, History, Reachable, genesis, called, elsewhere}
use sl.Pallet.Faithful.{settled, Reachable-IsFaithful}

-- How many withdrawals a call makes.
abbrev pub withdraws : Call → ℕ
withdraws (Call.withdraw p r ns outs to v) = 1
withdraws other = 0

saturating_add_le : (a b : ℕ) → saturating_add a b ≤ a + b
unfolding saturating_add
saturating_add_le a b = ground arith

module _ (runtime : Runtime) where
  -- How many withdrawals were made on the way to a state.
  abbrev pub withdrawals : {h : History} {s : Storage} {b : Balances} → Reachable runtime h s b → ℕ
  withdrawals (genesis b) = 0
  withdrawals (called reached origin block c s' b' unkeyed e) = withdrawals reached + withdraws c
  withdrawals (elsewhere reached b' more) = withdrawals reached

  -- What may be missing after some withdrawals: each may have dropped a rest below the minimum.
  abbrev pub shortfall : ℕ → ℕ
  shortfall n = runtime.currency.minimum_balance * n

  module _ (sane : IsSane runtime.config) (law : IsCurrency runtime.currency) where
    deposit_covered :
        (who : Text) (v bal lost : ℕ) (b b' : Balances)
        → who ≢ runtime.config.pool_account
        → runtime.currency.transfer who runtime.config.pool_account v true b ≡ some b'
        → bal ≤ b runtime.config.pool_account + lost
        → saturating_add bal v ≤ b' runtime.config.pool_account + lost
    deposit_covered who v bal lost b b' ne moved le =
        let credit = law.credits who runtime.config.pool_account v true b b' moved ne in
        omega (arith, credit, saturating_add_le bal v)

    withdraw_covered :
        (to : Text) (v bal lost : ℕ) (b b' : Balances)
        → runtime.currency.transfer runtime.config.pool_account to v false b ≡ some b'
        → bal ≤ b runtime.config.pool_account + lost
        → bal - v ≤ b' runtime.config.pool_account + (lost + runtime.currency.minimum_balance)
    withdraw_covered to v bal lost b b' moved le =
        elim (Bool-cases (text_beq runtime.config.pool_account to)) [
          | inl own ↦
              let same : runtime.config.pool_account ≡ to =
                (text_beq_iff runtime.config.pool_account to).0 own in
              let kept = law.same runtime.config.pool_account v false b b' (
                subst
                  (λ t. runtime.currency.transfer runtime.config.pool_account t v false b ≡ some b')
                  (sym same) moved) in
              omega (arith, kept)
          | inr other ↦
              let ne : runtime.config.pool_account ≢ to =
                λ same. ground (arith, text_beq_iff runtime.config.pool_account to) in
              elim (law.debits runtime.config.pool_account to v false b b' moved ne) [
                | inl exact ↦ omega (arith, exact)
                | inr reaped ↦ omega (arith, reaped.1, reaped.2)
              ]
        ]

    Moves-balance :
        (r : Text) (ns outs : Pair) (s last : Storage)
        → Moves runtime.config sane r ns outs s last
        → last.pool_balance ≡ s.pool_balance
    Moves-balance r ns outs s last moves =
        ap (λ (t : Storage). t.pool_balance) moves.inserts.written
        ∙ ap (λ (t : Storage). t.pool_balance) moves.spends.written

    finalize-balance :
        (origin : Origin) (block : ℕ) (s s' : Storage)
        → Pool.finalize_epoch origin block s ≡ ok s'
        → s'.pool_balance ≡ s.pool_balance
    unfolding Pool.finalize_epoch
    finalize-balance origin block s s' done =
        let (u1, e1, h1) = >>=-eq-ok (ensure_root origin) _ done in
        let (epoch, e2, h2) =
          >>=-eq-ok (ok_or (s.epochs s.current_epoch_id) epoch_not_ready) _ h1 in
        let (u3, e3, h3) = >>=-eq-ok (refuse_if epoch.finalized epoch_already_finalized) _ h2 in
        sym (ap (λ (t : Storage). t.pool_balance) (ok-injective h3))

    sync-balance :
        (origin : Origin) (para id : ℕ) (r : Text) (s s' : Storage)
        → Pool.sync_epoch_root origin para id r s ≡ ok s'
        → s'.pool_balance ≡ s.pool_balance
    unfolding Pool.sync_epoch_root
    sync-balance origin para id r s s' done =
        let (u1, e1, h1) = >>=-eq-ok (ensure_root origin) _ done in
        let (u2, e2, h2) =
          >>=-eq-ok (refuse_if (text_beq r zero_h256) invalid_nullifier_root) _ h1 in
        sym (ap (λ (t : Storage). t.pool_balance) (ok-injective h2))

    -- A call that moves no tokens.
    still_covered :
        (s s' : Storage) (b b' : Balances) (n : ℕ)
        → s'.pool_balance ≡ s.pool_balance
        → b ≡ b'
        → s.pool_balance ≤ b runtime.config.pool_account + shortfall n
        → s'.pool_balance ≤ b' runtime.config.pool_account + shortfall (n + 0)
    still_covered s s' b b' n same kept le =
        let at = ap (λ (f : Balances). f runtime.config.pool_account) kept in
        let none_more : n + 0 ≡ n = omega arith in rw none_more (omega (arith, same, at, le))

    call_covered :
        (origin : Origin) (block : ℕ) (c : Call) (s : Storage) (b : Balances) (s' : Storage)
        (b' : Balances) (n : ℕ)
        → s.current_root_index < runtime.config.root_history_size
        → origin ≢ signed runtime.config.pool_account
        → call runtime origin block c s b ≡ ok (s', b')
        → s.pool_balance ≤ b runtime.config.pool_account + shortfall n
        → s'.pool_balance ≤ b' runtime.config.pool_account + shortfall (n + withdraws c)
    unfolding call
    call_covered origin block (Call.deposit c v) s b s' b' n index unkeyed e le =
        let done =
          deposit-eq-ok runtime.config sane runtime.currency origin c v s b (s', b') index e in
        let ne : done.who ≢ runtime.config.pool_account =
          λ same. unkeyed (done.by ∙ ap signed same) in
        let none_more : n + 0 ≡ n = omega arith in
        rw (none_more, done.written)
          (deposit_covered done.who v s.pool_balance (shortfall n) b b' ne done.moved le)
    call_covered origin block (Call.transfer p r ns outs) s b s' b' n index unkeyed e le =
        let (done, same) =
          settled runtime sane
            (Pool.transfer runtime.config runtime.blake2_256 origin p r ns outs s) b b' e in
        still_covered s s' b b' n
          (Moves-balance r ns outs s s' (
            transfer-eq-ok runtime.config sane runtime.blake2_256 origin p r ns outs s s' index
              done))
          same le
    call_covered origin block (Call.withdraw p r ns outs to v) s b s' b' n index unkeyed e le =
        let done =
          withdraw-eq-ok runtime.config sane runtime.blake2_256 runtime.currency origin p r ns outs
            to v s b (s', b') index e in
        let moved = Moves-balance r ns outs s done.last done.moves in
        let one_more : shortfall (n + 1) ≡ shortfall n + runtime.currency.minimum_balance =
          omega arith in
        rw (one_more, done.written)
          (withdraw_covered to v done.last.pool_balance (shortfall n) b b' done.moved
            (omega (arith, moved, le)))
    call_covered origin block Call.finalize_epoch s b s' b' n index unkeyed e le =
        let (done, same) = settled runtime sane (Pool.finalize_epoch origin block s) b b' e in
        still_covered s s' b b' n (finalize-balance origin block s s' done) same le
    call_covered origin block (Call.sync_epoch_root para id r) s b s' b' n index unkeyed e le =
        let (done, same) = settled runtime sane (Pool.sync_epoch_root origin para id r s) b b' e in
        still_covered s s' b b' n (sync-balance origin para id r s s' done) same le

    -- In a pool that calls have reached, in a runtime where powers and indices do not wrap and whose
    -- currency credits what it is asked to and drops no more than a rest below its minimum, the account
    -- of the pool holds the balance that the pool has stored, less at most the minimum for each
    -- withdrawal.
    pub solvent-Reachable :
        {h : History} {s : Storage} {b : Balances} (reached : Reachable runtime h s b)
        → s.pool_balance ≤ b runtime.config.pool_account + shortfall (withdrawals reached)
    unfolding Pool.build
    solvent-Reachable (genesis b) = omega arith
    solvent-Reachable (called {h} {s} {b} reached origin block c s' b' unkeyed e) =
        call_covered origin block c s b s' b' (withdrawals reached)
          (Reachable-IsFaithful runtime sane reached).tree.ring.in_range unkeyed e
          (solvent-Reachable reached)
    solvent-Reachable (elsewhere reached b' more) = omega (arith, solvent-Reachable reached)
