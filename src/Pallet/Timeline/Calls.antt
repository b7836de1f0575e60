-- ===== src/Pallet/Timeline/Calls.antt =====
-- The epochs of a pool of pallets/privacy-pool/src/lib.rs in every state that calls reach.
use sl.Prelude.{
  ℕ, ◌+◌, ◌%◌, ◌<◌, ◌≡◌, refl, sym, ap, ◌∙◌, subst, [], ◌∷◌, ◌++◌, Text, arith, text_beq,
}
use sl.Prelude.Words.{u64_mod}
use native.Mathlib.Nat.{mod-eq_of_lt}
use sl.Fallible.{ok, >>=-eq-ok, ok-injective, refuse_if, ok_or}
use sl.Pallet.State.{
  Storage, Origin, Balances, EpochInfo, epoch_not_ready, epoch_already_finalized,
  invalid_nullifier_root,
}
use sl.Pallet.Poseidon.{zero_h256}
use sl.Pallet.Tree.Insert.{IsSane}
use sl.Pallet.Nullifiers.{nullifiers_of}
use sl.Pallet.Pool
use sl.Pallet.Pool.{ensure_root}
use sl.Pallet.Effects.{deposit-eq-ok, Moves, transfer-eq-ok, withdraw-eq-ok}
use sl.Pallet.Call.{
  Pair, Call, Runtime, call, History, after, Reachable, genesis, called, elsewhere,
}
use sl.Pallet.Faithful.{settled, Reachable-IsFaithful}
use sl.Pallet.Timeline.{
  epochs_of, push, close, IsTimeline, build-IsTimeline, push-IsTimeline, close-IsTimeline,
}

-- How many epochs a call closes.
abbrev pub closes : Call → ℕ
closes Call.finalize_epoch = 1
closes other = 0

module _ (runtime : Runtime) (sane : IsSane runtime.config) where
  -- How many epochs were closed on the way to a state.
  abbrev pub closings : {h : History} {s : Storage} {b : Balances} → Reachable runtime h s b → ℕ
  closings (genesis b) = 0
  closings (called reached origin block c s' b' unkeyed e) = closings reached + closes c
  closings (elsewhere reached b' more) = closings reached

  Moves-epochs :
      (r : Text) (ns outs : Pair) (s last : Storage)
      → Moves runtime.config sane r ns outs s last
      → epochs_of last ≡ push ns.1 (push ns.0 (epochs_of s))
  Moves-epochs r ns outs s last moves =
      ap epochs_of (moves.inserts.written) ∙ ap epochs_of moves.spends.written

  finalize_epoch-closes :
      (origin : Origin) (block : ℕ) (s s' : Storage)
      → s.current_epoch_id + 1 < u64_mod
      → Pool.finalize_epoch origin block s ≡ ok s'
      → (epoch : EpochInfo) × (epochs_of s' ≡ close block epoch (epochs_of s))
  unfolding Pool.finalize_epoch nullifiers_of
  finalize_epoch-closes origin block s s' fits done =
      let (u1, e1, h1) = >>=-eq-ok (ensure_root origin) _ done in
      let (epoch, e2, h2) = >>=-eq-ok (ok_or (s.epochs s.current_epoch_id) epoch_not_ready) _ h1 in
      let (u3, e3, h3) = >>=-eq-ok (refuse_if epoch.finalized epoch_already_finalized) _ h2 in
      let next : (s.current_epoch_id + 1) % u64_mod ≡ s.current_epoch_id + 1 = mod-eq_of_lt fits in
      (epoch, sym (ap epochs_of (ok-injective h3)) ∙ (rw next refl))

  -- Calls that close no epoch and spend nothing leave the epochs alone.
  sync-epochs :
      (origin : Origin) (para id : ℕ) (r : Text) (s s' : Storage)
      → Pool.sync_epoch_root origin para id r s ≡ ok s'
      → epochs_of s' ≡ epochs_of s
  unfolding Pool.sync_epoch_root
  sync-epochs origin para id r s s' done =
      let (u1, e1, h1) = >>=-eq-ok (ensure_root origin) _ done in
      let (u2, e2, h2) = >>=-eq-ok (refuse_if (text_beq r zero_h256) invalid_nullifier_root) _ h1 in
      sym (ap epochs_of (ok-injective h2))

  -- The timeline of a state with its number of closed epochs.
  record IsCounted (h : History) (s : Storage) (n : ℕ) : Type 0 where
    count : s.current_epoch_id ≡ n
    line : IsTimeline h.spent (epochs_of s)

  spent-IsCounted :
      (r : Text) (ns outs : Pair) (h : History) (s last : Storage) (n : ℕ)
      → Moves runtime.config sane r ns outs s last
      → IsCounted h s n
      → IsCounted
          (record h {
            leaves = outs.1 ∷ outs.0 ∷ h.leaves;
            spent = (h.spent ++ ns.0 ∷ []) ++ ns.1 ∷ [];
          })
          last
          n
  spent-IsCounted r ns outs h s last n moves it =
      let moved = Moves-epochs r ns outs s last moves in
      record {
        count = ap (λ v. v.current) moved ∙ it.count;
        line = subst (IsTimeline ((h.spent ++ ns.0 ∷ []) ++ ns.1 ∷ [])) (sym moved) (
            push-IsTimeline ns.1 (h.spent ++ ns.0 ∷ []) (push ns.0 (epochs_of s))
              (push-IsTimeline ns.0 h.spent (epochs_of s) it.line));
      }

  same-IsCounted :
      (h h' : History) (s s' : Storage) (n m : ℕ)
      → epochs_of s' ≡ epochs_of s
      → h'.spent ≡ h.spent
      → m ≡ n
      → IsCounted h s n
      → IsCounted h' s' m
  same-IsCounted h h' s s' n m same spent closed it = record {
    count = ap (λ v. v.current) same ∙ (it.count ∙ sym closed);
    line = rw (same, spent) it.line;
  }

  call-IsCounted :
      (origin : Origin) (block : ℕ) (c : Call) (h : History) (s : Storage) (b : Balances)
      (s' : Storage) (b' : Balances) (n : ℕ)
      → s.current_root_index < runtime.config.root_history_size
      → n + closes c < u64_mod
      → call runtime origin block c s b ≡ ok (s', b')
      → IsCounted h s n
      → IsCounted (after c h) s' (n + closes c)
  unfolding call
  call-IsCounted origin block (Call.deposit c v) h s b s' b' n index fits e it =
      let done =
        deposit-eq-ok runtime.config sane runtime.currency origin c v s b (s', b') index e in
      same-IsCounted h (after (Call.deposit c v) h) s s' n (n + 0) (ap epochs_of done.written) refl
        (omega arith) it
  call-IsCounted origin block (Call.transfer p r ns outs) h s b s' b' n index fits e it =
      let (done, same) =
        settled runtime sane (Pool.transfer runtime.config runtime.blake2_256 origin p r ns outs s)
          b b' e in
      subst (IsCounted (after (Call.transfer p r ns outs) h) s') (omega arith) (
        spent-IsCounted r ns outs h s s' n
          (transfer-eq-ok runtime.config sane runtime.blake2_256 origin p r ns outs s s' index done)
          it)
  call-IsCounted origin block (Call.withdraw p r ns outs to v) h s b s' b' n index fits e it =
      let done =
        withdraw-eq-ok runtime.config sane runtime.blake2_256 runtime.currency origin p r ns outs to
          v s b (s', b') index e in
      let moved = spent-IsCounted r ns outs h s done.last n done.moves it in
      same-IsCounted (after (Call.withdraw p r ns outs to v) h)
        (after (Call.withdraw p r ns outs to v) h) done.last s' n (n + 0)
        (ap epochs_of done.written) refl (omega arith) moved
  call-IsCounted origin block Call.finalize_epoch h s b s' b' n index fits e it =
      let (done, same) = settled runtime sane (Pool.finalize_epoch origin block s) b b' e in
      let (epoch, closed) =
        finalize_epoch-closes origin block s s' (omega (arith, fits, it.count)) done in
      record {
        count = ap (λ v. v.current) closed ∙ ap (λ (k : ℕ). k + 1) it.count;
        line = rw closed (close-IsTimeline block epoch h.spent (epochs_of s) it.line);
      }
  call-IsCounted origin block (Call.sync_epoch_root para id r) h s b s' b' n index fits e it =
      let (done, same) = settled runtime sane (Pool.sync_epoch_root origin para id r s) b b' e in
      same-IsCounted h h s s' n (n + 0) (sync-epochs origin para id r s s' done) refl (omega arith)
        it

  Reachable-IsCounted :
      {h : History} {s : Storage} {b : Balances} (reached : Reachable runtime h s b)
      → closings reached < u64_mod
      → IsCounted h s (closings reached)
  unfolding Pool.build
  Reachable-IsCounted (genesis b) fits = record {
    count = refl;
    line = build-IsTimeline runtime.config;
  }
  Reachable-IsCounted (called {h} {s} {b} reached origin block c s' b' unkeyed e) fits =
      call-IsCounted origin block c h s b s' b' (closings reached)
        (Reachable-IsFaithful runtime sane reached).tree.ring.in_range fits e
        (Reachable-IsCounted reached (omega (arith, fits)))
  Reachable-IsCounted (elsewhere reached b' more) fits =
      let it = Reachable-IsCounted reached fits in record { count = it.count; line = it.line }

  -- In a pool that calls have reached, in a runtime where powers and indices do not wrap, if fewer than
  -- 2^64 epochs were closed, the current epoch is the number of those closed; each epoch before it is stored as finalized, with the root and the number
  -- (modulo 2^32) of the nullifiers that its list holds; the current one is stored and open; none is
  -- stored after it, and nothing is listed there; and the lists of all epochs, one after another, are
  -- the spent nullifiers.
  pub epoch_lists-Reachable :
      {h : History} {s : Storage} {b : Balances} (reached : Reachable runtime h s b)
      → closings reached < u64_mod
      → (s.current_epoch_id ≡ closings reached) × IsTimeline h.spent (epochs_of s)
  epoch_lists-Reachable reached fits =
      let it = Reachable-IsCounted reached fits in (it.count, it.line)
