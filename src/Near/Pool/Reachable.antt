-- ===== src/Near/Pool/Reachable.antt =====
-- The state that a pool has reached against its history: the tree, the nullifiers and the balance.
use sl.Prelude.{
  ℕ, zero, suc, ◌+◌, ◌≡◌, refl, sym, ap, ◌∙◌, true, false, not, ◌&&◌, Option, some, List, [], ◌∷◌,
  ◌++◌, Text, arith, text_beq, text_eq, nat_eq, take, Map, insert, no_entries,
}
use sl.Merkle.{empty_node, empty_node_inside, start-IsLog}
use sl.Ring.{contains}
use sl.Panic.{◌>>=◌, >>=-eq-some, some-injective}
use sl.Near.State.{PrivacyPool, Context, Transfer}
use sl.Near.Hash.{Host, zero_hash_text, poseidon_hash_hex}
use sl.Near.Tree.{tree_depth, root_history_size, is_known_root}
use sl.Near.Tree.Insert.{HasLog, roots_after, placed, placed-HasLog, is_known_root-HasLog}
use sl.Near.Nullifiers.{is_some}
use sl.Distinct.{is_distinct, contains-append}
use sl.Near.Nullifiers.Spend.{marked-lookup, all_fresh-is_distinct, spent_state}
use sl.Near.Pool
use sl.Near.Pool.{init_subtrees, is_nullifier_spent, get_latest_root}
use sl.Near.Pool.Method.{Method, call}
use sl.Near.Pool.Effects.{
  Deposits, deposit-eq-some, Moves, transfer-eq-some, Withdraws, withdraw-eq-some, Closes,
  finalize_epoch-eq-some, set_authorized_relayer-eq-some, sync_epoch_root-eq-some,
}
use sl.Near.Pool.History.{
  History, no_history, newest_first, total_paid, after, Reachable, created, called,
}

abbrev pays_nothing : PrivacyPool → Option (List Transfer × PrivacyPool)
pays_nothing s = some ([], s)

-- A method that pays nothing.
pub quiet :
    (o : Option PrivacyPool) {transfers : List Transfer} {s' : PrivacyPool}
    → (o >>= pays_nothing) ≡ some (transfers, s')
    → (o ≡ some s') × (transfers ≡ [])
quiet o h =
    let (t, e, h1) = >>=-eq-some o _ h in
    let same = some-injective h1 in
    (
      e ∙ ap (λ (p : List Transfer × PrivacyPool). some (p.1)) same,
      sym (ap (λ (p : List Transfer × PrivacyPool). p.0) same),
    )

module _ (host : Host) where
  pub withdrawn :
      (context : Context) (p r : Text) (ns outs : List Text) (to : Text) (v : ℕ) (s : PrivacyPool)
      {transfers : List Transfer} {s' : PrivacyPool}
      → call host context (Method.withdraw p r ns outs to v) s ≡ some (transfers, s')
      → (out : Transfer × PrivacyPool) × (Pool.withdraw host p r ns outs to v s ≡ some out)
        × (transfers ≡ out.0 ∷ [])
        × (s' ≡ out.1)
  unfolding call
  withdrawn context p r ns outs to v s h =
      let (out, e, h1) = >>=-eq-some (Pool.withdraw host p r ns outs to v s) _ h in
      let same = some-injective h1 in
      (
        out,
        e,
        sym (ap (λ (t : List Transfer × PrivacyPool). t.0) same),
        sym (ap (λ (t : List Transfer × PrivacyPool). t.1) same),
      )

  -- The state stands for the history.
  pub record IsFaithful (h : History) (s : PrivacyPool) : Type 0 where
    pub tree : HasLog host h.leaves s
    pub marks : (k : Text) → is_some (s.nullifier_spent k) ≡ contains k h.spent
    pub once : is_distinct h.spent ≡ true
    pub balance : s.pool_balance + h.paid ≡ h.received

  init_subtrees-root :
      (left level : ℕ) (z : Text) (filled : Map ℕ Text)
      → (init_subtrees host left level z filled).0 ≡ empty_node (poseidon_hash_hex host) z left
  unfolding init_subtrees empty_node
  init_subtrees-root zero level z filled = refl
  init_subtrees-root (suc left) level z filled =
      init_subtrees-root left (suc level) (poseidon_hash_hex host z z) (insert level z filled)
      ∙ empty_node_inside (poseidon_hash_hex host) z left

  new-IsFaithful :
      (context : Context) (governance : Text) (chain_id app_id : ℕ) (s : PrivacyPool)
      → Pool.new host context false governance chain_id app_id ≡ some s
      → IsFaithful no_history s
  unfolding Pool.new
  new-IsFaithful context governance chain_id app_id s h = rw (← some-injective h) (record {
    tree = rw (init_subtrees-root tree_depth 0 zero_hash_text no_entries) (
        start-IsLog (poseidon_hash_hex host) zero_hash_text root_history_size tree_depth
          (init_subtrees host tree_depth 0 zero_hash_text no_entries).1 (omega arith));
    marks = λ k. refl;
    once = refl;
    balance = refl;
  })

  Deposits-IsFaithful :
      {context : Context} {c : Text} {h : History} {s s' : PrivacyPool}
      → Deposits host context c s s'
      → IsFaithful h s
      → IsFaithful
          (record h {
            leaves = c ∷ h.leaves;
            received = h.received + context.attached_deposit;
            paid = h.paid + 0;
          })
          s'
  Deposits-IsFaithful {context} {c} {h} {s} done ok = rw done.written (record {
    tree = placed-HasLog host c h.leaves s ok.tree done.room;
    marks = ok.marks;
    once = ok.once;
    balance = omega (arith, ok.balance);
  })

  Moves-HasLog :
      {p r : Text} {ns outs : List Text} {log : List Text} {s s' : PrivacyPool}
      → Moves host p r ns outs s s'
      → HasLog host log s
      → HasLog host (newest_first outs log) s'
  Moves-HasLog {ns} {log} {s} done tree =
      let first : HasLog host (done.out0 ∷ log) (placed host done.out0 (spent_state ns s)) =
        placed-HasLog host done.out0 log (spent_state ns s) tree (omega (arith, done.room)) in
      rw (done.outs_are, done.written)
        (placed-HasLog host done.out1 (done.out0 ∷ log) (placed host done.out0 (spent_state ns s))
          first done.room)

  Moves-IsFaithful :
      {p r : Text} {ns outs : List Text} {h : History} {s s' : PrivacyPool}
      → Moves host p r ns outs s s'
      → IsFaithful h s
      → IsFaithful
          (record h {
            leaves = newest_first outs h.leaves;
            spent = h.spent ++ ns;
            paid = h.paid + 0;
          })
          s'
  Moves-IsFaithful {ns} {h} {s} {s'} done ok = record {
    tree = Moves-HasLog done ok.tree;
    marks = λ k. rw done.written (
        marked-lookup ns s.nullifier_spent k
        ∙ ground (arith, ok.marks k, contains-append k h.spent ns));
    once = all_fresh-is_distinct ns h.spent s.nullifier_spent ok.marks ok.once done.fresh;
    balance = rw done.written (omega (arith, ok.balance));
  }

  Withdraws-IsFaithful :
      {p r : Text} {ns outs : List Text} {to : Text} {v : ℕ} {h : History} {s : PrivacyPool}
      {out : Transfer × PrivacyPool}
      → Withdraws host p r ns outs to v s out
      → IsFaithful h s
      → IsFaithful
          (record h {
            leaves = newest_first outs h.leaves;
            spent = h.spent ++ ns;
            paid = h.paid + total_paid (out.0 ∷ []);
          })
          out.1
  Withdraws-IsFaithful {v} {h} {s} {out} done ok =
      let base = Moves-IsFaithful done.moves ok in
      let kept : done.after.pool_balance ≡ s.pool_balance =
        ap (λ (t : PrivacyPool). t.pool_balance) done.moves.written in
      rw done.written (record {
        tree = base.tree;
        marks = base.marks;
        once = base.once;
        balance = omega (arith, kept, ok.balance, done.covered);
      })

  Closes-IsFaithful :
      {context : Context} {h : History} {s s' : PrivacyPool}
      → Closes host context s s'
      → IsFaithful h s
      → IsFaithful (record h { paid = h.paid + 0 }) s'
  Closes-IsFaithful done ok = rw done.written (record {
    tree = ok.tree;
    marks = ok.marks;
    once = ok.once;
    balance = omega (arith, ok.balance);
  })

  call-IsFaithful :
      (context : Context) (m : Method) (h : History) (s : PrivacyPool) (transfers : List Transfer)
      (s' : PrivacyPool)
      → call host context m s ≡ some (transfers, s')
      → IsFaithful h s
      → IsFaithful (after context m transfers h) s'
  unfolding call
  call-IsFaithful context (Method.deposit c) h s transfers s' e ok =
      let (done, none_paid) = quiet (Pool.deposit host context c s) e in
      rw none_paid (Deposits-IsFaithful (deposit-eq-some host context c s s' done) ok)
  call-IsFaithful context (Method.transfer p r ns outs) h s transfers s' e ok =
      let (done, none_paid) = quiet (Pool.transfer host p r ns outs s) e in
      rw none_paid (Moves-IsFaithful (transfer-eq-some host p r ns outs s s' done) ok)
  call-IsFaithful context (Method.withdraw p r ns outs to v) h s transfers s' e ok =
      let (out, done, paid, same) = withdrawn context p r ns outs to v s e in
      rw (paid, same) (Withdraws-IsFaithful (withdraw-eq-some host p r ns outs to v s out done) ok)
  call-IsFaithful context (Method.set_authorized_relayer r) h s transfers s' e ok =
      let (done, none_paid) = quiet (Pool.set_authorized_relayer context r s) e in
      rw (none_paid, set_authorized_relayer-eq-some context r s s' done)
        (record {
          tree = ok.tree;
          marks = ok.marks;
          once = ok.once;
          balance = omega (arith, ok.balance);
        })
  call-IsFaithful context Method.finalize_epoch h s transfers s' e ok =
      let (done, none_paid) = quiet (Pool.finalize_epoch host context s) e in
      rw none_paid (Closes-IsFaithful (finalize_epoch-eq-some host context s s' done) ok)
  call-IsFaithful context (Method.sync_epoch_root chain id root) h s transfers s' e ok =
      let (done, none_paid) = quiet (Pool.sync_epoch_root context chain id root s) e in
      rw (none_paid, sync_epoch_root-eq-some context chain id root s s' done)
        (record {
          tree = ok.tree;
          marks = ok.marks;
          once = ok.once;
          balance = omega (arith, ok.balance);
        })

  pub Reachable-IsFaithful : {h : History} {s : PrivacyPool} → Reachable host h s → IsFaithful h s
  Reachable-IsFaithful (created context g c a s e) = new-IsFaithful context g c a s e
  Reachable-IsFaithful (called {h} {s} reached context m transfers s' e) =
      call-IsFaithful context m h s transfers s' e (Reachable-IsFaithful reached)

  -- In a pool that calls have reached, a root is known exactly if it is not the zero text and is the
  -- root of the full tree over one of the last 100 versions of the log of accepted leaves.
  pub is_known_root-Reachable :
      (h : History) (s : PrivacyPool) (root : Text)
      → Reachable host h s
      → is_known_root s root
        ≡ not (text_beq root zero_hash_text)
          && contains root (take root_history_size (roots_after host h.leaves))
  is_known_root-Reachable h s root reached =
      is_known_root-HasLog host h.leaves s root (Reachable-IsFaithful reached).tree

  -- In a pool that calls have reached, the nullifiers of accepted transfers and withdrawals are
  -- pairwise different, and `is_nullifier_spent` is true of exactly these.
  pub is_nullifier_spent-Reachable :
      (h : History) (s : PrivacyPool)
      → Reachable host h s
      → (is_distinct h.spent ≡ true) × ((n : Text) → is_nullifier_spent s n ≡ contains n h.spent)
  unfolding is_nullifier_spent
  is_nullifier_spent-Reachable h s reached =
      let ok = Reachable-IsFaithful reached in (ok.once, ok.marks)

  -- In a pool that calls have reached, the balance and all that withdrawals have paid make up all
  -- that deposits have brought.
  pub pool_balance-Reachable :
      (h : History) (s : PrivacyPool) → Reachable host h s → s.pool_balance + h.paid ≡ h.received
  pool_balance-Reachable h s reached = (Reachable-IsFaithful reached).balance
