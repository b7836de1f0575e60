-- ===== src/Pallet/Faithful.antt =====
-- The storage of pallets/privacy-pool against the history of the calls it has accepted.
use sl.Prelude.{
  ℕ, zero, suc, ◌≡◌, refl, sym, ap, ◌∙◌, Bool, true, false, List, [], ◌∷◌, ◌++◌, Text, arith, Map,
  insert, no_entries, text_eq, nat_eq, text_beq,
}
use sl.Merkle.{unwrap_or, empty_node, empty_node_inside, start-IsLog}
use sl.Ring.{contains}
use sl.Distinct.{is_distinct, contains-append, is_distinct-append_one}
use sl.Fallible.{ok, >>=-eq-ok, ok-injective, refuse_if, ok_or}
use sl.Pallet.State.{
  Config, Storage, Origin, Balances, Dispatch, epoch_not_ready, epoch_already_finalized,
  invalid_nullifier_root,
}
use sl.Pallet.Poseidon.{poseidon_hash, zero_h256}
use sl.Pallet.Tree.Insert.{IsSane, placed, HasLog, placed-HasLog}
use sl.Pallet.Nullifiers.{is_spent}
use sl.Pallet.Pool
use sl.Pallet.Pool.{saturating_add, init_subtrees, ensure_root}
use sl.Pallet.Effects.{with_spent, deposit-eq-ok, Moves, transfer-eq-ok, withdraw-eq-ok}
use sl.Pallet.Call.{
  Pair, Call, Runtime, call, with_balances, History, no_history, after, Reachable, genesis, called,
  elsewhere,
}

-- The storage stands for the history.
pub record IsFaithful (config : Config) (h : History) (s : Storage) : Type 0 where
  pub tree : HasLog config h.leaves s
  pub marks : (k : Text) → is_spent s k ≡ contains k h.spent
  pub once : is_distinct h.spent ≡ true

init_subtrees-root :
    (left level : ℕ) (z : Text) (filled : Map ℕ Text)
    → (init_subtrees left level z filled).0 ≡ empty_node poseidon_hash z left
unfolding init_subtrees empty_node
init_subtrees-root zero level z filled = refl
init_subtrees-root (suc left) level z filled =
    init_subtrees-root left (suc level) (poseidon_hash z z) (insert level z filled)
    ∙ empty_node_inside poseidon_hash z left

build-IsFaithful :
    (config : Config) → IsSane config → IsFaithful config no_history (Pool.build config)
unfolding Pool.build is_spent
build-IsFaithful config sane = record {
  tree = rw (init_subtrees-root config.tree_depth 0 zero_h256 no_entries) (
      start-IsLog poseidon_hash zero_h256 config.root_history_size config.tree_depth
        (init_subtrees config.tree_depth 0 zero_h256 no_entries).1 sane.slots);
  marks = λ k. refl;
  once = refl;
}

marks_step :
    (n : Text) (seen : List Text) (s : Storage)
    → ((k : Text) → is_spent s k ≡ contains k seen)
    → (k : Text) → is_spent (with_spent n s) k ≡ contains k (seen ++ n ∷ [])
unfolding is_spent
marks_step n seen s marks k = ground (arith, marks k, contains-append k seen (n ∷ []))

spent_same :
    (s s' : Storage) (k : Text)
    → s'.nullifier_spent ≡ s.nullifier_spent
    → is_spent s' k ≡ is_spent s k
unfolding is_spent
spent_same s s' k e = ap (λ (m : Map Text Bool). unwrap_or false (m k)) e

module _ (runtime : Runtime) (sane : IsSane runtime.config) where
  -- The nullifiers and leaves of a transfer or a withdrawal.
  Moves-IsFaithful :
      (r : Text) (ns outs : Pair) (h : History) (s last : Storage)
      → Moves runtime.config sane r ns outs s last
      → IsFaithful runtime.config h s
      → IsFaithful runtime.config
          (record h {
            leaves = outs.1 ∷ outs.0 ∷ h.leaves;
            spent = (h.spent ++ ns.0 ∷ []) ++ ns.1 ∷ [];
          })
          last
  unfolding is_spent
  Moves-IsFaithful r ns outs h s last moves stands =
      let spent : Storage = with_spent ns.1 (with_spent ns.0 s) in
      let marks0 = marks_step ns.0 h.spent s stands.marks in
      let marks1 = marks_step ns.1 (h.spent ++ ns.0 ∷ []) (with_spent ns.0 s) marks0 in
      let start : HasLog runtime.config h.leaves moves.mid = rw moves.spends.written stands.tree in
      let first =
        placed-HasLog runtime.config outs.0 h.leaves moves.mid start moves.inserts.room_0 in
      let second =
        placed-HasLog runtime.config outs.1 (outs.0 ∷ h.leaves)
          (placed runtime.config outs.0 moves.mid) first moves.inserts.room_1 in
      let all : last ≡ placed runtime.config outs.1 (placed runtime.config outs.0 spent) =
        moves.inserts.written
        ∙ ap (λ (t : Storage). placed runtime.config outs.1 (placed runtime.config outs.0 t))
            moves.spends.written in
      record {
        tree = rw moves.inserts.written second;
        marks = λ k. ap (λ (t : Storage). unwrap_or false (t.nullifier_spent k)) all ∙ marks1 k;
        once =
            is_distinct-append_one (h.spent ++ ns.0 ∷ []) ns.1
              (is_distinct-append_one h.spent ns.0 stands.once
                (sym (stands.marks ns.0) ∙ moves.spends.fresh_0))
              (sym (marks0 ns.1) ∙ moves.spends.fresh_1);
      }

  -- The storage stays but for what the history does not read.
  same_pool :
      (h : History) (s s' : Storage)
      → s'.next_leaf_index ≡ s.next_leaf_index
      → s'.current_root_index ≡ s.current_root_index
      → s'.filled_subtrees ≡ s.filled_subtrees
      → s'.roots ≡ s.roots
      → s'.nullifier_spent ≡ s.nullifier_spent
      → IsFaithful runtime.config h s
      → IsFaithful runtime.config h s'
  same_pool h s s' e0 e1 e2 e3 e4 stands = record {
    tree = rw (e0, e1, e2, e3) stands.tree;
    marks = λ k. spent_same s s' k e4 ∙ stands.marks k;
    once = stands.once;
  }

  pub settled :
      (o : Dispatch Storage) (b b' : Balances) {s' : Storage}
      → with_balances b o ≡ ok (s', b')
      → (o ≡ ok s') × (b ≡ b')
  settled o b b' h =
      let (t, e, h') = >>=-eq-ok o _ h in
      let same = ok-injective h' in
      (
        e ∙ ap ok (ap (λ (p : Storage × Balances). p.0) same),
        ap (λ (p : Storage × Balances). p.1) same,
      )

  call-IsFaithful :
      (origin : Origin) (block : ℕ) (c : Call) (h : History) (s : Storage) (b : Balances)
      (s' : Storage) (b' : Balances)
      → call runtime origin block c s b ≡ ok (s', b')
      → IsFaithful runtime.config h s
      → IsFaithful runtime.config (after c h) s'
  unfolding call Pool.finalize_epoch Pool.sync_epoch_root
  call-IsFaithful origin block (Call.deposit c v) h s b s' b' e stands =
      let done =
        deposit-eq-ok runtime.config sane runtime.currency origin c v s b (s', b')
          stands.tree.ring.in_range e in
      rw done.written (record {
        tree = placed-HasLog runtime.config c h.leaves s stands.tree done.room;
        marks = λ k. spent_same s _ k refl ∙ stands.marks k;
        once = stands.once;
      })
  call-IsFaithful origin block (Call.transfer p r ns outs) h s b s' b' e stands =
      let (done, same) =
        settled (Pool.transfer runtime.config runtime.blake2_256 origin p r ns outs s) b b' e in
      (Moves-IsFaithful r ns outs h s s'
        (transfer-eq-ok runtime.config sane runtime.blake2_256 origin p r ns outs s s'
          stands.tree.ring.in_range done)
        stands)
  call-IsFaithful origin block (Call.withdraw p r ns outs to v) h s b s' b' e stands =
      let done =
        withdraw-eq-ok runtime.config sane runtime.blake2_256 runtime.currency origin p r ns outs to
          v s b (s', b') stands.tree.ring.in_range e in
      let moved = Moves-IsFaithful r ns outs h s done.last done.moves stands in
      rw done.written (record {
        tree = moved.tree;
        marks = λ k. spent_same done.last _ k refl ∙ moved.marks k;
        once = moved.once;
      })
  call-IsFaithful origin block Call.finalize_epoch h s b s' b' e stands =
      let (done, same) = settled (Pool.finalize_epoch origin block s) b b' e in
      let (u1, e1, h1) = >>=-eq-ok (ensure_root origin) _ done in
      let (epoch, e2, h2) = >>=-eq-ok (ok_or (s.epochs s.current_epoch_id) epoch_not_ready) _ h1 in
      let (u3, e3, h3) = >>=-eq-ok (refuse_if epoch.finalized epoch_already_finalized) _ h2 in
      let it = sym (ok-injective h3) in
      (same_pool h s s' (ap (λ (t : Storage). t.next_leaf_index) it)
        (ap (λ (t : Storage). t.current_root_index) it) (ap (λ (t : Storage). t.filled_subtrees) it)
        (ap (λ (t : Storage). t.roots) it) (ap (λ (t : Storage). t.nullifier_spent) it) stands)
  call-IsFaithful origin block (Call.sync_epoch_root para id r) h s b s' b' e stands =
      let (done, same) = settled (Pool.sync_epoch_root origin para id r s) b b' e in
      let (u1, e1, h1) = >>=-eq-ok (ensure_root origin) _ done in
      let (u2, e2, h2) = >>=-eq-ok (refuse_if (text_beq r zero_h256) invalid_nullifier_root) _ h1 in
      let it = sym (ok-injective h2) in
      (same_pool h s s' (ap (λ (t : Storage). t.next_leaf_index) it)
        (ap (λ (t : Storage). t.current_root_index) it) (ap (λ (t : Storage). t.filled_subtrees) it)
        (ap (λ (t : Storage). t.roots) it) (ap (λ (t : Storage). t.nullifier_spent) it) stands)

  pub Reachable-IsFaithful :
      {h : History} {s : Storage} {b : Balances}
      → Reachable runtime h s b
      → IsFaithful runtime.config h s
  Reachable-IsFaithful (genesis b) = build-IsFaithful runtime.config sane
  Reachable-IsFaithful (called {h} {s} {b} reached origin block c s' b' unkeyed e) =
      call-IsFaithful origin block c h s b s' b' e (Reachable-IsFaithful reached)
  Reachable-IsFaithful (elsewhere reached b' more) = Reachable-IsFaithful reached
