-- ===== src/CosmWasm/Contract/Spend.antt =====
-- What `execute_transfer` and `execute_withdraw` share, on success: the states between its steps and
-- what each step has checked.
use sl.Prelude.{not-false, ℕ, ◌≡◌, sym, ap, ◌∙◌, true, not, Text, text_eq, nat_eq, subst}
use sl.CosmWasm.Outcome.{
  ok, invalid_proof, unknown_merkle_root, >>=-eq-ok, ok-injective, refuse_if, refuse_if-eq-ok,
}
use sl.CosmWasm.Poseidon.{Crates}
use sl.CosmWasm.State.{State}
use sl.CosmWasm.Msg.{Pair}
use sl.CosmWasm.Proof.{verify_proof_binding}
use sl.CosmWasm.Tree.{insert_leaf, is_known_root}
use sl.CosmWasm.Tree.Root.{insert_leaf-eq-ok}
use sl.CosmWasm.Nullifiers.{spend_nullifier, check_and_spend_nullifiers}
use sl.CosmWasm.Contract.{spend_and_insert}
use sl.CosmWasm.Contract.Effects.{
  SameLedger, SameLedger-trans, SameNullifiers, SameNullifiers-trans, SpentOne,
  spend_nullifier-eq-ok, SpentOne-SameLedger,
}

module _ (crates : Crates) where
  pub insert_leaf-SameLedger :
      (leaf : Text) (s s' : State) (i : ℕ)
      → insert_leaf crates leaf s ≡ ok (i, s')
      → SameLedger s s'
  insert_leaf-SameLedger leaf s s' i h =
      let made = insert_leaf-eq-ok crates leaf s s' i h in
      record {
        config = ap (λ (t : State). t.config) made.written;
        pool_balance = ap (λ (t : State). t.pool_balance) made.written;
        current_epoch_id = ap (λ (t : State). t.current_epoch_id) made.written;
        epochs = ap (λ (t : State). t.epochs) made.written;
        commitment_exists = ap (λ (t : State). t.commitment_exists) made.written;
        remote_epoch_roots = ap (λ (t : State). t.remote_epoch_roots) made.written;
      }

  pub insert_leaf-SameNullifiers :
      (leaf : Text) (s s' : State) (i : ℕ)
      → insert_leaf crates leaf s ≡ ok (i, s')
      → SameNullifiers s s'
  insert_leaf-SameNullifiers leaf s s' i h =
      let made = insert_leaf-eq-ok crates leaf s s' i h in
      record {
        nullifier_spent = ap (λ (t : State). t.nullifier_spent) made.written;
        epoch_nullifiers = ap (λ (t : State). t.epoch_nullifiers) made.written;
      }

  pub record Spent (proof root : Text) (nuls outs : Pair) (s s' : State) : Type 0 where
    pub known : is_known_root s root ≡ true
    pub verified : verify_proof_binding crates proof root nuls outs ≡ true
    pub after_first : State
    pub after_second : State
    pub after_leaf : State
    pub first : SpentOne s.current_epoch_id nuls.0 s after_first
    pub second : SpentOne s.current_epoch_id nuls.1 after_first after_second
    pub index : ℕ
    pub index' : ℕ
    pub leaf : insert_leaf crates outs.0 after_second ≡ ok (index, after_leaf)
    pub leaf' : insert_leaf crates outs.1 after_leaf ≡ ok (index', s')

  pub spend_and_insert-eq-ok :
      (proof root : Text) (nuls outs : Pair) (s s' : State)
      → spend_and_insert crates proof root nuls outs s ≡ ok s'
      → Spent proof root nuls outs s s'
  unfolding spend_and_insert check_and_spend_nullifiers
  spend_and_insert-eq-ok proof root nuls outs s s' h =
      let (u, e1, h1) =
        >>=-eq-ok (refuse_if (not (is_known_root s root)) unknown_merkle_root) _ h in
      let (s2, e2, h2) = >>=-eq-ok (check_and_spend_nullifiers nuls s) _ h1 in
      let (s1, e3, e4) = >>=-eq-ok (spend_nullifier s.current_epoch_id nuls.0 s) _ e2 in
      let (u', e5, h5) =
        >>=-eq-ok (refuse_if (not (verify_proof_binding crates proof root nuls outs)) invalid_proof)
          _ h2 in
      let (made, e6, h6) = >>=-eq-ok (insert_leaf crates outs.0 s2) _ h5 in
      let (made', e7, h7) = >>=-eq-ok (insert_leaf crates outs.1 made.1) _ h6 in
      record {
        known = not-false _ (refuse_if-eq-ok _ _ e1);
        verified = not-false _ (refuse_if-eq-ok _ _ e5);
        after_first = s1;
        after_second = s2;
        after_leaf = made.1;
        first = spend_nullifier-eq-ok s.current_epoch_id nuls.0 s s1 e3;
        second = spend_nullifier-eq-ok s.current_epoch_id nuls.1 s1 s2 e4;
        index = made.0;
        index' = made'.0;
        leaf = e6;
        leaf' = e7 ∙ ap (λ (t : State). ok (made'.0, t)) (ok-injective h7);
      }

  -- The second nullifier goes to the epoch that is current after the first.
  pub Spent-second :
      {proof root : Text} {nuls outs : Pair} {s s' : State}
      → (h : Spent proof root nuls outs s s')
      → SpentOne h.after_first.current_epoch_id nuls.1 h.after_first h.after_second
  Spent-second {nuls} h =
      subst (λ (e : ℕ). SpentOne e nuls.1 h.after_first h.after_second)
        (sym (SpentOne-SameLedger h.first).current_epoch_id) h.second

  pub Spent-SameLedger :
      {proof root : Text} {nuls outs : Pair} {s s' : State}
      → Spent proof root nuls outs s s'
      → SameLedger s s'
  Spent-SameLedger {outs} {s'} h = SameLedger-trans (SpentOne-SameLedger h.first) (
      SameLedger-trans (SpentOne-SameLedger h.second) (
        SameLedger-trans (insert_leaf-SameLedger outs.0 h.after_second h.after_leaf h.index h.leaf)
          (insert_leaf-SameLedger outs.1 h.after_leaf s' h.index' h.leaf')))

  pub Spent-SameNullifiers :
      {proof root : Text} {nuls outs : Pair} {s s' : State}
      → (h : Spent proof root nuls outs s s') → SameNullifiers h.after_second s'
  Spent-SameNullifiers {outs} {s'} h =
      SameNullifiers-trans
        (insert_leaf-SameNullifiers outs.0 h.after_second h.after_leaf h.index h.leaf)
        (insert_leaf-SameNullifiers outs.1 h.after_leaf s' h.index' h.leaf')
