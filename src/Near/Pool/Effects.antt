-- ===== src/Near/Pool/Effects.antt =====
-- What a method has checked and written when it returns.
use sl.Prelude.{
  ℕ, ◌+◌, ◌-◌, ◌^◌, ◌%◌, ◌<◌, ◌≤◌, ◌≡◌, refl, sym, ap, ◌∙◌, subst, true, false, not, Option, some,
  List, [], ◌∷◌, Text, arith, insert, text_eq, nat_eq, text_beq, ltb, leb, nat_beq, length,
}
use sl.Prelude.Words.{u32_mod, u64_mod, u128_mod}
use sl.Merkle.{unwrap_or}
use sl.Panic.{>>=-eq-some, some-injective, assert, assert-eq-some, fits}
use sl.Near.State.{PrivacyPool, EpochInfo, Context, Transfer}
use sl.Near.Hash.{Host, compute_nullifier_root}
use sl.Near.Verifier.{verify_proof_binding}
use sl.Near.Tree.{tree_depth, is_known_root, insert_leaf}
use sl.Near.Tree.Insert.{placed, insert_leaf-eq-some}
use sl.Near.Nullifiers.{is_some, check_and_spend_nullifiers}
use sl.Near.Nullifiers.Spend.{all_fresh, spent_state, check_and_spend_nullifiers-eq-some}
use sl.Near.Pool
use sl.Near.Pool.{exactly_two, spend_and_insert, open_epoch, may_sync}
use sl.Near.Key.{remote_key}

exactly_two-eq-some :
    (xs : List Text) {out : Text × Text} → exactly_two xs ≡ some out → xs ≡ out.0 ∷ out.1 ∷ []
unfolding exactly_two
exactly_two-eq-some [] h = cc
exactly_two-eq-some (x ∷ []) h = cc
exactly_two-eq-some (x ∷ y ∷ []) {out} h =
    ap (λ (t : Text × Text). t.0 ∷ t.1 ∷ []) (some-injective h)
exactly_two-eq-some (x ∷ y ∷ z ∷ rest) h = cc

module _ (host : Host) where
  -- The state after a deposit.
  abbrev pub deposited : Context → Text → PrivacyPool → PrivacyPool
  deposited context c s = record (placed host c s) {
    commitment_exists = insert c true s.commitment_exists;
    pool_balance = s.pool_balance + context.attached_deposit;
  }

  pub record Deposits (context : Context) (c : Text) (s s' : PrivacyPool) : Type 0 where
    pub paid : 0 < context.attached_deposit
    pub new : is_some (s.commitment_exists c) ≡ false
    pub room : s.next_leaf_index < 2 ^ tree_depth
    pub written : s' ≡ deposited context c s

  pub deposit-eq-some :
      (context : Context) (c : Text) (s s' : PrivacyPool)
      → Pool.deposit host context c s ≡ some s'
      → Deposits context c s s'
  unfolding Pool.deposit
  deposit-eq-some context c s s' h =
      let marked : PrivacyPool = record s {
        commitment_exists = insert c true s.commitment_exists;
      } in
      let (u, e1, h1) = >>=-eq-some (assert (ltb 0 context.attached_deposit)) _ h in
      let (v, e2, h2) = >>=-eq-some (assert (not (is_some (s.commitment_exists c)))) _ h1 in
      let (made, e3, h3) = >>=-eq-some (insert_leaf host c marked) _ h2 in
      let (b, e4, h4) =
        >>=-eq-some (fits u128_mod (made.1.pool_balance + context.attached_deposit)) _ h3 in
      let inserted = insert_leaf-eq-some host c marked made e3 in
      let sum : made.1.pool_balance + context.attached_deposit ≡ b = ground (arith, e4) in
      record {
        paid = ground (arith, e1);
        new = ground (arith, e2);
        room = inserted.room;
        written = sym (some-injective h4) ∙ (rw (← sum, inserted.written) refl);
      }

  -- The state after two nullifiers are spent and two leaves are added.
  abbrev pub moved : List Text → Text → Text → PrivacyPool → PrivacyPool
  moved ns c0 c1 s = placed host c1 (placed host c0 (spent_state ns s))

  pub record Moves (proof root : Text) (ns outs : List Text) (s s' : PrivacyPool) : Type 0 where
    pub known : is_known_root s root ≡ true
    pub fresh : all_fresh ns s.nullifier_spent ≡ true
    pub bound : verify_proof_binding host proof root ns outs ≡ true
    pub out0 : Text
    pub out1 : Text
    pub outs_are : outs ≡ out0 ∷ out1 ∷ []
    pub room : s.next_leaf_index + 1 < 2 ^ tree_depth
    pub written : s' ≡ moved ns out0 out1 s

  spend_and_insert-eq-some :
      (proof root : Text) (ns outs : List Text) (c0 c1 : Text) (s s' : PrivacyPool)
      → outs ≡ c0 ∷ c1 ∷ []
      → spend_and_insert host proof root ns outs (c0, c1) s ≡ some s'
      → Moves proof root ns outs s s'
  unfolding spend_and_insert
  spend_and_insert-eq-some proof root ns outs c0 c1 s s' two h =
      let (u, e1, h1) = >>=-eq-some (assert (is_known_root s root)) _ h in
      let (s1, e2, h2) = >>=-eq-some (check_and_spend_nullifiers ns s) _ h1 in
      let (v, e3, h3) = >>=-eq-some (assert (verify_proof_binding host proof root ns outs)) _ h2 in
      let (made, e4, h4) = >>=-eq-some (insert_leaf host c0 s1) _ h3 in
      let (made', e5, h5) = >>=-eq-some (insert_leaf host c1 made.1) _ h4 in
      let spends = check_and_spend_nullifiers-eq-some ns s s1 e2 in
      let first = insert_leaf-eq-some host c0 s1 made e4 in
      let second = insert_leaf-eq-some host c1 made.1 made' e5 in
      let after_first : made.1 ≡ placed host c0 (spent_state ns s) =
        ap (λ (t : ℕ × PrivacyPool). t.1) first.written ∙ ap (placed host c0) spends.1 in
      record {
        known = assert-eq-some (is_known_root s root) e1;
        fresh = spends.0;
        bound = assert-eq-some (verify_proof_binding host proof root ns outs) e3;
        out0 = c0;
        out1 = c1;
        outs_are = two;
        room =
            subst (λ (t : PrivacyPool). t.next_leaf_index < 2 ^ tree_depth) after_first second.room;
        written =
            sym (some-injective h5)
            ∙ (ap (λ (t : ℕ × PrivacyPool). t.1) second.written ∙ ap (placed host c1) after_first);
      }

  pub transfer-eq-some :
      (proof root : Text) (ns outs : List Text) (s s' : PrivacyPool)
      → Pool.transfer host proof root ns outs s ≡ some s'
      → Moves proof root ns outs s s'
  unfolding Pool.transfer
  transfer-eq-some proof root ns outs s s' h =
      let (two, e1, h1) = >>=-eq-some (exactly_two ns) _ h in
      let (cs, e2, h2) = >>=-eq-some (exactly_two outs) _ h1 in
      spend_and_insert-eq-some proof root ns outs cs.0 cs.1 s s' (exactly_two-eq-some outs e2) h2

  pub record Withdraws (proof root : Text) (ns outs : List Text) (to : Text) (v : ℕ)
      (s : PrivacyPool) (out : Transfer × PrivacyPool) : Type 0 where
    pub positive : 0 < v
    pub covered : v ≤ s.pool_balance
    pub after : PrivacyPool
    pub moves : Moves proof root ns outs s after
    pub written : out ≡ (
      record { recipient = to; amount = v },
      record after { pool_balance = after.pool_balance - v },
    )

  pub withdraw-eq-some :
      (proof root : Text) (ns outs : List Text) (to : Text) (v : ℕ) (s : PrivacyPool)
      (out : Transfer × PrivacyPool)
      → Pool.withdraw host proof root ns outs to v s ≡ some out
      → Withdraws proof root ns outs to v s out
  unfolding Pool.withdraw
  withdraw-eq-some proof root ns outs to v s out h =
      let (two, e1, h1) = >>=-eq-some (exactly_two ns) _ h in
      let (cs, e2, h2) = >>=-eq-some (exactly_two outs) _ h1 in
      let (u, e3, h3) = >>=-eq-some (assert (ltb 0 v)) _ h2 in
      let (w, e4, h4) = >>=-eq-some (assert (leb v s.pool_balance)) _ h3 in
      let (after, e5, h5) = >>=-eq-some (spend_and_insert host proof root ns outs cs s) _ h4 in
      record {
        positive = ground (arith, e3);
        covered = ground (arith, e4);
        after = after;
        moves =
            spend_and_insert-eq-some proof root ns outs cs.0 cs.1 s after
              (exactly_two-eq-some outs e2) e5;
        written = sym (some-injective h5);
      }

  -- An epoch as it is finalized.
  abbrev pub sealed : Context → EpochInfo → List Text → EpochInfo
  sealed context e nuls = record e {
    nullifier_root = compute_nullifier_root host nuls;
    nullifier_count = length nuls % u32_mod;
    end_block = some context.block_height;
    finalized = true;
  }

  -- The state after an epoch is finalized and the epoch `next` is opened.
  abbrev pub closed_for : Context → EpochInfo → ℕ → PrivacyPool → PrivacyPool
  closed_for context e next s = record s {
    epochs = insert next (open_epoch context.block_height) (
        insert s.current_epoch_id
          (sealed context e (unwrap_or [] (s.epoch_nullifiers s.current_epoch_id))) s.epochs);
    current_epoch_id = next;
    epoch_nullifiers = insert next [] s.epoch_nullifiers;
  }

  abbrev pub closed : Context → EpochInfo → PrivacyPool → PrivacyPool
  closed context e s = closed_for context e (s.current_epoch_id + 1) s

  pub record Closes (context : Context) (s s' : PrivacyPool) : Type 0 where
    pub by : text_beq context.predecessor s.governance ≡ true
    pub info : EpochInfo
    pub stored : s.epochs s.current_epoch_id ≡ some info
    pub was_open : info.finalized ≡ false
    pub written : s' ≡ closed context info s

  pub finalize_epoch-eq-some :
      (context : Context) (s s' : PrivacyPool)
      → Pool.finalize_epoch host context s ≡ some s'
      → Closes context s s'
  unfolding Pool.finalize_epoch
  finalize_epoch-eq-some context s s' h =
      let (u, e1, h1) = >>=-eq-some (assert (text_beq context.predecessor s.governance)) _ h in
      let (e, e2, h2) = >>=-eq-some (s.epochs s.current_epoch_id) _ h1 in
      let (v, e3, h3) = >>=-eq-some (assert (not e.finalized)) _ h2 in
      let (id, e4, h4) = >>=-eq-some (fits u64_mod (s.current_epoch_id + 1)) _ h3 in
      let next : s.current_epoch_id + 1 ≡ id = ground (arith, e4) in
      record {
        by = assert-eq-some (text_beq context.predecessor s.governance) e1;
        info = e;
        stored = e2;
        was_open = ground (arith, e3);
        written = sym (some-injective h4) ∙ ap (λ i. closed_for context e i s) (sym next);
      }

pub set_authorized_relayer-eq-some :
    (context : Context) (r : Option Text) (s s' : PrivacyPool)
    → Pool.set_authorized_relayer context r s ≡ some s'
    → s' ≡ record s { authorized_relayer = r }
unfolding Pool.set_authorized_relayer
set_authorized_relayer-eq-some context r s s' h =
    let (u, e1, h1) = >>=-eq-some (assert (text_beq context.predecessor s.governance)) _ h in
    sym (some-injective h1)

pub sync_epoch_root-eq-some :
    (context : Context) (chain id : ℕ) (root : Text) (s s' : PrivacyPool)
    → Pool.sync_epoch_root context chain id root s ≡ some s'
    → s' ≡ record s { remote_epoch_roots = insert (remote_key chain id) root s.remote_epoch_roots }
unfolding Pool.sync_epoch_root
sync_epoch_root-eq-some context chain id root s s' h =
    let (u, e1, h1) = >>=-eq-some (assert (may_sync s context.predecessor)) _ h in
    let (v, e2, h2) = >>=-eq-some (assert (not (nat_beq (length root) 0))) _ h1 in
    sym (some-injective h2)
