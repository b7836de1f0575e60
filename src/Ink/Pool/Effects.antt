-- ===== src/Ink/Pool/Effects.antt =====
-- What a message of ink/privacy-pool/lib.rs that spends or deposits has checked and written when it returns.
use sl.Prelude.{
  not-false, text_beq-of_ne, ℕ, ◌-◌, ◌≤◌, ◌≡◌, ◌≢◌, refl, sym, ◌∙◌, true, false, not, Text, arith,
  text_eq, nat_eq, ltb,
}
use sl.Fallible.{ok, >>=-eq-ok, ok-injective, refuse_if, refuse_if-eq-ok}
use sl.Ink.State.{
  PrivacyPool, Env, Host, Payment, unknown_root, pool_paused, nullifier_already_spent,
  duplicate_commitment, insufficient_funds,
}
use sl.Ink.Tree.{zero_value, is_some, is_known_root, push_root, add_output}
use sl.Ink.Tree.Append.{Stores, store_leaf-eq-ok}
use sl.Ink.Proof.{Pair, verify_proof_structure}
use sl.Ink.Proof.Binding.{IsBound, verify_proof_structure_iff}
use sl.Ink.Pool
use sl.Ink.Pool.{is_nullifier_spent, check_unspent, mark_spent, add_change}

covered : (b v : ℕ) → ltb b v ≡ false → v ≤ b
covered b v h = ground arith

module _ (host : Host) where
  -- A new leaf, stored.
  pub record Adds (cm : Text) (s s' : PrivacyPool) : Type 0 where
    pub fresh : is_some (s.leaves cm) ≡ false
    pub stores : Stores host cm s s'

  add_output-eq-ok : (cm : Text) (s s' : PrivacyPool) → add_output host cm s ≡ ok s' → Adds cm s s'
  unfolding add_output
  add_output-eq-ok cm s s' h =
      let (u, e, h') = >>=-eq-ok (refuse_if (is_some (s.leaves cm)) duplicate_commitment) _ h in
      record {
        fresh = refuse_if-eq-ok (is_some (s.leaves cm)) duplicate_commitment e;
        stores = store_leaf-eq-ok host cm s s' h';
      }

  -- Two nullifiers spent under a proof, and two leaves added, in a state before the root is pushed.
  pub record Moves (proof root : Text) (ns outs : Pair) (s mid last : PrivacyPool) : Type 0 where
    pub running : s.paused ≡ false
    pub known : is_known_root root s ≡ true
    pub unspent_0 : is_nullifier_spent s ns.0 ≡ false
    pub unspent_1 : is_nullifier_spent s ns.1 ≡ false
    pub bound : IsBound host proof ns outs
    pub first : Adds outs.0 (mark_spent ns s) mid
    pub second : Adds outs.1 mid last

  pub check_unspent-eq-ok :
      (ns : Pair) (s : PrivacyPool) {u : Unit {0}}
      → check_unspent ns s ≡ ok u
      → (is_nullifier_spent s ns.0 ≡ false) × (is_nullifier_spent s ns.1 ≡ false)
  unfolding check_unspent
  check_unspent-eq-ok (n0, n1) s h =
      let (u, e, h') =
        >>=-eq-ok (refuse_if (is_nullifier_spent s n0) nullifier_already_spent) _ h in
      (
        refuse_if-eq-ok (is_nullifier_spent s n0) nullifier_already_spent e,
        refuse_if-eq-ok (is_nullifier_spent s n1) nullifier_already_spent h',
      )

  pub transfer-eq-ok :
      (proof root : Text) (ns outs : Pair) (s s' : PrivacyPool)
      → Pool.transfer host proof root ns outs s ≡ ok s'
      → (mid : PrivacyPool) × (last : PrivacyPool) × Moves proof root ns outs s mid last
        × (s' ≡ push_root last)
  unfolding Pool.transfer
  transfer-eq-ok proof root ns outs s s' h =
      let (u1, e1, h1) = >>=-eq-ok (refuse_if s.paused pool_paused) _ h in
      let (u2, e2, h2) = >>=-eq-ok (refuse_if (not (is_known_root root s)) unknown_root) _ h1 in
      let (u3, e3, h3) = >>=-eq-ok (check_unspent ns s) _ h2 in
      let (u4, e4, h4) = >>=-eq-ok (verify_proof_structure host proof ns outs) _ h3 in
      let (mid, e5, h5) = >>=-eq-ok (add_output host outs.0 (mark_spent ns s)) _ h4 in
      let (last, e6, h6) = >>=-eq-ok (add_output host outs.1 mid) _ h5 in
      let unspent = check_unspent-eq-ok ns s e3 in
      (
        mid,
        last,
        record {
          running = refuse_if-eq-ok s.paused pool_paused e1;
          known =
              not-false (is_known_root root s)
                (refuse_if-eq-ok (not (is_known_root root s)) unknown_root e2);
          unspent_0 = unspent.0;
          unspent_1 = unspent.1;
          bound = (verify_proof_structure_iff host proof ns outs).0 e4;
          first = add_output-eq-ok outs.0 (mark_spent ns s) mid e5;
          second = add_output-eq-ok outs.1 mid last e6;
        },
        sym (ok-injective h6),
      )

  -- A proof that is accepted has no zero output, so that `withdraw` passes over none.
  add_change-set :
      (cm : Text) (s : PrivacyPool) → cm ≢ zero_value → add_change host cm s ≡ add_output host cm s
  unfolding add_change
  add_change-set cm s ne = rw (text_beq-of_ne cm zero_value ne) refl

  pub withdraw-eq-ok :
      (env : Env) (proof root : Text) (ns outs : Pair) (to : Text) (v : ℕ) (s : PrivacyPool)
      (out : Payment × PrivacyPool)
      → Pool.withdraw host env proof root ns outs to v s ≡ ok out
      → (mid : PrivacyPool) × (last : PrivacyPool) × Moves proof root ns outs s mid last
        × (v ≤ s.pool_balance)
        × (out ≡ (
          record { recipient = to; amount = v },
          push_root (record last { pool_balance = last.pool_balance - v }),
        ))
  unfolding Pool.withdraw
  withdraw-eq-ok env proof root ns outs to v s out h =
      let (u1, e1, h1) = >>=-eq-ok (refuse_if s.paused pool_paused) _ h in
      let (u2, e2, h2) = >>=-eq-ok (refuse_if (not (is_known_root root s)) unknown_root) _ h1 in
      let (u3, e3, h3) = >>=-eq-ok (check_unspent ns s) _ h2 in
      let (u4, e4, h4) = >>=-eq-ok (verify_proof_structure host proof ns outs) _ h3 in
      let (u5, e5, h5) = >>=-eq-ok (refuse_if (ltb s.pool_balance v) insufficient_funds) _ h4 in
      let (mid, e6, h6) = >>=-eq-ok (add_change host outs.0 (mark_spent ns s)) _ h5 in
      let (last, e7, h7) = >>=-eq-ok (add_change host outs.1 mid) _ h6 in
      let (u8, e8, h8) = >>=-eq-ok (refuse_if (not env.pays) insufficient_funds) _ h7 in
      let unspent = check_unspent-eq-ok ns s e3 in
      let bound = (verify_proof_structure_iff host proof ns outs).0 e4 in
      (
        mid,
        last,
        record {
          running = refuse_if-eq-ok s.paused pool_paused e1;
          known =
              not-false (is_known_root root s)
                (refuse_if-eq-ok (not (is_known_root root s)) unknown_root e2);
          unspent_0 = unspent.0;
          unspent_1 = unspent.1;
          bound = bound;
          first =
              add_output-eq-ok outs.0 (mark_spent ns s) mid
                (sym (add_change-set outs.0 (mark_spent ns s) bound.output_0_set) ∙ e6);
          second =
              add_output-eq-ok outs.1 mid last
                (sym (add_change-set outs.1 mid bound.output_1_set) ∙ e7);
        },
        covered s.pool_balance v (refuse_if-eq-ok (ltb s.pool_balance v) insufficient_funds e5),
        sym (ok-injective h8),
      )
