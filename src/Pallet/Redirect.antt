-- ===== src/Pallet/Redirect.antt =====
-- What `withdraw` of pallets/privacy-pool/src/lib.rs lets anyone change of a withdrawal with a valid proof.
use sl.Prelude.{
  ℕ, ◌+◌, ◌-◌, ◌%◌, ◌^◌, ◌≡◌, refl, ap, ◌∙◌, false, not, some, Text, leb, ltb, nat_beq, nat_eq,
  insert,
}
use sl.Prelude.Words.{u32_mod, u64_mod}
use sl.Fallible.{ok, >>=-eq-ok, ok-injective, refuse_if}
use sl.Pallet.State.{
  Config, Storage, WithdrawPublicInputs, signed, Balances, Currency, tree_full, zero_withdrawal,
  insufficient_pool_balance, unknown_merkle_root, invalid_proof,
}
use sl.Pallet.Tree.{insert_leaf, insert_path, remainder, is_known_root}
use sl.Pallet.Nullifiers.{check_and_spend_nullifiers}
use sl.Pallet.Pool
use sl.Pallet.Pool.{ensure_signed, insert_outputs}
use sl.Pallet.Verifier.{verify_withdraw, encode_withdraw_inputs}

module _ (config : Config) where
  -- Whether a leaf is placed, and where the indices move, does not depend on the leaf.
  record Placed (s : Storage) (c' : Text) (s' : Storage) : Type 0 where
    out : ℕ × Storage
    made : insert_leaf config c' s' ≡ ok out
    count : out.1.next_leaf_index ≡ s.next_leaf_index
    slot : out.1.current_root_index ≡ s.current_root_index

  any_leaf :
      (c c' : Text) (s s' : Storage) (out : ℕ × Storage)
      → s'.next_leaf_index ≡ s.next_leaf_index
      → s'.current_root_index ≡ s.current_root_index
      → insert_leaf config c s ≡ ok out
      → Placed out.1 c' s'
  unfolding insert_leaf
  any_leaf c c' s s' out same_count same_slot h =
      let (u, e1, h1) =
        >>=-eq-ok (refuse_if (leb (2 ^ config.tree_depth % u64_mod) s.next_leaf_index) tree_full) _
          h in
      let (slot, e2, h2) =
        >>=-eq-ok (remainder ((s.current_root_index + 1) % u32_mod) config.root_history_size) _
          h1 in
      let it = ok-injective h2 in
      record {
        out = (
          s'.next_leaf_index,
          record s' {
            filled_subtrees =
                (insert_path config.tree_depth 0 s'.next_leaf_index c' s'.filled_subtrees).1;
            roots =
                insert slot
                  (insert_path config.tree_depth 0 s'.next_leaf_index c' s'.filled_subtrees).0
                  s'.roots;
            current_root_index = slot;
            next_leaf_index = (s'.next_leaf_index + 1) % u64_mod;
          },
        );
        made = rw (same_count, same_slot, e1, e2) refl;
        count =
            ap (λ (n : ℕ). (n + 1) % u64_mod) same_count
            ∙ ap (λ (t : ℕ × Storage). t.1.next_leaf_index) it;
        slot = ap (λ (t : ℕ × Storage). t.1.current_root_index) it;
      }

  any_outputs :
      (outs outs' : Text × Text) (s last : Storage)
      → insert_outputs config outs s ≡ ok last
      → (last' : Storage) × (insert_outputs config outs' s ≡ ok last')
  unfolding insert_outputs
  any_outputs (c0, c1) (d0, d1) s last h =
      let (made, e1, h1) = >>=-eq-ok (insert_leaf config c0 s) _ h in
      let (made', e2, h2) = >>=-eq-ok (insert_leaf config c1 made.1) _ h1 in
      let first = any_leaf c0 d0 s s made refl refl e1 in
      let second = any_leaf c1 d1 made.1 first.out.1 made' first.count first.slot e2 in
      (second.out.1, rw (first.made, second.made) refl)

  abbrev inputs_of : Text → Text × Text → Text × Text → ℕ → WithdrawPublicInputs
  inputs_of r ns outs v = record {
    merkle_root = r;
    nullifiers = ns;
    output_commitments = outs;
    exit_value = v;
  }

  module _ (blake : Text → Text) (currency : Currency) where
    withdraw_of :
        (who p r : Text) (ns outs : Text × Text) (to : Text) (v : ℕ) (s mid last : Storage)
        (b b' : Balances)
        → refuse_if (nat_beq v 0) zero_withdrawal ≡ ok tt
        → refuse_if (ltb s.pool_balance v) insufficient_pool_balance ≡ ok tt
        → refuse_if (not (is_known_root config r s)) unknown_merkle_root ≡ ok tt
        → check_and_spend_nullifiers config ns s ≡ ok mid
        → refuse_if (not (verify_withdraw blake p (inputs_of r ns outs v))) invalid_proof ≡ ok tt
        → insert_outputs config outs mid ≡ ok last
        → currency.transfer config.pool_account to v false b ≡ some b'
        → Pool.withdraw config blake currency (signed who) p r ns outs to v s b
          ≡ ok (record last { pool_balance = last.pool_balance - v }, b')
    unfolding Pool.withdraw
    withdraw_of who p r ns outs to v s mid last b b' e2 e3 e4 e5 e6 e7 e8 =
        rw (e2, e3, e4, e5, e6, e7, e8) refl

    -- When a withdrawal succeeds, so does one with the same proof, root, nullifiers and value but any
    -- other outputs, recipient and signer, if the currency can pay that recipient.
    pub withdraw_redirected :
        (who who' : Text) (p r : Text) (ns outs outs' : Text × Text) (to to' : Text) (v : ℕ)
        (s : Storage) (b : Balances) (out : Storage × Balances)
        → Pool.withdraw config blake currency (signed who) p r ns outs to v s b ≡ ok out
        → (b' : Balances) → currency.transfer config.pool_account to' v false b ≡ some b'
        → (s' : Storage) × (Pool.withdraw config blake currency (signed who') p r ns outs' to' v s b
            ≡ ok (s', b'))
    unfolding Pool.withdraw verify_withdraw encode_withdraw_inputs
    withdraw_redirected who who' p r ns outs outs' to to' v s b out h b' paid =
        let (u2, e2, h2) = >>=-eq-ok (refuse_if (nat_beq v 0) zero_withdrawal) _ h in
        let (u3, e3, h3) =
          >>=-eq-ok (refuse_if (ltb s.pool_balance v) insufficient_pool_balance) _ h2 in
        let (u4, e4, h4) =
          >>=-eq-ok (refuse_if (not (is_known_root config r s)) unknown_merkle_root) _ h3 in
        let (mid, e5, h5) = >>=-eq-ok (check_and_spend_nullifiers config ns s) _ h4 in
        let (u6, e6, h6) =
          >>=-eq-ok
            (refuse_if (not (verify_withdraw blake p (inputs_of r ns outs v))) invalid_proof) _
            h5 in
        let (last, e7, h7) = >>=-eq-ok (insert_outputs config outs mid) _ h6 in
        let (last', made) = any_outputs outs outs' mid last e7 in
        (
          record last' { pool_balance = last'.pool_balance - v },
          withdraw_of who' p r ns outs' to' v s mid last' b b' e2 e3 e4 e5 e6 made paid,
        )
