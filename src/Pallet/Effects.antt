-- ===== src/Pallet/Effects.antt =====
-- What a call of pallets/privacy-pool/src/lib.rs has checked and written when it succeeds.
use sl.Prelude.{
  not-false, ℕ, ◌+◌, ◌-◌, ◌^◌, ◌<◌, ◌≤◌, ◌≡◌, sym, ap, ◌∙◌, true, false, not, some, [], ◌∷◌, ◌++◌,
  Text, arith, insert, text_eq, nat_eq, ltb, leb, nat_beq, length,
}
use native.Mathlib.Nat.{mod-lt}
use sl.Merkle.{unwrap_or}
use sl.Fallible.{ok, >>=-eq-ok, ok-injective, refuse_if, refuse_if-eq-ok, ok_or, ok_or-eq-ok}
use sl.Pallet.State.{
  Config, Storage, TransferPublicInputs, WithdrawPublicInputs, Origin, root, none_origin, signed,
  Balances, Currency, zero_deposit, commitment_already_exists, transfer_failed,
  nullifier_already_spent, epoch_nullifier_overflow, unknown_merkle_root, invalid_proof,
  zero_withdrawal, insufficient_pool_balance,
}
use sl.Pallet.Tree.{insert_leaf, is_known_root}
use sl.Pallet.Tree.Insert.{IsSane, placed, insert_leaf-eq-ok}
use sl.Pallet.Nullifiers.{is_spent, nullifiers_of, spend_nullifier, check_and_spend_nullifiers}
use sl.Pallet.Verifier.{verify_transfer, verify_withdraw}
use sl.Pallet.Pool
use sl.Pallet.Pool.{saturating_add, insert_outputs, ensure_signed}
use sl.Pallet.Call.{Pair}

covered_by : (b v : ℕ) → ltb b v ≡ false → v ≤ b
covered_by b v h = ground arith

signer : (origin : Origin) {who : Text} → ensure_signed origin ≡ ok who → origin ≡ signed who
signer (signed w) h = ap signed (ok-injective h)
signer root h = cc
signer none_origin h = cc

-- The state after a nullifier is spent.
abbrev pub with_spent : Text → Storage → Storage
with_spent n s = record s {
  nullifier_spent = insert n true s.nullifier_spent;
  epoch_nullifiers =
      insert s.current_epoch_id (unwrap_or [] (s.epoch_nullifiers s.current_epoch_id) ++ n ∷ [])
        s.epoch_nullifiers;
}

module _ (config : Config) where
  spend_nullifier-eq-ok :
      (n : Text) (s s' : Storage)
      → spend_nullifier config n s ≡ ok s'
      → (is_spent s n ≡ false) × (s' ≡ with_spent n s)
  unfolding spend_nullifier nullifiers_of
  spend_nullifier-eq-ok n s s' h =
      let (u1, e1, h1) = >>=-eq-ok (refuse_if (is_spent s n) nullifier_already_spent) _ h in
      let (u2, e2, h2) =
        >>=-eq-ok
          (refuse_if
            (leb config.max_nullifiers_per_epoch (length (nullifiers_of s.current_epoch_id s)))
            epoch_nullifier_overflow)
          _ h1 in
      (refuse_if-eq-ok (is_spent s n) nullifier_already_spent e1, sym (ok-injective h2))

  pub record Spends (ns : Pair) (s s' : Storage) : Type 0 where
    pub fresh_0 : is_spent s ns.0 ≡ false
    pub fresh_1 : is_spent (with_spent ns.0 s) ns.1 ≡ false
    pub written : s' ≡ with_spent ns.1 (with_spent ns.0 s)

  pub check_and_spend_nullifiers-eq-ok :
      (ns : Pair) (s s' : Storage) → check_and_spend_nullifiers config ns s ≡ ok s' → Spends ns s s'
  unfolding check_and_spend_nullifiers
  check_and_spend_nullifiers-eq-ok (n0, n1) s s' h =
      let (mid, e1, h1) = >>=-eq-ok (spend_nullifier config n0 s) _ h in
      let (fresh0, first) = spend_nullifier-eq-ok n0 s mid e1 in
      let (fresh1, second) = spend_nullifier-eq-ok n1 mid s' h1 in
      record {
        fresh_0 = fresh0;
        fresh_1 = ap (λ (t : Storage). is_spent t n1) (sym first) ∙ fresh1;
        written = second ∙ ap (with_spent n1) first;
      }

  module _ (sane : IsSane config) where
    -- Two leaves, one after the other.
    pub record Inserts (outs : Pair) (s s' : Storage) : Type 0 where
      pub room_0 : s.next_leaf_index < 2 ^ config.tree_depth
      pub room_1 : s.next_leaf_index + 1 < 2 ^ config.tree_depth
      pub written : s' ≡ placed config outs.1 (placed config outs.0 s)

    insert_outputs-eq-ok :
        (outs : Pair) (s s' : Storage)
        → s.current_root_index < config.root_history_size
        → insert_outputs config outs s ≡ ok s'
        → Inserts outs s s'
    unfolding insert_outputs
    insert_outputs-eq-ok (c0, c1) s s' index h =
        let (made, e1, h1) = >>=-eq-ok (insert_leaf config c0 s) _ h in
        let (made', e2, h2) = >>=-eq-ok (insert_leaf config c1 made.1) _ h1 in
        let first = insert_leaf-eq-ok config c0 s made sane index e1 in
        let next : made.1.current_root_index < config.root_history_size =
          rw first.written (mod-lt (s.current_root_index + 1) sane.slots) in
        let second = insert_leaf-eq-ok config c1 made.1 made' sane next e2 in
        let count : made.1.next_leaf_index ≡ s.next_leaf_index + 1 =
          ap (λ (t : Storage). t.next_leaf_index) first.written in
        record {
          room_0 = first.room;
          room_1 = omega (arith, second.room, count);
          written = sym (ok-injective h2) ∙ (second.written ∙ ap (placed config c1) first.written);
        }

    pub record Deposits (currency : Currency) (origin : Origin) (c : Text) (v : ℕ) (s : Storage)
        (b : Balances) (out : Storage × Balances) : Type 0 where
      pub who : Text
      pub by : origin ≡ signed who
      pub moved : currency.transfer who config.pool_account v true b ≡ some out.1
      pub room : s.next_leaf_index < 2 ^ config.tree_depth
      pub written : out.0 ≡ record (placed config c s) {
        commitment_exists = insert c true s.commitment_exists;
        pool_balance = saturating_add s.pool_balance v;
      }

    pub deposit-eq-ok :
        (currency : Currency) (origin : Origin) (c : Text) (v : ℕ) (s : Storage) (b : Balances)
        (out : Storage × Balances)
        → s.current_root_index < config.root_history_size
        → Pool.deposit config currency origin c v s b ≡ ok out
        → Deposits currency origin c v s b out
    unfolding Pool.deposit
    deposit-eq-ok currency origin c v s b out index h =
        let marked : Storage = record s { commitment_exists = insert c true s.commitment_exists } in
        let (who, e1, h1) = >>=-eq-ok (ensure_signed origin) _ h in
        let (u2, e2, h2) = >>=-eq-ok (refuse_if (nat_beq v 0) zero_deposit) _ h1 in
        let (u3, e3, h3) =
          >>=-eq-ok (refuse_if (unwrap_or false (s.commitment_exists c)) commitment_already_exists)
            _ h2 in
        let (b', e4, h4) =
          >>=-eq-ok (ok_or (currency.transfer who config.pool_account v true b) transfer_failed) _
            h3 in
        let (made, e5, h5) = >>=-eq-ok (insert_leaf config c marked) _ h4 in
        let inserted = insert_leaf-eq-ok config c marked made sane index e5 in
        let same = ok-injective h5 in
        record {
          who = who;
          by = signer origin e1;
          moved =
              ok_or-eq-ok (currency.transfer who config.pool_account v true b) transfer_failed e4
              ∙ ap (λ (t : Storage × Balances). some t.1) same;
          room = inserted.room;
          written =
              sym (ap (λ (t : Storage × Balances). t.0) same)
              ∙ ap (λ (t : Storage). record t { pool_balance = saturating_add t.pool_balance v })
                  inserted.written;
        }

    -- Two nullifiers spent and two leaves added, for a root that is known.
    pub record Moves (r : Text) (ns outs : Pair) (s last : Storage) : Type 0 where
      pub known : is_known_root config r s ≡ true
      pub mid : Storage
      pub spends : Spends ns s mid
      pub inserts : Inserts outs mid last

    pub transfer-eq-ok :
        (blake : Text → Text) (origin : Origin) (p r : Text) (ns outs : Pair) (s s' : Storage)
        → s.current_root_index < config.root_history_size
        → Pool.transfer config blake origin p r ns outs s ≡ ok s'
        → Moves r ns outs s s'
    unfolding Pool.transfer
    transfer-eq-ok blake origin p r ns outs s s' index h =
        let (who, e1, h1) = >>=-eq-ok (ensure_signed origin) _ h in
        let (u2, e2, h2) =
          >>=-eq-ok (refuse_if (not (is_known_root config r s)) unknown_merkle_root) _ h1 in
        let (mid, e3, h3) = >>=-eq-ok (check_and_spend_nullifiers config ns s) _ h2 in
        let inputs : TransferPublicInputs = record {
          merkle_root = r;
          nullifiers = ns;
          output_commitments = outs;
          domain_chain_id = config.para_id;
          domain_app_id = config.app_id;
        } in
        let (u4, e4, h4) =
          >>=-eq-ok (refuse_if (not (verify_transfer blake p inputs)) invalid_proof) _ h3 in
        let spends = check_and_spend_nullifiers-eq-ok ns s mid e3 in
        record {
          known =
              not-false (is_known_root config r s)
                (refuse_if-eq-ok (not (is_known_root config r s)) unknown_merkle_root e2);
          mid = mid;
          spends = spends;
          inserts = insert_outputs-eq-ok outs mid s' (rw spends.written index) h4;
        }

    pub record Withdraws (currency : Currency) (r : Text) (ns outs : Pair) (to : Text) (v : ℕ)
        (s : Storage) (b : Balances) (out : Storage × Balances) : Type 0 where
      pub last : Storage
      pub moves : Moves r ns outs s last
      pub covered : v ≤ s.pool_balance
      pub moved : currency.transfer config.pool_account to v false b ≡ some out.1
      pub written : out.0 ≡ record last { pool_balance = last.pool_balance - v }

    pub withdraw-eq-ok :
        (blake : Text → Text) (currency : Currency) (origin : Origin) (p r : Text) (ns outs : Pair)
        (to : Text) (v : ℕ) (s : Storage) (b : Balances) (out : Storage × Balances)
        → s.current_root_index < config.root_history_size
        → Pool.withdraw config blake currency origin p r ns outs to v s b ≡ ok out
        → Withdraws currency r ns outs to v s b out
    unfolding Pool.withdraw
    withdraw-eq-ok blake currency origin p r ns outs to v s b out index h =
        let (who, e1, h1) = >>=-eq-ok (ensure_signed origin) _ h in
        let (u2, e2, h2) = >>=-eq-ok (refuse_if (nat_beq v 0) zero_withdrawal) _ h1 in
        let (u3, e3, h3) =
          >>=-eq-ok (refuse_if (ltb s.pool_balance v) insufficient_pool_balance) _ h2 in
        let (u4, e4, h4) =
          >>=-eq-ok (refuse_if (not (is_known_root config r s)) unknown_merkle_root) _ h3 in
        let (mid, e5, h5) = >>=-eq-ok (check_and_spend_nullifiers config ns s) _ h4 in
        let inputs : WithdrawPublicInputs = record {
          merkle_root = r;
          nullifiers = ns;
          output_commitments = outs;
          exit_value = v;
        } in
        let (u6, e6, h6) =
          >>=-eq-ok (refuse_if (not (verify_withdraw blake p inputs)) invalid_proof) _ h5 in
        let (last, e7, h7) = >>=-eq-ok (insert_outputs config outs mid) _ h6 in
        let (b', e8, h8) =
          >>=-eq-ok (ok_or (currency.transfer config.pool_account to v false b) transfer_failed) _
            h7 in
        let spends = check_and_spend_nullifiers-eq-ok ns s mid e5 in
        let same = ok-injective h8 in
        record {
          last = last;
          moves = record {
            known =
                not-false (is_known_root config r s)
                  (refuse_if-eq-ok (not (is_known_root config r s)) unknown_merkle_root e4);
            mid = mid;
            spends = spends;
            inserts = insert_outputs-eq-ok outs mid last (rw spends.written index) e7;
          };
          covered =
              covered_by s.pool_balance v
                (refuse_if-eq-ok (ltb s.pool_balance v) insufficient_pool_balance e3);
          moved =
              ok_or-eq-ok (currency.transfer config.pool_account to v false b) transfer_failed e8
              ∙ ap (λ (t : Storage × Balances). some t.1) same;
          written = sym (ap (λ (t : Storage × Balances). t.0) same);
        }
