-- ===== src/Pallet/Pool.antt =====
-- The genesis and the calls of pallets/privacy-pool/src/lib.rs. The runtime drops every write of a call
-- that returns an error or panics.
use sl.Prelude.{
  ℕ, zero, suc, ◌+◌, ◌-◌, ◌%◌, true, false, not, none, some, Text, ltb, nat_beq, text_beq, text_eq,
  nat_eq, pair_eq, length, Map, insert, no_entries, if◌then◌else◌,
}
use sl.Prelude.Words.{u32_mod, u64_mod, u128_mod}
use sl.Merkle.{unwrap_or}
use sl.Fallible.{ok, err, ◌>>=◌, ◌>>◌, refuse_if, ok_or}
use sl.Pallet.State.{
  Config, Storage, EpochInfo, TransferPublicInputs, WithdrawPublicInputs, Origin, root, none_origin,
  signed, Balances, Currency, Dispatch, zero_deposit, commitment_already_exists, invalid_proof,
  unknown_merkle_root, insufficient_pool_balance, zero_withdrawal, epoch_not_ready,
  epoch_already_finalized, transfer_failed, invalid_nullifier_root, bad_origin,
}
use sl.Pallet.Poseidon.{poseidon_hash, zero_h256}
use sl.Pallet.Tree.{insert_leaf, is_known_root}
use sl.Pallet.Nullifiers.{check_and_spend_nullifiers, compute_nullifier_root, nullifiers_of}
use sl.Pallet.Verifier.{verify_transfer, verify_withdraw}

unfoldable pub open_epoch : ℕ → EpochInfo
open_epoch block = record {
  start_block = block;
  end_block = none;
  nullifier_root = zero_h256;
  nullifier_count = 0;
  finalized = false;
}

-- The loop of `build`, for the levels left; it returns the empty root too.
unfoldable pub init_subtrees : ℕ → ℕ → Text → Map ℕ Text → Text × Map ℕ Text
init_subtrees zero level current_zero filled = (current_zero, filled)
init_subtrees (suc left) level current_zero filled =
    init_subtrees left (suc level) (poseidon_hash current_zero current_zero)
      (insert level current_zero filled)

-- The storage after `build`, over empty storage.
unfoldable pub build : Config → Storage
unfolding open_epoch
build config =
    let tree = init_subtrees config.tree_depth 0 zero_h256 no_entries in
    record {
      next_leaf_index = 0;
      filled_subtrees = tree.1;
      roots = insert 0 tree.0 no_entries;
      current_root_index = 0;
      nullifier_spent = no_entries;
      commitment_exists = no_entries;
      pool_balance = 0;
      current_epoch_id = 0;
      epochs = insert 0 (open_epoch 0) no_entries;
      epoch_nullifiers = no_entries;
      remote_epoch_roots = no_entries;
    }

abbrev pub ensure_signed : Origin → Dispatch Text
ensure_signed (signed who) = ok who
ensure_signed root = err bad_origin
ensure_signed none_origin = err bad_origin

abbrev pub ensure_root : Origin → Dispatch (Unit {0})
ensure_root root = ok tt
ensure_root (signed who) = err bad_origin
ensure_root none_origin = err bad_origin

-- `saturating_add` on `u128`
unfoldable pub saturating_add : ℕ → ℕ → ℕ
saturating_add a b = if ltb (a + b) u128_mod then a + b else u128_mod - 1

module _ (config : Config) where
  unfoldable pub deposit :
      Currency → Origin → Text → ℕ → Storage → Balances → Dispatch (Storage × Balances)
  deposit currency origin commitment amount s b = do
    who ← ensure_signed origin
    refuse_if (nat_beq amount 0) zero_deposit
    refuse_if (unwrap_or false (s.commitment_exists commitment)) commitment_already_exists
    b' ← ok_or (currency.transfer who config.pool_account amount true b) transfer_failed
    (_, s') ←
        insert_leaf config commitment
          (record s { commitment_exists = insert commitment true s.commitment_exists })
    ok (record s' { pool_balance = saturating_add s'.pool_balance amount }, b')

  -- The two insertions of `transfer` and `withdraw`.
  unfoldable pub insert_outputs : Text × Text → Storage → Dispatch Storage
  insert_outputs (c0, c1) s = do
    (_, s1) ← insert_leaf config c0 s
    (_, s2) ← insert_leaf config c1 s1
    ok s2

  module _ (blake2_256 : Text → Text) where
    unfoldable pub transfer :
        Origin → Text → Text → Text × Text → Text × Text → Storage → Dispatch Storage
    transfer origin proof merkle_root nullifiers output_commitments s = do
      _ ← ensure_signed origin
      refuse_if (not (is_known_root config merkle_root s)) unknown_merkle_root
      s1 ← check_and_spend_nullifiers config nullifiers s
      let public_inputs : TransferPublicInputs = record {
        merkle_root = merkle_root;
        nullifiers = nullifiers;
        output_commitments = output_commitments;
        domain_chain_id = config.para_id;
        domain_app_id = config.app_id;
      }
      refuse_if (not (verify_transfer blake2_256 proof public_inputs)) invalid_proof
      insert_outputs output_commitments s1

    unfoldable pub withdraw :
        Currency
        → Origin
        → Text
        → Text
        → Text × Text
        → Text × Text
        → (recipient : Text) → (exit_value : ℕ) → Storage
        → Balances
        → Dispatch (Storage × Balances)
    withdraw currency origin proof merkle_root nullifiers output_commitments recipient exit_value s
          b =
        do
          _ ← ensure_signed origin
          refuse_if (nat_beq exit_value 0) zero_withdrawal
          refuse_if (ltb s.pool_balance exit_value) insufficient_pool_balance
          refuse_if (not (is_known_root config merkle_root s)) unknown_merkle_root
          s1 ← check_and_spend_nullifiers config nullifiers s
          let public_inputs : WithdrawPublicInputs = record {
            merkle_root = merkle_root;
            nullifiers = nullifiers;
            output_commitments = output_commitments;
            exit_value = exit_value;
          }
          refuse_if (not (verify_withdraw blake2_256 proof public_inputs)) invalid_proof
          s2 ← insert_outputs output_commitments s1
          let s3 = record s2 { pool_balance = s2.pool_balance - exit_value }
          b' ←
              ok_or (currency.transfer config.pool_account recipient exit_value false b)
                transfer_failed
          ok (s3, b')

unfoldable pub finalize_epoch : Origin → (block : ℕ) → Storage → Dispatch Storage
unfolding open_epoch
finalize_epoch origin block s = do
  ensure_root origin
  let epoch_id = s.current_epoch_id
  epoch ← ok_or (s.epochs epoch_id) epoch_not_ready
  refuse_if epoch.finalized epoch_already_finalized
  let nullifiers = nullifiers_of epoch_id s
  let new_epoch_id = (epoch_id + 1) % u64_mod
  ok (record s {
    epochs = insert new_epoch_id (open_epoch block) (
        insert epoch_id
          (record epoch {
            nullifier_root = compute_nullifier_root nullifiers;
            nullifier_count = length nullifiers % u32_mod;
            end_block = some block;
            finalized = true;
          })
          s.epochs);
    current_epoch_id = new_epoch_id;
  })

unfoldable pub sync_epoch_root : Origin → ℕ → ℕ → Text → Storage → Dispatch Storage
sync_epoch_root origin source_para_id epoch_id nullifier_root s = do
  ensure_root origin
  refuse_if (text_beq nullifier_root zero_h256) invalid_nullifier_root
  ok (record s {
    remote_epoch_roots = insert (source_para_id, epoch_id) nullifier_root s.remote_epoch_roots;
  })
