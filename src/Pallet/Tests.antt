-- ===== src/Pallet/Tests.antt =====
-- The theorems of pallets/privacy-pool at concrete inputs.
use sl.Prelude.{
  ◌+◌, ◌<◌, ℕ, ◌≤◌, ◌≡◌, ◌≢◌, refl, true, false, not, ◌&&◌, none, some, [], ◌∷◌, Text, arith, take,
  text_beq, nat_beq, text_eq, ap, Bool,
}
use sl.Fallible.{ok, err}
use sl.Ring.{contains}
use sl.Distinct.{is_distinct}
use sl.CosmWasm.Fixtures.{repeat}
use sl.Pallet.State.{root, Storage, Origin, signed, TransferPublicInputs, bad_origin}
use sl.Pallet.Poseidon.{zero_h256}
use sl.Pallet.Tree.{is_known_root, get_latest_root, insert_leaf, remainder}
use sl.Pallet.Tree.Insert.{IsSane, roots_after}
use sl.Pallet.Nullifiers.{is_spent}
use sl.Pallet.Pool
use sl.Pallet.Pool.{open_epoch, init_subtrees}
use sl.Pallet.Call.{Call, call, History, no_history, after, Reachable, genesis, called}
use sl.Pallet.Field.{IsH256}
use sl.Pallet.Reachable.{known_root-IsH256, known_root-Reachable, nullifiers-Reachable}
use sl.Pallet.Redirect.{withdraw_redirected}
use sl.Pallet.Authority.{call-bad_origin}
use sl.Pallet.Xcm.{
  PrivacyXcmMessage, process_incoming, encode_for_xcm, action_of, build_sync_epoch_root_xcm,
  store_remote_epoch_root, build_verify_nullifier_xcm, check_nullifier_and_respond,
}
use sl.Pallet.Xcm.Delivery.{process_incoming-encode}
use sl.Pallet.Xcm.Fixtures.{flat, flat-IsCodec}
use sl.Prelude.Words.{u64_mod}
use sl.Pallet.Timeline.{IsTimeline, epochs_of}
use sl.Pallet.Solvent.{shortfall, withdrawals, solvent-Reachable}
use sl.Pallet.Timeline.Calls.{closings, epoch_lists-Reachable}
use sl.Pallet.Fixtures.{
  pallet_funded_root, pallet_closed, pallet_closed_lem, small, small_config, pallet_blake,
  plain_currency, plain_currency-IsCurrency, account, depositor, started_balances, pallet_started,
  leaf49, pallet_funded, pallet_funded_lem, pallet_nuls, pallet_outs, pallet_proof, pallet_withdraw,
  moved, pallet_moved, pallet_moved_lem, pay,
}

small-IsSane : IsSane small_config
small-IsSane = record { shallow = omega arith; slots = omega arith; few_slots = omega arith }

abbrev is_depositor : Origin → Bool
is_depositor (signed who) = text_beq who depositor
is_depositor other = false

abbrev is_root : Origin → Bool
is_root root = true
is_root other = false

not_account : signed depositor ≢ signed account
not_account same = ground (arith, ap is_depositor same)

reached1 :
    Reachable small (after (Call.deposit leaf49 100) no_history) pallet_funded.0 pallet_funded.1
unfolding pallet_started
reached1 =
    called (genesis started_balances) (signed depositor) 1 (Call.deposit leaf49 100) pallet_funded.0
      pallet_funded.1 not_account pallet_funded_lem

abbrev history2 : History
history2 = after pallet_withdraw (after (Call.deposit leaf49 100) no_history)

reached2 : Reachable small history2 pallet_moved.0 pallet_moved.1
reached2 =
    called reached1 (signed depositor) 2 pallet_withdraw pallet_moved.0 pallet_moved.1 not_account
      pallet_moved_lem

known_root-Reachable_example :
    is_known_root small_config (get_latest_root pallet_funded.0) pallet_moved.0 ≡ (
      not (text_beq (get_latest_root pallet_funded.0) zero_h256)
      && contains
          (get_latest_root pallet_funded.0)
          (take 3 (roots_after small_config history2.leaves)))
known_root-Reachable_example =
    known_root-Reachable small small-IsSane history2 pallet_moved.0 pallet_moved.1
      (get_latest_root pallet_funded.0) reached2

nullifiers-Reachable_example :
    (is_distinct history2.spent ≡ true)
    × ((n : Text) → is_spent pallet_moved.0 n ≡ contains n history2.spent)
nullifiers-Reachable_example =
    nullifiers-Reachable small small-IsSane history2 pallet_moved.0 pallet_moved.1 reached2

solvent-Reachable_example :
    pallet_moved.0.pool_balance
    ≤ pallet_moved.1 account + shortfall small (withdrawals small reached2)
solvent-Reachable_example = solvent-Reachable small small-IsSane plain_currency-IsCurrency reached2

abbrev transfer_inputs : TransferPublicInputs
transfer_inputs = record {
  merkle_root = leaf49;
  nullifiers = pallet_nuls;
  output_commitments = pallet_outs;
  domain_chain_id = 2000;
  domain_app_id = 1;
}

moved_directly :
    Pool.withdraw small_config pallet_blake plain_currency
      (signed depositor)
      pallet_proof
      (get_latest_root pallet_funded.0)
      pallet_nuls
      pallet_outs
      depositor
      60
      pallet_funded.0
      pallet_funded.1
    ≡ ok (pallet_moved.0, pallet_moved.1)
unfolding call
moved_directly = pallet_moved_lem

-- "eve"
abbrev other : Text
other = 101 ∷ 118 ∷ 101 ∷ []

abbrev other_outs : Text × Text
other_outs = (repeat 32 90, repeat 32 91)

paid_other :
    pay account other 60 false pallet_funded.1 ≡ some (moved account other 60 0 pallet_funded.1)
unfolding pay pallet_funded call Pool.deposit text_beq pallet_started Pool.build insert_leaf
    remainder
paid_other = refl

withdraw_redirected_example :
    (s' : Storage) × (Pool.withdraw small_config pallet_blake plain_currency
        (signed other)
        pallet_proof
        (get_latest_root pallet_funded.0)
        pallet_nuls
        other_outs
        other
        60
        pallet_funded.0
        pallet_funded.1
      ≡ ok (s', moved account other 60 0 pallet_funded.1))
withdraw_redirected_example =
    withdraw_redirected small_config pallet_blake plain_currency depositor other pallet_proof
      (get_latest_root pallet_funded.0) pallet_nuls pallet_outs other_outs depositor other 60
      pallet_funded.0 pallet_funded.1 (pallet_moved.0, pallet_moved.1) moved_directly
      (moved account other 60 0 pallet_funded.1) paid_other

call-bad_origin_example :
    call small (signed depositor) 5 Call.finalize_epoch pallet_funded.0 pallet_funded.1
    ≡ err bad_origin
call-bad_origin_example =
    call-bad_origin small (signed depositor) 5 Call.finalize_epoch pallet_funded.0 pallet_funded.1
      refl

process_incoming-encode_example :
    ((m : PrivacyXcmMessage) → process_incoming flat (encode_for_xcm flat m) ≡ some (action_of m))
    × ((target source id : ℕ) (r : Text) (count : ℕ)
        → process_incoming flat (build_sync_epoch_root_xcm flat target source id r count)
          ≡ some (store_remote_epoch_root source id r count))
    × ((para : ℕ) (n : Text) (nonce : ℕ)
        → process_incoming flat (build_verify_nullifier_xcm flat para n nonce)
          ≡ some (check_nullifier_and_respond para n nonce))
    × (process_incoming flat [] ≡ none)
    × ((b : ℕ) (rest : Text) → nat_beq b 0x50 ≡ false → process_incoming flat (b ∷ rest) ≡ none)
process_incoming-encode_example = process_incoming-encode flat flat-IsCodec

not_account_root : root ≢ signed account
not_account_root same = ground (arith, ap is_root same)

reached3 : Reachable small history2 pallet_closed.0 pallet_closed.1
reached3 =
    called reached2 root 3 Call.finalize_epoch pallet_closed.0 pallet_closed.1 not_account_root
      pallet_closed_lem

one_closed : closings small small-IsSane reached3 < u64_mod
unfolding reached3 reached2 reached1
one_closed = omega arith

epoch_lists-Reachable_example :
    (pallet_closed.0.current_epoch_id ≡ closings small small-IsSane reached3)
    × IsTimeline history2.spent (epochs_of pallet_closed.0)
epoch_lists-Reachable_example = epoch_lists-Reachable small small-IsSane reached3 one_closed

known_root-IsH256_example : IsH256 (get_latest_root pallet_funded.0)
known_root-IsH256_example =
    known_root-IsH256 small small-IsSane (after (Call.deposit leaf49 100) no_history)
      pallet_funded.0 pallet_funded.1 (get_latest_root pallet_funded.0) reached1 (omega arith)
      pallet_funded_root
