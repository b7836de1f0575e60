-- ===== src/Ink/Fixtures.antt =====
-- Concrete inputs for the tests of ink/privacy-pool: a stand-in for the host, without overflow checks, and
-- a pool after a deposit, a transfer and a commit that is reclaimed.
use sl.Prelude.{ℕ, ◌+◌, ◌%◌, ◌≡◌, refl, false, true, List, [], ◌++◌, Text, text_beq}
use sl.Fallible.{ok}
use sl.CosmWasm.Fixtures.{repeat, checksum}
use sl.Ink.State.{PrivacyPool, Env, Host, Payment, Outcome}
use sl.Ink.Tree.{
  zero_value, zero_bytes, is_some, shifted_one, hash_pair, update_level, update_path, update_tree,
  store_leaf, add_output, push_root, scan_history, is_known_root,
}
use sl.Ink.Proof.{Pair, expected_binding, encode_inputs, verify_proof_structure}
use sl.Ink.Pool.{new, check_unspent, is_nullifier_spent, mark_spent, transfer}
use sl.Ink.Pool.Deposits.{deposit, commit_deposit, reveal_deposit, reclaim_expired_commit, used}
use sl.Ink.Pool.Governance.{finalize_epoch, is_stranger}
use sl.Ink.Message.{Message, call}

-- Not Keccak: 32 times a byte that depends on the text.
unfoldable pub ink_keccak : Text → Text
ink_keccak m = repeat 32 (checksum 1 m % 251 + 1)

abbrev pub ink_host : Host
ink_host = record { keccak256 = ink_keccak; overflow_checks = false }

abbrev pub at_block : ℕ → ℕ → Env
at_block block value = record {
  caller = repeat 32 1;
  block_number = block;
  transferred_value = value;
  pays = true;
}

abbrev pub bytes : ℕ → Text
bytes c = repeat 32 c

unfoldable pub ink_started : PrivacyPool
ink_started = new (at_block 1 0) 10

abbrev pub state_or : PrivacyPool → Outcome (List Payment × PrivacyPool) → PrivacyPool
state_or s (ok (payments, s')) = s'
state_or s _ = s

unfoldable pub ink_funded : PrivacyPool
ink_funded =
    state_or ink_started (call ink_host (at_block 2 100) (Message.deposit (bytes 49)) ink_started)

pub ink_funded_lem :
    call ink_host (at_block 2 100) (Message.deposit (bytes 49)) ink_started ≡ ok ([], ink_funded)
unfolding ink_funded ink_started new call deposit is_some shifted_one store_leaf
ink_funded_lem = refl

abbrev pub ink_nuls : Pair
ink_nuls = (bytes 50, bytes 51)

abbrev pub ink_outs : Pair
ink_outs = (bytes 52, bytes 53)

abbrev pub ink_body : Text
ink_body = repeat 160 9

abbrev pub ink_proof : Text
ink_proof = expected_binding ink_host ink_nuls ink_outs ink_body ++ ink_body

abbrev pub ink_transfer : Message
ink_transfer = Message.transfer ink_proof ink_funded.current_root ink_nuls ink_outs

unfoldable pub ink_moved : PrivacyPool
ink_moved = state_or ink_funded (call ink_host (at_block 3 0) ink_transfer ink_funded)

pub ink_moved_lem : call ink_host (at_block 3 0) ink_transfer ink_funded ≡ ok ([], ink_moved)
unfolding ink_moved call transfer is_known_root scan_history check_unspent is_nullifier_spent
    verify_proof_structure expected_binding encode_inputs mark_spent add_output store_leaf
    update_tree update_path update_level hash_pair push_root is_some ink_keccak text_beq zero_value
    zero_bytes ink_funded ink_started new deposit shifted_one
ink_moved_lem = refl

-- A commit in an empty pool, made at block 4 and reclaimed at block 105.
unfoldable pub ink_committed : PrivacyPool
ink_committed =
    state_or ink_started
      (call ink_host (at_block 4 7) (Message.commit_deposit (bytes 60)) ink_started)

pub ink_committed_lem :
    call ink_host (at_block 4 7) (Message.commit_deposit (bytes 60)) ink_started
    ≡ ok ([], ink_committed)
unfolding ink_committed call commit_deposit is_some ink_started new
ink_committed_lem = refl

unfoldable pub ink_reclaimed : PrivacyPool
ink_reclaimed =
    state_or ink_committed
      (call ink_host (at_block 105 0) (Message.reclaim_expired_commit (bytes 60)) ink_committed)

pub ink_reclaimed_lem :
    call ink_host (at_block 105 0) (Message.reclaim_expired_commit (bytes 60)) ink_committed
    ≡ ok ([], ink_reclaimed)
unfolding ink_reclaimed call reclaim_expired_commit used ink_committed commit_deposit is_some
    ink_started new text_beq
ink_reclaimed_lem = refl

-- The first epoch, closed after the deposit.
unfoldable pub ink_closed : PrivacyPool
ink_closed = state_or ink_funded (call ink_host (at_block 9 0) Message.finalize_epoch ink_funded)

pub ink_closed_lem :
    call ink_host (at_block 9 0) Message.finalize_epoch ink_funded ≡ ok ([], ink_closed)
unfolding ink_closed call finalize_epoch is_stranger ink_funded deposit is_some shifted_one
    store_leaf update_tree push_root ink_started new text_beq
ink_closed_lem = refl

abbrev revealed_or : Outcome (ℕ × PrivacyPool) → ℕ × PrivacyPool
revealed_or (ok out) = out
revealed_or other = (0, ink_started)

-- The commit, revealed as another commitment at block 10.
unfoldable pub ink_revealed : ℕ × PrivacyPool
ink_revealed =
    revealed_or (reveal_deposit ink_host (at_block 10 0) (bytes 60) (bytes 49) ink_committed)

pub ink_revealed_lem :
    reveal_deposit ink_host (at_block 10 0) (bytes 60) (bytes 49) ink_committed ≡ ok ink_revealed
unfolding ink_revealed reveal_deposit used ink_committed call commit_deposit is_some ink_started new
    text_beq shifted_one store_leaf
ink_revealed_lem = refl

pub ink_committed_48 : is_some (ink_committed.leaves (bytes 48)) ≡ false
unfolding ink_committed call commit_deposit is_some ink_started new
ink_committed_48 = refl
