-- ===== src/Near/Pool.antt =====
-- The methods of `PrivacyPool` in near/contracts/privacy-pool/src/lib.rs.
pub mod Method
pub mod Effects
pub mod History
pub mod Reachable
pub mod Epochs
pub mod Accepts
use sl.Prelude.{
  ℕ, ◌+◌, ◌-◌, ◌%◌, Bool, true, false, not, ◌&&◌, ◌||◌, Option, none, some, List, [], ◌∷◌, Text,
  ltb, leb, nat_beq, text_beq, text_eq, nat_eq, length, Map, insert, no_entries, zero, suc,
}
use sl.Prelude.Words.{u32_mod, u64_mod, u128_mod}
use sl.Merkle.{unwrap_or}
use sl.Panic.{◌>>=◌, ◌>>◌, assert, fits}
use sl.Near.State.{PrivacyPool, EpochInfo, PoolStatus, Context, Transfer}
use sl.Near.Hash.{Host, zero_hash_text, poseidon_hash_hex, compute_nullifier_root}
use sl.Near.Verifier.{verify_proof_binding}
use sl.Near.Tree.{tree_depth, insert_leaf, is_known_root}
use sl.Near.Nullifiers.{is_some, check_and_spend_nullifiers}
use sl.Near.Key.{remote_key}

unfoldable pub open_epoch : ℕ → EpochInfo
open_epoch height = record {
  start_block = height;
  end_block = none;
  nullifier_root = zero_hash_text;
  nullifier_count = 0;
  finalized = false;
}

-- `assert!(xs.len() == 2)`, with the two entries that are read after it.
unfoldable pub exactly_two : List Text → Option (Text × Text)
exactly_two (x ∷ y ∷ []) = some (x, y)
exactly_two _ = none

-- Governance, or the authorized relayer if there is one.
unfoldable pub may_sync : PrivacyPool → Text → Bool
may_sync s caller =
    text_beq caller s.governance
    || elim s.authorized_relayer [ none ↦ false | some r ↦ text_beq caller r ]

module _ (host : Host) where
  -- The loop of `new` that stores the empty subtrees, for the levels left; it returns the empty root
  -- too.
  unfoldable pub init_subtrees : ℕ → ℕ → Text → Map ℕ Text → Text × Map ℕ Text
  init_subtrees zero level current_zero filled = (current_zero, filled)
  init_subtrees (suc left) level current_zero filled =
      init_subtrees left (suc level) (poseidon_hash_hex host current_zero current_zero)
        (insert level current_zero filled)

  -- `state_exists` is what the host says.
  unfoldable pub new : Context → (state_exists : Bool) → Text → ℕ → ℕ → Option PrivacyPool
  new context state_exists governance domain_chain_id domain_app_id = do
    assert (not state_exists)
    let tree = init_subtrees tree_depth 0 zero_hash_text no_entries
    some (record {
      next_leaf_index = 0;
      filled_subtrees = tree.1;
      roots = insert 0 tree.0 no_entries;
      current_root_index = 0;
      nullifier_spent = no_entries;
      commitment_exists = no_entries;
      pool_balance = 0;
      current_epoch_id = 0;
      epochs = insert 0 (open_epoch context.block_height) no_entries;
      epoch_nullifiers = insert 0 [] no_entries;
      remote_epoch_roots = no_entries;
      governance = governance;
      authorized_relayer = none;
      domain_chain_id = domain_chain_id;
      domain_app_id = domain_app_id;
    })

  unfoldable pub deposit : Context → Text → PrivacyPool → Option PrivacyPool
  deposit context commitment s = do
    assert (ltb 0 context.attached_deposit)
    assert (not (is_some (s.commitment_exists commitment)))
    (_, s') ←
        insert_leaf host commitment
          (record s { commitment_exists = insert commitment true s.commitment_exists })
    balance ← fits u128_mod (s'.pool_balance + context.attached_deposit)
    some (record s' { pool_balance = balance })

  -- What `transfer` and `withdraw` share, from the check of the root to the new leaves.
  unfoldable pub spend_and_insert :
      Text → Text → List Text → List Text → Text × Text → PrivacyPool → Option PrivacyPool
  spend_and_insert proof merkle_root nullifiers output_commitments (c0, c1) s = do
    assert (is_known_root s merkle_root)
    s1 ← check_and_spend_nullifiers nullifiers s
    assert (verify_proof_binding host proof merkle_root nullifiers output_commitments)
    (_, s2) ← insert_leaf host c0 s1
    (_, s3) ← insert_leaf host c1 s2
    some s3

  unfoldable pub transfer : Text → Text → List Text → List Text → PrivacyPool → Option PrivacyPool
  transfer proof merkle_root nullifiers output_commitments s = do
    _ ← exactly_two nullifiers
    outs ← exactly_two output_commitments
    spend_and_insert proof merkle_root nullifiers output_commitments outs s

  unfoldable pub withdraw :
      Text → Text → List Text → List Text → Text → ℕ → PrivacyPool → Option (Transfer × PrivacyPool)
  withdraw proof merkle_root nullifiers output_commitments recipient exit_amount s = do
    _ ← exactly_two nullifiers
    outs ← exactly_two output_commitments
    assert (ltb 0 exit_amount)
    assert (leb exit_amount s.pool_balance)
    s' ← spend_and_insert proof merkle_root nullifiers output_commitments outs s
    some (
      record { recipient = recipient; amount = exit_amount },
      record s' { pool_balance = s'.pool_balance - exit_amount },
    )

  -- `epoch_id + 1` in a build with overflow checks.
  unfoldable pub finalize_epoch : Context → PrivacyPool → Option PrivacyPool
  finalize_epoch context s = do
    assert (text_beq context.predecessor s.governance)
    let epoch_id = s.current_epoch_id
    current ← s.epochs epoch_id
    assert (not current.finalized)
    let nullifiers = unwrap_or [] (s.epoch_nullifiers epoch_id)
    new_epoch_id ← fits u64_mod (epoch_id + 1)
    some (record s {
      epochs = insert new_epoch_id (open_epoch context.block_height) (
          insert epoch_id
            (record current {
              nullifier_root = compute_nullifier_root host nullifiers;
              nullifier_count = length nullifiers % u32_mod;
              end_block = some context.block_height;
              finalized = true;
            })
            s.epochs);
      current_epoch_id = new_epoch_id;
      epoch_nullifiers = insert new_epoch_id [] s.epoch_nullifiers;
    })

unfoldable pub set_authorized_relayer : Context → Option Text → PrivacyPool → Option PrivacyPool
set_authorized_relayer context relayer s = do
  assert (text_beq context.predecessor s.governance)
  some (record s { authorized_relayer = relayer })

unfoldable pub sync_epoch_root : Context → ℕ → ℕ → Text → PrivacyPool → Option PrivacyPool
sync_epoch_root context source_chain_id epoch_id nullifier_root s = do
  assert (may_sync s context.predecessor)
  assert (not (nat_beq (length nullifier_root) 0))
  some (record s {
    remote_epoch_roots =
        insert (remote_key source_chain_id epoch_id) nullifier_root s.remote_epoch_roots;
  })

unfoldable pub get_latest_root : PrivacyPool → Text
get_latest_root s = unwrap_or zero_hash_text (s.roots s.current_root_index)

unfoldable pub get_pool_status : PrivacyPool → PoolStatus
unfolding get_latest_root
get_pool_status s = record {
  total_deposits = s.next_leaf_index;
  pool_balance = s.pool_balance;
  current_epoch = s.current_epoch_id;
  latest_root = get_latest_root s;
  domain_chain_id = s.domain_chain_id;
  domain_app_id = s.domain_app_id;
}

unfoldable pub is_nullifier_spent : PrivacyPool → Text → Bool
is_nullifier_spent s nullifier = is_some (s.nullifier_spent nullifier)

unfoldable pub get_epoch_info : PrivacyPool → ℕ → Option EpochInfo
get_epoch_info s epoch_id = s.epochs epoch_id

unfoldable pub get_remote_epoch_root : PrivacyPool → ℕ → ℕ → Option Text
get_remote_epoch_root s source_chain_id epoch_id =
    s.remote_epoch_roots (remote_key source_chain_id epoch_id)
