-- ===== src/CosmWasm/Contract.antt =====
-- The entry points and handlers of cosmwasm/contracts/privacy-pool/src/contract.rs.
pub mod Effects
pub mod Spend
pub mod Calls
pub mod Leaves
pub mod Spending
pub mod Balance
pub mod Epochs
pub mod Past
pub mod Sealed
pub mod Accepts
use sl.Prelude.{
  ℕ, zero, suc, ◌+◌, ◌-◌, ◌%◌, Bool, true, false, not, ◌||◌, Option, none, some, List, [], ◌∷◌,
  Text, ltb, nat_beq, text_beq, text_eq, nat_eq, if◌then◌else◌, length, Map, insert, no_entries,
}
use sl.Prelude.Words.{u32_mod, u64_mod, u128_mod}
use sl.CosmWasm.Outcome.{
  Outcome, ok, unauthorized, zero_deposit, commitment_already_exists, invalid_proof,
  unknown_merkle_root, insufficient_pool_balance, zero_withdrawal, epoch_already_finalized,
  invalid_nullifier_root, ◌>>=◌, ◌>>◌, refuse_if, load, checked,
}
use sl.CosmWasm.Poseidon.{Crates, poseidon_hash_hex}
use sl.CosmWasm.State.{State, EpochInfo, remote_key_eq}
use sl.CosmWasm.Msg
use sl.CosmWasm.Msg.{
  InstantiateMsg, Pair, ExecuteMsg, QueryMsg, QueryResponse, Coin, Env, MessageInfo, Response, root,
  known, status, epoch, remote_root,
}
use sl.CosmWasm.Proof.{verify_proof_binding}
use sl.CosmWasm.Tree.{zero_hash_text, insert_leaf}
use sl.CosmWasm.Tree
use sl.CosmWasm.Nullifiers.{flag, check_and_spend_nullifiers, compute_nullifier_root}

abbrev pub no_messages : Response
no_messages = record { messages = [] }

-- An epoch as it is opened.
unfoldable pub new_epoch : ℕ → EpochInfo
new_epoch height = record {
  start_height = height;
  end_height = none;
  nullifier_root = zero_hash_text;
  nullifier_count = 0;
  finalized = false;
}

-- The amount of the first coin of the accepted denomination, or zero.
unfoldable pub amount_of : Text → List Coin → ℕ
amount_of denom [] = 0
amount_of denom (c ∷ funds) = if text_beq c.denom denom then c.amount else amount_of denom funds

-- Governance, or the authorized relayer if there is one.
unfoldable pub may_sync : State → Text → Bool
may_sync s sender =
    text_beq sender s.config.governance
    || elim s.config.authorized_relayer [ none ↦ false | some r ↦ text_beq sender r ]

module _ (crates : Crates) where
  -- The loop of `instantiate` that stores the empty subtrees, for the levels left; it returns the
  -- empty root too.
  unfoldable pub init_subtrees : ℕ → ℕ → Text → Map ℕ Text → Outcome (Text × Map ℕ Text)
  init_subtrees zero level current_zero filled = ok (current_zero, filled)
  init_subtrees (suc left) level current_zero filled = do
    next ← poseidon_hash_hex crates current_zero current_zero
    init_subtrees left (suc level) next (insert level current_zero filled)

  unfoldable pub instantiate : Env → InstantiateMsg → Outcome (Response × State)
  instantiate env msg = do
    (empty_root, filled) ← init_subtrees msg.tree_depth 0 zero_hash_text no_entries
    ok (
      no_messages,
      record {
        config = record {
          tree_depth = msg.tree_depth;
          epoch_duration = msg.epoch_duration;
          max_nullifiers_per_epoch = msg.max_nullifiers_per_epoch;
          root_history_size = msg.root_history_size;
          domain_chain_id = msg.domain_chain_id;
          domain_app_id = msg.domain_app_id;
          governance = msg.governance;
          accepted_denom = msg.accepted_denom;
          authorized_relayer = none;
        };
        next_leaf_index = 0;
        filled_subtrees = filled;
        roots = insert 0 empty_root no_entries;
        current_root_index = 0;
        nullifier_spent = no_entries;
        commitment_exists = no_entries;
        pool_balance = 0;
        current_epoch_id = 0;
        epochs = insert 0 (new_epoch env.height) no_entries;
        epoch_nullifiers = insert 0 [] no_entries;
        remote_epoch_roots = no_entries;
      },
    )

  unfoldable pub execute_deposit : MessageInfo → Text → State → Outcome (Response × State)
  execute_deposit info commitment s = do
    let amount = amount_of s.config.accepted_denom info.funds
    refuse_if (nat_beq amount 0) zero_deposit
    refuse_if (flag (s.commitment_exists commitment)) commitment_already_exists
    (_, s') ←
        insert_leaf crates commitment
          (record s { commitment_exists = insert commitment true s.commitment_exists })
    balance ← checked u128_mod (s'.pool_balance + amount)
    ok (no_messages, record s' { pool_balance = balance })

  -- What a transfer and a withdrawal share, from the check of the root to the new leaves.
  unfoldable pub spend_and_insert : Text → Text → Pair → Pair → State → Outcome State
  spend_and_insert proof merkle_root nullifiers output_commitments s = do
    refuse_if (not (Tree.is_known_root s merkle_root)) unknown_merkle_root
    s1 ← check_and_spend_nullifiers nullifiers s
    refuse_if (not (verify_proof_binding crates proof merkle_root nullifiers output_commitments))
        invalid_proof
    (_, s2) ← insert_leaf crates output_commitments.0 s1
    (_, s3) ← insert_leaf crates output_commitments.1 s2
    ok s3

  unfoldable pub execute_transfer : Text → Text → Pair → Pair → State → Outcome (Response × State)
  execute_transfer proof merkle_root nullifiers output_commitments s = do
    s' ← spend_and_insert proof merkle_root nullifiers output_commitments s
    ok (no_messages, s')

  -- `checked_sub(exit_value).unwrap_or(zero)` is the subtraction that stops at zero.
  unfoldable pub execute_withdraw :
      Text → Text → Pair → Pair → Text → ℕ → State → Outcome (Response × State)
  execute_withdraw proof merkle_root nullifiers output_commitments recipient exit_value s = do
    refuse_if (nat_beq exit_value 0) zero_withdrawal
    refuse_if (ltb s.pool_balance exit_value) insufficient_pool_balance
    s' ← spend_and_insert proof merkle_root nullifiers output_commitments s
    ok (
      record {
        messages =
            record {
              to_address = recipient;
              amount = record { denom = s'.config.accepted_denom; amount = exit_value } ∷ [];
            }
            ∷ [];
      },
      record s' { pool_balance = s'.pool_balance - exit_value },
    )

  -- `epoch_id + 1` in a build with overflow checks.
  unfoldable pub execute_finalize_epoch : Env → MessageInfo → State → Outcome (Response × State)
  execute_finalize_epoch env info s = do
    refuse_if (not (text_beq info.sender s.config.governance)) unauthorized
    let epoch_id = s.current_epoch_id
    current ← load (s.epochs epoch_id)
    refuse_if current.finalized epoch_already_finalized
    nullifiers ← load (s.epoch_nullifiers epoch_id)
    nullifier_root ← compute_nullifier_root crates nullifiers
    new_epoch_id ← checked u64_mod (epoch_id + 1)
    ok (
      no_messages,
      record s {
        epochs = insert new_epoch_id (new_epoch env.height) (
            insert epoch_id
              (record current {
                nullifier_root = nullifier_root;
                nullifier_count = length nullifiers % u32_mod;
                end_height = some env.height;
                finalized = true;
              })
              s.epochs);
        current_epoch_id = new_epoch_id;
        epoch_nullifiers = insert new_epoch_id [] s.epoch_nullifiers;
      },
    )

  unfoldable pub execute_sync_epoch_root :
      MessageInfo → ℕ → ℕ → Text → State → Outcome (Response × State)
  execute_sync_epoch_root info source_chain_id epoch_id nullifier_root s = do
    refuse_if (not (may_sync s info.sender)) unauthorized
    refuse_if (nat_beq (length nullifier_root) 0) invalid_nullifier_root
    ok (
      no_messages,
      record s {
        remote_epoch_roots = insert (source_chain_id, epoch_id) nullifier_root s.remote_epoch_roots;
      },
    )

  unfoldable pub execute_update_governance : MessageInfo → Text → State → Outcome (Response × State)
  execute_update_governance info new_governance s = do
    refuse_if (not (text_beq info.sender s.config.governance)) unauthorized
    ok (no_messages, record s { config = record s.config { governance = new_governance } })

  unfoldable pub execute_set_authorized_relayer :
      MessageInfo → Option Text → State → Outcome (Response × State)
  execute_set_authorized_relayer info relayer s = do
    refuse_if (not (text_beq info.sender s.config.governance)) unauthorized
    ok (no_messages, record s { config = record s.config { authorized_relayer = relayer } })

  unfoldable pub execute : Env → MessageInfo → ExecuteMsg → State → Outcome (Response × State)
  execute env info (Msg.deposit commitment) s = execute_deposit info commitment s
  execute env info (Msg.transfer proof merkle_root nuls outs) s =
      execute_transfer proof merkle_root nuls outs s
  execute env info (Msg.withdraw proof merkle_root nuls outs recipient exit_value) s =
      execute_withdraw proof merkle_root nuls outs recipient exit_value s
  execute env info Msg.finalize_epoch s = execute_finalize_epoch env info s
  execute env info (Msg.sync_epoch_root chain epoch_id r) s =
      execute_sync_epoch_root info chain epoch_id r s
  execute env info (Msg.update_governance g) s = execute_update_governance info g s
  execute env info (Msg.set_authorized_relayer r) s = execute_set_authorized_relayer info r s

unfoldable pub query : QueryMsg → State → Outcome QueryResponse
query Msg.latest_root s = do r ← load (s.roots s.current_root_index); ok (root r)
query (Msg.is_known_root r) s = ok (known (Tree.is_known_root s r))
query (Msg.is_spent n) s = ok (known (flag (s.nullifier_spent n)))
query Msg.pool_status s = do
  r ← load (s.roots s.current_root_index)
  ok (
      status (record {
        total_deposits = s.next_leaf_index;
        pool_balance = s.pool_balance;
        current_epoch = s.current_epoch_id;
        latest_root = r;
      }))
query (Msg.epoch_info id) s = do
  e ← load (s.epochs id)
  ok (
      epoch (record {
        epoch_id = id;
        nullifier_root = e.nullifier_root;
        nullifier_count = e.nullifier_count;
        finalized = e.finalized;
      }))
query (Msg.remote_epoch_root chain id) s = ok (remote_root (s.remote_epoch_roots (chain, id)))
