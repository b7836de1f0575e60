-- ===== src/CosmWasm/Contract/Calls.antt =====
-- Each handler's successful calls: what it has checked, and the response and state that it returns.
use sl.Prelude.{
  not-false, ℕ, ◌+◌, ◌-◌, ◌%◌, ◌<◌, ◌≤◌, ◌≡◌, refl, sym, ap, ◌∙◌, true, false, not, Option, some,
  List, [], ◌∷◌, Text, arith, insert, text_eq, nat_eq, text_beq, nat_beq, ltb, length,
}
use sl.Prelude.Words.{u128_mod, u64_mod, u32_mod}
use sl.CosmWasm.Outcome.{
  ok, zero_deposit, commitment_already_exists, unauthorized, epoch_already_finalized,
  zero_withdrawal, insufficient_pool_balance, invalid_nullifier_root, >>=-eq-ok, ok-injective,
  refuse_if, refuse_if-eq-ok, load, load-eq-ok, checked,
}
use sl.CosmWasm.Poseidon.{Crates}
use sl.CosmWasm.State.{State, EpochInfo, remote_key_eq}
use sl.CosmWasm.Msg.{Pair, Env, MessageInfo, Response}
use sl.CosmWasm.Tree.{insert_leaf}
use sl.CosmWasm.Nullifiers.{flag, compute_nullifier_root}
use sl.CosmWasm.Contract.{
  no_messages, new_epoch, amount_of, may_sync, execute_deposit, spend_and_insert, execute_transfer,
  execute_withdraw, execute_finalize_epoch, execute_sync_epoch_root, execute_update_governance,
  execute_set_authorized_relayer,
}
use sl.CosmWasm.Contract.Spend.{Spent, spend_and_insert-eq-ok}

checked-eq-ok : (m v : ℕ) {r : ℕ} → checked m v ≡ ok r → (v < m) × (r ≡ v)
checked-eq-ok m v h = ground arith

not_zero : (v : ℕ) → nat_beq v 0 ≡ false → 0 < v
not_zero v h = ground arith

not_less : (a b : ℕ) → ltb a b ≡ false → b ≤ a
not_less a b h = ground arith

-- The state after an epoch is closed with a root and the next one is opened.
abbrev pub finalized_with : Env → State → EpochInfo → List Text → Text → ℕ → State
finalized_with env s current nuls root next = record s {
  epochs = insert next (new_epoch env.height) (
      insert s.current_epoch_id
        (record current {
          nullifier_root = root;
          nullifier_count = length nuls % u32_mod;
          end_height = some env.height;
          finalized = true;
        })
        s.epochs);
  current_epoch_id = next;
  epoch_nullifiers = insert next [] s.epoch_nullifiers;
}

module _ (crates : Crates) where
  pub record Deposited (info : MessageInfo) (c : Text) (s : State) (out : Response × State)
      : Type 0 where
    pub paid : 0 < amount_of s.config.accepted_denom info.funds
    pub fresh : flag (s.commitment_exists c) ≡ false
    pub index : ℕ
    pub after : State
    pub inserted :
        insert_leaf crates c (record s { commitment_exists = insert c true s.commitment_exists })
        ≡ ok (index, after)
    pub fits : after.pool_balance + amount_of s.config.accepted_denom info.funds < u128_mod
    pub written : out ≡ (
      no_messages,
      record after {
        pool_balance = after.pool_balance + amount_of s.config.accepted_denom info.funds;
      },
    )

  pub execute_deposit-eq-ok :
      (info : MessageInfo) (c : Text) (s : State) (out : Response × State)
      → execute_deposit crates info c s ≡ ok out
      → Deposited info c s out
  unfolding execute_deposit
  execute_deposit-eq-ok info c s out h =
      let amount = amount_of s.config.accepted_denom info.funds in
      let (u, e1, h1) = >>=-eq-ok (refuse_if (nat_beq amount 0) zero_deposit) _ h in
      let (u', e2, h2) =
        >>=-eq-ok (refuse_if (flag (s.commitment_exists c)) commitment_already_exists) _ h1 in
      let (made, e3, h3) =
        >>=-eq-ok
          (insert_leaf crates c
            (record s { commitment_exists = insert c true s.commitment_exists }))
          _ h2 in
      let (b, e4, h4) = >>=-eq-ok (checked u128_mod (made.1.pool_balance + amount)) _ h3 in
      let (fit, is) = checked-eq-ok u128_mod (made.1.pool_balance + amount) e4 in
      record {
        paid = not_zero amount (refuse_if-eq-ok _ _ e1);
        fresh = refuse_if-eq-ok _ _ e2;
        index = made.0;
        after = made.1;
        inserted = e3;
        fits = fit;
        written =
            sym (ok-injective h4)
            ∙ ap (λ (v : ℕ). (no_messages, record made.1 { pool_balance = v })) is;
      }

  pub execute_transfer-eq-ok :
      (proof root : Text) (nuls outs : Pair) (s : State) (out : Response × State)
      → execute_transfer crates proof root nuls outs s ≡ ok out
      → Spent crates proof root nuls outs s out.1 × (out.0 ≡ no_messages)
  unfolding execute_transfer
  execute_transfer-eq-ok proof root nuls outs s out h =
      let (s', e, h1) = >>=-eq-ok (spend_and_insert crates proof root nuls outs s) _ h in
      rw (← ok-injective h1) (spend_and_insert-eq-ok crates proof root nuls outs s s' e, refl)

  pub record Withdrawn (proof root : Text) (nuls outs : Pair) (to : Text) (v : ℕ) (s : State)
      (out : Response × State) : Type 0 where
    pub positive : 0 < v
    pub covered : v ≤ s.pool_balance
    pub after : State
    pub spent : Spent crates proof root nuls outs s after
    pub written : out ≡ (
      record {
        messages =
            record {
              to_address = to;
              amount = record { denom = after.config.accepted_denom; amount = v } ∷ [];
            }
            ∷ [];
      },
      record after { pool_balance = after.pool_balance - v },
    )

  pub execute_withdraw-eq-ok :
      (proof root : Text) (nuls outs : Pair) (to : Text) (v : ℕ) (s : State)
      (out : Response × State)
      → execute_withdraw crates proof root nuls outs to v s ≡ ok out
      → Withdrawn proof root nuls outs to v s out
  unfolding execute_withdraw
  execute_withdraw-eq-ok proof root nuls outs to v s out h =
      let (u, e1, h1) = >>=-eq-ok (refuse_if (nat_beq v 0) zero_withdrawal) _ h in
      let (u', e2, h2) =
        >>=-eq-ok (refuse_if (ltb s.pool_balance v) insufficient_pool_balance) _ h1 in
      let (s', e, h3) = >>=-eq-ok (spend_and_insert crates proof root nuls outs s) _ h2 in
      record {
        positive = not_zero v (refuse_if-eq-ok _ _ e1);
        covered = not_less s.pool_balance v (refuse_if-eq-ok _ _ e2);
        after = s';
        spent = spend_and_insert-eq-ok crates proof root nuls outs s s' e;
        written = sym (ok-injective h3);
      }

  pub record Finalized (env : Env) (info : MessageInfo) (s : State) (out : Response × State)
      : Type 0 where
    pub by_governance : text_beq info.sender s.config.governance ≡ true
    pub current : EpochInfo
    pub found : s.epochs s.current_epoch_id ≡ some current
    pub was_open : current.finalized ≡ false
    pub nullifiers : List Text
    pub listed : s.epoch_nullifiers s.current_epoch_id ≡ some nullifiers
    pub nullifier_root : Text
    pub computed : compute_nullifier_root crates nullifiers ≡ ok nullifier_root
    pub written : out ≡ (
      no_messages,
      finalized_with env s current nullifiers nullifier_root (s.current_epoch_id + 1),
    )

  pub execute_finalize_epoch-eq-ok :
      (env : Env) (info : MessageInfo) (s : State) (out : Response × State)
      → execute_finalize_epoch crates env info s ≡ ok out
      → Finalized env info s out
  unfolding execute_finalize_epoch
  execute_finalize_epoch-eq-ok env info s out h =
      let (u, e1, h1) =
        >>=-eq-ok (refuse_if (not (text_beq info.sender s.config.governance)) unauthorized) _ h in
      let (current, e2, h2) = >>=-eq-ok (load (s.epochs s.current_epoch_id)) _ h1 in
      let (u', e3, h3) = >>=-eq-ok (refuse_if current.finalized epoch_already_finalized) _ h2 in
      let (nuls, e4, h4) = >>=-eq-ok (load (s.epoch_nullifiers s.current_epoch_id)) _ h3 in
      let (root, e5, h5) = >>=-eq-ok (compute_nullifier_root crates nuls) _ h4 in
      let (next, e6, h6) = >>=-eq-ok (checked u64_mod (s.current_epoch_id + 1)) _ h5 in
      let (fit, is) = checked-eq-ok u64_mod (s.current_epoch_id + 1) e6 in
      record {
        by_governance = not-false _ (refuse_if-eq-ok _ _ e1);
        current = current;
        found = load-eq-ok (s.epochs s.current_epoch_id) e2;
        was_open = refuse_if-eq-ok _ _ e3;
        nullifiers = nuls;
        listed = load-eq-ok (s.epoch_nullifiers s.current_epoch_id) e4;
        nullifier_root = root;
        computed = e5;
        written =
            sym (ok-injective h6)
            ∙ ap (λ (v : ℕ). (no_messages, finalized_with env s current nuls root v)) is;
      }

  pub execute_sync_epoch_root-eq-ok :
      (info : MessageInfo) (chain epoch_id : ℕ) (root : Text) (s : State) (out : Response × State)
      → execute_sync_epoch_root crates info chain epoch_id root s ≡ ok out
      → (may_sync s info.sender ≡ true)
        × (0 < length root)
        × (out ≡ (
          no_messages,
          record s { remote_epoch_roots = insert (chain, epoch_id) root s.remote_epoch_roots },
        ))
  unfolding execute_sync_epoch_root
  execute_sync_epoch_root-eq-ok info chain epoch_id root s out h =
      let (u, e1, h1) = >>=-eq-ok (refuse_if (not (may_sync s info.sender)) unauthorized) _ h in
      let (u', e2, h2) =
        >>=-eq-ok (refuse_if (nat_beq (length root) 0) invalid_nullifier_root) _ h1 in
      (
        not-false _ (refuse_if-eq-ok _ _ e1),
        not_zero (length root) (refuse_if-eq-ok _ _ e2),
        sym (ok-injective h2),
      )

  pub execute_update_governance-eq-ok :
      (info : MessageInfo) (g : Text) (s : State) (out : Response × State)
      → execute_update_governance crates info g s ≡ ok out
      → (text_beq info.sender s.config.governance ≡ true)
        × (out ≡ (no_messages, record s { config = record s.config { governance = g } }))
  unfolding execute_update_governance
  execute_update_governance-eq-ok info g s out h =
      let (u, e1, h1) =
        >>=-eq-ok (refuse_if (not (text_beq info.sender s.config.governance)) unauthorized) _ h in
      (not-false _ (refuse_if-eq-ok _ _ e1), sym (ok-injective h1))

  pub execute_set_authorized_relayer-eq-ok :
      (info : MessageInfo) (r : Option Text) (s : State) (out : Response × State)
      → execute_set_authorized_relayer crates info r s ≡ ok out
      → (text_beq info.sender s.config.governance ≡ true)
        × (out ≡ (no_messages, record s { config = record s.config { authorized_relayer = r } }))
  unfolding execute_set_authorized_relayer
  execute_set_authorized_relayer-eq-ok info r s out h =
      let (u, e1, h1) =
        >>=-eq-ok (refuse_if (not (text_beq info.sender s.config.governance)) unauthorized) _ h in
      (not-false _ (refuse_if-eq-ok _ _ e1), sym (ok-injective h1))
