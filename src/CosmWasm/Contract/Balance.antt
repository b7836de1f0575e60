-- ===== src/CosmWasm/Contract/Balance.antt =====
-- Money: the change of the recorded balance is what a deposit brings, less what a withdrawal sends.
use sl.Prelude.{
  ℕ, ◌+◌, ◌-◌, ◌≤◌, ◌≡◌, refl, ap, true, List, [], ◌∷◌, Text, arith, insert, text_eq, nat_eq,
  text_beq, text_beq_iff, if◌then◌else◌,
}
use sl.CosmWasm.Outcome.{ok}
use sl.CosmWasm.Poseidon.{Crates}
use sl.CosmWasm.State.{State}
use sl.CosmWasm.Msg.{ExecuteMsg, Pair, Env, MessageInfo, Response, Coin, Send}
use sl.CosmWasm.Msg
use sl.CosmWasm.Contract.{amount_of, execute}
use sl.CosmWasm.Contract.Spend.{Spent-SameLedger, insert_leaf-SameLedger}
use sl.CosmWasm.Contract.Calls.{
  execute_deposit-eq-ok, execute_transfer-eq-ok, execute_withdraw-eq-ok,
  execute_finalize_epoch-eq-ok, execute_sync_epoch_root-eq-ok, execute_update_governance-eq-ok,
  execute_set_authorized_relayer-eq-ok,
}

-- All that a list of coins holds of one denomination.
abbrev pub coins_total : Text → List Coin → ℕ
coins_total denom [] = 0
coins_total denom (c ∷ coins) =
    (if text_beq c.denom denom then c.amount else 0) + coins_total denom coins

-- All that a response sends of one denomination.
abbrev pub sent_total : Text → List Send → ℕ
sent_total denom [] = 0
sent_total denom (m ∷ messages) = coins_total denom m.amount + sent_total denom messages

-- What a call counts as a deposit.
abbrev pub deposited : MessageInfo → ExecuteMsg → State → ℕ
deposited info (Msg.deposit c) s = amount_of s.config.accepted_denom info.funds
deposited info _ s = 0

pub amount_of-le-coins_total :
    (denom : Text) (coins : List Coin) → amount_of denom coins ≤ coins_total denom coins
unfolding amount_of
amount_of-le-coins_total denom [] = omega arith
amount_of-le-coins_total denom (c ∷ coins) = ground (arith, amount_of-le-coins_total denom coins)

-- The accepted denomination is fixed at instantiation, and the balance moves by what comes and goes.
pub record Moves (info : MessageInfo) (msg : ExecuteMsg) (s : State) (out : Response × State)
    : Type 0 where
  pub denom : out.1.config.accepted_denom ≡ s.config.accepted_denom
  pub balance :
      out.1.pool_balance + sent_total s.config.accepted_denom out.0.messages
      ≡ s.pool_balance + deposited info msg s

sent_balance :
    (denom denom' : Text) (v b b' : ℕ)
    → denom ≡ denom'
    → b ≡ b'
    → v ≤ b'
    → b - v + ((if text_beq denom denom' then v else 0) + 0 + 0) ≡ b' + 0
sent_balance denom denom' v b b' e f h = ground (arith, text_beq_iff denom denom')

module _ (crates : Crates) where
  -- An accepted call keeps the accepted denomination, and the balance after it with what it sends of
  -- that denomination is the balance before it with what a deposit brings.
  pub execute-Moves :
      (env : Env) (info : MessageInfo) (msg : ExecuteMsg) (s : State) (out : Response × State)
      → execute crates env info msg s ≡ ok out
      → Moves info msg s out
  unfolding execute
  execute-Moves env info (Msg.deposit c) s out h =
      let done = execute_deposit-eq-ok crates info c s out h in
      let kept =
        insert_leaf-SameLedger crates c
          (record s { commitment_exists = insert c true s.commitment_exists }) done.after done.index
          done.inserted in
      rw done.written (record {
        denom = ap (λ c. c.accepted_denom) kept.config;
        balance = omega (arith, kept.pool_balance);
      })
  execute-Moves env info (Msg.transfer p r nuls outs) s out h =
      let (spent, quiet) = execute_transfer-eq-ok crates p r nuls outs s out h in
      let kept = Spent-SameLedger crates spent in
      record {
        denom = ap (λ c. c.accepted_denom) kept.config;
        balance = rw quiet (omega (arith, kept.pool_balance));
      }
  execute-Moves env info (Msg.withdraw p r nuls outs to v) s out h =
      let done = execute_withdraw-eq-ok crates p r nuls outs to v s out h in
      let kept = Spent-SameLedger crates done.spent in
      rw done.written (record {
        denom = ap (λ c. c.accepted_denom) kept.config;
        balance =
            sent_balance done.after.config.accepted_denom s.config.accepted_denom v
              done.after.pool_balance s.pool_balance (ap (λ c. c.accepted_denom) kept.config)
              kept.pool_balance done.covered;
      })
  execute-Moves env info Msg.finalize_epoch s out h =
      rw (execute_finalize_epoch-eq-ok crates env info s out h).written
        (record { denom = refl; balance = refl })
  execute-Moves env info (Msg.sync_epoch_root c i r) s out h =
      rw (execute_sync_epoch_root-eq-ok crates info c i r s out h).2
        (record { denom = refl; balance = refl })
  execute-Moves env info (Msg.update_governance g) s out h =
      rw (execute_update_governance-eq-ok crates info g s out h).1
        (record { denom = refl; balance = refl })
  execute-Moves env info (Msg.set_authorized_relayer r) s out h =
      rw (execute_set_authorized_relayer-eq-ok crates info r s out h).1
        (record { denom = refl; balance = refl })
