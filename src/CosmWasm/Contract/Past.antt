-- ===== src/CosmWasm/Contract/Past.antt =====
-- What a call leaves alone: the epochs before the current one and their nullifiers.
use sl.Prelude.{ℕ, ◌≤◌, ◌<◌, ◌≡◌, refl, ap, ◌∙◌, true, Text, arith, insert, text_eq, nat_eq}
use sl.CosmWasm.Outcome.{ok}
use sl.CosmWasm.Poseidon.{Crates}
use sl.CosmWasm.State.{State}
use sl.CosmWasm.Msg.{ExecuteMsg, Pair, Env, MessageInfo, Response}
use sl.CosmWasm.Msg
use sl.CosmWasm.Contract.{execute}
use sl.CosmWasm.Contract.Effects.{SameLedger, SameNullifiers, SpentOne}
use sl.CosmWasm.Contract.Spend.{
  Spent, Spent-second, insert_leaf-SameLedger, insert_leaf-SameNullifiers,
}
use sl.CosmWasm.Contract.Calls.{
  execute_deposit-eq-ok, execute_transfer-eq-ok, execute_withdraw-eq-ok,
  execute_finalize_epoch-eq-ok, execute_sync_epoch_root-eq-ok, execute_update_governance-eq-ok,
  execute_set_authorized_relayer-eq-ok,
}

pub record SamePast (s s' : State) : Type 0 where
  pub later : s.current_epoch_id ≤ s'.current_epoch_id
  pub epochs : (id : ℕ) → id < s.current_epoch_id → s'.epochs id ≡ s.epochs id
  pub lists : (id : ℕ) → id < s.current_epoch_id → s'.epoch_nullifiers id ≡ s.epoch_nullifiers id

pub SamePast-refl : (s : State) → SamePast s s
SamePast-refl s = record { later = omega arith; epochs = λ id lt. refl; lists = λ id lt. refl }

pub SamePast-trans : {a b c : State} → SamePast a b → SamePast b c → SamePast a c
SamePast-trans {a} {b} {c} h k = record {
  later = omega (arith, h.later, k.later);
  epochs = λ id lt. k.epochs id (omega (arith, h.later)) ∙ h.epochs id lt;
  lists = λ id lt. k.lists id (omega (arith, h.later)) ∙ h.lists id lt;
}

kept_past : {s s' : State} → SameLedger s s' → SameNullifiers s s' → SamePast s s'
kept_past {s} {s'} h k = record {
  later = omega (arith, h.current_epoch_id);
  epochs = λ id lt. ap (λ m. m id) h.epochs;
  lists = λ id lt. ap (λ m. m id) k.epoch_nullifiers;
}

SpentOne-SamePast : {m : Text} {s s' : State} → SpentOne s.current_epoch_id m s s' → SamePast s s'
SpentOne-SamePast h =
    rw h.written
      (record { later = omega arith; epochs = λ id lt. refl; lists = λ id lt. ground arith })

module _ (crates : Crates) where
  Spent-SamePast :
      {p r : Text} {nuls outs : Pair} {s s' : State}
      → Spent crates p r nuls outs s s'
      → SamePast s s'
  Spent-SamePast {outs} {s'} h = SamePast-trans (SpentOne-SamePast h.first) (
      SamePast-trans (SpentOne-SamePast (Spent-second crates h)) (
        SamePast-trans
          (kept_past
            (insert_leaf-SameLedger crates outs.0 h.after_second h.after_leaf h.index h.leaf)
            (insert_leaf-SameNullifiers crates outs.0 h.after_second h.after_leaf h.index h.leaf))
          (kept_past (insert_leaf-SameLedger crates outs.1 h.after_leaf s' h.index' h.leaf')
            (insert_leaf-SameNullifiers crates outs.1 h.after_leaf s' h.index' h.leaf'))))

  pub execute-SamePast :
      (env : Env) (info : MessageInfo) (msg : ExecuteMsg) (s : State) (out : Response × State)
      → execute crates env info msg s ≡ ok out
      → SamePast s out.1
  unfolding execute
  execute-SamePast env info (Msg.deposit c) s out h =
      let done = execute_deposit-eq-ok crates info c s out h in
      let marked : State = record s { commitment_exists = insert c true s.commitment_exists } in
      let kept =
        kept_past (insert_leaf-SameLedger crates c marked done.after done.index done.inserted)
          (insert_leaf-SameNullifiers crates c marked done.after done.index done.inserted) in
      rw done.written (record { later = kept.later; epochs = kept.epochs; lists = kept.lists })
  execute-SamePast env info (Msg.transfer p r nuls outs) s out h =
      Spent-SamePast (execute_transfer-eq-ok crates p r nuls outs s out h).0
  execute-SamePast env info (Msg.withdraw p r nuls outs to v) s out h =
      let done = execute_withdraw-eq-ok crates p r nuls outs to v s out h in
      let kept = Spent-SamePast done.spent in
      rw done.written (record { later = kept.later; epochs = kept.epochs; lists = kept.lists })
  execute-SamePast env info Msg.finalize_epoch s out h =
      rw (execute_finalize_epoch-eq-ok crates env info s out h).written (record {
        later = omega arith;
        epochs = λ id lt. ground arith;
        lists = λ id lt. ground arith;
      })
  execute-SamePast env info (Msg.sync_epoch_root c i r) s out h =
      rw (execute_sync_epoch_root-eq-ok crates info c i r s out h).2
        (record { later = omega arith; epochs = λ id lt. refl; lists = λ id lt. refl })
  execute-SamePast env info (Msg.update_governance g) s out h =
      rw (execute_update_governance-eq-ok crates info g s out h).1
        (record { later = omega arith; epochs = λ id lt. refl; lists = λ id lt. refl })
  execute-SamePast env info (Msg.set_authorized_relayer r) s out h =
      rw (execute_set_authorized_relayer-eq-ok crates info r s out h).1
        (record { later = omega arith; epochs = λ id lt. refl; lists = λ id lt. refl })
