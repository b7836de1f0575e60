-- ===== src/CosmWasm/Contract/Sealed.antt =====
-- Closed epochs: each is stored with the root and the size of its list of nullifiers.
use sl.Prelude.{
  ℕ, ◌+◌, ◌%◌, ◌<◌, ◌≡◌, ◌≢◌, refl, sym, ap, ◌∙◌, true, ◌⊎◌, inl, inr, some, List, [], Text, arith,
  insert, insert_ne, length, nat_beq, nat_eq, text_eq, Bool-cases,
}
use sl.Prelude.Words.{u32_mod}
use sl.CosmWasm.Outcome.{ok, >>=-eq-ok, ok-injective}
use sl.CosmWasm.Poseidon.{Crates}
use sl.CosmWasm.State.{State, EpochInfo}
use sl.CosmWasm.Msg.{ExecuteMsg, Pair, Env, MessageInfo, Response, InstantiateMsg}
use sl.CosmWasm.Msg
use sl.CosmWasm.Nullifiers.{compute_nullifier_root}
use sl.CosmWasm.Contract.{execute, instantiate, init_subtrees}
use sl.CosmWasm.Contract.Spend.{Spent-SameLedger, insert_leaf-SameLedger}
use sl.CosmWasm.Contract.Calls.{
  Finalized, execute_deposit-eq-ok, execute_transfer-eq-ok, execute_withdraw-eq-ok,
  execute_finalize_epoch-eq-ok, execute_sync_epoch_root-eq-ok, execute_update_governance-eq-ok,
  execute_set_authorized_relayer-eq-ok,
}
use sl.CosmWasm.Contract.Past.{SamePast, execute-SamePast}

module _ (crates : Crates) where
  -- An epoch with its list, whose root and size it holds.
  pub record IsSealed (s : State) (id : ℕ) : Type 0 where
    pub info : EpochInfo
    pub nullifiers : List Text
    pub stored : s.epochs id ≡ some info
    pub listed : s.epoch_nullifiers id ≡ some nullifiers
    pub finalized : info.finalized ≡ true
    pub root : compute_nullifier_root crates nullifiers ≡ ok info.nullifier_root
    pub count : info.nullifier_count ≡ length nullifiers % u32_mod

  abbrev pub AllSealed : State → Type 0
  AllSealed s = (id : ℕ) → id < s.current_epoch_id → IsSealed s id

  -- A call finalizes the current epoch, or stays in it.
  execute-epoch :
      (env : Env) (info : MessageInfo) (msg : ExecuteMsg) (s : State) (out : Response × State)
      → execute crates env info msg s ≡ ok out
      → (out.1.current_epoch_id ≡ s.current_epoch_id) ⊎ Finalized crates env info s out
  unfolding execute
  execute-epoch env info (Msg.deposit c) s out h =
      let done = execute_deposit-eq-ok crates info c s out h in
      let marked : State = record s { commitment_exists = insert c true s.commitment_exists } in
      let kept = insert_leaf-SameLedger crates c marked done.after done.index done.inserted in
      inl (ap (λ (t : Response × State). t.1.current_epoch_id) done.written ∙ kept.current_epoch_id)
  execute-epoch env info (Msg.transfer p r nuls outs) s out h =
      let kept = Spent-SameLedger crates (execute_transfer-eq-ok crates p r nuls outs s out h).0 in
      inl kept.current_epoch_id
  execute-epoch env info (Msg.withdraw p r nuls outs to v) s out h =
      let done = execute_withdraw-eq-ok crates p r nuls outs to v s out h in
      let kept = Spent-SameLedger crates done.spent in
      inl (ap (λ (t : Response × State). t.1.current_epoch_id) done.written ∙ kept.current_epoch_id)
  execute-epoch env info Msg.finalize_epoch s out h =
      inr (execute_finalize_epoch-eq-ok crates env info s out h)
  execute-epoch env info (Msg.sync_epoch_root c i r) s out h = inl (
      ap (λ (t : Response × State). t.1.current_epoch_id)
        (execute_sync_epoch_root-eq-ok crates info c i r s out h).2)
  execute-epoch env info (Msg.update_governance g) s out h = inl (
      ap (λ (t : Response × State). t.1.current_epoch_id)
        (execute_update_governance-eq-ok crates info g s out h).1)
  execute-epoch env info (Msg.set_authorized_relayer r) s out h = inl (
      ap (λ (t : Response × State). t.1.current_epoch_id)
        (execute_set_authorized_relayer-eq-ok crates info r s out h).1)

  SamePast-IsSealed :
      (s s' : State) (id : ℕ)
      → SamePast s s'
      → id < s.current_epoch_id
      → IsSealed s id
      → IsSealed s' id
  SamePast-IsSealed s s' id same lt sealed = record {
    info = sealed.info;
    nullifiers = sealed.nullifiers;
    stored = same.epochs id lt ∙ sealed.stored;
    listed = same.lists id lt ∙ sealed.listed;
    finalized = sealed.finalized;
    root = sealed.root;
    count = sealed.count;
  }

  -- The epoch that a call finalizes.
  Finalized-IsSealed :
      (env : Env) (info : MessageInfo) (s : State) (out : Response × State)
      → Finalized crates env info s out
      → IsSealed out.1 s.current_epoch_id
  Finalized-IsSealed env info s out done =
      let cur = s.current_epoch_id in
      let up : cur + 1 ≢ cur = omega arith in
      rw done.written (record {
        info = record done.current {
          nullifier_root = done.nullifier_root;
          nullifier_count = length done.nullifiers % u32_mod;
          end_height = some env.height;
          finalized = true;
        };
        nullifiers = done.nullifiers;
        stored = ground arith;
        listed = insert_ne (cur + 1) cur [] s.epoch_nullifiers up ∙ done.listed;
        finalized = refl;
        root = done.computed;
        count = refl;
      })

  pub execute-AllSealed :
      (env : Env) (info : MessageInfo) (msg : ExecuteMsg) (s : State) (out : Response × State)
      → execute crates env info msg s ≡ ok out
      → AllSealed s
      → AllSealed out.1
  execute-AllSealed env info msg s out h all id lt =
      let same = execute-SamePast crates env info msg s out h in
      elim (execute-epoch env info msg s out h) [
        | inl stays ↦
            let lt' : id < s.current_epoch_id = omega (arith, stays) in
            SamePast-IsSealed s out.1 id same lt' (all id lt')
        | inr done ↦
            let next : out.1.current_epoch_id ≡ s.current_epoch_id + 1 =
              ap (λ (t : Response × State). t.1.current_epoch_id) done.written in
            elim (Bool-cases (nat_beq s.current_epoch_id id)) [
              | inl now ↦
                  let is : s.current_epoch_id ≡ id = ground arith in
                  rw (← is) (Finalized-IsSealed env info s out done)
              | inr before ↦
                  let lt' : id < s.current_epoch_id = ground (arith, next) in
                  SamePast-IsSealed s out.1 id same lt' (all id lt')
            ]
      ]

  pub instantiate-AllSealed :
      (env : Env) (msg : InstantiateMsg) (out : Response × State)
      → instantiate crates env msg ≡ ok out
      → AllSealed out.1
  unfolding instantiate
  instantiate-AllSealed env msg out h id lt =
      let (made, e, h1) = >>=-eq-ok (init_subtrees crates msg.tree_depth 0 _ _) _ h in
      let start : out.1.current_epoch_id ≡ 0 =
        sym (ap (λ (t : Response × State). t.1.current_epoch_id) (ok-injective h1)) in
      absurd (omega (arith, start))
