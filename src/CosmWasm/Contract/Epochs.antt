-- ===== src/CosmWasm/Contract/Epochs.antt =====
-- Epochs: the current one is open, those before it are finalized and never change, and the lists of
-- all epochs record exactly the spent nullifiers.
use sl.Prelude.{
  ℕ, ◌+◌, ◌%◌, length, ◌<◌, ◌≡◌, refl, sym, ◌∙◌, Bool, true, false, ◌||◌, none, some, List, [], ◌∷◌,
  ◌++◌, Text, arith, Map, insert, insert_self, no_entries, text_eq, nat_eq, text_beq, nat_beq,
  text_beq_iff, Bool-cases, inl, inr,
}
use sl.Prelude.Words.{u32_mod}
use sl.Ring.{contains}
use sl.CosmWasm.Outcome.{ok, >>=-eq-ok, ok-injective}
use sl.CosmWasm.Poseidon.{Crates}
use sl.CosmWasm.State.{State, EpochInfo}
use sl.CosmWasm.Msg.{ExecuteMsg, Pair, Env, MessageInfo, Response, InstantiateMsg}
use sl.CosmWasm.Msg
use sl.CosmWasm.Tree.{zero_hash_text}
use sl.CosmWasm.Contract.{execute, init_subtrees, instantiate, new_epoch}
use sl.CosmWasm.Contract.Effects.{SameNullifiers, SpentOne, SpentOne-SameLedger}
use sl.CosmWasm.Contract.Spend.{
  Spent, Spent-second, Spent-SameLedger, Spent-SameNullifiers, insert_leaf-SameLedger,
  insert_leaf-SameNullifiers,
}
use sl.CosmWasm.Contract.Spending.{is_spent}
use sl.CosmWasm.Contract.Calls.{
  execute_deposit-eq-ok, execute_transfer-eq-ok, execute_withdraw-eq-ok, Finalized,
  execute_finalize_epoch-eq-ok, execute_sync_epoch_root-eq-ok, execute_update_governance-eq-ok,
  execute_set_authorized_relayer-eq-ok,
}

-- An epoch that is stored, with its flag.
abbrev pub HasEpoch : State → ℕ → Bool → Type 0
HasEpoch s id closed = (e : EpochInfo) × (s.epochs id ≡ some e) × (e.finalized ≡ closed)

-- A nullifier stands in the list of some epoch.
abbrev pub IsRecorded : Map ℕ (List Text) → Text → Type 0
IsRecorded lists n = (id : ℕ) × (ns : List Text) × (lists id ≡ some ns) × (contains n ns ≡ true)

pub record IsEpochs (s : State) : Type 0 where
  pub current : HasEpoch s s.current_epoch_id false
  pub closed : (id : ℕ) → id < s.current_epoch_id → HasEpoch s id true
  pub future : (id : ℕ) → s.current_epoch_id < id → s.epochs id ≡ none
  pub unlisted : (id : ℕ) → s.current_epoch_id < id → s.epoch_nullifiers id ≡ none
  pub marked :
      (id : ℕ) (ns : List Text) (n : Text)
      → s.epoch_nullifiers id ≡ some ns
      → contains n ns ≡ true
      → is_spent s n ≡ true
  pub recorded : (n : Text) → is_spent s n ≡ true → IsRecorded s.epoch_nullifiers n

-- Two states with the same epochs and nullifiers.
pub IsEpochs-same :
    {s s' : State}
    → s'.epochs ≡ s.epochs
    → s'.current_epoch_id ≡ s.current_epoch_id
    → SameNullifiers s s'
    → IsEpochs s
    → IsEpochs s'
IsEpochs-same epochs id same h = record {
  current = rw (epochs, id) h.current;
  closed = rw (epochs, id) h.closed;
  future = rw (epochs, id) h.future;
  unlisted = rw (same.epoch_nullifiers, id) h.unlisted;
  marked = rw (same.epoch_nullifiers, same.nullifier_spent) h.marked;
  recorded = rw (same.epoch_nullifiers, same.nullifier_spent) h.recorded;
}

contains-append_one :
    (n m : Text) (xs : List Text) → contains n (xs ++ m ∷ []) ≡ text_beq m n || contains n xs
contains-append_one n m [] = refl
contains-append_one n m (x ∷ xs) = ground (arith, contains-append_one n m xs)

-- A nullifier appended to the list of an epoch is recorded, and those that were recorded still are.
IsRecorded-new :
    (cur : ℕ) (m : Text) (xs : List Text) (lists : Map ℕ (List Text))
    → IsRecorded (insert cur (xs ++ m ∷ []) lists) m
IsRecorded-new cur m xs lists = (
  cur,
  xs ++ m ∷ [],
  insert_self cur (xs ++ m ∷ []) lists,
  ground (arith, contains-append_one m m xs, text_beq_iff m m),
)

IsRecorded-old :
    (cur : ℕ) (m n : Text) (xs : List Text) (lists : Map ℕ (List Text))
    → lists cur ≡ some xs
    → IsRecorded lists n
    → IsRecorded (insert cur (xs ++ m ∷ []) lists) n
IsRecorded-old cur m n xs lists found (id, ns, at, there) = elim (Bool-cases (nat_beq cur id)) [
  | inl here ↦ (
    cur,
    xs ++ m ∷ [],
    insert_self cur (xs ++ m ∷ []) lists,
    ground (arith, contains-append_one n m xs, here, at, found, there),
  )
  | inr away ↦ (id, ns, ground (arith, away, at), there)
]

-- Spending one nullifier into the current epoch.
SpentOne-IsEpochs :
    {m : Text} {s s' : State} → SpentOne s.current_epoch_id m s s' → IsEpochs s → IsEpochs s'
SpentOne-IsEpochs {m} {s} h inv = rw h.written (record {
  current = inv.current;
  closed = inv.closed;
  future = inv.future;
  unlisted = λ id lt. ground (arith, inv.unlisted id);
  marked = λ id ns n found there. ground (
    arith,
    contains-append_one n m h.listed,
    inv.marked s.current_epoch_id h.listed n h.found,
    inv.marked id ns n,
  );
  recorded = λ n spent. elim (Bool-cases (text_beq m n)) [
    | inl this ↦
        rw (← (text_beq_iff m n).0 this)
          (IsRecorded-new s.current_epoch_id m h.listed s.epoch_nullifiers)
    | inr other ↦
        IsRecorded-old s.current_epoch_id m n h.listed s.epoch_nullifiers h.found
          (inv.recorded n (ground (arith, other, spent)))
  ];
})

-- Closing the current epoch and opening the next.
Finalized-IsEpochs :
    (crates : Crates) (env : Env) (info : MessageInfo) (s : State) (out : Response × State)
    → Finalized crates env info s out
    → IsEpochs s
    → IsEpochs out.1
unfolding new_epoch
Finalized-IsEpochs crates env info s out h inv = rw h.written (record {
  current = (new_epoch env.height, ground arith, refl);
  closed = λ id lt. elim (Bool-cases (nat_beq s.current_epoch_id id)) [
    | inl this ↦ (
      record h.current {
        nullifier_root = h.nullifier_root;
        nullifier_count = length h.nullifiers % u32_mod;
        end_height = some env.height;
        finalized = true;
      },
      ground (arith, this),
      refl,
    )
    | inr before ↦
        let (e, at, f) = inv.closed id (ground (arith, before, lt)) in
        (e, ground (arith, before, at, lt), f)
  ];
  future = λ id lt. ground (arith, inv.future id);
  unlisted = λ id lt. ground (arith, inv.unlisted id);
  marked = λ id ns n found there. ground (arith, inv.marked id ns n);
  recorded = λ n spent.
      let (id, ns, at, there) = inv.recorded n spent in
      (id, ns, ground (arith, at, inv.unlisted (s.current_epoch_id + 1)), there);
})

module _ (crates : Crates) where
  Spent-IsEpochs :
      {p r : Text} {nuls outs : Pair} {s s' : State}
      → Spent crates p r nuls outs s s'
      → IsEpochs s
      → IsEpochs s'
  Spent-IsEpochs h inv =
      let one = SpentOne-SameLedger h.first in
      let two = SpentOne-SameLedger h.second in
      let all = Spent-SameLedger crates h in
      IsEpochs-same (all.epochs ∙ sym (two.epochs ∙ one.epochs))
        (all.current_epoch_id ∙ sym (two.current_epoch_id ∙ one.current_epoch_id))
        (Spent-SameNullifiers crates h)
        (SpentOne-IsEpochs (Spent-second crates h) (SpentOne-IsEpochs h.first inv))

  -- A call that succeeds keeps the invariant.
  pub execute-IsEpochs :
      (env : Env) (info : MessageInfo) (msg : ExecuteMsg) (s : State) (out : Response × State)
      → execute crates env info msg s ≡ ok out
      → IsEpochs s
      → IsEpochs out.1
  unfolding execute
  execute-IsEpochs env info (Msg.deposit c) s out h inv =
      let done = execute_deposit-eq-ok crates info c s out h in
      let marked : State = record s { commitment_exists = insert c true s.commitment_exists } in
      let kept = insert_leaf-SameLedger crates c marked done.after done.index done.inserted in
      let same = insert_leaf-SameNullifiers crates c marked done.after done.index done.inserted in
      rw done.written (
        IsEpochs-same {s = s} kept.epochs kept.current_epoch_id
          (record {
            nullifier_spent = same.nullifier_spent;
            epoch_nullifiers = same.epoch_nullifiers;
          })
          inv)
  execute-IsEpochs env info (Msg.transfer p r nuls outs) s out h inv =
      Spent-IsEpochs (execute_transfer-eq-ok crates p r nuls outs s out h).0 inv
  execute-IsEpochs env info (Msg.withdraw p r nuls outs to v) s out h inv =
      let done = execute_withdraw-eq-ok crates p r nuls outs to v s out h in
      rw done.written (
        IsEpochs-same {s = done.after} refl refl
          (record { nullifier_spent = refl; epoch_nullifiers = refl })
          (Spent-IsEpochs done.spent inv))
  execute-IsEpochs env info Msg.finalize_epoch s out h inv =
      Finalized-IsEpochs crates env info s out
        (execute_finalize_epoch-eq-ok crates env info s out h) inv
  execute-IsEpochs env info (Msg.sync_epoch_root c i r) s out h inv =
      rw (execute_sync_epoch_root-eq-ok crates info c i r s out h).2 (
        IsEpochs-same {s = s} refl refl (record { nullifier_spent = refl; epoch_nullifiers = refl })
          inv)
  execute-IsEpochs env info (Msg.update_governance g) s out h inv =
      rw (execute_update_governance-eq-ok crates info g s out h).1 (
        IsEpochs-same {s = s} refl refl (record { nullifier_spent = refl; epoch_nullifiers = refl })
          inv)
  execute-IsEpochs env info (Msg.set_authorized_relayer r) s out h inv =
      rw (execute_set_authorized_relayer-eq-ok crates info r s out h).1 (
        IsEpochs-same {s = s} refl refl (record { nullifier_spent = refl; epoch_nullifiers = refl })
          inv)

  pub instantiate-IsEpochs :
      (env : Env) (msg : InstantiateMsg) (out : Response × State)
      → instantiate crates env msg ≡ ok out
      → IsEpochs out.1
  unfolding instantiate new_epoch
  instantiate-IsEpochs env msg out h =
      let (made, e, h1) =
        >>=-eq-ok (init_subtrees crates msg.tree_depth 0 zero_hash_text no_entries) _ h in
      rw (← ok-injective h1) (record {
        current = (new_epoch env.height, refl, refl);
        closed = λ id lt. absurd (omega arith);
        future = λ id lt. ground arith;
        unlisted = λ id lt. ground arith;
        marked = λ id ns n found there. ground arith;
        recorded = λ n spent. absurd (cc);
      })
