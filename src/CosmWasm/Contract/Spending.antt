-- ===== src/CosmWasm/Contract/Spending.antt =====
-- Nullifiers: a successful call marks exactly the nullifiers of its message, and all of them were
-- unmarked.
use sl.Prelude.{
  ℕ, ◌≡◌, ap, ◌∙◌, Bool, true, false, ◌||◌, List, [], ◌∷◌, Text, arith, Map, insert, text_eq,
  nat_eq, text_beq, text_beq_iff,
}
use sl.Ring.{contains}
use sl.CosmWasm.Outcome.{ok}
use sl.CosmWasm.Poseidon.{Crates}
use sl.CosmWasm.State.{State}
use sl.CosmWasm.Msg.{ExecuteMsg, Pair, Env, MessageInfo, Response}
use sl.CosmWasm.Msg
use sl.CosmWasm.Nullifiers.{flag}
use sl.CosmWasm.Contract.{execute}
use sl.CosmWasm.Contract.Effects.{SpentOne}
use sl.CosmWasm.Contract.Spend.{Spent, Spent-SameNullifiers, insert_leaf-SameNullifiers}
use sl.CosmWasm.Contract.Calls.{
  execute_deposit-eq-ok, execute_transfer-eq-ok, execute_withdraw-eq-ok,
  execute_finalize_epoch-eq-ok, execute_sync_epoch_root-eq-ok, execute_update_governance-eq-ok,
  execute_set_authorized_relayer-eq-ok,
}

-- The nullifiers that a message spends.
abbrev pub spent_by : ExecuteMsg → List Text
spent_by (Msg.transfer p r nuls outs) = nuls.0 ∷ nuls.1 ∷ []
spent_by (Msg.withdraw p r nuls outs to v) = nuls.0 ∷ nuls.1 ∷ []
spent_by _ = []

abbrev pub is_spent : State → Text → Bool
is_spent s n = flag (s.nullifier_spent n)

-- The marks after a call, and that what it marked was unmarked.
pub record Marks (marked : List Text) (s s' : State) (n : Text) : Type 0 where
  pub after : is_spent s' n ≡ contains n marked || is_spent s n
  pub fresh : contains n marked ≡ true → is_spent s n ≡ false

SpentOne-is_spent :
    {e : ℕ} {m : Text} {s s' : State} (n : Text)
    → SpentOne e m s s'
    → is_spent s' n ≡ text_beq m n || is_spent s n
SpentOne-is_spent {m} {s} n h = rw h.written (ground (arith, h.fresh))

SpentOne-fresh :
    {e : ℕ} {m : Text} {s s' : State} (n : Text)
    → SpentOne e m s s'
    → text_beq m n ≡ true
    → is_spent s n ≡ false
SpentOne-fresh {m} {s} n h e = rw (← (text_beq_iff m n).0 e) h.fresh

both_fresh :
    (a b x y : Bool)
    → (a ≡ true → x ≡ false)
    → (b ≡ true → y ≡ false)
    → y ≡ a || x
    → a || (b || false) ≡ true
    → x ≡ false
both_fresh a b x y h k e c = ground (arith, h, k)

module _ (crates : Crates) where
  Spent-Marks :
      {p r : Text} {nuls outs : Pair} {s s' : State} (n : Text)
      → Spent crates p r nuls outs s s'
      → Marks (nuls.0 ∷ nuls.1 ∷ []) s s' n
  Spent-Marks {nuls} {s} n h =
      let same = Spent-SameNullifiers crates h in
      let one = SpentOne-is_spent n h.first in
      let two = SpentOne-is_spent n h.second in
      record {
        after =
            ap (λ (m : Map Text Bool). flag (m n)) same.nullifier_spent ∙ ground (arith, one, two);
        fresh = λ c.
            both_fresh (text_beq nuls.0 n) (text_beq nuls.1 n) (is_spent s n)
              (is_spent h.after_first n) (SpentOne-fresh n h.first) (SpentOne-fresh n h.second) one
              c;
      }

  unmarked : (s s' : State) (n : Text) → s'.nullifier_spent ≡ s.nullifier_spent → Marks [] s s' n
  unmarked s s' n e = record { after = ap (λ (m : Map Text Bool). flag (m n)) e; fresh = λ c. cc }

  -- After an accepted call, a nullifier is spent exactly if it was before or the message names it, and
  -- the ones that the message names were not spent before.
  pub execute-Marks :
      (env : Env) (info : MessageInfo) (msg : ExecuteMsg) (s : State) (out : Response × State)
      (n : Text)
      → execute crates env info msg s ≡ ok out
      → Marks (spent_by msg) s out.1 n
  unfolding execute
  execute-Marks env info (Msg.deposit c) s out n h =
      let done = execute_deposit-eq-ok crates info c s out h in
      let kept =
        insert_leaf-SameNullifiers crates c
          (record s { commitment_exists = insert c true s.commitment_exists }) done.after done.index
          done.inserted in
      unmarked s out.1 n
        (ap (λ (t : Response × State). t.1.nullifier_spent) done.written ∙ kept.nullifier_spent)
  execute-Marks env info (Msg.transfer p r nuls outs) s out n h =
      Spent-Marks n (execute_transfer-eq-ok crates p r nuls outs s out h).0
  execute-Marks env info (Msg.withdraw p r nuls outs to v) s out n h =
      let done = execute_withdraw-eq-ok crates p r nuls outs to v s out h in
      let marks = Spent-Marks n done.spent in
      record {
        after = ap (λ (t : Response × State). is_spent t.1 n) done.written ∙ marks.after;
        fresh = marks.fresh;
      }
  execute-Marks env info Msg.finalize_epoch s out n h = unmarked s out.1 n (
      ap (λ (t : Response × State). t.1.nullifier_spent)
        (execute_finalize_epoch-eq-ok crates env info s out h).written)
  execute-Marks env info (Msg.sync_epoch_root c i r) s out n h = unmarked s out.1 n (
      ap (λ (t : Response × State). t.1.nullifier_spent)
        (execute_sync_epoch_root-eq-ok crates info c i r s out h).2)
  execute-Marks env info (Msg.update_governance g) s out n h = unmarked s out.1 n (
      ap (λ (t : Response × State). t.1.nullifier_spent)
        (execute_update_governance-eq-ok crates info g s out h).1)
  execute-Marks env info (Msg.set_authorized_relayer r) s out n h = unmarked s out.1 n (
      ap (λ (t : Response × State). t.1.nullifier_spent)
        (execute_set_authorized_relayer-eq-ok crates info r s out h).1)
