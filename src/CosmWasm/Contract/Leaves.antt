-- ===== src/CosmWasm/Contract/Leaves.antt =====
-- Every call keeps the tree state that of a log of leaves, and appends exactly its own leaves.
use sl.Prelude.{
  ℕ, zero, suc, ◌<◌, ◌≡◌, sym, ap, ◌∙◌, true, List, [], ◌∷◌, ◌++◌, Text, Map, insert, no_entries,
  text_eq, nat_eq,
}
use sl.Merkle.{empty_node, empty_node_inside, start-IsLog}
use sl.CosmWasm.Outcome.{ok, >>=-eq-ok, ok-injective}
use sl.CosmWasm.Poseidon.{Crates, poseidon_hash_hex}
use sl.CosmWasm.State.{State}
use sl.CosmWasm.Msg.{ExecuteMsg, Pair, Env, MessageInfo, Response, InstantiateMsg}
use sl.CosmWasm.Msg
use sl.CosmWasm.Tree.{zero_hash_text}
use sl.CosmWasm.Tree.Root.{hash}
use sl.CosmWasm.Tree.History.{IsPool, insert_leaf-IsPool}
use sl.CosmWasm.Contract.{init_subtrees, instantiate, execute}
use sl.CosmWasm.Contract.Effects.{SpentOne}
use sl.CosmWasm.Contract.Calls.{
  Deposited, execute_deposit-eq-ok, execute_transfer-eq-ok, Withdrawn, execute_withdraw-eq-ok,
  execute_finalize_epoch-eq-ok, execute_sync_epoch_root-eq-ok, execute_update_governance-eq-ok,
  execute_set_authorized_relayer-eq-ok,
}
use sl.CosmWasm.Contract.Spend.{Spent}

-- The leaves that a call inserts, newest first.
abbrev pub leaves_of : ExecuteMsg → List Text
leaves_of (Msg.deposit commitment) = commitment ∷ []
leaves_of (Msg.transfer proof r nuls outs) = outs.1 ∷ outs.0 ∷ []
leaves_of (Msg.withdraw proof r nuls outs recipient v) = outs.1 ∷ outs.0 ∷ []
leaves_of _ = []

module _ (crates : Crates) where
  SpentOne-IsPool :
      {e : ℕ} {n : Text} {s s' : State} (log : List Text)
      → SpentOne e n s s'
      → IsPool crates log s
      → IsPool crates log s'
  SpentOne-IsPool log h pool = rw h.written (record { tree = pool.tree; ring = pool.ring })

  Spent-IsPool :
      {proof root : Text} {nuls outs : Pair} {s s' : State} (log : List Text)
      → Spent crates proof root nuls outs s s'
      → IsPool crates log s
      → IsPool crates (outs.1 ∷ outs.0 ∷ log) s'
  Spent-IsPool {outs} {s'} log h pool =
      let ready = SpentOne-IsPool log h.second (SpentOne-IsPool log h.first pool) in
      let one =
        insert_leaf-IsPool crates outs.0 log h.after_second h.after_leaf h.index ready h.leaf in
      (insert_leaf-IsPool crates outs.1 (outs.0 ∷ log) h.after_leaf s' h.index' one.0 h.leaf').0

  execute_deposit-IsPool :
      (info : MessageInfo) (c : Text) (log : List Text) (s : State) (out : Response × State)
      → IsPool crates log s
      → Deposited crates info c s out
      → IsPool crates (c ∷ log) out.1
  execute_deposit-IsPool info c log s out pool h =
      let after =
        insert_leaf-IsPool crates c log
          (record s { commitment_exists = insert c true s.commitment_exists }) h.after h.index
          (record { tree = pool.tree; ring = pool.ring }) h.inserted in
      rw h.written (record { tree = after.0.tree; ring = after.0.ring })

  execute_withdraw-IsPool :
      {proof root : Text} {nuls outs : Pair} {to : Text} {v : ℕ} (log : List Text) (s : State)
      (out : Response × State)
      → IsPool crates log s
      → Withdrawn crates proof root nuls outs to v s out
      → IsPool crates (outs.1 ∷ outs.0 ∷ log) out.1
  execute_withdraw-IsPool log s out pool h =
      let after = Spent-IsPool log h.spent pool in
      rw h.written (record { tree = after.tree; ring = after.ring })

  pub execute-IsPool :
      (env : Env) (info : MessageInfo) (msg : ExecuteMsg) (log : List Text) (s : State)
      (out : Response × State)
      → IsPool crates log s
      → execute crates env info msg s ≡ ok out
      → IsPool crates (leaves_of msg ++ log) out.1
  unfolding execute
  execute-IsPool env info (Msg.deposit c) log s out pool h =
      execute_deposit-IsPool info c log s out pool (execute_deposit-eq-ok crates info c s out h)
  execute-IsPool env info (Msg.transfer p r nuls outs) log s out pool h =
      Spent-IsPool log (execute_transfer-eq-ok crates p r nuls outs s out h).0 pool
  execute-IsPool env info (Msg.withdraw p r nuls outs to v) log s out pool h =
      execute_withdraw-IsPool log s out pool
        (execute_withdraw-eq-ok crates p r nuls outs to v s out h)
  execute-IsPool env info Msg.finalize_epoch log s out pool h =
      rw (execute_finalize_epoch-eq-ok crates env info s out h).written
        (record { tree = pool.tree; ring = pool.ring })
  execute-IsPool env info (Msg.sync_epoch_root c i r) log s out pool h =
      rw (execute_sync_epoch_root-eq-ok crates info c i r s out h).2
        (record { tree = pool.tree; ring = pool.ring })
  execute-IsPool env info (Msg.update_governance g) log s out pool h =
      rw (execute_update_governance-eq-ok crates info g s out h).1
        (record { tree = pool.tree; ring = pool.ring })
  execute-IsPool env info (Msg.set_authorized_relayer r) log s out pool h =
      rw (execute_set_authorized_relayer-eq-ok crates info r s out h).1
        (record { tree = pool.tree; ring = pool.ring })

  init_subtrees-root :
      (left level : ℕ) (z : Text) (filled : Map ℕ Text) {out : Text × Map ℕ Text}
      → init_subtrees crates left level z filled ≡ ok out
      → empty_node (hash crates) z left ≡ out.0
  unfolding init_subtrees empty_node
  init_subtrees-root zero level z filled h = ap (λ (t : Text × Map ℕ Text). t.0) (ok-injective h)
  init_subtrees-root (suc left) level z filled h =
      let (next, e, rest) = >>=-eq-ok (poseidon_hash_hex crates z z) _ h in
      sym (empty_node_inside (hash crates) z left)
      ∙ (rw e (init_subtrees-root left (suc level) next (insert level z filled) rest))

  pub instantiate-IsPool :
      (env : Env) (msg : InstantiateMsg) (out : Response × State)
      → 0 < msg.root_history_size
      → instantiate crates env msg ≡ ok out
      → IsPool crates [] out.1
  unfolding instantiate
  instantiate-IsPool env msg out size h =
      let (made, e, h1) =
        >>=-eq-ok (init_subtrees crates msg.tree_depth 0 zero_hash_text no_entries) _ h in
      rw (← ok-injective h1, ← init_subtrees-root msg.tree_depth 0 zero_hash_text no_entries e)
        (start-IsLog (hash crates) zero_hash_text msg.root_history_size msg.tree_depth made.1 size)
