-- ===== src/CosmWasm/Run/Safety.antt =====
-- What holds after any chain of calls.
use sl.Prelude.{
  ℕ, ◌≤◌, ◌<◌, ◌≡◌, ◌≢◌, refl, true, not, ◌&&◌, List, [], ◌∷◌, Text, arith, take, text_beq, text_eq,
}
use sl.Ring.{contains}
use sl.CosmWasm.Outcome.{Outcome, ok, err, panic}
use sl.CosmWasm.Poseidon.{Crates}
use sl.CosmWasm.State.{State}
use sl.CosmWasm.Msg.{ExecuteMsg, Env, MessageInfo, Response, InstantiateMsg}
use sl.CosmWasm.Msg
use sl.CosmWasm.Tree.{zero_hash_text, is_known_root}
use sl.CosmWasm.Tree.History.{IsPool, log_root, log_roots, is_known_root_lem, IsPool-newest}
use sl.CosmWasm.Contract.{execute, instantiate, query}
use sl.CosmWasm.Contract.Leaves.{execute-IsPool, instantiate-IsPool}
use sl.CosmWasm.Contract.Spending.{spent_by, is_spent, execute-Marks}
use sl.CosmWasm.Contract.Balance.{coins_total, deposited, amount_of-le-coins_total, execute-Moves}
use sl.CosmWasm.Run.{Call, outcome, state_after, run, log_after, run_log, held_after, run_held}

module _ (crates : Crates) where
  step-IsPool :
      (c : Call) (s : State) (log : List Text) (o : Outcome (Response × State))
      → outcome crates c s ≡ o
      → IsPool crates log s
      → IsPool crates (log_after crates c log o) (state_after crates s o)
  step-IsPool c s log (ok out) e pool = execute-IsPool crates c.env c.info c.msg log s out pool e
  step-IsPool c s log (err x) e pool = pool
  step-IsPool c s log panic e pool = pool

  run-IsPool :
      (calls : List Call) (s : State) (log : List Text)
      → IsPool crates log s
      → IsPool crates (run_log crates calls s log) (run crates calls s)
  run-IsPool [] s log pool = pool
  run-IsPool (c ∷ calls) s log pool =
      run-IsPool calls (state_after crates s (outcome crates c s))
        (log_after crates c log (outcome crates c s))
        (step-IsPool c s log (outcome crates c s) refl pool)

  -- From instantiation with a root history, after any calls, a root is known exactly if it is not
  -- the zero text and is the root of the full tree over one of the last `root_history_size`
  -- versions of the log of accepted leaves.
  pub run_known_roots :
      (env : Env) (msg : InstantiateMsg) (out : Response × State) (calls : List Call) (root : Text)
      → 0 < msg.root_history_size
      → instantiate crates env msg ≡ ok out
      → is_known_root (run crates calls out.1) root
        ≡ not (text_beq root zero_hash_text)
          && contains root (
              take (run crates calls out.1).config.root_history_size (
                log_roots crates
                  (run crates calls out.1).config.tree_depth
                  (run_log crates calls out.1 [])))
  run_known_roots env msg out calls root size h =
      is_known_root_lem crates (run_log crates calls out.1 []) (run crates calls out.1) root
        (run-IsPool calls out.1 [] (instantiate-IsPool crates env msg out size h))

  -- From instantiation with a root history, after any calls, the query for the latest root answers
  -- with the root of the full tree over the whole log of accepted leaves.
  pub run_latest_root :
      (env : Env) (msg : InstantiateMsg) (out : Response × State) (calls : List Call)
      → 0 < msg.root_history_size
      → instantiate crates env msg ≡ ok out
      → query Msg.latest_root (run crates calls out.1)
        ≡ ok (
            Msg.root (
              log_root crates
                (run crates calls out.1).config.tree_depth
                (run_log crates calls out.1 [])))
  unfolding query
  run_latest_root env msg out calls size h =
      let pool = run-IsPool calls out.1 [] (instantiate-IsPool crates env msg out size h) in
      rw (IsPool-newest crates (run_log crates calls out.1 []) (run crates calls out.1) pool) refl

  step_keeps_spent :
      (c : Call) (s : State) (n : Text) (o : Outcome (Response × State))
      → outcome crates c s ≡ o
      → is_spent s n ≡ true
      → is_spent (state_after crates s o) n ≡ true
  step_keeps_spent c s n (ok out) e h =
      let marks = execute-Marks crates c.env c.info c.msg s out n e in ground (arith, marks.after)
  step_keeps_spent c s n (err x) e h = h
  step_keeps_spent c s n panic e h = h

  run_keeps_spent :
      (calls : List Call) (s : State) (n : Text)
      → is_spent s n ≡ true
      → is_spent (run crates calls s) n ≡ true
  run_keeps_spent [] s n h = h
  run_keeps_spent (c ∷ calls) s n h =
      run_keeps_spent calls (state_after crates s (outcome crates c s)) n
        (step_keeps_spent c s n (outcome crates c s) refl h)

  -- A nullifier that a transfer or withdrawal has spent is never accepted again, whatever calls come
  -- between.
  pub no_double_spend :
      (env env' : Env) (info info' : MessageInfo) (msg msg' : ExecuteMsg) (s : State)
      (out out' : Response × State) (n : Text) (calls : List Call)
      → execute crates env info msg s ≡ ok out
      → contains n (spent_by msg) ≡ true
      → contains n (spent_by msg') ≡ true
      → execute crates env' info' msg' (run crates calls out.1) ≢ ok out'
  no_double_spend env env' info info' msg msg' s out out' n calls done spends again h =
      let first = execute-Marks crates env info msg s out n done in
      let second = execute-Marks crates env' info' msg' (run crates calls out.1) out' n h in
      let kept = run_keeps_spent calls out.1 n (ground (arith, first.after)) in
      cc (second.fresh again, kept)

  deposited-le-coins_total :
      (info : MessageInfo) (msg : ExecuteMsg) (s : State)
      → deposited info msg s ≤ coins_total s.config.accepted_denom info.funds
  deposited-le-coins_total info (Msg.deposit c) s =
      amount_of-le-coins_total s.config.accepted_denom info.funds
  deposited-le-coins_total info _ s = omega arith

  step_solvent :
      (c : Call) (s : State) (held : ℕ) (o : Outcome (Response × State))
      → outcome crates c s ≡ o
      → s.pool_balance ≤ held
      → (state_after crates s o).pool_balance ≤ held_after crates c s held o
  step_solvent c s held (ok out) e h =
      let moves = execute-Moves crates c.env c.info c.msg s out e in
      omega (arith, moves.balance, deposited-le-coins_total c.info c.msg s)
  step_solvent c s held (err x) e h = h
  step_solvent c s held panic e h = h

  -- Where an account that receives the funds of accepted calls and pays what they send covers the
  -- recorded balance, it covers it after any calls.
  pub run_solvent :
      (calls : List Call) (s : State) (held : ℕ)
      → s.pool_balance ≤ held
      → (run crates calls s).pool_balance ≤ run_held crates calls s held
  run_solvent [] s held h = h
  run_solvent (c ∷ calls) s held h =
      run_solvent calls (state_after crates s (outcome crates c s))
        (held_after crates c s held (outcome crates c s))
        (step_solvent c s held (outcome crates c s) refl h)
