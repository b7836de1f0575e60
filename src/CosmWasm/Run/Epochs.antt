-- ===== src/CosmWasm/Run/Epochs.antt =====
-- Epochs over chains of calls.
use sl.Prelude.{◌≡◌, refl, List, [], ◌∷◌}
use sl.CosmWasm.Outcome.{Outcome, ok, err, panic}
use sl.CosmWasm.Poseidon.{Crates}
use sl.CosmWasm.State.{State}
use sl.CosmWasm.Msg.{Env, Response, InstantiateMsg}
use sl.CosmWasm.Contract.{instantiate}
use sl.CosmWasm.Contract.Epochs.{IsEpochs, execute-IsEpochs, instantiate-IsEpochs}
use sl.CosmWasm.Contract.Past.{SamePast, SamePast-refl, SamePast-trans, execute-SamePast}
use sl.CosmWasm.Contract.Sealed.{AllSealed, execute-AllSealed, instantiate-AllSealed}
use sl.CosmWasm.Run.{Call, outcome, state_after, run}

module _ (crates : Crates) where
  step-IsEpochs :
      (c : Call) (s : State) (o : Outcome (Response × State))
      → outcome crates c s ≡ o
      → IsEpochs s
      → IsEpochs (state_after crates s o)
  step-IsEpochs c s (ok out) e inv = execute-IsEpochs crates c.env c.info c.msg s out e inv
  step-IsEpochs c s (err x) e inv = inv
  step-IsEpochs c s panic e inv = inv

  kept-IsEpochs : (calls : List Call) (s : State) → IsEpochs s → IsEpochs (run crates calls s)
  kept-IsEpochs [] s inv = inv
  kept-IsEpochs (c ∷ calls) s inv =
      kept-IsEpochs calls (state_after crates s (outcome crates c s))
        (step-IsEpochs c s (outcome crates c s) refl inv)

  -- From instantiation, after any calls: the current epoch is stored and open, every epoch before
  -- it is stored and finalized, none is stored after it, and a nullifier is spent exactly if the
  -- list of some epoch holds it.
  pub run-IsEpochs :
      (env : Env) (msg : InstantiateMsg) (out : Response × State) (calls : List Call)
      → instantiate crates env msg ≡ ok out
      → IsEpochs (run crates calls out.1)
  run-IsEpochs env msg out calls h =
      kept-IsEpochs calls out.1 (instantiate-IsEpochs crates env msg out h)

  step-SamePast :
      (c : Call) (s : State) (o : Outcome (Response × State))
      → outcome crates c s ≡ o
      → SamePast s (state_after crates s o)
  step-SamePast c s (ok out) e = execute-SamePast crates c.env c.info c.msg s out e
  step-SamePast c s (err x) e = SamePast-refl s
  step-SamePast c s panic e = SamePast-refl s

  -- Epochs that lie before the current one keep their record and their nullifiers through any calls,
  -- and the current epoch never goes back.
  pub run-SamePast : (calls : List Call) (s : State) → SamePast s (run crates calls s)
  run-SamePast [] s = SamePast-refl s
  run-SamePast (c ∷ calls) s =
      SamePast-trans (step-SamePast c s (outcome crates c s) refl)
        (run-SamePast calls (state_after crates s (outcome crates c s)))

  step-AllSealed :
      (c : Call) (s : State) (o : Outcome (Response × State))
      → outcome crates c s ≡ o
      → AllSealed crates s
      → AllSealed crates (state_after crates s o)
  step-AllSealed c s (ok out) e all = execute-AllSealed crates c.env c.info c.msg s out e all
  step-AllSealed c s (err x) e all = all
  step-AllSealed c s panic e all = all

  kept-AllSealed :
      (calls : List Call) (s : State) → AllSealed crates s → AllSealed crates (run crates calls s)
  kept-AllSealed [] s all = all
  kept-AllSealed (c ∷ calls) s all =
      kept-AllSealed calls (state_after crates s (outcome crates c s))
        (step-AllSealed c s (outcome crates c s) refl all)

  -- From instantiation, after any calls, every epoch before the current one is stored as finalized,
  -- with the nullifier root and, modulo 2^32, the size of its list.
  pub run-AllSealed :
      (env : Env) (msg : InstantiateMsg) (out : Response × State) (calls : List Call)
      → instantiate crates env msg ≡ ok out
      → AllSealed crates (run crates calls out.1)
  run-AllSealed env msg out calls h =
      kept-AllSealed calls out.1 (instantiate-AllSealed crates env msg out h)
