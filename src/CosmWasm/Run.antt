-- ===== src/CosmWasm/Run.antt =====
-- A chain of calls. A call that fails, by an error or a panic, changes nothing and moves no money:
-- the chain drops its writes and returns its funds.
pub mod Safety
pub mod Epochs
use sl.Prelude.{ℕ, ◌+◌, ◌-◌, List, [], ◌∷◌, ◌++◌, Text}
use sl.CosmWasm.Outcome.{Outcome, ok, err, panic}
use sl.CosmWasm.Poseidon.{Crates}
use sl.CosmWasm.State.{State}
use sl.CosmWasm.Msg.{ExecuteMsg, Env, MessageInfo, Response}
use sl.CosmWasm.Contract.{execute}
use sl.CosmWasm.Contract.Leaves.{leaves_of}
use sl.CosmWasm.Contract.Balance.{coins_total, sent_total}

pub record Call : Type 0 where
  pub env : Env
  pub info : MessageInfo
  pub msg : ExecuteMsg

module _ (crates : Crates) where
  abbrev pub outcome : Call → State → Outcome (Response × State)
  outcome c s = execute crates c.env c.info c.msg s

  -- The state after a call, whatever its outcome.
  abbrev pub state_after : State → Outcome (Response × State) → State
  state_after s (ok out) = out.1
  state_after s (err e) = s
  state_after s panic = s

  abbrev pub run : List Call → State → State
  run [] s = s
  run (c ∷ calls) s = run calls (state_after s (outcome c s))

  -- The log of leaves after a call and after a chain of calls.
  abbrev pub log_after : Call → List Text → Outcome (Response × State) → List Text
  log_after c log (ok out) = leaves_of c.msg ++ log
  log_after c log (err e) = log
  log_after c log panic = log

  abbrev pub run_log : List Call → State → List Text → List Text
  run_log [] s log = log
  run_log (c ∷ calls) s log =
      run_log calls (state_after s (outcome c s)) (log_after c log (outcome c s))

  -- What the contract's account holds of the accepted denomination: the funds of a successful call
  -- come in, and what its response sends goes out.
  abbrev pub held_after : Call → State → ℕ → Outcome (Response × State) → ℕ
  held_after c s held (ok out) =
      held
      + coins_total s.config.accepted_denom c.info.funds
      - sent_total s.config.accepted_denom out.0.messages
  held_after c s held (err e) = held
  held_after c s held panic = held

  abbrev pub run_held : List Call → State → ℕ → ℕ
  run_held [] s held = held
  run_held (c ∷ calls) s held =
      run_held calls (state_after s (outcome c s)) (held_after c s held (outcome c s))
