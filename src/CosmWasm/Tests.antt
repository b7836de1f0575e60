-- ===== src/CosmWasm/Tests.antt =====
-- The theorems of the CosmWasm pool at concrete inputs.
use sl.Prelude.{
  ℕ, ◌<◌, ◌≤◌, ◌≡◌, ◌≢◌, ◌↔◌, refl, true, false, not, ◌&&◌, some, List, [], ◌∷◌, ◌++◌, Text, arith,
  take, drop, text_beq, text_eq, nat_eq,
}
use sl.Ring.{contains}
use sl.CosmWasm.Outcome.{ok, panic}
use sl.CosmWasm.Poseidon.{
  permute, poseidon_hash_hex, hex_to_bytes, from_be_bytes, be_bytes, hex_to_32,
}
use sl.CosmWasm.Poseidon.Constants.{modulus}
use sl.CosmWasm.Poseidon.Digest.{IsHex, poseidon_hash_hex-total, from_be_bytes-be_bytes}
use sl.CosmWasm.State.{State}
use sl.CosmWasm.Msg.{Response, ExecuteMsg, MessageInfo, Pair}
use sl.CosmWasm.Msg
use sl.ProofText.{is_blank}
use sl.CosmWasm.Proof.{expected_hex, inputs_text, verify_proof_binding, are_inputs_sound}
use sl.ProofText.{bind_tag}
use sl.ProofText.Form.{IsProofForm}
use sl.CosmWasm.Proof.Sound.{IsSoundInputs, verify_proof_binding_iff}
use sl.CosmWasm.Proof.Binding.{verify_shifted, verify_accepts}
use sl.CosmWasm.Tree.{
  zero_hash_text, zero_hash_from, zero_hash, insert_level, insert_path, next_root_index,
  insert_leaf, is_known_root,
}
use sl.CosmWasm.Tree.History.{IsPool, log_roots}
use sl.CosmWasm.Nullifiers.{flag}
use sl.CosmWasm.Contract.{
  new_epoch, amount_of, init_subtrees, instantiate, execute_deposit, execute,
  execute_finalize_epoch,
}
use sl.CosmWasm.Contract.Leaves.{instantiate-IsPool}
use sl.CosmWasm.Contract.Epochs.{IsEpochs}
use sl.CosmWasm.Contract.Sealed.{AllSealed}
use sl.CosmWasm.Contract.Accepts.{execute_deposit-total, finalize_stuck}
use sl.CosmWasm.Run.{Call, run, run_log, run_held}
use sl.CosmWasm.Run.Safety.{run_known_roots, no_double_spend, run_solvent}
use sl.CosmWasm.Run.Epochs.{run-IsEpochs, run-AllSealed}
use sl.CosmWasm.Fixtures.{
  encode_hex, encode_hex-IsHexEncode, toy_digest-IsDigest, toy, gov, bob, env_at, from, setup,
  started, started_lem, word, funded, newest_root, body, nuls, outs, withdrawal, paid_out,
  paid_out_lem, result, started-IsNew,
}
use mathlib.Core.Option

abbrev three_calls : List Call
three_calls =
    record { env = env_at 8; info = from bob 100; msg = Msg.deposit (word 49) }
    ∷ record { env = env_at 9; info = from bob 0; msg = withdrawal }
    ∷ record { env = env_at 10; info = from gov 0; msg = Msg.finalize_epoch }
    ∷ []

abbrev last : State
last = run toy three_calls started.1

run_known_roots_example :
    is_known_root last (newest_root funded.1)
    ≡ not (text_beq (newest_root funded.1) zero_hash_text)
      && contains (newest_root funded.1) (
          take last.config.root_history_size
            (log_roots toy last.config.tree_depth (run_log toy three_calls started.1 [])))
run_known_roots_example =
    run_known_roots toy (env_at 7) setup started three_calls (newest_root funded.1) (omega arith)
      started_lem

no_double_spend_example :
    execute toy (env_at 11) (from bob 0) withdrawal (run toy three_calls paid_out.1) ≢ ok paid_out
no_double_spend_example =
    no_double_spend toy (env_at 9) (env_at 11) (from bob 0) (from bob 0) withdrawal withdrawal
      funded.1 paid_out paid_out (word 51) three_calls paid_out_lem (unfold text_beq in refl)
      (unfold text_beq in refl)

run_solvent_example : last.pool_balance ≤ run_held toy three_calls started.1 0
run_solvent_example = run_solvent toy three_calls started.1 0 (omega (arith, started-IsNew.balance))

run-IsEpochs_example : IsEpochs last
run-IsEpochs_example = run-IsEpochs toy (env_at 7) setup started three_calls started_lem

start-IsPool_fixture : IsPool toy [] started.1
start-IsPool_fixture = instantiate-IsPool toy (env_at 7) setup started (omega arith) started_lem

paid_amount : amount_of started.1.config.accepted_denom (from bob 100).funds ≡ 100
unfolding started instantiate init_subtrees poseidon_hash_hex permute hex_to_bytes from_be_bytes
    be_bytes encode_hex zero_hash_text Option.bind text_beq amount_of
paid_amount = refl

unseen_word : flag (started.1.commitment_exists (word 49)) ≡ false
unseen_word = rw started-IsNew.unseen refl

word-IsHex : IsHex (word 49)
unfolding hex_to_bytes Option.bind
word-IsHex = (_, refl)

execute_deposit-total_example :
    (out : Response × State) × (execute_deposit toy (from bob 100) (word 49) started.1 ≡ ok out)
execute_deposit-total_example =
    execute_deposit-total toy (from bob 100) (word 49) [] started.1 encode_hex-IsHexEncode
      start-IsPool_fixture tt word-IsHex (omega (arith, started-IsNew.depth))
      (omega (arith, started-IsNew.size))
      (rw (started-IsNew.index, started-IsNew.depth) (omega arith)) unseen_word
      (omega (arith, paid_amount)) (omega (arith, paid_amount, started-IsNew.balance))

-- A pool whose current epoch holds an unreadable nullifier.
abbrev stuck : State
stuck = record started.1 {
  epoch_nullifiers = λ k. some (word 50 ∷ bob ∷ []);
  epochs = λ k. some (new_epoch 7);
  config = record started.1.config { governance = gov };
}

finalize_stuck_example : execute_finalize_epoch toy (env_at 9) (from gov 0) stuck ≡ panic
unfolding new_epoch text_beq hex_to_bytes Option.bind
finalize_stuck_example =
    finalize_stuck toy (env_at 9) (from gov 0) stuck (new_epoch 7) (word 50) bob (bob ∷ []) refl
      refl refl refl refl refl

abbrev sound : Text
sound = expected_hex toy (inputs_text (word 49) nuls outs) body ++ body

sound_inputs : are_inputs_sound (word 49) nuls outs ≡ true
unfolding are_inputs_sound is_blank text_beq
sound_inputs = refl

verify_proof_binding_iff_example : (verify_proof_binding toy sound (word 49) nuls outs ≡ true) ↔ (
    IsProofForm sound
    × IsSoundInputs (word 49) nuls outs
    × (take 64 sound
        ≡ toy.hex_encode (
            toy.sha256 (
              bind_tag
              ++ (toy.sha256 (word 49 ++ (nuls.0 ++ (nuls.1 ++ (outs.0 ++ outs.1))))
                  ++ drop 64 sound)))))
verify_proof_binding_iff_example = verify_proof_binding_iff toy sound (word 49) nuls outs

-- The first nullifier ends in a 7, which the second then begins with.
abbrev long_nuls : Pair
long_nuls = (word 50 ++ 55 ∷ [], word 51)

abbrev shifted_nuls : Pair
shifted_nuls = (word 50, 55 ∷ word 51)

long_inputs : are_inputs_sound (word 49) long_nuls outs ≡ true
unfolding are_inputs_sound is_blank text_beq
long_inputs = refl

shifted_inputs : are_inputs_sound (word 49) shifted_nuls outs ≡ true
unfolding are_inputs_sound is_blank text_beq
shifted_inputs = refl

abbrev replayed : Text
replayed = expected_hex toy (inputs_text (word 49) long_nuls outs) body ++ body

replayed_accepted : verify_proof_binding toy replayed (word 49) long_nuls outs ≡ true
replayed_accepted =
    verify_accepts toy (word 49) long_nuls outs body encode_hex-IsHexEncode toy_digest-IsDigest
      long_inputs refl refl refl (omega arith) (omega arith)

verify_shifted_example : verify_proof_binding toy replayed (word 49) shifted_nuls outs ≡ true
verify_shifted_example =
    verify_shifted toy replayed (word 49) (word 50) (word 51) 55 outs replayed_accepted
      shifted_inputs

poseidon_hash_hex-total_example :
    (h : Text) × (bs : List ℕ) × (poseidon_hash_hex toy (word 49) (word 49) ≡ ok h)
    × (hex_to_32 h ≡ some bs)
    × (from_be_bytes 0 bs < modulus)
poseidon_hash_hex-total_example =
    poseidon_hash_hex-total toy encode_hex-IsHexEncode (word 49) (word 49) word-IsHex word-IsHex

from_be_bytes-be_bytes_example : from_be_bytes 0 (be_bytes 2 51966) ≡ 51966
from_be_bytes-be_bytes_example = from_be_bytes-be_bytes 2 51966 (omega arith)

-- The pool after the insertion of one leaf.
unfoldable inserted : ℕ × State
inserted = result (0, started.1) (insert_leaf toy (word 49) started.1)

inserted_lem : insert_leaf toy (word 49) started.1 ≡ ok inserted
unfolding inserted insert_leaf insert_path insert_level zero_hash zero_hash_from next_root_index
    started instantiate init_subtrees poseidon_hash_hex permute hex_to_bytes from_be_bytes be_bytes
    encode_hex zero_hash_text Option.bind
inserted_lem = refl

run-AllSealed_example : AllSealed toy last
run-AllSealed_example = run-AllSealed toy (env_at 7) setup started three_calls started_lem
