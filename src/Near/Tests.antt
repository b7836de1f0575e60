-- ===== src/Near/Tests.antt =====
-- The theorems of the NEAR pool at concrete inputs.
use sl.Prelude.{
  ℕ, ◌+◌, ◌≡◌, ◌≢◌, ◌↔◌, refl, true, not, ◌&&◌, if◌then◌else◌, some, List, [], ◌∷◌, ◌++◌, Text,
  take, drop, text_beq, text_eq,
}
use sl.Ring.{contains}
use sl.CosmWasm.Fixtures.{gov, bob, word, encode_hex}
use sl.CosmWasm.Fixtures.{body}
use sl.ProofText.{is_proof_text, is_blank}
use sl.Near.Verifier.{verify_proof_binding, expected_binding, join, no_blanks, starts_twice}
use mathlib.Core.List.{flatten}
use sl.ProofText.{bind_tag}
use sl.ProofText.Form.{IsProofForm}
use sl.Near.Verifier.Sound.{IsSoundInputs, verify-sound_iff}
use sl.Near.State.{PrivacyPool}
use sl.Near.Hash.{zero_hash_text}
use sl.Near.Tree.{root_history_size, is_known_root}
use sl.Near.Tree.Insert.{roots_after}
use sl.Distinct.{is_distinct}
use sl.Near.Pool
use sl.Near.Key.{remote_key}
use sl.Near.Pool.{
  may_sync, is_nullifier_spent, get_latest_root, get_remote_epoch_root, new, deposit, exactly_two,
}
use sl.Near.Pool.Method.{Method, call}
use sl.Near.Pool.History.{History, no_history, after, Reachable, created, called}
use sl.Near.Pool.Reachable.{
  is_known_root-Reachable, is_nullifier_spent-Reachable, pool_balance-Reachable,
}
use sl.Near.Pool.Epochs.{IsTimeline, Reachable-IsTimeline}
use sl.Near.Pool.Accepts.{get_remote_epoch_root-sync, IsAcceptable, transfer-accepts}
use sl.Near.Fixtures.{
  toy_host, by, near_started, near_started_lem, near_funded, near_funded_lem, near_nuls, near_outs,
  near_proof, near_moved, near_moved_lem, toy_keccak,
}

abbrev history1 : History
history1 = after (by bob 100) (Method.deposit (word 49)) [] no_history

abbrev history2 : History
history2 =
    after (by bob 0) (Method.transfer near_proof (get_latest_root near_funded) near_nuls near_outs)
      [] history1

reached0 : Reachable toy_host no_history near_started
reached0 = created (by gov 0) gov 1 1 near_started near_started_lem

reached1 : Reachable toy_host history1 near_funded
reached1 =
    called reached0 (by bob 100) (Method.deposit (word 49)) [] near_funded
      (unfold call in rw near_funded_lem refl)

reached2 : Reachable toy_host history2 near_moved
reached2 =
    called reached1 (by bob 0)
      (Method.transfer near_proof (get_latest_root near_funded) near_nuls near_outs) [] near_moved
      (unfold call in rw near_moved_lem refl)

is_known_root-Reachable_example :
    is_known_root near_moved (get_latest_root near_funded)
    ≡ not (text_beq (get_latest_root near_funded) zero_hash_text)
      && contains
          (get_latest_root near_funded)
          (take root_history_size (roots_after toy_host history2.leaves))
is_known_root-Reachable_example =
    is_known_root-Reachable toy_host history2 near_moved (get_latest_root near_funded) reached2

is_nullifier_spent-Reachable_example :
    (is_distinct history2.spent ≡ true)
    × ((n : Text) → is_nullifier_spent near_moved n ≡ contains n history2.spent)
is_nullifier_spent-Reachable_example =
    is_nullifier_spent-Reachable toy_host history2 near_moved reached2

pool_balance-Reachable_example : near_moved.pool_balance + history2.paid ≡ history2.received
pool_balance-Reachable_example = pool_balance-Reachable toy_host history2 near_moved reached2

Reachable-IsTimeline_example : IsTimeline toy_host near_nuls near_moved
Reachable-IsTimeline_example = Reachable-IsTimeline toy_host history2 near_moved reached2

transfer-accepts_example :
    ((s' : PrivacyPool) × (Pool.transfer toy_host near_proof
          (get_latest_root near_funded)
          near_nuls
          near_outs
          near_funded
        ≡ some s'))
    ↔ IsAcceptable toy_host near_proof
        (get_latest_root near_funded)
        (word 50)
        (word 51)
        (word 52)
        (word 53)
        near_funded
transfer-accepts_example =
    transfer-accepts toy_host history1 near_funded near_proof (get_latest_root near_funded)
      (word 50) (word 51) (word 52) (word 53) reached1

abbrev synced : PrivacyPool
synced = record near_started {
  remote_epoch_roots = λ k.
      if text_beq (remote_key 43114 7) k then some (word 49) else near_started.remote_epoch_roots k;
}

get_remote_epoch_root-sync_example :
    (get_remote_epoch_root synced 43114 7 ≡ some (word 49))
    × ((chain' id' : ℕ)
        → ◌≢◌ {A = ℕ × ℕ} (chain', id') (43114, 7)
        → get_remote_epoch_root synced chain' id' ≡ get_remote_epoch_root near_started chain' id')
get_remote_epoch_root-sync_example =
    get_remote_epoch_root-sync (by gov 0) 43114 7 (word 49) near_started synced
      (unfold near_started new text_beq Pool.sync_epoch_root may_sync in refl)

-- The first nullifier ends in a 7, which the second then begins with.
abbrev near_long : List Text
near_long = (word 50 ++ 55 ∷ []) ∷ word 51 ∷ []

abbrev near_shifted : List Text
near_shifted = word 50 ∷ (55 ∷ word 51) ∷ []

abbrev near_replayed : Text
near_replayed =
    expected_binding toy_host (word 49 ++ (join near_long ++ join near_outs)) body ++ body

near_replayed_accepted :
    verify_proof_binding toy_host near_replayed (word 49) near_long near_outs ≡ true
unfolding verify_proof_binding is_proof_text is_blank no_blanks starts_twice expected_binding join
    toy_keccak encode_hex text_beq
near_replayed_accepted = refl

verify-sound_iff_example :
    (verify_proof_binding toy_host near_replayed (word 49) near_long near_outs ≡ true) ↔ (
      IsProofForm near_replayed
      × IsSoundInputs (word 49) near_long near_outs
      × (take 64 near_replayed
          ≡ toy_host.hex_encode (
              toy_host.keccak256 (
                bind_tag
                ++ (toy_host.keccak256 (word 49 ++ (flatten near_long ++ flatten near_outs))
                    ++ drop 64 near_replayed)))))
verify-sound_iff_example = verify-sound_iff toy_host near_replayed (word 49) near_long near_outs
