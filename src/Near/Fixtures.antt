-- ===== src/Near/Fixtures.antt =====
-- Concrete inputs for the tests of near/contracts/privacy-pool: a stand-in for the host and a pool
-- after a deposit and a transfer.
use sl.Prelude.{ℕ, ◌%◌, ◌≡◌, refl, false, Option, none, some, List, [], ◌∷◌, ◌++◌, Text, text_beq}
use sl.Ring.{scan}
use sl.CosmWasm.Fixtures.{encode_hex, repeat, gov, bob, word, body, checksum}
use sl.ProofText.{is_proof_text, is_blank}
use sl.Near.State.{PrivacyPool, Context}
use sl.Near.Hash.{Host, zero_hash_text, zero_hash, zero_hash_from, poseidon_hash_hex}
use sl.Near.Verifier.{verify_proof_binding, expected_binding, join, no_blanks, starts_twice}
use sl.Near.Tree.{insert_leaf, insert_path, insert_level, is_known_root}
use sl.Near.Nullifiers.{check_and_spend_nullifiers, spend_all}
use sl.Near.Pool.{
  new, init_subtrees, deposit, transfer, spend_and_insert, exactly_two, get_latest_root,
}

-- Not Keccak: 32 times a byte that depends on the text.
unfoldable pub toy_keccak : Text → Text
toy_keccak m = repeat 32 (checksum 1 m % 256)

abbrev pub toy_host : Host
toy_host = record { keccak256 = toy_keccak; hex_encode = encode_hex }

abbrev pub by : Text → ℕ → Context
by who v = record { predecessor = who; attached_deposit = v; block_height = 5 }

abbrev pub pool_or : PrivacyPool → Option PrivacyPool → PrivacyPool
pool_or d none = d
pool_or d (some s) = s

abbrev empty_pool : PrivacyPool
empty_pool = record {
  next_leaf_index = 0;
  filled_subtrees = λ k. none;
  roots = λ k. none;
  current_root_index = 0;
  nullifier_spent = λ k. none;
  commitment_exists = λ k. none;
  pool_balance = 0;
  current_epoch_id = 0;
  epochs = λ k. none;
  epoch_nullifiers = λ k. none;
  remote_epoch_roots = λ k. none;
  governance = [];
  authorized_relayer = none;
  domain_chain_id = 0;
  domain_app_id = 0;
}

unfoldable pub near_started : PrivacyPool
near_started = pool_or empty_pool (new toy_host (by gov 0) false gov 1 1)

pub near_started_lem : new toy_host (by gov 0) false gov 1 1 ≡ some near_started
unfolding near_started new
near_started_lem = refl

unfoldable pub near_funded : PrivacyPool
near_funded = pool_or empty_pool (deposit toy_host (by bob 100) (word 49) near_started)

pub near_funded_lem : deposit toy_host (by bob 100) (word 49) near_started ≡ some near_funded
unfolding near_funded deposit insert_leaf near_started new
near_funded_lem = refl

abbrev pub near_nuls : List Text
near_nuls = word 50 ∷ word 51 ∷ []

abbrev pub near_outs : List Text
near_outs = word 52 ∷ word 53 ∷ []

abbrev pub near_proof : Text
near_proof =
    expected_binding toy_host (get_latest_root near_funded ++ (join near_nuls ++ join near_outs))
      body
    ++ body

unfoldable pub near_moved : PrivacyPool
near_moved =
    pool_or empty_pool
      (transfer toy_host near_proof (get_latest_root near_funded) near_nuls near_outs near_funded)

pub near_moved_lem :
    transfer toy_host near_proof (get_latest_root near_funded) near_nuls near_outs near_funded
    ≡ some near_moved
unfolding near_moved transfer spend_and_insert exactly_two is_known_root scan
    check_and_spend_nullifiers spend_all verify_proof_binding is_proof_text is_blank no_blanks
    starts_twice expected_binding join get_latest_root insert_leaf insert_path insert_level
    zero_hash zero_hash_from poseidon_hash_hex toy_keccak encode_hex zero_hash_text text_beq
    near_funded deposit near_started new init_subtrees
near_moved_lem = refl
