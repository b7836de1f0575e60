-- ===== src/CosmWasm/Fixtures.antt =====
-- Concrete inputs for the tests: an encoder, a stand-in for the digest, and a small pool.
use sl.Prelude.{
  ℕ, zero, suc, ◌+◌, ◌*◌, ◌/◌, ◌%◌, ◌≡◌, refl, true, false, Option, none, some, [], ◌∷◌, ◌++◌, Text,
  arith, length, text_beq,
}
use sl.Ring.{scan}
use sl.CosmWasm.Nullifiers.{check_and_spend_nullifiers, spend_nullifier}
use sl.CosmWasm.Outcome.{Outcome, ok, err, panic}
use sl.CosmWasm.Poseidon.{Crates, permute, poseidon_hash_hex, hex_to_bytes, from_be_bytes, be_bytes}
use sl.CosmWasm.Poseidon.Digest.{hex_char, IsHexEncode, AllBytes}
use sl.CosmWasm.Proof.Binding.{IsDigest}
use sl.ProofText.{is_proof_text, is_blank}
use sl.CosmWasm.Proof.{expected_hex, inputs_text, verify_proof_binding, are_inputs_sound}
use sl.CosmWasm.State.{State}
use sl.CosmWasm.Msg.{InstantiateMsg, Env, MessageInfo, Coin, Response, Pair, ExecuteMsg}
use sl.CosmWasm.Msg
use sl.CosmWasm.Tree.{
  zero_hash_text, zero_hash_from, zero_hash, insert_level, insert_path, next_root_index,
  insert_leaf, is_known_root,
}
use sl.CosmWasm.Contract.{
  no_messages, amount_of, init_subtrees, instantiate, execute_deposit, execute, execute_withdraw,
  spend_and_insert,
}
use mathlib.Core.Option

-- `n` times a character.
abbrev pub repeat : ℕ → ℕ → Text
repeat zero c = []
repeat (suc n) c = c ∷ repeat n c

unfoldable pub encode_hex : Text → Text
encode_hex [] = []
encode_hex (b ∷ bs) = hex_char (b / 16) ∷ hex_char (b % 16) ∷ encode_hex bs

pub encode_hex-IsHexEncode : IsHexEncode encode_hex
unfolding encode_hex
encode_hex-IsHexEncode = record { at_nil = refl; at_cons = λ b bs h. refl }

-- Not SHA-256: 32 bytes that depend on the text.
abbrev pub checksum : ℕ → Text → ℕ
checksum acc [] = acc
checksum acc (b ∷ bs) = checksum ((acc * 31 + b) % 65521) bs

abbrev spread : ℕ → ℕ → Text
spread zero v = []
spread (suc n) v = v % 256 ∷ spread n (v * 7 + 1)

unfoldable pub toy_digest : Text → Text
toy_digest m = spread 32 (checksum 1 m)

length-spread : (n v : ℕ) → length (spread n v) ≡ n
length-spread zero v = refl
length-spread (suc n) v = omega (arith, length-spread n (v * 7 + 1))

AllBytes-spread : (n v : ℕ) → AllBytes (spread n v)
AllBytes-spread zero v = tt
AllBytes-spread (suc n) v = (omega arith, AllBytes-spread n (v * 7 + 1))

pub toy_digest-IsDigest : IsDigest toy_digest
unfolding toy_digest
toy_digest-IsDigest = record {
  size = λ m. length-spread 32 (checksum 1 m);
  bytes = λ m. AllBytes-spread 32 (checksum 1 m);
}

abbrev pub toy : Crates
toy = record { hex_encode = encode_hex; sha256 = toy_digest }

-- "gov", "atom" and "bob".
abbrev pub gov : Text
gov = 103 ∷ 111 ∷ 118 ∷ []

abbrev pub atom : Text
atom = 97 ∷ 116 ∷ 111 ∷ 109 ∷ []

abbrev pub bob : Text
bob = 98 ∷ 111 ∷ 98 ∷ []

abbrev pub env_at : ℕ → Env
env_at h = record { height = h }

abbrev pub from : Text → ℕ → MessageInfo
from sender v = record { sender = sender; funds = record { denom = atom; amount = v } ∷ [] }

abbrev pub setup : InstantiateMsg
setup = record {
  tree_depth = 2;
  epoch_duration = 100;
  max_nullifiers_per_epoch = 10;
  root_history_size = 3;
  domain_chain_id = 1;
  domain_app_id = 1;
  governance = gov;
  accepted_denom = atom;
}

-- The result of a call that succeeds.
abbrev pub result {ℓ} : {A : Type ℓ} → A → Outcome A → A
result d (ok a) = a
result d (err e) = d
result d panic = d

abbrev blank : State
blank = record {
  config = record {
    tree_depth = 0;
    epoch_duration = 0;
    max_nullifiers_per_epoch = 0;
    root_history_size = 0;
    domain_chain_id = 0;
    domain_app_id = 0;
    governance = [];
    accepted_denom = [];
    authorized_relayer = none;
  };
  next_leaf_index = 0;
  filled_subtrees = λ k. none;
  roots = λ k. none;
  current_root_index = 0;
  nullifier_spent = λ k. none;
  commitment_exists = λ k. none;
  pool_balance = 0;
  current_epoch_id = 0;
  epochs = λ k. none;
  epoch_nullifiers = λ k. none;
  remote_epoch_roots = λ k. none;
}

abbrev pub or_blank : Outcome (Response × State) → Response × State
or_blank = result (no_messages, blank)

-- The pool after instantiation.
unfoldable pub started : Response × State
started = or_blank (instantiate toy (env_at 7) setup)

pub started_lem : instantiate toy (env_at 7) setup ≡ ok started
unfolding started instantiate init_subtrees poseidon_hash_hex permute hex_to_bytes from_be_bytes
    be_bytes encode_hex zero_hash_text Option.bind
started_lem = refl

-- The numbers of the new pool.
pub record IsNew (s : State) : Type 0 where
  pub depth : s.config.tree_depth ≡ 2
  pub size : s.config.root_history_size ≡ 3
  pub index : s.next_leaf_index ≡ 0
  pub balance : s.pool_balance ≡ 0
  pub denom : text_beq s.config.accepted_denom atom ≡ true
  pub governance : text_beq bob s.config.governance ≡ false
  pub unseen : s.commitment_exists ≡ (λ k. none)

pub started-IsNew : IsNew started.1
unfolding started instantiate init_subtrees poseidon_hash_hex permute hex_to_bytes from_be_bytes
    be_bytes encode_hex zero_hash_text Option.bind text_beq
started-IsNew = record {
  depth = refl;
  size = refl;
  index = refl;
  balance = refl;
  denom = refl;
  governance = refl;
  unseen = refl;
}

-- A commitment or nullifier of 64 times a character.
abbrev pub word : ℕ → Text
word c = repeat 64 c

-- The pool after a deposit of 100.
unfoldable pub funded : Response × State
unfolding started
funded = or_blank (execute toy (env_at 8) (from bob 100) (Msg.deposit (word 49)) started.1)

pub funded_lem : execute toy (env_at 8) (from bob 100) (Msg.deposit (word 49)) started.1 ≡ ok funded
unfolding funded started execute execute_deposit amount_of insert_leaf insert_path insert_level
    zero_hash zero_hash_from next_root_index instantiate init_subtrees poseidon_hash_hex permute
    hex_to_bytes from_be_bytes be_bytes encode_hex zero_hash_text Option.bind text_beq
funded_lem = refl

abbrev pub text_or_empty : Option Text → Text
text_or_empty none = []
text_or_empty (some t) = t

abbrev pub newest_root : State → Text
newest_root s = text_or_empty (s.roots s.current_root_index)

abbrev pub body : Text
body = repeat 320 49

-- A proof that is bound to its inputs.
abbrev pub bound_proof : Text → Pair → Pair → Text
bound_proof root nuls outs = expected_hex toy (inputs_text root nuls outs) body ++ body

abbrev pub nuls : Pair
nuls = (word 50, word 51)

abbrev pub outs : Pair
outs = (word 52, word 53)

abbrev pub withdrawal : ExecuteMsg
withdrawal =
    Msg.withdraw (bound_proof (newest_root funded.1) nuls outs) (newest_root funded.1) nuls outs bob
      30

-- The pool after a withdrawal of 30.
unfoldable pub paid_out : Response × State
paid_out = or_blank (execute toy (env_at 9) (from bob 0) withdrawal funded.1)

pub paid_out_lem : execute toy (env_at 9) (from bob 0) withdrawal funded.1 ≡ ok paid_out
unfolding paid_out execute execute_withdraw spend_and_insert is_known_root scan
    check_and_spend_nullifiers spend_nullifier verify_proof_binding is_proof_text are_inputs_sound
    is_blank inputs_text expected_hex toy_digest funded started execute_deposit amount_of
    insert_leaf insert_path insert_level zero_hash zero_hash_from next_root_index instantiate
    init_subtrees poseidon_hash_hex permute hex_to_bytes from_be_bytes be_bytes encode_hex
    zero_hash_text Option.bind text_beq
paid_out_lem = refl
