-- ===== src/Pallet/Fixtures.antt =====
-- Concrete inputs for the tests of pallets/privacy-pool: a runtime with a tree of depth 2, and a pool after
-- a deposit and a withdrawal.
use sl.Prelude.{
  ◌<◌, ◌⊎◌, inl, inr, ℕ, ◌+◌, ◌-◌, ◌≤◌, ◌%◌, ◌≡◌, ◌≢◌, refl, false, true, Bool, Option, none, some,
  [], ◌∷◌, ◌++◌, Text, text_beq, ltb, if◌then◌else◌, arith, text_beq-of_ne, text_beq_iff, sym, ap,
}
use sl.Fallible.{ok, err, panic}
use sl.Panic.{some-injective}
use sl.CosmWasm.Fixtures.{repeat, checksum}
use sl.Pallet.State.{
  root, WithdrawPublicInputs, Config, Storage, Currency, IsCurrency, Balances, Dispatch, signed,
}
use sl.Pallet.Poseidon.{poseidon_hash, zero_h256, zero_hash, zero_hash_from}
use sl.CosmWasm.Poseidon.{be_bytes, from_be_bytes}
use sl.Pallet.Pool.{
  finalize_epoch, build, deposit, withdraw, open_epoch, init_subtrees, saturating_add,
  insert_outputs,
}
use sl.Pallet.Nullifiers.{check_and_spend_nullifiers, spend_nullifier, is_spent, nullifiers_of}
use sl.Pallet.Verifier.{
  binding_tag, encode_withdraw_inputs, verify_withdraw, is_proof_format, verify_halo2_ipa_proof,
}
use sl.Pallet.Tree.{
  get_latest_root, is_known_root, scan_roots, insert_leaf, insert_path, insert_level, remainder,
}
use sl.Pallet.Call.{Call, Runtime, call}

-- Not BLAKE2: 32 times a byte that depends on the text.
unfoldable pub pallet_blake : Text → Text
pallet_blake m = repeat 32 (checksum 1 m % 251 + 1)

abbrev pub account : Text
account = 80 ∷ []

abbrev pub depositor : Text
depositor = 65 ∷ []

abbrev pub small_config : Config
small_config = record {
  tree_depth = 2;
  max_nullifiers_per_epoch = 4;
  root_history_size = 3;
  para_id = 2000;
  app_id = 1;
  pool_account = account;
}

-- The balances after a transfer that leaves the sender a rest.
abbrev pub moved : Text → Text → ℕ → (rest : ℕ) → Balances → Balances
moved from to v rest b k = if text_beq k from then rest else if text_beq k to then b to + v else b k

-- The least balance of an account.
abbrev pub least : ℕ
least = 50

-- A transfer, by whether the sender has too little, is the recipient, would be left with a rest below the
-- minimum, and is to be kept alive.
abbrev pay_when : (poor own low alive : Bool) → Text → Text → ℕ → Balances → Option Balances
pay_when true own low alive from to v b = none
pay_when false true low alive from to v b = some b
pay_when false false true true from to v b = none
pay_when false false true false from to v b = some (moved from to v 0 b)
pay_when false false false alive from to v b = some (moved from to v (b from - v) b)

unfoldable pub pay : Text → Text → ℕ → Bool → Balances → Option Balances
pay from to v alive b =
    pay_when (ltb (b from) v) (text_beq from to) (ltb (b from - v) least) alive from to v b

abbrev pub plain_currency : Currency
plain_currency = record { transfer = pay; minimum_balance = least }

moved_lem :
    (from to : Text) (v rest : ℕ) (b b' : Balances)
    → some (moved from to v rest b) ≡ some b'
    → from ≢ to
    → (b' from ≡ rest) × (b' to ≡ b to + v)
moved_lem from to v rest b b' paid ne =
    let it = some-injective paid in
    let back = text_beq-of_ne to from (λ e. ne (sym e)) in
    let own = (text_beq_iff from from).1 refl in
    let own_to = (text_beq_iff to to).1 refl in
    let at_from : moved from to v rest b from ≡ b' from = ap (λ (f : Balances). f from) it in
    let at_to : moved from to v rest b to ≡ b' to = ap (λ (f : Balances). f to) it in
    let at_from' : rest ≡ b' from = rw own at at_from in
    let at_to' : b to + v ≡ b' to = rw (back, own_to) at at_to in (sym at_from', sym at_to')

-- What a transfer between two accounts does to them.
pay_when_moves :
    (poor own low alive : Bool) (from to : Text) (v : ℕ) (b b' : Balances)
    → ltb (b from) v ≡ poor
    → text_beq from to ≡ own
    → ltb (b from - v) least ≡ low
    → pay_when poor own low alive from to v b ≡ some b'
    → from ≢ to
    → (b' to ≡ b to + v)
      × ((b' from + v ≡ b from) ⊎ ((alive ≡ false) × (b' from ≡ 0) × (b from < v + least)))
pay_when_moves true own low alive from to v b b' e1 e2 e3 paid ne = cc
pay_when_moves false true low alive from to v b b' e1 e2 e3 paid ne =
    absurd (ne ((text_beq_iff from to).0 e2))
pay_when_moves false false true true from to v b b' e1 e2 e3 paid ne = cc
pay_when_moves false false true false from to v b b' e1 e2 e3 paid ne =
    let (left, right) = moved_lem from to v 0 b b' paid ne in
    (right, inr (refl, left, ground (arith, e1, e3)))
pay_when_moves false false false alive from to v b b' e1 e2 e3 paid ne =
    let (left, right) = moved_lem from to v (b from - v) b b' paid ne in
    let enough : v ≤ b from = ground (arith, e1) in (right, inl (omega (arith, left, enough)))

pay_when_same :
    (poor own low alive : Bool) (from : Text) (v : ℕ) (b b' : Balances)
    → own ≡ true
    → pay_when poor own low alive from from v b ≡ some b'
    → b' from ≡ b from
pay_when_same true own low alive from v b b' e paid = cc
pay_when_same false true low alive from v b b' e paid =
    ap (λ (f : Balances). f from) (sym (some-injective paid))
pay_when_same false false low alive from v b b' e paid = cc

pub plain_currency-IsCurrency : IsCurrency plain_currency
unfolding pay
plain_currency-IsCurrency = record {
  credits = λ from to v alive b b' paid ne.
      (pay_when_moves (ltb (b from) v) (text_beq from to) (ltb (b from - v) least) alive from to v b
        b' refl refl refl paid ne).0;
  debits = λ from to v alive b b' paid ne.
      (pay_when_moves (ltb (b from) v) (text_beq from to) (ltb (b from - v) least) alive from to v b
        b' refl refl refl paid ne).1;
  same = λ from v alive b b' paid.
      pay_when_same (ltb (b from) v) (text_beq from from) (ltb (b from - v) least) alive from v b b'
        ((text_beq_iff from from).1 refl) paid;
}

abbrev pub small : Runtime
small = record { config = small_config; currency = plain_currency; blake2_256 = pallet_blake }

abbrev pub started_balances : Balances
started_balances k = if text_beq k account then 0 else 1000

unfoldable pub pallet_started : Storage
pallet_started = build small_config

abbrev pub state_or : Storage × Balances → Dispatch (Storage × Balances) → Storage × Balances
state_or s (ok s') = s'
state_or s (err e) = s
state_or s panic = s

abbrev pub leaf49 : Text
leaf49 = repeat 32 49

unfoldable pub pallet_funded : Storage × Balances
pallet_funded =
    state_or (pallet_started, started_balances)
      (call small (signed depositor) 1 (Call.deposit leaf49 100) pallet_started started_balances)

pub pallet_funded_lem :
    call small (signed depositor) 1 (Call.deposit leaf49 100) pallet_started started_balances
    ≡ ok pallet_funded
unfolding pallet_funded pallet_started call deposit build open_epoch init_subtrees insert_leaf
    insert_path insert_level remainder pay text_beq saturating_add
pallet_funded_lem = refl

abbrev pub pallet_nuls : Text × Text
pallet_nuls = (repeat 32 50, repeat 32 51)

abbrev pub pallet_outs : Text × Text
pallet_outs = (repeat 32 52, repeat 32 53)

abbrev pub pallet_body : Text
pallet_body = repeat 160 9

abbrev pub withdraw_inputs : WithdrawPublicInputs
withdraw_inputs = record {
  merkle_root = get_latest_root pallet_funded.0;
  nullifiers = pallet_nuls;
  output_commitments = pallet_outs;
  exit_value = 60;
}

abbrev pub pallet_proof : Text
pallet_proof =
    pallet_blake (binding_tag ++ (encode_withdraw_inputs withdraw_inputs ++ pallet_body))
    ++ pallet_body

abbrev pub pallet_withdraw : Call
pallet_withdraw =
    Call.withdraw pallet_proof (get_latest_root pallet_funded.0) pallet_nuls pallet_outs depositor
      60

unfoldable pub pallet_moved : Storage × Balances
pallet_moved =
    state_or pallet_funded
      (call small (signed depositor) 2 pallet_withdraw pallet_funded.0 pallet_funded.1)

pub pallet_moved_lem :
    call small (signed depositor) 2 pallet_withdraw pallet_funded.0 pallet_funded.1
    ≡ ok pallet_moved
unfolding pallet_moved call withdraw is_known_root scan_roots check_and_spend_nullifiers
    spend_nullifier is_spent nullifiers_of verify_withdraw is_proof_format verify_halo2_ipa_proof
    encode_withdraw_inputs insert_outputs insert_leaf insert_path insert_level remainder pay
    text_beq get_latest_root pallet_blake pallet_funded pallet_started deposit build open_epoch
    init_subtrees saturating_add poseidon_hash be_bytes zero_h256 from_be_bytes zero_hash
    zero_hash_from
pallet_moved_lem = refl

-- The withdrawal left 40, which were dropped, while the pool has stored 40.
pub pallet_moved_dropped : (pallet_moved.0.pool_balance ≡ 40) × (pallet_moved.1 account ≡ 0)
unfolding pallet_moved call withdraw is_known_root scan_roots check_and_spend_nullifiers
    spend_nullifier is_spent nullifiers_of verify_withdraw is_proof_format verify_halo2_ipa_proof
    encode_withdraw_inputs insert_outputs insert_leaf insert_path insert_level remainder pay
    text_beq get_latest_root pallet_blake pallet_funded pallet_started deposit build open_epoch
    init_subtrees saturating_add poseidon_hash be_bytes zero_h256 from_be_bytes zero_hash
    zero_hash_from
pallet_moved_dropped = (refl, refl)

-- The first epoch, closed after the withdrawal.
unfoldable pub pallet_closed : Storage × Balances
pallet_closed =
    state_or pallet_moved (call small root 3 Call.finalize_epoch pallet_moved.0 pallet_moved.1)

pub pallet_closed_lem :
    call small root 3 Call.finalize_epoch pallet_moved.0 pallet_moved.1 ≡ ok pallet_closed
unfolding pallet_closed call finalize_epoch pallet_moved withdraw is_known_root scan_roots
    check_and_spend_nullifiers spend_nullifier is_spent nullifiers_of verify_withdraw
    is_proof_format verify_halo2_ipa_proof encode_withdraw_inputs insert_outputs insert_leaf
    insert_path insert_level remainder pay text_beq get_latest_root pallet_blake pallet_funded
    pallet_started deposit build open_epoch init_subtrees saturating_add poseidon_hash be_bytes
    zero_h256 from_be_bytes zero_hash zero_hash_from
pallet_closed_lem = refl

pub pallet_funded_root :
    is_known_root small_config (get_latest_root pallet_funded.0) pallet_funded.0 ≡ true
unfolding is_known_root scan_roots insert_leaf insert_path insert_level remainder pay text_beq
    get_latest_root call pallet_funded pallet_started deposit build open_epoch init_subtrees
    saturating_add poseidon_hash be_bytes zero_h256 from_be_bytes zero_hash zero_hash_from
pallet_funded_root = refl
