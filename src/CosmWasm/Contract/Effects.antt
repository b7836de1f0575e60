-- ===== src/CosmWasm/Contract/Effects.antt =====
-- What the handlers' common steps have checked and written when they succeed.
use sl.Prelude.{
  ℕ, ◌<◌, ◌≡◌, sym, ap, ◌∙◌, true, false, some, List, [], ◌∷◌, ◌++◌, Text, arith, leb, length,
  insert, text_eq, nat_eq,
}
use sl.CosmWasm.Outcome.{
  ok, nullifier_already_spent, epoch_nullifier_overflow, >>=-eq-ok, ok-injective, refuse_if,
  refuse_if-eq-ok, load, load-eq-ok,
}
use sl.CosmWasm.State.{State}
use sl.CosmWasm.Nullifiers.{flag, spend_nullifier}

-- The fields that neither spending nor inserting touches.
pub record SameLedger (s s' : State) : Type 0 where
  pub config : s'.config ≡ s.config
  pub pool_balance : s'.pool_balance ≡ s.pool_balance
  pub current_epoch_id : s'.current_epoch_id ≡ s.current_epoch_id
  pub epochs : s'.epochs ≡ s.epochs
  pub commitment_exists : s'.commitment_exists ≡ s.commitment_exists
  pub remote_epoch_roots : s'.remote_epoch_roots ≡ s.remote_epoch_roots

pub SameLedger-trans : {a b c : State} → SameLedger a b → SameLedger b c → SameLedger a c
SameLedger-trans h k = record {
  config = k.config ∙ h.config;
  pool_balance = k.pool_balance ∙ h.pool_balance;
  current_epoch_id = k.current_epoch_id ∙ h.current_epoch_id;
  epochs = k.epochs ∙ h.epochs;
  commitment_exists = k.commitment_exists ∙ h.commitment_exists;
  remote_epoch_roots = k.remote_epoch_roots ∙ h.remote_epoch_roots;
}

pub record SameNullifiers (s s' : State) : Type 0 where
  pub nullifier_spent : s'.nullifier_spent ≡ s.nullifier_spent
  pub epoch_nullifiers : s'.epoch_nullifiers ≡ s.epoch_nullifiers

pub SameNullifiers-trans :
    {a b c : State} → SameNullifiers a b → SameNullifiers b c → SameNullifiers a c
SameNullifiers-trans h k = record {
  nullifier_spent = k.nullifier_spent ∙ h.nullifier_spent;
  epoch_nullifiers = k.epoch_nullifiers ∙ h.epoch_nullifiers;
}

-- The tree and the root history are untouched.
pub record SameTree (s s' : State) : Type 0 where
  pub next_leaf_index : s'.next_leaf_index ≡ s.next_leaf_index
  pub filled_subtrees : s'.filled_subtrees ≡ s.filled_subtrees
  pub roots : s'.roots ≡ s.roots
  pub current_root_index : s'.current_root_index ≡ s.current_root_index

-- One nullifier was fresh, there was room in the epoch, and it was marked and listed.
pub record SpentOne (epoch_id : ℕ) (n : Text) (s s' : State) : Type 0 where
  pub fresh : flag (s.nullifier_spent n) ≡ false
  pub listed : List Text
  pub found : s.epoch_nullifiers epoch_id ≡ some listed
  pub room : length listed < s.config.max_nullifiers_per_epoch
  pub written : s' ≡ record s {
    nullifier_spent = insert n true s.nullifier_spent;
    epoch_nullifiers = insert epoch_id (listed ++ n ∷ []) s.epoch_nullifiers;
  }

room_left : (max len : ℕ) → refuse_if (leb max len) epoch_nullifier_overflow ≡ ok tt → len < max
room_left max len h = ground arith

pub spend_nullifier-eq-ok :
    (epoch_id : ℕ) (n : Text) (s s' : State)
    → spend_nullifier epoch_id n s ≡ ok s'
    → SpentOne epoch_id n s s'
unfolding spend_nullifier
spend_nullifier-eq-ok epoch_id n s s' h =
    let (u, e1, h1) =
      >>=-eq-ok (refuse_if (flag (s.nullifier_spent n)) (nullifier_already_spent n)) _ h in
    let (nuls, e2, h2) = >>=-eq-ok (load (s.epoch_nullifiers epoch_id)) _ h1 in
    let (u', e3, h3) =
      >>=-eq-ok
        (refuse_if (leb s.config.max_nullifiers_per_epoch (length nuls)) epoch_nullifier_overflow) _
        h2 in
    record {
      fresh = refuse_if-eq-ok _ _ e1;
      listed = nuls;
      found = load-eq-ok (s.epoch_nullifiers epoch_id) e2;
      room = room_left s.config.max_nullifiers_per_epoch (length nuls) e3;
      written = sym (ok-injective h3);
    }

pub SpentOne-SameLedger : {e : ℕ} {n : Text} {s s' : State} → SpentOne e n s s' → SameLedger s s'
SpentOne-SameLedger h = record {
  config = ap (λ (t : State). t.config) h.written;
  pool_balance = ap (λ (t : State). t.pool_balance) h.written;
  current_epoch_id = ap (λ (t : State). t.current_epoch_id) h.written;
  epochs = ap (λ (t : State). t.epochs) h.written;
  commitment_exists = ap (λ (t : State). t.commitment_exists) h.written;
  remote_epoch_roots = ap (λ (t : State). t.remote_epoch_roots) h.written;
}

pub SpentOne-SameTree : {e : ℕ} {n : Text} {s s' : State} → SpentOne e n s s' → SameTree s s'
SpentOne-SameTree h = record {
  next_leaf_index = ap (λ (t : State). t.next_leaf_index) h.written;
  filled_subtrees = ap (λ (t : State). t.filled_subtrees) h.written;
  roots = ap (λ (t : State). t.roots) h.written;
  current_root_index = ap (λ (t : State). t.current_root_index) h.written;
}
