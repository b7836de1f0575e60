-- ===== src/Pallet/Call.antt =====
-- A call of pallets/privacy-pool/src/lib.rs, and the states that calls reach.
use sl.Prelude.{ℕ, ◌≤◌, ◌≡◌, ◌≢◌, List, [], ◌∷◌, ◌++◌, Text}
use sl.Fallible.{ok, ◌>>=◌}
use sl.Pallet.State.{Config, Storage, Origin, signed, Balances, Currency, Dispatch}
use sl.Pallet.Pool

abbrev pub Pair : Type 0
Pair = Text × Text

pub data Call : Type 0 where
  deposit : (commitment : Text) → (amount : ℕ) → Call
  transfer : (proof merkle_root : Text) → (nullifiers output_commitments : Pair) → Call
  withdraw :
      (proof merkle_root : Text)
      → (nullifiers output_commitments : Pair) → (recipient : Text) → (exit_value : ℕ) → Call
  finalize_epoch : Call
  sync_epoch_root : (source_para_id epoch_id : ℕ) → (nullifier_root : Text) → Call

-- What the pallet takes from the runtime: its constants, its currency and the host's hash.
pub record Runtime : Type 0 where
  pub config : Config
  pub currency : Currency
  pub blake2_256 : Text → Text

abbrev pub with_balances : Balances → Dispatch Storage → Dispatch (Storage × Balances)
with_balances b o = o >>= λ s. ok (s, b)

module _ (runtime : Runtime) where
  unfoldable pub call :
      Origin → (block : ℕ) → Call → Storage → Balances → Dispatch (Storage × Balances)
  call origin block (deposit c v) s b = Pool.deposit runtime.config runtime.currency origin c v s b
  call origin block (transfer p r ns outs) s b =
      with_balances b (Pool.transfer runtime.config runtime.blake2_256 origin p r ns outs s)
  call origin block (withdraw p r ns outs to v) s b =
      Pool.withdraw runtime.config runtime.blake2_256 runtime.currency origin p r ns outs to v s b
  call origin block finalize_epoch s b = with_balances b (Pool.finalize_epoch origin block s)
  call origin block (sync_epoch_root para id r) s b =
      with_balances b (Pool.sync_epoch_root origin para id r s)

-- What a pool has accepted: its leaves, newest first, and its nullifiers, oldest first.
pub record History : Type 0 where
  pub leaves : List Text
  pub spent : List Text

abbrev pub no_history : History
no_history = record { leaves = []; spent = [] }

abbrev pub after : Call → History → History
after (deposit c v) h = record h { leaves = c ∷ h.leaves }
after (transfer p r ns outs) h = record h {
  leaves = outs.1 ∷ outs.0 ∷ h.leaves;
  spent = (h.spent ++ ns.0 ∷ []) ++ ns.1 ∷ [];
}
after (withdraw p r ns outs to v) h = record h {
  leaves = outs.1 ∷ outs.0 ∷ h.leaves;
  spent = (h.spent ++ ns.0 ∷ []) ++ ns.1 ∷ [];
}
after finalize_epoch h = h
after (sync_epoch_root para id r) h = h

-- The states that a pool reaches from its genesis: by calls that succeed, none of which the account of
-- the pool signs, since it has no key; and by what happens elsewhere in the runtime, which takes nothing
-- from that account.
pub data Reachable (runtime : Runtime) : History → Storage → Balances → Type 0 where
  genesis : (b : Balances) → Reachable runtime no_history (Pool.build runtime.config) b
  called :
      {h : History} {s : Storage} {b : Balances}
      → Reachable runtime h s b
      → (origin : Origin) → (block : ℕ) → (c : Call) → (s' : Storage) → (b' : Balances)
      → origin ≢ signed runtime.config.pool_account
      → call runtime origin block c s b ≡ ok (s', b')
      → Reachable runtime (after c h) s' b'
  elsewhere :
      {h : History} {s : Storage} {b : Balances}
      → Reachable runtime h s b
      → (b' : Balances) → b runtime.config.pool_account ≤ b' runtime.config.pool_account
      → Reachable runtime h s b'
