-- ===== src/Near/Pool/Method.antt =====
-- A call of a method of near/contracts/privacy-pool/src/lib.rs that changes the state, with what it pays.
use sl.Prelude.{ℕ, Option, some, List, [], ◌∷◌, Text}
use sl.Panic.{◌>>=◌}
use sl.Near.State.{PrivacyPool, Context, Transfer}
use sl.Near.Hash.{Host}
use sl.Near.Pool

pub data Method : Type 0 where
  deposit : (commitment : Text) → Method
  transfer : (proof merkle_root : Text) → (nullifiers output_commitments : List Text) → Method
  withdraw :
      (proof merkle_root : Text)
      → (nullifiers output_commitments : List Text) → (recipient : Text) → (exit_amount : ℕ)
      → Method
  set_authorized_relayer : Option Text → Method
  finalize_epoch : Method
  sync_epoch_root : (source_chain_id epoch_id : ℕ) → (nullifier_root : Text) → Method

module _ (host : Host) where
  unfoldable pub call : Context → Method → PrivacyPool → Option (List Transfer × PrivacyPool)
  call context (deposit c) s = do s' ← Pool.deposit host context c s; some ([], s')
  call context (transfer p r ns outs) s = do s' ← Pool.transfer host p r ns outs s; some ([], s')
  call context (withdraw p r ns outs to v) s = do
    (paid, s') ← Pool.withdraw host p r ns outs to v s
    some (paid ∷ [], s')
  call context (set_authorized_relayer r) s = do
    s' ← Pool.set_authorized_relayer context r s
    some ([], s')
  call context finalize_epoch s = do s' ← Pool.finalize_epoch host context s; some ([], s')
  call context (sync_epoch_root chain id root) s = do
    s' ← Pool.sync_epoch_root context chain id root s
    some ([], s')
