-- ===== src/Pallet/Authority.antt =====
-- Who may make each call of pallets/privacy-pool/src/lib.rs.
use sl.Prelude.{ℕ, ◌≡◌, refl, Bool, true, false}
use sl.Fallible.{err}
use sl.Pallet.State.{Storage, Origin, root, none_origin, signed, Balances, bad_origin}
use sl.Pallet.Pool.{deposit, transfer, withdraw, finalize_epoch, sync_epoch_root}
use sl.Pallet.Call.{Call, Runtime, call}

-- Deposits, transfers and withdrawals are made by an account, epochs are closed and synced by the root.
abbrev pub is_authorized : Call → Origin → Bool
is_authorized (Call.deposit c v) (signed who) = true
is_authorized (Call.transfer p r ns outs) (signed who) = true
is_authorized (Call.withdraw p r ns outs to v) (signed who) = true
is_authorized Call.finalize_epoch root = true
is_authorized (Call.sync_epoch_root para id r) root = true
is_authorized c origin = false

module _ (runtime : Runtime) where
  -- A call from an origin that may not make it is refused with `bad_origin`, whatever its arguments.
  pub call-bad_origin :
      (origin : Origin) (block : ℕ) (c : Call) (s : Storage) (b : Balances)
      → is_authorized c origin ≡ false
      → call runtime origin block c s b ≡ err bad_origin
  unfolding call deposit transfer withdraw finalize_epoch sync_epoch_root
  call-bad_origin (signed who) block (Call.deposit c v) s b h = cc
  call-bad_origin (signed who) block (Call.transfer p r ns outs) s b h = cc
  call-bad_origin (signed who) block (Call.withdraw p r ns outs to v) s b h = cc
  call-bad_origin (signed who) block Call.finalize_epoch s b h = refl
  call-bad_origin (signed who) block (Call.sync_epoch_root para id r) s b h = refl
  call-bad_origin root block (Call.deposit c v) s b h = refl
  call-bad_origin root block (Call.transfer p r ns outs) s b h = refl
  call-bad_origin root block (Call.withdraw p r ns outs to v) s b h = refl
  call-bad_origin root block Call.finalize_epoch s b h = cc
  call-bad_origin root block (Call.sync_epoch_root para id r) s b h = cc
  call-bad_origin none_origin block (Call.deposit c v) s b h = refl
  call-bad_origin none_origin block (Call.transfer p r ns outs) s b h = refl
  call-bad_origin none_origin block (Call.withdraw p r ns outs to v) s b h = refl
  call-bad_origin none_origin block Call.finalize_epoch s b h = refl
  call-bad_origin none_origin block (Call.sync_epoch_root para id r) s b h = refl
