-- ===== src/Near/Nullifiers.antt =====
-- `check_and_spend_nullifiers` of near/contracts/privacy-pool/src/lib.rs.
pub mod Spend
use sl.Prelude.{
  ℕ, ◌+◌, Bool, true, false, not, Option, none, some, List, [], ◌∷◌, ◌++◌, Text, ltb, length, Map,
  insert, text_eq, nat_eq,
}
use sl.Merkle.{unwrap_or}
use sl.Panic.{◌>>=◌, ◌>>◌, assert}
use sl.Near.State.{PrivacyPool}

abbrev pub max_nullifiers_per_epoch : ℕ
max_nullifiers_per_epoch = 10000

-- `contains_key`
abbrev pub is_some {ℓ} : {A : Type ℓ} → Option A → Bool
is_some none = false
is_some (some a) = true

-- The loop over the nullifiers: the marks and the epoch's list, which only the caller stores.
unfoldable pub spend_all :
    List Text → Map Text Bool → List Text → Option (Map Text Bool × List Text)
spend_all [] spent epoch_nuls = some (spent, epoch_nuls)
spend_all (nullifier ∷ rest) spent epoch_nuls = do
  assert (not (is_some (spent nullifier)))
  assert (ltb (length epoch_nuls) max_nullifiers_per_epoch)
  spend_all rest (insert nullifier true spent) (epoch_nuls ++ nullifier ∷ [])

unfoldable pub check_and_spend_nullifiers : List Text → PrivacyPool → Option PrivacyPool
check_and_spend_nullifiers nullifiers s = do
  (spent, epoch_nuls) ←
      spend_all nullifiers s.nullifier_spent (unwrap_or [] (s.epoch_nullifiers s.current_epoch_id))
  some (record s {
    nullifier_spent = spent;
    epoch_nullifiers = insert s.current_epoch_id epoch_nuls s.epoch_nullifiers;
  })
