-- ===== src/Pallet/Timeline.antt =====
-- The epochs of a pool of pallets/privacy-pool/src/lib.rs.
pub mod Calls
use sl.Prelude.{
  ℕ, zero, suc, ◌+◌, ◌%◌, ◌<◌, ◌≤◌, ◌≡◌, refl, sym, ap, ◌∙◌, subst, Bool, true, false, Option, none,
  some, List, [], ◌∷◌, ◌++◌, Text, arith, nat_eq, nat_beq, length, insert, inl, inr, Bool-cases,
  Map,
}
use sl.Prelude.Words.{u32_mod, u64_mod}
use mathlib.Core.List.{append_assoc, append-nil}
use sl.Merkle.{unwrap_or}
use sl.Pallet.State.{Config, Storage, EpochInfo}
use sl.Pallet.Nullifiers.{compute_nullifier_root, nullifiers_of}
use sl.Pallet.Pool
use sl.Pallet.Pool.{open_epoch}

-- What the epochs are read from.
pub record Epochs : Type 0 where
  pub current : ℕ
  pub epochs : Map ℕ EpochInfo
  pub lists : Map ℕ (List Text)

abbrev pub epochs_of : Storage → Epochs
epochs_of s = record { current = s.current_epoch_id; epochs = s.epochs; lists = s.epoch_nullifiers }

abbrev pub list_of : ℕ → Epochs → List Text
list_of i v = unwrap_or [] (v.lists i)

-- The nullifiers of the first epochs, one epoch after another.
abbrev pub listed : ℕ → Epochs → List Text
listed zero v = []
listed (suc n) v = listed n v ++ list_of n v

-- A closed epoch, with the root and the number of its nullifiers.
pub record IsSealed (v : Epochs) (i : ℕ) : Type 0 where
  pub epoch : EpochInfo
  pub stored : v.epochs i ≡ some epoch
  pub finalized : epoch.finalized ≡ true
  pub rooted : epoch.nullifier_root ≡ compute_nullifier_root (list_of i v)
  pub counted : epoch.nullifier_count ≡ length (list_of i v) % u32_mod

-- The epochs before the current one are closed, the current one is open, and none is stored after it; the
-- lists of all epochs make up the spent nullifiers.
pub record IsTimeline (spent : List Text) (v : Epochs) : Type 0 where
  pub opened : (block : ℕ) × (v.epochs v.current ≡ some (open_epoch block))
  pub sealed : (i : ℕ) → i < v.current → IsSealed v i
  pub later : (i : ℕ) → v.current < i → (v.epochs i ≡ none) × (list_of i v ≡ [])
  pub all : listed (suc v.current) v ≡ spent

pub build-IsTimeline : (config : Config) → IsTimeline [] (epochs_of (Pool.build config))
unfolding Pool.build open_epoch
build-IsTimeline config = record {
  opened = (0, refl);
  sealed = λ i lt. absurd (omega (arith, lt));
  later = λ i lt. let ne : nat_beq 0 i ≡ false = ground arith in (rw ne refl, refl);
  all = refl;
}

-- A nullifier that is listed in the current epoch.
abbrev pub push : Text → Epochs → Epochs
push n v = record v { lists = insert v.current (list_of v.current v ++ n ∷ []) v.lists }

list_of-push :
    (n : Text) (v : Epochs) (i : ℕ)
    → nat_beq v.current i ≡ false
    → list_of i (push n v) ≡ list_of i v
list_of-push n v i ne = rw ne refl

listed-push : (n : Text) (v : Epochs) (k : ℕ) → k ≤ v.current → listed k (push n v) ≡ listed k v
listed-push n v zero le = refl
listed-push n v (suc k) le =
    let ne : nat_beq v.current k ≡ false = ground arith in
    rw (ne, listed-push n v k (omega arith)) refl

pub push-IsTimeline :
    (n : Text) (spent : List Text) (v : Epochs)
    → IsTimeline spent v
    → IsTimeline (spent ++ n ∷ []) (push n v)
push-IsTimeline n spent v line = record {
  opened = line.opened;
  sealed = λ i lt.
      let it = line.sealed i lt in
      let ne : nat_beq v.current i ≡ false = ground arith in
      record {
        epoch = it.epoch;
        stored = it.stored;
        finalized = it.finalized;
        rooted = rw ne it.rooted;
        counted = rw ne it.counted;
      };
  later = λ i lt.
      let ne : nat_beq v.current i ≡ false = ground arith in
      ((line.later i lt).0, rw ne (line.later i lt).1);
  all =
      let own : nat_beq v.current v.current ≡ true = ground arith in
      rw (own, listed-push n v v.current (omega arith))
        (sym (append_assoc (listed v.current v) (list_of v.current v) (n ∷ []))
          ∙ ap (λ (xs : List Text). xs ++ n ∷ []) line.all);
}

-- The current epoch closed, and the next one opened.
abbrev pub sealed_epoch : (block : ℕ) → List Text → EpochInfo → EpochInfo
sealed_epoch block nullifiers epoch = record epoch {
  nullifier_root = compute_nullifier_root nullifiers;
  nullifier_count = length nullifiers % u32_mod;
  end_block = some block;
  finalized = true;
}

abbrev pub close : (block : ℕ) → EpochInfo → Epochs → Epochs
close block epoch v = record v {
  current = v.current + 1;
  epochs =
      insert (v.current + 1) (open_epoch block)
        (insert v.current (sealed_epoch block (list_of v.current v) epoch) v.epochs);
}

listed-close :
    (block : ℕ) (epoch : EpochInfo) (v : Epochs) (k : ℕ)
    → listed k (close block epoch v) ≡ listed k v
listed-close block epoch v zero = refl
listed-close block epoch v (suc k) = rw (listed-close block epoch v k) refl

close-IsSealed :
    (block : ℕ) (epoch : EpochInfo) (spent : List Text) (v : Epochs) (i : ℕ)
    → IsTimeline spent v
    → i < v.current + 1
    → IsSealed (close block epoch v) i
close-IsSealed block epoch spent v i line lt =
    let next : nat_beq (v.current + 1) i ≡ false = ground arith in
    elim (Bool-cases (nat_beq v.current i)) [
      | inl here ↦
          let same : v.current ≡ i = ground arith in
          record {
            epoch = sealed_epoch block (list_of v.current v) epoch;
            stored = rw (next, here) refl;
            finalized = refl;
            rooted = rw same refl;
            counted = rw same refl;
          }
      | inr before ↦
          let it = line.sealed i (ground arith) in
          record {
            epoch = it.epoch;
            stored = rw (next, before) it.stored;
            finalized = it.finalized;
            rooted = it.rooted;
            counted = it.counted;
          }
    ]

pub close-IsTimeline :
    (block : ℕ) (epoch : EpochInfo) (spent : List Text) (v : Epochs)
    → IsTimeline spent v
    → IsTimeline spent (close block epoch v)
close-IsTimeline block epoch spent v line = record {
  opened =
      let own : nat_beq (v.current + 1) (v.current + 1) ≡ true = ground arith in
      (block, rw own refl);
  sealed = λ i lt. close-IsSealed block epoch spent v i line lt;
  later = λ i lt.
      let next : nat_beq (v.current + 1) i ≡ false = ground arith in
      let here : nat_beq v.current i ≡ false = ground arith in
      let it = line.later i (omega arith) in (rw (next, here) it.0, it.1);
  all =
      let next : v.current + 1 ≡ suc v.current = omega arith in
      let after_it : list_of (suc v.current) v ≡ [] =
        (line.later (suc v.current) (omega arith)).1 in
      ap (λ (k : ℕ). listed (suc k) (close block epoch v)) next
      ∙ listed-close block epoch v (suc (suc v.current))
      ∙ ap (λ (xs : List Text). listed (suc v.current) v ++ xs) after_it
      ∙ append-nil (listed (suc v.current) v)
      ∙ line.all;
}
