-- ===== src/Pallet/Reachable.antt =====
-- What holds in every state that the pool of pallets/privacy-pool reaches.
use sl.Prelude.{true, arith, ◌≤◌, ◌≡◌, true, not, ◌&&◌, Text, text_eq, nat_eq, text_beq, take}
use sl.Ring.{contains}
use sl.Distinct.{is_distinct}
use sl.Pallet.State.{Storage, Balances}
use sl.Pallet.Poseidon.{zero_h256}
use sl.Pallet.Tree.{is_known_root}
use sl.Pallet.Tree.Insert.{IsSane, roots_after, is_known_root-HasLog}
use sl.Pallet.Nullifiers.{is_spent}
use sl.Pallet.Call.{Runtime, History, Reachable}
use sl.Pallet.Field.{IsH256, roots_after-IsH256}
use sl.Pallet.Faithful.{Reachable-IsFaithful}

module _ (runtime : Runtime) (sane : IsSane runtime.config) where
  -- In a pool that calls have reached, in a runtime where powers and indices do not wrap, a root is
  -- known exactly if it is not zero and is the root of the full tree over one of the last
  -- `root_history_size` versions of the log of accepted leaves.
  pub known_root-Reachable :
      (h : History) (s : Storage) (b : Balances) (r : Text)
      → Reachable runtime h s b
      → is_known_root runtime.config r s ≡ (
          not (text_beq r zero_h256)
          && contains r
              (take runtime.config.root_history_size (roots_after runtime.config h.leaves)))
  known_root-Reachable h s b r reached =
      is_known_root-HasLog runtime.config h.leaves s r
        (Reachable-IsFaithful runtime sane reached).tree

  -- In a pool that calls have reached, in a runtime where powers and indices do not wrap, the nullifiers
  -- of accepted transfers and withdrawals are pairwise different, and exactly these are marked as
  -- spent.
  pub nullifiers-Reachable :
      (h : History) (s : Storage) (b : Balances)
      → Reachable runtime h s b
      → (is_distinct h.spent ≡ true) × ((n : Text) → is_spent s n ≡ contains n h.spent)
  nullifiers-Reachable h s b reached =
      let stands = Reachable-IsFaithful runtime sane reached in (stands.once, stands.marks)

  -- In a pool that calls have reached, in a runtime where powers and indices do not wrap and the tree has
  -- a level, whatever is accepted as a root is 32 bytes whose big-endian number is below the modulus of
  -- the hash.
  pub known_root-IsH256 :
      (h : History) (s : Storage) (b : Balances) (r : Text)
      → Reachable runtime h s b
      → 1 ≤ runtime.config.tree_depth
      → is_known_root runtime.config r s ≡ true
      → IsH256 r
  known_root-IsH256 h s b r reached deep known =
      let e = known_root-Reachable h s b r reached in
      roots_after-IsH256 runtime.config deep runtime.config.root_history_size h.leaves r
        (ground (arith, e, known))
