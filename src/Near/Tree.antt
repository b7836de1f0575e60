-- ===== src/Near/Tree.antt =====
-- `insert_leaf` and `is_known_root` of near/contracts/privacy-pool/src/lib.rs.
pub mod Insert
use sl.Prelude.{
  ℕ, zero, suc, ◌+◌, ◌/◌, ◌%◌, ◌^◌, Bool, true, false, Option, some, Text, ltb, nat_beq, text_beq,
  text_eq, nat_eq, if◌then◌else◌, Map, insert,
}
use sl.Prelude.Words.{u32_mod}
use sl.Merkle.{unwrap_or}
use sl.Ring.{scan}
use sl.Panic.{◌>>=◌, ◌>>◌, assert, fits}
use sl.Near.State.{PrivacyPool}
use sl.Near.Hash.{Host, zero_hash_text, poseidon_hash_hex, zero_hash}

abbrev pub tree_depth : ℕ
tree_depth = 32

abbrev pub root_history_size : ℕ
root_history_size = 100

module _ (host : Host) where
  -- The body of the loop: the hash of the next level, and the stored subtrees.
  unfoldable pub insert_level : ℕ → ℕ → Text → Map ℕ Text → Text × Map ℕ Text
  insert_level level current_index current_hash filled =
      if nat_beq (current_index % 2) 0
      then (
        poseidon_hash_hex host current_hash (zero_hash host level),
        insert level current_hash filled,
      )
      else (poseidon_hash_hex host (unwrap_or zero_hash_text (filled level)) current_hash, filled)

  -- The loop from a level, for the levels left.
  unfoldable pub insert_path : ℕ → ℕ → ℕ → Text → Map ℕ Text → Text × Map ℕ Text
  insert_path zero level current_index current_hash filled = (current_hash, filled)
  insert_path (suc left) level current_index current_hash filled =
      let step = insert_level level current_index current_hash filled in
      insert_path left (suc level) (current_index / 2) step.0 step.1

  -- The index stays below `2 ^ 32`, so that adding one to it does not overflow.
  unfoldable pub insert_leaf : Text → PrivacyPool → Option (ℕ × PrivacyPool)
  insert_leaf leaf_hex s = do
    assert (ltb s.next_leaf_index (2 ^ tree_depth))
    let path = insert_path tree_depth 0 s.next_leaf_index leaf_hex s.filled_subtrees
    next ← fits u32_mod (s.current_root_index + 1)
    some (
      s.next_leaf_index,
      record s {
        filled_subtrees = path.1;
        roots = insert (next % root_history_size) path.0 s.roots;
        current_root_index = next % root_history_size;
        next_leaf_index = s.next_leaf_index + 1;
      },
    )

unfoldable pub is_known_root : PrivacyPool → Text → Bool
is_known_root s root =
    if text_beq root zero_hash_text
    then false
    else scan root_history_size root_history_size s.current_root_index root s.roots
