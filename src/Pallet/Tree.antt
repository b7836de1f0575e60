-- ===== src/Pallet/Tree.antt =====
-- `insert_leaf`, `is_known_root` and `get_latest_root` of pallets/privacy-pool/src/lib.rs. The runtime is
-- built without overflow checks, so that additions and powers wrap.
pub mod Insert
use sl.Prelude.{
  ℕ, zero, suc, ◌+◌, ◌-◌, ◌/◌, ◌%◌, ◌^◌, Bool, true, false, Option, some, Text, leb, nat_beq,
  text_beq, text_eq, nat_eq, if◌then◌else◌, Map, insert,
}
use sl.Prelude.Words.{u32_mod, u64_mod}
use sl.Merkle.{unwrap_or}
use sl.Fallible.{Result, ok, panic, ◌>>=◌, ◌>>◌, refuse_if}
use sl.Pallet.State.{Config, Storage, Dispatch, Error, tree_full}
use sl.Pallet.Poseidon.{poseidon_hash, zero_h256, zero_hash}

-- The body of the loop: the hash of the next level, and the stored subtrees.
unfoldable pub insert_level : ℕ → ℕ → Text → Map ℕ Text → Text × Map ℕ Text
insert_level level current_index current_hash filled =
    if nat_beq (current_index % 2) 0
    then (poseidon_hash current_hash (zero_hash level), insert level current_hash filled)
    else (poseidon_hash (unwrap_or zero_h256 (filled level)) current_hash, filled)

-- The loop from a level, for the levels left.
unfoldable pub insert_path : ℕ → ℕ → ℕ → Text → Map ℕ Text → Text × Map ℕ Text
insert_path zero level current_index current_hash filled = (current_hash, filled)
insert_path (suc left) level current_index current_hash filled =
    let step = insert_level level current_index current_hash filled in
    insert_path left (suc level) (current_index / 2) step.0 step.1

-- A remainder by zero panics.
unfoldable pub remainder : ℕ → ℕ → Dispatch ℕ
remainder v size = if nat_beq size 0 then panic else ok (v % size)

unfoldable pub insert_leaf : Config → Text → Storage → Dispatch (ℕ × Storage)
insert_leaf config leaf s = do
  refuse_if (leb (2 ^ config.tree_depth % u64_mod) s.next_leaf_index) tree_full
  let path = insert_path config.tree_depth 0 s.next_leaf_index leaf s.filled_subtrees
  new_root_index ← remainder ((s.current_root_index + 1) % u32_mod) config.root_history_size
  ok (
    s.next_leaf_index,
    record s {
      filled_subtrees = path.1;
      roots = insert new_root_index path.0 s.roots;
      current_root_index = new_root_index;
      next_leaf_index = (s.next_leaf_index + 1) % u64_mod;
    },
  )

-- The loop of `is_known_root` from a slot, for the rounds left.
unfoldable pub scan_roots : ℕ → ℕ → ℕ → Text → Map ℕ Text → Bool
scan_roots zero size idx root roots = false
scan_roots (suc rounds) size idx root roots =
    let rest = scan_roots rounds size (if nat_beq idx 0 then size - 1 else idx - 1) root roots in
    if text_beq (unwrap_or zero_h256 (roots idx)) root then true else rest

unfoldable pub is_known_root : Config → Text → Storage → Bool
is_known_root config root s =
    if text_beq root zero_h256
    then false
    else scan_roots config.root_history_size config.root_history_size s.current_root_index root
        s.roots

unfoldable pub get_latest_root : Storage → Text
get_latest_root s = unwrap_or zero_h256 (s.roots s.current_root_index)
