-- ===== src/CosmWasm/Tree.antt =====
-- The Merkle tree and the root history of cosmwasm/contracts/privacy-pool/src/contract.rs:
-- `zero_hash`, `insert_leaf` and `is_known_root`.
pub mod Root
pub mod History
pub mod Total
use sl.Prelude.{
  ℕ, zero, suc, ◌+◌, ◌/◌, ◌%◌, ◌^◌, Bool, true, false, not, List, [], ◌∷◌, Text, ltb, leb, nat_beq,
  text_beq, text_eq, nat_eq, if◌then◌else◌, Map, insert,
}
use sl.Prelude.Words.{u32_mod}
use sl.Ring.{scan}
use sl.CosmWasm.Outcome.{Outcome, ok, panic, tree_full, ◌>>=◌, ◌>>◌, refuse_if, load, checked}
use sl.CosmWasm.Poseidon.{Crates, poseidon_hash_hex}
use sl.CosmWasm.State.{State}

-- 64 zero digits, by the rounds left.
unfoldable pub zero_digits : ℕ → Text
zero_digits zero = []
zero_digits (suc n) = 48 ∷ zero_digits n

unfoldable pub zero_hash_text : Text
unfolding zero_digits
zero_hash_text = zero_digits 64

-- `2u64.pow(depth)`
abbrev pub pow2_u64 : ℕ → Outcome ℕ
pow2_u64 depth = if ltb depth 64 then ok (2 ^ depth) else panic

-- The slot that the next root takes; a remainder by zero panics.
unfoldable pub next_root_index : ℕ → ℕ → Outcome ℕ
next_root_index current size = do
  next ← checked u32_mod (current + 1)
  if nat_beq size 0 then panic else ok (next % size)

module _ (crates : Crates) where
  -- The loop of `zero_hash`, for the rounds left.
  unfoldable pub zero_hash_from : ℕ → Text → Outcome Text
  zero_hash_from zero z = ok z
  zero_hash_from (suc rounds) z = do z' ← poseidon_hash_hex crates z z; zero_hash_from rounds z'

  unfoldable pub zero_hash : ℕ → Outcome Text
  zero_hash level = zero_hash_from level zero_hash_text

  -- The body of the loop of `insert_leaf`: the hash of the next level, and the stored subtrees.
  unfoldable pub insert_level : ℕ → ℕ → Text → Map ℕ Text → Outcome (Text × Map ℕ Text)
  insert_level level current_index current_hash filled =
      if nat_beq (current_index % 2) 0
      then (do
        z ← zero_hash level
        h ← poseidon_hash_hex crates current_hash z
        ok (h, insert level current_hash filled))
      else (do
        sibling ← load (filled level)
        h ← poseidon_hash_hex crates sibling current_hash
        ok (h, filled))

  -- The loop of `insert_leaf` from a level, for the levels left.
  unfoldable pub insert_path : ℕ → ℕ → ℕ → Text → Map ℕ Text → Outcome (Text × Map ℕ Text)
  insert_path zero level current_index current_hash filled = ok (current_hash, filled)
  insert_path (suc left) level current_index current_hash filled = do
    (h, filled') ← insert_level level current_index current_hash filled
    insert_path left (suc level) (current_index / 2) h filled'

  -- The index stays below `2 ^ 63`, so that adding one to it does not overflow.
  unfoldable pub insert_leaf : Text → State → Outcome (ℕ × State)
  insert_leaf leaf_hex s = do
    max_leaves ← pow2_u64 s.config.tree_depth
    refuse_if (leb max_leaves s.next_leaf_index) tree_full
    (root, filled) ← insert_path s.config.tree_depth 0 s.next_leaf_index leaf_hex s.filled_subtrees
    new_idx ← next_root_index s.current_root_index s.config.root_history_size
    ok (
      s.next_leaf_index,
      record s {
        filled_subtrees = filled;
        roots = insert new_idx root s.roots;
        current_root_index = new_idx;
        next_leaf_index = s.next_leaf_index + 1;
      },
    )

unfoldable pub is_known_root : State → Text → Bool
is_known_root s root =
    if text_beq root zero_hash_text
    then false
    else scan s.config.root_history_size s.config.root_history_size s.current_root_index root
        s.roots
