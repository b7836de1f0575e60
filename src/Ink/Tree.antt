-- ===== src/Ink/Tree.antt =====
-- The Merkle tree and the root history of ink/privacy-pool/lib.rs: `update_tree`, `push_root`,
-- `is_known_root`, and the shift by which a message bounds the number of leaves.
pub mod Append
pub mod History
use sl.Prelude.{
  ℕ, zero, suc, ◌+◌, ◌-◌, ◌/◌, ◌%◌, ◌^◌, Bool, true, false, ◌||◌, Option, none, some, List, [], ◌∷◌,
  ◌++◌, Text, leb, ltb, nat_beq, text_beq, text_eq, nat_eq, pair_eq, if◌then◌else◌, Map, insert,
}
use sl.Prelude.Words.{u32_mod}
use sl.Merkle.{unwrap_or}
use sl.Fallible.{Result, ok, err, panic, ◌>>=◌, ◌>>◌, refuse_if, word}
use sl.Ink.State.{PrivacyPool, Host, Outcome, Error, tree_full, duplicate_commitment}

abbrev pub tree_depth : ℕ
tree_depth = 32

abbrev pub root_history_size : ℕ
root_history_size = 100

-- `[0u8; 32]`, by the bytes left.
unfoldable pub zero_bytes : ℕ → Text
zero_bytes zero = []
zero_bytes (suc n) = 0 ∷ zero_bytes n

unfoldable pub zero_value : Text
unfolding zero_bytes
zero_value = zero_bytes 32

unfoldable pub is_some {ℓ} : {A : Type ℓ} → Option A → Bool
is_some none = false
is_some (some a) = true

-- `1u32 << bits`: a shift by the width or more panics under overflow checks, and is by the remainder
-- without them.
unfoldable pub shifted_one : Host → ℕ → Outcome ℕ
shifted_one host bits =
    if ltb bits 32
    then ok (2 ^ bits)
    else if host.overflow_checks
    then panic
    else ok (2 ^ (bits % 32))

-- "Poseidon"
abbrev pub hash_tag : Text
hash_tag = 80 ∷ 111 ∷ 115 ∷ 101 ∷ 105 ∷ 100 ∷ 111 ∷ 110 ∷ []

module _ (host : Host) where
  unfoldable pub hash_pair : Text → Text → Text
  hash_pair left right = host.keccak256 (hash_tag ++ (left ++ right))

  -- The body of the loop of `update_tree`: the hash of the next level. The index of a left child is
  -- even and below `2 ^ 32`, so that adding one to it does not overflow.
  unfoldable pub update_level : ℕ → ℕ → Text → Map (ℕ × ℕ) Text → Text
  update_level level index current_hash nodes =
      if nat_beq (index % 2) 0
      then hash_pair current_hash (unwrap_or zero_value (nodes (level, index + 1)))
      else hash_pair (unwrap_or zero_value (nodes (level, index - 1))) current_hash

  -- The loop from a level, for the levels left.
  unfoldable pub update_path : ℕ → ℕ → ℕ → Text → Map (ℕ × ℕ) Text → Text × Map (ℕ × ℕ) Text
  update_path zero level index current_hash nodes = (current_hash, nodes)
  update_path (suc left) level index current_hash nodes =
      let hash = update_level level index current_hash nodes in
      update_path left (suc level) (index / 2) hash (insert (suc level, index / 2) hash nodes)

  unfoldable pub update_tree : ℕ → Text → PrivacyPool → PrivacyPool
  update_tree leaf_index leaf_hash s =
      let made = update_path tree_depth 0 leaf_index leaf_hash s.nodes in
      record s { nodes = made.1; current_root = made.0 }

  -- What each message does to add a leaf: it stores its place and its node, updates the path, and
  -- advances the index.
  unfoldable pub store_leaf : Text → PrivacyPool → Outcome PrivacyPool
  store_leaf cm s = do
    let s' = update_tree s.next_leaf_index cm (record s {
      leaves = insert cm s.next_leaf_index s.leaves;
      nodes = insert (0, s.next_leaf_index) cm s.nodes;
    })
    next ← word host.overflow_checks u32_mod (s.next_leaf_index + 1)
    ok (record s' { next_leaf_index = next })

  -- The loop of `transfer` and `withdraw` over one output: a leaf that is there is an error.
  unfoldable pub add_output : Text → PrivacyPool → Outcome PrivacyPool
  add_output cm s = do refuse_if (is_some (s.leaves cm)) duplicate_commitment; store_leaf cm s

unfoldable pub push_root : PrivacyPool → PrivacyPool
push_root s = record s {
  root_history = insert s.root_history_cursor s.current_root s.root_history;
  root_history_cursor = (s.root_history_cursor + 1) % root_history_size;
}

abbrev pub holds : Option Text → Text → Bool
holds none root = false
holds (some stored) root = text_beq stored root

-- The loop of `is_known_root` from a slot, for the slots left.
unfoldable pub scan_history : ℕ → ℕ → Text → Map ℕ Text → Bool
scan_history zero i root history = false
scan_history (suc left) i root history =
    let rest = scan_history left (suc i) root history in
    if holds (history i) root then true else rest

unfoldable pub is_known_root : Text → PrivacyPool → Bool
is_known_root root s =
    text_beq root s.current_root || scan_history root_history_size 0 root s.root_history
