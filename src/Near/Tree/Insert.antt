-- ===== src/Near/Tree/Insert.antt =====
-- What `insert_leaf` writes, and that it keeps the stored tree that of a log of leaves.
use sl.Prelude.{
  ℕ, zero, suc, ◌+◌, ◌/◌, ◌%◌, ◌^◌, ◌<◌, ◌≡◌, refl, sym, ◌∙◌, not, ◌&&◌, some, List, ◌∷◌, Text,
  arith, ltb, lt→ltb, nat_beq, nat_eq, text_eq, text_beq, Map, insert, Bool-cases, inl, inr, take,
  length,
}
use sl.Prelude.Words.{u32_mod}
use sl.Merkle.{
  empty_node, empty_node_inside, climb, climb_value, climb_filled, IsLog, log_root, log_roots,
  push-IsLog, IsLog-next, scan-log_roots,
}
use sl.Ring.{contains}
use sl.Panic.{>>=-eq-some, some-injective, assert, fits}
use sl.Near.State.{PrivacyPool}
use sl.Near.Hash.{Host, zero_hash_text, poseidon_hash_hex, zero_hash_from, zero_hash}
use sl.Near.Tree.{
  tree_depth, root_history_size, insert_level, insert_path, insert_leaf, is_known_root,
}

module _ (host : Host) where
  zero_hash_from_lem :
      (n : ℕ) (z : Text) → zero_hash_from host n z ≡ empty_node (poseidon_hash_hex host) z n
  unfolding zero_hash_from empty_node
  zero_hash_from_lem zero z = refl
  zero_hash_from_lem (suc n) z =
      zero_hash_from_lem n (poseidon_hash_hex host z z)
      ∙ empty_node_inside (poseidon_hash_hex host) z n

  insert_level_lem :
      (level idx : ℕ) (cur : Text) (filled : Map ℕ Text)
      → insert_level host level idx cur filled ≡ (
        climb_value (poseidon_hash_hex host) zero_hash_text level idx cur filled,
        climb_filled (poseidon_hash_hex host) zero_hash_text level idx cur filled,
      )
  unfolding insert_level climb_value climb_filled zero_hash
  insert_level_lem level idx cur filled = elim (Bool-cases (nat_beq (idx % 2) 0)) [
    | inl even ↦ rw (even, zero_hash_from_lem level zero_hash_text) refl
    | inr odd ↦ rw odd refl
  ]

  -- The loop is the climb of the incremental tree.
  insert_path_lem :
      (left level idx : ℕ) (cur : Text) (filled : Map ℕ Text)
      → insert_path host left level idx cur filled
        ≡ climb (poseidon_hash_hex host) zero_hash_text left level idx cur filled
  unfolding insert_path climb
  insert_path_lem zero level idx cur filled = refl
  insert_path_lem (suc left) level idx cur filled =
      rw (insert_level_lem level idx cur filled) (insert_path_lem left (suc level) (idx / 2) _ _)

  -- The climb of a new leaf, and the state after it.
  abbrev pub path_of : Text → PrivacyPool → Text × Map ℕ Text
  path_of leaf s =
      climb (poseidon_hash_hex host) zero_hash_text tree_depth 0 s.next_leaf_index leaf
        s.filled_subtrees

  abbrev pub placed : Text → PrivacyPool → PrivacyPool
  placed leaf s = record s {
    filled_subtrees = (path_of leaf s).1;
    roots = insert ((s.current_root_index + 1) % root_history_size) (path_of leaf s).0 s.roots;
    current_root_index = (s.current_root_index + 1) % root_history_size;
    next_leaf_index = s.next_leaf_index + 1;
  }

  pub record Inserted (leaf : Text) (s : PrivacyPool) (out : ℕ × PrivacyPool) : Type 0 where
    pub room : s.next_leaf_index < 2 ^ tree_depth
    pub written : out ≡ (s.next_leaf_index, placed leaf s)

  pub insert_leaf-eq-some :
      (leaf : Text) (s : PrivacyPool) (out : ℕ × PrivacyPool)
      → insert_leaf host leaf s ≡ some out
      → Inserted leaf s out
  unfolding insert_leaf
  insert_leaf-eq-some leaf s out h =
      let (u, e1, h1) = >>=-eq-some (assert (ltb s.next_leaf_index (2 ^ tree_depth))) _ h in
      let (next, e2, h2) = >>=-eq-some (fits u32_mod (s.current_root_index + 1)) _ h1 in
      let e : s.current_root_index + 1 ≡ next = ground (arith, e2) in
      record {
        room = ground (arith, e1);
        written =
            sym (some-injective h2)
            ∙ (rw (insert_path_lem tree_depth 0 s.next_leaf_index leaf s.filled_subtrees, e) refl);
      }

  pub insert_leaf-returns :
      (leaf : Text) (s : PrivacyPool)
      → s.next_leaf_index < 2 ^ tree_depth
      → s.current_root_index < root_history_size
      → insert_leaf host leaf s ≡ some (s.next_leaf_index, placed leaf s)
  unfolding insert_leaf
  insert_leaf-returns leaf s room small =
      let next : s.current_root_index + 1 < u32_mod = omega arith in
      rw
        (
          lt→ltb _ _ room,
          lt→ltb _ _ next,
          insert_path_lem tree_depth 0 s.next_leaf_index leaf s.filled_subtrees,
        )
        refl

  -- The stored tree and roots are those of a log of leaves.
  abbrev pub HasLog : List Text → PrivacyPool → Type 0
  HasLog log s =
      IsLog (poseidon_hash_hex host) zero_hash_text root_history_size tree_depth log
        s.next_leaf_index s.current_root_index s.filled_subtrees s.roots

  abbrev pub root_after : List Text → Text
  root_after log = log_root (poseidon_hash_hex host) zero_hash_text tree_depth log

  abbrev pub roots_after : List Text → List Text
  roots_after log = log_roots (poseidon_hash_hex host) zero_hash_text tree_depth log

  pub placed-HasLog :
      (leaf : Text) (log : List Text) (s : PrivacyPool)
      → HasLog log s
      → s.next_leaf_index < 2 ^ tree_depth
      → HasLog (leaf ∷ log) (placed leaf s)
  placed-HasLog leaf log s has room =
      push-IsLog (poseidon_hash_hex host) zero_hash_text root_history_size tree_depth leaf log
        s.next_leaf_index s.current_root_index s.filled_subtrees s.roots has room

  -- Over a log of fewer than 2^32 leaves, an insertion returns the length of the log and leaves the
  -- tree of the log with the leaf added.
  pub insert_leaf-HasLog :
      (leaf : Text) (log : List Text) (s : PrivacyPool)
      → HasLog log s
      → length log < 2 ^ tree_depth
      → (s' : PrivacyPool) × (insert_leaf host leaf s ≡ some (length log, s'))
        × HasLog (leaf ∷ log) s'
  insert_leaf-HasLog leaf log s has room =
      let count =
        IsLog-next (poseidon_hash_hex host) zero_hash_text root_history_size tree_depth log
          s.next_leaf_index s.current_root_index s.filled_subtrees s.roots has in
      let room' : s.next_leaf_index < 2 ^ tree_depth = rw count room in
      (
        placed leaf s,
        insert_leaf-returns leaf s room' has.ring.in_range ∙ (rw count refl),
        placed-HasLog leaf log s has room',
      )

  -- A root is known exactly if it is not the zero text and is among the roots of the last 100
  -- versions of the tree.
  pub is_known_root-HasLog :
      (log : List Text) (s : PrivacyPool) (root : Text)
      → HasLog log s
      → is_known_root s root
        ≡ not (text_beq root zero_hash_text)
          && contains root (take root_history_size (roots_after log))
  unfolding is_known_root
  is_known_root-HasLog log s root has =
      rw
        (scan-log_roots (poseidon_hash_hex host) zero_hash_text root_history_size tree_depth log
          s.next_leaf_index s.current_root_index s.filled_subtrees s.roots root has)
        (ground arith)
