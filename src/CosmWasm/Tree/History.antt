-- ===== src/CosmWasm/Tree/History.antt =====
-- The tree state of the contract against the log of inserted leaves: a root is known while it is
-- among the roots of the last versions.
use sl.Prelude.{
  ℕ, ◌≡◌, ◌∙◌, not, ◌&&◌, some, List, ◌∷◌, Text, arith, length, take, text_beq, text_eq, nat_eq,
}
use sl.Merkle
use sl.Merkle.{empty_node, IsLog, IsLog-newest, IsLog-next, push-IsLog, start-IsLog, scan-log_roots}
use sl.Ring.{contains}
use sl.CosmWasm.Outcome.{ok}
use sl.CosmWasm.Poseidon.{Crates}
use sl.CosmWasm.State.{State}
use sl.CosmWasm.Tree.{zero_hash_text, insert_leaf, is_known_root}
use sl.CosmWasm.Tree.Root.{hash, insert_leaf-eq-ok}

module _ (crates : Crates) where
  -- The root of the tree over a log, and the roots of all its versions, newest first.
  abbrev pub log_root : ℕ → List Text → Text
  log_root depth log = Merkle.log_root (hash crates) zero_hash_text depth log

  abbrev pub log_roots : ℕ → List Text → List Text
  log_roots depth log = Merkle.log_roots (hash crates) zero_hash_text depth log

  abbrev pub IsPool : List Text → State → Type 0
  IsPool log s =
      IsLog (hash crates) zero_hash_text s.config.root_history_size s.config.tree_depth log
        s.next_leaf_index s.current_root_index s.filled_subtrees s.roots

  pub IsPool-newest :
      (log : List Text) (s : State)
      → IsPool log s
      → s.roots s.current_root_index ≡ some (log_root s.config.tree_depth log)
  IsPool-newest log s pool =
      IsLog-newest (hash crates) zero_hash_text s.config.root_history_size s.config.tree_depth log
        s.next_leaf_index s.current_root_index s.filled_subtrees s.roots pool

  -- Where the stored tree is that of a log, a successful insertion returns the length of the log as
  -- the position and leaves the tree of the log with the leaf added.
  pub insert_leaf-IsPool :
      (leaf : Text) (log : List Text) (s s' : State) (index : ℕ)
      → IsPool log s
      → insert_leaf crates leaf s ≡ ok (index, s')
      → IsPool (leaf ∷ log) s' × (index ≡ length log)
  insert_leaf-IsPool leaf log s s' index pool h =
      let made = insert_leaf-eq-ok crates leaf s s' index h in
      (
        rw made.written (
            push-IsLog (hash crates) zero_hash_text s.config.root_history_size s.config.tree_depth
              leaf log s.next_leaf_index s.current_root_index s.filled_subtrees s.roots pool
              made.room),
        made.index_is
            ∙ IsLog-next (hash crates) zero_hash_text s.config.root_history_size s.config.tree_depth
                log s.next_leaf_index s.current_root_index s.filled_subtrees s.roots pool,
      )

  -- A root is known exactly if it is not the zero text and is among the roots of the last
  -- `root_history_size` versions of the tree.
  pub is_known_root_lem :
      (log : List Text) (s : State) (root : Text)
      → IsPool log s
      → is_known_root s root
        ≡ not (text_beq root zero_hash_text)
          && contains root (take s.config.root_history_size (log_roots s.config.tree_depth log))
  unfolding is_known_root
  is_known_root_lem log s root pool =
      rw
        (scan-log_roots (hash crates) zero_hash_text s.config.root_history_size s.config.tree_depth
          log s.next_leaf_index s.current_root_index s.filled_subtrees s.roots root pool)
        (ground arith)
