-- ===== src/Ink/Tree/Append.antt =====
-- Storing a leaf extends the tree: the stored nodes are the rows over all leaves so far.
use sl.Prelude.{
  ℕ, zero, suc, ◌+◌, ◌/◌, ◌^◌, ◌<◌, ◌≤◌, ◌≡◌, refl, sym, ◌∙◌, true, List, [], ◌∷◌, ◌++◌, Text,
  arith, length, length-append, get_elem?, Map, insert, text_eq, nat_eq, pair_eq, text_beq,
  if◌then◌else◌,
}
use sl.Prelude.Words.{u32_mod}
use sl.Fallible.{ok, >>=-eq-ok, ok-injective, word, word-fits}
use sl.Sparse.{row, top}
use sl.Sparse.Update.{update, append-IsRows}
use sl.Ring.{contains}
use sl.Ink.State.{PrivacyPool, Host}
use sl.Ink.Tree.{
  tree_depth, zero_value, is_some, hash_pair, update_level, update_path, update_tree, store_leaf,
}

module _ (host : Host) where
  -- The loop is the update of a tree of stored nodes.
  update_path-update :
      (left level index : ℕ) (current : Text) (nodes : Map (ℕ × ℕ) Text)
      → update_path host left level index current nodes
        ≡ update (hash_pair host) zero_value left level index current nodes
  unfolding update_path update update_level
  update_path-update zero level index current nodes = refl
  update_path-update (suc left) level index current nodes =
      update_path-update left (suc level) (index / 2) (update_level host level index current nodes)
        (insert (suc level, index / 2) (update_level host level index current nodes) nodes)

  -- The root over a log of leaves, the oldest first.
  abbrev pub root_over : List Text → Text
  root_over log = top (hash_pair host) zero_value tree_depth log

  -- The tree over the log: every stored node, the root, the index, and the leaves that are there.
  pub record HasLeaves (log : List Text) (s : PrivacyPool) : Type 0 where
    pub counted : s.next_leaf_index ≡ length log
    pub rows :
        (l i : ℕ)
        → l ≤ tree_depth
        → s.nodes (l, i) ≡ get_elem? (row (hash_pair host) zero_value l log) i
    pub root : s.current_root ≡ root_over log
    pub listed : (c : Text) → is_some (s.leaves c) ≡ contains c log

  -- The state after a leaf is stored, with the next index.
  abbrev pub stored : Text → ℕ → PrivacyPool → PrivacyPool
  stored cm next s =
      record (update_tree host s.next_leaf_index cm (record s {
        leaves = insert cm s.next_leaf_index s.leaves;
        nodes = insert (0, s.next_leaf_index) cm s.nodes;
      })) { next_leaf_index = next }

  pub record Stores (cm : Text) (s s' : PrivacyPool) : Type 0 where
    pub next : ℕ
    pub counts : (s.next_leaf_index + 1 < u32_mod) → next ≡ s.next_leaf_index + 1
    pub written : s' ≡ stored cm next s

  pub store_leaf-eq-ok :
      (cm : Text) (s s' : PrivacyPool) → store_leaf host cm s ≡ ok s' → Stores cm s s'
  unfolding store_leaf
  store_leaf-eq-ok cm s s' h =
      let (next, e, h') =
        >>=-eq-ok (word host.overflow_checks u32_mod (s.next_leaf_index + 1)) _ h in
      record {
        next = next;
        counts = word-fits host.overflow_checks u32_mod (s.next_leaf_index + 1) e;
        written = sym (ok-injective h');
      }

  contains-append_one :
      (c x : Text) (log : List Text)
      → contains c (log ++ x ∷ []) ≡ (if text_beq x c then true else contains c log)
  contains-append_one c x [] = ground arith
  contains-append_one c x (y ∷ log) = ground (arith, contains-append_one c x log)

  -- The update of the path, from the log's end.
  grown :
      (cm : Text) (log : List Text) (s : PrivacyPool)
      → HasLeaves log s
      → length log < 2 ^ tree_depth
      → let made =
          update_path host tree_depth 0 s.next_leaf_index cm
            (insert (0, s.next_leaf_index) cm s.nodes) in
        ((l i : ℕ)
          → l ≤ tree_depth
          → made.1 (l, i) ≡ get_elem? (row (hash_pair host) zero_value l (log ++ cm ∷ [])) i)
        × (made.0 ≡ root_over (log ++ cm ∷ []))
  grown cm log s tree room =
      rw
        (
          tree.counted,
          update_path-update tree_depth 0 (length log) cm (insert (0, length log) cm s.nodes),
        )
        (append-IsRows (hash_pair host) zero_value tree_depth log cm s.nodes room tree.rows)

  listed_after :
      (cm : Text) (log : List Text) (s : PrivacyPool)
      → HasLeaves log s
      → (c : Text) → is_some (insert cm s.next_leaf_index s.leaves c) ≡ contains c (log ++ cm ∷ [])
  unfolding is_some
  listed_after cm log s tree c = ground (arith, tree.listed c, contains-append_one c cm log)

  pub Stores-HasLeaves :
      (cm : Text) (log : List Text) (s s' : PrivacyPool)
      → Stores cm s s'
      → HasLeaves log s
      → length log + 1 < u32_mod
      → HasLeaves (log ++ cm ∷ []) s'
  unfolding update_tree
  Stores-HasLeaves cm log s s' done tree room =
      let (rows, root) = grown cm log s tree (omega arith) in
      rw done.written (record {
        counted = omega (arith, done.counts, tree.counted, length-append log (cm ∷ []));
        rows = rows;
        root = root;
        listed = listed_after cm log s tree;
      })

  -- What storing a leaf leaves alone.
  pub record Kept (s s' : PrivacyPool) : Type 0 where
    pub nullifiers : s'.nullifiers ≡ s.nullifiers
    pub pending_commits : s'.pending_commits ≡ s.pending_commits
    pub pool_balance : s'.pool_balance ≡ s.pool_balance
    pub root_history : s'.root_history ≡ s.root_history
    pub root_history_cursor : s'.root_history_cursor ≡ s.root_history_cursor
    pub epochs : s'.epochs ≡ s.epochs
    pub current_epoch : s'.current_epoch ≡ s.current_epoch

  pub Stores-Kept : (cm : Text) (s s' : PrivacyPool) → Stores cm s s' → Kept s s'
  unfolding update_tree
  Stores-Kept cm s s' done = rw done.written (record {
    nullifiers = refl;
    pending_commits = refl;
    pool_balance = refl;
    root_history = refl;
    root_history_cursor = refl;
    epochs = refl;
    current_epoch = refl;
  })

  -- The tree is read from four fields.
  pub HasLeaves-same :
      (log : List Text) (s s' : PrivacyPool)
      → s'.next_leaf_index ≡ s.next_leaf_index
      → s'.nodes ≡ s.nodes
      → s'.current_root ≡ s.current_root
      → s'.leaves ≡ s.leaves
      → HasLeaves log s
      → HasLeaves log s'
  HasLeaves-same log s s' e0 e1 e2 e3 tree = record {
    counted = e0 ∙ tree.counted;
    rows = λ l i le. rw e1 (tree.rows l i le);
    root = e2 ∙ tree.root;
    listed = λ c. rw e3 (tree.listed c);
  }
