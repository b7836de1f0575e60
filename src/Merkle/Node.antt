-- ===== src/Merkle/Node.antt =====
-- The full binary tree over an unbounded row of leaves, and the hash of an empty subtree.
use sl.Prelude.{ℕ, zero, suc, ◌+◌, ◌*◌, ◌/◌, ◌<◌, ◌≡◌, refl, arith}

module _ {ℓ} {A : Type ℓ} (hash : A → A → A) where
  -- The value of node `i` at a level, level 0 being the leaves.
  unfoldable pub node : (ℕ → A) → ℕ → ℕ → A
  node f zero i = f i
  node f (suc l) i = hash (node f l (2 * i)) (node f l (2 * i + 1))

  -- The value of a subtree without leaves.
  unfoldable pub empty_node : A → ℕ → A
  empty_node z zero = z
  empty_node z (suc l) = hash (empty_node z l) (empty_node z l)

  -- Trees that agree on the first leaves agree on the nodes above them.
  pub node_same_step :
      (f g : ℕ → A) (l n : ℕ)
      → ((i : ℕ) → i < n → node f l i ≡ node g l i)
      → (i : ℕ) → i < n / 2
      → node f (suc l) i ≡ node g (suc l) i
  unfolding node
  node_same_step f g l n h i lt = rw (h (2 * i) (omega arith), h (2 * i + 1) (omega arith))

  pub node_empty_step :
      (f : ℕ → A) (z : A) (l n : ℕ)
      → ((i : ℕ) → n < i → node f l i ≡ empty_node z l)
      → (i : ℕ) → n / 2 < i
      → node f (suc l) i ≡ empty_node z (suc l)
  unfolding node empty_node
  node_empty_step f z l n h i lt = rw (h (2 * i) (omega arith), h (2 * i + 1) (omega arith))

  pub node_all_empty :
      (f : ℕ → A) (z : A) (l : ℕ) → ((i : ℕ) → f i ≡ z) → (i : ℕ) → node f l i ≡ empty_node z l
  unfolding node empty_node
  node_all_empty f z zero h i = h i
  node_all_empty f z (suc l) h i =
      rw (node_all_empty f z l h (2 * i), node_all_empty f z l h (2 * i + 1))

  -- Starting one level up is the same as taking one more step.
  pub empty_node_inside : (z : A) (l : ℕ) → empty_node (hash z z) l ≡ empty_node z (suc l)
  unfolding empty_node
  empty_node_inside z zero = refl
  empty_node_inside z (suc l) = rw (empty_node_inside z l)

  -- A node is the hash of its children; `j` and `k` are any way of writing their places.
  pub hash-node :
      (f : ℕ → A) (l i j k : ℕ)
      → j ≡ 2 * i
      → k ≡ 2 * i + 1
      → hash (node f l j) (node f l k) ≡ node f (suc l) i
  unfolding node
  hash-node f l i j k e e' = rw (e, e')
