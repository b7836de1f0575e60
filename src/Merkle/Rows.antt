-- ===== src/Merkle/Rows.antt =====
-- The tree over a list of leaves: what one insertion does to it, and the bookkeeping of a contract.
use sl.Prelude.{
  ℕ, zero, suc, ◌+◌, ◌^◌, ◌<◌, ◌≤◌, ◌≡◌, refl, sym, ◌∙◌, List, [], ◌∷◌, ◌++◌, arith, length, get_or,
  length-append, get_or-append_lt, get_or-append_self, get_or_beyond, Map,
}
use sl.Merkle.Node.{node, empty_node, node_all_empty}
use sl.Merkle.Climb.{IsAt, IsFilled, climb, climb-IsFilled, climb-root}

module _ {ℓ} {A : Type ℓ} (hash : A → A → A) (z : A) where
  -- The leaves of the tree: those inserted, and the default to their right.
  abbrev pub leaf_at : List A → ℕ → A
  leaf_at leaves i = get_or leaves i z

  -- The root of the full tree of a depth over the inserted leaves.
  abbrev pub root_of : ℕ → List A → A
  root_of depth leaves = node hash (leaf_at leaves) depth 0

  pub append-IsAt :
      (leaves : List A) (x : A)
      → IsAt hash z (leaf_at leaves) (leaf_at (leaves ++ x ∷ [])) 0 (length leaves) x
  unfolding node empty_node
  append-IsAt leaves x = record {
    same = λ i lt. get_or-append_lt leaves (x ∷ []) i z lt;
    beyond =
        λ i lt. get_or_beyond (leaves ++ x ∷ []) i z (omega (arith, length-append leaves (x ∷ [])));
    carried = sym (get_or-append_self leaves x z);
  }

  pub IsFilled-start :
      (d level : ℕ) (filled : Map ℕ A) → IsFilled hash z (leaf_at []) d level 0 filled
  IsFilled-start zero level filled = tt
  IsFilled-start (suc d) level filled =
      (λ odd. absurd (omega arith), IsFilled-start d (suc level) filled)

  pub root_of-nil : (depth : ℕ) → root_of depth [] ≡ empty_node hash z depth
  root_of-nil depth = node_all_empty hash (leaf_at []) z depth (λ i. refl) 0

  -- The counters and stored siblings of a contract stand for a list of leaves.
  pub record IsTree (depth : ℕ) (leaves : List A) (next : ℕ) (filled : Map ℕ A) : Type ℓ where
    pub counted : next ≡ length leaves
    pub fits : next ≤ 2 ^ depth
    pub stored : IsFilled hash z (leaf_at leaves) depth 0 next filled

  -- Inserting a leaf where there is room gives the tree with that leaf and its root.
  pub climb-IsTree :
      (depth : ℕ) (leaves : List A) (next : ℕ) (filled : Map ℕ A) (x : A)
      → IsTree depth leaves next filled
      → next < 2 ^ depth
      → let (root, filled') = climb hash z depth 0 next x filled in
        (root ≡ root_of depth (leaves ++ x ∷ []))
        × IsTree depth (leaves ++ x ∷ []) (next + 1) filled'
  climb-IsTree depth leaves next filled x tree lt =
      let at : IsAt hash z (leaf_at leaves) (leaf_at (leaves ++ x ∷ [])) 0 next x =
        rw tree.counted (append-IsAt leaves x) in
      (
        climb-root hash z (leaf_at leaves) (leaf_at (leaves ++ x ∷ [])) depth 0 next x filled at
              tree.stored lt
            ∙ (let e : 0 + depth ≡ depth = omega arith in rw e),
        record {
          counted = omega (arith, tree.counted, length-append leaves (x ∷ []));
          fits = omega arith;
          stored =
              (climb-IsFilled hash z (leaf_at leaves) (leaf_at (leaves ++ x ∷ [])) depth 0 next x
                filled at tree.stored).1;
        },
      )
