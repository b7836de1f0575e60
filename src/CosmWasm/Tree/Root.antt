-- ===== src/CosmWasm/Tree/Root.antt =====
-- What a successful `insert_leaf` computes: the root of the full tree with the new leaf.
use sl.Prelude.{
  ℕ, zero, suc, ◌+◌, ◌/◌, ◌%◌, ◌^◌, ◌<◌, ◌≡◌, sym, ap, ◌∙◌, [], Text, arith, leb, nat_beq, Map,
  insert, Bool-cases, inl, inr, nat_eq,
}
use sl.Merkle.{empty_node, empty_node_inside, climb, climb_value, climb_filled}
use sl.CosmWasm.Outcome.{
  Outcome, ok, err, panic, Outcome-cases, >>=-eq-ok, ok-injective, refuse_if, tree_full,
}
use sl.CosmWasm.Poseidon.{Crates, poseidon_hash_hex}
use sl.CosmWasm.State.{State}
use sl.CosmWasm.Tree.{
  zero_hash_text, zero_hash_from, zero_hash, insert_level, insert_path, pow2_u64, next_root_index,
  insert_leaf,
}

abbrev value_of : Outcome Text → Text
value_of (ok a) = a
value_of (err e) = []
value_of panic = []

module _ (crates : Crates) where
  -- The hash as a total function, with the empty text where the contract panics.
  abbrev pub hash : Text → Text → Text
  hash l r = value_of (poseidon_hash_hex crates l r)

  zero_hash_from-eq-ok :
      (n : ℕ) (z : Text) {r : Text} → zero_hash_from crates n z ≡ ok r → empty_node hash z n ≡ r
  unfolding zero_hash_from empty_node
  zero_hash_from-eq-ok zero z h = cc
  zero_hash_from-eq-ok (suc n) z h =
      let (y, e, rest) = >>=-eq-ok (poseidon_hash_hex crates z z) (zero_hash_from crates n) h in
      sym (empty_node_inside hash z n) ∙ (rw e (zero_hash_from-eq-ok n y rest))

  pub insert_level-eq-ok :
      (level idx : ℕ) (cur : Text) (filled : Map ℕ Text) {h : Text} {filled' : Map ℕ Text}
      → insert_level crates level idx cur filled ≡ ok (h, filled')
      → (climb_value hash zero_hash_text level idx cur filled ≡ h)
        × (climb_filled hash zero_hash_text level idx cur filled ≡ filled')
  unfolding insert_level climb_value climb_filled zero_hash
  insert_level-eq-ok level idx cur filled e = elim (Bool-cases (nat_beq (idx % 2) 0)) [
    | inl even ↦ elim (Outcome-cases (zero_hash_from crates level zero_hash_text)) [
      | inl (y, ey) ↦ ground (arith, zero_hash_from-eq-ok level zero_hash_text ey, even, e)
      | inr none_made ↦ ground (arith, even, e)
    ]
    | inr odd ↦ ground (arith, odd, e)
  ]

  insert_path-eq-ok :
      (left level idx : ℕ) (cur : Text) (filled : Map ℕ Text) {r : Text × Map ℕ Text}
      → insert_path crates left level idx cur filled ≡ ok r
      → climb hash zero_hash_text left level idx cur filled ≡ r
  unfolding insert_path climb
  insert_path-eq-ok zero level idx cur filled h = cc
  insert_path-eq-ok (suc left) level idx cur filled h =
      let (step, e, rest) = >>=-eq-ok (insert_level crates level idx cur filled) _ h in
      let (eh, ef) = insert_level-eq-ok level idx cur filled e in
      rw (eh, ef) (insert_path-eq-ok left (suc level) (idx / 2) step.0 step.1 rest)

  -- What `insert_leaf` has checked and written when it succeeds.
  pub record Inserted (leaf : Text) (s s' : State) (index : ℕ) : Type 0 where
    pub index_is : index ≡ s.next_leaf_index
    pub room : s.next_leaf_index < 2 ^ s.config.tree_depth
    pub written : s' ≡ record s {
      filled_subtrees =
          (climb hash zero_hash_text s.config.tree_depth 0 s.next_leaf_index leaf
            s.filled_subtrees).1;
      roots =
          insert
            ((s.current_root_index + 1) % s.config.root_history_size)
            (climb hash zero_hash_text s.config.tree_depth 0 s.next_leaf_index leaf
              s.filled_subtrees).0
            s.roots;
      current_root_index = (s.current_root_index + 1) % s.config.root_history_size;
      next_leaf_index = s.next_leaf_index + 1;
    }

  next_root_index-eq-ok :
      (current size : ℕ) {i : ℕ} → next_root_index current size ≡ ok i → (current + 1) % size ≡ i
  unfolding next_root_index
  next_root_index-eq-ok current size h = ground arith

  room_of :
      (depth next max : ℕ)
      → pow2_u64 depth ≡ ok max
      → refuse_if (leb max next) tree_full ≡ ok tt
      → next < 2 ^ depth
  room_of depth next max e full = ground arith

  pub insert_leaf-eq-ok :
      (leaf : Text) (s s' : State) (index : ℕ)
      → insert_leaf crates leaf s ≡ ok (index, s')
      → Inserted leaf s s' index
  unfolding insert_leaf
  insert_leaf-eq-ok leaf s s' index h =
      let (max, e1, h1) = >>=-eq-ok (pow2_u64 s.config.tree_depth) _ h in
      let (u, e2, h2) = >>=-eq-ok (refuse_if (leb max s.next_leaf_index) tree_full) _ h1 in
      let (r, e3, h3) =
        >>=-eq-ok
          (insert_path crates s.config.tree_depth 0 s.next_leaf_index leaf s.filled_subtrees) _
          h2 in
      let (i, e4, h4) =
        >>=-eq-ok (next_root_index s.current_root_index s.config.root_history_size) _ h3 in
      let done = ok-injective h4 in
      record {
        index_is = sym (ap (λ (t : ℕ × State). t.0) done);
        room = room_of s.config.tree_depth s.next_leaf_index max e1 e2;
        written =
            rw
              (
                insert_path-eq-ok s.config.tree_depth 0 s.next_leaf_index leaf s.filled_subtrees e3,
                next_root_index-eq-ok s.current_root_index s.config.root_history_size e4,
              )
              (sym (ap (λ (t : ℕ × State). t.1) done));
      }
