-- ===== src/Pallet/Tree/Insert.antt =====
-- What `insert_leaf` of pallets/privacy-pool/src/lib.rs writes, against the tree over a log of leaves.
use sl.Prelude.{
  ℕ, zero, suc, ◌+◌, ◌-◌, ◌/◌, ◌%◌, ◌^◌, ◌<◌, ◌≡◌, refl, sym, ap, ◌∙◌, false, not, ◌&&◌, Option,
  none, some, List, ◌∷◌, Text, arith, leb, nat_beq, nat_eq, text_eq, text_beq, text_beq_iff, Map,
  insert, Bool-cases, inl, inr, take, if◌then◌else◌,
}
use sl.Prelude.Words.{u32_mod, u64_mod}
use native.Mathlib.Nat.{mod-eq_of_lt}
use sl.Merkle.{
  empty_node, empty_node_inside, climb, climb_value, climb_filled, IsLog, log_root, log_roots,
  push-IsLog, scan-log_roots, unwrap_or,
}
use sl.Ring.{contains, scan, is_stored}
use sl.Fallible.{ok, >>=-eq-ok, ok-injective, refuse_if, refuse_if-eq-ok}
use sl.Pallet.State.{Config, Storage, tree_full}
use sl.Pallet.Poseidon.{zero_h256, poseidon_hash, zero_hash_from, zero_hash}
use sl.Pallet.Tree.{insert_level, insert_path, remainder, insert_leaf, scan_roots, is_known_root}

zero_hash_from_lem : (n : ℕ) (z : Text) → zero_hash_from n z ≡ empty_node poseidon_hash z n
unfolding zero_hash_from empty_node
zero_hash_from_lem zero z = refl
zero_hash_from_lem (suc n) z =
    zero_hash_from_lem n (poseidon_hash z z) ∙ empty_node_inside poseidon_hash z n

insert_level_lem :
    (level idx : ℕ) (cur : Text) (filled : Map ℕ Text)
    → insert_level level idx cur filled ≡ (
      climb_value poseidon_hash zero_h256 level idx cur filled,
      climb_filled poseidon_hash zero_h256 level idx cur filled,
    )
unfolding insert_level climb_value climb_filled zero_hash
insert_level_lem level idx cur filled = elim (Bool-cases (nat_beq (idx % 2) 0)) [
  | inl even ↦ rw (even, zero_hash_from_lem level zero_h256) refl
  | inr odd ↦ rw odd refl
]

-- The loop is the climb of the incremental tree.
insert_path_lem :
    (left level idx : ℕ) (cur : Text) (filled : Map ℕ Text)
    → insert_path left level idx cur filled
      ≡ climb poseidon_hash zero_h256 left level idx cur filled
unfolding insert_path climb
insert_path_lem zero level idx cur filled = refl
insert_path_lem (suc left) level idx cur filled =
    rw (insert_level_lem level idx cur filled) (insert_path_lem left (suc level) (idx / 2) _ _)

-- A configuration in which powers and indices do not wrap and the ring has a slot.
pub record IsSane (config : Config) : Type 0 where
  pub shallow : 2 ^ config.tree_depth < u64_mod
  pub slots : 0 < config.root_history_size
  pub few_slots : config.root_history_size < u32_mod

room_of : (m n : ℕ) → leb m n ≡ false → n < m
room_of m n h = ground arith

module _ (config : Config) where
  -- The climb of a new leaf, and the state after it.
  abbrev pub path_of : Text → Storage → Text × Map ℕ Text
  path_of leaf s =
      climb poseidon_hash zero_h256 config.tree_depth 0 s.next_leaf_index leaf s.filled_subtrees

  abbrev pub placed : Text → Storage → Storage
  placed leaf s = record s {
    filled_subtrees = (path_of leaf s).1;
    roots =
        insert ((s.current_root_index + 1) % config.root_history_size) (path_of leaf s).0 s.roots;
    current_root_index = (s.current_root_index + 1) % config.root_history_size;
    next_leaf_index = s.next_leaf_index + 1;
  }

  pub record Inserted (leaf : Text) (s : Storage) (out : ℕ × Storage) : Type 0 where
    pub room : s.next_leaf_index < 2 ^ config.tree_depth
    pub written : out.1 ≡ placed leaf s

  remainder-eq-ok : (v size : ℕ) {r : ℕ} → remainder v size ≡ ok r → r ≡ v % size
  unfolding remainder
  remainder-eq-ok v size h = elim (Bool-cases (nat_beq size 0)) [
    | inl none_there ↦ ground (arith, h)
    | inr some_there ↦ ground (arith, h)
  ]

  pub insert_leaf-eq-ok :
      (leaf : Text) (s : Storage) (out : ℕ × Storage)
      → IsSane config
      → s.current_root_index < config.root_history_size
      → insert_leaf config leaf s ≡ ok out
      → Inserted leaf s out
  unfolding insert_leaf
  insert_leaf-eq-ok leaf s out sane index h =
      let whole : 2 ^ config.tree_depth % u64_mod ≡ 2 ^ config.tree_depth =
        mod-eq_of_lt sane.shallow in
      let (u, e1, h1) =
        >>=-eq-ok (refuse_if (leb (2 ^ config.tree_depth % u64_mod) s.next_leaf_index) tree_full) _
          h in
      let (slot, e2, h2) =
        >>=-eq-ok (remainder ((s.current_root_index + 1) % u32_mod) config.root_history_size) _
          h1 in
      let no_room =
        refuse_if-eq-ok (leb (2 ^ config.tree_depth % u64_mod) s.next_leaf_index) tree_full e1 in
      let below : s.next_leaf_index < 2 ^ config.tree_depth =
        room_of (2 ^ config.tree_depth) s.next_leaf_index
          (sym (ap (λ (t : ℕ). leb t s.next_leaf_index) whole) ∙ no_room) in
      let word : (s.current_root_index + 1) % u32_mod ≡ s.current_root_index + 1 =
        mod-eq_of_lt (omega (arith, index, sane.few_slots)) in
      let next : (s.next_leaf_index + 1) % u64_mod ≡ s.next_leaf_index + 1 =
        mod-eq_of_lt (omega (arith, below, sane.shallow)) in
      let e : slot ≡ (s.current_root_index + 1) % config.root_history_size =
        remainder-eq-ok ((s.current_root_index + 1) % u32_mod) config.root_history_size e2
        ∙ ap (λ (t : ℕ). t % config.root_history_size) word in
      record {
        room = below;
        written =
            sym (ap (λ (t : ℕ × Storage). t.1) (ok-injective h2))
            ∙ (rw
                (
                  insert_path_lem config.tree_depth 0 s.next_leaf_index leaf s.filled_subtrees,
                  e,
                  next,
                )
                refl);
      }

  -- The stored tree and roots are those of a log of leaves.
  abbrev pub HasLog : List Text → Storage → Type 0
  HasLog log s =
      IsLog poseidon_hash zero_h256 config.root_history_size config.tree_depth log s.next_leaf_index
        s.current_root_index s.filled_subtrees s.roots

  abbrev pub root_after : List Text → Text
  root_after log = log_root poseidon_hash zero_h256 config.tree_depth log

  abbrev pub roots_after : List Text → List Text
  roots_after log = log_roots poseidon_hash zero_h256 config.tree_depth log

  pub placed-HasLog :
      (leaf : Text) (log : List Text) (s : Storage)
      → HasLog log s
      → s.next_leaf_index < 2 ^ config.tree_depth
      → HasLog (leaf ∷ log) (placed leaf s)
  placed-HasLog leaf log s has room =
      push-IsLog poseidon_hash zero_h256 config.root_history_size config.tree_depth leaf log
        s.next_leaf_index s.current_root_index s.filled_subtrees s.roots has room

  -- A slot that was never written reads as zero, which no root is that is looked for.
  slot_same :
      (root : Text) (slot : Option Text)
      → text_beq root zero_h256 ≡ false
      → text_beq (unwrap_or zero_h256 slot) root ≡ is_stored root slot
  slot_same root none set = ground (arith, text_beq_iff zero_h256 root, text_beq_iff root zero_h256)
  slot_same root (some a) set = refl

  scan_roots_lem :
      (rounds size idx : ℕ) (root : Text) (roots : Map ℕ Text)
      → text_beq root zero_h256 ≡ false
      → scan_roots rounds size idx root roots ≡ scan rounds size idx root roots
  unfolding scan_roots scan
  scan_roots_lem zero size idx root roots set = refl
  scan_roots_lem (suc rounds) size idx root roots set =
      rw
        (
          slot_same root (roots idx) set,
          scan_roots_lem rounds size (if nat_beq idx 0 then size - 1 else idx - 1) root roots set,
        )
        refl

  -- A root is known exactly if it is not zero and is among the roots of the last versions of the tree.
  pub is_known_root-HasLog :
      (log : List Text) (s : Storage) (root : Text)
      → HasLog log s
      → is_known_root config root s ≡ (
          not (text_beq root zero_h256)
          && contains root (take config.root_history_size (roots_after log)))
  unfolding is_known_root
  is_known_root-HasLog log s root has = elim (Bool-cases (text_beq root zero_h256)) [
    | inl none_there ↦ rw none_there refl
    | inr set ↦ rw set (
        scan_roots_lem config.root_history_size config.root_history_size s.current_root_index root
          s.roots set
        ∙ scan-log_roots poseidon_hash zero_h256 config.root_history_size config.tree_depth log
            s.next_leaf_index s.current_root_index s.filled_subtrees s.roots root has)
  ]
