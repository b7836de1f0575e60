-- ===== src/Merkle/Log.antt =====
-- The abstract view of a pool's tree state: the log of inserted leaves. The stored counters, subtrees
-- and roots are those of the full tree over the log, and of its last versions.
use sl.Prelude.{
  ℕ, ◌+◌, ◌%◌, ◌^◌, ◌<◌, ◌≡◌, refl, sym, ap, ◌∙◌, some, List, [], ◌∷◌, ◌++◌, arith, Map, insert,
  no_entries, length, length-append, take, get_elem?, nat_eq, Key,
}
use sl.Ring.{back, IsRing, push-IsRing, start-IsRing, contains, scan, scan_lem}
use sl.Merkle.Node.{empty_node}
use sl.Merkle.Climb.{climb}
use sl.Merkle.Rows.{IsTree, climb-IsTree, root_of, root_of-nil, IsFilled-start}

-- The log holds the newest leaf first; the tree has the oldest at the left.
abbrev pub oldest_first {ℓ} : {A : Type ℓ} → List A → List A
oldest_first [] = []
oldest_first (x ∷ log) = oldest_first log ++ x ∷ []

pub length-oldest_first {ℓ} : {A : Type ℓ} (log : List A) → length (oldest_first log) ≡ length log
length-oldest_first [] = refl
length-oldest_first (x ∷ log) =
    omega (arith, length-append (oldest_first log) (x ∷ []), length-oldest_first log)

module _ {ℓ} {A : Type ℓ} (hash : A → A → A) (z : A) where
  -- The root of the tree over a log, and the roots of all its versions, newest first.
  abbrev pub log_root : ℕ → List A → A
  log_root depth log = root_of hash z depth (oldest_first log)

  abbrev pub log_roots : ℕ → List A → List A
  log_roots depth [] = log_root depth [] ∷ []
  log_roots depth (x ∷ log) = log_root depth (x ∷ log) ∷ log_roots depth log

  pub record IsLog (size depth : ℕ) (log : List A) (next cur : ℕ) (filled roots : Map ℕ A)
      : Type ℓ where
    pub tree : IsTree hash z depth (oldest_first log) next filled
    pub ring : IsRing size cur (log_roots depth log) roots

  module _ (size depth : ℕ) where
    newest_root : (log : List A) → get_elem? (log_roots depth log) 0 ≡ some (log_root depth log)
    newest_root [] = refl
    newest_root (x ∷ log) = refl

    -- The current slot holds the root over the whole log.
    pub IsLog-newest :
        (log : List A) (next cur : ℕ) (filled roots : Map ℕ A)
        → IsLog size depth log next cur filled roots
        → roots cur ≡ some (log_root depth log)
    IsLog-newest log next cur filled roots pool =
        let e : back size cur 0 ≡ cur = ground arith in
        ap roots (sym e) ∙ (pool.ring.slot 0 (omega (arith, pool.ring.in_range)) ∙ newest_root log)

    -- The number of leaves is the counter.
    pub IsLog-next :
        (log : List A) (next cur : ℕ) (filled roots : Map ℕ A)
        → IsLog size depth log next cur filled roots
        → next ≡ length log
    IsLog-next log next cur filled roots pool = pool.tree.counted ∙ length-oldest_first log

    -- A climb from the next free place, whose root goes to the next slot, appends its leaf.
    pub push-IsLog :
        (leaf : A) (log : List A) (next cur : ℕ) (filled roots : Map ℕ A)
        → IsLog size depth log next cur filled roots
        → next < 2 ^ depth
        → IsLog size depth
            (leaf ∷ log)
            (next + 1)
            ((cur + 1) % size)
            (climb hash z depth 0 next leaf filled).1
            (insert ((cur + 1) % size) (climb hash z depth 0 next leaf filled).0 roots)
    push-IsLog leaf log next cur filled roots pool room =
        let (root_is, tree') =
          climb-IsTree hash z depth (oldest_first log) next filled leaf pool.tree room in
        record {
          tree = tree';
          ring = rw root_is (
              push-IsRing size cur (log_roots depth log) roots (log_root depth (leaf ∷ log))
                pool.ring);
        }

    -- The state of an empty tree.
    pub start-IsLog :
        (filled : Map ℕ A)
        → 0 < size
        → IsLog size depth [] 0 0 filled (insert 0 (empty_node hash z depth) no_entries)
    start-IsLog filled positive = record {
      tree = record {
        counted = refl;
        fits = omega arith;
        stored = IsFilled-start hash z depth 0 filled;
      };
      ring = rw (← root_of-nil hash z depth) (start-IsRing size (log_root depth []) positive);
    }

    -- A scan of the roots finds those of the last versions.
    pub scan-log_roots :
        ⦃key : Key A⦄ (log : List A) (next cur : ℕ) (filled roots : Map ℕ A) (root : A)
        → IsLog size depth log next cur filled roots
        → scan size size cur root roots ≡ contains root (take size (log_roots depth log))
    scan-log_roots ⦃key⦄ log next cur filled roots root pool =
        scan_lem size cur (log_roots depth log) roots root pool.ring
