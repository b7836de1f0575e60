-- ===== src/CosmWasm/Tree/Total.antt =====
-- When `insert_leaf` succeeds: on a leaf that `hex_to_32` reads, in a tree over such leaves with room.
use sl.Prelude.{
  ℕ, zero, suc, ◌+◌, ◌*◌, ◌-◌, ◌/◌, ◌%◌, ◌^◌, ◌<◌, ◌≤◌, ◌≡◌, refl, sym, ap, ◌∙◌, false, some, List,
  [], ◌∷◌, ◌++◌, Text, arith, leb, nat_beq, nat_eq, Map, insert, get_or, Bool-cases, inl, inr,
  lt→ltb,
}
use sl.Prelude.Words.{u32_mod}
use sl.Merkle.{node, climb_filled, IsFilled, leaf_at}
use sl.CosmWasm.Outcome.{ok, or_panic, or_panic-eq-ok, >>=-eq-ok, load}
use sl.CosmWasm.Poseidon.{Crates, hex_to_32, hex_to_bytes, poseidon_hash_hex}
use sl.CosmWasm.Poseidon.Digest.{IsHexEncode, IsHex, poseidon_hash_hex-total}
use sl.CosmWasm.State.{State}
use sl.CosmWasm.Tree.{
  zero_hash_text, zero_hash_from, zero_hash, insert_level, insert_path, next_root_index,
  insert_leaf,
}
use sl.CosmWasm.Tree.Root.{hash, insert_level-eq-ok}
use sl.CosmWasm.Tree.History.{IsPool}
use sl.Merkle.{oldest_first}
use mathlib.Core.Option

abbrev pub AllHex : List Text → Type 0
AllHex [] = Unit
AllHex (t ∷ ts) = IsHex t × AllHex ts

pub AllHex-append_one : (ts : List Text) (t : Text) → AllHex ts → IsHex t → AllHex (ts ++ t ∷ [])
AllHex-append_one [] t all h = (h, tt)
AllHex-append_one (x ∷ ts) t all h = (all.0, AllHex-append_one ts t all.1 h)

pub AllHex-oldest_first : (log : List Text) → AllHex log → AllHex (oldest_first log)
AllHex-oldest_first [] all = tt
AllHex-oldest_first (x ∷ log) all =
    AllHex-append_one (oldest_first log) x (AllHex-oldest_first log all.1) all.0

AllHex-leaf_at : (ts : List Text) (i : ℕ) (z : Text) → AllHex ts → IsHex z → IsHex (get_or ts i z)
AllHex-leaf_at [] i z all h = h
AllHex-leaf_at (t ∷ ts) zero z all h = all.0
AllHex-leaf_at (t ∷ ts) (suc i) z all h = AllHex-leaf_at ts i z all.1 h

zero_hash_text-IsHex : IsHex zero_hash_text
unfolding zero_hash_text hex_to_bytes Option.bind
zero_hash_text-IsHex = (_, refl)

not_full : (next max : ℕ) → next < max → leb max next ≡ false
not_full next max h = ground arith

-- Only readable texts are hashed.
poseidon_hash_hex-reads :
    (crates : Crates) (l r : Text) {h : Text}
    → poseidon_hash_hex crates l r ≡ ok h
    → IsHex l × IsHex r
unfolding poseidon_hash_hex
poseidon_hash_hex-reads crates l r e =
    let (ls, e1, h1) = >>=-eq-ok (or_panic (hex_to_32 l)) _ e in
    let (rs, e2, h2) = >>=-eq-ok (or_panic (hex_to_32 r)) _ h1 in
    ((ls, or_panic-eq-ok (hex_to_32 l) e1), (rs, or_panic-eq-ok (hex_to_32 r) e2))

insert_level-reads :
    (crates : Crates) (level idx : ℕ) (cur : Text) (filled : Map ℕ Text) {r : Text × Map ℕ Text}
    → insert_level crates level idx cur filled ≡ ok r
    → IsHex cur
unfolding insert_level
insert_level-reads crates level idx cur filled e = elim (Bool-cases (nat_beq (idx % 2) 0)) [
  | inl even ↦
      let (z, e1, h1) = >>=-eq-ok (zero_hash crates level) _ (rw even at e) in
      let (y, e2, h2) = >>=-eq-ok (poseidon_hash_hex crates cur z) _ h1 in
      (poseidon_hash_hex-reads crates cur z e2).0
  | inr odd ↦
      let (s, e1, h1) = >>=-eq-ok (load (filled level)) _ (rw odd at e) in
      let (y, e2, h2) = >>=-eq-ok (poseidon_hash_hex crates s cur) _ h1 in
      (poseidon_hash_hex-reads crates s cur e2).1
]

-- So at any depth but zero a leaf that was inserted is readable.
pub insert_path-reads :
    (crates : Crates) (left level idx : ℕ) (cur : Text) (filled : Map ℕ Text)
    {r : Text × Map ℕ Text}
    → insert_path crates (suc left) level idx cur filled ≡ ok r
    → IsHex cur
unfolding insert_path
insert_path-reads crates left level idx cur filled h =
    let (step, e, rest) = >>=-eq-ok (insert_level crates level idx cur filled) _ h in
    insert_level-reads crates level idx cur filled e

-- The stored left siblings that a climb will read are there, and readable.
abbrev IsReadable : ℕ → ℕ → ℕ → Map ℕ Text → Type 0
IsReadable zero level idx filled = Unit
IsReadable (suc d) level idx filled =
    (idx % 2 ≡ 1 → (t : Text) × (filled level ≡ some t) × IsHex t)
    × IsReadable d (suc level) (idx / 2) filled

IsReadable-frame :
    (d level idx : ℕ) (filled other : Map ℕ Text)
    → ((j : ℕ) → level ≤ j → other j ≡ filled j)
    → IsReadable d level idx filled
    → IsReadable d level idx other
IsReadable-frame zero level idx filled other same h = tt
IsReadable-frame (suc d) level idx filled other same h = (
  λ odd. let (t, at, hex) = h.0 odd in (t, same level (omega arith) ∙ at, hex),
  IsReadable-frame d (suc level) (idx / 2) filled other (λ j le. same j (omega arith)) h.1,
)

module _ (crates : Crates) (law : IsHexEncode crates.hex_encode) where
  hash_ok :
      (l r : Text)
      → IsHex l
      → IsHex r
      → (h : Text) × (poseidon_hash_hex crates l r ≡ ok h) × IsHex h
  hash_ok l r hl hr =
      let (h, bs, e, at, lt) = poseidon_hash_hex-total crates law l r hl hr in (h, e, (bs, at))

  node-IsHex :
      (ts : List Text) (l i : ℕ)
      → AllHex ts
      → IsHex (node (hash crates) (leaf_at (hash crates) zero_hash_text ts) l i)
  unfolding node
  node-IsHex ts zero i all = AllHex-leaf_at ts i zero_hash_text all zero_hash_text-IsHex
  node-IsHex ts (suc l) i all =
      let (h, e, hex) =
        hash_ok _ _ (node-IsHex ts l (2 * i) all) (node-IsHex ts l (2 * i + 1) all) in
      rw e hex

  IsFilled-IsReadable :
      (ts : List Text) (d level idx : ℕ) (filled : Map ℕ Text)
      → AllHex ts
      → IsFilled
          (hash crates)
          zero_hash_text
          (leaf_at (hash crates) zero_hash_text ts)
          d
          level
          idx
          filled
      → IsReadable d level idx filled
  IsFilled-IsReadable ts zero level idx filled all h = tt
  IsFilled-IsReadable ts (suc d) level idx filled all h = (
    λ odd. (_, h.0 odd, node-IsHex ts level (idx - 1) all),
    IsFilled-IsReadable ts d (suc level) (idx / 2) filled all h.1,
  )

  zero_hash_from-total :
      (n : ℕ) (z : Text) → IsHex z → (r : Text) × (zero_hash_from crates n z ≡ ok r) × IsHex r
  unfolding zero_hash_from
  zero_hash_from-total zero z hex = (z, refl, hex)
  zero_hash_from-total (suc n) z hex =
      let (y, e, hex') = hash_ok z z hex hex in rw e (zero_hash_from-total n y hex')

  insert_level-total :
      (level idx : ℕ) (cur : Text) (filled : Map ℕ Text)
      → IsHex cur
      → (idx % 2 ≡ 1 → (t : Text) × (filled level ≡ some t) × IsHex t)
      → (r : Text × Map ℕ Text) × (insert_level crates level idx cur filled ≡ ok r) × IsHex r.0
  unfolding insert_level zero_hash
  insert_level-total level idx cur filled hex stored = elim (Bool-cases (nat_beq (idx % 2) 0)) [
    | inl even ↦
        let (z, e1, hz) = zero_hash_from-total level zero_hash_text zero_hash_text-IsHex in
        let (h, e2, hh) = hash_ok cur z hex hz in
        ((h, insert level cur filled), rw (even, e1, e2) refl, hh)
    | inr odd ↦
        let (t, e1, ht) = stored (ground arith) in
        let (h, e2, hh) = hash_ok t cur ht hex in ((h, filled), rw (odd, e1, e2) refl, hh)
  ]

  climb_filled-above :
      (level idx : ℕ) (cur : Text) (filled : Map ℕ Text) (j : ℕ)
      → suc level ≤ j
      → climb_filled (hash crates) zero_hash_text level idx cur filled j ≡ filled j
  unfolding climb_filled
  climb_filled-above level idx cur filled j le = ground arith

  insert_path-total :
      (d level idx : ℕ) (cur : Text) (filled : Map ℕ Text)
      → IsHex cur
      → IsReadable d level idx filled
      → (r : Text × Map ℕ Text) × (insert_path crates d level idx cur filled ≡ ok r)
  unfolding insert_path
  insert_path-total zero level idx cur filled hex h = ((cur, filled), refl)
  insert_path-total (suc d) level idx cur filled hex h =
      let (step, e, hex') = insert_level-total level idx cur filled hex h.0 in
      let (eh, ef) = insert_level-eq-ok crates level idx cur filled e in
      let ready =
        IsReadable-frame d (suc level) (idx / 2) filled step.1
          (λ j le.
            ap (λ (m : Map ℕ Text). m j) (sym ef) ∙ climb_filled-above level idx cur filled j le)
          h.1 in
      rw e (insert_path-total d (suc level) (idx / 2) step.0 step.1 hex' ready)

  next_root_index-total :
      (cur size : ℕ) → cur < size → size < u32_mod → (i : ℕ) × (next_root_index cur size ≡ ok i)
  unfolding next_root_index
  next_root_index-total cur size lt fits = ((cur + 1) % size, ground arith)

  -- A readable leaf is inserted while there is room.
  pub insert_leaf-total :
      (leaf : Text) (log : List Text) (s : State)
      → IsPool crates log s
      → AllHex log
      → IsHex leaf
      → s.config.tree_depth < 64
      → s.config.root_history_size < u32_mod
      → s.next_leaf_index < 2 ^ s.config.tree_depth
      → (out : ℕ × State) × (insert_leaf crates leaf s ≡ ok out)
  unfolding insert_leaf
  insert_leaf-total leaf log s pool all hex deep size room =
      let ready =
        IsFilled-IsReadable (oldest_first log) s.config.tree_depth 0 s.next_leaf_index
          s.filled_subtrees (AllHex-oldest_first log all) pool.tree.stored in
      let (r, e) =
        insert_path-total s.config.tree_depth 0 s.next_leaf_index leaf s.filled_subtrees hex
          ready in
      let (i, e') =
        next_root_index-total s.current_root_index s.config.root_history_size pool.ring.in_range
          size in
      (
        (
          s.next_leaf_index,
          record s {
            filled_subtrees = r.1;
            roots = insert i r.0 s.roots;
            current_root_index = i;
            next_leaf_index = s.next_leaf_index + 1;
          },
        ),
        rw (lt→ltb _ _ deep, not_full _ _ room, e, e') refl,
      )
