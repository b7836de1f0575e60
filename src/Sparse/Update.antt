-- ===== src/Sparse/Update.antt =====
-- The loop that recomputes the path from a new leaf to the root and stores each node on it.
use sl.Prelude.{
  ℕ, zero, suc, ◌+◌, ◌-◌, ◌*◌, ◌/◌, ◌%◌, ◌^◌, ◌<◌, ◌≤◌, ◌≡◌, ◌≢◌, refl, sym, ap, ◌∙◌, some, List,
  [], ◌∷◌, ◌++◌, arith, nat_beq, if◌then◌else◌, Map, insert, inl, inr, Bool-cases, nat_eq, pair_eq,
  get_elem?, length, subst, false,
}
use sl.Merkle.{unwrap_or}
use sl.Sparse.{row, top, get_elem?-pair_up, get_elem?-before, get_elem?-append_self}
use native.Mathlib.Nat.{pow-suc}

module _ {ℓ} {A : Type ℓ} (hash : A → A → A) (z : A) where
  abbrev pub Nodes : Type ℓ
  Nodes = Map (ℕ × ℕ) A

  -- The node above the one at `idx`, whose value is `cur`.
  unfoldable pub above : ℕ → ℕ → A → Nodes → A
  above level idx cur nodes =
      if nat_beq (idx % 2) 0
      then hash cur (unwrap_or z (nodes (level, idx + 1)))
      else hash (unwrap_or z (nodes (level, idx - 1))) cur

  unfoldable pub update : ℕ → ℕ → ℕ → A → Nodes → A × Nodes
  unfolding above
  update zero level idx cur nodes = (cur, nodes)
  update (suc d) level idx cur nodes =
      update d (suc level) (idx / 2) (above level idx cur nodes)
        (insert (suc level, idx / 2) (above level idx cur nodes) nodes)

  -- Up to a level the stored nodes are the rows over the new leaves, and from there to the last level
  -- those over the old ones; the two differ at the node of the new leaf only.
  pub record IsAt (old new : List A) (level last idx : ℕ) (cur : A) (nodes : Nodes) : Type ℓ where
    pub below : (l i : ℕ) → l ≤ level → nodes (l, i) ≡ get_elem? (row hash z l new) i
    pub beyond : (l i : ℕ) → level < l → l ≤ last → nodes (l, i) ≡ get_elem? (row hash z l old) i
    pub same :
        (i : ℕ) → i ≢ idx → get_elem? (row hash z level new) i ≡ get_elem? (row hash z level old) i
    pub carried : get_elem? (row hash z level new) idx ≡ some cur

  module _ (old new : List A) where
    above-carried :
        (level last idx : ℕ) (cur : A) (nodes : Nodes)
        → IsAt old new level last idx cur nodes
        → get_elem? (row hash z (suc level) new) (idx / 2) ≡ some (above level idx cur nodes)
    unfolding row above
    above-carried level last idx cur nodes at = elim (Bool-cases (nat_beq (idx % 2) 0)) [
      | inl even ↦
          let e : 2 * (idx / 2) ≡ idx = ground arith in
          rw even (
            get_elem?-pair_up hash z (row hash z level new) (idx / 2)
            ∙ (rw (e, at.carried, ← at.below level (idx + 1) (omega arith)) refl))
      | inr odd ↦
          let e : 2 * (idx / 2) ≡ idx - 1 = ground arith in
          let e' : idx - 1 + 1 ≡ idx = ground arith in
          let e'' : suc (idx - 1) ≡ idx = ground arith in
          let (left, there) =
            get_elem?-before (row hash z level new) (idx - 1) {b = cur} (rw e'' at.carried) in
          rw odd (
            get_elem?-pair_up hash z (row hash z level new) (idx / 2)
            ∙ (rw (e, e', at.carried, at.below level (idx - 1) (omega arith), there) refl))
    ]

    above-same :
        (level last idx : ℕ) (cur : A) (nodes : Nodes)
        → IsAt old new level last idx cur nodes
        → (i : ℕ) → i ≢ idx / 2
        → get_elem? (row hash z (suc level) new) i ≡ get_elem? (row hash z (suc level) old) i
    unfolding row
    above-same level last idx cur nodes at i ne =
        get_elem?-pair_up hash z (row hash z level new) i
        ∙ (rw (at.same (2 * i) (λ e. ne (omega arith)), at.same (2 * i + 1) (λ e. ne (omega arith)))
            (sym (get_elem?-pair_up hash z (row hash z level old) i)))

    above-below :
        (level last idx : ℕ) (cur : A) (nodes : Nodes)
        → level < last
        → IsAt old new level last idx cur nodes
        → (l i : ℕ) → l ≤ suc level
        → insert (suc level, idx / 2) (above level idx cur nodes) nodes (l, i)
          ≡ get_elem? (row hash z l new) i
    above-below level last idx cur nodes lt at l i le = elim (Bool-cases (nat_beq (suc level) l)) [
      | inr old_level ↦ rw old_level (at.below l i (ground arith))
      | inl new_level ↦
          let e : l ≡ suc level = ground arith in
          elim (Bool-cases (nat_beq (idx / 2) i)) [
            | inl here ↦
                let e' : i ≡ idx / 2 = ground arith in
                rw (new_level, here, e, e') (sym (above-carried level last idx cur nodes at))
            | inr aside ↦
                rw (new_level, aside, e)
                  (at.beyond (suc level) i (omega arith) (omega arith)
                    ∙ sym (above-same level last idx cur nodes at i (λ same. ground arith)))
          ]
    ]

    above-IsAt :
        (level last idx : ℕ) (cur : A) (nodes : Nodes)
        → level < last
        → IsAt old new level last idx cur nodes
        → IsAt old new
            (suc level)
            last
            (idx / 2)
            (above level idx cur nodes)
            (insert (suc level, idx / 2) (above level idx cur nodes) nodes)
    above-IsAt level last idx cur nodes lt at = record {
      below = above-below level last idx cur nodes lt at;
      beyond = λ l i lt' le.
          (let e : nat_beq (suc level) l ≡ false = ground arith in rw e)
          ∙ at.beyond l i (omega arith) le;
      same = above-same level last idx cur nodes at;
      carried = above-carried level last idx cur nodes at;
    }

    -- The update ends with all rows up to the last stored, and with the root.
    pub update-rows :
        (d level last idx : ℕ) (cur : A) (nodes : Nodes)
        → level + d ≡ last
        → idx < 2 ^ d
        → IsAt old new level last idx cur nodes
        → ((l i : ℕ)
            → l ≤ last
            → (update d level idx cur nodes).1 (l, i) ≡ get_elem? (row hash z l new) i)
          × ((update d level idx cur nodes).0 ≡ top hash z last new)
    unfolding update top
    update-rows zero level last idx cur nodes e lt at =
        let e0 : idx ≡ 0 = omega arith in
        let e1 : last ≡ level = omega arith in
        (
          λ l i le. at.below l i (omega arith),
          rw e1 (
              ap (unwrap_or z)
                (subst (λ i. some cur ≡ get_elem? (row hash z level new) i) e0 (sym at.carried))),
        )
    update-rows (suc d) level last idx cur nodes e lt at =
        update-rows d (suc level) last (idx / 2) (above level idx cur nodes)
          (insert (suc level, idx / 2) (above level idx cur nodes) nodes) (omega arith)
          (omega (arith, pow-suc 2 d)) (above-IsAt level last idx cur nodes (omega arith) at)

module _ {ℓ} {A : Type ℓ} where
  -- Every other place is as before.
  pub append_ne :
      (xs : List A) (x : A) (i : ℕ) → i ≢ length xs → get_elem? (xs ++ x ∷ []) i ≡ get_elem? xs i
  append_ne [] x zero ne = absurd (ne refl)
  append_ne [] x (suc i) ne = refl
  append_ne (y ∷ xs) x zero ne = refl
  append_ne (y ∷ xs) x (suc i) ne = append_ne xs x i (λ e. ne (omega arith))

  leaf_below :
      (hash : A → A → A) (z : A) (leaves : List A) (leaf : A) (nodes : Map (ℕ × ℕ) A) (depth : ℕ)
      → ((l i : ℕ) → l ≤ depth → nodes (l, i) ≡ get_elem? (row hash z l leaves) i)
      → (l i : ℕ) → l ≤ 0
      → insert (0, length leaves) leaf nodes (l, i)
        ≡ get_elem? (row hash z l (leaves ++ leaf ∷ [])) i
  unfolding row
  leaf_below hash z leaves leaf nodes depth rows zero i le =
      elim (Bool-cases (nat_beq (length leaves) i)) [
        | inl here ↦
            let e : i ≡ length leaves = ground arith in
            rw (here, e) (sym (get_elem?-append_self leaves leaf))
        | inr aside ↦
            rw aside (rows 0 i (omega arith) ∙ sym (append_ne leaves leaf i (λ same. ground arith)))
      ]
  leaf_below hash z leaves leaf nodes depth rows (suc l) i le = absurd (omega arith)

  -- Storing a leaf at the end and updating its path gives the rows over the leaves with that leaf,
  -- and their root.
  pub append-IsRows :
      (hash : A → A → A) (z : A) (depth : ℕ) (leaves : List A) (leaf : A) (nodes : Map (ℕ × ℕ) A)
      → length leaves < 2 ^ depth
      → ((l i : ℕ) → l ≤ depth → nodes (l, i) ≡ get_elem? (row hash z l leaves) i)
      → let made =
          update hash z depth 0 (length leaves) leaf (insert (0, length leaves) leaf nodes) in
        ((l i : ℕ) → l ≤ depth → made.1 (l, i) ≡ get_elem? (row hash z l (leaves ++ leaf ∷ [])) i)
        × (made.0 ≡ top hash z depth (leaves ++ leaf ∷ []))
  unfolding row
  append-IsRows hash z depth leaves leaf nodes room rows =
      update-rows hash z leaves (leaves ++ leaf ∷ []) depth 0 depth (length leaves) leaf
        (insert (0, length leaves) leaf nodes) (omega arith) room
        (record {
          below = leaf_below hash z leaves leaf nodes depth rows;
          beyond = λ l i lt le. (let e : nat_beq 0 l ≡ false = ground arith in rw e) ∙ rows l i le;
          same = append_ne leaves leaf;
          carried = get_elem?-append_self leaves leaf;
        })
