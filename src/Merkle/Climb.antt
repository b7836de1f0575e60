-- ===== src/Merkle/Climb.antt =====
-- The insertion loop: it climbs from a leaf to the root, keeping the left siblings that later
-- insertions need.
use sl.Prelude.{
  ℕ, zero, suc, ◌+◌, ◌-◌, ◌/◌, ◌%◌, ◌^◌, ◌<◌, ◌≤◌, ◌≡◌, refl, sym, ◌∙◌, Option, none, some, arith,
  nat_beq, if◌then◌else◌, Map, insert, inl, inr, Bool-cases, nat_eq,
}
use sl.Merkle.Node.{node, empty_node, node_same_step, node_empty_step, hash-node}
use native.Mathlib.Nat.{pow-suc}

-- `unwrap_or`: what stands for a sibling that was never stored.
abbrev pub unwrap_or {ℓ} : {A : Type ℓ} → A → Option A → A
unwrap_or z none = z
unwrap_or z (some a) = a

module _ {ℓ} {A : Type ℓ} (hash : A → A → A) (z : A) where
  -- One level: at a left child the value is stored and joined with an empty subtree, at a right
  -- child it is joined with the stored left sibling.
  unfoldable pub climb_value : ℕ → ℕ → A → Map ℕ A → A
  climb_value level idx cur filled =
      if nat_beq (idx % 2) 0
      then hash cur (empty_node hash z level)
      else hash (unwrap_or z (filled level)) cur

  unfoldable pub climb_filled : ℕ → ℕ → A → Map ℕ A → Map ℕ A
  climb_filled level idx cur filled =
      if nat_beq (idx % 2) 0 then insert level cur filled else filled

  unfoldable pub climb : ℕ → ℕ → ℕ → A → Map ℕ A → A × Map ℕ A
  unfolding climb_value climb_filled
  climb zero level idx cur filled = (cur, filled)
  climb (suc d) level idx cur filled =
      climb d (suc level) (idx / 2) (climb_value level idx cur filled)
        (climb_filled level idx cur filled)

  -- The stored left siblings that an insertion at `idx` will read, for a tree over the leaves `f`.
  abbrev pub IsFilled : (ℕ → A) → ℕ → ℕ → ℕ → Map ℕ A → Type ℓ
  IsFilled f zero level idx filled = Unit {ℓ}
  IsFilled f (suc d) level idx filled =
      (idx % 2 ≡ 1 → filled level ≡ some (node hash f level (idx - 1)))
      × IsFilled f d (suc level) (idx / 2) filled

  -- A climb from a higher level does not write at a lower one.
  pub climb_frame :
      (d level idx : ℕ) (cur : A) (filled : Map ℕ A) (j : ℕ)
      → j < level
      → (climb d level idx cur filled).1 j ≡ filled j
  unfolding climb
  climb_frame zero level idx cur filled j h = refl
  climb_frame (suc d) level idx cur filled j h =
      climb_frame d (suc level) (idx / 2) (climb_value level idx cur filled)
        (climb_filled level idx cur filled) j (omega arith)
      ∙ ground arith

  -- A write below a level is not seen at it or above.
  IsFilled-frame :
      (f : ℕ → A) (d level idx : ℕ) (filled other : Map ℕ A)
      → ((j : ℕ) → level ≤ j → other j ≡ filled j)
      → IsFilled f d level idx filled
      → IsFilled f d level idx other
  IsFilled-frame f zero level idx filled other same h = h
  IsFilled-frame f (suc d) level idx filled other same h = (
    λ odd. same level (omega arith) ∙ h.0 odd,
    IsFilled-frame f d (suc level) (idx / 2) filled other (λ j le. same j (omega arith)) h.1,
  )

  -- What one climb needs of the old leaves `g` and the new leaves `f` at its level: they agree below
  -- the climbing node, nothing stands beyond it, and the value carried is the node's.
  pub record IsAt (g f : ℕ → A) (level idx : ℕ) (cur : A) : Type ℓ where
    pub same : (i : ℕ) → i < idx → node hash f level i ≡ node hash g level i
    pub beyond : (i : ℕ) → idx < i → node hash f level i ≡ empty_node hash z level
    pub carried : cur ≡ node hash f level idx

  module _ (g f : ℕ → A) where
    climb_value-node :
        (level idx : ℕ) (cur : A) (filled : Map ℕ A)
        → IsAt g f level idx cur
        → (idx % 2 ≡ 1 → filled level ≡ some (node hash g level (idx - 1)))
        → climb_value level idx cur filled ≡ node hash f (suc level) (idx / 2)
    unfolding climb_value
    climb_value-node level idx cur filled at stored = elim (Bool-cases (nat_beq (idx % 2) 0)) [
      | inl even ↦ rw even (
          rw (at.carried, sym (at.beyond (idx + 1) (omega arith)))
            (hash-node hash f level (idx / 2) idx (idx + 1) (ground arith) (ground arith)))
      | inr odd ↦ rw odd (
          rw (stored (ground arith), at.carried, sym (at.same (idx - 1) (ground arith)))
            (hash-node hash f level (idx / 2) (idx - 1) idx (ground arith) (ground arith)))
    ]

    climb_value-IsAt :
        (level idx : ℕ) (cur : A) (filled : Map ℕ A)
        → IsAt g f level idx cur
        → (idx % 2 ≡ 1 → filled level ≡ some (node hash g level (idx - 1)))
        → IsAt g f (suc level) (idx / 2) (climb_value level idx cur filled)
    climb_value-IsAt level idx cur filled at stored = record {
      same = node_same_step hash f g level idx at.same;
      beyond = node_empty_step hash f z level idx at.beyond;
      carried = climb_value-node level idx cur filled at stored;
    }

    -- What one level stores: the left sibling that was there, and the value carried at a left child.
    climb_filled_odd :
        (level idx : ℕ) (cur : A) (filled : Map ℕ A)
        → IsAt g f level idx cur
        → (idx % 2 ≡ 1 → filled level ≡ some (node hash g level (idx - 1)))
        → idx % 2 ≡ 1
        → climb_filled level idx cur filled level ≡ some (node hash f level (idx - 1))
    unfolding climb_filled
    climb_filled_odd level idx cur filled at stored odd =
        ground (arith, stored odd, at.same (idx - 1))

    climb_filled_even :
        (level idx : ℕ) (cur : A) (filled : Map ℕ A)
        → IsAt g f level idx cur
        → (idx + 1) % 2 ≡ 1
        → climb_filled level idx cur filled level ≡ some (node hash f level (idx + 1 - 1))
    unfolding climb_filled
    climb_filled_even level idx cur filled at odd =
        let e : idx + 1 - 1 ≡ idx = omega arith in rw e (ground (arith, at.carried))

    climb_filled-IsFilled :
        (d level idx : ℕ) (cur : A) (filled : Map ℕ A)
        → IsFilled g d (suc level) (idx / 2) filled
        → IsFilled g d (suc level) (idx / 2) (climb_filled level idx cur filled)
    unfolding climb_filled
    climb_filled-IsFilled d level idx cur filled h =
        IsFilled-frame g d (suc level) (idx / 2) filled (climb_filled level idx cur filled)
          (λ j le. ground arith) h

    half_next :
        (d level idx : ℕ) (filled : Map ℕ A)
        → IsFilled f d level (idx / 2) filled
        → IsFilled f d level (idx / 2 + 1) filled
        → IsFilled f d level ((idx + 1) / 2) filled
    half_next d level idx filled here after = elim (Bool-cases (nat_beq (idx % 2) 0)) [
      | inl even ↦ let e : (idx + 1) / 2 ≡ idx / 2 = ground arith in rw e here
      | inr odd ↦ let e : (idx + 1) / 2 ≡ idx / 2 + 1 = ground arith in rw e after
    ]

    -- The stored siblings after the climb serve the next insertion (at `idx + 1`), and those that
    -- this one read are still there.
    pub climb-IsFilled :
        (d level idx : ℕ) (cur : A) (filled : Map ℕ A)
        → IsAt g f level idx cur
        → IsFilled g d level idx filled
        → IsFilled f d level idx (climb d level idx cur filled).1
          × IsFilled f d level (idx + 1) (climb d level idx cur filled).1
    unfolding climb
    climb-IsFilled zero level idx cur filled at h = (tt, tt)
    climb-IsFilled (suc d) level idx cur filled at h =
        let cur' : A = climb_value level idx cur filled in
        let filled' : Map ℕ A = climb_filled level idx cur filled in
        let later =
          climb-IsFilled d (suc level) (idx / 2) cur' filled'
            (climb_value-IsAt level idx cur filled at h.0)
            (climb_filled-IsFilled d level idx cur filled h.1) in
        let kept = climb_frame d (suc level) (idx / 2) cur' filled' level (omega arith) in
        (
          (λ odd. kept ∙ climb_filled_odd level idx cur filled at h.0 odd, later.0),
          (
            λ odd. kept ∙ climb_filled_even level idx cur filled at odd,
            half_next d (suc level) idx (climb d (suc level) (idx / 2) cur' filled').1 later.0
                later.1,
          ),
        )

    -- The climb ends in the root.
    pub climb-root :
        (d level idx : ℕ) (cur : A) (filled : Map ℕ A)
        → IsAt g f level idx cur
        → IsFilled g d level idx filled
        → idx < 2 ^ d
        → (climb d level idx cur filled).0 ≡ node hash f (level + d) 0
    unfolding climb
    climb-root zero level idx cur filled at h lt =
        let e : level + 0 ≡ level = omega arith in
        let e' : idx ≡ 0 = omega arith in rw (e, at.carried, e')
    climb-root (suc d) level idx cur filled at h lt =
        let e : level + suc d ≡ suc level + d = omega arith in
        rw e (
          climb-root d (suc level) (idx / 2) (climb_value level idx cur filled)
            (climb_filled level idx cur filled) (climb_value-IsAt level idx cur filled at h.0)
            (climb_filled-IsFilled d level idx cur filled h.1) (omega (arith, pow-suc 2 d)))
