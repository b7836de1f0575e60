-- ===== src/Sparse.antt =====
-- A tree that keeps every node it has computed and reads a zero for any other, against the rows of a
-- tree in which a missing right neighbour is zero, at every level.
pub mod Update
use sl.Prelude.{
  ℕ, zero, suc, ◌+◌, ◌*◌, ◌≡◌, refl, sym, ap, ◌∙◌, Option, none, some, List, [], ◌∷◌, ◌++◌, arith,
  get_elem?, length,
}
use sl.Merkle.{unwrap_or}

module _ {ℓ} {A : Type ℓ} (hash : A → A → A) (z : A) where
  -- The row above a row.
  abbrev pub pair_up : List A → List A
  pair_up [] = []
  pair_up (x ∷ []) = hash x z ∷ []
  pair_up (x ∷ y ∷ rest) = hash x y ∷ pair_up rest

  -- The row at a level over the leaves, which are level 0.
  unfoldable pub row : ℕ → List A → List A
  row zero leaves = leaves
  row (suc level) leaves = pair_up (row level leaves)

  -- The root at a depth: the first of its row, and zero over no leaves.
  unfoldable pub top : ℕ → List A → A
  unfolding row
  top depth leaves = unwrap_or z (get_elem? (row depth leaves) 0)

  abbrev pub join : Option A → Option A → Option A
  join none right = none
  join (some l) right = some (hash l (unwrap_or z right))

  pub get_elem?-pair_up :
      (xs : List A) (i : ℕ)
      → get_elem? (pair_up xs) i ≡ join (get_elem? xs (2 * i)) (get_elem? xs (2 * i + 1))
  get_elem?-pair_up [] i = refl
  get_elem?-pair_up (x ∷ []) zero = refl
  get_elem?-pair_up (x ∷ []) (suc i) = let e : 2 * suc i ≡ suc (suc (2 * i)) = omega arith in rw e
  get_elem?-pair_up (x ∷ y ∷ rest) zero = refl
  get_elem?-pair_up (x ∷ y ∷ rest) (suc i) =
      let e : 2 * suc i ≡ suc (suc (2 * i)) = omega arith in
      let e' : suc (suc (2 * i)) + 1 ≡ suc (suc (2 * i + 1)) = omega arith in
      rw (e, e') (get_elem?-pair_up rest i)

  -- No leaves, no nodes.
  pub row-nil : (level : ℕ) → row level [] ≡ []
  unfolding row
  row-nil zero = refl
  row-nil (suc level) = rw (row-nil level) refl

  pub top-nil : (depth : ℕ) → top depth [] ≡ z
  unfolding top
  top-nil depth = rw (row-nil depth) refl

-- An entry has all entries before it.
pub get_elem?-before {ℓ} :
    {A : Type ℓ} (xs : List A) (i : ℕ) {b : A}
    → get_elem? xs (suc i) ≡ some b
    → (a : A) × (get_elem? xs i ≡ some a)
get_elem?-before [] i h = cc
get_elem?-before (x ∷ xs) zero h = (x, refl)
get_elem?-before (x ∷ xs) (suc i) h = get_elem?-before xs i h

pub get_elem?-append_self {ℓ} :
    {A : Type ℓ} (xs : List A) (x : A) → get_elem? (xs ++ x ∷ []) (length xs) ≡ some x
get_elem?-append_self [] x = refl
get_elem?-append_self (y ∷ xs) x = get_elem?-append_self xs x
