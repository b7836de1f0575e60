-- ===== src/Ring.antt =====
-- The root history: a ring of slots with the newest value at `cur`, read backwards.
use sl.Prelude.{
  ℕ, zero, suc, ◌+◌, ◌-◌, ◌%◌, ◌<◌, ◌≤◌, ◌≡◌, ◌≢◌, refl, ap, sym, ◌∙◌, Bool, true, false, ◌||◌,
  Option, none, some, List, [], ◌∷◌, arith, leb, nat_beq, if◌then◌else◌, Key, ◌==◌, nat_eq, Map,
  insert, get_elem?, take, drop, Bool-cases, inl, inr, ◌⊎◌, insert_ne, no_entries,
}
use native.Mathlib.Nat.{mod-eq_of_lt}

-- The slot written `k` pushes ago.
abbrev pub back : ℕ → ℕ → ℕ → ℕ
back size cur k = if leb k cur then cur - k else cur + size - k

-- The step of the reading loop: one slot down, from the first to the last.
abbrev pub prev : ℕ → ℕ → ℕ
prev size idx = if nat_beq idx 0 then size - 1 else idx - 1

pub back-suc :
    (size cur k : ℕ)
    → suc k < size
    → cur < size
    → prev size (back size cur k) ≡ back size cur (suc k)
back-suc size cur k h lt = ground arith

-- The remainder by which the writing loop advances.
pub next_slot :
    (size cur : ℕ)
    → cur < size
    → ((cur + 1 ≡ size) × ((cur + 1) % size ≡ 0))
      ⊎ ((cur + 1 < size) × ((cur + 1) % size ≡ cur + 1))
next_slot size cur lt = elim (Bool-cases (nat_beq (cur + 1) size)) [
  | inl last ↦ let e : cur + 1 ≡ size = ground arith in inl (e, rw e (grind arith))
  | inr inner ↦ inr (ground arith, mod-eq_of_lt (ground arith))
]

-- Seen from the next slot, the slots of older values are one push further back.
pub back_next :
    (size cur k : ℕ)
    → cur < size
    → suc k < size
    → back size ((cur + 1) % size) (suc k) ≡ back size cur k
back_next size cur k lt h = elim (next_slot size cur lt) [
  | inl (last, e) ↦ rw e (ground arith)
  | inr (inner, e) ↦ rw e (ground arith)
]

pub back_next_ne : (size cur k : ℕ) → cur < size → suc k < size → (cur + 1) % size ≢ back size cur k
back_next_ne size cur k lt h = elim (next_slot size cur lt) [
  | inl (last, e) ↦ rw e (ground arith)
  | inr (inner, e) ↦ rw e (ground arith)
]

module _ {ℓ} {A : Type ℓ} where
  -- The ring holds the last `size` values of a history, newest first.
  pub record IsRing (size cur : ℕ) (history : List A) (slots : Map ℕ A) : Type ℓ where
    pub in_range : cur < size
    pub slot : (k : ℕ) → k < size → slots (back size cur k) ≡ get_elem? history k

  push_slot :
      (size cur : ℕ) (history : List A) (slots : Map ℕ A) (a : A)
      → IsRing size cur history slots
      → (k : ℕ) → k < size
      → insert ((cur + 1) % size) a slots (back size ((cur + 1) % size) k)
        ≡ get_elem? (a ∷ history) k
  push_slot size cur history slots a ring zero lt = ground arith
  push_slot size cur history slots a ring (suc k) lt =
      rw (back_next size cur k ring.in_range lt, ← ring.slot k (omega arith))
        (insert_ne ((cur + 1) % size) (back size cur k) a slots
          (back_next_ne size cur k ring.in_range lt))

  pub push-IsRing :
      (size cur : ℕ) (history : List A) (slots : Map ℕ A) (a : A)
      → IsRing size cur history slots
      → IsRing size ((cur + 1) % size) (a ∷ history) (insert ((cur + 1) % size) a slots)
  push-IsRing size cur history slots a ring = record {
    in_range = elim (next_slot size cur ring.in_range) [
      | inl (last, e) ↦ rw e (omega arith)
      | inr (inner, e) ↦ rw e inner
    ];
    slot = push_slot size cur history slots a ring;
  }

  start_slot :
      (size k : ℕ) (a : A)
      → k < size
      → insert {K = ℕ} 0 a no_entries (back size 0 k) ≡ get_elem? (a ∷ []) k
  start_slot size zero a lt = refl
  start_slot size (suc k) a lt = ground arith

  -- A fresh ring with one value.
  pub start-IsRing : (size : ℕ) (a : A) → 0 < size → IsRing size 0 (a ∷ []) (insert 0 a no_entries)
  start-IsRing size a h = record { in_range = h; slot = λ k lt. start_slot size k a lt }

-- Whether a value is in a list.
abbrev pub contains {ℓ} : {A : Type ℓ} ⦃e : Key A⦄ → A → List A → Bool
contains a [] = false
contains a (x ∷ xs) = x == a || contains a xs

module _ {ℓ} {A : Type ℓ} ⦃e : Key A⦄ where
  -- The body's test: an empty slot is passed over.
  abbrev pub is_stored : A → Option A → Bool
  is_stored a none = false
  is_stored a (some b) = b == a

  -- The reading loop, for the rounds left: it starts at `idx` and stops at the first match.
  unfoldable pub scan : ℕ → ℕ → ℕ → A → Map ℕ A → Bool
  scan zero size idx a slots = false
  scan (suc rounds) size idx a slots =
      let rest = scan rounds size (prev size idx) a slots in
      if is_stored a (slots idx) then true else rest

  contains_step :
      (xs : List A) (k n : ℕ) (a : A) (rest : Bool)
      → rest ≡ contains a (take n (drop (suc k) xs))
      → (if is_stored a (get_elem? xs k) then true else rest)
        ≡ contains a (take (suc n) (drop k xs))
  contains_step [] zero zero a rest h = h
  contains_step [] zero (suc n) a rest h = h
  contains_step [] (suc k) zero a rest h = h
  contains_step [] (suc k) (suc n) a rest h = h
  contains_step (x ∷ xs) zero n a rest h = ground (arith, h)
  contains_step (x ∷ xs) (suc k) n a rest h = contains_step xs k n a rest h

  scan_rest :
      (size cur : ℕ) (history : List A) (slots : Map ℕ A) (a : A)
      → IsRing size cur history slots
      → (rounds k : ℕ) → suc rounds + k ≤ size
      → (rounds + suc k ≤ size
          → scan rounds size (back size cur (suc k)) a slots
            ≡ contains a (take rounds (drop (suc k) history)))
      → scan rounds size (prev size (back size cur k)) a slots
        ≡ contains a (take rounds (drop (suc k) history))
  scan_rest size cur history slots a ring zero k h ih = unfold scan in refl
  scan_rest size cur history slots a ring (suc rounds) k h ih =
      ap (λ i. scan (suc rounds) size i a slots) (back-suc size cur k (omega arith) ring.in_range)
      ∙ ih (omega arith)

  scan_step :
      (size cur : ℕ) (history : List A) (slots : Map ℕ A) (a : A)
      → IsRing size cur history slots
      → (rounds k : ℕ) → suc rounds + k ≤ size
      → scan rounds size (prev size (back size cur k)) a slots
        ≡ contains a (take rounds (drop (suc k) history))
      → scan (suc rounds) size (back size cur k) a slots
        ≡ contains a (take (suc rounds) (drop k history))
  unfolding scan
  scan_step size cur history slots a ring rounds k h rest =
      rw (ring.slot k (omega arith)) (contains_step history k rounds a _ rest)

  scan-contains :
      (size cur : ℕ) (history : List A) (slots : Map ℕ A) (a : A)
      → IsRing size cur history slots
      → (rounds k : ℕ) → rounds + k ≤ size
      → scan rounds size (back size cur k) a slots ≡ contains a (take rounds (drop k history))
  scan-contains size cur history slots a ring zero k h = unfold scan in refl
  scan-contains size cur history slots a ring (suc rounds) k h =
      scan_step size cur history slots a ring rounds k h (
        scan_rest size cur history slots a ring rounds k h
          (λ le. scan-contains size cur history slots a ring rounds (suc k) le))

  -- Reading `size` slots from the newest finds exactly the last `size` values of the history.
  pub scan_lem :
      (size cur : ℕ) (history : List A) (slots : Map ℕ A) (a : A)
      → IsRing size cur history slots
      → scan size size cur a slots ≡ contains a (take size history)
  scan_lem size cur history slots a ring =
      let e : back size cur 0 ≡ cur = ground arith in
      ap (λ i. scan size size i a slots) (sym e)
      ∙ scan-contains size cur history slots a ring size 0 (omega arith)
