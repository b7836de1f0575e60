-- ===== src/Ink/Tree/History.antt =====
-- The roots that `is_known_root` of ink/privacy-pool/lib.rs knows: the current one and the last pushed.
use sl.Prelude.{
  ℕ, zero, suc, ◌+◌, ◌%◌, ◌<◌, ◌≤◌, ◌≡◌, refl, sym, ap, ◌∙◌, Bool, true, false, ◌||◌, Option, none,
  some, List, [], ◌∷◌, Text, arith, get_elem?, take, Map, no_entries, nat_eq, text_eq, text_beq,
  nat_beq, text_beq_iff, inl, inr, Bool-cases,
}
use sl.Ring.{back, IsRing, push-IsRing, contains}
use sl.Ink.State.{PrivacyPool}
use sl.Ink.Tree.{root_history_size, holds, scan_history, is_known_root, push_root}

-- The slots hold what was pushed, newest first.
pub record HasHistory (pushed : List Text) (s : PrivacyPool) : Type 0 where
  pub newest : ℕ
  pub ring : IsRing root_history_size newest pushed s.root_history
  pub cursor : s.root_history_cursor ≡ (newest + 1) % root_history_size

pub start-IsRing : IsRing {A = Text} root_history_size 99 [] no_entries
start-IsRing = record { in_range = omega arith; slot = λ k lt. refl }

pub push_root-HasHistory :
    (pushed : List Text) (s : PrivacyPool)
    → HasHistory pushed s
    → HasHistory (s.current_root ∷ pushed) (push_root s)
unfolding push_root
push_root-HasHistory pushed s past = record {
  newest = (past.newest + 1) % root_history_size;
  ring =
      rw past.cursor
        (push-IsRing root_history_size past.newest pushed s.root_history s.current_root past.ring);
  cursor = ap (λ (t : ℕ). (t + 1) % root_history_size) past.cursor;
}

holds_found : (o : Option Text) (root : Text) → holds o root ≡ true → o ≡ some root
holds_found none root h = cc
holds_found (some stored) root h = ap some ((text_beq_iff stored root).0 h)

-- What the scan has found.
scan_found :
    (left i : ℕ) (root : Text) (slots : Map ℕ Text)
    → scan_history left i root slots ≡ true
    → (j : ℕ) × (j < i + left) × (slots j ≡ some root)
unfolding scan_history
scan_found zero i root slots h = cc
scan_found (suc left) i root slots h = elim (Bool-cases (holds (slots i) root)) [
  | inl here ↦ (i, omega arith, holds_found (slots i) root here)
  | inr not_here ↦
      let (j, lt, e) = scan_found left (suc i) root slots (ground (arith, h, not_here)) in
      (j, omega arith, e)
]

scan_finds :
    (left i j : ℕ) (root : Text) (slots : Map ℕ Text)
    → i ≤ j
    → j < i + left
    → slots j ≡ some root
    → scan_history left i root slots ≡ true
unfolding scan_history
scan_finds zero i j root slots le lt e = absurd (omega arith)
scan_finds (suc left) i j root slots le lt e = elim (Bool-cases (nat_beq i j)) [
  | inl here ↦ let same : i ≡ j = ground arith in rw (same, e, (text_beq_iff root root).1 refl)
  | inr further ↦
      let rest = scan_finds left (suc i) j root slots (ground arith) (omega arith) e in
      ground (arith, rest)
]

contains_found :
    (n : ℕ) (xs : List Text) (a : Text)
    → contains a (take n xs) ≡ true
    → (k : ℕ) × (k < n) × (get_elem? xs k ≡ some a)
contains_found zero xs a h = cc
contains_found (suc n) [] a h = cc
contains_found (suc n) (x ∷ xs) a h = elim (Bool-cases (text_beq x a)) [
  | inl here ↦ (0, omega arith, ap some ((text_beq_iff x a).0 here))
  | inr further ↦
      let (k, lt, e) = contains_found n xs a (ground (arith, h, further)) in (suc k, omega arith, e)
]

contains_finds :
    (n k : ℕ) (xs : List Text) (a : Text)
    → k < n
    → get_elem? xs k ≡ some a
    → contains a (take n xs) ≡ true
contains_finds zero k xs a lt e = absurd (omega arith)
contains_finds (suc n) k [] a lt e = cc
contains_finds (suc n) zero (x ∷ xs) a lt e = ground (arith, text_beq_iff x a)
contains_finds (suc n) (suc k) (x ∷ xs) a lt e =
    ground (arith, contains_finds n k xs a (omega arith) e)

back-back : (size cur j : ℕ) → cur < size → j < size → back size cur (back size cur j) ≡ j
back-back size cur j h lt = ground arith

back_lt : (size cur j : ℕ) → cur < size → j < size → back size cur j < size
back_lt size cur j h lt = ground arith

same_truth : (a b : Bool) → (a ≡ true → b ≡ true) → (b ≡ true → a ≡ true) → a ≡ b
same_truth true b f g = sym (f refl)
same_truth false true f g = g refl
same_truth false false f g = refl

scan-contains :
    (cur : ℕ) (pushed : List Text) (slots : Map ℕ Text) (root : Text)
    → IsRing root_history_size cur pushed slots
    → scan_history root_history_size 0 root slots ≡ contains root (take root_history_size pushed)
scan-contains cur pushed slots root ring =
    same_truth (scan_history root_history_size 0 root slots)
      (contains root (take root_history_size pushed))
      (λ h.
        let (j, lt, e) = scan_found root_history_size 0 root slots h in
        let k : ℕ = back root_history_size cur j in
        contains_finds root_history_size k pushed root
          (back_lt root_history_size cur j ring.in_range (omega arith))
          (sym (ring.slot k (back_lt root_history_size cur j ring.in_range (omega arith)))
            ∙ (ap slots (back-back root_history_size cur j ring.in_range (omega arith)) ∙ e)))
      (λ h.
        let (k, lt, e) = contains_found root_history_size pushed root h in
        scan_finds root_history_size 0 (back root_history_size cur k) root slots (omega arith)
          (omega (arith, back_lt root_history_size cur k ring.in_range lt)) (ring.slot k lt ∙ e))

-- A root is known exactly if it is the current one or one of the last 100 that were pushed.
pub is_known_root-HasHistory :
    (pushed : List Text) (s : PrivacyPool) (root : Text)
    → HasHistory pushed s
    → is_known_root root s
      ≡ (text_beq root s.current_root || contains root (take root_history_size pushed))
unfolding is_known_root
is_known_root-HasHistory pushed s root past =
    ap (λ (b : Bool). text_beq root s.current_root || b)
      (scan-contains past.newest pushed s.root_history root past.ring)
