-- ===== src/Distinct.antt =====
-- Lists of texts in which nothing stands twice.
use sl.Prelude.{
  ◌≡◌, refl, Bool, true, false, not, ◌&&◌, ◌||◌, List, [], ◌∷◌, ◌++◌, Text, arith, text_eq,
  text_beq_iff,
}
use sl.Ring.{contains}

-- A list in which nothing stands twice.
abbrev pub is_distinct : List Text → Bool
is_distinct [] = true
is_distinct (n ∷ ns) = not (contains n ns) && is_distinct ns

pub contains-append :
    (k : Text) (xs ys : List Text) → contains k (xs ++ ys) ≡ contains k xs || contains k ys
contains-append k [] ys = refl
contains-append k (x ∷ xs) ys = ground (arith, contains-append k xs ys)

-- A new entry at the end.
pub is_distinct-append_one :
    (xs : List Text) (n : Text)
    → is_distinct xs ≡ true
    → contains n xs ≡ false
    → is_distinct (xs ++ n ∷ []) ≡ true
is_distinct-append_one [] n h k = refl
is_distinct-append_one (x ∷ xs) n h k = ground (
  arith,
  is_distinct-append_one xs n,
  contains-append x xs (n ∷ []),
  text_beq_iff x n,
  text_beq_iff n x,
)
