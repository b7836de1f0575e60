-- ===== src/Near/Nullifiers/Spend.antt =====
-- What the spending loop checks and writes.
use sl.Prelude.{
  ◌+◌, ◌<◌, ◌≤◌, ◌≡◌, refl, sym, ◌∙◌, Bool, true, false, not, ◌&&◌, ◌||◌, some, List, [], ◌∷◌, ◌++◌,
  Text, arith, ltb, lt→ltb, length, length-append, Map, insert, text_eq, nat_eq,
}
use mathlib.Core.List.{append_assoc, append-nil}
use sl.Ring.{contains}
use sl.Distinct.{is_distinct, contains-append, is_distinct-append_one}
use sl.Merkle.{unwrap_or}
use sl.Panic.{>>=-eq-some, some-injective, assert}
use sl.Near.State.{PrivacyPool}
use sl.Near.Nullifiers.{max_nullifiers_per_epoch, is_some, spend_all, check_and_spend_nullifiers}

-- The marks of some nullifiers added, the first one first.
abbrev pub marked : List Text → Map Text Bool → Map Text Bool
marked [] spent = spent
marked (n ∷ ns) spent = marked ns (insert n true spent)

-- No nullifier is marked, and none stands twice.
abbrev pub all_fresh : List Text → Map Text Bool → Bool
all_fresh [] spent = true
all_fresh (n ∷ ns) spent = not (is_some (spent n)) && all_fresh ns (insert n true spent)

pub record Spends (ns : List Text) (spent : Map Text Bool) (nuls : List Text)
    (out : Map Text Bool × List Text) : Type 0 where
  pub fresh : all_fresh ns spent ≡ true
  pub written : out ≡ (marked ns spent, nuls ++ ns)

pub spend_all-eq-some :
    (ns : List Text) (spent : Map Text Bool) (nuls : List Text) (out : Map Text Bool × List Text)
    → spend_all ns spent nuls ≡ some out
    → Spends ns spent nuls out
unfolding spend_all
spend_all-eq-some [] spent nuls out h = record {
  fresh = refl;
  written = sym (some-injective h) ∙ (rw (append-nil nuls) refl);
}
spend_all-eq-some (n ∷ ns) spent nuls out h =
    let (u, e1, h1) = >>=-eq-some (assert (not (is_some (spent n)))) _ h in
    let (v, e2, h2) = >>=-eq-some (assert (ltb (length nuls) max_nullifiers_per_epoch)) _ h1 in
    let rest = spend_all-eq-some ns (insert n true spent) (nuls ++ n ∷ []) out h2 in
    record {
      fresh = ground (arith, e1, rest.fresh);
      written = rest.written ∙ (rw (append_assoc nuls (n ∷ []) ns) refl);
    }

pub spend_all-returns :
    (ns : List Text) (spent : Map Text Bool) (nuls : List Text)
    → all_fresh ns spent ≡ true
    → length nuls + length ns ≤ max_nullifiers_per_epoch
    → spend_all ns spent nuls ≡ some (marked ns spent, nuls ++ ns)
unfolding spend_all
spend_all-returns [] spent nuls fresh short = rw (append-nil nuls) refl
spend_all-returns (n ∷ ns) spent nuls fresh short =
    let first : not (is_some (spent n)) ≡ true = ground arith in
    let rest : all_fresh ns (insert n true spent) ≡ true = ground arith in
    let room : length nuls < max_nullifiers_per_epoch = omega arith in
    rw (first, lt→ltb _ _ room)
      (spend_all-returns ns (insert n true spent) (nuls ++ n ∷ []) rest
          (omega (arith, length-append nuls (n ∷ [])))
        ∙ (rw (append_assoc nuls (n ∷ []) ns) refl))

-- The marks after the loop.
pub marked-lookup :
    (ns : List Text) (spent : Map Text Bool) (k : Text)
    → is_some (marked ns spent k) ≡ contains k ns || is_some (spent k)
marked-lookup [] spent k = refl
marked-lookup (n ∷ ns) spent k = ground (arith, marked-lookup ns (insert n true spent) k)

-- Where the marks are those of a list without repetition, fresh nullifiers extend it without
-- repetition.
pub all_fresh-is_distinct :
    (ns seen : List Text) (spent : Map Text Bool)
    → ((k : Text) → is_some (spent k) ≡ contains k seen)
    → is_distinct seen ≡ true
    → all_fresh ns spent ≡ true
    → is_distinct (seen ++ ns) ≡ true
all_fresh-is_distinct [] seen spent marks once fresh = rw (append-nil seen) once
all_fresh-is_distinct (n ∷ ns) seen spent marks once fresh =
    let new : contains n seen ≡ false = ground (arith, marks n) in
    let e : (seen ++ n ∷ []) ++ ns ≡ seen ++ n ∷ ns = append_assoc seen (n ∷ []) ns in
    rw (← e) (
      all_fresh-is_distinct ns (seen ++ n ∷ []) (insert n true spent)
        (λ k. ground (arith, marks k, contains-append k seen (n ∷ [])))
        (is_distinct-append_one seen n once new) (ground arith))

-- The state after the nullifiers are spent.
abbrev pub spent_state : List Text → PrivacyPool → PrivacyPool
spent_state ns s = record s {
  nullifier_spent = marked ns s.nullifier_spent;
  epoch_nullifiers =
      insert s.current_epoch_id (unwrap_or [] (s.epoch_nullifiers s.current_epoch_id) ++ ns)
        s.epoch_nullifiers;
}

pub check_and_spend_nullifiers-eq-some :
    (ns : List Text) (s s' : PrivacyPool)
    → check_and_spend_nullifiers ns s ≡ some s'
    → (all_fresh ns s.nullifier_spent ≡ true) × (s' ≡ spent_state ns s)
unfolding check_and_spend_nullifiers
check_and_spend_nullifiers-eq-some ns s s' h =
    let nuls = unwrap_or [] (s.epoch_nullifiers s.current_epoch_id) in
    let (out, e, h1) = >>=-eq-some (spend_all ns s.nullifier_spent nuls) _ h in
    let done = spend_all-eq-some ns s.nullifier_spent nuls out e in
    (done.fresh, sym (some-injective h1) ∙ (rw done.written refl))

pub check_and_spend_nullifiers-returns :
    (ns : List Text) (s : PrivacyPool)
    → all_fresh ns s.nullifier_spent ≡ true
    → length (unwrap_or [] (s.epoch_nullifiers s.current_epoch_id)) + length ns
      ≤ max_nullifiers_per_epoch
    → check_and_spend_nullifiers ns s ≡ some (spent_state ns s)
unfolding check_and_spend_nullifiers
check_and_spend_nullifiers-returns ns s fresh short =
    rw
      (spend_all-returns ns s.nullifier_spent (unwrap_or [] (s.epoch_nullifiers s.current_epoch_id))
        fresh short)
      refl

spend_all-short :
    (n : Text) (ns : List Text) (spent : Map Text Bool) (nuls : List Text)
    (out : Map Text Bool × List Text)
    → spend_all (n ∷ ns) spent nuls ≡ some out
    → length nuls + length (n ∷ ns) ≤ max_nullifiers_per_epoch
unfolding spend_all
spend_all-short n [] spent nuls out h = ground (arith, h)
spend_all-short n (m ∷ ns) spent nuls out h =
    let (u, e1, h1) = >>=-eq-some (assert (not (is_some (spent n)))) _ h in
    let (v, e2, h2) = >>=-eq-some (assert (ltb (length nuls) max_nullifiers_per_epoch)) _ h1 in
    omega (
      arith,
      spend_all-short m ns (insert n true spent) (nuls ++ n ∷ []) out h2,
      length-append nuls (n ∷ []),
    )

-- A nullifier and those after it were accepted only if the epoch's list had room for them.
pub check_and_spend_nullifiers-short :
    (n : Text) (ns : List Text) (s s' : PrivacyPool)
    → check_and_spend_nullifiers (n ∷ ns) s ≡ some s'
    → length (unwrap_or [] (s.epoch_nullifiers s.current_epoch_id)) + length (n ∷ ns)
      ≤ max_nullifiers_per_epoch
unfolding check_and_spend_nullifiers
check_and_spend_nullifiers-short n ns s s' h =
    let nuls = unwrap_or [] (s.epoch_nullifiers s.current_epoch_id) in
    let (out, e, h1) = >>=-eq-some (spend_all (n ∷ ns) s.nullifier_spent nuls) _ h in
    spend_all-short n ns s.nullifier_spent nuls out e
