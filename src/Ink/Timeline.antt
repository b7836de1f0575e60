-- ===== src/Ink/Timeline.antt =====
-- The epochs of a pool of ink/privacy-pool/lib.rs.
use sl.Prelude.{
  ℕ, zero, suc, ◌+◌, ◌<◌, ◌≡◌, refl, sym, ap, ◌∙◌, true, false, none, some, List, [], ◌∷◌, ◌++◌,
  Text, arith, nat_eq, nat_beq, length, length-append, get_elem?, insert, inl, inr, Bool-cases, Map,
  subst, ◌⊎◌, text_beq,
}
use sl.Prelude.Words.{u32_mod}
use sl.Fallible.{ok, >>=-eq-ok, ok-injective, refuse_if}
use sl.Sparse.{get_elem?-append_self}
use sl.Sparse.Update.{append_ne}
use sl.Ink.State.{PrivacyPool, EpochInfo, Env, Host, Payment, not_governance, zero_address}
use sl.Ink.Tree.{push_root, zero_value}
use sl.Ink.Tree.Append.{Stores-Kept, root_over}
use sl.Ink.Pool
use sl.Ink.Pool.{mark_spent, open_epoch}
use sl.Ink.Pool.Effects.{Moves, transfer-eq-ok, withdraw-eq-ok}
use sl.Ink.Pool.Deposits
use sl.Ink.Pool.Governance
use sl.Ink.Pool.Governance.{is_stranger}
use sl.Ink.Pool.Inflow.{
  with_used, deposit-eq-ok, commit_deposit-eq-ok, reveal_deposit-eq-ok,
  reclaim_expired_commit-eq-ok,
}
use sl.Ink.Pool.Decrees.{Closes, finalize_epoch-eq-ok}
use sl.Ink.Proof.{Pair}
use sl.Ink.Message.{Message, call}
use sl.Ink.History.{History, after, Reachable, created, called, Fits}
use sl.Ink.Reachable.{silent, silent_number, withdrawn, Fits-before, Reachable-IsFaithful}

-- What the epochs are read from.
pub record Epochs : Type 0 where
  pub current_epoch : ℕ
  pub epochs : Map ℕ EpochInfo

abbrev pub epochs_of : PrivacyPool → Epochs
epochs_of s = record { current_epoch = s.current_epoch; epochs = s.epochs }

get_elem?-lt {ℓ} :
    {A : Type ℓ} (xs : List A) (i : ℕ) {a : A} → get_elem? xs i ≡ some a → i < length xs
get_elem?-lt [] i h = cc
get_elem?-lt (x ∷ xs) zero h = omega arith
get_elem?-lt (x ∷ xs) (suc i) h = omega (arith, get_elem?-lt xs i h)

module _ (host : Host) where
  -- The epochs before the current one are closed, each with the root over the leaves of its time; the
  -- current one is open, and none is stored after it.
  pub record IsTimeline (closed : List (List Text)) (e : Epochs) : Type 0 where
    pub current : e.current_epoch ≡ length closed
    pub opened : e.epochs (length closed) ≡ some (open_epoch (length closed))
    pub past :
        (i : ℕ) (log : List Text)
        → get_elem? closed i ≡ some log
        → (block : ℕ) × (e.epochs i
            ≡ some (record {
              epoch_id = i;
              root = root_over host log;
              finalized = true;
              block_finalized = block;
            }))
    pub later : (i : ℕ) → length closed < i → e.epochs i ≡ none

  new-IsTimeline : (env : Env) (d : ℕ) → IsTimeline [] (epochs_of (Pool.new env d))
  unfolding Pool.new
  new-IsTimeline env d = record {
    current = refl;
    opened = refl;
    past = λ i log h. cc;
    later = λ i lt. ground arith;
  }

  -- Messages other than the closing of an epoch leave the epochs alone.
  Moves-epochs :
      (p r : Text) (ns outs : Pair) (s mid last : PrivacyPool)
      → Moves host p r ns outs s mid last
      → epochs_of last ≡ epochs_of s
  unfolding mark_spent
  Moves-epochs p r ns outs s mid last moves =
      let k1 = Stores-Kept host outs.0 (mark_spent ns s) mid moves.first.stores in
      let k2 = Stores-Kept host outs.1 mid last moves.second.stores in
      ground (arith, k1.epochs, k2.epochs, k1.current_epoch, k2.current_epoch)

  -- The epochs after the current one, `n`, is closed.
  abbrev closed_at : ℕ → Text → ℕ → Map ℕ EpochInfo → Map ℕ EpochInfo
  closed_at n root block epochs = insert (n + 1) (open_epoch (n + 1)) (
      insert n (record { epoch_id = n; root = root; finalized = true; block_finalized = block })
        epochs)

  closed_past :
      (closed : List (List Text)) (log : List Text) (e : Epochs) (block i : ℕ) (log' : List Text)
      → IsTimeline closed e
      → get_elem? (closed ++ log ∷ []) i ≡ some log'
      → (block' : ℕ) × (closed_at (length closed) (root_over host log) block e.epochs i
          ≡ some (record {
            epoch_id = i;
            root = root_over host log';
            finalized = true;
            block_finalized = block';
          }))
  closed_past closed log e block i log' line h = elim (Bool-cases (nat_beq (length closed) i)) [
    | inl here ↦
        let same : i ≡ length closed = ground arith in
        let it : some log ≡ some log' =
          sym (get_elem?-append_self closed log)
          ∙ (subst (λ j. get_elem? (closed ++ log ∷ []) j ≡ some log') same h) in
        let e1 : nat_beq (length closed + 1) (length closed) ≡ false = ground arith in
        let e2 : nat_beq (length closed) (length closed) ≡ true = ground arith in
        let it' : log ≡ log' = cc in (block, rw (same, e1, e2, it') refl)
    | inr other ↦
        let before : get_elem? closed i ≡ some log' =
          sym (append_ne closed log i (λ same. ground arith)) ∙ h in
        let (block', stored) = line.past i log' before in
        let lt = get_elem?-lt closed i before in
        let e1 : nat_beq (length closed + 1) i ≡ false = ground arith in
        (block', rw (e1, other) stored)
  ]

  closed_at-IsTimeline :
      (closed : List (List Text)) (log : List Text) (e : Epochs) (block : ℕ)
      → IsTimeline closed e
      → IsTimeline (closed ++ log ∷ []) (record {
        current_epoch = length closed + 1;
        epochs = closed_at (length closed) (root_over host log) block e.epochs;
      })
  closed_at-IsTimeline closed log e block line =
      let size : length (closed ++ log ∷ []) ≡ length closed + 1 =
        length-append closed (log ∷ []) ∙ refl in
      let e1 : nat_beq (length closed + 1) (length closed + 1) ≡ true = ground arith in
      record {
        current = sym size;
        opened = rw (size, e1) refl;
        past = λ i log' h. closed_past closed log e block i log' line h;
        later = λ i lt.
            let far : nat_beq (length closed + 1) i ≡ false = ground (arith, size) in
            let far' : nat_beq (length closed) i ≡ false = ground (arith, size) in
            rw (far, far') (line.later i (omega (arith, size)));
      }

  closing-IsTimeline :
      (env : Env) (closed : List (List Text)) (log : List Text) (s s' : PrivacyPool)
      → Closes host env s s'
      → s.current_root ≡ root_over host log
      → length closed + 1 < u32_mod
      → IsTimeline closed (epochs_of s)
      → IsTimeline (closed ++ log ∷ []) (epochs_of s')
  unfolding open_epoch
  closing-IsTimeline env closed log s s' done root few line =
      let next : done.next ≡ length closed + 1 = omega (arith, done.counts, line.current) in
      rw (ap epochs_of done.written, next, root, line.current)
        (closed_at-IsTimeline closed log (epochs_of s) env.block_number line)

  same-IsTimeline :
      (closed : List (List Text)) (s s' : PrivacyPool)
      → epochs_of s' ≡ epochs_of s
      → IsTimeline closed (epochs_of s)
      → IsTimeline closed (epochs_of s')
  same-IsTimeline closed s s' same line = rw same line

  -- A message other than the closing of an epoch.
  call-epochs :
      (env : Env) (m : Message) (h : History) (s : PrivacyPool) (payments : List Payment)
      (s' : PrivacyPool)
      → call host env m s ≡ ok (payments, s')
      → (m ≡ Message.finalize_epoch)
        ⊎ ((epochs_of s' ≡ epochs_of s) × ((after env m payments h).closed ≡ h.closed))
  unfolding call push_root Governance.sync_remote_root Governance.pause Governance.unpause
      Governance.transfer_governance
  call-epochs env (Message.deposit c) h s payments s' e =
      let (n, done) = silent_number (Deposits.deposit host env c s) e in
      let it = deposit-eq-ok host env c s (n, s') done in
      let kept = Stores-Kept host c s it.mid it.stores in
      inr (ap epochs_of it.written ∙ ground (arith, kept.epochs, kept.current_epoch), refl)
  call-epochs env (Message.transfer p r ns outs) h s payments s' e =
      let (mid, last, moves, same) =
        transfer-eq-ok host p r ns outs s s' (silent (Pool.transfer host p r ns outs s) e) in
      inr (ap epochs_of same ∙ Moves-epochs p r ns outs s mid last moves, refl)
  call-epochs env (Message.withdraw p r ns outs to v) h s payments s' e =
      let (out, done, paid, same) = withdrawn host env p r ns outs to v s e in
      let (mid, last, moves, covered, made) = withdraw-eq-ok host env p r ns outs to v s out done in
      inr (
        ap epochs_of same
            ∙ (ap (λ (t : Payment × PrivacyPool). epochs_of t.1) made
                ∙ Moves-epochs p r ns outs s mid last moves),
        refl,
      )
  call-epochs env Message.finalize_epoch h s payments s' e = inl refl
  call-epochs env (Message.sync_remote_root chain id root) h s payments s' e =
      let done = silent (Governance.sync_remote_root env chain id root s) e in
      let (u, e', h') = >>=-eq-ok (refuse_if (is_stranger env s) not_governance) _ done in
      inr (ap epochs_of (sym (ok-injective h')), refl)
  call-epochs env (Message.commit_deposit k) h s payments s' e =
      let done = silent (Deposits.commit_deposit host env k s) e in
      inr (ap epochs_of (commit_deposit-eq-ok host env k s s' done).written, refl)
  call-epochs env (Message.reveal_deposit k c) h s payments s' e =
      let (n, done) = silent_number (Deposits.reveal_deposit host env k c s) e in
      let it = reveal_deposit-eq-ok host env k c s (n, s') done in
      let kept = Stores-Kept host c (with_used k it.commit s) it.mid it.stores in
      inr (ap epochs_of it.written ∙ ground (arith, kept.epochs, kept.current_epoch), refl)
  call-epochs env (Message.reclaim_expired_commit k) h s payments s' e =
      let done = silent (Deposits.reclaim_expired_commit env k s) e in
      inr (ap epochs_of (reclaim_expired_commit-eq-ok env k s s' done).written, refl)
  call-epochs env Message.pause h s payments s' e =
      let done = silent (Governance.pause env s) e in
      let (u, e', h') = >>=-eq-ok (refuse_if (is_stranger env s) not_governance) _ done in
      inr (ap epochs_of (sym (ok-injective h')), refl)
  call-epochs env Message.unpause h s payments s' e =
      let done = silent (Governance.unpause env s) e in
      let (u, e', h') = >>=-eq-ok (refuse_if (is_stranger env s) not_governance) _ done in
      inr (ap epochs_of (sym (ok-injective h')), refl)
  call-epochs env (Message.transfer_governance g) h s payments s' e =
      let done = silent (Governance.transfer_governance env g s) e in
      let (u, e', h') = >>=-eq-ok (refuse_if (is_stranger env s) not_governance) _ done in
      let (u', e'', h'') = >>=-eq-ok (refuse_if (text_beq g zero_value) zero_address) _ h' in
      inr (ap epochs_of (sym (ok-injective h'')), refl)

  finalized :
      (env : Env) (s : PrivacyPool) {payments : List Payment} {s' : PrivacyPool}
      → call host env Message.finalize_epoch s ≡ ok (payments, s')
      → Closes host env s s'
  unfolding call
  finalized env s {s' = s'} e =
      let (n, done) = silent_number (Governance.finalize_epoch host env s) e in
      finalize_epoch-eq-ok host env s (n, s') done

  step-IsTimeline :
      (env : Env) (m : Message) (h : History) (s : PrivacyPool) (payments : List Payment)
      (s' : PrivacyPool)
      → call host env m s ≡ ok (payments, s')
      → s.current_root ≡ root_over host h.leaves
      → Fits (after env m payments h)
      → IsTimeline h.closed (epochs_of s)
      → IsTimeline (after env m payments h).closed (epochs_of s')
  step-IsTimeline env m h s payments s' e root fits line =
      elim (call-epochs env m h s payments s' e) [
        | inl closing ↦
            subst
              (λ m'.
                call host env m' s ≡ ok (payments, s')
                → Fits (after env m' payments h)
                → IsTimeline (after env m' payments h).closed (epochs_of s'))
              (sym closing)
              (λ e' fits'.
                closing-IsTimeline env h.closed h.leaves s s' (finalized env s e') root
                  (omega (arith, length-append h.closed (h.leaves ∷ []), fits'.few_epochs)) line)
              e fits
        | inr (same, closed) ↦ rw (closed, same) line
      ]

  -- In a pool that messages have reached, with fewer than 2 ^ 32 leaves and epochs and 2 ^ 128 tokens,
  -- every epoch before the current one is stored as finalized, with the root over all leaves of the time
  -- it was closed; the current one is stored and open; and none is stored after it.
  pub epochs-Reachable :
      {h : History} {s : PrivacyPool}
      → Reachable host h s
      → Fits h
      → IsTimeline h.closed (epochs_of s)
  epochs-Reachable (created env d) fits = new-IsTimeline env d
  epochs-Reachable (called {h} {s} reached env m payments s' e) fits =
      let before = Fits-before host env m payments h fits in
      step-IsTimeline env m h s payments s' e (Reachable-IsFaithful host reached before).tree.root
        fits (epochs-Reachable reached before)
