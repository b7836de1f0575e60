-- ===== src/Ink/Steps.antt =====
-- Each message of ink/privacy-pool/lib.rs that moves tokens, leaves or commits keeps what the state stands
-- for.
use sl.Prelude.{
  ℕ, ◌+◌, ◌<◌, ◌≡◌, ◌≢◌, refl, sym, ap, ◌∙◌, Bool, true, false, List, [], ◌∷◌, ◌++◌, Text, arith,
  Map, text_eq, nat_eq, text_beq_iff, length, length-append,
}
use sl.Prelude.Words.{u32_mod}
use sl.Ring.{contains}
use sl.Merkle.{unwrap_or}
use sl.Distinct.{is_distinct, contains-append, is_distinct-append_one}
use sl.Ink.State.{PrivacyPool, CommitRecord, Env, Host}
use sl.Ink.Tree.{is_some, push_root}
use sl.Ink.Tree.Append.{HasLeaves, HasLeaves-same, Stores-HasLeaves, Stores-Kept}
use sl.Ink.Proof.{Pair}
use sl.Ink.Pool.{is_nullifier_spent, mark_spent}
use sl.Ink.Pool.Effects.{Moves}
use sl.Ink.Pool.Inflow.{Brings, Commits, Reveals, Reclaims, Uses, with_used}
use sl.Ink.Message.{Message}
use sl.Ink.History.{History, after, spend, with_outputs, Fits}
use sl.Ink.Faithful.{
  is_used, roots_over, IsFaithful, marks_after, pushes, push_root-HasLeaves, new_leaf-is_distinct,
  Adds-HasOutputs,
}

pub spent_same :
    (s s' : PrivacyPool) (k : Text)
    → s'.nullifiers ≡ s.nullifiers
    → is_nullifier_spent s' k ≡ is_nullifier_spent s k
unfolding is_nullifier_spent
spent_same s s' k e = ap (λ (m : Map Text Bool). unwrap_or false (m k)) e

module _ (host : Host) where
  spent_once :
      (ns : Pair) (seen : List Text)
      → is_distinct seen ≡ true
      → contains ns.0 seen ≡ false
      → contains ns.1 seen ≡ false
      → ns.0 ≢ ns.1
      → is_distinct ((seen ++ ns.0 ∷ []) ++ ns.1 ∷ []) ≡ true
  spent_once (n0, n1) seen once new0 new1 ne =
      is_distinct-append_one (seen ++ n0 ∷ []) n1 (is_distinct-append_one seen n0 once new0)
        (ground (arith, contains-append n1 seen (n0 ∷ []), text_beq_iff n0 n1, new1))

  -- Before the payment the balance is as before.
  pub Moves-balance :
      (p r : Text) (ns outs : Pair) (s mid last : PrivacyPool)
      → Moves host p r ns outs s mid last
      → last.pool_balance ≡ s.pool_balance
  unfolding mark_spent
  Moves-balance p r ns outs s mid last moves =
      (Stores-Kept host outs.1 mid last moves.second.stores).pool_balance
      ∙ (Stores-Kept host outs.0 (mark_spent ns s) mid moves.first.stores).pool_balance

  -- A transfer, or a withdrawal, that leaves the balance `b` when all payments are `paid`.
  pub Moves-IsFaithful :
      (p r : Text) (ns outs : Pair) (h : History) (s mid last : PrivacyPool) (b paid : ℕ)
      → Moves host p r ns outs s mid last
      → IsFaithful host h s
      → length (with_outputs outs h.leaves) < u32_mod
      → b + paid ≡ h.received
      → IsFaithful host
          (record (spend ns outs h) { paid = paid })
          (push_root (record last { pool_balance = b }))
  unfolding push_root mark_spent
  Moves-IsFaithful p r ns outs h s mid last b paid moves stands room sum =
      let marked : PrivacyPool = mark_spent ns s in
      let start : HasLeaves host h.leaves marked =
        HasLeaves-same host h.leaves s marked refl refl refl refl stands.tree in
      let made =
        Adds-HasOutputs host outs h.leaves marked mid last moves.first moves.second start
          stands.new_leaves room in
      let paying : PrivacyPool = record last { pool_balance = b } in
      let tree : HasLeaves host (with_outputs outs h.leaves) paying =
        HasLeaves-same host (with_outputs outs h.leaves) last paying refl refl refl refl
          made.tree in
      record {
        tree = push_root-HasLeaves host (with_outputs outs h.leaves) paying tree;
        past =
            pushes host outs.0 (with_outputs outs h.leaves) (roots_over host h.versions) s paying
              tree made.kept.root_history made.kept.root_history_cursor stands.past;
        marks = λ k.
            spent_same marked (push_root paying) k made.kept.nullifiers
            ∙ marks_after host ns h.spent s stands.marks k;
        once =
            spent_once ns h.spent stands.once (sym (stands.marks ns.0) ∙ moves.unspent_0)
              (sym (stands.marks ns.1) ∙ moves.unspent_1) moves.bound.nullifiers_differ;
        new_leaves = made.new;
        commits = λ k. rw made.kept.pending_commits (stands.commits k);
        used_once = stands.used_once;
        balance = sum;
      }

  pub Brings-IsFaithful :
      (env : Env) (c : Text) (h : History) (s s' : PrivacyPool)
      → Brings host env c s s'
      → IsFaithful host h s
      → Fits (after env (Message.deposit c) [] h)
      → IsFaithful host (after env (Message.deposit c) [] h) s'
  unfolding push_root
  Brings-IsFaithful env c h s s' done stands fits =
      let size = length-append h.leaves (c ∷ []) in
      let kept = Stores-Kept host c s done.mid done.stores in
      let paying : PrivacyPool = record (done.mid) { pool_balance = done.balance } in
      let tree : HasLeaves host (h.leaves ++ c ∷ []) paying =
        HasLeaves-same host (h.leaves ++ c ∷ []) done.mid paying refl refl refl refl (
          Stores-HasLeaves host c h.leaves s done.mid done.stores stands.tree
            (omega (arith, size, fits.few_leaves))) in
      let sum : done.balance + h.paid ≡ h.received + env.transferred_value =
        omega (arith, done.sum, kept.pool_balance, stands.balance, fits.few_tokens) in
      rw done.written (record {
        tree = push_root-HasLeaves host (h.leaves ++ c ∷ []) paying tree;
        past =
            pushes host c (h.leaves ++ c ∷ []) (roots_over host h.versions) s paying tree
              kept.root_history kept.root_history_cursor stands.past;
        marks = λ k. spent_same s (push_root paying) k kept.nullifiers ∙ stands.marks k;
        once = stands.once;
        new_leaves =
            new_leaf-is_distinct host c h.leaves s stands.tree done.fresh stands.new_leaves;
        commits = λ k. rw kept.pending_commits (stands.commits k);
        used_once = stands.used_once;
        balance = sum;
      })

  pub Commits-IsFaithful :
      (env : Env) (c : Text) (h : History) (s s' : PrivacyPool)
      → Commits host env c s s'
      → IsFaithful host h s
      → Fits (after env (Message.commit_deposit c) [] h)
      → IsFaithful host (after env (Message.commit_deposit c) [] h) s'
  unfolding is_some
  Commits-IsFaithful env c h s s' done stands fits = rw done.written (record {
    tree = HasLeaves-same host h.leaves s _ refl refl refl refl stands.tree;
    past = record {
      newest = stands.past.newest;
      ring = stands.past.ring;
      cursor = stands.past.cursor;
    };
    marks = λ k. spent_same s _ k refl ∙ stands.marks k;
    once = stands.once;
    new_leaves = stands.new_leaves;
    commits = λ k. ground (arith, stands.commits k, text_beq_iff c k, done.fresh);
    used_once = stands.used_once;
    balance = omega (arith, done.sum, stands.balance, fits.few_tokens);
  })

  -- A commit that is used had not been used before.
  used_now :
      (k : Text) (commit : CommitRecord) (h : History) (s : PrivacyPool)
      → Uses k commit s
      → IsFaithful host h s
      → (is_distinct (h.used ++ k ∷ []) ≡ true)
        × ((j : Text)
            → is_used ((with_used k commit s).pending_commits j) ≡ contains j (h.used ++ k ∷ []))
  used_now k commit h s uses stands = (
    is_distinct-append_one h.used k stands.used_once
        (sym (stands.commits k) ∙ (rw uses.pending uses.unused)),
    λ j. ground (arith, stands.commits j, contains-append j h.used (k ∷ [])),
  )

  pub Reveals-IsFaithful :
      (env : Env) (k c : Text) (h : History) (s s' : PrivacyPool)
      → Reveals host env k c s s'
      → IsFaithful host h s
      → Fits (after env (Message.reveal_deposit k c) [] h)
      → IsFaithful host (after env (Message.reveal_deposit k c) [] h) s'
  unfolding push_root
  Reveals-IsFaithful env k c h s s' done stands fits =
      let size = length-append h.leaves (c ∷ []) in
      let marked : PrivacyPool = with_used k done.commit s in
      let kept = Stores-Kept host c marked done.mid done.stores in
      let tree : HasLeaves host (h.leaves ++ c ∷ []) done.mid =
        Stores-HasLeaves host c h.leaves marked done.mid done.stores
          (HasLeaves-same host h.leaves s marked refl refl refl refl stands.tree)
          (omega (arith, size, fits.few_leaves)) in
      let marking = used_now k done.commit h s done.uses stands in
      rw done.written (record {
        tree = push_root-HasLeaves host (h.leaves ++ c ∷ []) done.mid tree;
        past =
            pushes host c (h.leaves ++ c ∷ []) (roots_over host h.versions) s done.mid tree
              kept.root_history kept.root_history_cursor stands.past;
        marks = λ j. spent_same s (push_root done.mid) j kept.nullifiers ∙ stands.marks j;
        once = stands.once;
        new_leaves =
            new_leaf-is_distinct host c h.leaves s stands.tree done.fresh stands.new_leaves;
        commits = λ j. rw kept.pending_commits (marking.1 j);
        used_once = marking.0;
        balance = ap (λ (n : ℕ). n + h.paid) kept.pool_balance ∙ stands.balance;
      })

  pub Reclaims-IsFaithful :
      (env : Env) (k : Text) (h : History) (s s' : PrivacyPool)
      → Reclaims env k s s'
      → IsFaithful host h s
      → IsFaithful host (after env (Message.reclaim_expired_commit k) [] h) s'
  Reclaims-IsFaithful env k h s s' done stands =
      let marking = used_now k done.commit h s done.uses stands in
      rw done.written (record {
        tree = HasLeaves-same host h.leaves s _ refl refl refl refl stands.tree;
        past = record {
          newest = stands.past.newest;
          ring = stands.past.ring;
          cursor = stands.past.cursor;
        };
        marks = λ j. spent_same s _ j refl ∙ stands.marks j;
        once = stands.once;
        new_leaves = stands.new_leaves;
        commits = marking.1;
        used_once = marking.0;
        balance = stands.balance;
      })
