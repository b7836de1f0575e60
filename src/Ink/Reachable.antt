-- ===== src/Ink/Reachable.antt =====
-- What holds in every state that a pool of ink/privacy-pool/lib.rs reaches.
use sl.Prelude.{
  ℕ, ◌+◌, ◌-◌, ◌<◌, ◌≡◌, sym, ap, ◌∙◌, List, [], ◌∷◌, ◌++◌, Text, arith, text_eq, length,
  length-append,
}
use sl.Prelude.Words.{u32_mod}
use sl.Fallible.{ok, >>=-eq-ok, ok-injective}
use sl.Ink.State.{PrivacyPool, Env, Host, Payment, Outcome}
use sl.Ink.Tree.Append.{HasLeaves-same}
use sl.Ink.Proof.{Pair}
use sl.Ink.Pool
use sl.Ink.Pool.{is_nullifier_spent}
use sl.Ink.Pool.Effects.{transfer-eq-ok, withdraw-eq-ok}
use sl.Ink.Pool.Deposits
use sl.Ink.Pool.Governance
use sl.Ink.Pool.Inflow.{
  deposit-eq-ok, commit_deposit-eq-ok, reveal_deposit-eq-ok, reclaim_expired_commit-eq-ok,
}
use sl.Ink.Pool.Decrees.{
  Funds, funds, finalize_epoch-funds, sync_remote_root-funds, pause-funds, unpause-funds,
  transfer_governance-funds,
}
use sl.Ink.Message.{Message, call, quiet, numbered}
use sl.Ink.History.{History, after, with_outputs, Reachable, created, called, Fits}
use sl.Ink.Faithful.{IsFaithful, new-IsFaithful}
use sl.Ink.Steps.{
  spent_same, Moves-balance, Moves-IsFaithful, Brings-IsFaithful, Commits-IsFaithful,
  Reveals-IsFaithful, Reclaims-IsFaithful,
}

-- The state of a message that pays nothing.
pub silent :
    (o : Outcome PrivacyPool) {payments : List Payment} {s' : PrivacyPool}
    → quiet o ≡ ok (payments, s')
    → o ≡ ok s'
silent o h =
    let (t, e, h') = >>=-eq-ok o _ h in
    e ∙ ap ok (ap (λ (p : List Payment × PrivacyPool). p.1) (ok-injective h'))

pub silent_number :
    (o : Outcome (ℕ × PrivacyPool)) {payments : List Payment} {s' : PrivacyPool}
    → numbered o ≡ ok (payments, s')
    → (n : ℕ) × (o ≡ ok (n, s'))
silent_number o h =
    let (t, e, h') = >>=-eq-ok o _ h in
    (
      t.0,
      e
          ∙ ap (λ (u : PrivacyPool). ok (t.0, u))
              (ap (λ (p : List Payment × PrivacyPool). p.1) (ok-injective h')),
    )

outputs_fit :
    (outs : Pair) (log : List Text)
    → length (with_outputs outs log) < u32_mod
    → length log < u32_mod
outputs_fit outs log lt =
    omega (arith, length-append log (outs.0 ∷ []), length-append (log ++ outs.0 ∷ []) (outs.1 ∷ []))

module _ (host : Host) where
  same_funds-IsFaithful :
      (h : History) (closed : List (List Text)) (s s' : PrivacyPool)
      → funds s' ≡ funds s
      → IsFaithful host h s
      → IsFaithful host (record h { closed = closed }) s'
  same_funds-IsFaithful h closed s s' same stands = record {
    tree =
        HasLeaves-same host h.leaves s s' (ap (λ (f : Funds). f.next_leaf_index) same)
          (ap (λ (f : Funds). f.nodes) same) (ap (λ (f : Funds). f.current_root) same)
          (ap (λ (f : Funds). f.leaves) same) stands.tree;
    past = record {
      newest = stands.past.newest;
      ring = rw (ap (λ (f : Funds). f.root_history) same) stands.past.ring;
      cursor = ap (λ (f : Funds). f.root_history_cursor) same ∙ stands.past.cursor;
    };
    marks = λ k. spent_same s s' k (ap (λ (f : Funds). f.nullifiers) same) ∙ stands.marks k;
    once = stands.once;
    new_leaves = stands.new_leaves;
    commits = λ k. rw (ap (λ (f : Funds). f.pending_commits) same) (stands.commits k);
    used_once = stands.used_once;
    balance = ap (λ (f : Funds). f.pool_balance + h.paid) same ∙ stands.balance;
  }

  pub withdrawn :
      (env : Env) (p r : Text) (ns outs : Pair) (to : Text) (v : ℕ) (s : PrivacyPool)
      {payments : List Payment} {s' : PrivacyPool}
      → call host env (Message.withdraw p r ns outs to v) s ≡ ok (payments, s')
      → (out : Payment × PrivacyPool) × (Pool.withdraw host env p r ns outs to v s ≡ ok out)
        × (payments ≡ out.0 ∷ [])
        × (s' ≡ out.1)
  unfolding call
  withdrawn env p r ns outs to v s h =
      let (out, e, h1) = >>=-eq-ok (Pool.withdraw host env p r ns outs to v s) _ h in
      let same = ok-injective h1 in
      (
        out,
        e,
        sym (ap (λ (t : List Payment × PrivacyPool). t.0) same),
        sym (ap (λ (t : List Payment × PrivacyPool). t.1) same),
      )

  call-IsFaithful :
      (env : Env) (m : Message) (h : History) (s : PrivacyPool) (payments : List Payment)
      (s' : PrivacyPool)
      → call host env m s ≡ ok (payments, s')
      → IsFaithful host h s
      → Fits (after env m payments h)
      → IsFaithful host (after env m payments h) s'
  unfolding call
  call-IsFaithful env (Message.deposit c) h s payments s' e stands fits =
      let (n, done) = silent_number (Deposits.deposit host env c s) e in
      Brings-IsFaithful host env c h s s' (deposit-eq-ok host env c s (n, s') done) stands fits
  call-IsFaithful env (Message.transfer p r ns outs) h s payments s' e stands fits =
      let (mid, last, moves, same) =
        transfer-eq-ok host p r ns outs s s' (silent (Pool.transfer host p r ns outs s) e) in
      let kept = Moves-balance host p r ns outs s mid last moves in
      rw same (
        Moves-IsFaithful host p r ns outs h s mid last last.pool_balance h.paid moves stands
          fits.few_leaves (ap (λ (n : ℕ). n + h.paid) kept ∙ stands.balance))
  call-IsFaithful env (Message.withdraw p r ns outs to v) h s payments s' e stands fits =
      let (out, done, paid, same) = withdrawn env p r ns outs to v s e in
      let (mid, last, moves, covered, made) = withdraw-eq-ok host env p r ns outs to v s out done in
      let kept = Moves-balance host p r ns outs s mid last moves in
      rw (paid, same, made)
        (Moves-IsFaithful host p r ns outs h s mid last (last.pool_balance - v) (h.paid + (v + 0))
          moves stands fits.few_leaves (omega (arith, kept, covered, stands.balance)))
  call-IsFaithful env Message.finalize_epoch h s payments s' e stands fits =
      let (n, done) = silent_number (Governance.finalize_epoch host env s) e in
      same_funds-IsFaithful h (h.closed ++ h.leaves ∷ []) s s'
        (finalize_epoch-funds host env s (n, s') done) stands
  call-IsFaithful env (Message.sync_remote_root chain id root) h s payments s' e stands fits =
      let done = silent (Governance.sync_remote_root env chain id root s) e in
      same_funds-IsFaithful h h.closed s s' (sync_remote_root-funds env chain id root s s' done)
        stands
  call-IsFaithful env (Message.commit_deposit k) h s payments s' e stands fits =
      let done = silent (Deposits.commit_deposit host env k s) e in
      Commits-IsFaithful host env k h s s' (commit_deposit-eq-ok host env k s s' done) stands fits
  call-IsFaithful env (Message.reveal_deposit k c) h s payments s' e stands fits =
      let (n, done) = silent_number (Deposits.reveal_deposit host env k c s) e in
      Reveals-IsFaithful host env k c h s s' (reveal_deposit-eq-ok host env k c s (n, s') done)
        stands fits
  call-IsFaithful env (Message.reclaim_expired_commit k) h s payments s' e stands fits =
      let done = silent (Deposits.reclaim_expired_commit env k s) e in
      Reclaims-IsFaithful host env k h s s' (reclaim_expired_commit-eq-ok env k s s' done) stands
  call-IsFaithful env Message.pause h s payments s' e stands fits =
      same_funds-IsFaithful h h.closed s s'
        (pause-funds env s s' (silent (Governance.pause env s) e)) stands
  call-IsFaithful env Message.unpause h s payments s' e stands fits =
      same_funds-IsFaithful h h.closed s s'
        (unpause-funds env s s' (silent (Governance.unpause env s) e)) stands
  call-IsFaithful env (Message.transfer_governance g) h s payments s' e stands fits =
      let done = silent (Governance.transfer_governance env g s) e in
      same_funds-IsFaithful h h.closed s s' (transfer_governance-funds env g s s' done) stands

  -- What a message adds only makes the counters larger.
  pub Fits-before :
      (env : Env) (m : Message) (payments : List Payment) (h : History)
      → Fits (after env m payments h)
      → Fits h
  Fits-before env (Message.deposit c) payments h fits = record {
    few_leaves = omega (arith, length-append h.leaves (c ∷ []), fits.few_leaves);
    few_tokens = omega (arith, fits.few_tokens);
    few_epochs = fits.few_epochs;
  }
  Fits-before env (Message.transfer p r ns outs) payments h fits = record {
    few_leaves = outputs_fit outs h.leaves fits.few_leaves;
    few_tokens = fits.few_tokens;
    few_epochs = fits.few_epochs;
  }
  Fits-before env (Message.withdraw p r ns outs to v) payments h fits = record {
    few_leaves = outputs_fit outs h.leaves fits.few_leaves;
    few_tokens = fits.few_tokens;
    few_epochs = fits.few_epochs;
  }
  Fits-before env (Message.commit_deposit k) payments h fits = record {
    few_leaves = fits.few_leaves;
    few_tokens = omega (arith, fits.few_tokens);
    few_epochs = fits.few_epochs;
  }
  Fits-before env (Message.reveal_deposit k c) payments h fits = record {
    few_leaves = omega (arith, length-append h.leaves (c ∷ []), fits.few_leaves);
    few_tokens = fits.few_tokens;
    few_epochs = fits.few_epochs;
  }
  Fits-before env (Message.reclaim_expired_commit k) payments h fits = record {
    few_leaves = fits.few_leaves;
    few_tokens = fits.few_tokens;
    few_epochs = fits.few_epochs;
  }
  Fits-before env Message.finalize_epoch payments h fits = record {
    few_leaves = fits.few_leaves;
    few_tokens = fits.few_tokens;
    few_epochs = omega (arith, length-append h.closed (h.leaves ∷ []), fits.few_epochs);
  }
  Fits-before env (Message.sync_remote_root chain id root) payments h fits = fits
  Fits-before env Message.pause payments h fits = fits
  Fits-before env Message.unpause payments h fits = fits
  Fits-before env (Message.transfer_governance g) payments h fits = fits

  pub Reachable-IsFaithful :
      {h : History} {s : PrivacyPool} → Reachable host h s → Fits h → IsFaithful host h s
  Reachable-IsFaithful (created env d) fits = new-IsFaithful host env d
  Reachable-IsFaithful (called {h} {s} reached env m payments s' e) fits =
      call-IsFaithful env m h s payments s' e
        (Reachable-IsFaithful reached (Fits-before env m payments h fits)) fits
