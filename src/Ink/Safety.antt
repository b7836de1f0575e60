-- ===== src/Ink/Safety.antt =====
-- What the pool of ink/privacy-pool/lib.rs promises in the states that its messages reach.
use sl.Prelude.{
  ℕ, ◌+◌, ◌≡◌, refl, sym, ap, ◌∙◌, Bool, true, false, ◌||◌, ◌⊎◌, inl, inr, List, Text, arith,
  text_eq, text_beq, take, nat_beq, Option-cases, Bool-cases, ◌-◌, ltb, text_beq_iff,
}
use sl.Fallible.{Result, ok, err, panic, >>=-eq-ok}
use sl.Ink.Pool.Inflow.{deposit-eq-ok, reveal_deposit-eq-ok}
use sl.Ring.{contains}
use sl.Distinct.{is_distinct}
use sl.Ink.State.{
  PrivacyPool, Env, Host, Payment, Error, not_governance, pool_paused, already_revealed,
  not_depositor,
}
use sl.Ink.Tree.{root_history_size, is_known_root, is_some, shifted_one, store_leaf}
use sl.Ink.Tree.Append.{root_over}
use sl.Ink.Tree.History.{is_known_root-HasHistory}
use sl.Ink.Pool
use sl.Ink.Pool.{is_nullifier_spent}
use sl.Ink.Pool.Deposits
use sl.Ink.Pool.Deposits.{min_commit_delay, max_commit_delay}
use sl.Ink.Pool.Governance
use sl.Ink.Pool.Governance.{is_stranger}
use sl.Ink.Message.{Message, call}
use sl.Ink.Proof.{Pair}
use sl.Ink.History.{History, Reachable, Fits}
use sl.Ink.Faithful.{roots_over, is_used}
use sl.Ink.Reachable.{Reachable-IsFaithful}

abbrev pub is_ok {ℓ} : {A : Type ℓ} → Result Error A → Bool
is_ok (ok a) = true
is_ok (err e) = false
is_ok panic = false

module _ (host : Host) where
  -- In a pool that messages have reached, with fewer than 2 ^ 32 leaves and epochs and 2 ^ 128 tokens, a root is
  -- known exactly if it is the root over all leaves so far, or over those after one of the last 100
  -- messages that added leaves. The root is that of the rows over the leaves in which a missing
  -- neighbour is zero at every level.
  pub known_roots-Reachable :
      (h : History) (s : PrivacyPool) (root : Text)
      → Reachable host h s
      → Fits h
      → is_known_root root s ≡ (
          text_beq root (root_over host h.leaves)
          || contains root (take root_history_size (roots_over host h.versions)))
  known_roots-Reachable h s root reached fits =
      let stands = Reachable-IsFaithful host reached fits in
      is_known_root-HasHistory (roots_over host h.versions) s root stands.past
      ∙ ap
          (λ (r : Text).
            text_beq root r || contains root (take root_history_size (roots_over host h.versions)))
          stands.tree.root

  -- In a pool that messages have reached, with fewer than 2 ^ 32 leaves and epochs and 2 ^ 128 tokens, the
  -- nullifiers of accepted transfers and withdrawals are pairwise different, `is_nullifier_spent` is
  -- true of exactly these, and the leaves are pairwise different.
  pub spent_once-Reachable :
      (h : History) (s : PrivacyPool)
      → Reachable host h s
      → Fits h
      → (is_distinct h.spent ≡ true)
        × ((n : Text) → is_nullifier_spent s n ≡ contains n h.spent)
        × (is_distinct h.leaves ≡ true)
  spent_once-Reachable h s reached fits =
      let stands = Reachable-IsFaithful host reached fits in
      (stands.once, stands.marks, stands.new_leaves)

  -- In a pool that messages have reached, with fewer than 2 ^ 32 leaves and epochs and 2 ^ 128 tokens, the balance
  -- and all that withdrawals have paid make up all that deposits and commits have brought.
  pub balance-Reachable :
      (h : History) (s : PrivacyPool)
      → Reachable host h s
      → Fits h
      → Governance.get_pool_balance s + h.paid ≡ h.received
  unfolding Governance.get_pool_balance
  balance-Reachable h s reached fits = (Reachable-IsFaithful host reached fits).balance

  reclaim_used :
      (env : Env) (k : Text) (s : PrivacyPool)
      → is_used (s.pending_commits k) ≡ true
      → Deposits.reclaim_expired_commit env k s ≡ err already_revealed
  unfolding Deposits.reclaim_expired_commit
  reclaim_used env k s used = elim (Option-cases (s.pending_commits k)) [
    | inl e ↦ cc
    | inr (commit, e) ↦
        let revealed : commit.revealed ≡ true = ap is_used (sym e) ∙ used in rw (e, revealed) refl
  ]

  reveal_used :
      (env : Env) (k c : Text) (s : PrivacyPool)
      → is_used (s.pending_commits k) ≡ true
      → (Deposits.reveal_deposit host env k c s ≡ err already_revealed)
        ⊎ (Deposits.reveal_deposit host env k c s ≡ err not_depositor)
  unfolding Deposits.reveal_deposit
  reveal_used env k c s used = elim (Option-cases (s.pending_commits k)) [
    | inl e ↦ cc
    | inr (commit, e) ↦
        let revealed : commit.revealed ≡ true = ap is_used (sym e) ∙ used in
        elim (Bool-cases (text_beq commit.depositor env.caller)) [
          | inl owned ↦ inl (rw (e, owned, revealed) refl)
          | inr other ↦ inr (rw (e, other) refl)
        ]
  ]

  -- In a pool that messages have reached, with fewer than 2 ^ 32 leaves and epochs and 2 ^ 128 tokens, no commit
  -- has been used twice, by a reveal or a reclaim; reclaiming one that was used is refused as revealed,
  -- and so is revealing it, or as another's.
  pub used_once-Reachable :
      (h : History) (s : PrivacyPool)
      → Reachable host h s
      → Fits h
      → (is_distinct h.used ≡ true)
        × ((env : Env) (k c : Text)
            → contains k h.used ≡ true
            → (Deposits.reclaim_expired_commit env k s ≡ err already_revealed)
              × ((Deposits.reveal_deposit host env k c s ≡ err already_revealed)
                  ⊎ (Deposits.reveal_deposit host env k c s ≡ err not_depositor)))
  used_once-Reachable h s reached fits =
      let stands = Reachable-IsFaithful host reached fits in
      (
        stands.used_once,
        λ env k c used. (
          reclaim_used env k s (stands.commits k ∙ used),
          reveal_used env k c s (stands.commits k ∙ used),
        ),
      )

  deposit_panics :
      (env : Env) (c : Text) (s : PrivacyPool)
      → host.overflow_checks ≡ true
      → s.paused ≡ false
      → nat_beq env.transferred_value 0 ≡ false
      → is_some (s.leaves c) ≡ false
      → call host env (Message.deposit c) s ≡ panic
  unfolding call Deposits.deposit shifted_one
  deposit_panics env c s checks running paid fresh = rw (running, paid, fresh, checks) refl

  first_of :
      (env : Env) (k c : Text) (s : PrivacyPool) (out : List Payment × PrivacyPool)
      → (call host env (Message.deposit c) s ≡ ok out)
        ⊎ (call host env (Message.reveal_deposit k c) s ≡ ok out)
      → (host.overflow_checks ≡ false) × (s.next_leaf_index ≡ 0)
  unfolding call
  first_of env k c s out (inl h) =
      let (t, e, h') = >>=-eq-ok (Deposits.deposit host env c s) _ h in
      let first = (deposit-eq-ok host env c s t e).first in (first.unchecked, first.empty)
  first_of env k c s out (inr h) =
      let (t, e, h') = >>=-eq-ok (Deposits.reveal_deposit host env k c s) _ h in
      let first = (reveal_deposit-eq-ok host env k c s t e).first in (first.unchecked, first.empty)

  -- A deposit or a reveal that returns was made in a build without overflow checks, into an empty tree;
  -- with overflow checks, a deposit of tokens for a new commitment, in a pool that is not paused,
  -- panics.
  pub first_leaf_only :
      (env : Env) (k c : Text) (s : PrivacyPool)
      → ((out : List Payment × PrivacyPool)
          → (call host env (Message.deposit c) s ≡ ok out)
            ⊎ (call host env (Message.reveal_deposit k c) s ≡ ok out)
          → (host.overflow_checks ≡ false) × (s.next_leaf_index ≡ 0))
        × (host.overflow_checks ≡ true
            → s.paused ≡ false
            → nat_beq env.transferred_value 0 ≡ false
            → is_some (s.leaves c) ≡ false
            → call host env (Message.deposit c) s ≡ panic)
  first_leaf_only env k c s = (λ out made. first_of env k c s out made, deposit_panics env c s)

  -- A caller other than governance is refused by each message of governance; and while the pool is
  -- paused, deposits, commits, transfers and withdrawals are refused.
  pub call_refused :
      (env : Env) (s : PrivacyPool)
      → (is_stranger env s ≡ true
          → (call host env Message.finalize_epoch s ≡ err not_governance)
            × ((chain id : ℕ) (root : Text)
                → call host env (Message.sync_remote_root chain id root) s ≡ err not_governance)
            × (call host env Message.pause s ≡ err not_governance)
            × (call host env Message.unpause s ≡ err not_governance)
            × ((g : Text) → call host env (Message.transfer_governance g) s ≡ err not_governance))
        × (s.paused ≡ true
            → ((c : Text) → call host env (Message.deposit c) s ≡ err pool_paused)
              × ((k : Text) → call host env (Message.commit_deposit k) s ≡ err pool_paused)
              × ((p r : Text) (ns outs : Pair)
                  → call host env (Message.transfer p r ns outs) s ≡ err pool_paused)
              × ((p r : Text) (ns outs : Pair) (to : Text) (v : ℕ)
                  → call host env (Message.withdraw p r ns outs to v) s ≡ err pool_paused))
  unfolding call Governance.finalize_epoch Governance.sync_remote_root Governance.pause
      Governance.unpause Governance.transfer_governance Deposits.deposit Deposits.commit_deposit
      Pool.transfer Pool.withdraw
  call_refused env s = (
    λ stranger. (
      rw stranger refl,
      λ chain id root. rw stranger refl,
      rw stranger refl,
      rw stranger refl,
      λ g. rw stranger refl,
    ),
    λ paused. (
      λ c. rw paused refl,
      λ k. rw paused refl,
      λ p r ns outs. rw paused refl,
      λ p r ns outs to v. rw paused refl,
    ),
  )

  -- When revealing a commit with one commitment returns, revealing it in the same state with any other
  -- commitment that is not a leaf returns too.
  pub reveal_unbound :
      (env : Env) (k c c' : Text) (s : PrivacyPool) (out : ℕ × PrivacyPool)
      → Deposits.reveal_deposit host env k c s ≡ ok out
      → is_some (s.leaves c') ≡ false
      → is_ok (Deposits.reveal_deposit host env k c' s) ≡ true
  unfolding Deposits.reveal_deposit store_leaf shifted_one
  reveal_unbound env k c c' s out h fresh =
      let it = reveal_deposit-eq-ok host env k c s out h in
      let elapsed : ℕ = env.block_number - it.commit.block_number in
      let late : ltb elapsed min_commit_delay ≡ false = ground (arith, it.late_enough) in
      let early : ltb max_commit_delay elapsed ≡ false = ground (arith, it.in_time) in
      rw
        (
          it.uses.pending,
          (text_beq_iff it.commit.depositor env.caller).1 it.owned,
          it.uses.unused,
          late,
          early,
          fresh,
          it.first.unchecked,
          it.first.empty,
        )
        refl
