-- ===== src/Ink/Pool/Inflow.antt =====
-- What the messages of ink/privacy-pool/lib.rs by which tokens come in have checked and written when they
-- return.
use sl.Prelude.{
  not-false, ℕ, ◌+◌, ◌-◌, ◌<◌, ◌≤◌, ◌≡◌, sym, ap, true, false, not, some, Text, arith, insert,
  text_eq, nat_eq, text_beq, text_beq_iff, ltb, leb, nat_beq,
}
use sl.Prelude.Words.{u128_mod}
use sl.Fallible.{
  ok, >>=-eq-ok, ok-injective, refuse_if, refuse_if-eq-ok, ok_or, ok_or-eq-ok, word, word-fits,
}
use sl.Ink.State.{
  PrivacyPool, CommitRecord, Env, Host, pool_paused, zero_amount, duplicate_commitment, tree_full,
  duplicate_commit, commit_not_found, not_depositor, already_revealed, reveal_too_early,
  commit_expired, commit_not_expired,
}
use sl.Ink.Tree.{is_some, push_root, store_leaf, shifted_one, tree_depth}
use sl.Ink.Tree.Append.{Stores, store_leaf-eq-ok}
use sl.Ink.Pool.Deposits
use sl.Ink.Pool.Deposits.{used, min_commit_delay, max_commit_delay}

module _ (host : Host) where
  -- The shift by 32 gives a value only without overflow checks, and then it is one: a message that asks
  -- for room has found an empty tree.
  pub record IsFirst (s : PrivacyPool) : Type 0 where
    pub unchecked : host.overflow_checks ≡ false
    pub empty : s.next_leaf_index ≡ 0

  room-IsFirst :
      (s : PrivacyPool) (capacity : ℕ)
      → shifted_one host tree_depth ≡ ok capacity
      → leb capacity s.next_leaf_index ≡ false
      → IsFirst s
  unfolding shifted_one
  room-IsFirst s capacity e below = record { unchecked = ground arith; empty = ground arith }

  pub record Brings (env : Env) (c : Text) (s s' : PrivacyPool) : Type 0 where
    pub running : s.paused ≡ false
    pub paid : nat_beq env.transferred_value 0 ≡ false
    pub fresh : is_some (s.leaves c) ≡ false
    pub first : IsFirst s
    pub mid : PrivacyPool
    pub stores : Stores host c s mid
    pub balance : ℕ
    pub sum :
        mid.pool_balance + env.transferred_value < u128_mod
        → balance ≡ mid.pool_balance + env.transferred_value
    pub written : s' ≡ push_root (record mid { pool_balance = balance })

  pub deposit-eq-ok :
      (env : Env) (c : Text) (s : PrivacyPool) (out : ℕ × PrivacyPool)
      → Deposits.deposit host env c s ≡ ok out
      → Brings env c s out.1
  unfolding Deposits.deposit
  deposit-eq-ok env c s out h =
      let (u1, e1, h1) = >>=-eq-ok (refuse_if s.paused pool_paused) _ h in
      let (u2, e2, h2) = >>=-eq-ok (refuse_if (nat_beq env.transferred_value 0) zero_amount) _ h1 in
      let (u3, e3, h3) = >>=-eq-ok (refuse_if (is_some (s.leaves c)) duplicate_commitment) _ h2 in
      let (capacity, e4, h4) = >>=-eq-ok (shifted_one host tree_depth) _ h3 in
      let (u5, e5, h5) = >>=-eq-ok (refuse_if (leb capacity s.next_leaf_index) tree_full) _ h4 in
      let (mid, e6, h6) = >>=-eq-ok (store_leaf host c s) _ h5 in
      let (b, e7, h7) =
        >>=-eq-ok (word host.overflow_checks u128_mod (mid.pool_balance + env.transferred_value)) _
          h6 in
      record {
        running = refuse_if-eq-ok s.paused pool_paused e1;
        paid = refuse_if-eq-ok (nat_beq env.transferred_value 0) zero_amount e2;
        fresh = refuse_if-eq-ok (is_some (s.leaves c)) duplicate_commitment e3;
        first =
            room-IsFirst s capacity e4
              (refuse_if-eq-ok (leb capacity s.next_leaf_index) tree_full e5);
        mid = mid;
        stores = store_leaf-eq-ok host c s mid e6;
        balance = b;
        sum = word-fits host.overflow_checks u128_mod (mid.pool_balance + env.transferred_value) e7;
        written = ap (λ (t : ℕ × PrivacyPool). t.1) (sym (ok-injective h7));
      }

  pub record Commits (env : Env) (k : Text) (s s' : PrivacyPool) : Type 0 where
    pub running : s.paused ≡ false
    pub fresh : is_some (s.pending_commits k) ≡ false
    pub balance : ℕ
    pub sum :
        s.pool_balance + env.transferred_value < u128_mod
        → balance ≡ s.pool_balance + env.transferred_value
    pub written : s' ≡ record s {
      pending_commits =
          insert k
            (record { depositor = env.caller; block_number = env.block_number; revealed = false })
            s.pending_commits;
      pool_balance = balance;
    }

  pub commit_deposit-eq-ok :
      (env : Env) (k : Text) (s s' : PrivacyPool)
      → Deposits.commit_deposit host env k s ≡ ok s'
      → Commits env k s s'
  unfolding Deposits.commit_deposit
  commit_deposit-eq-ok env k s s' h =
      let (u1, e1, h1) = >>=-eq-ok (refuse_if s.paused pool_paused) _ h in
      let (u2, e2, h2) =
        >>=-eq-ok (refuse_if (is_some (s.pending_commits k)) duplicate_commit) _ h1 in
      let (u3, e3, h3) = >>=-eq-ok (refuse_if (nat_beq env.transferred_value 0) zero_amount) _ h2 in
      let (b, e4, h4) =
        >>=-eq-ok (word host.overflow_checks u128_mod (s.pool_balance + env.transferred_value)) _
          h3 in
      record {
        running = refuse_if-eq-ok s.paused pool_paused e1;
        fresh = refuse_if-eq-ok (is_some (s.pending_commits k)) duplicate_commit e2;
        balance = b;
        sum = word-fits host.overflow_checks u128_mod (s.pool_balance + env.transferred_value) e4;
        written = sym (ok-injective h4);
      }

-- A commit that is pending and unused, then marked as used.
abbrev pub with_used : Text → CommitRecord → PrivacyPool → PrivacyPool
with_used k commit s = record s {
  pending_commits =
      insert k
        (record {
          depositor = commit.depositor;
          block_number = commit.block_number;
          revealed = true;
        })
        s.pending_commits;
}

pub record Uses (k : Text) (commit : CommitRecord) (s : PrivacyPool) : Type 0 where
  pub pending : s.pending_commits k ≡ some commit
  pub unused : commit.revealed ≡ false

pub record Reveals (host : Host) (env : Env) (k c : Text) (s s' : PrivacyPool) : Type 0 where
  pub commit : CommitRecord
  pub uses : Uses k commit s
  pub owned : commit.depositor ≡ env.caller
  pub late_enough : commit.block_number + min_commit_delay ≤ env.block_number
  pub in_time : env.block_number ≤ commit.block_number + max_commit_delay
  pub fresh : is_some (s.leaves c) ≡ false
  pub first : IsFirst host s
  pub mid : PrivacyPool
  pub stores : Stores host c (with_used k commit s) mid
  pub written : s' ≡ push_root mid

window :
    (b n : ℕ)
    → ltb (b - n) min_commit_delay ≡ false
    → ltb max_commit_delay (b - n) ≡ false
    → (n + min_commit_delay ≤ b) × (b ≤ n + max_commit_delay)
window b n h1 h2 = (ground arith, ground arith)

pub reveal_deposit-eq-ok :
    (host : Host) (env : Env) (k c : Text) (s : PrivacyPool) (out : ℕ × PrivacyPool)
    → Deposits.reveal_deposit host env k c s ≡ ok out
    → Reveals host env k c s out.1
unfolding Deposits.reveal_deposit used
reveal_deposit-eq-ok host env k c s out h =
    let (commit, e1, h1) = >>=-eq-ok (ok_or (s.pending_commits k) commit_not_found) _ h in
    let (u2, e2, h2) =
      >>=-eq-ok (refuse_if (not (text_beq commit.depositor env.caller)) not_depositor) _ h1 in
    let (u3, e3, h3) = >>=-eq-ok (refuse_if commit.revealed already_revealed) _ h2 in
    let elapsed : ℕ = env.block_number - commit.block_number in
    let (u4, e4, h4) = >>=-eq-ok (refuse_if (ltb elapsed min_commit_delay) reveal_too_early) _ h3 in
    let (u5, e5, h5) = >>=-eq-ok (refuse_if (ltb max_commit_delay elapsed) commit_expired) _ h4 in
    let (u6, e6, h6) = >>=-eq-ok (refuse_if (is_some (s.leaves c)) duplicate_commitment) _ h5 in
    let (capacity, e7, h7) = >>=-eq-ok (shifted_one host tree_depth) _ h6 in
    let (u8, e8, h8) = >>=-eq-ok (refuse_if (leb capacity s.next_leaf_index) tree_full) _ h7 in
    let (mid, e9, h9) = >>=-eq-ok (store_leaf host c (with_used k commit s)) _ h8 in
    let times =
      window env.block_number commit.block_number
        (refuse_if-eq-ok (ltb elapsed min_commit_delay) reveal_too_early e4)
        (refuse_if-eq-ok (ltb max_commit_delay elapsed) commit_expired e5) in
    record {
      commit = commit;
      uses = record {
        pending = ok_or-eq-ok (s.pending_commits k) commit_not_found e1;
        unused = refuse_if-eq-ok commit.revealed already_revealed e3;
      };
      owned = (text_beq_iff commit.depositor env.caller).0 (
          not-false (text_beq commit.depositor env.caller)
            (refuse_if-eq-ok (not (text_beq commit.depositor env.caller)) not_depositor e2));
      late_enough = times.0;
      in_time = times.1;
      fresh = refuse_if-eq-ok (is_some (s.leaves c)) duplicate_commitment e6;
      first =
          room-IsFirst host s capacity e7
            (refuse_if-eq-ok (leb capacity s.next_leaf_index) tree_full e8);
      mid = mid;
      stores = store_leaf-eq-ok host c (with_used k commit s) mid e9;
      written = ap (λ (t : ℕ × PrivacyPool). t.1) (sym (ok-injective h9));
    }

pub record Reclaims (env : Env) (k : Text) (s s' : PrivacyPool) : Type 0 where
  pub commit : CommitRecord
  pub uses : Uses k commit s
  pub expired : commit.block_number + max_commit_delay < env.block_number
  pub written : s' ≡ with_used k commit s

past_window : (b n : ℕ) → leb (b - n) max_commit_delay ≡ false → n + max_commit_delay < b
past_window b n h = ground arith

pub reclaim_expired_commit-eq-ok :
    (env : Env) (k : Text) (s s' : PrivacyPool)
    → Deposits.reclaim_expired_commit env k s ≡ ok s'
    → Reclaims env k s s'
unfolding Deposits.reclaim_expired_commit used
reclaim_expired_commit-eq-ok env k s s' h =
    let (commit, e1, h1) = >>=-eq-ok (ok_or (s.pending_commits k) commit_not_found) _ h in
    let (u2, e2, h2) = >>=-eq-ok (refuse_if commit.revealed already_revealed) _ h1 in
    let elapsed : ℕ = env.block_number - commit.block_number in
    let (u3, e3, h3) =
      >>=-eq-ok (refuse_if (leb elapsed max_commit_delay) commit_not_expired) _ h2 in
    record {
      commit = commit;
      uses = record {
        pending = ok_or-eq-ok (s.pending_commits k) commit_not_found e1;
        unused = refuse_if-eq-ok commit.revealed already_revealed e2;
      };
      expired =
          past_window env.block_number commit.block_number
            (refuse_if-eq-ok (leb elapsed max_commit_delay) commit_not_expired e3);
      written = sym (ok-injective h3);
    }
