-- ===== src/Ink/Pool/Deposits.antt =====
-- The messages of ink/privacy-pool/lib.rs by which tokens come in: `deposit`, and the commit, reveal and
-- reclaim of a deposit.
use sl.Prelude.{ℕ, ◌+◌, ◌-◌, true, false, not, Text, ltb, leb, nat_beq, text_beq, text_eq, insert}
use sl.Prelude.Words.{u128_mod}
use sl.Fallible.{ok, ◌>>=◌, ◌>>◌, refuse_if, ok_or, word}
use sl.Ink.State.{
  PrivacyPool, CommitRecord, Env, Host, Outcome, duplicate_commitment, tree_full, zero_amount,
  pool_paused, duplicate_commit, commit_not_found, reveal_too_early, commit_expired,
  already_revealed, not_depositor, commit_not_expired,
}
use sl.Ink.Tree.{tree_depth, is_some, shifted_one, store_leaf, push_root}

abbrev pub min_commit_delay : ℕ
min_commit_delay = 2

abbrev pub max_commit_delay : ℕ
max_commit_delay = 100

-- The commit, marked as used.
unfoldable pub used : CommitRecord → CommitRecord
used commit = record {
  depositor = commit.depositor;
  block_number = commit.block_number;
  revealed = true;
}

module _ (host : Host) where
  unfoldable pub deposit : Env → Text → PrivacyPool → Outcome (ℕ × PrivacyPool)
  deposit env commitment s = do
    refuse_if s.paused pool_paused
    refuse_if (nat_beq env.transferred_value 0) zero_amount
    refuse_if (is_some (s.leaves commitment)) duplicate_commitment
    capacity ← shifted_one host tree_depth
    refuse_if (leb capacity s.next_leaf_index) tree_full
    s1 ← store_leaf host commitment s
    balance ← word host.overflow_checks u128_mod (s1.pool_balance + env.transferred_value)
    ok (s.next_leaf_index, push_root (record s1 { pool_balance = balance }))

  unfoldable pub commit_deposit : Env → Text → PrivacyPool → Outcome PrivacyPool
  commit_deposit env commit_hash s = do
    refuse_if s.paused pool_paused
    refuse_if (is_some (s.pending_commits commit_hash)) duplicate_commit
    refuse_if (nat_beq env.transferred_value 0) zero_amount
    let commit : CommitRecord = record {
      depositor = env.caller;
      block_number = env.block_number;
      revealed = false;
    }
    balance ← word host.overflow_checks u128_mod (s.pool_balance + env.transferred_value)
    ok (record s {
      pending_commits = insert commit_hash commit s.pending_commits;
      pool_balance = balance;
    })

  unfoldable pub reveal_deposit : Env → Text → Text → PrivacyPool → Outcome (ℕ × PrivacyPool)
  reveal_deposit env commit_hash commitment s = do
    commit ← ok_or (s.pending_commits commit_hash) commit_not_found
    refuse_if (not (text_beq commit.depositor env.caller)) not_depositor
    refuse_if commit.revealed already_revealed
    let elapsed = env.block_number - commit.block_number
    refuse_if (ltb elapsed min_commit_delay) reveal_too_early
    refuse_if (ltb max_commit_delay elapsed) commit_expired
    refuse_if (is_some (s.leaves commitment)) duplicate_commitment
    let s1 = record s { pending_commits = insert commit_hash (used commit) s.pending_commits }
    capacity ← shifted_one host tree_depth
    refuse_if (leb capacity s1.next_leaf_index) tree_full
    s2 ← store_leaf host commitment s1
    ok (s1.next_leaf_index, push_root s2)

unfoldable pub reclaim_expired_commit : Env → Text → PrivacyPool → Outcome PrivacyPool
reclaim_expired_commit env commit_hash s = do
  commit ← ok_or (s.pending_commits commit_hash) commit_not_found
  refuse_if commit.revealed already_revealed
  let elapsed = env.block_number - commit.block_number
  refuse_if (leb elapsed max_commit_delay) commit_not_expired
  ok (record s { pending_commits = insert commit_hash (used commit) s.pending_commits })
