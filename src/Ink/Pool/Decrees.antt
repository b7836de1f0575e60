-- ===== src/Ink/Pool/Decrees.antt =====
-- What the messages of governance in ink/privacy-pool/lib.rs leave alone.
use sl.Prelude.{
  ℕ, ◌+◌, ◌≡◌, sym, ap, ◌<◌, Bool, true, false, some, Text, Map, insert, text_beq, nat_eq, pair_eq,
}
use sl.Prelude.Words.{u32_mod}
use sl.Fallible.{
  ok, >>=-eq-ok, ok-injective, refuse_if, refuse_if-eq-ok, or_panic, or_panic-eq-ok, word,
  word-fits,
}
use sl.Ink.State.{
  PrivacyPool, EpochInfo, CommitRecord, Env, Host, not_governance, epoch_already_finalized,
  zero_address,
}
use sl.Ink.Tree.{zero_value}
use sl.Ink.Pool.Governance
use sl.Ink.Pool.Governance.{is_stranger}

-- The leaves, roots, nullifiers, commits and tokens of a state.
pub record Funds : Type 0 where
  pub next_leaf_index : ℕ
  pub nodes : Map (ℕ × ℕ) Text
  pub current_root : Text
  pub leaves : Map Text ℕ
  pub root_history : Map ℕ Text
  pub root_history_cursor : ℕ
  pub nullifiers : Map Text Bool
  pub pending_commits : Map Text CommitRecord
  pub pool_balance : ℕ

abbrev pub funds : PrivacyPool → Funds
funds s = record {
  next_leaf_index = s.next_leaf_index;
  nodes = s.nodes;
  current_root = s.current_root;
  leaves = s.leaves;
  root_history = s.root_history;
  root_history_cursor = s.root_history_cursor;
  nullifiers = s.nullifiers;
  pending_commits = s.pending_commits;
  pool_balance = s.pool_balance;
}

-- An epoch is closed with the current root, and the next one opened.
pub record Closes (host : Host) (env : Env) (s s' : PrivacyPool) : Type 0 where
  pub by_governance : is_stranger env s ≡ false
  pub epoch : EpochInfo
  pub stored : s.epochs s.current_epoch ≡ some epoch
  pub unclosed : epoch.finalized ≡ false
  pub next : ℕ
  pub counts : s.current_epoch + 1 < u32_mod → next ≡ s.current_epoch + 1
  pub written : s' ≡ record s {
    epochs =
        insert next
          (record { epoch_id = next; root = zero_value; finalized = false; block_finalized = 0 })
          (insert s.current_epoch
            (record {
              epoch_id = s.current_epoch;
              root = s.current_root;
              finalized = true;
              block_finalized = env.block_number;
            })
            s.epochs);
    current_epoch = next;
    epoch_start_block = env.block_number;
  }

pub finalize_epoch-eq-ok :
    (host : Host) (env : Env) (s : PrivacyPool) (out : ℕ × PrivacyPool)
    → Governance.finalize_epoch host env s ≡ ok out
    → Closes host env s out.1
unfolding Governance.finalize_epoch
finalize_epoch-eq-ok host env s out h =
    let (u1, e1, h1) = >>=-eq-ok (refuse_if (is_stranger env s) not_governance) _ h in
    let (epoch, e2, h2) = >>=-eq-ok (or_panic (s.epochs s.current_epoch)) _ h1 in
    let (u3, e3, h3) = >>=-eq-ok (refuse_if epoch.finalized epoch_already_finalized) _ h2 in
    let (next, e4, h4) = >>=-eq-ok (word host.overflow_checks u32_mod (s.current_epoch + 1)) _ h3 in
    record {
      by_governance = refuse_if-eq-ok (is_stranger env s) not_governance e1;
      epoch = epoch;
      stored = or_panic-eq-ok (s.epochs s.current_epoch) e2;
      unclosed = refuse_if-eq-ok epoch.finalized epoch_already_finalized e3;
      next = next;
      counts = word-fits host.overflow_checks u32_mod (s.current_epoch + 1) e4;
      written = ap (λ (t : ℕ × PrivacyPool). t.1) (sym (ok-injective h4));
    }

pub finalize_epoch-funds :
    (host : Host) (env : Env) (s : PrivacyPool) (out : ℕ × PrivacyPool)
    → Governance.finalize_epoch host env s ≡ ok out
    → funds out.1 ≡ funds s
finalize_epoch-funds host env s out h = ap funds (finalize_epoch-eq-ok host env s out h).written

pub sync_remote_root-funds :
    (env : Env) (chain id : ℕ) (root : Text) (s s' : PrivacyPool)
    → Governance.sync_remote_root env chain id root s ≡ ok s'
    → funds s' ≡ funds s
unfolding Governance.sync_remote_root
sync_remote_root-funds env chain id root s s' h =
    let (u, e, h') = >>=-eq-ok (refuse_if (is_stranger env s) not_governance) _ h in
    ap funds (sym (ok-injective h'))

pub pause-funds :
    (env : Env) (s s' : PrivacyPool) → Governance.pause env s ≡ ok s' → funds s' ≡ funds s
unfolding Governance.pause
pause-funds env s s' h =
    let (u, e, h') = >>=-eq-ok (refuse_if (is_stranger env s) not_governance) _ h in
    ap funds (sym (ok-injective h'))

pub unpause-funds :
    (env : Env) (s s' : PrivacyPool) → Governance.unpause env s ≡ ok s' → funds s' ≡ funds s
unfolding Governance.unpause
unpause-funds env s s' h =
    let (u, e, h') = >>=-eq-ok (refuse_if (is_stranger env s) not_governance) _ h in
    ap funds (sym (ok-injective h'))

pub transfer_governance-funds :
    (env : Env) (g : Text) (s s' : PrivacyPool)
    → Governance.transfer_governance env g s ≡ ok s'
    → funds s' ≡ funds s
unfolding Governance.transfer_governance
transfer_governance-funds env g s s' h =
    let (u, e, h') = >>=-eq-ok (refuse_if (is_stranger env s) not_governance) _ h in
    let (u', e', h'') = >>=-eq-ok (refuse_if (text_beq g zero_value) zero_address) _ h' in
    ap funds (sym (ok-injective h''))
