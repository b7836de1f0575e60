-- ===== src/Ink/Tests.antt =====
-- The theorems of the ink! pool at concrete inputs.
use sl.Prelude.{
  ◌+◌, ◌≡◌, ◌⊎◌, true, false, ◌||◌, List, [], Text, arith, take, text_beq, text_eq, nat_beq,
}
use sl.Fallible.{ok, err, panic}
use sl.Ring.{contains}
use sl.Distinct.{is_distinct}
use sl.Ink.State.{PrivacyPool, Env, Payment, already_revealed, not_depositor}
use sl.Ink.Tree.{root_history_size, is_known_root, is_some}
use sl.Ink.Tree.Append.{root_over}
use sl.Ink.Pool.{is_nullifier_spent}
use sl.Ink.Pool.Deposits
use sl.Ink.Pool.Governance
use sl.Ink.Pool.Governance.{is_stranger}
use sl.Ink.Message.{Message, call}
use sl.Ink.History.{History, no_history, after, Reachable, created, called, Fits}
use sl.Ink.Faithful.{roots_over}
use sl.Ink.Safety.{
  known_roots-Reachable, spent_once-Reachable, balance-Reachable, used_once-Reachable,
  first_leaf_only, reveal_unbound, is_ok,
}
use sl.Ink.Timeline.{IsTimeline, epochs_of, epochs-Reachable}
use sl.Ink.Fixtures.{
  ink_host, at_block, bytes, ink_started, ink_funded, ink_funded_lem, ink_transfer, ink_moved,
  ink_moved_lem, ink_committed, ink_committed_lem, ink_reclaimed, ink_reclaimed_lem, ink_closed,
  ink_closed_lem, ink_revealed, ink_revealed_lem, ink_committed_48,
}

abbrev history1 : History
history1 = after (at_block 2 100) (Message.deposit (bytes 49)) [] no_history

abbrev history2 : History
history2 = after (at_block 3 0) ink_transfer [] history1

reached0 : Reachable ink_host no_history ink_started
unfolding ink_started
reached0 = created (at_block 1 0) 10

reached1 : Reachable ink_host history1 ink_funded
reached1 =
    called reached0 (at_block 2 100) (Message.deposit (bytes 49)) [] ink_funded ink_funded_lem

reached2 : Reachable ink_host history2 ink_moved
reached2 = called reached1 (at_block 3 0) ink_transfer [] ink_moved ink_moved_lem

abbrev history_used : History
history_used =
    after (at_block 105 0) (Message.reclaim_expired_commit (bytes 60)) []
      (after (at_block 4 7) (Message.commit_deposit (bytes 60)) [] no_history)

reached_used : Reachable ink_host history_used ink_reclaimed
reached_used =
    called
      (called reached0 (at_block 4 7) (Message.commit_deposit (bytes 60)) [] ink_committed
        ink_committed_lem)
      (at_block 105 0) (Message.reclaim_expired_commit (bytes 60)) [] ink_reclaimed
      ink_reclaimed_lem

abbrev history_closed : History
history_closed = after (at_block 9 0) Message.finalize_epoch [] history1

reached_closed : Reachable ink_host history_closed ink_closed
reached_closed = called reached1 (at_block 9 0) Message.finalize_epoch [] ink_closed ink_closed_lem

Fits-moved : Fits history2
Fits-moved = omega arith

Fits-used : Fits history_used
Fits-used = omega arith

Fits-closed : Fits history_closed
Fits-closed = omega arith

known_roots-Reachable_example : is_known_root ink_funded.current_root ink_moved ≡ (
    text_beq ink_funded.current_root (root_over ink_host history2.leaves)
    || contains ink_funded.current_root
        (take root_history_size (roots_over ink_host history2.versions)))
known_roots-Reachable_example =
    known_roots-Reachable ink_host history2 ink_moved ink_funded.current_root reached2 Fits-moved

spent_once-Reachable_example :
    (is_distinct history2.spent ≡ true)
    × ((n : Text) → is_nullifier_spent ink_moved n ≡ contains n history2.spent)
    × (is_distinct history2.leaves ≡ true)
spent_once-Reachable_example = spent_once-Reachable ink_host history2 ink_moved reached2 Fits-moved

balance-Reachable_example :
    Governance.get_pool_balance ink_moved + history2.paid ≡ history2.received
balance-Reachable_example = balance-Reachable ink_host history2 ink_moved reached2 Fits-moved

used_once-Reachable_example :
    (is_distinct history_used.used ≡ true)
    × ((env : Env) (k c : Text)
        → contains k history_used.used ≡ true
        → (Deposits.reclaim_expired_commit env k ink_reclaimed ≡ err already_revealed)
          × ((Deposits.reveal_deposit ink_host env k c ink_reclaimed ≡ err already_revealed)
              ⊎ (Deposits.reveal_deposit ink_host env k c ink_reclaimed ≡ err not_depositor)))
used_once-Reachable_example =
    used_once-Reachable ink_host history_used ink_reclaimed reached_used Fits-used

first_leaf_only_example :
    ((out : List Payment × PrivacyPool)
      → (call ink_host (at_block 2 100) (Message.deposit (bytes 49)) ink_started ≡ ok out)
        ⊎ (call ink_host (at_block 2 100) (Message.reveal_deposit (bytes 60) (bytes 49)) ink_started
            ≡ ok out)
      → (ink_host.overflow_checks ≡ false) × (ink_started.next_leaf_index ≡ 0))
    × (ink_host.overflow_checks ≡ true
        → ink_started.paused ≡ false
        → nat_beq 100 0 ≡ false
        → is_some (ink_started.leaves (bytes 49)) ≡ false
        → call ink_host (at_block 2 100) (Message.deposit (bytes 49)) ink_started ≡ panic)
first_leaf_only_example =
    first_leaf_only ink_host (at_block 2 100) (bytes 60) (bytes 49) ink_started

reveal_unbound_example :
    is_ok (Deposits.reveal_deposit ink_host (at_block 10 0) (bytes 60) (bytes 48) ink_committed)
    ≡ true
reveal_unbound_example =
    reveal_unbound ink_host (at_block 10 0) (bytes 60) (bytes 49) (bytes 48) ink_committed
      ink_revealed ink_revealed_lem ink_committed_48

epochs-Reachable_example : IsTimeline ink_host history_closed.closed (epochs_of ink_closed)
epochs-Reachable_example = epochs-Reachable ink_host reached_closed Fits-closed
