-- ===== src/Relayer/Health/Ready.antt =====
-- The relayer is ready exactly while enough chains are connected.
use sl.Prelude.{ℕ, ◌+◌, ◌-◌, ◌%◌, ◌<◌, ◌≡◌, refl, List, [], ◌∷◌, arith, leb}
use sl.Prelude.Words.{u64_mod}
use sl.Relayer.Health
use sl.Relayer.Health.{
  HealthState, mark_chain_connected, mark_chain_disconnected, record_relay, Change, run_changes,
}

-- How many chains are connected after some changes, from a number on.
abbrev pub net : ℕ → List Change → ℕ
net n [] = n
net n (Health.connected ∷ changes) = net (n + 1) changes
net n (Health.disconnected ∷ changes) = net (n - 1) changes
net n (Health.relayed timestamp ∷ changes) = net n changes

-- Only a connected chain disconnects, and the counter does not wrap.
abbrev pub IsPossible : ℕ → List Change → Type 0
IsPossible n [] = Unit
IsPossible n (Health.connected ∷ changes) = (n + 1 < u64_mod) × IsPossible (n + 1) changes
IsPossible n (Health.disconnected ∷ changes) = (0 < n) × IsPossible (n - 1) changes
IsPossible n (Health.relayed timestamp ∷ changes) = IsPossible n changes

-- The counter and the flag are those of a number of connected chains.
record IsCounted (n : ℕ) (h : HealthState) : Type 0 where
  pub counted : h.connected_chains ≡ n
  pub small : n < u64_mod
  pub flagged : h.ready ≡ leb h.configured_chains n

connected-IsCounted :
    (n : ℕ) (h : HealthState)
    → n + 1 < u64_mod
    → IsCounted n h
    → IsCounted (n + 1) (mark_chain_connected h)
unfolding mark_chain_connected
connected-IsCounted n h lt ok =
    let up : (h.connected_chains + 1) % u64_mod ≡ n + 1 = omega (arith, ok.counted) in
    record { counted = up; small = lt; flagged = rw up (ground (arith, ok.flagged)) }

disconnected-IsCounted :
    (n : ℕ) (h : HealthState)
    → 0 < h.configured_chains
    → 0 < n
    → IsCounted n h
    → IsCounted (n - 1) (mark_chain_disconnected h)
unfolding mark_chain_disconnected
disconnected-IsCounted n h some_configured some_connected ok =
    let down : (h.connected_chains + (u64_mod - 1)) % u64_mod ≡ n - 1 =
      omega (arith, ok.counted, ok.small) in
    record {
      counted = down;
      small = omega (arith, ok.small);
      flagged = rw ok.counted (ground (arith, ok.flagged));
    }

run_changes-IsCounted :
    (changes : List Change) (n : ℕ) (h : HealthState)
    → 0 < h.configured_chains
    → IsPossible n changes
    → IsCounted n h
    → ((run_changes changes h).connected_chains ≡ net n changes)
      × ((run_changes changes h).ready ≡ leb h.configured_chains (net n changes))
unfolding run_changes mark_chain_connected mark_chain_disconnected record_relay
run_changes-IsCounted [] n h pos possible ok = (ok.counted, ok.flagged)
run_changes-IsCounted (Health.connected ∷ changes) n h pos possible ok =
    run_changes-IsCounted changes (n + 1) (mark_chain_connected h) pos possible.1
      (connected-IsCounted n h possible.0 ok)
run_changes-IsCounted (Health.disconnected ∷ changes) n h pos possible ok =
    run_changes-IsCounted changes (n - 1) (mark_chain_disconnected h) pos possible.1
      (disconnected-IsCounted n h pos possible.0 ok)
run_changes-IsCounted (Health.relayed timestamp ∷ changes) n h pos possible ok =
    run_changes-IsCounted changes n (record_relay timestamp h) pos possible
      (record { counted = ok.counted; small = ok.small; flagged = ok.flagged })

-- With chains configured, after any changes in which only connected chains disconnect and fewer than
-- 2^64 are connected, the counter is the number of connected chains, and the relayer is ready exactly
-- if it is at least the number configured.
pub run_changes-ready :
    (configured : ℕ) (changes : List Change)
    → 0 < configured
    → IsPossible 0 changes
    → ((run_changes changes (Health.new configured)).connected_chains ≡ net 0 changes)
      × ((run_changes changes (Health.new configured)).ready ≡ leb configured (net 0 changes))
unfolding Health.new
run_changes-ready configured changes pos possible =
    run_changes-IsCounted changes 0 (Health.new configured) pos possible
      (record { counted = refl; small = omega arith; flagged = ground (arith, pos) })
