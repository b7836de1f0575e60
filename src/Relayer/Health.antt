-- ===== src/Relayer/Health.antt =====
-- `HealthState` of relayer/src/health.rs. Its counters are atomic; each mark is taken as one step. The
-- start time, which only the uptime reads, is left out.
pub mod Ready
use sl.Prelude.{ℕ, ◌+◌, ◌-◌, ◌%◌, Bool, true, false, List, [], ◌∷◌, leb, if◌then◌else◌}
use sl.Prelude.Words.{u64_mod}

pub record HealthState : Type 0 where
  pub configured_chains : ℕ
  pub connected_chains : ℕ
  pub ready : Bool
  pub last_relay_timestamp : ℕ

unfoldable pub new : ℕ → HealthState
new configured_chains = record {
  configured_chains = configured_chains;
  connected_chains = 0;
  ready = false;
  last_relay_timestamp = 0;
}

-- `fetch_add` and `fetch_sub` wrap around.
unfoldable pub mark_chain_connected : HealthState → HealthState
mark_chain_connected h =
    let up = (h.connected_chains + 1) % u64_mod in
    record h { connected_chains = up; ready = if leb h.configured_chains up then true else h.ready }

unfoldable pub mark_chain_disconnected : HealthState → HealthState
mark_chain_disconnected h = record h {
  connected_chains = (h.connected_chains + (u64_mod - 1)) % u64_mod;
  ready = if leb h.connected_chains h.configured_chains then false else h.ready;
}

unfoldable pub record_relay : ℕ → HealthState → HealthState
record_relay timestamp h = record h { last_relay_timestamp = timestamp }

pub data Change : Type 0 where
  connected disconnected : Change
  relayed : (timestamp : ℕ) → Change

unfoldable pub run_changes : List Change → HealthState → HealthState
run_changes [] h = h
run_changes (connected ∷ changes) h = run_changes changes (mark_chain_connected h)
run_changes (disconnected ∷ changes) h = run_changes changes (mark_chain_disconnected h)
run_changes (relayed timestamp ∷ changes) h = run_changes changes (record_relay timestamp h)
