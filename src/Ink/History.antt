-- ===== src/Ink/History.antt =====
-- What a pool of ink/privacy-pool/lib.rs has accepted so far, and the states that its messages reach.
use sl.Prelude.{ℕ, ◌+◌, ◌<◌, ◌≡◌, List, [], ◌∷◌, ◌++◌, Text, length}
use sl.Prelude.Words.{u32_mod, u128_mod}
use sl.Fallible.{ok}
use sl.Ink.State.{PrivacyPool, Env, Host, Payment}
use sl.Ink.Proof.{Pair}
use sl.Ink.Pool
use sl.Ink.Message.{Message, call}

pub record History : Type 0 where
  -- Oldest first.
  pub leaves : List Text
  -- The leaves after each message that added some, newest first.
  pub versions : List (List Text)
  -- Oldest first.
  pub spent : List Text
  -- The commits that were revealed or reclaimed, oldest first.
  pub used : List Text
  -- The leaves when each epoch was closed, the first epoch first.
  pub closed : List (List Text)
  pub received : ℕ
  pub paid : ℕ

abbrev pub no_history : History
no_history = record {
  leaves = [];
  versions = [];
  spent = [];
  used = [];
  closed = [];
  received = 0;
  paid = 0;
}

abbrev pub total_paid : List Payment → ℕ
total_paid [] = 0
total_paid (p ∷ payments) = p.amount + total_paid payments

-- Two leaves more.
abbrev pub with_outputs : Pair → List Text → List Text
with_outputs outs log = (log ++ outs.0 ∷ []) ++ outs.1 ∷ []

abbrev pub spend : Pair → Pair → History → History
spend ns outs h = record h {
  leaves = with_outputs outs h.leaves;
  versions = with_outputs outs h.leaves ∷ h.versions;
  spent = (h.spent ++ ns.0 ∷ []) ++ ns.1 ∷ [];
}

-- What a message that returned adds.
abbrev pub after : Env → Message → List Payment → History → History
after env (Message.deposit c) payments h = record h {
  leaves = h.leaves ++ c ∷ [];
  versions = (h.leaves ++ c ∷ []) ∷ h.versions;
  received = h.received + env.transferred_value;
}
after env (Message.transfer p r ns outs) payments h = spend ns outs h
after env (Message.withdraw p r ns outs to v) payments h = record (spend ns outs h) {
  paid = h.paid + total_paid payments;
}
after env (Message.commit_deposit k) payments h = record h {
  received = h.received + env.transferred_value;
}
after env (Message.reveal_deposit k c) payments h = record h {
  leaves = h.leaves ++ c ∷ [];
  versions = (h.leaves ++ c ∷ []) ∷ h.versions;
  used = h.used ++ k ∷ [];
}
after env (Message.reclaim_expired_commit k) payments h = record h { used = h.used ++ k ∷ [] }
after env Message.finalize_epoch payments h = record h { closed = h.closed ++ h.leaves ∷ [] }
after env _ payments h = h

-- The states that a pool reaches from `new` by messages that return, with their history.
pub data Reachable (host : Host) : History → PrivacyPool → Type 0 where
  created :
      (env : Env) → (epoch_duration : ℕ) → Reachable host no_history (Pool.new env epoch_duration)
  called :
      {h : History} {s : PrivacyPool}
      → Reachable host h s
      → (env : Env) → (m : Message) → (payments : List Payment) → (s' : PrivacyPool)
      → call host env m s ≡ ok (payments, s')
      → Reachable host (after env m payments h) s'

-- Fewer than 2 ^ 32 leaves and epochs, and 2 ^ 128 tokens: no counter wraps.
pub record Fits (h : History) : Type 0 where
  pub few_leaves : length h.leaves < u32_mod
  pub few_tokens : h.received < u128_mod
  pub few_epochs : length h.closed < u32_mod
