-- ===== src/Near/Pool/History.antt =====
-- What a pool has accepted so far, and the states that its calls reach.
use sl.Prelude.{ℕ, ◌+◌, ◌≡◌, false, some, List, [], ◌∷◌, ◌++◌, Text}
use sl.Near.State.{PrivacyPool, Context, Transfer}
use sl.Near.Hash.{Host}
use sl.Near.Pool
use sl.Near.Pool.Method.{Method, call}

pub record History : Type 0 where
  -- Newest first.
  pub leaves : List Text
  -- Oldest first.
  pub spent : List Text
  pub received : ℕ
  pub paid : ℕ

abbrev pub no_history : History
no_history = record { leaves = []; spent = []; received = 0; paid = 0 }

-- The leaves of a list of outputs, newest first.
abbrev pub newest_first : List Text → List Text → List Text
newest_first [] log = log
newest_first (x ∷ xs) log = newest_first xs (x ∷ log)

abbrev pub total_paid : List Transfer → ℕ
total_paid [] = 0
total_paid (t ∷ transfers) = t.amount + total_paid transfers

-- What a call that returned adds.
abbrev pub after : Context → Method → List Transfer → History → History
after context (Method.deposit c) transfers h = record h {
  leaves = c ∷ h.leaves;
  received = h.received + context.attached_deposit;
  paid = h.paid + total_paid transfers;
}
after context (Method.transfer p r ns outs) transfers h = record h {
  leaves = newest_first outs h.leaves;
  spent = h.spent ++ ns;
  paid = h.paid + total_paid transfers;
}
after context (Method.withdraw p r ns outs to v) transfers h = record h {
  leaves = newest_first outs h.leaves;
  spent = h.spent ++ ns;
  paid = h.paid + total_paid transfers;
}
after context _ transfers h = record h { paid = h.paid + total_paid transfers }

-- The states that a pool reaches from `new` by calls that return, with their history. A call that
-- panics leaves the state as it is.
pub data Reachable (host : Host) : History → PrivacyPool → Type 0 where
  created :
      (context : Context)
      → (governance : Text) → (chain_id app_id : ℕ) → (s : PrivacyPool)
      → Pool.new host context false governance chain_id app_id ≡ some s
      → Reachable host no_history s
  called :
      {h : History} {s : PrivacyPool}
      → Reachable host h s
      → (context : Context) → (m : Method) → (transfers : List Transfer) → (s' : PrivacyPool)
      → call host context m s ≡ some (transfers, s')
      → Reachable host (after context m transfers h) s'
