-- ===== src/Ink/Faithful.antt =====
-- What the state of a pool of ink/privacy-pool/lib.rs stands for, and that a new leaf or output keeps.
use sl.Prelude.{
  ℕ, ◌+◌, ◌<◌, ◌≡◌, refl, sym, ◌∙◌, Bool, true, false, Option, none, some, List, [], ◌∷◌, ◌++◌,
  Text, arith, text_eq, nat_eq, length, length-append,
}
use sl.Prelude.Words.{u32_mod}
use sl.Ring.{contains}
use sl.Distinct.{is_distinct, contains-append, is_distinct-append_one}
use sl.Sparse.{row-nil, top-nil}
use sl.Ink.State.{PrivacyPool, CommitRecord, Env, Host}
use sl.Ink.Tree.{is_some, hash_pair, push_root, tree_depth, zero_value}
use sl.Ink.Tree.Append.{HasLeaves, HasLeaves-same, Stores-HasLeaves, Kept, Stores-Kept, root_over}
use sl.Ink.Tree.History.{HasHistory, start-IsRing, push_root-HasHistory}
use sl.Ink.Proof.{Pair}
use sl.Ink.Pool
use sl.Ink.Pool.{is_nullifier_spent, mark_spent}
use sl.Ink.Pool.Effects.{Adds}
use sl.Ink.History.{History, no_history, with_outputs}

-- Whether a commit was revealed or reclaimed.
abbrev pub is_used : Option CommitRecord → Bool
is_used none = false
is_used (some commit) = commit.revealed

module _ (host : Host) where
  -- The roots over versions of the log.
  abbrev pub roots_over : List (List Text) → List Text
  roots_over [] = []
  roots_over (log ∷ versions) = root_over host log ∷ roots_over versions

  -- The state stands for the history.
  pub record IsFaithful (h : History) (s : PrivacyPool) : Type 0 where
    pub tree : HasLeaves host h.leaves s
    pub past : HasHistory (roots_over h.versions) s
    pub marks : (k : Text) → is_nullifier_spent s k ≡ contains k h.spent
    pub once : is_distinct h.spent ≡ true
    pub new_leaves : is_distinct h.leaves ≡ true
    pub commits : (k : Text) → is_used (s.pending_commits k) ≡ contains k h.used
    pub used_once : is_distinct h.used ≡ true
    pub balance : s.pool_balance + h.paid ≡ h.received

  pub new-IsFaithful : (env : Env) (d : ℕ) → IsFaithful no_history (Pool.new env d)
  unfolding Pool.new is_nullifier_spent is_some
  new-IsFaithful env d = record {
    tree = record {
      counted = refl;
      rows = λ l i le. rw (row-nil (hash_pair host) zero_value l) refl;
      root = sym (top-nil (hash_pair host) zero_value tree_depth);
      listed = λ c. refl;
    };
    past = record { newest = 99; ring = start-IsRing; cursor = refl };
    marks = λ k. refl;
    once = refl;
    new_leaves = refl;
    commits = λ k. refl;
    used_once = refl;
    balance = refl;
  }

  pub marks_after :
      (ns : Pair) (seen : List Text) (s : PrivacyPool)
      → ((k : Text) → is_nullifier_spent s k ≡ contains k seen)
      → (k : Text)
      → is_nullifier_spent (mark_spent ns s) k ≡ contains k ((seen ++ ns.0 ∷ []) ++ ns.1 ∷ [])
  unfolding is_nullifier_spent mark_spent
  marks_after (n0, n1) seen s marks k = ground (
    arith,
    marks k,
    contains-append k (seen ++ n0 ∷ []) (n1 ∷ []),
    contains-append k seen (n0 ∷ []),
  )

  -- A leaf in the tree, with its root pushed.
  pub pushes :
      (c : Text) (log : List Text) (pushed : List Text) (s s' : PrivacyPool)
      → HasLeaves host log s'
      → s'.root_history ≡ s.root_history
      → s'.root_history_cursor ≡ s.root_history_cursor
      → HasHistory pushed s
      → HasHistory (root_over host log ∷ pushed) (push_root s')
  pushes c log pushed s s' tree same same' past = rw (← tree.root) (
      push_root-HasHistory pushed s'
        (record { newest = past.newest; ring = rw same past.ring; cursor = same' ∙ past.cursor }))

  pub push_root-HasLeaves :
      (log : List Text) (s : PrivacyPool) → HasLeaves host log s → HasLeaves host log (push_root s)
  unfolding push_root
  push_root-HasLeaves log s tree = HasLeaves-same host log s (push_root s) refl refl refl refl tree

  pub new_leaf-is_distinct :
      (c : Text) (log : List Text) (s : PrivacyPool)
      → HasLeaves host log s
      → is_some (s.leaves c) ≡ false
      → is_distinct log ≡ true
      → is_distinct (log ++ c ∷ []) ≡ true
  new_leaf-is_distinct c log s tree fresh new =
      is_distinct-append_one log c new (sym (tree.listed c) ∙ fresh)

  -- Both outputs in the tree.
  pub record HasOutputs (outs : Pair) (log : List Text) (s last : PrivacyPool) : Type 0 where
    pub tree : HasLeaves host (with_outputs outs log) last
    pub new : is_distinct (with_outputs outs log) ≡ true
    pub kept : Kept host s last

  Kept-trans : (s t u : PrivacyPool) → Kept host s t → Kept host t u → Kept host s u
  Kept-trans s t u a b = record {
    nullifiers = b.nullifiers ∙ a.nullifiers;
    pending_commits = b.pending_commits ∙ a.pending_commits;
    pool_balance = b.pool_balance ∙ a.pool_balance;
    root_history = b.root_history ∙ a.root_history;
    root_history_cursor = b.root_history_cursor ∙ a.root_history_cursor;
    epochs = b.epochs ∙ a.epochs;
    current_epoch = b.current_epoch ∙ a.current_epoch;
  }

  pub Adds-HasOutputs :
      (outs : Pair) (log : List Text) (s mid last : PrivacyPool)
      → Adds host outs.0 s mid
      → Adds host outs.1 mid last
      → HasLeaves host log s
      → is_distinct log ≡ true
      → length (with_outputs outs log) < u32_mod
      → HasOutputs outs log s last
  Adds-HasOutputs outs log s mid last first second tree new room =
      let size = length-append log (outs.0 ∷ []) in
      let size' = length-append (log ++ outs.0 ∷ []) (outs.1 ∷ []) in
      let tree' =
        Stores-HasLeaves host outs.0 log s mid first.stores tree (omega (arith, size, size')) in
      record {
        tree =
            Stores-HasLeaves host outs.1 (log ++ outs.0 ∷ []) mid last second.stores tree'
              (omega (arith, size'));
        new =
            new_leaf-is_distinct outs.1 (log ++ outs.0 ∷ []) mid tree' second.fresh
              (new_leaf-is_distinct outs.0 log s tree first.fresh new);
        kept =
            Kept-trans s mid last (Stores-Kept host outs.0 s mid first.stores)
              (Stores-Kept host outs.1 mid last second.stores);
      }
