-- ===== src/Near/Pool/Accepts.antt =====
-- When methods return, when they panic, and what the views answer after them.
use sl.Prelude.{
  ℕ, ◌+◌, ◌^◌, ◌<◌, ◌≤◌, ◌≡◌, ◌≢◌, ◌↔◌, refl, sym, ap, Bool, true, false, Option, none, some, List,
  [], ◌∷◌, Text, arith, lt→ltb, length, insert, insert_self, insert_ne, text_beq, text_beq_iff,
  text_eq, nat_eq, Bool-cases, inl, inr, Map,
}
use sl.Prelude.Words.{u128_mod}
use sl.Merkle.{unwrap_or}
use sl.Panic.{assert, >>=-eq-some}
use sl.Near.State.{PrivacyPool, Context}
use sl.Near.Hash.{Host, zero_hash_text}
use sl.Near.Verifier.{verify_proof_binding}
use sl.Near.Tree.{tree_depth, root_history_size, is_known_root}
use sl.Near.Tree.Insert.{placed, insert_leaf-returns, root_after}
use sl.Near.Nullifiers.{is_some, max_nullifiers_per_epoch, check_and_spend_nullifiers}
use sl.Near.Nullifiers.Spend.{
  all_fresh, spent_state, check_and_spend_nullifiers-returns, check_and_spend_nullifiers-short,
}
use sl.Near.Key.{remote_key}
use sl.Near.Key.Injective.{remote_key-injective}
use sl.Near.Pool
use sl.Near.Pool.{may_sync, exactly_two, spend_and_insert, get_remote_epoch_root, get_latest_root}
use sl.Near.Pool.Method.{Method, call}
use sl.Near.Pool.Effects.{deposited, moved, sync_epoch_root-eq-some, transfer-eq-some}
use sl.Near.Pool.History.{History, Reachable}
use sl.Near.Pool.Reachable.{Reachable-IsFaithful}
use sl.Merkle.{IsLog-newest}
use sl.Near.Hash.{poseidon_hash_hex}

-- After a sync that returns, the view answers with the root that was synced for that chain and epoch,
-- and as before for every other chain and epoch.
pub get_remote_epoch_root-sync :
    (context : Context) (chain id : ℕ) (root : Text) (s s' : PrivacyPool)
    → Pool.sync_epoch_root context chain id root s ≡ some s'
    → (get_remote_epoch_root s' chain id ≡ some root)
      × ((chain' id' : ℕ)
          → ◌≢◌ {A = ℕ × ℕ} (chain', id') (chain, id)
          → get_remote_epoch_root s' chain' id' ≡ get_remote_epoch_root s chain' id')
unfolding get_remote_epoch_root
get_remote_epoch_root-sync context chain id root s s' h =
    let written = sync_epoch_root-eq-some context chain id root s s' h in
    rw written (
      insert_self (remote_key chain id) root s.remote_epoch_roots,
      λ chain' id' ne.
          insert_ne (remote_key chain id) (remote_key chain' id') root s.remote_epoch_roots (λ same.
            let (e, e') = remote_key-injective chain id chain' id' same in ne (rw (e, e') refl)),
    )

not_the_relayer :
    (o : Option Text) (caller : Text)
    → o ≢ some caller
    → elim o [ none ↦ false | some r ↦ text_beq caller r ] ≡ false
not_the_relayer none caller ne = refl
not_the_relayer (some r) caller ne = elim (Bool-cases (text_beq caller r)) [
  | inl same ↦ absurd (ne (ap some (sym ((text_beq_iff caller r).0 same))))
  | inr other ↦ other
]

may_sync-false :
    (s : PrivacyPool) (caller : Text)
    → text_beq caller s.governance ≡ false
    → s.authorized_relayer ≢ some caller
    → may_sync s caller ≡ false
unfolding may_sync
may_sync-false s caller other ne = rw other (not_the_relayer s.authorized_relayer caller ne)

module _ (host : Host) where
  -- A caller other than governance makes `finalize_epoch` and `set_authorized_relayer` panic, and
  -- `sync_epoch_root` if it is not the named relayer either.
  pub call_unauthorized :
      (context : Context) (s : PrivacyPool)
      → text_beq context.predecessor s.governance ≡ false
      → (call host context Method.finalize_epoch s ≡ none)
        × ((r : Option Text) → call host context (Method.set_authorized_relayer r) s ≡ none)
        × (s.authorized_relayer ≢ some context.predecessor
            → (chain id : ℕ) (root : Text)
            → call host context (Method.sync_epoch_root chain id root) s ≡ none)
  unfolding call Pool.finalize_epoch Pool.set_authorized_relayer Pool.sync_epoch_root
  call_unauthorized context s other = (
    rw other refl,
    λ r. rw other refl,
    λ ne chain id root. rw (may_sync-false s context.predecessor other ne) refl,
  )

  -- In a pool that calls have reached, the view of the latest root answers with the root of the full
  -- tree over the log of accepted leaves.
  pub get_latest_root-Reachable :
      (h : History) (s : PrivacyPool)
      → Reachable host h s
      → get_latest_root s ≡ root_after host h.leaves
  unfolding get_latest_root
  get_latest_root-Reachable h s reached =
      rw
        (IsLog-newest (poseidon_hash_hex host) zero_hash_text root_history_size tree_depth h.leaves
          s.next_leaf_index s.current_root_index s.filled_subtrees s.roots
          (Reachable-IsFaithful host reached).tree)
        refl

  -- In a pool that calls have reached, a deposit of tokens with a new commitment returns, in a tree
  -- with room and without overflow of the balance, and adds the leaf and the tokens.
  pub deposit-returns :
      (h : History) (s : PrivacyPool) (context : Context) (c : Text)
      → Reachable host h s
      → 0 < context.attached_deposit
      → is_some (s.commitment_exists c) ≡ false
      → s.next_leaf_index < 2 ^ tree_depth
      → s.pool_balance + context.attached_deposit < u128_mod
      → Pool.deposit host context c s ≡ some (deposited host context c s)
  unfolding Pool.deposit
  deposit-returns h s context c reached paid fresh room sum =
      let marked : PrivacyPool = record s {
        commitment_exists = insert c true s.commitment_exists;
      } in
      rw
        (
          lt→ltb _ _ paid,
          fresh,
          insert_leaf-returns host c marked room
              (Reachable-IsFaithful host reached).tree.ring.in_range,
          lt→ltb _ _ sum,
        )
        refl

  -- The conditions under which two nullifiers and two outputs are accepted.
  pub record IsAcceptable (proof root n0 n1 c0 c1 : Text) (s : PrivacyPool) : Type 0 where
    pub known : is_known_root s root ≡ true
    pub fresh0 : is_some (s.nullifier_spent n0) ≡ false
    pub fresh1 : is_some (s.nullifier_spent n1) ≡ false
    pub different : text_beq n0 n1 ≡ false
    pub listed :
        length (unwrap_or [] (s.epoch_nullifiers s.current_epoch_id)) + 2 ≤ max_nullifiers_per_epoch
    pub bound : verify_proof_binding host proof root (n0 ∷ n1 ∷ []) (c0 ∷ c1 ∷ []) ≡ true
    pub room : s.next_leaf_index + 1 < 2 ^ tree_depth

  two_fresh :
      (n0 n1 : Text) (spent : Map Text Bool)
      → (all_fresh (n0 ∷ n1 ∷ []) spent ≡ true)
        ↔ ((is_some (spent n0) ≡ false) × (is_some (spent n1) ≡ false) × (text_beq n0 n1 ≡ false))
  two_fresh n0 n1 spent = ground arith

  spend_and_insert-returns :
      (proof root n0 n1 c0 c1 : Text) (s : PrivacyPool)
      → s.current_root_index < root_history_size
      → IsAcceptable proof root n0 n1 c0 c1 s
      → spend_and_insert host proof root (n0 ∷ n1 ∷ []) (c0 ∷ c1 ∷ []) (c0, c1) s
        ≡ some (moved host (n0 ∷ n1 ∷ []) c0 c1 s)
  unfolding spend_and_insert
  spend_and_insert-returns proof root n0 n1 c0 c1 s small ok =
      let ns : List Text = n0 ∷ n1 ∷ [] in
      rw
        (
          ok.known,
          check_and_spend_nullifiers-returns ns s
              ((two_fresh n0 n1 s.nullifier_spent).1 (ok.fresh0, ok.fresh1, ok.different))
              ok.listed,
          ok.bound,
          insert_leaf-returns host c0 (spent_state ns s) (omega (arith, ok.room)) small,
          insert_leaf-returns host c1 (placed host c0 (spent_state ns s)) ok.room
              (omega (arith, small)),
        )
        refl

  check_and_spend-of-transfer :
      (proof root n0 n1 c0 c1 : Text) (s s' : PrivacyPool)
      → Pool.transfer host proof root (n0 ∷ n1 ∷ []) (c0 ∷ c1 ∷ []) s ≡ some s'
      → (t : PrivacyPool) × (check_and_spend_nullifiers (n0 ∷ n1 ∷ []) s ≡ some t)
  unfolding Pool.transfer spend_and_insert exactly_two
  check_and_spend-of-transfer proof root n0 n1 c0 c1 s s' h =
      let (u, e1, h1) = >>=-eq-some (assert (is_known_root s root)) _ h in
      let (t, e2, h2) = >>=-eq-some (check_and_spend_nullifiers (n0 ∷ n1 ∷ []) s) _ h1 in (t, e2)

  -- In a pool that calls have reached, a transfer of two nullifiers and two outputs returns exactly
  -- if the root is known, the nullifiers are different and unspent, the epoch's list and the tree have
  -- room for two more, and the proof is bound to its inputs.
  pub transfer-accepts :
      (h : History) (s : PrivacyPool) (proof root n0 n1 c0 c1 : Text)
      → Reachable host h s
      → ((s' : PrivacyPool) × (Pool.transfer host proof root (n0 ∷ n1 ∷ []) (c0 ∷ c1 ∷ []) s
            ≡ some s'))
        ↔ IsAcceptable proof root n0 n1 c0 c1 s
  transfer-accepts h s proof root n0 n1 c0 c1 reached = (
    λ (s', e).
        let done = transfer-eq-some host proof root (n0 ∷ n1 ∷ []) (c0 ∷ c1 ∷ []) s s' e in
        let fresh = (two_fresh n0 n1 s.nullifier_spent).0 done.fresh in
        let (t, spends) = check_and_spend-of-transfer proof root n0 n1 c0 c1 s s' e in
        record {
          known = done.known;
          fresh0 = fresh.0;
          fresh1 = fresh.1;
          different = fresh.2;
          listed = check_and_spend_nullifiers-short n0 (n1 ∷ []) s t spends;
          bound = done.bound;
          room = done.room;
        },
    λ ok. (
      moved host (n0 ∷ n1 ∷ []) c0 c1 s,
      unfold Pool.transfer exactly_two in
          spend_and_insert-returns proof root n0 n1 c0 c1 s
            (Reachable-IsFaithful host reached).tree.ring.in_range ok,
    ),
  )
