-- ===== src/CosmWasm/Contract/Accepts.antt =====
-- When calls succeed, and when governance's do not.
use sl.Prelude.{
  ℕ, ◌+◌, ◌^◌, ◌<◌, ◌≡◌, ◌≢◌, refl, sym, ap, true, false, Option, none, some, List, [], ◌∷◌, Text,
  arith, insert, text_eq, nat_eq, text_beq, nat_beq, lt→ltb, ◌⊎◌, inl, inr, Bool-cases,
  Option-cases, text_beq_iff,
}
use sl.Prelude.Words.{u32_mod, u128_mod}
use sl.Ring.{contains}
use sl.CosmWasm.Outcome.{ok, err, panic, unauthorized}
use sl.CosmWasm.Poseidon.{Crates, hex_to_32, poseidon_hash_hex}
use sl.CosmWasm.Poseidon.Digest.{IsHexEncode, IsHex, hash_value}
use sl.CosmWasm.State.{State, EpochInfo}
use sl.CosmWasm.Msg.{ExecuteMsg, Pair, Env, MessageInfo, Response}
use sl.CosmWasm.Msg
use sl.CosmWasm.Tree.History.{IsPool}
use sl.CosmWasm.Tree.Total.{AllHex, insert_leaf-total}
use sl.CosmWasm.Nullifiers.{flag, fold_nullifiers, compute_nullifier_root}
use sl.CosmWasm.Contract.{
  no_messages, amount_of, may_sync, execute_deposit, execute_finalize_epoch,
  execute_sync_epoch_root, execute_update_governance, execute_set_authorized_relayer, execute,
}
use sl.CosmWasm.Contract.Spend.{insert_leaf-SameLedger}

nonzero : (v : ℕ) → 0 < v → nat_beq v 0 ≡ false
nonzero v h = ground arith

not_the_relayer :
    (o : Option Text) (sender : Text)
    → o ≢ some sender
    → elim o [ none ↦ false | some r ↦ text_beq sender r ] ≡ false
not_the_relayer none sender ne = refl
not_the_relayer (some r) sender ne = elim (Bool-cases (text_beq sender r)) [
  | inl same ↦ absurd (ne (ap some (sym ((text_beq_iff sender r).0 same))))
  | inr other ↦ other
]

may_sync-false :
    (s : State) (sender : Text)
    → text_beq sender s.config.governance ≡ false
    → s.config.authorized_relayer ≢ some sender
    → may_sync s sender ≡ false
unfolding may_sync
may_sync-false s sender other ne = rw other (not_the_relayer s.config.authorized_relayer sender ne)

module _ (crates : Crates) where
  -- A deposit of a readable, new commitment with funds is accepted, in a tree with room over
  -- readable leaves, where the balance does not overflow.
  pub execute_deposit-total :
      (info : MessageInfo) (c : Text) (log : List Text) (s : State)
      → IsHexEncode crates.hex_encode
      → IsPool crates log s
      → AllHex log
      → IsHex c
      → s.config.tree_depth < 64
      → s.config.root_history_size < u32_mod
      → s.next_leaf_index < 2 ^ s.config.tree_depth
      → flag (s.commitment_exists c) ≡ false
      → 0 < amount_of s.config.accepted_denom info.funds
      → s.pool_balance + amount_of s.config.accepted_denom info.funds < u128_mod
      → (out : Response × State) × (execute_deposit crates info c s ≡ ok out)
  unfolding execute_deposit
  execute_deposit-total info c log s law pool all hex deep size room fresh paid fits =
      let marked : State = record s { commitment_exists = insert c true s.commitment_exists } in
      let ready : IsPool crates log marked = record { tree = pool.tree; ring = pool.ring } in
      let (made, e) = insert_leaf-total crates law c log marked ready all hex deep size room in
      let kept = insert_leaf-SameLedger crates c marked made.1 made.0 e in
      let fits' : made.1.pool_balance + amount_of s.config.accepted_denom info.funds < u128_mod =
        omega (arith, kept.pool_balance) in
      (
        (
          no_messages,
          record made.1 {
            pool_balance = made.1.pool_balance + amount_of s.config.accepted_denom info.funds;
          },
        ),
        rw (nonzero _ paid, fresh, e, lt→ltb _ _ fits') refl,
      )

  -- Only governance finalizes an epoch, hands governance on or names a relayer, and only governance
  -- or the named relayer syncs a remote root: anyone else gets `Unauthorized`.
  pub execute_unauthorized :
      (env : Env) (info : MessageInfo) (s : State)
      → text_beq info.sender s.config.governance ≡ false
      → (execute crates env info Msg.finalize_epoch s ≡ err unauthorized)
        × ((g : Text) → execute crates env info (Msg.update_governance g) s ≡ err unauthorized)
        × ((r : Option Text)
            → execute crates env info (Msg.set_authorized_relayer r) s ≡ err unauthorized)
        × (s.config.authorized_relayer ≢ some info.sender
            → (chain epoch_id : ℕ) (root : Text)
            → execute crates env info (Msg.sync_epoch_root chain epoch_id root) s
              ≡ err unauthorized)
  unfolding execute execute_finalize_epoch execute_update_governance execute_set_authorized_relayer
      execute_sync_epoch_root
  execute_unauthorized env info s other = (
    rw other refl,
    λ g. rw other refl,
    λ r. rw other refl,
    λ ne chain epoch_id root. rw (may_sync-false s info.sender other ne) refl,
  )

  -- The hash panics on a right operand that it cannot read.
  hash_unreadable : (l r : Text) → hex_to_32 r ≡ none → poseidon_hash_hex crates l r ≡ panic
  unfolding poseidon_hash_hex
  hash_unreadable l r e = ground (arith, e)

  hash_ok_or_panic :
      (l r : Text)
      → ((h : Text) × (poseidon_hash_hex crates l r ≡ ok h))
        ⊎ (poseidon_hash_hex crates l r ≡ panic)
  unfolding poseidon_hash_hex
  hash_ok_or_panic l r = elim (Option-cases (hex_to_32 l)) [
    | inl e ↦ inr (rw e refl)
    | inr (ls, e) ↦ elim (Option-cases (hex_to_32 r)) [
      | inl e' ↦ inr (rw (e, e') refl)
      | inr (rs, e') ↦ inl (_, hash_value crates l r ls rs e e')
    ]
  ]

  fold_unreadable :
      (current bad : Text) (rest : List Text)
      → hex_to_32 bad ≡ none
      → contains bad rest ≡ true
      → fold_nullifiers crates current rest ≡ panic
  unfolding fold_nullifiers
  fold_unreadable current bad [] e h = cc
  fold_unreadable current bad (x ∷ rest) e h = elim (hash_ok_or_panic current x) [
    | inr stops ↦ rw stops refl
    | inl (y, ey) ↦ elim (Bool-cases (text_beq x bad)) [
      | inl this ↦
          let stops = hash_unreadable current x (rw ((text_beq_iff x bad).0 this) e) in
          rw stops refl
      | inr other ↦ rw ey (fold_unreadable y bad rest e (rw other at h))
    ]
  ]

  -- Where the list of the current epoch holds, behind its first entry, a nullifier that is not
  -- hexadecimal of 32 bytes, governance cannot finalize the epoch: every attempt panics.
  pub finalize_stuck :
      (env : Env) (info : MessageInfo) (s : State) (e : EpochInfo) (first bad : Text)
      (rest : List Text)
      → text_beq info.sender s.config.governance ≡ true
      → s.epochs s.current_epoch_id ≡ some e
      → e.finalized ≡ false
      → s.epoch_nullifiers s.current_epoch_id ≡ some (first ∷ rest)
      → hex_to_32 bad ≡ none
      → contains bad rest ≡ true
      → execute_finalize_epoch crates env info s ≡ panic
  unfolding execute_finalize_epoch compute_nullifier_root
  finalize_stuck env info s e first bad rest gov at open_now listed unreadable there =
      rw (gov, at, open_now, listed, fold_unreadable first bad rest unreadable there) refl
