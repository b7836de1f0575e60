-- ===== src/Near/Pool/Epochs.antt =====
-- Epochs of a pool that calls have reached: which are closed, with which root, and how their lists
-- share out the nullifiers.
use sl.Prelude.{
  ℕ, zero, suc, ◌+◌, ◌%◌, ◌<◌, ◌≤◌, ◌≡◌, ◌≢◌, refl, sym, ap, ◌∙◌, true, false, Option, none, some,
  List, [], ◌++◌, Text, arith, nat_eq, Map, insert, insert_ne, insert_self, length, nat_beq,
  Bool-cases, inl, inr,
}
use sl.Prelude.Words.{u32_mod}
use mathlib.Core.List.{append_assoc, append-nil}
use sl.Merkle.{unwrap_or}
use sl.Panic.{some-injective}
use sl.Near.State.{PrivacyPool, EpochInfo, Context, Transfer}
use sl.Near.Hash.{Host, compute_nullifier_root}
use sl.Near.Nullifiers.Spend.{spent_state}
use sl.Near.Pool
use sl.Near.Pool.{open_epoch}
use sl.Near.Pool.Method.{Method, call}
use sl.Near.Pool.Effects.{
  deposit-eq-some, sealed, Moves, transfer-eq-some, withdraw-eq-some, Closes,
  finalize_epoch-eq-some, set_authorized_relayer-eq-some, sync_epoch_root-eq-some,
}
use sl.Near.Pool.History.{History, after, Reachable, created, called}
use sl.Near.Pool.Reachable.{quiet, withdrawn}

-- The lists of the epochs below a number, joined.
abbrev pub joined_below : ℕ → Map ℕ (List Text) → List Text
joined_below zero lists = []
joined_below (suc id) lists = joined_below id lists ++ unwrap_or [] (lists id)

joined_below-insert :
    (n j : ℕ) (v : List Text) (lists : Map ℕ (List Text))
    → n ≤ j
    → joined_below n (insert j v lists) ≡ joined_below n lists
joined_below-insert zero j v lists le = refl
joined_below-insert (suc n) j v lists le =
    let ne : j ≢ n = omega arith in
    rw (joined_below-insert n j v lists (omega arith), insert_ne j n v lists ne) refl

-- An epoch that is stored as closed, with the root and the size of its list.
pub record IsClosed (host : Host) (s : PrivacyPool) (id : ℕ) : Type 0 where
  pub info : EpochInfo
  pub stored : s.epochs id ≡ some info
  pub finalized : info.finalized ≡ true
  pub root :
      info.nullifier_root ≡ compute_nullifier_root host (unwrap_or [] (s.epoch_nullifiers id))
  pub count : info.nullifier_count ≡ length (unwrap_or [] (s.epoch_nullifiers id)) % u32_mod

pub record IsTimeline (host : Host) (spent : List Text) (s : PrivacyPool) : Type 0 where
  pub current : (e : EpochInfo) × (s.epochs s.current_epoch_id ≡ some e) × (e.finalized ≡ false)
  pub closed : (id : ℕ) → id < s.current_epoch_id → IsClosed host s id
  pub future : (id : ℕ) → s.current_epoch_id < id → s.epochs id ≡ none
  pub joined : joined_below (suc s.current_epoch_id) s.epoch_nullifiers ≡ spent

module _ (host : Host) where
  new-IsTimeline :
      (context : Context) (governance : Text) (chain_id app_id : ℕ) (s : PrivacyPool)
      → Pool.new host context false governance chain_id app_id ≡ some s
      → IsTimeline host [] s
  unfolding Pool.new open_epoch
  new-IsTimeline context governance chain_id app_id s h = rw (← some-injective h) (record {
    current = (open_epoch context.block_height, refl, refl);
    closed = λ id lt. absurd (omega arith);
    future = λ id lt. ground arith;
    joined = refl;
  })

  -- The same epochs and lists.
  IsTimeline-same :
      {spent : List Text} {s s' : PrivacyPool}
      → s'.epochs ≡ s.epochs
      → s'.current_epoch_id ≡ s.current_epoch_id
      → s'.epoch_nullifiers ≡ s.epoch_nullifiers
      → IsTimeline host spent s
      → IsTimeline host spent s'
  IsTimeline-same epochs id lists t = record {
    current = rw (epochs, id) t.current;
    closed = λ j lt.
        let c = t.closed j (rw (← id) lt) in
        record {
          info = c.info;
          stored = rw epochs c.stored;
          finalized = c.finalized;
          root = rw lists c.root;
          count = rw lists c.count;
        };
    future = λ j lt. rw epochs (t.future j (rw (← id) lt));
    joined = rw (id, lists) t.joined;
  }

  spent_state-IsTimeline :
      (ns spent : List Text) (s : PrivacyPool)
      → IsTimeline host spent s
      → IsTimeline host (spent ++ ns) (spent_state ns s)
  spent_state-IsTimeline ns spent s t =
      let cur = s.current_epoch_id in
      let old : List Text = unwrap_or [] (s.epoch_nullifiers cur) in
      record {
        current = t.current;
        closed = λ j lt.
            let c = t.closed j lt in
            let ne : cur ≢ j = omega arith in
            let kept = insert_ne cur j (old ++ ns) s.epoch_nullifiers ne in
            record {
              info = c.info;
              stored = c.stored;
              finalized = c.finalized;
              root = rw kept c.root;
              count = rw kept c.count;
            };
        future = t.future;
        joined =
            rw
              (
                joined_below-insert cur cur (old ++ ns) s.epoch_nullifiers (omega arith),
                insert_self cur (old ++ ns) s.epoch_nullifiers,
              )
              (sym (append_assoc (joined_below cur s.epoch_nullifiers) old ns)
                ∙ ap (λ (l : List Text). l ++ ns) t.joined);
      }

  Moves-IsTimeline :
      {p r : Text} {ns outs spent : List Text} {s s' : PrivacyPool}
      → Moves host p r ns outs s s'
      → IsTimeline host spent s
      → IsTimeline host (spent ++ ns) s'
  Moves-IsTimeline {ns} {spent} {s} done t =
      IsTimeline-same (ap (λ (t : PrivacyPool). t.epochs) done.written)
        (ap (λ (t : PrivacyPool). t.current_epoch_id) done.written)
        (ap (λ (t : PrivacyPool). t.epoch_nullifiers) done.written)
        (spent_state-IsTimeline ns spent s t)

  closed-IsClosed :
      (context : Context) (spent : List Text) (s s' : PrivacyPool)
      → (done : Closes host context s s') → IsTimeline host spent s
      → (id : ℕ) → id < s.current_epoch_id + 1
      → IsClosed host s' id
  closed-IsClosed context spent s s' done t id lt =
      let cur = s.current_epoch_id in
      let info' : EpochInfo =
        sealed host context done.info (unwrap_or [] (s.epoch_nullifiers cur)) in
      let opened : EpochInfo = open_epoch context.block_height in
      let inner : Map ℕ EpochInfo = insert cur info' s.epochs in
      let later : cur + 1 ≢ id = omega arith in
      elim (Bool-cases (nat_beq cur id)) [
        | inl same ↦
            let e : cur ≡ id = ground arith in
            rw (done.written, ← e)
              (let up : cur + 1 ≢ cur = omega arith in
                record {
                  info = info';
                  stored = insert_ne (cur + 1) cur opened inner up ∙ insert_self cur info' s.epochs;
                  finalized = refl;
                  root =
                      ap (λ (o : Option (List Text)). compute_nullifier_root host (unwrap_or [] o))
                        (sym (insert_ne (cur + 1) cur [] s.epoch_nullifiers up));
                  count =
                      ap (λ (o : Option (List Text)). length (unwrap_or [] o) % u32_mod)
                        (sym (insert_ne (cur + 1) cur [] s.epoch_nullifiers up));
                })
        | inr other ↦
            let ne : cur ≢ id = ground arith in
            let c = t.closed id (ground arith) in
            rw done.written (record {
              info = c.info;
              stored =
                  insert_ne (cur + 1) id opened inner later
                  ∙ (insert_ne cur id info' s.epochs ne ∙ c.stored);
              finalized = c.finalized;
              root = rw (insert_ne (cur + 1) id [] s.epoch_nullifiers later) c.root;
              count = rw (insert_ne (cur + 1) id [] s.epoch_nullifiers later) c.count;
            })
      ]

  Closes-IsTimeline :
      {context : Context} {spent : List Text} {s s' : PrivacyPool}
      → Closes host context s s'
      → IsTimeline host spent s
      → IsTimeline host spent s'
  unfolding open_epoch
  Closes-IsTimeline {context} {spent} {s} {s'} done t =
      let cur = s.current_epoch_id in
      let above : cur + 1 ≡ suc cur = omega arith in
      let info' : EpochInfo =
        sealed host context done.info (unwrap_or [] (s.epoch_nullifiers cur)) in
      let opened : EpochInfo = open_epoch context.block_height in
      let inner : Map ℕ EpochInfo = insert cur info' s.epochs in
      let id_is : s'.current_epoch_id ≡ cur + 1 =
        ap (λ (t : PrivacyPool). t.current_epoch_id) done.written in
      record {
        current = rw done.written (opened, insert_self (cur + 1) opened inner, refl);
        closed = λ id lt. closed-IsClosed context spent s s' done t id (omega (arith, id_is));
        future = λ id lt.
            let e1 : cur + 1 ≢ id = omega (arith, id_is) in
            let e2 : cur ≢ id = omega (arith, id_is) in
            rw done.written (
              insert_ne (cur + 1) id opened inner e1
              ∙ (insert_ne cur id info' s.epochs e2 ∙ t.future id (omega (arith, id_is))));
        joined =
            rw
              (
                done.written,
                joined_below-insert (cur + 1) (cur + 1) [] s.epoch_nullifiers (omega arith),
                insert_self (cur + 1) [] s.epoch_nullifiers,
              )
              (append-nil (joined_below (cur + 1) s.epoch_nullifiers)
                ∙ (ap (λ (n : ℕ). joined_below n s.epoch_nullifiers) above ∙ t.joined));
      }

  call-IsTimeline :
      (context : Context) (m : Method) (h : History) (s : PrivacyPool) (transfers : List Transfer)
      (s' : PrivacyPool)
      → call host context m s ≡ some (transfers, s')
      → IsTimeline host h.spent s
      → IsTimeline host (after context m transfers h).spent s'
  unfolding call
  call-IsTimeline context (Method.deposit c) h s transfers s' e t =
      let done = deposit-eq-some host context c s s' (quiet (Pool.deposit host context c s) e).0 in
      IsTimeline-same (ap (λ (t : PrivacyPool). t.epochs) done.written)
        (ap (λ (t : PrivacyPool). t.current_epoch_id) done.written)
        (ap (λ (t : PrivacyPool). t.epoch_nullifiers) done.written) t
  call-IsTimeline context (Method.transfer p r ns outs) h s transfers s' e t =
      Moves-IsTimeline
        (transfer-eq-some host p r ns outs s s' (quiet (Pool.transfer host p r ns outs s) e).0) t
  call-IsTimeline context (Method.withdraw p r ns outs to v) h s transfers s' e t =
      let (out, done, paid, same) = withdrawn host context p r ns outs to v s e in
      let w = withdraw-eq-some host p r ns outs to v s out done in
      let all = same ∙ ap (λ (o : Transfer × PrivacyPool). o.1) w.written in
      IsTimeline-same (ap (λ (t : PrivacyPool). t.epochs) all)
        (ap (λ (t : PrivacyPool). t.current_epoch_id) all)
        (ap (λ (t : PrivacyPool). t.epoch_nullifiers) all) (Moves-IsTimeline w.moves t)
  call-IsTimeline context (Method.set_authorized_relayer r) h s transfers s' e t =
      let done = quiet (Pool.set_authorized_relayer context r s) e in
      rw (set_authorized_relayer-eq-some context r s s' done.0) (IsTimeline-same refl refl refl t)
  call-IsTimeline context Method.finalize_epoch h s transfers s' e t =
      Closes-IsTimeline
        (finalize_epoch-eq-some host context s s' (quiet (Pool.finalize_epoch host context s) e).0)
        t
  call-IsTimeline context (Method.sync_epoch_root chain id root) h s transfers s' e t =
      let done = quiet (Pool.sync_epoch_root context chain id root s) e in
      rw (sync_epoch_root-eq-some context chain id root s s' done.0)
        (IsTimeline-same refl refl refl t)

  -- In a pool that calls have reached, the current epoch is stored and open; every epoch before it
  -- is stored as finalized, with the nullifier root and the count of its list; none is stored after
  -- it; and the lists of all epochs, joined, are the accepted nullifiers in their order.
  pub Reachable-IsTimeline :
      (h : History) (s : PrivacyPool) → Reachable host h s → IsTimeline host h.spent s
  Reachable-IsTimeline _ _ (created context g c a s e) = new-IsTimeline context g c a s e
  Reachable-IsTimeline _ _ (called {h} {s} reached context m transfers s' e) =
      call-IsTimeline context m h s transfers s' e (Reachable-IsTimeline h s reached)
