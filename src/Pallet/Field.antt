-- ===== src/Pallet/Field.antt =====
-- The values of `poseidon_hash` in pallets/privacy-pool/src/lib.rs: 32 bytes, below the modulus.
use sl.Prelude.{
  ℕ, zero, suc, ◌<◌, ◌≤◌, ◌≡◌, Text, arith, length, List, [], ◌∷◌, take, text_beq, text_beq_iff,
  text_eq, true, false, inl, inr, Bool-cases, Bool, ◌||◌, subst, sym,
}
use native.Mathlib.Nat.{mod-lt}
use sl.Ring.{contains}
use sl.CosmWasm.Poseidon.{Lanes, from_be_bytes, be_bytes}
use sl.CosmWasm.Poseidon.Constants.{full_rc_last}
use sl.CosmWasm.Poseidon.Digest.{
  AllBytes, AllBytes-be_bytes, length-be_bytes, from_be_bytes-be_bytes,
}
use sl.Merkle.{node}
use sl.Pallet.State.{Config}
use sl.Pallet.Poseidon.{poseidon_hash, full_rounds, mds, mds_row, u256_addmod, bn254_modulus}
use sl.Pallet.Tree.Insert.{root_after, roots_after}

pub record IsH256 (digest : Text) : Type 0 where
  pub size : length digest ≡ 32
  pub bytes : AllBytes digest
  pub below : from_be_bytes 0 digest < bn254_modulus

full_rounds-below : (s : Lanes) → (full_rounds s full_rc_last).0 < bn254_modulus
unfolding full_rounds mds mds_row u256_addmod
full_rounds-below s = mod-lt _ (omega arith)

be_bytes-IsH256 : (v : ℕ) → v < bn254_modulus → IsH256 (be_bytes 32 v)
be_bytes-IsH256 v lt = record {
  size = length-be_bytes 32 v;
  bytes = AllBytes-be_bytes 32 v;
  below = subst (λ n. n < bn254_modulus) (sym (from_be_bytes-be_bytes 32 v (omega (arith, lt)))) lt;
}

pub poseidon_hash-IsH256 : (l r : Text) → IsH256 (poseidon_hash l r)
unfolding poseidon_hash
poseidon_hash-IsH256 l r = be_bytes-IsH256 _ (full_rounds-below _)

node-IsH256 : (leaf : ℕ → Text) (depth i : ℕ) → 1 ≤ depth → IsH256 (node poseidon_hash leaf depth i)
unfolding node
node-IsH256 leaf zero i deep = absurd (omega (arith, deep))
node-IsH256 leaf (suc depth) i deep = poseidon_hash-IsH256 _ _

module _ (config : Config) (deep : 1 ≤ config.tree_depth) where
  -- The root of a tree with a level is a hash.
  root_after-IsH256 : (log : List Text) → IsH256 (root_after config log)
  root_after-IsH256 log = node-IsH256 _ config.tree_depth 0 deep

  of_first :
      (r a : Text) (rest : Bool)
      → (text_beq a r || rest) ≡ true
      → IsH256 a
      → (rest ≡ true → IsH256 r)
      → IsH256 r
  of_first r a rest h first others = elim (Bool-cases (text_beq a r)) [
    | inl same ↦ subst IsH256 ((text_beq_iff a r).0 same) first
    | inr other ↦ others (ground arith)
  ]

  pub roots_after-IsH256 :
      (n : ℕ) (log : List Text) (r : Text)
      → contains r (take n (roots_after config log)) ≡ true
      → IsH256 r
  roots_after-IsH256 zero log r h = cc
  roots_after-IsH256 (suc zero) [] r h =
      of_first r (root_after config []) false h (root_after-IsH256 []) (λ e. ground (arith, e))
  roots_after-IsH256 (suc (suc n)) [] r h =
      of_first r (root_after config []) false h (root_after-IsH256 []) (λ e. ground (arith, e))
  roots_after-IsH256 (suc n) (leaf ∷ log) r h =
      of_first r (root_after config (leaf ∷ log)) (contains r (take n (roots_after config log))) h
        (root_after-IsH256 (leaf ∷ log)) (roots_after-IsH256 n log r)
