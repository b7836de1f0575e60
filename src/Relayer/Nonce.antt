-- ===== src/Relayer/Nonce.antt =====
-- `NonceManager` of relayer/src/core/mod.rs.
pub mod Distinct
use sl.Prelude.{ℕ, ◌+◌, ◌%◌, Option, List, [], ◌∷◌, Map, insert, nat_eq}
use sl.Prelude.Words.{u64_mod}
use sl.Merkle.{unwrap_or}

abbrev pub NonceManager : Type 0
NonceManager = Map ℕ ℕ

-- `entry(chain_id).or_insert(0)`, read and then advanced; a release build wraps.
unfoldable pub next : ℕ → NonceManager → ℕ × NonceManager
next chain_id nonces =
    let current = unwrap_or 0 (nonces chain_id) in
    (current, insert chain_id ((current + 1) % u64_mod) nonces)

unfoldable pub set : ℕ → ℕ → NonceManager → NonceManager
set chain_id nonce nonces = insert chain_id nonce nonces

-- The chains and nonces that a sequence of requests hands out.
unfoldable pub next_all : List ℕ → NonceManager → List (ℕ × ℕ)
unfolding next
next_all [] nonces = []
next_all (chain_id ∷ requests) nonces =
    (chain_id, (next chain_id nonces).0) ∷ next_all requests (next chain_id nonces).1
