-- ===== src/Relayer/Nonce/Distinct.antt =====
-- Nonces are not handed out twice.
use sl.Prelude.{
  ℕ, zero, suc, ◌+◌, ◌%◌, ◌<◌, ◌≡◌, refl, ap, ◌∙◌, Bool, true, false, List, [], ◌∷◌, arith, nat_beq,
  insert, nat_eq, if◌then◌else◌,
}
use sl.Prelude.Words.{u64_mod}
use sl.Merkle.{unwrap_or}
use sl.Relayer.Nonce.{NonceManager, next, next_all}

abbrev pub next_nonce : NonceManager → ℕ → ℕ
next_nonce nonces chain_id = unwrap_or 0 (nonces chain_id)

-- How often a chain stands in a list of requests.
abbrev pub requests_for : ℕ → List ℕ → ℕ
requests_for chain_id [] = 0
requests_for chain_id (c ∷ requests) =
    (if nat_beq c chain_id then 1 else 0) + requests_for chain_id requests

-- The nonces that a list of answers gives to a chain.
abbrev pub nonces_for : ℕ → List (ℕ × ℕ) → List ℕ
nonces_for chain_id [] = []
nonces_for chain_id (a ∷ answers) =
    let rest = nonces_for chain_id answers in if nat_beq a.0 chain_id then a.1 ∷ rest else rest

-- `count` numbers from `start` on.
abbrev pub range : ℕ → ℕ → List ℕ
range start zero = []
range start (suc count) = start ∷ range (start + 1) count

range_step :
    (b : Bool) (nonce start count : ℕ) (tail : List ℕ)
    → (b ≡ true → nonce ≡ start)
    → tail ≡ range (start + (if b then 1 else 0)) count
    → (if b then nonce ∷ tail else tail) ≡ range start ((if b then 1 else 0) + count)
range_step true nonce start count tail same e =
    let one : 1 + count ≡ suc count = omega arith in rw (one, same refl, e) refl
range_step false nonce start count tail same e =
    let none_here : 0 + count ≡ count = omega arith in
    let from_start : start + 0 ≡ start = omega arith in e ∙ (rw (none_here, from_start) refl)

next_nonce-insert :
    (nonces : NonceManager) (c chain_id : ℕ)
    → next_nonce nonces chain_id + (if nat_beq c chain_id then 1 else 0) < u64_mod
    → next_nonce (insert c ((next_nonce nonces c + 1) % u64_mod) nonces) chain_id
      ≡ next_nonce nonces chain_id + (if nat_beq c chain_id then 1 else 0)
next_nonce-insert nonces c chain_id h = ground arith

-- Each chain is handed the numbers from its next nonce on, one for each of its requests, whatever
-- other chains request in between, as long as they stay below 2^64.
pub next_all-range :
    (requests : List ℕ) (nonces : NonceManager) (chain_id : ℕ)
    → next_nonce nonces chain_id + requests_for chain_id requests < u64_mod
    → nonces_for chain_id (next_all requests nonces)
      ≡ range (next_nonce nonces chain_id) (requests_for chain_id requests)
unfolding next_all next
next_all-range [] nonces chain_id h = refl
next_all-range (c ∷ requests) nonces chain_id h =
    let after : NonceManager = insert c ((next_nonce nonces c + 1) % u64_mod) nonces in
    let moved = next_nonce-insert nonces c chain_id (omega arith) in
    range_step (nat_beq c chain_id) (next_nonce nonces c) (next_nonce nonces chain_id)
      (requests_for chain_id requests) (nonces_for chain_id (next_all requests after))
      (λ same. let is : c ≡ chain_id = ground arith in rw is refl)
      (next_all-range requests after chain_id (omega (arith, moved))
        ∙ ap (λ n. range n (requests_for chain_id requests)) moved)
