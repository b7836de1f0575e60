-- ===== src/Near/Key.antt =====
-- The text that keys a remote epoch root, `format!("{}:{}", source_chain_id, epoch_id)` in
-- near/contracts/privacy-pool/src/lib.rs.
pub mod Injective
use sl.Prelude.{ℕ, zero, suc, ◌+◌, ◌/◌, ◌%◌, List, [], ◌∷◌, ◌++◌, Text, ltb, if◌then◌else◌}

-- The decimal digits of a number, on fuel: a number has fewer digits than its successor.
unfoldable pub decimal_from : ℕ → ℕ → Text
decimal_from zero n = []
decimal_from (suc fuel) n =
    let front = decimal_from fuel (n / 10) in
    if ltb n 10 then (48 + n) ∷ [] else front ++ (48 + n % 10) ∷ []

unfoldable pub decimal : ℕ → Text
decimal n = decimal_from (suc n) n

unfoldable pub remote_key : ℕ → ℕ → Text
remote_key source_chain_id epoch_id = decimal source_chain_id ++ 58 ∷ decimal epoch_id
