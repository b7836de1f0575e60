-- ===== src/ProofText.antt =====
-- The checks of a proof's text that the pools on CosmWasm and NEAR share, and the tag that their
-- binding hash starts with.
pub mod Form
use sl.Prelude.{
  ℕ, ◌%◌, Bool, true, not, ◌&&◌, ◌||◌, [], ◌∷◌, Text, ltb, leb, nat_beq, length, all_of,
}

-- `c == '0'`
abbrev pub is_zero_digit : ℕ → Bool
is_zero_digit c = nat_beq c 48

abbrev pub is_ascii_hexdigit : ℕ → Bool
is_ascii_hexdigit c = leb 48 c && leb c 57 || leb 97 c && leb c 102 || leb 65 c && leb c 70

-- `s.is_empty() || s.chars().all(|c| c == '0')`
unfoldable pub is_blank : Text → Bool
is_blank [] = true
is_blank (c ∷ s) = all_of is_zero_digit (c ∷ s)

-- The bytes of "Halo2-IPA-bind".
abbrev pub bind_tag : Text
bind_tag = 72 ∷ 97 ∷ 108 ∷ 111 ∷ 50 ∷ 45 ∷ 73 ∷ 80 ∷ 65 ∷ 45 ∷ 98 ∷ 105 ∷ 110 ∷ 100 ∷ []

-- The checks of the proof text, up to "Reject all-zero proof".
unfoldable pub is_proof_text : Text → Bool
is_proof_text proof =
    not (ltb (length proof) 384)
    && not (ltb 8192 (length proof))
    && all_of is_ascii_hexdigit proof
    && nat_beq (length proof % 2) 0
    && not (all_of is_zero_digit proof)
