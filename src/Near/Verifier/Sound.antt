-- ===== src/Near/Verifier/Sound.antt =====
-- What near/contracts/privacy-pool/src/verifier.rs accepts, in terms of the characters of its texts.
use sl.Prelude.{
  ℕ, zero, suc, ◌≡◌, ◌≢◌, ◌↔◌, refl, ap, true, false, some, List, [], ◌∷◌, ◌++◌, Text, arith, take,
  drop, get_elem?, text_ne, text_beq-of_ne, ◌∙◌, sym,
}
use mathlib.Core.List.{flatten}
use sl.ProofText.{bind_tag}
use sl.ProofText.Form.{IsFilled, IsProofForm, is_blank_iff, is_proof_text_iff}
use sl.Near.Hash.{Host}
use sl.Near.Verifier.{starts_twice, no_blanks, join, expected_binding, verify_proof_binding}
use sl.Near.Verifier.Binding.{IsSound, verify-accepts_iff}

-- Every text is set.
abbrev pub AllSet : List Text → Type 0
AllSet xs = (i : ℕ) (t : Text) → get_elem? xs i ≡ some t → IsFilled t

-- The first two texts, if there are two, differ.
abbrev pub IsSplit : List Text → Type 0
IsSplit xs = (a b : Text) → get_elem? xs 0 ≡ some a → get_elem? xs 1 ≡ some b → a ≢ b

pub record IsSoundInputs (root : Text) (nullifiers outputs : List Text) : Type 0 where
  pub root_set : IsFilled root
  pub nullifiers_set : AllSet nullifiers
  pub outputs_set : AllSet outputs
  pub nullifiers_differ : IsSplit nullifiers
  pub outputs_differ : IsSplit outputs

no_blanks-AllSet : (xs : List Text) → no_blanks xs ≡ true → AllSet xs
unfolding no_blanks
no_blanks-AllSet [] h i t at = cc
no_blanks-AllSet (x ∷ xs) h zero t at = (is_blank_iff t).0 (ground (arith, h, at))
no_blanks-AllSet (x ∷ xs) h (suc i) t at = no_blanks-AllSet xs (ground (arith, h)) i t at

AllSet-no_blanks : (xs : List Text) → AllSet xs → no_blanks xs ≡ true
unfolding no_blanks
AllSet-no_blanks [] set = refl
AllSet-no_blanks (x ∷ xs) set =
    rw ((is_blank_iff x).1 (set 0 x refl), AllSet-no_blanks xs (λ i t at. set (suc i) t at)) refl

starts_twice-IsSplit : (xs : List Text) → starts_twice xs ≡ false → IsSplit xs
unfolding starts_twice
starts_twice-IsSplit [] h a b at0 at1 = cc
starts_twice-IsSplit (x ∷ []) h a b at0 at1 = cc
starts_twice-IsSplit (x ∷ y ∷ rest) h a b at0 at1 = text_ne a b (ground (arith, h, at0, at1))

IsSplit-starts_twice : (xs : List Text) → IsSplit xs → starts_twice xs ≡ false
unfolding starts_twice
IsSplit-starts_twice [] split = refl
IsSplit-starts_twice (x ∷ []) split = refl
IsSplit-starts_twice (x ∷ y ∷ rest) split = text_beq-of_ne x y (split x y refl refl)

join_lem : (xs : List Text) → join xs ≡ flatten xs
unfolding join flatten
join_lem [] = refl
join_lem (x ∷ xs) = ap (λ (t : Text). x ++ t) (join_lem xs)

joined_inputs :
    (root : Text) (ns outs : List Text)
    → root ++ (join ns ++ join outs) ≡ root ++ (flatten ns ++ flatten outs)
joined_inputs root ns outs = rw (join_lem ns, join_lem outs) refl

IsSound-iff :
    (root : Text) (nullifiers outputs : List Text)
    → IsSound root nullifiers outputs ↔ IsSoundInputs root nullifiers outputs
IsSound-iff root ns outs = (
  λ it. record {
    root_set = (is_blank_iff root).0 it.root_set;
    nullifiers_set = no_blanks-AllSet ns it.nullifiers_set;
    outputs_set = no_blanks-AllSet outs it.outputs_set;
    nullifiers_differ = starts_twice-IsSplit ns it.nullifiers_differ;
    outputs_differ = starts_twice-IsSplit outs it.outputs_differ;
  },
  λ it. record {
    root_set = (is_blank_iff root).1 it.root_set;
    nullifiers_set = AllSet-no_blanks ns it.nullifiers_set;
    outputs_set = AllSet-no_blanks outs it.outputs_set;
    nullifiers_differ = IsSplit-starts_twice ns it.nullifiers_differ;
    outputs_differ = IsSplit-starts_twice outs it.outputs_differ;
  },
)

module _ (host : Host) where
  -- A proof is accepted exactly if it is 192 to 4096 bytes in hexadecimal and not all zero; the root and
  -- all nullifiers and outputs have a character other than 0; the first two nullifiers differ, and so
  -- do the first two outputs; and the first 64 digits are the hash of the tag, the hash of the root, the
  -- nullifiers and the outputs one after the other, and the rest.
  pub verify-sound_iff :
      (proof root : Text) (nullifiers outputs : List Text)
      → (verify_proof_binding host proof root nullifiers outputs ≡ true) ↔ (
          IsProofForm proof
          × IsSoundInputs root nullifiers outputs
          × (take 64 proof
              ≡ host.hex_encode (
                  host.keccak256 (
                    bind_tag
                    ++ (host.keccak256 (root ++ (flatten nullifiers ++ flatten outputs))
                        ++ drop 64 proof)))))
  unfolding expected_binding
  verify-sound_iff proof root ns outs =
      let checks = verify-accepts_iff host proof root ns outs in
      let sound = IsSound-iff root ns outs in
      let joined = ap (λ t. expected_binding host t (drop 64 proof)) (joined_inputs root ns outs) in
      (
        λ h.
            let (form, inputs, tag) = checks.0 h in
            ((is_proof_text_iff proof).0 form, sound.0 inputs, tag ∙ joined),
        λ (form, inputs, tag).
            checks.1 ((is_proof_text_iff proof).1 form, sound.1 inputs, tag ∙ sym joined),
      )
