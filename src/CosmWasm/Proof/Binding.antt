-- ===== src/CosmWasm/Proof/Binding.antt =====
-- What `verify_proof_binding` accepts.
use sl.Prelude.{
  ℕ, zero, suc, ◌+◌, ◌/◌, ◌%◌, ◌<◌, ◌≤◌, ◌≡◌, ◌↔◌, refl, sym, ap, ◌∙◌, Bool, true, false, not, ◌&&◌,
  List, [], ◌∷◌, ◌++◌, Text, arith, ltb, text_beq_iff, length, length-append, take, drop, all_of,
}
use mathlib.Core.List.{append_assoc}
use sl.CosmWasm.Poseidon.{Crates}
use sl.CosmWasm.Poseidon.Digest.{IsHexEncode, AllBytes, hex_char}
use sl.CosmWasm.Msg.{Pair}
use sl.ProofText.{is_zero_digit, is_ascii_hexdigit, bind_tag, is_proof_text}
use sl.CosmWasm.Proof.{inputs_text, are_inputs_sound, expected_hex, verify_proof_binding}

is_proof_text-long :
    (proof : Text) → is_proof_text proof ≡ true → not (ltb (length proof) 64) ≡ true
unfolding is_proof_text
is_proof_text-long proof h = ground arith

length-hex_encode :
    (encode : Text → Text) (bs : List ℕ)
    → IsHexEncode encode
    → AllBytes bs
    → length (encode bs) ≡ length bs + length bs
length-hex_encode encode [] law all = rw law.at_nil (omega arith)
length-hex_encode encode (b ∷ bs) law all =
    rw (law.at_cons b bs all.0) (omega (arith, length-hex_encode encode bs law all.1))

hex_char-is_ascii_hexdigit : (d : ℕ) → d < 16 → is_ascii_hexdigit (hex_char d) ≡ true
hex_char-is_ascii_hexdigit d h = ground arith

hex_encode-is_ascii_hexdigit :
    (encode : Text → Text) (bs : List ℕ)
    → IsHexEncode encode
    → AllBytes bs
    → all_of is_ascii_hexdigit (encode bs) ≡ true
hex_encode-is_ascii_hexdigit encode [] law all = rw law.at_nil refl
hex_encode-is_ascii_hexdigit encode (b ∷ bs) law all =
    rw
      (
        law.at_cons b bs all.0,
        hex_char-is_ascii_hexdigit (b / 16) (omega (arith, all.0)),
        hex_char-is_ascii_hexdigit (b % 16) (omega arith),
      )
      (hex_encode-is_ascii_hexdigit encode bs law all.1)

all_of-append : (p : ℕ → Bool) (xs ys : Text) → all_of p (xs ++ ys) ≡ all_of p xs && all_of p ys
all_of-append p [] ys = refl
all_of-append p (x ∷ xs) ys = ground (arith, all_of-append p xs ys)

take-append_length : (n : ℕ) (xs ys : Text) → length xs ≡ n → take n (xs ++ ys) ≡ xs
take-append_length zero [] ys h = refl
take-append_length zero (x ∷ xs) ys h = absurd (omega arith)
take-append_length (suc n) [] ys h = absurd (omega arith)
take-append_length (suc n) (x ∷ xs) ys h = rw (take-append_length n xs ys (omega arith))

drop-append_length : (n : ℕ) (xs ys : Text) → length xs ≡ n → drop n (xs ++ ys) ≡ ys
drop-append_length zero [] ys h = refl
drop-append_length zero (x ∷ xs) ys h = absurd (omega arith)
drop-append_length (suc n) [] ys h = absurd (omega arith)
drop-append_length (suc n) (x ∷ xs) ys h = drop-append_length n xs ys (omega arith)

-- What the documentation of SHA-256 says: a digest has 32 bytes.
pub record IsDigest (sha256 : Text → Text) : Type 0 where
  pub size : (m : Text) → length (sha256 m) ≡ 32
  pub bytes : (m : Text) → AllBytes (sha256 m)

module _ (crates : Crates) where
  -- A proof is accepted exactly if its text has the right form, the inputs are sound, and its first
  -- 64 digits are the tag that hashes the inputs' texts, one after the other, and the body.
  pub verify_proof_binding_lem :
      (proof root : Text) (nuls outs : Pair)
      → (verify_proof_binding crates proof root nuls outs ≡ true) ↔ (
          (is_proof_text proof ≡ true)
          × (are_inputs_sound root nuls outs ≡ true)
          × (take 64 proof ≡ expected_hex crates (inputs_text root nuls outs) (drop 64 proof)))
  unfolding verify_proof_binding
  verify_proof_binding_lem proof root nuls outs =
      let tag =
        text_beq_iff (take 64 proof)
          (expected_hex crates (inputs_text root nuls outs) (drop 64 proof)) in
      let long = is_proof_text-long proof in
      (
        λ h. (ground (arith, h), ground (arith, h), tag.0 (ground (arith, h))),
        λ h. ground (arith, h.0, h.1, tag.1 h.2, long h.0),
      )

  -- The inputs count only through the text that joins them.
  verify_same_text :
      (proof root root' : Text) (nuls nuls' outs outs' : Pair)
      → inputs_text root nuls outs ≡ inputs_text root' nuls' outs'
      → are_inputs_sound root' nuls' outs' ≡ true
      → verify_proof_binding crates proof root nuls outs ≡ true
      → verify_proof_binding crates proof root' nuls' outs' ≡ true
  verify_same_text proof root root' nuls nuls' outs outs' same sound h =
      let (form, sound', tag) = (verify_proof_binding_lem proof root nuls outs).0 h in
      (verify_proof_binding_lem proof root' nuls' outs').1
        (form, sound, tag ∙ ap (λ t. expected_hex crates t (drop 64 proof)) same)

  inputs_text_shift :
      (root n0 n1 : Text) (x : ℕ) (outs : Pair)
      → inputs_text root (n0 ++ x ∷ [], n1) outs ≡ inputs_text root (n0, x ∷ n1) outs
  unfolding inputs_text
  inputs_text_shift root n0 n1 x outs = simp append_assoc

  -- A proof that is accepted for two nullifiers is accepted for the two texts that arise when the
  -- last character of the first is moved to the front of the second, if those are sound inputs.
  pub verify_shifted :
      (proof root n0 n1 : Text) (x : ℕ) (outs : Pair)
      → verify_proof_binding crates proof root (n0 ++ x ∷ [], n1) outs ≡ true
      → are_inputs_sound root (n0, x ∷ n1) outs ≡ true
      → verify_proof_binding crates proof root (n0, x ∷ n1) outs ≡ true
  verify_shifted proof root n0 n1 x outs h sound =
      verify_same_text proof root root (n0 ++ x ∷ [], n1) (n0, x ∷ n1) outs outs
        (inputs_text_shift root n0 n1 x outs) sound h

  length-expected_hex :
      (inputs body : Text)
      → IsHexEncode crates.hex_encode
      → IsDigest crates.sha256
      → length (expected_hex crates inputs body) ≡ 64
  unfolding expected_hex
  length-expected_hex inputs body law digest =
      let m = bind_tag ++ (crates.sha256 inputs ++ body) in
      omega (
        arith,
        length-hex_encode crates.hex_encode (crates.sha256 m) law (digest.bytes m),
        digest.size m,
      )

  tagged_form :
      (tag body : Text)
      → length tag ≡ 64
      → all_of is_ascii_hexdigit tag ≡ true
      → all_of is_ascii_hexdigit body ≡ true
      → all_of is_zero_digit body ≡ false
      → length body % 2 ≡ 0
      → 320 ≤ length body
      → length body ≤ 8128
      → is_proof_text (tag ++ body) ≡ true
  unfolding is_proof_text
  tagged_form tag body size hex hex' zeros even low high =
      let len : length (tag ++ body) ≡ 64 + length body = omega (arith, length-append tag body) in
      rw
        (
          all_of-append is_ascii_hexdigit tag body,
          all_of-append is_zero_digit tag body,
          hex,
          hex',
          zeros,
          len,
        )
        (ground arith)

  expected_hex-hex :
      (inputs body : Text)
      → IsHexEncode crates.hex_encode
      → IsDigest crates.sha256
      → all_of is_ascii_hexdigit (expected_hex crates inputs body) ≡ true
  unfolding expected_hex
  expected_hex-hex inputs body law digest =
      hex_encode-is_ascii_hexdigit crates.hex_encode _ law
        (digest.bytes (bind_tag ++ (crates.sha256 inputs ++ body)))

  -- For sound inputs, the tag before any hexadecimal body of even length from 320 to 8128 that is
  -- not all zeros makes an accepted proof, where the encoder writes two digits a byte and the digest
  -- has 32 bytes.
  pub verify_accepts :
      (root : Text) (nuls outs : Pair) (body : Text)
      → IsHexEncode crates.hex_encode
      → IsDigest crates.sha256
      → are_inputs_sound root nuls outs ≡ true
      → all_of is_ascii_hexdigit body ≡ true
      → all_of is_zero_digit body ≡ false
      → length body % 2 ≡ 0
      → 320 ≤ length body
      → length body ≤ 8128
      → verify_proof_binding crates
          (expected_hex crates (inputs_text root nuls outs) body ++ body)
          root
          nuls
          outs
        ≡ true
  verify_accepts root nuls outs body law digest sound hex zeros even low high =
      let inputs = inputs_text root nuls outs in
      let tag = expected_hex crates inputs body in
      let size = length-expected_hex inputs body law digest in
      (verify_proof_binding_lem (tag ++ body) root nuls outs).1 (
        tagged_form tag body size (expected_hex-hex inputs body law digest) hex zeros even low high,
        sound,
        take-append_length 64 tag body size
            ∙ ap (expected_hex crates inputs) (sym (drop-append_length 64 tag body size)),
      )
