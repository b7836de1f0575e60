-- ===== src/CosmWasm/Poseidon/Digest.antt =====
-- The texts that the hash takes and returns: hexadecimal of 32 bytes. The hash is total on them, its
-- value lies in the field, and the encoding is read back.
use sl.Prelude.{
  ℕ, zero, suc, ◌+◌, ◌*◌, ◌/◌, ◌%◌, ◌^◌, ◌<◌, ◌≡◌, refl, sym, ap, ◌∙◌, some, List, [], ◌∷◌, ◌++◌,
  Text, arith, ltb, nat_beq, false, length, length-append, if◌then◌else◌,
}
use sl.CosmWasm.Outcome.{ok}
use sl.CosmWasm.Poseidon.{
  Crates, Lanes, addmod, mds, mds_row, full_round, full_rounds, permute, digit, byte_of,
  hex_to_bytes, hex_to_32, from_be_bytes, be_bytes, poseidon_hash_hex,
}
use sl.CosmWasm.Poseidon.Constants.{modulus}
use mathlib.Core.Option
use native.Mathlib.Nat.{pow-suc, mod-lt}

-- A lower-case hexadecimal digit.
abbrev pub hex_char : ℕ → ℕ
hex_char d = if ltb d 10 then 48 + d else 87 + d

-- What the documentation of `hex::encode` says: two lower-case digits for each byte.
pub record IsHexEncode (encode : Text → Text) : Type 0 where
  pub at_nil : encode [] ≡ []
  pub at_cons :
      (b : ℕ) (bs : List ℕ)
      → b < 256
      → encode (b ∷ bs) ≡ hex_char (b / 16) ∷ hex_char (b % 16) ∷ encode bs

abbrev pub AllBytes : List ℕ → Type 0
AllBytes [] = Unit
AllBytes (b ∷ bs) = (b < 256) × AllBytes bs

-- A text that `hex_to_32` reads.
abbrev pub IsHex : Text → Type 0
IsHex t = (bs : List ℕ) × (hex_to_32 t ≡ some bs)

digit-hex_char : (d : ℕ) → d < 16 → digit (hex_char d) ≡ some d
digit-hex_char d h = ground arith

no_sign : (d : ℕ) → d < 16 → nat_beq (hex_char d) 43 ≡ false
no_sign d h = ground arith

byte_of-hex_char : (b : ℕ) → b < 256 → byte_of (hex_char (b / 16)) (hex_char (b % 16)) ≡ some b
unfolding byte_of Option.bind
byte_of-hex_char b h =
    rw
      (
        no_sign (b / 16) (omega arith),
        digit-hex_char (b / 16) (omega arith),
        digit-hex_char (b % 16) (omega arith),
      )
      (ap some (omega arith))

-- Decoding the two digits a byte that an encoder writes gives the bytes back.
pub hex_to_bytes-encode :
    (encode : Text → Text) (bs : List ℕ)
    → IsHexEncode encode
    → AllBytes bs
    → hex_to_bytes (length bs) (encode bs) ≡ some bs
unfolding hex_to_bytes Option.bind
hex_to_bytes-encode encode [] law all = refl
hex_to_bytes-encode encode (b ∷ bs) law all =
    rw (law.at_cons b bs all.0, byte_of-hex_char b all.0, hex_to_bytes-encode encode bs law all.1)

pub length-be_bytes : (n v : ℕ) → length (be_bytes n v) ≡ n
unfolding be_bytes
length-be_bytes zero v = refl
length-be_bytes (suc n) v =
    omega (arith, length-append (be_bytes n (v / 256)) (v % 256 ∷ []), length-be_bytes n (v / 256))

AllBytes-append_one : (bs : List ℕ) (b : ℕ) → AllBytes bs → b < 256 → AllBytes (bs ++ b ∷ [])
AllBytes-append_one [] b all h = (h, tt)
AllBytes-append_one (x ∷ bs) b all h = (all.0, AllBytes-append_one bs b all.1 h)

pub AllBytes-be_bytes : (n v : ℕ) → AllBytes (be_bytes n v)
unfolding be_bytes
AllBytes-be_bytes zero v = tt
AllBytes-be_bytes (suc n) v =
    AllBytes-append_one (be_bytes n (v / 256)) (v % 256) (AllBytes-be_bytes n (v / 256))
      (omega arith)

from_be_bytes-append_one :
    (acc : ℕ) (bs : List ℕ) (b : ℕ)
    → from_be_bytes acc (bs ++ b ∷ []) ≡ from_be_bytes acc bs * 256 + b
unfolding from_be_bytes
from_be_bytes-append_one acc [] b = refl
from_be_bytes-append_one acc (x ∷ bs) b = from_be_bytes-append_one (acc * 256 + x) bs b

-- Big-endian bytes are read back.
pub from_be_bytes-be_bytes : (n v : ℕ) → v < 256 ^ n → from_be_bytes 0 (be_bytes n v) ≡ v
unfolding be_bytes
from_be_bytes-be_bytes zero v h = unfold from_be_bytes in omega arith
from_be_bytes-be_bytes (suc n) v h =
    from_be_bytes-append_one 0 (be_bytes n (v / 256)) (v % 256)
    ∙ (rw (from_be_bytes-be_bytes n (v / 256) (omega (arith, pow-suc 256 n))) (omega arith))

permute_lanes : (s : Lanes) → (permute s).0 < modulus
unfolding permute full_rounds full_round mds mds_row addmod
permute_lanes s = mod-lt _ (omega arith)

pub hash_value :
    (crates : Crates) (l r : Text) (ls rs : List ℕ)
    → hex_to_32 l ≡ some ls
    → hex_to_32 r ≡ some rs
    → poseidon_hash_hex crates l r
      ≡ ok (
          crates.hex_encode (
            be_bytes 32
              (permute (0, from_be_bytes 0 ls % modulus, from_be_bytes 0 rs % modulus)).0))
unfolding poseidon_hash_hex
hash_value crates l r ls rs el er = rw (el, er)

module _ (crates : Crates) (law : IsHexEncode crates.hex_encode) where
  digest-bytes : (v : ℕ) → hex_to_32 (crates.hex_encode (be_bytes 32 v)) ≡ some (be_bytes 32 v)
  digest-bytes v =
      ap (λ (n : ℕ). hex_to_bytes n (crates.hex_encode (be_bytes 32 v)))
        (sym (length-be_bytes 32 v))
      ∙ hex_to_bytes-encode crates.hex_encode (be_bytes 32 v) law (AllBytes-be_bytes 32 v)

  -- The hash of two texts that can be read is a text that can be read, and its value is below the
  -- modulus, where the encoder writes two digits a byte.
  pub poseidon_hash_hex-total :
      (l r : Text)
      → IsHex l
      → IsHex r
      → (h : Text) × (bs : List ℕ) × (poseidon_hash_hex crates l r ≡ ok h)
        × (hex_to_32 h ≡ some bs)
        × (from_be_bytes 0 bs < modulus)
  poseidon_hash_hex-total l r (ls, el) (rs, er) =
      let v : ℕ = (permute (0, from_be_bytes 0 ls % modulus, from_be_bytes 0 rs % modulus)).0 in
      let lt : v < modulus =
        permute_lanes (0, from_be_bytes 0 ls % modulus, from_be_bytes 0 rs % modulus) in
      (
        crates.hex_encode (be_bytes 32 v),
        be_bytes 32 v,
        hash_value crates l r ls rs el er,
        digest-bytes v,
        rw (from_be_bytes-be_bytes 32 v (omega arith)) lt,
      )
