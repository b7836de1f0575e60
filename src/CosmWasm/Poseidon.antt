-- ===== src/CosmWasm/Poseidon.antt =====
-- cosmwasm/contracts/privacy-pool/src/poseidon.rs: the BN254 Poseidon hash of two hexadecimal texts.
-- A `Uint256` is a number, and every product and sum is reduced by the modulus before it is stored.
pub mod Constants
pub mod Digest
use Constants.{
  modulus, mds00, mds01, mds02, mds10, mds11, mds12, mds20, mds21, mds22, full_rc_first,
  full_rc_last, partial_rc,
}
use sl.Prelude.{
  ℕ, zero, suc, ◌+◌, ◌-◌, ◌*◌, ◌/◌, ◌%◌, Bool, ◌&&◌, Option, none, some, List, [], ◌∷◌, ◌++◌, Text,
  leb, nat_beq, if◌then◌else◌,
}
use sl.CosmWasm.Outcome.{Outcome, ok, or_panic, ◌>>=◌}
use mathlib.Core.Option

-- What the contract takes from the crates `hex` and `sha2`.
pub record Crates : Type 0 where
  -- `hex::encode`
  pub hex_encode : Text → Text
  -- The digest of `sha2::Sha256` after updates with the pieces of a text.
  pub sha256 : Text → Text

pub addmod : ℕ → ℕ → ℕ
addmod a b = (a + b) % modulus

pub mulmod : ℕ → ℕ → ℕ
mulmod a b = (a * b) % modulus

pub sbox : ℕ → ℕ
unfolding mulmod
sbox x = let x2 = mulmod x x in let x4 = mulmod x2 x2 in mulmod x4 x

abbrev pub Lanes : Type 0
Lanes = ℕ × ℕ × ℕ

-- One row of the matrix times the lanes.
mds_row : ℕ → ℕ → ℕ → Lanes → ℕ
unfolding addmod mulmod
mds_row m0 m1 m2 (a, b, c) = addmod (addmod (mulmod m0 a) (mulmod m1 b)) (mulmod m2 c)

pub mds : Lanes → Lanes
unfolding mds_row
mds s = (mds_row mds00 mds01 mds02 s, mds_row mds10 mds11 mds12 s, mds_row mds20 mds21 mds22 s)

pub full_round : Lanes → Lanes → Lanes
unfolding sbox mds
full_round (a, b, c) (r0, r1, r2) = mds (sbox (addmod a r0), sbox (addmod b r1), sbox (addmod c r2))

full_rounds : Lanes → List Lanes → Lanes
unfolding full_round
full_rounds s [] = s
full_rounds s (rc ∷ rest) = full_rounds (full_round s rc) rest

partial_rounds : Lanes → List ℕ → Lanes
unfolding sbox mds
partial_rounds s [] = s
partial_rounds (a, b, c) (rc ∷ rest) = partial_rounds (mds (sbox (addmod a rc), b, c)) rest

unfoldable pub permute : Lanes → Lanes
unfolding full_rounds partial_rounds
permute s = full_rounds (partial_rounds (full_rounds s full_rc_first) partial_rc) full_rc_last

-- `char::to_digit(16)`
abbrev pub digit : ℕ → Option ℕ
digit c =
    if leb 48 c && leb c 57
    then some (c - 48)
    else (if leb 97 c && leb c 102
        then some (c - 87)
        else (if leb 65 c && leb c 70 then some (c - 55) else none))

-- `u8::from_str_radix` on two bytes: a leading `+` is a sign, as the standard library documents.
unfoldable pub byte_of : ℕ → ℕ → Option ℕ
byte_of a b =
    if nat_beq a 43
    then digit b
    else Option.bind (digit a) (λ hi. Option.map (λ lo. hi * 16 + lo) (digit b))

-- `hex_to_32` for the bytes left; what follows them is not read. `none` is its panic: a text that is
-- too short, or that holds anything but digits.
unfoldable pub hex_to_bytes : ℕ → Text → Option (List ℕ)
unfolding byte_of
hex_to_bytes zero s = some []
hex_to_bytes (suc n) [] = none
hex_to_bytes (suc n) (a ∷ []) = none
hex_to_bytes (suc n) (a ∷ b ∷ s) =
    Option.bind (byte_of a b) (λ v. Option.map (λ vs. v ∷ vs) (hex_to_bytes n s))

abbrev pub hex_to_32 : Text → Option (List ℕ)
hex_to_32 = hex_to_bytes 32

-- `Uint256::from_be_bytes` and `to_be_bytes`.
unfoldable pub from_be_bytes : ℕ → List ℕ → ℕ
from_be_bytes acc [] = acc
from_be_bytes acc (b ∷ bs) = from_be_bytes (acc * 256 + b) bs

unfoldable pub be_bytes : ℕ → ℕ → List ℕ
be_bytes zero v = []
be_bytes (suc n) v = be_bytes n (v / 256) ++ v % 256 ∷ []

module _ (crates : Crates) where
  unfoldable pub poseidon_hash_hex : Text → Text → Outcome Text
  poseidon_hash_hex left right = do
    left_bytes ← or_panic (hex_to_32 left)
    right_bytes ← or_panic (hex_to_32 right)
    let l = from_be_bytes 0 left_bytes % modulus
    let r = from_be_bytes 0 right_bytes % modulus
    ok (crates.hex_encode (be_bytes 32 (permute (0, l, r)).0))
