-- ===== src/Pallet/Poseidon.antt =====
-- The Poseidon hash of pallets/privacy-pool/src/lib.rs. Its matrix and round constants are those of the
-- CosmWasm pool; its modulus is read by `U256` from four words, the least significant first.
use sl.Prelude.{ℕ, zero, suc, ◌+◌, ◌*◌, ◌%◌, ◌^◌, List, [], ◌∷◌, Text}
use sl.CosmWasm.Poseidon.Constants.{
  mds00, mds01, mds02, mds10, mds11, mds12, mds20, mds21, mds22, full_rc_first, full_rc_last,
  partial_rc,
}
use sl.CosmWasm.Poseidon.{Lanes, from_be_bytes, be_bytes}

-- `U256([w0, w1, w2, w3])`
abbrev pub u256 : ℕ → ℕ → ℕ → ℕ → ℕ
u256 w0 w1 w2 w3 = w0 + 2 ^ 64 * w1 + 2 ^ 128 * w2 + 2 ^ 192 * w3

-- `BN254_MODULUS`
abbrev pub bn254_modulus : ℕ
bn254_modulus = u256 0x30644e72e131a029 0xb85045b68181585d 0x97816a916871ca8d 0x3c208c16d87cfd47

unfoldable pub u256_addmod : ℕ → ℕ → ℕ → ℕ
u256_addmod a b m = (a + b) % m

unfoldable pub u256_mulmod : ℕ → ℕ → ℕ → ℕ
u256_mulmod a b m = (a * b) % m

unfoldable pub sbox : ℕ → ℕ
unfolding u256_mulmod
sbox x =
    let x2 = u256_mulmod x x bn254_modulus in
    let x4 = u256_mulmod x2 x2 bn254_modulus in u256_mulmod x4 x bn254_modulus

-- One row of the matrix times the lanes.
unfoldable pub mds_row : ℕ → ℕ → ℕ → Lanes → ℕ
unfolding u256_addmod u256_mulmod
mds_row m0 m1 m2 (a, b, c) =
    u256_addmod
      (u256_addmod (u256_mulmod m0 a bn254_modulus) (u256_mulmod m1 b bn254_modulus) bn254_modulus)
      (u256_mulmod m2 c bn254_modulus) bn254_modulus

unfoldable pub mds : Lanes → Lanes
unfolding mds_row
mds s = (mds_row mds00 mds01 mds02 s, mds_row mds10 mds11 mds12 s, mds_row mds20 mds21 mds22 s)

unfoldable pub full_rounds : Lanes → List Lanes → Lanes
unfolding sbox mds u256_addmod
full_rounds s [] = s
full_rounds (a, b, c) ((r0, r1, r2) ∷ rest) =
    full_rounds
      (mds (
        sbox (u256_addmod a r0 bn254_modulus),
        sbox (u256_addmod b r1 bn254_modulus),
        sbox (u256_addmod c r2 bn254_modulus),
      ))
      rest

unfoldable pub partial_rounds : Lanes → List ℕ → Lanes
unfolding sbox mds u256_addmod
partial_rounds s [] = s
partial_rounds (a, b, c) (rc ∷ rest) =
    partial_rounds (mds (sbox (u256_addmod a (rc % bn254_modulus) bn254_modulus), b, c)) rest

-- `H256`s are texts of 32 bytes.
unfoldable pub poseidon_hash : Text → Text → Text
unfolding full_rounds partial_rounds
poseidon_hash left right =
    let l = from_be_bytes 0 left % bn254_modulus in
    let r = from_be_bytes 0 right % bn254_modulus in
    let lanes =
      full_rounds (partial_rounds (full_rounds (0, l, r) full_rc_first) partial_rc) full_rc_last in
    be_bytes 32 lanes.0

unfoldable pub zero_bytes : ℕ → Text
zero_bytes zero = []
zero_bytes (suc n) = 0 ∷ zero_bytes n

-- `H256::zero()`
unfoldable pub zero_h256 : Text
unfolding zero_bytes
zero_h256 = zero_bytes 32

-- The loop of `zero_hash`, for the rounds left.
unfoldable pub zero_hash_from : ℕ → Text → Text
zero_hash_from zero z = z
zero_hash_from (suc rounds) z = zero_hash_from rounds (poseidon_hash z z)

unfoldable pub zero_hash : ℕ → Text
unfolding zero_hash_from
zero_hash level = zero_hash_from level zero_h256
