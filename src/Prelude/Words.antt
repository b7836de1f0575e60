-- ===== src/Prelude/Words.antt =====
-- Machine-width bounds.
use Prim.Native.Nat.{ℕ, ◌^◌}

abbrev pub u32_mod : ℕ
u32_mod = 2 ^ 32

abbrev pub u64_mod : ℕ
u64_mod = 2 ^ 64

abbrev pub u128_mod : ℕ
u128_mod = 2 ^ 128
