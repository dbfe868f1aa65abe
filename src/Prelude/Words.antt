-- ===== src/Prelude/Words.antt =====
-- Unsigned machine words as native numbers: the wrap-around of `uint16`, `uint32` and `uint64`.
use Prim.Native.Nat.{ℕ, ◌+◌, ◌-◌, ◌*◌, ◌%◌, ◌<◌}

abbrev pub u64 : ℕ → ℕ
u64 value = value % 18446744073709551616

abbrev pub IsU64 : ℕ → Type 0
IsU64 value = value < 18446744073709551616

abbrev pub u32 : ℕ → ℕ
u32 value = value % 4294967296

abbrev pub IsU32 : ℕ → Type 0
IsU32 value = value < 4294967296

abbrev pub u16 : ℕ → ℕ
u16 value = value % 65536

abbrev pub IsU16 : ℕ → Type 0
IsU16 value = value < 65536

abbrev pub u8 : ℕ → ℕ
u8 value = value % 256

abbrev pub IsU8 : ℕ → Type 0
IsU8 value = value < 256

-- a + b, a - b and a * b on `uint64`.
abbrev pub add64 : ℕ → ℕ → ℕ
add64 a b = u64 (a + b)

abbrev pub sub64 : ℕ → ℕ → ℕ
sub64 a b = u64 (a + 18446744073709551616 - b)

abbrev pub mul64 : ℕ → ℕ → ℕ
mul64 a b = u64 (a * b)
