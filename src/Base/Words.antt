-- ===== src/Base/Words.antt =====
-- Unsigned machine words: the value of an expression is reduced modulo the width.
use Prim.Native.Nat.{ℕ, ◌+◌, ◌-◌, ◌%◌, ◌^◌}

-- Conversion to `uint32_t`.
abbrev pub u32 : ℕ → ℕ
u32 x = x % 2 ^ 32

-- Conversion to `uint64_t`.
abbrev pub u64 : ℕ → ℕ
u64 x = x % 2 ^ 64

-- `a - b` on operands that are in range.
abbrev pub sub32 : ℕ → ℕ → ℕ
sub32 a b = (a + 2 ^ 32 - b) % 2 ^ 32

abbrev pub sub64 : ℕ → ℕ → ℕ
sub64 a b = (a + 2 ^ 64 - b) % 2 ^ 64
