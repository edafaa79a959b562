-- ===== src/Base/Ints.antt =====
-- Signed integers over the native numbers, and what C makes of a word of 32 or 64 bits.
use Prim.Native.Nat.{ℕ, suc, ◌+◌, ◌-◌, ◌*◌, ◌/◌, ◌%◌, ◌^◌, ◌<◌}
use mathlib.Core.Path.{◌≡◌}
use mathlib.Core.Bool.{Bool}
use native.Mathlib.Omega.{arith}
use sys.Base.Tests.{ltb, leb, ◌==◌, if◌then◌else◌}

-- `negsuc n` is -(n + 1).
pub data ℤ : Type 0 where
  pos : ℕ → ℤ
  negsuc : ℕ → ℤ

abbrev pub pos_part : ℤ → ℕ
pos_part (pos n) = n
pos_part (negsuc n) = 0

abbrev pub neg_part : ℤ → ℕ
neg_part (pos n) = 0
neg_part (negsuc n) = suc n

-- a - b, as an integer.
abbrev pub sub_ℕ : ℕ → ℕ → ℤ
sub_ℕ a b = if leb b a then pos (a - b) else negsuc (b - a - 1)

infixl 65 ◌+ℤ◌ ◌-ℤ◌
infixl 70 ◌*ℤ◌
abbrev pub ◌+ℤ◌ : ℤ → ℤ → ℤ
a +ℤ b = sub_ℕ (pos_part a + pos_part b) (neg_part a + neg_part b)

abbrev pub ◌-ℤ◌ : ℤ → ℤ → ℤ
a -ℤ b = sub_ℕ (pos_part a + neg_part b) (neg_part a + pos_part b)

abbrev pub ◌*ℤ◌ : ℤ → ℤ → ℤ
a *ℤ b =
    sub_ℕ (pos_part a * pos_part b + neg_part a * neg_part b)
      (pos_part a * neg_part b + neg_part a * pos_part b)

abbrev pub ltb_ℤ : ℤ → ℤ → Bool
ltb_ℤ a b = ltb (pos_part a + neg_part b) (pos_part b + neg_part a)

abbrev pub eqb_ℤ : ℤ → ℤ → Bool
eqb_ℤ a b = pos_part a + neg_part b == pos_part b + neg_part a

-- A 32-bit word as `int32_t`.
abbrev pub int32 : ℕ → ℤ
int32 x = if ltb x 0x8000_0000 then pos x else negsuc (0xffff_ffff - x)

-- An integer as `uint32_t` or `uint64_t`.
abbrev pub word32 : ℤ → ℕ
word32 (pos n) = n % 2 ^ 32
word32 (negsuc n) = 0xffff_ffff - n % 2 ^ 32

abbrev pub word64 : ℤ → ℕ
word64 (pos n) = n % 2 ^ 64
word64 (negsuc n) = 0xffff_ffff_ffff_ffff - n % 2 ^ 64

abbrev pub nat_abs : ℤ → ℕ
nat_abs a = pos_part a + neg_part a

abbrev pub neg_ℤ : ℤ → ℤ
neg_ℤ a = sub_ℕ (neg_part a) (pos_part a)

-- The division of C, where the divisor is not zero: the quotient is rounded towards zero, and the
-- remainder has the sign of the dividend.
abbrev pub tdiv : ℤ → ℤ → ℤ
tdiv (pos a) (pos b) = pos (a / b)
tdiv (pos a) (negsuc b) = neg_ℤ (pos (a / suc b))
tdiv (negsuc a) (pos b) = neg_ℤ (pos (suc a / b))
tdiv (negsuc a) (negsuc b) = pos (suc a / suc b)

abbrev pub tmod : ℤ → ℤ → ℤ
tmod (pos a) b = pos (a % nat_abs b)
tmod (negsuc a) b = neg_ℤ (pos (suc a % nat_abs b))

word32-int32 : (x : ℕ) → x < 2 ^ 32 → word32 (int32 x) ≡ x
word32-int32 x h = ground arith

pub word32_lt : (a : ℤ) → word32 a < 2 ^ 32
word32_lt a = ground arith
