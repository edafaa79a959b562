-- ===== src/Base/Bits.antt =====
-- Single bits of machine words: `x & (1 << i)`, `x | (1 << i)`, `x & ~(1 << i)`.
use Prim.Native.Nat.{
  ℕ, zero, suc, ◌+◌, ◌-◌, ◌*◌, ◌/◌, ◌%◌, ◌^◌, ◌≤◌, ◌<◌, min, max, bit_and, bit_or, digits,
  bit_and-bitwise, bit_or-bitwise,
}
use mathlib.Core.Path.{◌≡◌, refl}
use mathlib.Core.Bool.{Bool, true, false, not}
use native.Mathlib.Nat.{pow-suc}
use native.Mathlib.Omega.{arith}
use sys.Base.Tests.{◌==◌, ==_iff, if◌then◌else◌, to_int}

-- The recursion over binary digits by which the native operations are given: `join` puts two digits
-- together, and `rest` says what is left where the first number ends.
module _ (rest : ℕ → ℕ) (join : ℕ → ℕ → ℕ) where
  -- Any two amounts of fuel that reach the end of the first number give the same.
  digits-fuel :
      (x y : ℕ) (k l : ℕ) → x ≤ k → x ≤ l → digits rest join k x y ≡ digits rest join l x y
  digits-fuel x y zero zero h h' = refl
  digits-fuel zero y zero (suc l) h h' = refl
  digits-fuel zero y (suc k) zero h h' = refl
  digits-fuel zero y (suc k) (suc l) h h' = refl
  digits-fuel (suc x) y zero (suc l) h h' = absurd (omega arith)
  digits-fuel (suc x) y (suc k) zero h h' = absurd (omega arith)
  digits-fuel (suc x) y (suc k) (suc l) h h' =
      let halves = digits-fuel (suc x / 2) (y / 2) k l (omega arith) (omega arith) in
      omega (arith, halves)

-- The lowest digit of an operation, and the rest of it.
pub zero-bit_and : (y : ℕ) → bit_and 0 y ≡ 0
zero-bit_and = bit_and-bitwise 0

pub zero-bit_or : (y : ℕ) → bit_or 0 y ≡ y
zero-bit_or = bit_or-bitwise 0

pub bit_and_step : (x y : ℕ) → bit_and x y ≡ 2 * bit_and (x / 2) (y / 2) + min (x % 2) (y % 2)
bit_and_step zero y = omega (arith, zero-bit_and y, zero-bit_and (y / 2))
bit_and_step (suc x) y =
    let half = suc x / 2 in
    let enough = digits-fuel (λ r. zero) min half (y / 2) x half (omega arith) (omega arith) in
    omega (arith, enough, bit_and-bitwise half (y / 2), bit_and-bitwise (suc x) y)

pub bit_or_step : (x y : ℕ) → bit_or x y ≡ 2 * bit_or (x / 2) (y / 2) + max (x % 2) (y % 2)
bit_or_step zero y = omega (arith, zero-bit_or y, zero-bit_or (y / 2))
bit_or_step (suc x) y =
    let half = suc x / 2 in
    let enough = digits-fuel (λ r. r) max half (y / 2) x half (omega arith) (omega arith) in
    omega (arith, enough, bit_or-bitwise half (y / 2), bit_or-bitwise (suc x) y)

-- Bit `i` of a number.
abbrev pub bit : ℕ → ℕ → ℕ
bit x zero = x % 2
bit x (suc i) = bit (x / 2) i

pub bit-lt : (x i : ℕ) → bit x i < 2
bit-lt x zero = omega arith
bit-lt x (suc i) = bit-lt (x / 2) i

pub bit-bit_and : (a b i : ℕ) → bit (bit_and a b) i ≡ min (bit a i) (bit b i)
bit-bit_and a b zero = omega (arith, bit_and_step a b)
bit-bit_and a b (suc i) =
    let half : bit_and a b / 2 ≡ bit_and (a / 2) (b / 2) = omega (arith, bit_and_step a b) in
    rw half (bit-bit_and (a / 2) (b / 2) i)

pub bit-bit_or : (a b i : ℕ) → bit (bit_or a b) i ≡ max (bit a i) (bit b i)
bit-bit_or a b zero = omega (arith, bit_or_step a b)
bit-bit_or a b (suc i) =
    let half : bit_or a b / 2 ≡ bit_or (a / 2) (b / 2) = omega (arith, bit_or_step a b) in
    rw half (bit-bit_or (a / 2) (b / 2) i)

pub bit-zero : (i : ℕ) → bit 0 i ≡ 0
bit-zero zero = refl
bit-zero (suc i) = bit-zero i

half-pow : (i : ℕ) → 2 ^ suc i / 2 ≡ 2 ^ i
half-pow i = rw pow-suc (omega arith)

pub bit-pow : (i j : ℕ) → bit (2 ^ i) j ≡ to_int (i == j)
bit-pow zero zero = refl
bit-pow zero (suc j) = ground (arith, bit-zero j)
bit-pow (suc i) zero = rw pow-suc (ground arith)
bit-pow (suc i) (suc j) = rw half-pow (ground (arith, bit-pow i j))

-- `(x & (1 << i)) != 0`.
abbrev pub nonzero : ℕ → Bool
nonzero x = not (x == 0)

bit_and-zero_below : (bound x : ℕ) → x < bound → bit_and x 0 ≡ 0
bit_and-zero_below zero x lt = absurd (omega arith)
bit_and-zero_below (suc bound) zero lt = refl
bit_and-zero_below (suc bound) (suc x) lt =
    let half = bit_and-zero_below bound (suc x / 2) (omega arith) in
    omega (arith, half, bit_and_step (suc x) 0)

pub bit_and-zero : (x : ℕ) → bit_and x 0 ≡ 0
bit_and-zero x = bit_and-zero_below (suc x) x (omega arith)

pub bit_and-pow : (x i : ℕ) → bit_and x (2 ^ i) ≡ bit x i * 2 ^ i
bit_and-pow x zero = omega (arith, bit_and_step x 1, bit_and-zero (x / 2))
bit_and-pow x (suc i) =
    let step : bit_and x (2 ^ suc i) ≡ bit_and (x / 2) (2 ^ i) * 2 =
      rw (bit_and_step x (2 ^ suc i), half-pow) (rw pow-suc (omega arith)) in
    rw (step, bit_and-pow (x / 2) i, pow-suc) (omega arith)

pub one-le-pow : (i : ℕ) → 0 < 2 ^ i
one-le-pow zero = omega arith
one-le-pow (suc i) = rw pow-suc (omega (arith, one-le-pow i))

pub nonzero-bit : (x i : ℕ) → nonzero (bit_and x (2 ^ i)) ≡ (bit x i == 1)
nonzero-bit x i = ground (arith, bit_and-pow x i, bit-lt x i, one-le-pow i)

-- `~(1 << i)` on 32 bits.
abbrev pub bit_not : ℕ → ℕ
bit_not x = 2 ^ 32 - 1 - x

-- A test of all numbers below `n`, by running it.
unfoldable pub checked : (ℕ → Bool) → ℕ → Bool
checked test zero = true
checked test (suc n) = if test n then checked test n else false

pub checked_lem : (test : ℕ → Bool) (i n : ℕ) → i < n → checked test n ≡ true → test i ≡ true
unfolding checked
checked_lem test i zero lt run = absurd (omega arith)
checked_lem test i (suc n) lt run = ground (arith, checked_lem test i n)

-- `~(1 << i)` has a one in each place but `i`.
abbrev complement_test : ℕ → ℕ → Bool
complement_test i j = bit (bit_not (2 ^ i)) j == 1 - to_int (i == j)

complement_run : checked (λ i. checked (complement_test i) 32) 32 ≡ true
unfolding checked
complement_run = refl

pub bit-bit_not : (i j : ℕ) → i < 32 → j < 32 → bit (bit_not (2 ^ i)) j ≡ 1 - to_int (i == j)
bit-bit_not i j hi hj =
    let row = checked_lem (λ i. checked (complement_test i) 32) i 32 hi complement_run in
    (==_iff _ _).0 (checked_lem (complement_test i) j 32 hj row)
