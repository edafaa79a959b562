-- ===== src/Base/Masks.antt =====
-- Masks of machine words: runs of bits as remainders and multiples of powers of two.
use Prim.Native.Nat.{ℕ, zero, suc, ◌+◌, ◌-◌, ◌*◌, ◌/◌, ◌%◌, ◌^◌, ◌<◌, bit_and, bit_or}
use mathlib.Core.Path.{◌≡◌, ap, ap₂, sym, ◌∙◌}
use native.Mathlib.Nat.{pow-suc, pow-succ', div-div-eq-div-mul, mod-eq-sub-div-mul, mul_assoc}
use native.Mathlib.Omega.{arith}
use sys.Base.Bits.{bit_and_step, bit_or_step, bit_and-zero, zero-bit_and, zero-bit_or, one-le-pow}

-- A multiple of the next power of two, halved.
double : (i m : ℕ) → m * 2 ^ suc i ≡ 2 * (m * 2 ^ i)
double i m = rw (pow-suc) (nonlinear m (2 ^ i))
  where
    nonlinear : (m q : ℕ) → m * (q * 2) ≡ 2 * (m * q)
    nonlinear m q = omega arith

half-pow : (i x : ℕ) → x / 2 ^ suc i ≡ x / 2 / 2 ^ i
half-pow i x = rw (pow-succ') (sym (div-div-eq-div-mul x 2 (2 ^ i)))

zero-pow : (x : ℕ) → x / 2 ^ 0 ≡ x
zero-pow x = omega arith

times_one : (m : ℕ) → m * 2 ^ 0 ≡ m
times_one m = omega arith

pow-half : (i x : ℕ) → x / 2 ^ suc i ≡ x / 2 ^ i / 2
pow-half i x = rw pow-suc (sym (div-div-eq-div-mul x (2 ^ i) 2))

-- A number and its complement, without their lowest `i` bits.
pub complement-div : (i n x : ℕ) → x < n * 2 ^ i → (n * 2 ^ i - 1 - x) / 2 ^ i + x / 2 ^ i ≡ n - 1
complement-div zero n x h = rw (zero-pow, zero-pow) (omega (arith, times_one n))
complement-div (suc i) n x h =
    let twice : n * 2 ^ suc i ≡ 2 * n * 2 ^ i = omega (arith, double i n, mul_assoc 2 n (2 ^ i)) in
    let halves = complement-div i (2 * n) x (omega arith) in
    rw (twice, pow-half, pow-half) (omega arith)

rest-pow : (i x : ℕ) → x % 2 ^ suc i ≡ 2 * (x / 2 % 2 ^ i) + x % 2
rest-pow i x = omega (
  arith,
  mod-eq-sub-div-mul x (2 ^ suc i),
  mod-eq-sub-div-mul (x / 2) (2 ^ i),
  half-pow i x,
  double i (x / 2 ^ suc i),
  ap (λ d. d * 2 ^ i) (half-pow i x),
)

bit_or-double : (x k : ℕ) → bit_or x (2 * k) ≡ 2 * bit_or (x / 2) k + x % 2
bit_or-double x k =
    let half : 2 * k / 2 ≡ k = omega arith in
    omega (arith, bit_or_step x (2 * k), ap (λ k. bit_or (x / 2) k) half)

bit_and-double : (x k : ℕ) → bit_and x (2 * k) ≡ 2 * bit_and (x / 2) k
bit_and-double x k =
    let half : 2 * k / 2 ≡ k = omega arith in
    omega (arith, bit_and_step x (2 * k), ap (λ k. bit_and (x / 2) k) half)

bit_and-double_suc : (x k : ℕ) → bit_and x (2 * k + 1) ≡ 2 * bit_and (x / 2) k + x % 2
bit_and-double_suc x k =
    let half : (2 * k + 1) / 2 ≡ k = omega arith in
    omega (arith, bit_and_step x (2 * k + 1), ap (λ k. bit_and (x / 2) k) half)

-- A mask above the lowest `i` bits leaves those bits alone.
pub bit_or-shift : (i x m : ℕ) → bit_or x (m * 2 ^ i) ≡ bit_or (x / 2 ^ i) m * 2 ^ i + x % 2 ^ i
bit_or-shift zero x m = rw (times_one, zero-pow) (omega arith)
bit_or-shift (suc i) x m =
    rw (double, bit_or-double, bit_or-shift i (x / 2) m, half-pow, rest-pow)
      (omega (arith, double i (bit_or (x / 2 / 2 ^ i) m)))

-- And it takes them away.
pub bit_and-shift : (i x m : ℕ) → bit_and x (m * 2 ^ i) ≡ bit_and (x / 2 ^ i) m * 2 ^ i
bit_and-shift zero x m = rw (times_one, times_one, zero-pow)
bit_and-shift (suc i) x m =
    rw (double, bit_and-double, bit_and-shift i (x / 2) m, half-pow)
      (omega (arith, double i (bit_and (x / 2 / 2 ^ i) m)))

-- The lowest `i` bits.
pub bit_and-ones : (i x : ℕ) → bit_and x (2 ^ i - 1) ≡ x % 2 ^ i
bit_and-ones zero x = bit_and-zero x ∙ omega arith
bit_and-ones (suc i) x =
    let ones : 2 ^ suc i - 1 ≡ 2 * (2 ^ i - 1) + 1 = rw pow-suc (omega (arith, one-le-pow i)) in
    rw (ones, bit_and-double_suc, bit_and-ones i (x / 2), rest-pow)

bit_or-zero_below : (n x : ℕ) → x < n → bit_or x 0 ≡ x
bit_or-zero_below zero x h = absurd (omega arith)
bit_or-zero_below (suc n) zero h = zero-bit_or 0
bit_or-zero_below (suc n) (suc x) h =
    omega (arith, bit_or_step (suc x) 0, bit_or-zero_below n (suc x / 2) (omega arith))

pub bit_or-zero : (x : ℕ) → bit_or x 0 ≡ x
bit_or-zero x = bit_or-zero_below (suc x) x (omega arith)

-- `bit_and` distributes over `bit_or`.
bit_and-bit_or_below :
    (n x a b : ℕ) → x < n → bit_or (bit_and x a) (bit_and x b) ≡ bit_and x (bit_or a b)
bit_and-bit_or_below zero x a b h = absurd (omega arith)
bit_and-bit_or_below (suc n) zero a b h = rw (zero-bit_and, zero-bit_and, zero-bit_and)
bit_and-bit_or_below (suc n) (suc x) a b h =
    let l = suc x in
    let p : bit_and l a / 2 ≡ bit_and (l / 2) (a / 2) = omega (arith, bit_and_step l a) in
    let q : bit_and l b / 2 ≡ bit_and (l / 2) (b / 2) = omega (arith, bit_and_step l b) in
    let r : bit_or a b / 2 ≡ bit_or (a / 2) (b / 2) = omega (arith, bit_or_step a b) in
    omega (
      arith,
      bit_and-bit_or_below n (l / 2) (a / 2) (b / 2) (omega arith),
      ap₂ bit_or p q,
      ap (bit_and (l / 2)) r,
      bit_and_step l a,
      bit_and_step l b,
      bit_or_step a b,
      bit_or_step (bit_and l a) (bit_and l b),
      bit_and_step l (bit_or a b),
    )

pub bit_and-bit_or : (x a b : ℕ) → bit_or (bit_and x a) (bit_and x b) ≡ bit_and x (bit_or a b)
bit_and-bit_or x a b = bit_and-bit_or_below (suc x) x a b (omega arith)
