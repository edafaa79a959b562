-- ===== src/Mips/Alu/Shift.antt =====
-- The arithmetic shift to the right.
use sys.Base.{
  ℕ, zero, suc, ◌+◌, ◌-◌, ◌*◌, ◌/◌, ◌^◌, ◌<◌, ◌≤◌, ◌≡◌, refl, Bool, ◌==◌, bit_and, bit_or, ltb, u32,
  arith, ==_iff, Bool-cases, inl, inr, ap,
}
use sys.Base.Bits.{checked, checked_lem, one-le-pow}
use sys.Base.Masks.{bit_or-shift, bit_and-shift, bit_and-ones, complement-div}
use sys.Base.Ints.{ℤ, pos, negsuc, int32}
use native.Mathlib.Nat.{
  pow-succ', mul_assoc, mul_comm, div-mul-le_self, div-div-eq-div-mul, mod-eq-sub-div-mul,
}
use sys.Mips.Alu.{signedshift}

-- The shift of an integer, rounded down: -1 stays -1.
abbrev pub shift_ℤ : ℤ → ℕ → ℤ
shift_ℤ (pos n) amt = pos (n / 2 ^ amt)
shift_ℤ (negsuc n) amt = negsuc (n / 2 ^ amt)

sign_bit : (x : ℕ) → x < 2 ^ 32 → bit_and x 0x8000_0000 ≡ x / 2 ^ 31 * 2 ^ 31
sign_bit x h = omega (arith, bit_and-shift 31 x 1, bit_and-ones 1 (x / 2 ^ 31))

-- What is needed of the powers of two, for each shift.
abbrev power_test : ℕ → Bool
power_test amt = 2 ^ amt * 2 ^ (31 - amt) == 2 ^ 31

abbrev mask_test : ℕ → Bool
mask_test amt = u32 (0xffff_ffff * 2 ^ (31 - amt)) == (2 ^ suc amt - 1) * 2 ^ (31 - amt)

abbrev fill_test : ℕ → Bool
fill_test amt = bit_or 1 (2 ^ suc amt - 1) == 2 ^ suc amt - 1

pred_mul : (a q : ℕ) → 0 < a → (a - 1) * q + q ≡ a * q
pred_mul zero q h = absurd (omega arith)
pred_mul (suc a) q h = let e : suc a - 1 ≡ a = omega arith in rw e (omega arith)

module _ (amt : ℕ) (h : amt < 32) where
  power : 2 ^ amt * 2 ^ (31 - amt) ≡ 2 ^ 31
  unfolding checked
  power = (==_iff _ _).0 (checked_lem power_test amt 32 h refl)

  mask : u32 (0xffff_ffff * 2 ^ (31 - amt)) ≡ (2 ^ suc amt - 1) * 2 ^ (31 - amt)
  unfolding checked
  mask = (==_iff _ _).0 (checked_lem mask_test amt 32 h refl)

  fill : bit_or 1 (2 ^ suc amt - 1) ≡ 2 ^ suc amt - 1
  unfolding checked
  fill = (==_iff _ _).0 (checked_lem fill_test amt 32 h refl)

  whole : 2 ^ suc amt * 2 ^ (31 - amt) ≡ 2 ^ 32
  whole = rw (pow-succ', mul_assoc, power)

  whole' : 2 * 2 ^ (31 - amt) * 2 ^ amt ≡ 2 ^ 32
  whole' = rw (mul_assoc, mul_comm (2 ^ (31 - amt)), power)

  -- The mask of `signedshift` fills the sign and the bits that were shifted.
  filled :
      (x : ℕ)
      → 2 ^ 31 ≤ x
      → x < 2 ^ 32
      → bit_or (x / 2 ^ amt) (u32 (0xffff_ffff * 2 ^ (31 - amt))) + 2 * 2 ^ (31 - amt)
        ≡ 2 ^ 32 + x / 2 ^ amt
  filled x lo hi =
      let y = x / 2 ^ amt in
      let q = 2 ^ (31 - amt) in
      let top : y / q ≡ 1 = rw (div-div-eq-div-mul, power) (omega arith) in
      rw (mask, bit_or-shift, top, fill)
        (omega (
          arith,
          whole,
          pred_mul (2 ^ suc amt) q (one-le-pow (suc amt)),
          mod-eq-sub-div-mul y q,
          div-mul-le_self y q,
          ap (λ d. d * q) top,
        ))

  -- For a shift by less than 32, signedshift divides a 32-bit integer by the power of two and
  -- rounds down.
  signedshift_lem : (x : ℕ) → x < 2 ^ 32 → int32 (signedshift x amt) ≡ shift_ℤ (int32 x) amt
  unfolding signedshift
  signedshift_lem x hx = elim (Bool-cases (ltb x 0x8000_0000)) [
    | inl small ↦ ground (arith, sign_bit x hx)
    | inr large ↦ ground (
      arith,
      sign_bit x hx,
      filled x (ground arith) hx,
      whole',
      complement-div amt (2 * 2 ^ (31 - amt)) x (omega (arith, whole')),
    )
  ]
