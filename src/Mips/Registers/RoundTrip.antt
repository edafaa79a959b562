-- ===== src/Mips/Registers/RoundTrip.antt =====
-- What is read of the system registers after a write.
use sys.Base.{
  ℕ, zero, suc, ◌⊎◌, inl, inr, ◌+◌, ◌*◌, ◌/◌, ◌^◌, ◌<◌, ◌≤◌, ◌≡◌, refl, sym, bit_and, bit_or, u32,
  arith,
}
use sys.Base.Bits.{nonzero, bit, bit-lt, bit_and-pow}
use sys.Base.Masks.{bit_and-bit_or, bit_or-zero, bit_and-shift, bit_and-ones}
use sys.Mips.State.{MipsCpu}
use sys.Mips.Tlb.{flag}
use sys.Mips.Registers.{getindex, setindex, getrandom}

bit_or_not : (b : ℕ) → b < 2 → (b ≡ 0) ⊎ (b ≡ 1)
bit_or_not b h = ground arith

single_bit : (i val : ℕ) → (bit_and val (2 ^ i) ≡ 0) ⊎ (bit_and val (2 ^ i) ≡ 2 ^ i)
single_bit i val = elim (bit_or_not (bit val i) (bit-lt val i)) [
  | inl clear ↦ inl (rw (bit_and-pow, clear) (omega arith))
  | inr one_bit ↦ inr (rw (bit_and-pow, one_bit) (omega arith))
]

flag_all : (q x : ℕ) → flag (nonzero q) q x ≡ bit_or x q
flag_all zero x = sym (bit_or-zero x)
flag_all (suc q) x = ground arith

pick_flag : (v q x : ℕ) → (v ≡ 0) ⊎ (v ≡ q) → flag (nonzero v) q x ≡ bit_or x v
pick_flag v q x (inl e) = rw e (sym (bit_or-zero x))
pick_flag v q x (inr e) = rw e (flag_all q x)

-- A single bit that is kept as a truth value.
flag_field :
    (i : ℕ) (val x : ℕ)
    → flag (nonzero (bit_and val (2 ^ i))) (2 ^ i) x ≡ bit_or x (bit_and val (2 ^ i))
flag_field i val x = pick_flag (bit_and val (2 ^ i)) (2 ^ i) x (single_bit i val)

-- The bits of the status register that exist.
abbrev pub status_bits : ℕ
status_bits = 0xf040_ff3f

-- The index register: six bits, and the mark of a probe that failed.
setindex-getindex :
    (val : ℕ) (cpu : MipsCpu)
    → (getindex (setindex val cpu) ≡ bit_and val 0x8000_3f00) × ((setindex val cpu).tlbindex < 64)
unfolding getindex setindex
setindex-getindex val cpu =
    let six = bit_and-ones 6 (val / 2 ^ 8) in
    let field : u32 (bit_and (val / 2 ^ 8) 63 * 2 ^ 8) ≡ bit_and val 0x3f00 =
      omega (arith, six, bit_and-shift 8 val 63) in
    (rw (flag_field 31 val, field) (bit_and-bit_or val 0x3f00 0x8000_0000), omega (arith, six))

-- The random register reads as an entry from 8 to 63, and the count below it stays in range.
getrandom_bounds :
    (cpu : MipsCpu)
    → ((getrandom cpu).0 ≡ ((getrandom cpu).1.tlbrandom + 8) * 2 ^ 8)
      × (8 * 2 ^ 8 ≤ (getrandom cpu).0)
      × ((getrandom cpu).0 < 64 * 2 ^ 8)
unfolding getrandom
getrandom_bounds cpu = (refl, omega arith, omega arith)
