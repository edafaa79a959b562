-- ===== src/Mips/Alu/Overflow.antt =====
-- Overflow: what `add`, `addi` and `sub` do with a sum that is no 32-bit integer.
use sys.Base.{
  ℕ, ◌^◌, ◌<◌, ◌≤◌, ◌≡◌, ◌⊎◌, inl, inr, refl, Bool, true, false, if◌then◌else◌, ap, ◌∙◌, sym, not,
  arith,
}
use sys.Base.Ints.{ℤ, pos_part, neg_part, eqb_ℤ, int32, word32, ◌+ℤ◌, ◌-ℤ◌}
use sys.Mips.State.{MipsCpu, ex_ovf, set_reg, set_reg_self}
use sys.Mips.Exception.{exception}
use sys.Mips.Fields.{rd_of, rt_of, smm_of}
use sys.Mips.Alu.{rs_signed, rt_signed, store_checked, mx_add, mx_addi, mx_sub}

-- The 32-bit integers.
abbrev pub Fits : ℤ → Type 0
Fits t = (pos_part t < 2 ^ 31) × (neg_part t ≤ 2 ^ 31)

-- What an addition with the exact result `t` does with register `i`.
abbrev pub Checked : ℕ → ℤ → MipsCpu → MipsCpu → Type 0
Checked i t cpu cpu' =
    (Fits t × (int32 (cpu'.r i) ≡ t) × (cpu' ≡ set_reg i (cpu'.r i) cpu))
    ⊎ (¬ Fits t × (cpu' ≡ exception ex_ovf 0 0 cpu) × (cpu'.r ≡ cpu.r))

Fits-int32 : (t : ℤ) → Fits t → eqb_ℤ (int32 (word32 t)) t ≡ true
Fits-int32 t h = ground arith

int32-Fits : (t : ℤ) → eqb_ℤ (int32 (word32 t)) t ≡ true → Fits t × (int32 (word32 t) ≡ t)
int32-Fits t h = ground arith

-- On the two outcomes of the test.
Checked-if :
    (i : ℕ) (t : ℤ) (cpu : MipsCpu) (fits : Bool)
    → eqb_ℤ (int32 (word32 t)) t ≡ fits
    → Checked i t cpu (if not fits then exception ex_ovf 0 0 cpu else set_reg i (word32 t) cpu)
unfolding exception
Checked-if i t cpu true e =
    let (fits, same) = int32-Fits t e in
    let self = set_reg_self i (word32 t) cpu in
    inl (fits, ap int32 self ∙ same, ap (λ v. set_reg i v cpu) (sym self))
Checked-if i t cpu false e = inr ((λ h. ground (arith, Fits-int32 t h)), refl, refl)

store_checked-Checked : (i : ℕ) (t : ℤ) (cpu : MipsCpu) → Checked i t cpu (store_checked i t cpu)
unfolding store_checked
store_checked-Checked i t cpu = Checked-if i t cpu (eqb_ℤ (int32 (word32 t)) t) refl

-- add, addi and sub put the exact signed result into the destination and change nothing else
-- where it fits 32 bits, and otherwise take an overflow exception and leave the registers
-- alone.
pub mx_add_lem :
    (insn : ℕ) (cpu : MipsCpu)
    → Checked (rd_of insn) (rs_signed insn cpu +ℤ rt_signed insn cpu) cpu (mx_add insn cpu)
      × Checked (rt_of insn) (rs_signed insn cpu +ℤ int32 (smm_of insn)) cpu (mx_addi insn cpu)
      × Checked (rd_of insn) (rs_signed insn cpu -ℤ rt_signed insn cpu) cpu (mx_sub insn cpu)
unfolding mx_add mx_addi mx_sub
mx_add_lem insn cpu =
    (store_checked-Checked _ _ cpu, store_checked-Checked _ _ cpu, store_checked-Checked _ _ cpu)
