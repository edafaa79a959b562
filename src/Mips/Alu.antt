-- ===== src/Mips/Alu.antt =====
-- The instructions of sys161/mipseb/mipscore.h that compute on the registers.
pub mod Multiply
pub mod Shift
pub mod Overflow
pub mod Products
use sys.Base.{
  ℕ, ◌+◌, ◌-◌, ◌*◌, ◌/◌, ◌%◌, ◌^◌, Bool, true, false, ◌||◌, ◌==◌, if◌then◌else◌, ltb, to_int, not,
  bit_and, bit_or, bit_xor, u32, sub32,
}
use sys.Base.Bits.{nonzero, bit_not}
use sys.Base.Ints.{ℤ, ◌+ℤ◌, ◌-ℤ◌, ltb_ℤ, eqb_ℤ, int32, word32}
use sys.Mips.State.{MipsCpu, ex_ovf, set_reg}
use sys.Mips.Exception.{exception}
use sys.Mips.Fields.{rs_of, rt_of, rd_of, sh_of, imm_of, smm_of}

-- The registers as signed integers: RSs and RTs.
abbrev pub rs_signed : ℕ → MipsCpu → ℤ
rs_signed insn cpu = int32 (cpu.r (rs_of insn))

abbrev pub rt_signed : ℕ → MipsCpu → ℤ
rt_signed insn cpu = int32 (cpu.r (rt_of insn))

-- `CHKOVF(t64)`, and the assignment to register `i` behind it.
unfoldable pub store_checked : ℕ → ℤ → MipsCpu → MipsCpu
unfolding exception
store_checked i t64 cpu =
    if not (eqb_ℤ (int32 (word32 t64)) t64)
    then exception ex_ovf 0 0 cpu
    else set_reg i (word32 t64) cpu

unfoldable pub mx_add : ℕ → MipsCpu → MipsCpu
unfolding store_checked
mx_add insn cpu = store_checked (rd_of insn) (rs_signed insn cpu +ℤ rt_signed insn cpu) cpu

unfoldable pub mx_addi : ℕ → MipsCpu → MipsCpu
unfolding store_checked
mx_addi insn cpu = store_checked (rt_of insn) (rs_signed insn cpu +ℤ int32 (smm_of insn)) cpu

unfoldable pub mx_addiu : ℕ → MipsCpu → MipsCpu
mx_addiu insn cpu = set_reg (rt_of insn) (u32 (cpu.r (rs_of insn) + smm_of insn)) cpu

unfoldable pub mx_addu : ℕ → MipsCpu → MipsCpu
mx_addu insn cpu = set_reg (rd_of insn) (u32 (cpu.r (rs_of insn) + cpu.r (rt_of insn))) cpu

unfoldable pub mx_and : ℕ → MipsCpu → MipsCpu
mx_and insn cpu = set_reg (rd_of insn) (bit_and (cpu.r (rs_of insn)) (cpu.r (rt_of insn))) cpu

unfoldable pub mx_andi : ℕ → MipsCpu → MipsCpu
mx_andi insn cpu = set_reg (rt_of insn) (bit_and (cpu.r (rs_of insn)) (imm_of insn)) cpu

unfoldable pub mx_lui : ℕ → MipsCpu → MipsCpu
mx_lui insn cpu = set_reg (rt_of insn) (u32 (imm_of insn * 2 ^ 16)) cpu

unfoldable pub mx_nor : ℕ → MipsCpu → MipsCpu
mx_nor insn cpu =
    set_reg (rd_of insn) (bit_not (bit_or (cpu.r (rs_of insn)) (cpu.r (rt_of insn)))) cpu

unfoldable pub mx_or : ℕ → MipsCpu → MipsCpu
mx_or insn cpu = set_reg (rd_of insn) (bit_or (cpu.r (rs_of insn)) (cpu.r (rt_of insn))) cpu

unfoldable pub mx_ori : ℕ → MipsCpu → MipsCpu
mx_ori insn cpu = set_reg (rt_of insn) (bit_or (cpu.r (rs_of insn)) (imm_of insn)) cpu

unfoldable pub mx_sll : ℕ → MipsCpu → MipsCpu
mx_sll insn cpu = set_reg (rd_of insn) (u32 (cpu.r (rt_of insn) * 2 ^ sh_of insn)) cpu

unfoldable pub mx_sllv : ℕ → MipsCpu → MipsCpu
mx_sllv insn cpu =
    set_reg (rd_of insn) (u32 (cpu.r (rt_of insn) * 2 ^ bit_and (cpu.r (rs_of insn)) 31)) cpu

unfoldable pub mx_slt : ℕ → MipsCpu → MipsCpu
mx_slt insn cpu =
    set_reg (rd_of insn) (to_int (ltb_ℤ (rs_signed insn cpu) (rt_signed insn cpu))) cpu

unfoldable pub mx_slti : ℕ → MipsCpu → MipsCpu
mx_slti insn cpu =
    set_reg (rt_of insn) (to_int (ltb_ℤ (rs_signed insn cpu) (int32 (smm_of insn)))) cpu

unfoldable pub mx_sltiu : ℕ → MipsCpu → MipsCpu
mx_sltiu insn cpu = set_reg (rt_of insn) (to_int (ltb (cpu.r (rs_of insn)) (smm_of insn))) cpu

unfoldable pub mx_sltu : ℕ → MipsCpu → MipsCpu
mx_sltu insn cpu = set_reg (rd_of insn) (to_int (ltb (cpu.r (rs_of insn)) (cpu.r (rt_of insn)))) cpu

-- `signedshift`, for a shift by up to 31.
unfoldable pub signedshift : ℕ → ℕ → ℕ
signedshift val amt =
    let result = val / 2 ^ amt in
    if nonzero (bit_and val 0x8000_0000)
    then bit_or result (u32 (0xffff_ffff * 2 ^ (31 - amt)))
    else result

unfoldable pub mx_sra : ℕ → MipsCpu → MipsCpu
unfolding signedshift
mx_sra insn cpu = set_reg (rd_of insn) (signedshift (cpu.r (rt_of insn)) (sh_of insn)) cpu

unfoldable pub mx_srav : ℕ → MipsCpu → MipsCpu
unfolding signedshift
mx_srav insn cpu =
    set_reg (rd_of insn) (signedshift (cpu.r (rt_of insn)) (bit_and (cpu.r (rs_of insn)) 31)) cpu

unfoldable pub mx_srl : ℕ → MipsCpu → MipsCpu
mx_srl insn cpu = set_reg (rd_of insn) (cpu.r (rt_of insn) / 2 ^ sh_of insn) cpu

unfoldable pub mx_srlv : ℕ → MipsCpu → MipsCpu
mx_srlv insn cpu =
    set_reg (rd_of insn) (cpu.r (rt_of insn) / 2 ^ bit_and (cpu.r (rs_of insn)) 31) cpu

unfoldable pub mx_sub : ℕ → MipsCpu → MipsCpu
unfolding store_checked
mx_sub insn cpu = store_checked (rd_of insn) (rs_signed insn cpu -ℤ rt_signed insn cpu) cpu

unfoldable pub mx_subu : ℕ → MipsCpu → MipsCpu
mx_subu insn cpu = set_reg (rd_of insn) (sub32 (cpu.r (rs_of insn)) (cpu.r (rt_of insn))) cpu

unfoldable pub mx_xor : ℕ → MipsCpu → MipsCpu
mx_xor insn cpu = set_reg (rd_of insn) (bit_xor (cpu.r (rs_of insn)) (cpu.r (rt_of insn))) cpu

unfoldable pub mx_xori : ℕ → MipsCpu → MipsCpu
mx_xori insn cpu = set_reg (rt_of insn) (bit_xor (cpu.r (rs_of insn)) (imm_of insn)) cpu
