-- ===== src/Mips/Branch.antt =====
-- Branches and jumps: `abranch`, `ibranch`, `rbranch` and the instructions that call them. A branch
-- sets `nextpc`; the instruction at `pc`, in its delay slot, is executed first.
use sys.Base.{ℕ, ◌+◌, ◌*◌, ◌^◌, Bool, true, not, ◌==◌, if◌then◌else◌, bit_and, bit_or, u32}
use sys.Base.Bits.{nonzero}
use sys.Base.Ints.{pos, ltb_ℤ, int32}
use sys.Mips.State.{MipsCpu, ex_adel, set_reg}
use sys.Mips.Exception.{exception}
use sys.Mips.Fields.{rs_of, rt_of, rd_of, targ_of, smm_of}
use sys.Mips.Pages.{Pages, precompute_nextpc}

abbrev pub fullop_rfe : ℕ
fullop_rfe = 0x4200_0010

module _ (pages : Pages) where
  open pages use {pc_word}

  -- Behind a jump with RFE in its delay slot the page is looked up after the RFE.
  unfoldable pub abranch : ℕ → MipsCpu → MipsCpu
  unfolding exception precompute_nextpc
  abranch addr cpu =
      if nonzero (bit_and addr 3)
      then exception ex_adel 0 addr cpu
      else let cpu' = record cpu { nextpc = addr; jumping = true } in
        if pc_word cpu' == fullop_rfe then cpu' else (precompute_nextpc pages cpu').1

  unfoldable pub ibranch : ℕ → MipsCpu → MipsCpu
  unfolding abranch
  ibranch imm cpu = abranch (bit_or (bit_and cpu.pc 0xf000_0000) imm) cpu

  unfoldable pub rbranch : ℕ → MipsCpu → MipsCpu
  unfolding abranch
  rbranch rel cpu = abranch (u32 (cpu.pc + rel)) cpu

  -- The macro LINK2; LINK is that of register 31.
  abbrev pub link : ℕ → MipsCpu → MipsCpu
  link rg cpu = set_reg rg cpu.nextpc cpu

  -- `smm << 2`, for which the branch is taken if the test holds.
  unfoldable pub branch_if : Bool → ℕ → MipsCpu → MipsCpu
  unfolding rbranch
  branch_if taken insn cpu = if taken then rbranch (u32 (smm_of insn * 2 ^ 2)) cpu else cpu

  unfoldable pub mx_beq : ℕ → MipsCpu → MipsCpu
  unfolding branch_if
  mx_beq insn cpu = branch_if (cpu.r (rs_of insn) == cpu.r (rt_of insn)) insn cpu

  unfoldable pub mx_bne : ℕ → MipsCpu → MipsCpu
  unfolding branch_if
  mx_bne insn cpu = branch_if (not (cpu.r (rs_of insn) == cpu.r (rt_of insn))) insn cpu

  unfoldable pub mx_bgez : ℕ → MipsCpu → MipsCpu
  unfolding branch_if
  mx_bgez insn cpu = branch_if (not (ltb_ℤ (int32 (cpu.r (rs_of insn))) (pos 0))) insn cpu

  unfoldable pub mx_bltz : ℕ → MipsCpu → MipsCpu
  unfolding branch_if
  mx_bltz insn cpu = branch_if (ltb_ℤ (int32 (cpu.r (rs_of insn))) (pos 0)) insn cpu

  -- These two link before they test the register.
  unfoldable pub mx_bgezal : ℕ → MipsCpu → MipsCpu
  unfolding branch_if
  mx_bgezal insn cpu =
      (let cpu' = link 31 cpu in
        branch_if (not (ltb_ℤ (int32 (cpu'.r (rs_of insn))) (pos 0))) insn cpu')

  unfoldable pub mx_bltzal : ℕ → MipsCpu → MipsCpu
  unfolding branch_if
  mx_bltzal insn cpu =
      (let cpu' = link 31 cpu in branch_if (ltb_ℤ (int32 (cpu'.r (rs_of insn))) (pos 0)) insn cpu')

  unfoldable pub mx_bgtz : ℕ → MipsCpu → MipsCpu
  unfolding branch_if
  mx_bgtz insn cpu = branch_if (ltb_ℤ (pos 0) (int32 (cpu.r (rs_of insn)))) insn cpu

  unfoldable pub mx_blez : ℕ → MipsCpu → MipsCpu
  unfolding branch_if
  mx_blez insn cpu = branch_if (not (ltb_ℤ (pos 0) (int32 (cpu.r (rs_of insn))))) insn cpu

  unfoldable pub mx_j : ℕ → MipsCpu → MipsCpu
  unfolding ibranch
  mx_j insn cpu = ibranch (u32 (targ_of insn * 2 ^ 2)) cpu

  unfoldable pub mx_jal : ℕ → MipsCpu → MipsCpu
  unfolding ibranch
  mx_jal insn cpu = ibranch (u32 (targ_of insn * 2 ^ 2)) (link 31 cpu)

  unfoldable pub mx_jr : ℕ → MipsCpu → MipsCpu
  unfolding abranch
  mx_jr insn cpu = abranch (cpu.r (rs_of insn)) cpu

  unfoldable pub mx_jalr : ℕ → MipsCpu → MipsCpu
  unfolding abranch
  mx_jalr insn cpu = (let cpu' = link (rd_of insn) cpu in abranch (cpu'.r (rs_of insn)) cpu')
