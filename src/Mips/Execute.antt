-- ===== src/Mips/Execute.antt =====
-- The decoding of instructions: the `switch` of `cpu_cycle` in sys161/mipseb/mipscore.h.
use sys.Base.{ℕ, ◌/◌, ◌^◌, List, [], ◌∷◌, bit_and}
use sys.Mips.Fields.{rt_of}
use sys.Mips.Alu.{
  mx_add, mx_addi, mx_addiu, mx_addu, mx_and, mx_andi, mx_lui, mx_nor, mx_or, mx_ori, mx_sll,
  mx_sllv, mx_slt, mx_slti, mx_sltiu, mx_sltu, mx_sra, mx_srav, mx_srl, mx_srlv, mx_sub, mx_subu,
  mx_xor, mx_xori,
}
use sys.Mips.Alu.Multiply.{mx_div, mx_divu, mx_mfhi, mx_mflo, mx_mthi, mx_mtlo, mx_mult, mx_multu}
use sys.Mips.Branch.{
  mx_beq, mx_bne, mx_bgez, mx_bltz, mx_bgezal, mx_bltzal, mx_bgtz, mx_blez, mx_j, mx_jal, mx_jr,
  mx_jalr,
}
use sys.Mips.LoadStore.{
  mx_lb, mx_lbu, mx_lh, mx_lhu, mx_lwl, mx_lwr, mx_sb, mx_sh, mx_swl, mx_swr, mx_lw, mx_sw, mx_ll,
  mx_sc,
}
use sys.Mips.System.{
  Host, switch, pure, paged, stalling, Insn, mx_copz, mx_syscall, mx_break, mx_sync, mx_cache,
  mx_lwc, mx_swc, mx_ill,
}

module _ {W : Type 0} (host : Host W) where
  open host use {buses, pages}

  -- OPM_SPECIAL, by the function field.
  unfoldable pub special_ops : List (ℕ × Insn W)
  unfolding mx_sll mx_srl mx_sra mx_sllv mx_srlv mx_srav mx_jr mx_jalr mx_syscall mx_break mx_sync
      mx_mfhi mx_mthi mx_mflo mx_mtlo mx_mult mx_multu mx_div mx_divu mx_add mx_addu mx_sub mx_subu
      mx_and mx_or mx_xor mx_nor mx_slt mx_sltu
  special_ops =
      (0, pure mx_sll)
      ∷ (2, pure mx_srl)
      ∷ (3, pure mx_sra)
      ∷ (4, pure mx_sllv)
      ∷ (6, pure mx_srlv)
      ∷ (7, pure mx_srav)
      ∷ (8, paged pages mx_jr)
      ∷ (9, paged pages mx_jalr)
      ∷ (12, pure mx_syscall)
      ∷ (13, pure mx_break)
      ∷ (15, pure mx_sync)
      ∷ (16, stalling pages mx_mfhi)
      ∷ (17, stalling pages mx_mthi)
      ∷ (18, stalling pages mx_mflo)
      ∷ (19, stalling pages mx_mtlo)
      ∷ (24, stalling pages mx_mult)
      ∷ (25, stalling pages mx_multu)
      ∷ (26, stalling pages mx_div)
      ∷ (27, stalling pages mx_divu)
      ∷ (32, pure mx_add)
      ∷ (33, pure mx_addu)
      ∷ (34, pure mx_sub)
      ∷ (35, pure mx_subu)
      ∷ (36, pure mx_and)
      ∷ (37, pure mx_or)
      ∷ (38, pure mx_xor)
      ∷ (39, pure mx_nor)
      ∷ (42, pure mx_slt)
      ∷ (43, pure mx_sltu)
      ∷ []

  -- OPM_BCOND, by the field of the second register.
  unfoldable pub bcond_ops : List (ℕ × Insn W)
  unfolding mx_bltz mx_bgez mx_bltzal mx_bgezal
  bcond_ops =
      (0, paged pages mx_bltz)
      ∷ (1, paged pages mx_bgez)
      ∷ (16, paged pages mx_bltzal)
      ∷ (17, paged pages mx_bgezal)
      ∷ []

  unfoldable pub mx_special : Insn W
  unfolding switch special_ops mx_ill
  mx_special insn = switch (bit_and insn 0x3f) special_ops (pure mx_ill) insn

  unfoldable pub mx_bcond : Insn W
  unfolding switch bcond_ops mx_ill
  mx_bcond insn = switch (rt_of insn) bcond_ops (pure mx_ill) insn

  -- The opcodes.
  unfoldable pub main_ops : List (ℕ × Insn W)
  unfolding mx_special mx_bcond mx_j mx_jal mx_beq mx_bne mx_blez mx_bgtz mx_addi mx_addiu mx_slti
      mx_sltiu mx_andi mx_ori mx_xori mx_lui mx_copz mx_lb mx_lh mx_lwl mx_lw mx_lbu mx_lhu mx_lwr
      mx_sb mx_sh mx_swl mx_sw mx_swr mx_cache mx_ll mx_lwc mx_sc mx_swc
  main_ops =
      (0, mx_special)
      ∷ (1, mx_bcond)
      ∷ (2, paged pages mx_j)
      ∷ (3, paged pages mx_jal)
      ∷ (4, paged pages mx_beq)
      ∷ (5, paged pages mx_bne)
      ∷ (6, paged pages mx_blez)
      ∷ (7, paged pages mx_bgtz)
      ∷ (8, pure mx_addi)
      ∷ (9, pure mx_addiu)
      ∷ (10, pure mx_slti)
      ∷ (11, pure mx_sltiu)
      ∷ (12, pure mx_andi)
      ∷ (13, pure mx_ori)
      ∷ (14, pure mx_xori)
      ∷ (15, pure mx_lui)
      ∷ (16, mx_copz host)
      ∷ (17, mx_copz host)
      ∷ (18, mx_copz host)
      ∷ (19, mx_copz host)
      ∷ (32, mx_lb buses)
      ∷ (33, mx_lh buses)
      ∷ (34, mx_lwl buses)
      ∷ (35, mx_lw buses)
      ∷ (36, mx_lbu buses)
      ∷ (37, mx_lhu buses)
      ∷ (38, mx_lwr buses)
      ∷ (40, mx_sb buses)
      ∷ (41, mx_sh buses)
      ∷ (42, mx_swl buses)
      ∷ (43, mx_sw buses)
      ∷ (46, mx_swr buses)
      ∷ (47, pure mx_cache)
      ∷ (48, mx_ll buses)
      ∷ (49, pure mx_lwc)
      ∷ (50, pure mx_lwc)
      ∷ (51, pure mx_lwc)
      ∷ (56, mx_sc buses)
      ∷ (57, pure mx_swc)
      ∷ (58, pure mx_swc)
      ∷ (59, pure mx_swc)
      ∷ []

  -- The `switch` of `cpu_cycle`, but for the breakpoints of the debugger.
  unfoldable pub execute : Insn W
  unfolding switch main_ops mx_ill
  execute insn = switch (bit_and insn 0xfc00_0000 / 2 ^ 26) main_ops (pure mx_ill) insn
