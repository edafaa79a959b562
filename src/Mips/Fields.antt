-- ===== src/Mips/Fields.antt =====
-- The fields of an instruction: the macros NEEDRS to NEEDADDR of sys161/mipseb/mipscore.h.
use sys.Base.{ℕ, ◌+◌, ◌/◌, ◌^◌, ltb, if◌then◌else◌, bit_and, u32}
use sys.Mips.State.{MipsCpu}

abbrev pub rs_of : ℕ → ℕ
rs_of insn = bit_and insn 0x03e0_0000 / 2 ^ 21

abbrev pub rt_of : ℕ → ℕ
rt_of insn = bit_and insn 0x001f_0000 / 2 ^ 16

abbrev pub rd_of : ℕ → ℕ
rd_of insn = bit_and insn 0xf800 / 2 ^ 11

abbrev pub targ_of : ℕ → ℕ
targ_of insn = bit_and insn 0x03ff_ffff

abbrev pub sh_of : ℕ → ℕ
sh_of insn = bit_and insn 0x07c0 / 2 ^ 6

abbrev pub cn_of : ℕ → ℕ
cn_of insn = bit_and insn 0x0c00_0000 / 2 ^ 26

abbrev pub sel_of : ℕ → ℕ
sel_of insn = bit_and insn 7

abbrev pub imm_of : ℕ → ℕ
imm_of insn = bit_and insn 0xffff

-- The conversions `(int32_t)(int16_t)x` and `(int32_t)(int8_t)x`, as 32-bit words.
abbrev pub sext16 : ℕ → ℕ
sext16 x = if ltb x 0x8000 then x else x + 0xffff_0000

abbrev pub sext8 : ℕ → ℕ
sext8 x = if ltb x 0x80 then x else x + 0xffff_ff00

-- The immediate value, sign-extended.
abbrev pub smm_of : ℕ → ℕ
smm_of insn = sext16 (imm_of insn)

abbrev pub addr_of : ℕ → MipsCpu → ℕ
addr_of insn cpu = u32 (cpu.r (rs_of insn) + smm_of insn)
