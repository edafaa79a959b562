-- ===== src/Mips/Alu/Multiply.antt =====
-- The instructions on `lo` and `hi`, which are busy for two cycles after each of them.
use sys.Base.{
  ℕ, ◌*◌, ◌/◌, ◌%◌, ◌^◌, Bool, ◌||◌, ◌&&◌, ◌==◌, if◌then◌else◌, ltb, Outcome, ok, undefined,
}
use sys.Base.Ints.{ℤ, pos, negsuc, ◌*ℤ◌, ltb_ℤ, eqb_ℤ, word32, word64, tdiv, tmod}
use sys.Mips.State.{MipsCpu, set_reg}
use sys.Mips.Pages.{Pages, phony_exception}
use sys.Mips.Fields.{rs_of, rt_of, rd_of}
use sys.Mips.Alu.{rs_signed, rt_signed}

-- The macros WHILO, WHI and WLO: the instruction is put off while the register is busy.
abbrev pub busy_hilo : MipsCpu → Bool
busy_hilo cpu = ltb 0 cpu.hiwait || ltb 0 cpu.lowait

-- STALL where the register is busy, and otherwise what the instruction does.
unfoldable pub unless_busy : Pages → Bool → MipsCpu → MipsCpu → Outcome MipsCpu
unfolding phony_exception
unless_busy pages busy cpu done = if busy then phony_exception pages cpu else ok done

-- `lo` and `hi` with SETHILO(2).
abbrev pub set_hilo : ℕ → ℕ → MipsCpu → MipsCpu
set_hilo lo hi cpu = record cpu { lo = lo; hi = hi; lowait = 2; hiwait = 2 }

-- The results of `mx_div`; the quotient of the least integer and -1 is not one, and C leaves the
-- division undefined.
unfoldable pub div_results : ℤ → ℤ → MipsCpu → Outcome MipsCpu
div_results a b cpu =
    if eqb_ℤ b (pos 0)
    then ok (set_hilo (if ltb_ℤ a (pos 0) then 0xffff_ffff else 0x7fff_ffff) 0 cpu)
    else if eqb_ℤ a (negsuc 0x7fff_ffff) && eqb_ℤ b (negsuc 0)
    then undefined
    else ok (set_hilo (word32 (tdiv a b)) (word32 (tmod a b)) cpu)

unfoldable pub mx_div : Pages → ℕ → MipsCpu → Outcome MipsCpu
unfolding phony_exception div_results
mx_div pages insn cpu =
    if busy_hilo cpu
    then phony_exception pages cpu
    else div_results (rs_signed insn cpu) (rt_signed insn cpu) cpu

unfoldable pub mx_divu : Pages → ℕ → MipsCpu → Outcome MipsCpu
unfolding unless_busy
mx_divu pages insn cpu =
    let a = cpu.r (rs_of insn) in
    let b = cpu.r (rt_of insn) in
    unless_busy pages (busy_hilo cpu) cpu
      (set_hilo (if b == 0 then 0xffff_ffff else a / b) (if b == 0 then 0 else a % b) cpu)

unfoldable pub mx_mfhi : Pages → ℕ → MipsCpu → Outcome MipsCpu
unfolding unless_busy
mx_mfhi pages insn cpu =
    unless_busy pages (ltb 0 cpu.hiwait) cpu
      (record (set_reg (rd_of insn) cpu.hi cpu) { hiwait = 2 })

unfoldable pub mx_mflo : Pages → ℕ → MipsCpu → Outcome MipsCpu
unfolding unless_busy
mx_mflo pages insn cpu =
    unless_busy pages (ltb 0 cpu.lowait) cpu
      (record (set_reg (rd_of insn) cpu.lo cpu) { lowait = 2 })

unfoldable pub mx_mthi : Pages → ℕ → MipsCpu → Outcome MipsCpu
unfolding unless_busy
mx_mthi pages insn cpu =
    unless_busy pages (ltb 0 cpu.hiwait) cpu (record cpu { hi = cpu.r (rs_of insn); hiwait = 2 })

unfoldable pub mx_mtlo : Pages → ℕ → MipsCpu → Outcome MipsCpu
unfolding unless_busy
mx_mtlo pages insn cpu =
    unless_busy pages (ltb 0 cpu.lowait) cpu (record cpu { lo = cpu.r (rs_of insn); lowait = 2 })

unfoldable pub mx_mult : Pages → ℕ → MipsCpu → Outcome MipsCpu
unfolding unless_busy
mx_mult pages insn cpu = unless_busy pages (busy_hilo cpu) cpu (
    let t64 = word64 (rs_signed insn cpu *ℤ rt_signed insn cpu) in
    set_hilo (t64 % 2 ^ 32) (t64 / 2 ^ 32) cpu)

unfoldable pub mx_multu : Pages → ℕ → MipsCpu → Outcome MipsCpu
unfolding unless_busy
mx_multu pages insn cpu = unless_busy pages (busy_hilo cpu) cpu (
    let t64 = cpu.r (rs_of insn) * cpu.r (rt_of insn) in set_hilo (t64 % 2 ^ 32) (t64 / 2 ^ 32) cpu)
