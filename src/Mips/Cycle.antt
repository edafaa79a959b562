-- ===== src/Mips/Cycle.antt =====
-- One cycle of one cpu: the body of the loop of `cpu_cycle` in sys161/mipseb/mipscore.h, but for
-- the statistics.
pub mod Interrupts
pub mod DelaySlot
use sys.Base.{
  ℕ, ◌+◌, ◌-◌, ◌/◌, ◌^◌, Bool, true, false, not, ◌||◌, ◌&&◌, ◌==◌, if◌then◌else◌, bit_and, u32,
  sub32, Outcome, ok, undefined, ◌>>=◌,
}
use sys.Base.Bits.{nonzero}
use sys.Mips.State.{MipsCpu, CpuState, ex_irq}
use sys.Mips.Exception.{exception}
use sys.Mips.Pages.{Pages, precompute_nextpc, phony_exception}
use sys.Mips.Branch.{fullop_rfe}
use sys.Mips.System.{Host}
use sys.Mips.Execute.{execute}

-- In the delay slot of a jump `expc` stays at the jump.
unfoldable pub update_expc : MipsCpu → MipsCpu
update_expc cpu =
    if cpu.jumping
    then record cpu { jumping = false; in_jumpdelay = true }
    else record cpu { expc = cpu.pc }

-- The interrupts that are pending and enabled.
unfoldable pub pending : MipsCpu → Bool
pending cpu =
    (cpu.irq_lamebus && nonzero cpu.status_hardmask_lb)
    || (cpu.irq_ipi && nonzero cpu.status_hardmask_ipi)
    || (cpu.irq_timer && nonzero cpu.status_hardmask_timer)
    || nonzero (bit_and cpu.status_softmask cpu.cause_softirq)

unfoldable pub check_interrupts : MipsCpu → MipsCpu
unfolding exception pending
check_interrupts cpu =
    if cpu.current_irqon && pending cpu
    then (let cpu' = exception ex_irq 0 0 cpu in record cpu' { expc = cpu'.pc })
    else cpu

-- The pc goes on; true where the page that it reaches has a fault, which ends the cycle.
unfoldable pub update_pc : Pages → ℕ → MipsCpu → Bool × MipsCpu
unfolding precompute_nextpc
update_pc pages insn cpu =
    let cpu' = record cpu { pc = cpu.nextpc; nextpc = u32 (cpu.nextpc + 4) } in
    if bit_and cpu'.nextpc 0xfff == 0 && not (insn == fullop_rfe)
    then precompute_nextpc pages cpu'
    else (false, cpu')

-- The timer behind an instruction.
unfoldable pub count_cycle : MipsCpu → MipsCpu
count_cycle cpu =
    let count = u32 (cpu.ex_count + 1) in
    if cpu.ex_compare_used && count == cpu.ex_compare
    then record cpu { ex_count = 0; irq_timer = true }
    else record cpu { ex_count = count }

-- The end of a cycle; `tlbrandom` is an `int` that is counted up, and C leaves its overflow
-- undefined.
unfoldable pub end_cycle : MipsCpu → Outcome MipsCpu
unfolding count_cycle
end_cycle cpu =
    let cpu' = count_cycle cpu in
    if cpu'.tlbrandom == 2 ^ 31 - 1
    then undefined
    else ok (record cpu' {
      lowait = cpu'.lowait - 1;
      hiwait = cpu'.hiwait - 1;
      in_jumpdelay = false;
      tlbrandom = cpu'.tlbrandom + 1;
    })

-- `OPM_SPECIAL` with `OPS_BREAK`.
abbrev pub is_break : ℕ → Bool
is_break insn = bit_and insn 0xfc00_0000 / 2 ^ 26 == 0 && bit_and insn 0x3f == 13

-- A builtin breakpoint, up to the call of the debugger.
unfoldable pub at_breakpoint : Pages → MipsCpu → Outcome MipsCpu
unfolding phony_exception
at_breakpoint pages cpu = phony_exception pages cpu >>= λ cpu'.
    ok (record cpu' { ex_count = sub32 cpu'.ex_count 1; hit_breakpoint = true })

-- The debugger, and the note that a program is making progress.
pub record Hooks (W : Type 0) : Type 0 where
  pub gdb_canhandle : ℕ → W → Bool
  pub enter_debugger : W → W
  pub set_progress : W → W

module _ {W : Type 0} (host : Host W) (hooks : Hooks W) where
  open host use {pages}
  open hooks use {gdb_canhandle, enter_debugger, set_progress}

  -- The end of the cycle, and progress where an instruction of the user is retired.
  unfoldable pub retire : ℕ → Bool → MipsCpu × W → Outcome (MipsCpu × W)
  unfolding end_cycle
  retire retire_pc retire_usermode (cpu, w) = end_cycle cpu >>= λ cpu'.
      ok (cpu', if cpu'.pc == retire_pc && retire_usermode then set_progress w else w)

  -- The cycle of a running cpu from the fetch on; true where it has hit a breakpoint.
  unfoldable pub run_insn : MipsCpu × W → Outcome (Bool × (MipsCpu × W))
  unfolding update_pc execute at_breakpoint retire
  run_insn (cpu, w) =
      let insn = (pages w).pc_word cpu in
      let (fault, cpu') = update_pc (pages w) insn cpu in
      let cpu'' = record cpu' { hit_breakpoint = false } in
      if fault
      then ok (false, (cpu', w))
      else if is_break insn && gdb_canhandle cpu''.expc w
      then (at_breakpoint (pages w) cpu'' >>= λ c. ok (true, (c, enter_debugger w)))
      else execute host insn (cpu'', w) >>= λ s.
          retire cpu.nextpc cpu.current_usermode s >>= λ s'. ok (false, s')

  unfoldable pub cpu_step : MipsCpu × W → Outcome (Bool × (MipsCpu × W))
  unfolding update_expc check_interrupts run_insn
  cpu_step (cpu, w) = elim cpu.state [
    | CpuState.running ↦ run_insn (check_interrupts (update_expc cpu), w)
    | CpuState.idle ↦ ok (false, (cpu, w))
    | CpuState.disabled ↦ ok (false, (cpu, w))
  ]
