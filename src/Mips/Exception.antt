-- ===== src/Mips/Exception.antt =====
-- Exceptions and waiting: `exception`, `do_wait`.
pub mod Vectors
use sys.Base.{
  ℕ, ◌+◌, ◌*◌, ◌%◌, ◌/◌, ◌^◌, Bool, true, false, not, ◌&&◌, ◌||◌, ◌==◌, if◌then◌else◌, bit_and,
  bit_or, u32, Outcome, ok, smoke,
}
use sys.Base.Bits.{nonzero}
use sys.Mips.State.{MipsCpu, CpuState, ex_tlbl, ex_tlbs, ex_cpu}

-- `ex_context` after a fault at `vaddr`: the base stays, and the number of the page is put in.
abbrev pub new_context : ℕ → ℕ → ℕ
new_context context vaddr = bit_or (bit_and context 0xffe0_0000) (bit_and vaddr 0x7fff_f000 / 1024)

-- Where the handler stands.
unfoldable pub vector : Bool → ℕ → ℕ → ℕ
vector boot code cn_or_user =
    if (code == ex_tlbl || code == ex_tlbs) && nonzero cn_or_user
    then if boot then 0xbfc0_0100 else 0x8000_0000
    else if boot
    then 0xbfc0_0180
    else 0x8000_0080

-- `exception`, but for the statistics and the pages of the pc that it looks up.
unfoldable pub exception : ℕ → ℕ → ℕ → MipsCpu → MipsCpu
unfolding vector
exception code cn_or_user vaddr cpu =
    let handler = vector cpu.status_bootvectors code cn_or_user in
    record cpu {
      cause_bd = cpu.in_jumpdelay;
      cause_ce = if code == ex_cpu then u32 (cn_or_user * 2 ^ 28) else 0;
      cause_code = code * 4;
      jumping = false;
      in_jumpdelay = false;
      ll_active = false;
      old_usermode = cpu.prev_usermode;
      old_irqon = cpu.prev_irqon;
      prev_usermode = cpu.current_usermode;
      prev_irqon = cpu.current_irqon;
      current_usermode = false;
      current_irqon = false;
      ex_vaddr = vaddr;
      ex_context = new_context cpu.ex_context vaddr;
      ex_epc = cpu.expc;
      pc = handler;
      nextpc = u32 (handler + 4);
    }

-- `do_wait`; `running_mask_off` is the macro RUNNING_MASK_OFF.
unfoldable pub do_wait : {W : Type 0} → (ℕ → W → W) → MipsCpu × W → MipsCpu × W
do_wait running_mask_off (cpu, w) =
    if not cpu.irq_lamebus && not cpu.irq_ipi && not cpu.irq_timer
    then (record cpu { state = CpuState.idle }, running_mask_off cpu.cpunum w)
    else (cpu, w)
