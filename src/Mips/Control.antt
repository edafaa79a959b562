-- ===== src/Mips/Control.antt =====
-- What the rest of the simulator does to a cpu: `mips_init` and the functions `cpu_*` of
-- sys161/mipseb/mips.c, for the cpu that they look up.
pub mod Start
pub mod Load
pub mod Wake
use sys.Base.{
  ℕ, zero, suc, ◌+◌, ◌-◌, Bool, true, false, not, ◌&&◌, ◌||◌, if◌then◌else◌, leb, ltb, List, [],
  ◌∷◌, Option, none, some, bit_and, u32,
}
use sys.Base.Bits.{nonzero}
use sys.Mips.State.{MipsTlb, MipsCpu, CpuState, ntlb, set_reg}
use sys.Mips.Tlb.{reset_tlbentry}
use sys.Mips.Pages.{Pages, precompute_pc, precompute_nextpc}

-- The loop of `mips_init` over the tlb, from entry `i` on.
unfoldable pub reset_tlb : ℕ → ℕ → List MipsTlb
unfolding reset_tlbentry
reset_tlb zero i = []
reset_tlb (suc n) i = reset_tlbentry i ∷ reset_tlb n (suc i)

-- `mips_init`, but for the pages of the pc.
unfoldable pub mips_init : ℕ → MipsCpu
unfolding reset_tlb reset_tlbentry
mips_init cpunum = record {
  state = CpuState.disabled;
  cpunum = cpunum;
  r = λ i. 0;
  lo = 0;
  hi = 0;
  lowait = 0;
  hiwait = 0;
  jumping = false;
  in_jumpdelay = false;
  expc = 0;
  pc = 0xbfc0_0000;
  nextpc = 0xbfc0_0004;
  tlb = reset_tlb ntlb 0;
  tlbentry = reset_tlbentry ntlb;
  tlbindex = 0;
  tlbpf = false;
  tlbrandom = 55;
  old_usermode = false;
  old_irqon = false;
  prev_usermode = false;
  prev_irqon = false;
  current_usermode = false;
  current_irqon = false;
  status_hardmask_lb = 0;
  status_hardmask_ipi = 0;
  status_hardmask_fpu = 0;
  status_hardmask_void = 0;
  status_hardmask_timer = 0;
  status_softmask = 0;
  status_bootvectors = true;
  status_copenable = 0;
  cause_bd = false;
  cause_ce = 0;
  cause_softirq = 0;
  cause_code = 0;
  ex_config0 = 0x8000_83f3;
  ex_config1 = 0x7e00_0000 + 0x001b_0000 + 0x0d80;
  ex_context = 0;
  ex_epc = 0;
  ex_vaddr = 0;
  ex_prid = 0xa1;
  ex_cfeat = 0;
  ex_ifeat = 0;
  ex_count = 1;
  ex_compare = 0;
  ex_compare_used = false;
  irq_lamebus = false;
  irq_ipi = false;
  irq_timer = false;
  ll_active = false;
  ll_addr = 0;
  ll_value = 0;
  hit_breakpoint = false;
}

-- `cpu_enable` and `cpu_disable`, with the macros RUNNING_MASK_ON and RUNNING_MASK_OFF.
unfoldable pub cpu_enable : {W : Type 0} → (ℕ → W → W) → MipsCpu × W → MipsCpu × W
cpu_enable running_mask_on (cpu, w) =
    (record cpu { state = CpuState.running }, running_mask_on cpu.cpunum w)

unfoldable pub cpu_disable : {W : Type 0} → (ℕ → W → W) → MipsCpu × W → MipsCpu × W
cpu_disable running_mask_off (cpu, w) =
    (record cpu { state = CpuState.disabled }, running_mask_off cpu.cpunum w)

unfoldable pub cpu_enabled : MipsCpu → Bool
cpu_enabled cpu = elim cpu.state [ CpuState.disabled ↦ false | _ ↦ true ]

-- `BETWEEN`.
abbrev pub between : ℕ → ℕ → ℕ → ℕ → Bool
between addr size base top = leb base addr && leb size (top - base) && ltb (u32 (addr + size)) top

unfoldable pub cpu_get_load_paddr : ℕ → ℕ → Option ℕ
cpu_get_load_paddr vaddr size =
    if not (between vaddr size 0x8000_0000 0xc000_0000)
    then none
    else some (if leb 0xa000_0000 vaddr then vaddr - 0xa000_0000 else vaddr - 0x8000_0000)

unfoldable pub cpu_get_load_vaddr : ℕ → ℕ → Option ℕ
cpu_get_load_vaddr paddr size =
    if not (between paddr size 0 0x2000_0000) then none else some (u32 (paddr + 0x8000_0000))

-- `cpu_set_entrypoint`, with the lookup of the pages of the pc.
unfoldable pub cpu_set_entrypoint :
    {W : Type 0} → (W → W) → (W → Pages) → ℕ → MipsCpu × W → MipsCpu × W
unfolding precompute_pc precompute_nextpc
cpu_set_entrypoint hang pages addr (cpu, w) =
    let misaligned = nonzero (bit_and addr 3) in
    let entry = if misaligned then bit_and addr 0xffff_fffc else addr in
    let w1 = if misaligned then hang w else w in
    let cpu1 : MipsCpu = record (set_reg 25 entry cpu) {
      expc = entry;
      pc = entry;
      nextpc = u32 (entry + 4);
    } in
    let (fault, cpu2) = precompute_pc (pages w1) cpu1 in
    let w2 = if fault then hang w1 else w1 in
    let (fault', cpu3) = precompute_nextpc (pages w2) cpu2 in (cpu3, if fault' then hang w2 else w2)

unfoldable pub cpu_set_stack : ℕ → ℕ → MipsCpu → MipsCpu
cpu_set_stack stackaddr argument cpu = set_reg 4 argument (set_reg 29 stackaddr cpu)

unfoldable pub cpu_get_secondary_start_stack : ℕ → ℕ
cpu_get_secondary_start_stack lboffset = u32 (0x8000_0000 + 0x1fe0_0000 + lboffset)

-- `cpu_set_irqs`: an idle cpu is woken.
unfoldable pub cpu_set_irqs : {W : Type 0} → (ℕ → W → W) → Bool → Bool → MipsCpu × W → MipsCpu × W
cpu_set_irqs running_mask_on lamebus ipi (cpu, w) =
    let cpu' = record cpu { irq_lamebus = lamebus; irq_ipi = ipi } in
    elim cpu'.state [
      | CpuState.idle ↦
          if lamebus || ipi
          then (record cpu' { state = CpuState.running }, running_mask_on cpu'.cpunum w)
          else (cpu', w)
      | CpuState.running ↦ (cpu', w)
      | CpuState.disabled ↦ (cpu', w)
    ]
