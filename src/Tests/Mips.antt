-- ===== src/Tests/Mips.antt =====
-- The theorems on the MIPS cpu, at a cpu with two entries in its tlb.
use sys.Base.{
  ℕ, zero, suc, ◌≡◌, ◌≢◌, ◌⊎◌, refl, true, false, if◌then◌else◌, ◌==◌, ◌+◌, List, [], ◌∷◌, some,
  get_elem?, Returns, arith,
}
use sys.Mips.State.{MipsTlb, MipsCpu, CpuState}
use sys.Mips.Tlb.{hang_each}
use sys.Mips.Pages.{Pages, writetlb}
use sys.Mips.Tlb.Duplicates.{NoDups, Clash, apart, writetlb_lem}
use sys.Mips.Memory.{translatemem, debug_translatemem}
use sys.Mips.Memory.Debug.{translatemem-debug_translatemem}

abbrev entry : ℕ → ℕ → MipsTlb
entry vpn pfn = record {
  is_global = false;
  is_valid = true;
  is_dirty = false;
  is_nocache = false;
  pfn = pfn;
  vpn = vpn;
  pid = 3;
}

abbrev pub cpu : MipsCpu
cpu = record {
  state = CpuState.running;
  cpunum = 0;
  r = λ i. if i == 0 then 0 else 0x7fff_fff0 + i;
  lo = 0;
  hi = 0;
  lowait = 0;
  hiwait = 0;
  jumping = false;
  in_jumpdelay = false;
  expc = 0x4000;
  pc = 0x4004;
  nextpc = 0x4008;
  tlb = entry 0x4000 0x10000 ∷ entry 0x5000 0x11000 ∷ [];
  tlbentry = entry 0x6000 0x12000;
  tlbindex = 0;
  tlbpf = false;
  tlbrandom = 55;
  old_usermode = false;
  old_irqon = false;
  prev_usermode = false;
  prev_irqon = true;
  current_usermode = true;
  current_irqon = true;
  status_hardmask_lb = 0x400;
  status_hardmask_ipi = 0;
  status_hardmask_fpu = 0;
  status_hardmask_void = 0;
  status_hardmask_timer = 0x8000;
  status_softmask = 0;
  status_bootvectors = false;
  status_copenable = 0;
  cause_bd = false;
  cause_ce = 0;
  cause_softirq = 0;
  cause_code = 0;
  ex_config0 = 0x8000_83f3;
  ex_config1 = 0;
  ex_context = 0;
  ex_epc = 0;
  ex_vaddr = 0;
  ex_prid = 0xa1;
  ex_cfeat = 0;
  ex_ifeat = 0;
  ex_count = 1;
  ex_compare = 0;
  ex_compare_used = false;
  irq_lamebus = false;
  irq_ipi = false;
  irq_timer = false;
  ll_active = true;
  ll_addr = 0x5010;
  ll_value = 7;
  hit_breakpoint = false;
}

cpu-NoDups : NoDups cpu.tlb
cpu-NoDups zero zero mi mj hi hj ne = absurd (ne refl)
cpu-NoDups zero (suc zero) mi mj hi hj ne = apart mi mj (ground arith)
cpu-NoDups zero (suc (suc j)) mi mj hi hj ne = cc
cpu-NoDups (suc zero) zero mi mj hi hj ne = apart mi mj (ground arith)
cpu-NoDups (suc zero) (suc zero) mi mj hi hj ne = absurd (ne refl)
cpu-NoDups (suc zero) (suc (suc j)) mi mj hi hj ne = cc
cpu-NoDups (suc (suc i)) j mi mj hi hj ne = cc

abbrev pub count_hangs : ℕ → ℕ
count_hangs n = suc n

-- Memory and the boot rom have every page.
abbrev pub all_pages : Pages
all_pages = record { pc_word = λ c. 0; bus_mem_map = λ a. true; bootrom_map = λ a. true }

writetlb_lem_example : Returns (writetlb count_hangs (λ w. all_pages) 0 (cpu, 0)) (λ (cpu', w').
    (get_elem? cpu'.tlb 0 ≡ some (entry 0x6000 0x12000))
    × (((w' ≡ 0) × NoDups cpu'.tlb)
        ⊎ ((dups : List ℕ) × (dups ≢ [])
            × (w' ≡ hang_each count_hangs dups 0)
            × Clash (entry 0x6000 0x12000) 0 cpu'.tlb)))
writetlb_lem_example = writetlb_lem count_hangs (λ w. all_pages) 0 cpu 0 (omega arith) cpu-NoDups

translatemem-debug_translatemem_example :
    (translatemem 0x5010 false cpu).0 ≡ debug_translatemem 0x5010 false cpu
translatemem-debug_translatemem_example = translatemem-debug_translatemem 0x5010 false cpu refl
