-- ===== src/Tests/Instructions.antt =====
-- The theorems on the instructions of the MIPS cpu, at the cpu of the other tests.
use sys.Base.{
  ℕ, ◌+◌, ◌-◌, ◌%◌, ◌^◌, ◌<◌, ◌≤◌, ◌≡◌, ◌⊎◌, refl, Bool, true, false, ◌||◌, some, none, ok, Ensures,
  arith, Returns, replicate, length, get_elem?,
}
use sys.Base.Ints.{int32, ◌+ℤ◌, ◌-ℤ◌}
use sys.Mips.State.{MipsCpu, CpuState, ntlb}
use sys.Mips.Exception.{do_wait}
use sys.Mips.Memory.{Buses}
use sys.Mips.Fields.{smm_of}
use sys.Mips.Alu.{mx_add, mx_addi, mx_sub, rs_signed, rt_signed}
use sys.Mips.System.RandomWrite.{mx_tlbwr_lem}
use sys.Mips.Alu.Overflow.{Checked, mx_add_lem}
use sys.Mips.Branch.{abranch}
use sys.Mips.System.{Host, mx_tlbwr}
use sys.Mips.Execute.{execute}
use sys.Mips.Isolation.{kernel, modes, Guarded}
use sys.Mips.Isolation.Instructions.{execute-Guarded}
use sys.Mips.Cycle.{update_expc, check_interrupts}
use sys.Mips.Cycle.Interrupts.{IsPending, Interrupted, check_interrupts_lem}
use sys.Mips.Cycle.DelaySlot.{InDelaySlot, Faulted, delay_slot_lem}
use sys.Mips.Control.{cpu_get_load_paddr, cpu_set_irqs}
use sys.Mips.Control.Load.{load_paddr_lem}
use sys.Mips.Control.Wake.{IsAwake, wake_lem}
use sys.Tests.Mips.{cpu, count_hangs, all_pages}

-- A machine in which every word of memory is 0 and nothing is written; the numbers count hangs.
abbrev buses : Buses ℕ
buses = record {
  bus_mem_fetch = λ a w. some 0;
  bus_mem_store = λ a val w. some w;
  bootrom_fetch = λ a. some 0;
  bus_io_fetch = λ cpunum a w. ok (none, w);
  bus_io_store = λ cpunum a val w. ok none;
}

abbrev host : Host ℕ
host = record {
  buses = buses;
  pages = λ w. all_pages;
  hang = count_hangs;
  running_mask_off = λ cn w. w;
}

-- `tlbwi`, which a program in user mode may not execute.
abbrev tlbwi : ℕ
tlbwi = 0x4200_0002

execute-Guarded_example :
    Ensures (execute host tlbwi (cpu, 0)) (λ (c, w). Guarded (kernel cpu) (modes cpu) c)
execute-Guarded_example = execute-Guarded host tlbwi cpu 0 refl

-- `add $3, $1, $2`, which overflows.
abbrev add_insn : ℕ
add_insn = 0x0022_1820

mx_add_lem_example :
    Checked 3 (rs_signed add_insn cpu +ℤ rt_signed add_insn cpu) cpu (mx_add add_insn cpu)
    × Checked 2 (rs_signed add_insn cpu +ℤ int32 (smm_of add_insn)) cpu (mx_addi add_insn cpu)
    × Checked 3 (rs_signed add_insn cpu -ℤ rt_signed add_insn cpu) cpu (mx_sub add_insn cpu)
mx_add_lem_example = mx_add_lem add_insn cpu

-- `mult $1, $2`, of two numbers just below 2^31, and the same for `multu`.
abbrev mult_insn : ℕ
mult_insn = 0x0022_0018

abbrev full_cpu : MipsCpu
full_cpu = record cpu { tlb = replicate 64 cpu.tlbentry }

-- `tlbwr`.
mx_tlbwr_lem_example : Returns (mx_tlbwr host 0x4200_0006 (full_cpu, 0)) (λ (c, w).
    (length c.tlb ≡ ntlb)
    × ((i : ℕ) → i < 8 → get_elem? c.tlb i ≡ get_elem? full_cpu.tlb i)
    × ((j : ℕ) × (8 ≤ j) × (j < ntlb) × (get_elem? c.tlb j ≡ some full_cpu.tlbentry)))
mx_tlbwr_lem_example = mx_tlbwr_lem host 0x4200_0006 full_cpu 0 refl

delay_slot_lem_example :
    InDelaySlot all_pages 0x5000 cpu (update_expc (abranch all_pages 0x5000 cpu))
    ⊎ Faulted cpu (abranch all_pages 0x5000 cpu)
delay_slot_lem_example = delay_slot_lem all_pages 0x5000 cpu refl

abbrev interrupted_cpu : MipsCpu
interrupted_cpu = record cpu { irq_lamebus = true }

check_interrupts_lem_example :
    ((interrupted_cpu.current_irqon ≡ true)
      × IsPending interrupted_cpu
      × Interrupted interrupted_cpu (check_interrupts (update_expc interrupted_cpu)))
    ⊎ (((interrupted_cpu.current_irqon ≡ false) ⊎ (¬ IsPending interrupted_cpu))
        × (check_interrupts (update_expc interrupted_cpu) ≡ update_expc interrupted_cpu))
check_interrupts_lem_example = check_interrupts_lem interrupted_cpu

abbrev idle_cpu : MipsCpu
idle_cpu = record cpu { state = CpuState.idle }

abbrev mask : ℕ → ℕ → ℕ
mask cn w = w

wake_lem_example :
    (idle_cpu.state ≡ CpuState.running → IsAwake (do_wait mask (idle_cpu, 0)).0)
    × ((lamebus ipi : Bool)
        → IsAwake idle_cpu
        → IsAwake (cpu_set_irqs mask lamebus ipi (idle_cpu, 0)).0
          × (idle_cpu.state ≡ CpuState.idle
              → (lamebus || ipi) ≡ true
              → (cpu_set_irqs mask lamebus ipi (idle_cpu, 0)).0.state ≡ CpuState.running))
wake_lem_example = wake_lem mask mask idle_cpu 0

load_paddr_lem_example :
    ((0x8000_0000 ≤ 0xf000_0000)
      × (0xf000_0000 + 0x2000_0000 < 0xc000_0000)
      × (0x5000_0000 ≡ 0xf000_0000 % 2 ^ 29))
    ⊎ ((0xc000_0000 ≤ 0xf000_0000)
        × (2 ^ 32 ≤ 0xf000_0000 + 0x2000_0000)
        × (0x5000_0000 ≡ 0xf000_0000 - 0xa000_0000))
unfolding cpu_get_load_paddr
load_paddr_lem_example =
    load_paddr_lem 0xf000_0000 0x2000_0000 0x5000_0000 (omega arith) (omega arith) refl
