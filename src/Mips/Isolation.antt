-- ===== src/Mips/Isolation.antt =====
-- What a program in user mode can do to the cpu: the parts of `struct mipscpu` that belong to the
-- kernel, and the ways out of user mode.
pub mod Access
pub mod Branches
pub mod LoadStores
pub mod Steps
pub mod Instructions
use sys.Base.{
  ℕ, ◌+◌, ◌*◌, ◌≡◌, ◌⊎◌, inl, inr, refl, ap, ◌∙◌, Bool, true, false, if◌then◌else◌, Bool-cases,
  ◌==◌, ◌&&◌, ◌||◌, List, [], ◌∷◌, Option, none, some, Outcome, ok, smoke, undefined, out_of_fuel,
  ◌>>=◌, arith,
}
use sys.Base.Bits.{nonzero}
use sys.Mips.State.{MipsTlb, MipsCpu, CpuState}
use sys.Mips.Exception.{exception}
use sys.Mips.Exception.Vectors.{AtVector, vector-AtVector}

-- What only the kernel changes: the tlb, the interrupt masks and the other fields of the status
-- register, the soft interrupts, the index, the timer, and whether the cpu runs.
pub record Kernel : Type 0 where
  pub state : CpuState
  pub cpunum : ℕ
  pub tlb : List MipsTlb
  pub tlbindex : ℕ
  pub tlbpf : Bool
  pub status_hardmask_lb : ℕ
  pub status_hardmask_ipi : ℕ
  pub status_hardmask_fpu : ℕ
  pub status_hardmask_void : ℕ
  pub status_hardmask_timer : ℕ
  pub status_softmask : ℕ
  pub status_bootvectors : Bool
  pub status_copenable : ℕ
  pub cause_softirq : ℕ
  pub ex_count : ℕ
  pub ex_compare : ℕ
  pub ex_compare_used : Bool

abbrev pub kernel : MipsCpu → Kernel
kernel cpu = record {
  state = cpu.state;
  cpunum = cpu.cpunum;
  tlb = cpu.tlb;
  tlbindex = cpu.tlbindex;
  tlbpf = cpu.tlbpf;
  status_hardmask_lb = cpu.status_hardmask_lb;
  status_hardmask_ipi = cpu.status_hardmask_ipi;
  status_hardmask_fpu = cpu.status_hardmask_fpu;
  status_hardmask_void = cpu.status_hardmask_void;
  status_hardmask_timer = cpu.status_hardmask_timer;
  status_softmask = cpu.status_softmask;
  status_bootvectors = cpu.status_bootvectors;
  status_copenable = cpu.status_copenable;
  cause_softirq = cpu.cause_softirq;
  ex_count = cpu.ex_count;
  ex_compare = cpu.ex_compare;
  ex_compare_used = cpu.ex_compare_used;
}

-- The modes of the cpu: user mode and the interrupt enable, current, previous and old.
pub record Modes : Type 0 where
  pub current_usermode : Bool
  pub current_irqon : Bool
  pub prev_usermode : Bool
  pub prev_irqon : Bool
  pub old_usermode : Bool
  pub old_irqon : Bool

abbrev pub modes : MipsCpu → Modes
modes cpu = record {
  current_usermode = cpu.current_usermode;
  current_irqon = cpu.current_irqon;
  prev_usermode = cpu.prev_usermode;
  prev_irqon = cpu.prev_irqon;
  old_usermode = cpu.old_usermode;
  old_irqon = cpu.old_irqon;
}

-- In kernel mode, at a handler, with interrupts off, and with the modes `m` saved.
abbrev pub Trapped : Modes → MipsCpu → Type 0
Trapped m cpu =
    AtVector cpu.pc
    × (modes cpu ≡ record {
      current_usermode = false;
      current_irqon = false;
      prev_usermode = m.current_usermode;
      prev_irqon = m.current_irqon;
      old_usermode = m.prev_usermode;
      old_irqon = m.prev_irqon;
    })

-- The kernel's part is as it was; and the modes are, or an exception was taken.
abbrev pub Guarded : Kernel → Modes → MipsCpu → Type 0
Guarded k m cpu = (kernel cpu ≡ k) × ((modes cpu ≡ m) ⊎ Trapped m cpu)

-- Nothing of either has changed.
abbrev pub Alike : Kernel → Modes → MipsCpu → Type 0
Alike k m cpu = (kernel cpu ≡ k) × (modes cpu ≡ m)

module _ (k : Kernel) (m : Modes) where
  pub Alike-Guarded : (cpu : MipsCpu) → Alike k m cpu → Guarded k m cpu
  Alike-Guarded cpu (hk, hm) = (hk, inl hm)

  pub exception-Guarded :
      (code cn vaddr : ℕ) (cpu : MipsCpu)
      → Alike k m cpu
      → Guarded k m (exception code cn vaddr cpu)
  unfolding exception
  exception-Guarded code cn vaddr cpu (hk, hm) = (
    hk,
    inr (
      vector-AtVector cpu.status_bootvectors code cn,
      ap
          (λ m. record {
            current_usermode = false;
            current_irqon = false;
            prev_usermode = m.current_usermode;
            prev_irqon = m.current_irqon;
            old_usermode = m.prev_usermode;
            old_irqon = m.prev_irqon;
          })
          hm,
    ),
  )
