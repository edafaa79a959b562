-- ===== src/Mips/State.antt =====
-- `struct mipscpu`, but for the host pointers `pcpage` and `nextpcpage` with their offsets: a cache
-- of the translation of the pc. What stands at the pc is a parameter of the functions that use it.
-- Left out too are the config registers 2 to 7, which nothing reads.
use sys.Base.{arith, ◌≡◌, ℕ, Bool, List, ◌==◌, if◌then◌else◌}

-- `struct mipstlb`. The four flags are kept as what they are tested for.
pub record MipsTlb : Type 0 where
  pub is_global : Bool
  pub is_valid : Bool
  pub is_dirty : Bool
  pub is_nocache : Bool
  pub pfn : ℕ
  pub vpn : ℕ
  pub pid : ℕ

pub data CpuState : Type 0 where
  disabled idle running : CpuState

pub record MipsCpu : Type 0 where
  pub state : CpuState
  pub cpunum : ℕ
  -- The 32 registers, by the five bits that name one, as 32-bit words; `lo` and `hi` likewise.
  pub r : ℕ → ℕ
  pub lo : ℕ
  pub hi : ℕ
  pub lowait : ℕ
  pub hiwait : ℕ
  pub jumping : Bool
  pub in_jumpdelay : Bool
  pub expc : ℕ
  pub pc : ℕ
  pub nextpc : ℕ
  pub tlb : List MipsTlb
  pub tlbentry : MipsTlb
  pub tlbindex : ℕ
  pub tlbpf : Bool
  pub tlbrandom : ℕ
  pub old_usermode : Bool
  pub old_irqon : Bool
  pub prev_usermode : Bool
  pub prev_irqon : Bool
  pub current_usermode : Bool
  pub current_irqon : Bool
  pub status_hardmask_lb : ℕ
  pub status_hardmask_ipi : ℕ
  pub status_hardmask_fpu : ℕ
  pub status_hardmask_void : ℕ
  pub status_hardmask_timer : ℕ
  pub status_softmask : ℕ
  pub status_bootvectors : Bool
  pub status_copenable : ℕ
  pub cause_bd : Bool
  pub cause_ce : ℕ
  pub cause_softirq : ℕ
  pub cause_code : ℕ
  pub ex_config0 : ℕ
  pub ex_config1 : ℕ
  pub ex_context : ℕ
  pub ex_epc : ℕ
  pub ex_vaddr : ℕ
  pub ex_prid : ℕ
  pub ex_cfeat : ℕ
  pub ex_ifeat : ℕ
  pub ex_count : ℕ
  pub ex_compare : ℕ
  pub ex_compare_used : Bool
  pub irq_lamebus : Bool
  pub irq_ipi : Bool
  pub irq_timer : Bool
  pub ll_active : Bool
  pub ll_addr : ℕ
  pub ll_value : ℕ
  pub hit_breakpoint : Bool

abbrev pub ntlb : ℕ
ntlb = 64

-- The exception codes of sys161/mipseb/mips-ex.h that are used here.
abbrev pub ex_irq : ℕ
ex_irq = 0

abbrev pub ex_mod : ℕ
ex_mod = 1

abbrev pub ex_tlbl : ℕ
ex_tlbl = 2

abbrev pub ex_tlbs : ℕ
ex_tlbs = 3

abbrev pub ex_adel : ℕ
ex_adel = 4

abbrev pub ex_ades : ℕ
ex_ades = 5

abbrev pub ex_ibe : ℕ
ex_ibe = 6

abbrev pub ex_dbe : ℕ
ex_dbe = 7

abbrev pub ex_sys : ℕ
ex_sys = 8

abbrev pub ex_bp : ℕ
ex_bp = 9

abbrev pub ex_ri : ℕ
ex_ri = 10

abbrev pub ex_cpu : ℕ
ex_cpu = 11

abbrev pub ex_ovf : ℕ
ex_ovf = 12

-- An assignment to `cpu->r[i]`.
abbrev pub set_reg : ℕ → ℕ → MipsCpu → MipsCpu
set_reg i v cpu = record cpu { r = λ j. if j == i then v else cpu.r j }

pub set_reg_self : (i v : ℕ) (cpu : MipsCpu) → (set_reg i v cpu).r i ≡ v
set_reg_self i v cpu = ground arith
