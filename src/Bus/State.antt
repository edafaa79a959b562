-- ===== src/Bus/State.antt =====
-- The state of sys161/bus/lamebus.c, and what it uses of the cpu, the clock and the console.
use sys.Base.{ℕ, ◌≡◌, Bool, List, ◌==◌, if◌then◌else◌, Outcome, ok, length}

-- `struct lamebus_cpu`. The scratch memory `cpu_cram` is kept as 32-bit words in the host's order.
pub record LamebusCpu : Type 0 where
  pub enabled : Bool
  pub enabled_interrupts : ℕ
  pub interrupting : Bool
  pub ipi : Bool
  pub cram : List ℕ

-- `bus_ramsize`, `bus_raised_interrupts`, `bus_enabled_interrupts` and `cpus[0..ncpus)`.
pub record Bus : Type 0 where
  pub ramsize : ℕ
  pub raised : ℕ
  pub enabled_irqs : ℕ
  pub cpus : List LamebusCpu

abbrev pub ncpus : Bus → ℕ
ncpus b = length b.cpus

abbrev pub nslots : ℕ
nslots = 32

abbrev pub controller_slot : ℕ
controller_slot = 31

abbrev pub slot_mem : ℕ
slot_mem = 0x10000

abbrev pub config_size : ℕ
config_size = 1024

-- `LAMEBUS_CRAM_SIZE`, in words.
abbrev pub cram_words : ℕ
cram_words = 32

-- What the controller calls: the cpu's entry points (sys161/include/cpu.h), `hang` of console.c,
-- and the scheduling of the poweroff event. `W` is the state of all that. `lines w i` are the two
-- interrupt lines of cpu `i` as the cpu has them.
pub record Port (W : Type 0) : Type 0 where
  pub cpu_set_irqs : ℕ → Bool → Bool → W → W
  pub cpu_enable : ℕ → W → W
  pub cpu_disable : ℕ → W → W
  pub cpu_set_entrypoint : ℕ → ℕ → W → W
  pub cpu_set_stack : ℕ → ℕ → ℕ → W → W
  pub start_stack : ℕ → ℕ
  pub hang : W → W
  pub schedule_poweroff : W → Outcome W
  pub lines : W → ℕ → Bool × Bool

-- The laws of the cpu's side that the theorems rely on: `cpu_set_irqs` drives the two lines of
-- its cpu and of no other, and nothing else moves a line.
pub record PortLaws {W : Type 0} (port : Port W) : Type 0 where
  pub lines-set :
      (i j : ℕ) (lb ipi : Bool) (w : W)
      → port.lines (port.cpu_set_irqs i lb ipi w) j ≡ (if i == j then (lb, ipi) else port.lines w j)
  pub lines-enable : (i j : ℕ) (w : W) → port.lines (port.cpu_enable i w) j ≡ port.lines w j
  pub lines-disable : (i j : ℕ) (w : W) → port.lines (port.cpu_disable i w) j ≡ port.lines w j
  pub lines-entrypoint :
      (i j a : ℕ) (w : W) → port.lines (port.cpu_set_entrypoint i a w) j ≡ port.lines w j
  pub lines-stack :
      (i j a arg : ℕ) (w : W) → port.lines (port.cpu_set_stack i a arg w) j ≡ port.lines w j
  pub lines-hang : (j : ℕ) (w : W) → port.lines (port.hang w) j ≡ port.lines w j
  pub lines-poweroff :
      (j : ℕ) (w w' : W) → port.schedule_poweroff w ≡ ok w' → port.lines w' j ≡ port.lines w j
