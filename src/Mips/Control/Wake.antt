-- ===== src/Mips/Control/Wake.antt =====
-- Idle cpus and the interrupts that wake them.
use sys.Base.{ℕ, ◌≡◌, refl, sym, ◌∙◌, Bool, true, false, not, ◌&&◌, ◌||◌, if◌then◌else◌}
use mathlib.Core.Bool.{false≢true}
use sys.Mips.State.{MipsCpu, CpuState}
use sys.Mips.Exception.{do_wait}
use sys.Mips.Control.{cpu_set_irqs}

-- A cpu does not idle while one of its interrupts is up.
abbrev pub IsAwake : MipsCpu → Type 0
IsAwake cpu =
    cpu.state ≡ CpuState.idle
    → (cpu.irq_lamebus ≡ false) × (cpu.irq_ipi ≡ false) × (cpu.irq_timer ≡ false)

module _ {W : Type 0} (mask_on mask_off : ℕ → W → W) (cpu : MipsCpu) (w : W) where
  do_wait-IsAwake : cpu.state ≡ CpuState.running → IsAwake (do_wait mask_off (cpu, w)).0
  unfolding do_wait
  do_wait-IsAwake running = go cpu.irq_lamebus cpu.irq_ipi cpu.irq_timer refl refl refl
    where
      go :
          (a b c : Bool)
          → cpu.irq_lamebus ≡ a
          → cpu.irq_ipi ≡ b
          → cpu.irq_timer ≡ c
          → IsAwake (
              let r : MipsCpu × W =
                if not a && not b && not c
                then (record cpu { state = CpuState.idle }, mask_off cpu.cpunum w)
                else (cpu, w) in
              r.0)
      go false false false ea eb ec = λ idle. (ea, eb, ec)
      go true b c ea eb ec = λ idle. cc
      go false true c ea eb ec = λ idle. cc
      go false false true ea eb ec = λ idle. cc

  cpu_set_irqs-IsAwake :
      (lamebus ipi : Bool) → IsAwake cpu → IsAwake (cpu_set_irqs mask_on lamebus ipi (cpu, w)).0
  unfolding cpu_set_irqs
  cpu_set_irqs-IsAwake lamebus ipi awake = go cpu.state refl lamebus ipi
    where
      go :
          (s : CpuState)
          → cpu.state ≡ s
          → (lamebus ipi : Bool)
          → IsAwake (
              let r : MipsCpu × W = elim s [
                | CpuState.idle ↦
                    if lamebus || ipi
                    then (
                      record cpu { irq_lamebus = lamebus; irq_ipi = ipi; state = CpuState.running },
                      mask_on cpu.cpunum w,
                    )
                    else (record cpu { irq_lamebus = lamebus; irq_ipi = ipi }, w)
                | CpuState.running ↦ (record cpu { irq_lamebus = lamebus; irq_ipi = ipi }, w)
                | CpuState.disabled ↦ (record cpu { irq_lamebus = lamebus; irq_ipi = ipi }, w)
              ] in
              r.0)
      go CpuState.idle e true ipi = λ idle. cc
      go CpuState.idle e false true = λ idle. cc
      go CpuState.idle e false false = λ idle. (refl, refl, (awake idle).2)
      go CpuState.running e l i =
          λ idle. let no_way : CpuState.running ≡ CpuState.idle = sym e ∙ idle in cc
      go CpuState.disabled e l i =
          λ idle. let no_way : CpuState.disabled ≡ CpuState.idle = sym e ∙ idle in cc

  cpu_set_irqs_wakes :
      (lamebus ipi : Bool)
      → cpu.state ≡ CpuState.idle
      → (lamebus || ipi) ≡ true
      → (cpu_set_irqs mask_on lamebus ipi (cpu, w)).0.state ≡ CpuState.running
  unfolding cpu_set_irqs
  cpu_set_irqs_wakes lamebus ipi idle up = go cpu.state idle (lamebus || ipi) up
    where
      lines : MipsCpu
      lines = record cpu { irq_lamebus = lamebus; irq_ipi = ipi }

      go :
          (s : CpuState)
          → s ≡ CpuState.idle
          → (b : Bool) → b ≡ true
          → (let r : MipsCpu × W = elim s [
            | CpuState.idle ↦
                if b
                then (record lines { state = CpuState.running }, mask_on cpu.cpunum w)
                else (lines, w)
            | CpuState.running ↦ (lines, w)
            | CpuState.disabled ↦ (lines, w)
          ] in
              r.0.state ≡ CpuState.running)
      go CpuState.idle e true up' = refl
      go CpuState.idle e false up' = absurd (false≢true up')
      go CpuState.running e b up' = cc
      go CpuState.disabled e b up' = cc

-- A running cpu that executes wait does not idle while one of its interrupts is up;
-- cpu_set_irqs keeps that so, and wakes an idle cpu where it raises a line.
pub wake_lem :
    {W : Type 0} (mask_on mask_off : ℕ → W → W) (cpu : MipsCpu) (w : W)
    → (cpu.state ≡ CpuState.running → IsAwake (do_wait mask_off (cpu, w)).0)
      × ((lamebus ipi : Bool)
          → IsAwake cpu
          → IsAwake (cpu_set_irqs mask_on lamebus ipi (cpu, w)).0
            × (cpu.state ≡ CpuState.idle
                → (lamebus || ipi) ≡ true
                → (cpu_set_irqs mask_on lamebus ipi (cpu, w)).0.state ≡ CpuState.running))
wake_lem mask_on mask_off cpu w = (
  do_wait-IsAwake mask_on mask_off cpu w,
  λ lamebus ipi awake. (
    cpu_set_irqs-IsAwake mask_on mask_off cpu w lamebus ipi awake,
    cpu_set_irqs_wakes mask_on mask_off cpu w lamebus ipi,
  ),
)
