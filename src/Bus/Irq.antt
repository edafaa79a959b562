-- ===== src/Bus/Irq.antt =====
-- The interrupt dispatcher: `irqupdate`, `raise_irq`, `lower_irq`, `check_irq`.
pub mod Lines
use sys.Base.{ℕ, ◌+◌, ◌^◌, Bool, true, false, List, [], ◌∷◌, bit_and, bit_or, if◌then◌else◌}
use sys.Base.Bits.{nonzero, bit_not}
use sys.Bus.State.{LamebusCpu, Bus, Port}

-- `irq != cpu->cpu_interrupting`.
abbrev pub differ : Bool → Bool → Bool
differ true true = false
differ false false = false
differ _ _ = true

module _ {W : Type 0} (port : Port W) where
  -- The body of the loop in `irqupdate`, at cpu `i`.
  unfoldable pub irqupdate_cpu : ℕ → ℕ → LamebusCpu → W → LamebusCpu × W
  irqupdate_cpu mask i cpu w =
      let irq = nonzero (bit_and mask cpu.enabled_interrupts) in
      if differ irq cpu.interrupting
      then (record cpu { interrupting = irq }, port.cpu_set_irqs i irq cpu.ipi w)
      else (cpu, w)

  unfoldable pub irqupdate_from : ℕ → ℕ → List LamebusCpu → W → List LamebusCpu × W
  unfolding irqupdate_cpu
  irqupdate_from mask i [] w = ([], w)
  irqupdate_from mask i (cpu ∷ rest) w =
      let (cpu', w') = irqupdate_cpu mask i cpu w in
      let (rest', w'') = irqupdate_from mask (i + 1) rest w' in (cpu' ∷ rest', w'')

  unfoldable pub irqupdate : Bus × W → Bus × W
  unfolding irqupdate_from
  irqupdate (b, w) =
      let (cpus', w') = irqupdate_from (bit_and b.raised b.enabled_irqs) 0 b.cpus w in
      (record b { cpus = cpus' }, w')

  unfoldable pub raise_irq : ℕ → Bus × W → Bus × W
  unfolding irqupdate
  raise_irq slot (b, w) = irqupdate (record b { raised = bit_or b.raised (2 ^ slot) }, w)

  unfoldable pub lower_irq : ℕ → Bus × W → Bus × W
  unfolding irqupdate
  lower_irq slot (b, w) = irqupdate (record b { raised = bit_and b.raised (bit_not (2 ^ slot)) }, w)

unfoldable pub check_irq : ℕ → Bus → Bool
check_irq slot b = nonzero (bit_and b.raised (2 ^ slot))
