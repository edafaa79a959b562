-- ===== src/Bus/Irq/Lines.antt =====
-- The interrupt lines of the cpus follow the interrupts that are raised and enabled.
use sys.Base.{
  ℕ, ◌+◌, ◌≤◌, ◌<◌, ◌^◌, ◌≡◌, ◌≢◌, refl, ◌∙◌, inl, inr, Bool, true, false, Bool-cases, List, [],
  ◌∷◌, bit_and, bit_or, ◌==◌, if◌then◌else◌, arith,
}
use sys.Base.Bits.{
  bit-lt, nonzero, bit_not, nonzero-bit, bit-bit_or, bit-bit_and, bit-pow, bit-bit_not,
}
use sys.Bus.State.{LamebusCpu, Bus, Port, PortLaws}
use sys.Bus.Irq.{differ, irqupdate_cpu, irqupdate_from, irqupdate, raise_irq, lower_irq, check_irq}

-- The interrupts that reach the cpus.
abbrev pub pending : Bus → ℕ
pending b = bit_and b.raised b.enabled_irqs

-- Each cpu is interrupting exactly if it enables one of the interrupts of `mask`.
abbrev pub AllRight : ℕ → List LamebusCpu → Type 0
AllRight mask [] = Unit
AllRight mask (cpu ∷ rest) =
    (cpu.interrupting ≡ nonzero (bit_and mask cpu.enabled_interrupts)) × AllRight mask rest

differ-false : (a b : Bool) → differ a b ≡ false → b ≡ a
differ-false true true h = refl
differ-false true false h = cc
differ-false false true h = cc
differ-false false false h = refl

module _ {W : Type 0} (port : Port W) where
  -- The cpus from number `i` on have the lines that the controller thinks they have.
  abbrev pub Agree : ℕ → List LamebusCpu → W → Type 0
  Agree i [] w = Unit
  Agree i (cpu ∷ rest) w = (port.lines w i ≡ (cpu.interrupting, cpu.ipi)) × Agree (i + 1) rest w

  -- The invariant of the controller.
  abbrev pub IsConsistent : Bus × W → Type 0
  IsConsistent (b, w) = AllRight (pending b) b.cpus × Agree 0 b.cpus w

  -- What is done to one cpu does not disturb the lines of those behind it.
  pub Agree-frame :
      (i : ℕ) (cpus : List LamebusCpu) (w w' : W)
      → ((j : ℕ) → i ≤ j → port.lines w' j ≡ port.lines w j)
      → Agree i cpus w
      → Agree i cpus w'
  Agree-frame i [] w w' same a = tt
  Agree-frame i (cpu ∷ rest) w w' same a =
      (same i (omega arith) ∙ a.0, Agree-frame (i + 1) rest w w' (λ j h. same j (omega arith)) a.1)

  -- Raising the interrupt of a slot sets that slot's bit and no other.
  pub check_irq-raise_irq :
      (slot j : ℕ) (b : Bus) (w : W)
      → check_irq j (raise_irq port slot (b, w)).0 ≡ (if slot == j then true else check_irq j b)
  unfolding raise_irq check_irq irqupdate
  check_irq-raise_irq slot j b w =
      rw (nonzero-bit, nonzero-bit, bit-bit_or, bit-pow) (ground (arith, bit-lt b.raised j))

  -- Lowering it clears that slot's bit and no other.
  pub check_irq-lower_irq :
      (slot j : ℕ) (b : Bus) (w : W)
      → slot < 32
      → j < 32
      → check_irq j (lower_irq port slot (b, w)).0 ≡ (if slot == j then false else check_irq j b)
  unfolding lower_irq check_irq irqupdate
  check_irq-lower_irq slot j b w hs hj =
      rw (nonzero-bit, nonzero-bit, bit-bit_and, bit-bit_not slot j hs hj)
        (ground (arith, bit-lt b.raised j))

module _ {W : Type 0} (port : Port W) (laws : PortLaws port) where
  irqupdate_cpu_lem :
      (mask i : ℕ) (cpu : LamebusCpu) (w : W)
      → port.lines w i ≡ (cpu.interrupting, cpu.ipi)
      → let (cpu', w') = irqupdate_cpu port mask i cpu w in
        (cpu'.interrupting ≡ nonzero (bit_and mask cpu'.enabled_interrupts))
        × (port.lines w' i ≡ (cpu'.interrupting, cpu'.ipi))
        × ((j : ℕ) → i ≢ j → port.lines w' j ≡ port.lines w j)
  unfolding irqupdate_cpu
  irqupdate_cpu_lem mask i cpu w a =
      let irq = nonzero (bit_and mask cpu.enabled_interrupts) in
      elim (Bool-cases (differ irq cpu.interrupting)) [
        | inl moved ↦ rw moved (
          refl,
          ground (arith, laws.lines-set i i irq cpu.ipi w),
          λ j ne. ground (arith, laws.lines-set i j irq cpu.ipi w),
        )
        | inr still ↦ rw still (ground (arith, differ-false irq cpu.interrupting), a, λ j ne. refl)
      ]

  irqupdate_from_lem :
      (mask i : ℕ) (cpus : List LamebusCpu) (w : W)
      → Agree port i cpus w
      → let (cpus', w') = irqupdate_from port mask i cpus w in
        AllRight mask cpus'
        × Agree port i cpus' w'
        × ((j : ℕ) → j < i → port.lines w' j ≡ port.lines w j)
  unfolding irqupdate_from
  irqupdate_from_lem mask i [] w a = (tt, tt, λ j h. refl)
  irqupdate_from_lem mask i (cpu ∷ rest) w a =
      let (cpu', w') = irqupdate_cpu port mask i cpu w in
      let head = irqupdate_cpu_lem mask i cpu w a.0 in
      let same : (j : ℕ) → i + 1 ≤ j → port.lines w' j ≡ port.lines w j =
        λ j h. head.2 j (λ e. absurd (omega arith)) in
      let tail =
        irqupdate_from_lem mask (i + 1) rest w' (Agree-frame port (i + 1) rest w w' same a.1) in
      (
        (head.0, tail.0),
        (tail.2 i (omega arith) ∙ head.1, tail.1),
        λ j h. tail.2 j (omega arith) ∙ head.2 j (λ e. absurd (omega arith)),
      )

  -- From a state in which the cpus' lines are what the controller thinks they are, `irqupdate`
  -- establishes the invariant.
  pub irqupdate-IsConsistent :
      (b : Bus) (w : W) → Agree port 0 b.cpus w → IsConsistent port (irqupdate port (b, w))
  unfolding irqupdate
  irqupdate-IsConsistent b w a = let r = irqupdate_from_lem (pending b) 0 b.cpus w a in (r.0, r.1)

  -- For a port that keeps its laws, raising the interrupt of a slot keeps the invariant, and sets
  -- that slot's bit and no other.
  pub raise_irq-IsConsistent :
      (slot j : ℕ) (b : Bus) (w : W)
      → IsConsistent port (b, w)
      → IsConsistent port (raise_irq port slot (b, w))
        × (check_irq j (raise_irq port slot (b, w)).0 ≡ (if slot == j then true else check_irq j b))
  unfolding raise_irq check_irq irqupdate
  raise_irq-IsConsistent slot j b w c = (
    irqupdate-IsConsistent (record b { raised = bit_or b.raised (2 ^ slot) }) w c.1,
    check_irq-raise_irq port slot j b w,
  )

  -- For a port that keeps its laws, lowering the interrupt of a slot keeps the invariant, and clears
  -- that slot's bit and, of the 32 slots, no other.
  lower_irq-IsConsistent :
      (slot j : ℕ) (b : Bus) (w : W)
      → slot < 32
      → j < 32
      → IsConsistent port (b, w)
      → IsConsistent port (lower_irq port slot (b, w))
        × (check_irq j (lower_irq port slot (b, w)).0
            ≡ (if slot == j then false else check_irq j b))
  unfolding lower_irq check_irq irqupdate
  lower_irq-IsConsistent slot j b w hs hj c = (
    irqupdate-IsConsistent (record b { raised = bit_and b.raised (bit_not (2 ^ slot)) }) w c.1,
    check_irq-lower_irq port slot j b w hs hj,
  )
