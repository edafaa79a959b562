-- ===== src/Mips/Cycle/Interrupts.antt =====
-- Interrupts at the beginning of a cycle.
use sys.Base.{
  arith, ◌≢◌, bit_and, ℕ, ◌≡◌, ◌⊎◌, inl, inr, refl, ap, ◌∙◌, Bool, true, false, ◌&&◌, ◌||◌,
  if◌then◌else◌, ap₂,
}
use mathlib.Core.Bool.{false≢true}
use sys.Mips.State.{MipsCpu, ex_irq}
use sys.Mips.Exception.{exception}
use sys.Mips.Exception.Vectors.{AtVector, vector-AtVector}
use sys.Mips.Cycle.{update_expc, pending, check_interrupts}

-- The instruction that an exception at the beginning of the cycle is to come back to: the next
-- one, or the branch in front of it.
abbrev pub resume_at : MipsCpu → ℕ
resume_at cpu = if cpu.jumping then cpu.expc else cpu.pc

-- What an interrupt at `c` makes of it.
abbrev Taken : MipsCpu → MipsCpu → Type 0
Taken c c' =
    AtVector c'.pc
    × (c'.expc ≡ c'.pc)
    × (c'.ex_epc ≡ c.expc)
    × (c'.cause_bd ≡ c.in_jumpdelay)
    × (c'.cause_code ≡ 0)
    × (c'.current_irqon ≡ false)
    × (c'.current_usermode ≡ false)
    × (c'.prev_usermode ≡ c.current_usermode)
    × (c'.prev_irqon ≡ c.current_irqon)
    × (check_interrupts c' ≡ c')

and_split :
    (a b : Bool)
    → ((a && b) ≡ true × a ≡ true × b ≡ true) ⊎ ((a && b) ≡ false × ((a ≡ false) ⊎ (b ≡ false)))
and_split true true = inl (refl, refl, refl)
and_split true false = inr (refl, inr refl)
and_split false b = inr (refl, inl refl)

module _ (c : MipsCpu) where
  check_interrupts-Taken : (c.current_irqon && pending c) ≡ true → Taken c (check_interrupts c)
  unfolding check_interrupts exception
  check_interrupts-Taken = go (c.current_irqon && pending c)
    where
      go :
          (b : Bool)
          → b ≡ true
          → Taken c
              (if b then (let c' = exception ex_irq 0 0 c in record c' { expc = c'.pc }) else c)
      go true e = (
        vector-AtVector c.status_bootvectors ex_irq 0,
        refl,
        refl,
        refl,
        refl,
        refl,
        refl,
        refl,
        refl,
        refl,
      )
      go false e = absurd (false≢true e)

  check_interrupts_none : (c.current_irqon && pending c) ≡ false → check_interrupts c ≡ c
  unfolding check_interrupts
  check_interrupts_none e =
      ap (λ b. if b then (let c' = exception ex_irq 0 0 c in record c' { expc = c'.pc }) else c) e

update_expc_lem :
    (cpu : MipsCpu)
    → ((update_expc cpu).expc ≡ resume_at cpu)
      × ((update_expc cpu).in_jumpdelay ≡ (cpu.jumping || cpu.in_jumpdelay))
      × ((update_expc cpu).current_irqon ≡ cpu.current_irqon)
      × ((update_expc cpu).current_usermode ≡ cpu.current_usermode)
      × (pending (update_expc cpu) ≡ pending cpu)
unfolding update_expc pending
update_expc_lem cpu = go cpu.jumping
  where
    start : Bool → MipsCpu
    start b =
        if b
        then record cpu { jumping = false; in_jumpdelay = true }
        else record cpu { expc = cpu.pc }

    go :
        (b : Bool)
        → ((start b).expc ≡ (if b then cpu.expc else cpu.pc))
          × ((start b).in_jumpdelay ≡ (b || cpu.in_jumpdelay))
          × ((start b).current_irqon ≡ cpu.current_irqon)
          × ((start b).current_usermode ≡ cpu.current_usermode)
          × (pending (start b) ≡ pending cpu)
    go true = (refl, refl, refl, refl, refl)
    go false = (refl, refl, refl, refl, refl)

-- What an interrupt makes of the cpu `cpu` at the beginning of a cycle.
abbrev pub Interrupted : MipsCpu → MipsCpu → Type 0
Interrupted cpu c =
    AtVector c.pc
    × (c.expc ≡ c.pc)
    × (c.ex_epc ≡ resume_at cpu)
    × (c.cause_bd ≡ (cpu.jumping || cpu.in_jumpdelay))
    × (c.cause_code ≡ 0)
    × (c.current_irqon ≡ false)
    × (c.current_usermode ≡ false)
    × (c.prev_usermode ≡ cpu.current_usermode)
    × (c.prev_irqon ≡ cpu.current_irqon)
    × (check_interrupts c ≡ c)

-- An interrupt is pending and enabled: of the bus, from another cpu, of the timer, or of software.
abbrev pub IsPending : MipsCpu → Type 0
IsPending cpu =
    ((cpu.irq_lamebus ≡ true) × (cpu.status_hardmask_lb ≢ 0))
    ⊎ ((cpu.irq_ipi ≡ true) × (cpu.status_hardmask_ipi ≢ 0))
    ⊎ ((cpu.irq_timer ≡ true) × (cpu.status_hardmask_timer ≢ 0))
    ⊎ (bit_and cpu.status_softmask cpu.cause_softirq ≢ 0)

pending-IsPending : (cpu : MipsCpu) → pending cpu ≡ true → IsPending cpu
unfolding pending
pending-IsPending cpu e = ground (arith, e)

IsPending-pending : (cpu : MipsCpu) → pending cpu ≡ false → ¬ IsPending cpu
unfolding pending
IsPending-pending cpu e (inl (up, on)) = ground (arith, e, up, on)
IsPending-pending cpu e (inr (inl (up, on))) = ground (arith, e, up, on)
IsPending-pending cpu e (inr (inr (inl (up, on)))) = ground (arith, e, up, on)
IsPending-pending cpu e (inr (inr (inr on))) = ground (arith, e, on)

-- At the beginning of a cycle an interrupt is taken exactly if interrupts are on and one that
-- is enabled is pending, of the bus, from another cpu, of the timer or of software; then the cpu is
-- at a handler in kernel mode with interrupts off, where none is taken again, and it reports the
-- next instruction, or the branch in front of it and the delay slot.
pub check_interrupts_lem :
    (cpu : MipsCpu)
    → ((cpu.current_irqon ≡ true)
        × IsPending cpu
        × Interrupted cpu (check_interrupts (update_expc cpu)))
      ⊎ (((cpu.current_irqon ≡ false) ⊎ (¬ IsPending cpu))
          × (check_interrupts (update_expc cpu) ≡ update_expc cpu))
check_interrupts_lem cpu =
    let c = update_expc cpu in
    let (at, bd, irqon, usermode, same) = update_expc_lem cpu in
    let both : (c.current_irqon && pending c) ≡ (cpu.current_irqon && pending cpu) =
      ap₂ (λ a b. a && b) irqon same in
    elim (and_split cpu.current_irqon (pending cpu)) [
      | inl (e, on, p) ↦
          let (v, x, epc, b, code, off, kernel, pu, pi, again) =
            check_interrupts-Taken c (both ∙ e) in
          inl (
            on,
            pending-IsPending cpu p,
            (v, x, epc ∙ at, b ∙ bd, code, off, kernel, pu ∙ usermode, pi ∙ irqon, again),
          )
      | inr (e, inl off) ↦ inr (inl off, check_interrupts_none c (both ∙ e))
      | inr (e, inr p) ↦ inr (inr (IsPending-pending cpu p), check_interrupts_none c (both ∙ e))
    ]
