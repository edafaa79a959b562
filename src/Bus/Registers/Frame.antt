-- ===== src/Bus/Registers/Frame.antt =====
-- What a change of one cpu, and the loop of `set_cpue`, leave of the interrupt lines.
use sys.Base.{
  ℕ, zero, suc, ◌+◌, ◌^◌, ◌≡◌, ◌≢◌, refl, ◌∙◌, inl, inr, not, ◌&&◌, Bool-cases, List, [], ◌∷◌, some,
  get_elem?, set, bit_and, arith,
}
use sys.Base.Bits.{nonzero}
use sys.Bus.State.{LamebusCpu, Port, PortLaws}
use sys.Bus.Irq.Lines.{AllRight, Agree, Agree-frame}
use sys.Bus.Cpue.{turn_on, set_cpue_cpu, set_cpue_from}

pub AllRight-set :
    (mask : ℕ) (cpus : List LamebusCpu) (r : ℕ) (cpu : LamebusCpu)
    → AllRight mask cpus
    → cpu.interrupting ≡ nonzero (bit_and mask cpu.enabled_interrupts)
    → AllRight mask (set cpus r cpu)
AllRight-set mask [] r cpu a h = tt
AllRight-set mask (x ∷ cpus) zero cpu a h = (h, a.1)
AllRight-set mask (x ∷ cpus) (suc r) cpu a h = (a.0, AllRight-set mask cpus r cpu a.1 h)

pub AllRight-get :
    (mask : ℕ) (cpus : List LamebusCpu) (r : ℕ) (cpu : LamebusCpu)
    → AllRight mask cpus
    → get_elem? cpus r ≡ some cpu
    → cpu.interrupting ≡ nonzero (bit_and mask cpu.enabled_interrupts)
AllRight-get mask [] r cpu a h = cc
AllRight-get mask (x ∷ cpus) zero cpu a h = ground (arith, a.0)
AllRight-get mask (x ∷ cpus) (suc r) cpu a h = AllRight-get mask cpus r cpu a.1 h

module _ {W : Type 0} (port : Port W) (laws : PortLaws port) where
  pub Agree-get :
      (i n r : ℕ) (cpus : List LamebusCpu) (w : W) (cpu : LamebusCpu)
      → n ≡ i + r
      → Agree port i cpus w
      → get_elem? cpus r ≡ some cpu
      → port.lines w n ≡ (cpu.interrupting, cpu.ipi)
  Agree-get i n r [] w cpu e a h = cc
  Agree-get i n zero (x ∷ cpus) w cpu e a h =
      let e' : n ≡ i = omega arith in rw e' (ground (arith, a.0))
  Agree-get i n (suc r) (x ∷ cpus) w cpu e a h =
      Agree-get (i + 1) n r cpus w cpu (omega arith) a.1 h

  -- Replacing a cpu, and its lines, leaves the others in agreement.
  pub Agree-set :
      (i n r : ℕ) (cpus : List LamebusCpu) (w w' : W) (cpu : LamebusCpu)
      → n ≡ i + r
      → Agree port i cpus w
      → ((j : ℕ) → n ≢ j → port.lines w' j ≡ port.lines w j)
      → port.lines w' n ≡ (cpu.interrupting, cpu.ipi)
      → Agree port i (set cpus r cpu) w'
  Agree-set i n r [] w w' cpu e a same new = tt
  Agree-set i n zero (x ∷ cpus) w w' cpu e a same new =
      let e' : n ≡ i = omega arith in
      (
        rw e' at new,
        Agree-frame port (i + 1) cpus w w' (λ j h. same j (λ q. absurd (omega arith))) a.1,
      )
  Agree-set i n (suc r) (x ∷ cpus) w w' cpu e a same new = (
    same i (λ q. absurd (omega arith)) ∙ a.0,
    Agree-set (i + 1) n r cpus w w' cpu (omega arith) a.1 same new,
  )

  lines-turn_on :
      (i j : ℕ) (cpu : LamebusCpu) (w : W) → port.lines (turn_on port i cpu w) j ≡ port.lines w j
  unfolding turn_on
  lines-turn_on i j cpu w =
      laws.lines-enable i j _ ∙ laws.lines-stack i j _ _ _ ∙ laws.lines-entrypoint i j _ w

  -- `set_cpue` moves no line, and changes nothing that the invariant speaks of.
  lines-set_cpue_cpu :
      (val i j : ℕ) (cpu : LamebusCpu) (w : W)
      → port.lines (set_cpue_cpu port val i cpu w).1 j ≡ port.lines w j
  unfolding set_cpue_cpu
  lines-set_cpue_cpu val i j cpu w =
      let thisbit = nonzero (bit_and val (2 ^ i)) in
      elim (Bool-cases (cpu.enabled && not thisbit)) [
        | inl off ↦ rw off (laws.lines-disable i j w)
        | inr keep ↦ elim (Bool-cases (not cpu.enabled && thisbit)) [
          | inl on ↦ rw (keep, on) (lines-turn_on i j cpu w)
          | inr same ↦ rw (keep, same)
        ]
      ]

  set_cpue_cpu-fields :
      (val i : ℕ) (cpu : LamebusCpu) (w : W)
      → let cpu' = (set_cpue_cpu port val i cpu w).0 in
        (cpu'.interrupting ≡ cpu.interrupting)
        × (cpu'.ipi ≡ cpu.ipi)
        × (cpu'.enabled_interrupts ≡ cpu.enabled_interrupts)
  unfolding set_cpue_cpu
  set_cpue_cpu-fields val i cpu w = ground arith

  pub set_cpue_from-IsConsistent :
      (val mask i : ℕ) (cpus : List LamebusCpu) (w : W)
      → AllRight mask cpus
      → Agree port i cpus w
      → let (cpus', w') = set_cpue_from port val i cpus w in
        AllRight mask cpus' × Agree port i cpus' w' × ((j : ℕ) → port.lines w' j ≡ port.lines w j)
  unfolding set_cpue_from
  set_cpue_from-IsConsistent val mask i [] w r a = (tt, tt, λ j. refl)
  set_cpue_from-IsConsistent val mask i (cpu ∷ rest) w r a =
      let (cpu', w') = set_cpue_cpu port val i cpu w in
      let fields = set_cpue_cpu-fields val i cpu w in
      let here = lines-set_cpue_cpu val i i cpu w in
      let tail =
        set_cpue_from-IsConsistent val mask (i + 1) rest w' r.1
          (Agree-frame port (i + 1) rest w w' (λ j h. lines-set_cpue_cpu val i j cpu w) a.1) in
      (
        (rw (fields.0, fields.2) r.0, tail.0),
        (tail.2 i ∙ here ∙ rw (fields.0, fields.1) a.0, tail.1),
        λ j. tail.2 j ∙ lines-set_cpue_cpu val i j cpu w,
      )
