-- ===== src/Bus/Registers/Invariant.antt =====
-- Every store to a register of the controller keeps the invariant of the interrupt lines.
use sys.Base.{
  ℕ, ◌-◌, ◌/◌, ◌%◌, ◌≡◌, refl, inl, inr, Bool, Bool-cases, List, Option, some, Option-cases, ◌⊎◌,
  get_elem?, set, bit_and, ltb, leb, ◌==◌, Outcome, ok, smoke, undefined, out_of_fuel, ◌>>=◌, arith,
}
use sys.Base.Bits.{nonzero}
use sys.Bus.State.{LamebusCpu, Bus, Port, PortLaws, nslots, config_size, controller_slot}
use sys.Bus.Irq.Lines.{pending, Agree-frame, IsConsistent, irqupdate-IsConsistent}
use sys.Bus.Cpue.{set_cpue}
use sys.Bus.Registers.Frame.{
  AllRight-set, AllRight-get, Agree-get, Agree-set, set_cpue_from-IsConsistent,
}
use sys.Bus.Registers.{
  in_cram, set_cram_word, store_cpu_register, controller_store_cpu, store_power,
  controller_store_config, controller_store,
}

-- What a store that is accepted leaves satisfies `P`.
abbrev pub Accepted : {S : Type 0} → (S → Type 0) → Outcome (Option S) → Type 0
Accepted P (ok (some s)) = P s
Accepted P _ = Unit

module _ {W : Type 0} (port : Port W) (laws : PortLaws port) where
  set_cram_word-cases :
      (cpu : LamebusCpu) (offset val : ℕ)
      → (set_cram_word cpu offset val ≡ undefined)
        ⊎ ((l : List ℕ) × (set_cram_word cpu offset val ≡ ok (record cpu { cram = l })))
  unfolding set_cram_word
  set_cram_word-cases cpu offset val = elim (Option-cases (get_elem? cpu.cram (offset / 4))) [
    | inl e ↦ inl (rw (e, set_cram_word))
    | inr (v, e) ↦ inr (set cpu.cram (offset / 4) val, rw (e, set_cram_word))
  ]

  -- A write of CIPI drives the cpu's line.
  cipi_store :
      (region : ℕ) (cpu : LamebusCpu) (val : ℕ) (b : Bus) (w : W)
      → cpu.interrupting ≡ nonzero (bit_and (pending b) cpu.enabled_interrupts)
      → port.lines w region ≡ (cpu.interrupting, cpu.ipi)
      → IsConsistent port (b, w)
      → IsConsistent port (
        record b { cpus = set b.cpus region (record cpu { ipi = nonzero val }) },
        port.cpu_set_irqs region cpu.interrupting (nonzero val) w,
      )
  cipi_store region cpu val b w right lines c =
      let new = record cpu { ipi = nonzero val } in
      let w' = port.cpu_set_irqs region cpu.interrupting (nonzero val) w in
      let set_line = λ (j : ℕ). laws.lines-set region j cpu.interrupting (nonzero val) w in
      (
        AllRight-set (pending b) b.cpus region new c.0 right,
        Agree-set port laws 0 region region b.cpus w w' new (omega arith) c.1
            (λ j ne. ground (arith, set_line j)) (ground (arith, set_line region)),
      )

  store_cpu_register-IsConsistent :
      (region : ℕ) (cpu : LamebusCpu) (offset val : ℕ) (b : Bus) (w : W)
      → get_elem? b.cpus region ≡ some cpu
      → IsConsistent port (b, w)
      → Accepted (IsConsistent port) (store_cpu_register port region cpu offset val (b, w))
  unfolding store_cpu_register
  store_cpu_register-IsConsistent region cpu offset val b w found c =
      let right = AllRight-get (pending b) b.cpus region cpu c.0 found in
      let lines = Agree-get port laws 0 region region b.cpus w cpu (omega arith) c.1 found in
      elim (Bool-cases (in_cram offset)) [
        | inl cram ↦ elim (set_cram_word-cases cpu (offset - 0x300) val) [
          | inl bad ↦ rw (cram, bad) tt
          | inr (l, good) ↦
              rw (cram, good)
                (
                  AllRight-set (pending b) b.cpus region (record cpu { cram = l }) c.0 right,
                  Agree-set port laws 0 region region b.cpus w w (record cpu { cram = l })
                      (omega arith) c.1 (λ j ne. refl) lines,
                )
        ]
        | inr reg ↦ elim (Bool-cases (offset == 0x0)) [
          | inl irqe ↦
              rw (reg, irqe)
                (irqupdate-IsConsistent port laws
                  (record b { cpus = set b.cpus region (record cpu { enabled_interrupts = val }) })
                  w
                  (Agree-set port laws 0 region region b.cpus w w
                    (record cpu { enabled_interrupts = val }) (omega arith) c.1 (λ j ne. refl)
                    lines))
          | inr other ↦ elim (Bool-cases (offset == 0x4)) [
            | inl ipi ↦ rw (reg, other, ipi) (cipi_store region cpu val b w right lines c)
            | inr none' ↦ rw (reg, other, none') tt
          ]
        ]
      ]

  controller_store_cpu-IsConsistent :
      (offset val : ℕ) (b : Bus) (w : W)
      → IsConsistent port (b, w)
      → Accepted (IsConsistent port) (controller_store_cpu port offset val (b, w))
  unfolding controller_store_cpu
  controller_store_cpu-IsConsistent offset val b w c =
      elim (Bool-cases (ltb (offset / config_size) nslots)) [
        | inr out ↦ rw out tt
        | inl inside ↦ elim (Option-cases (get_elem? b.cpus (offset / config_size))) [
          | inl absent ↦ rw (inside, absent, ◌>>=◌) tt
          | inr (cpu, found) ↦
              rw (inside, found, ◌>>=◌)
                (store_cpu_register-IsConsistent (offset / config_size) cpu (offset % config_size)
                  val b w found c)
        ]
      ]

  accept_poweroff :
      (b : Bus) (m : Outcome W)
      → ((w' : W) → m ≡ ok w' → IsConsistent port (b, w'))
      → Accepted (IsConsistent port) ((m >>= λ w'. ok (b, w')) >>= λ s. ok (some s))
  accept_poweroff b (ok w') h = h w' refl
  accept_poweroff b smoke h = tt
  accept_poweroff b undefined h = tt
  accept_poweroff b out_of_fuel h = tt

  store_power-IsConsistent :
      (isold : Bool) (val : ℕ) (b : Bus) (w : W)
      → IsConsistent port (b, w)
      → Accepted (IsConsistent port) (store_power port isold val (b, w) >>= λ s. ok (some s))
  unfolding store_power
  store_power-IsConsistent isold val b w c = elim (Bool-cases (val == 0)) [
    | inl off ↦ rw off (
        accept_poweroff b (port.schedule_poweroff w)
          (λ w' e. (c.0, Agree-frame port 0 b.cpus w w' (λ j h. laws.lines-poweroff j w w' e) c.1)))
    | inr on ↦ elim (Bool-cases isold) [
      | inl old ↦ rw (on, old) c
      | inr new ↦ elim (Bool-cases (bit_and val 0x8000_0000 == 0)) [
        | inl bad ↦
            rw (on, new, bad)
              (c.0, Agree-frame port 0 b.cpus w (port.hang w) (λ j h. laws.lines-hang j w) c.1)
        | inr good ↦ rw (on, new, good) c
      ]
    ]
  ]

  set_cpue-IsConsistent :
      (val : ℕ) (b : Bus) (w : W)
      → IsConsistent port (b, w)
      → IsConsistent port (set_cpue port val (b, w))
  unfolding set_cpue
  set_cpue-IsConsistent val b w c =
      let r = set_cpue_from-IsConsistent port laws val (pending b) 0 b.cpus w c.0 c.1 in (r.0, r.1)

  controller_store_config-IsConsistent :
      (isold : Bool) (offset val : ℕ) (b : Bus) (w : W)
      → IsConsistent port (b, w)
      → Accepted (IsConsistent port) (controller_store_config port isold offset val (b, w))
  unfolding controller_store_config
  controller_store_config-IsConsistent isold offset val b w c =
      let off = offset % config_size in
      elim (Bool-cases (ltb (offset / config_size) nslots)) [
        | inr out ↦ rw out tt
        | inl inside ↦ elim (Bool-cases (offset / config_size == controller_slot)) [
          | inr foreign ↦ rw (inside, foreign, ◌>>=◌) tt
          | inl own ↦ elim (Bool-cases (off == 0x208)) [
            | inl power ↦ rw (inside, own, power, ◌>>=◌) (store_power-IsConsistent isold val b w c)
            | inr p ↦ elim (Bool-cases (off == 0x20c)) [
              | inl irqe ↦
                  rw (inside, own, p, irqe, ◌>>=◌)
                    (irqupdate-IsConsistent port laws (record b { enabled_irqs = val }) w c.1)
              | inr q ↦ elim (Bool-cases (off == 0x214)) [
                | inr other ↦ rw (inside, own, p, q, other, ◌>>=◌) tt
                | inl cpue ↦ elim (Bool-cases isold) [
                  | inl old ↦ rw (inside, own, p, q, cpue, old, ◌>>=◌) tt
                  | inr new ↦
                      rw (inside, own, p, q, cpue, new, ◌>>=◌) (set_cpue-IsConsistent val b w c)
                ]
              ]
            ]
          ]
        ]
      ]

  -- A store to a register of the controller that is accepted keeps the invariant: each cpu is
  -- interrupting exactly if an interrupt is raised, enabled on the bus and enabled for it, and the
  -- cpu has the lines that the controller thinks it has.
  pub controller_store-IsConsistent :
      (isold : Bool) (offset val : ℕ) (b : Bus) (w : W)
      → IsConsistent port (b, w)
      → Accepted (IsConsistent port) (controller_store port isold offset val (b, w))
  unfolding controller_store
  controller_store-IsConsistent isold offset val b w c = elim (Bool-cases (leb 32768 offset)) [
    | inr low ↦ rw low (controller_store_config-IsConsistent isold offset val b w c)
    | inl high ↦ elim (Bool-cases isold) [
      | inl old ↦ rw (high, old) tt
      | inr new ↦ rw (high, new) (controller_store_cpu-IsConsistent (offset - 32768) val b w c)
    ]
  ]
