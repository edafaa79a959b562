-- ===== src/Tests/Bus.antt =====
-- The theorems on the bus controller, on the small machine.
use sys.Base.{
  ℕ, zero, suc, ap, get_elem?, ◌+◌, ◌*◌, ◌≡◌, refl, true, false, none, some, length, min, undefined,
  Returns, arith, ok, smoke, List, replicate, ◌⊎◌, ◌<◌, ◌≤◌, ◌≢◌,
}
use sys.Base.Bits.{bit}
use sys.Clock.Schedule.{schedule_event}
use sys.Bus.State.{LamebusCpu, Bus}
use sys.Bus.Init.{commonmainboard_init}
use sys.Bus.Init.Start.{commonmainboard_init_lem}
use sys.Bus.Irq.{raise_irq, check_irq}
use sys.Bus.Irq.Lines.{IsConsistent, raise_irq-IsConsistent}
use sys.Bus.Cpue.{get_cpue, set_cpue}
use sys.Bus.Cpue.RoundTrip.{get_cpue-set_cpue}
use sys.Bus.Registers.{controller_fetch, controller_store}
use sys.Bus.Registers.Cram.{cram_overflow}
use sys.Bus.Registers.Total.{controller_store-Returns}
use sys.Bus.Registers.Invariant.{Accepted, controller_store-IsConsistent}
use sys.Machine.{bus_port}
use sys.Tests.Machine.{port, port-PortLaws, cpu, bus, world}

bus-IsConsistent : IsConsistent port (bus, world)
unfolding bus_port
bus-IsConsistent = ((refl, (refl, tt)), (refl, (refl, tt)))

-- A store of 0 to the register that enables interrupts.
controller_store-IsConsistent_example :
    Accepted (IsConsistent port) (controller_store port false 0x7e0c 0 (bus, world))
controller_store-IsConsistent_example =
    controller_store-IsConsistent port port-PortLaws false 0x7e0c 0 bus world bus-IsConsistent

raise_irq-IsConsistent_example :
    IsConsistent port (raise_irq port 4 (bus, world))
    × (check_irq 4 (raise_irq port 4 (bus, world)).0 ≡ true)
raise_irq-IsConsistent_example =
    raise_irq-IsConsistent port port-PortLaws 4 4 bus world bus-IsConsistent

-- Turning on cpu 1: its bit is set in the value, and reads as 0.
get_cpue-set_cpue_example :
    bit (get_cpue (set_cpue port 3 (bus, world)).0) 1 ≡ min (bit (get_cpue bus) 1) (bit 3 1)
get_cpue-set_cpue_example = get_cpue-set_cpue port 3 1 bus world

cram_overflow_example :
    (controller_fetch port (λ slot. none) 0 false (32768 + 1 * 1024 + 0x380) (bus, world)
      ≡ undefined)
    × (controller_store port false (32768 + 1 * 1024 + 0x380) 99 (bus, world) ≡ undefined)
cram_overflow_example =
    cram_overflow port (λ slot. none) 0 1 0x380 99 bus world (cpu false 0) (omega arith) refl refl
      (omega arith) (omega arith)

-- The scratch memory of each cpu.
abbrev scratch : ℕ → List ℕ
scratch i = replicate 32 0

cram_sizes : (i : ℕ) (c : LamebusCpu) → get_elem? bus.cpus i ≡ some c → length c.cram ≡ 32
cram_sizes zero c h = let e : c ≡ cpu true 0xffff_ffff = cc in ap (λ c'. length c'.cram) e
cram_sizes (suc zero) c h = let e : c ≡ cpu false 0 = cc in ap (λ c'. length c'.cram) e
cram_sizes (suc (suc i)) c h = cc

-- Switching the machine off.
controller_store-Returns_example :
    Returns (controller_store port false 0x7e08 0 (bus, world)) (λ r. Unit)
unfolding bus_port schedule_event
controller_store-Returns_example =
    controller_store-Returns port false 0x7e08 0 bus world (omega arith) (λ high. omega arith)
      cram_sizes tt

-- A board with four cpus of one core each.
abbrev ncpus : ℕ
ncpus = 4

abbrev ncores : ℕ
ncores = 1

commonmainboard_init_lem_example :
    (((ncpus ≡ 0) ⊎ (32 < ncpus) ⊎ (ncores ≢ 1))
      × (commonmainboard_init scratch 0x100000 ncpus ncores ≡ smoke))
    ⊎ ((ncores ≡ 1)
        × (0 < ncpus)
        × (ncpus ≤ 32)
        × (b : Bus) × (commonmainboard_init scratch 0x100000 ncpus ncores ≡ ok b)
        × (length b.cpus ≡ ncpus)
        × (get_cpue b ≡ 1)
        × IsConsistent port (b, world))
unfolding bus_port
commonmainboard_init_lem_example =
    commonmainboard_init_lem port world scratch 0x100000 ncpus ncores (λ j. refl)
