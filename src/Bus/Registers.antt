-- ===== src/Bus/Registers.antt =====
-- The registers of the bus controller: `lamebus_controller_fetch`, `lamebus_controller_store` and
-- what they call. A `none` is the -1 that reports a bus error.
pub mod Cram
pub mod Frame
pub mod Invariant
pub mod Total
use sys.Base.{
  ℕ, ◌+◌, ◌-◌, ◌*◌, ◌/◌, ◌%◌, ◌^◌, Bool, true, false, not, ◌&&◌, List, [], ◌∷◌, Option, none, some,
  bit_and, get_elem?, set, ltb, leb, ◌==◌, if◌then◌else◌, Option-cases, Outcome, ok, smoke,
  undefined, ◌>>=◌, u32,
}
use sys.Base.Bits.{nonzero}
use sys.Bus.State.{LamebusCpu, Bus, ncpus, Port, nslots, controller_slot, config_size, cram_words}
use sys.Bus.Irq.{irqupdate}
use sys.Bus.Cpue.{get_cpue, set_cpue}

-- `lamebus_controller_region`: region and offset; the assertion is `smoke`.
unfoldable pub controller_region : ℕ → Outcome (ℕ × ℕ)
controller_region offset =
    if ltb (offset / config_size) nslots
    then ok (offset / config_size, offset % config_size)
    else smoke

abbrev pub cirqe : ℕ
cirqe = 0x0

abbrev pub cipi : ℕ
cipi = 0x4

abbrev pub cram_start : ℕ
cram_start = 0x300

abbrev pub cram_end : ℕ
cram_end = 0x400

-- `offset >= LBC_CRAM_START && offset < LBC_CRAM_END`.
abbrev pub in_cram : ℕ → Bool
in_cram offset = leb cram_start offset && ltb offset cram_end

-- The word of the scratch memory at a byte offset. Offsets come aligned from `bus_io_fetch`;
-- an access outside the allocation is undefined.
unfoldable pub cram_word : LamebusCpu → ℕ → Outcome ℕ
cram_word cpu offset = elim (get_elem? cpu.cram (offset / 4)) [ some v ↦ ok v | none ↦ undefined ]

unfoldable pub set_cram_word : LamebusCpu → ℕ → ℕ → Outcome LamebusCpu
set_cram_word cpu offset val = elim (get_elem? cpu.cram (offset / 4)) [
  | some v ↦ ok (record cpu { cram = set cpu.cram (offset / 4) val })
  | none ↦ undefined
]

-- The part of `lamebus_controller_fetch_cpu` behind the lookup of the cpu.
unfoldable pub fetch_cpu_register : LamebusCpu → ℕ → Outcome (Option ℕ)
unfolding cram_word
fetch_cpu_register cpu offset =
    if in_cram offset
    then (cram_word cpu (offset - cram_start) >>= λ v. ok (some v))
    else if offset == cirqe
    then ok (some cpu.enabled_interrupts)
    else if offset == cipi
    then ok (some (if cpu.ipi then 0xffff_ffff else 0))
    else ok none

unfoldable pub controller_fetch_cpu : ℕ → Bus → Outcome (Option ℕ)
unfolding controller_region fetch_cpu_register
controller_fetch_cpu offset b = controller_region offset >>= λ (region, off).
    elim (get_elem? b.cpus region) [ none ↦ ok none | some cpu ↦ fetch_cpu_register cpu off ]

module _ {W : Type 0} (port : Port W) where
  -- The part of `lamebus_controller_store_cpu` behind the lookup of the cpu.
  unfoldable pub store_cpu_register : ℕ → LamebusCpu → ℕ → ℕ → Bus × W → Outcome (Option (Bus × W))
  unfolding set_cram_word irqupdate
  store_cpu_register region cpu offset val (b, w) =
      if in_cram offset
      then (set_cram_word cpu (offset - cram_start) val >>= λ cpu'.
          ok (some (record b { cpus = set b.cpus region cpu' }, w)))
      else if offset == cirqe
      then ok (
          some (
            irqupdate port
              (record b { cpus = set b.cpus region (record cpu { enabled_interrupts = val }) }, w)))
      else if offset == cipi
      then ok (
          some (
            record b { cpus = set b.cpus region (record cpu { ipi = nonzero val }) },
            port.cpu_set_irqs region cpu.interrupting (nonzero val) w,
          ))
      else ok none

  unfoldable pub controller_store_cpu : ℕ → ℕ → Bus × W → Outcome (Option (Bus × W))
  unfolding controller_region store_cpu_register
  controller_store_cpu offset val (b, w) = controller_region offset >>= λ (region, off).
      elim (get_elem? b.cpus region) [
        | none ↦ ok none
        | some cpu ↦ store_cpu_register region cpu off val (b, w)
      ]

-- The identification of a device: vendor, device and revision.
pub record DeviceId : Type 0 where
  pub vendor : ℕ
  pub device : ℕ
  pub revision : ℕ

abbrev pub id_field : (DeviceId → ℕ) → Option DeviceId → ℕ
id_field f none = 0
id_field f (some inf) = f inf

module _ {W : Type 0} (port : Port W) where
  -- The second `switch` of `lamebus_controller_fetch_config`, in the controller's own region.
  unfoldable pub fetch_control : ℕ → Bool → ℕ → Bus × W → Option ℕ × W
  unfolding get_cpue
  fetch_control cpunum isold offset (b, w) =
      if offset == 0x200
      then (some b.ramsize, w)
      else if offset == 0x204
      then (some b.raised, w)
      else if offset == 0x208
      then if isold then (some 0, port.hang w) else (some 0xffff_ffff, w)
      else if offset == 0x20c
      then (some b.enabled_irqs, w)
      else if isold
      then (none, w)
      else if offset == 0x210
      then (some (if ncpus b == 32 then 0xffff_ffff else u32 (2 ^ ncpus b + 2 ^ 32 - 1)), w)
      else if offset == 0x214
      then (some (get_cpue b), w)
      else if offset == 0x218
      then (some (2 ^ cpunum), w)
      else (none, w)

  unfoldable pub controller_fetch_config :
      (ℕ → Option DeviceId) → ℕ → Bool → ℕ → Bus × W → Outcome (Option ℕ × W)
  unfolding controller_region fetch_control
  controller_fetch_config devices cpunum isold offset (b, w) =
      controller_region offset >>= λ (region, off). ok (
        if off == 0x0
        then (some (id_field (λ d. d.vendor) (devices region)), w)
        else if off == 0x4
        then (some (id_field (λ d. d.device) (devices region)), w)
        else if off == 0x8
        then (some (id_field (λ d. d.revision) (devices region)), w)
        else if region == controller_slot
        then fetch_control cpunum isold off (b, w)
        else (none, w))

  -- The power register: 0 schedules the poweroff, a value with the top bit clear hangs a
  -- multiprocessor controller.
  unfoldable pub store_power : Bool → ℕ → Bus × W → Outcome (Bus × W)
  store_power isold val (b, w) =
      if val == 0
      then (port.schedule_poweroff w >>= λ w'. ok (b, w'))
      else if isold
      then ok (b, w)
      else if bit_and val 0x8000_0000 == 0
      then ok (b, port.hang w)
      else ok (b, w)

  unfoldable pub controller_store_config : Bool → ℕ → ℕ → Bus × W → Outcome (Option (Bus × W))
  unfolding controller_region store_power irqupdate set_cpue
  controller_store_config isold offset val (b, w) = controller_region offset >>= λ (region, off).
      if region == controller_slot
      then if off == 0x208
        then (store_power isold val (b, w) >>= λ s. ok (some s))
        else if off == 0x20c
        then ok (some (irqupdate port (record b { enabled_irqs = val }, w)))
        else if off == 0x214
        then if isold then ok none else ok (some (set_cpue port val (b, w)))
        else ok none
      else ok none

  unfoldable pub controller_fetch :
      (ℕ → Option DeviceId) → ℕ → Bool → ℕ → Bus × W → Outcome (Option ℕ × W)
  unfolding controller_fetch_cpu controller_fetch_config
  controller_fetch devices cpunum isold offset (b, w) =
      if leb 32768 offset
      then if isold
        then ok (none, w)
        else (controller_fetch_cpu (offset - 32768) b >>= λ r. ok (r, w))
      else controller_fetch_config devices cpunum isold offset (b, w)

  unfoldable pub controller_store : Bool → ℕ → ℕ → Bus × W → Outcome (Option (Bus × W))
  unfolding controller_store_cpu controller_store_config
  controller_store isold offset val s =
      if leb 32768 offset
      then if isold then ok none else controller_store_cpu port (offset - 32768) val s
      else controller_store_config isold offset val s
