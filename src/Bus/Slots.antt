-- ===== src/Bus/Slots.antt =====
-- The bus dispatcher: `bus_io_fetch`, `bus_io_store`.
use sys.Base.{ℕ, ◌/◌, ◌%◌, Option, none, some, leb, ◌==◌, if◌then◌else◌, Outcome, ok, smoke}
use sys.Bus.State.{nslots, slot_mem}

-- The part of `struct lamebus_device_info` that the dispatcher calls, with the device's data.
pub record Handlers (W : Type 0) : Type 0 where
  pub ldi_fetch : ℕ → ℕ → W → Outcome (Option ℕ × W)
  pub ldi_store : ℕ → ℕ → ℕ → W → Outcome (Option W)

module _ {W : Type 0} (devices : ℕ → Option (Handlers W)) where
  unfoldable pub bus_io_fetch : ℕ → ℕ → W → Outcome (Option ℕ × W)
  bus_io_fetch cpunum offset w =
      if leb nslots (offset / slot_mem)
      then ok (none, w)
      else if offset % 4 == 0
      then elim (devices (offset / slot_mem)) [
        | none ↦ ok (none, w)
        | some d ↦ d.ldi_fetch cpunum (offset % slot_mem) w
      ]
      else smoke

  unfoldable pub bus_io_store : ℕ → ℕ → ℕ → W → Outcome (Option W)
  bus_io_store cpunum offset val w =
      if leb nslots (offset / slot_mem)
      then ok none
      else if offset % 4 == 0
      then elim (devices (offset / slot_mem)) [
        | none ↦ ok none
        | some d ↦ d.ldi_store cpunum (offset % slot_mem) val w
      ]
      else smoke
