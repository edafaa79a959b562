-- ===== src/Devices/Port.antt =====
-- What a device calls: the interrupt lines of sys161/bus/lamebus.c, the event queue and the time of
-- sys161/main/clock.c, and the console.
use sys.Base.{ℕ, ◌<◌, ◌≡◌, Bool, true, false, ◌==◌, if◌then◌else◌, Outcome, ok}

-- The handlers that events name, each with the slot of the device that it is called for.
pub data Event : Type 0 where
  timer_interrupt serial_writedone serial_pushinput disk_seekdone disk_waitdone : ℕ → Event
  dopoweroff : Event

-- `W` is the state of the rest. `count_rchar` and `count_wchar` are the statistics
-- `g_stats.s_rchars++` and `g_stats.s_wchars++`; a character is output by `console_putc`.
pub record DevicePort (W : Type 0) : Type 0 where
  pub raise_irq : ℕ → W → W
  pub lower_irq : ℕ → W → W
  pub check_irq : ℕ → W → Bool
  pub schedule_event : ℕ → ℕ → Event → W → Outcome W
  pub clock_time : W → ℕ × ℕ
  pub clock_setsecs : ℕ → W → W
  pub clock_setnsecs : ℕ → W → W
  pub hang : W → W
  pub console_beep : W → W
  pub console_putc : ℕ → W → W
  pub count_rchar : W → W
  pub count_wchar : W → W

-- What the devices' theorems rely on: the interrupt line of a slot is what it was last set to, and
-- an event that is scheduled moves no line.
pub record DeviceLaws {W : Type 0} (port : DevicePort W) : Type 0 where
  pub check-raise :
      (i j : ℕ) (w : W)
      → i < 32
      → j < 32
      → port.check_irq j (port.raise_irq i w) ≡ (if i == j then true else port.check_irq j w)
  pub check-lower :
      (i j : ℕ) (w : W)
      → i < 32
      → j < 32
      → port.check_irq j (port.lower_irq i w) ≡ (if i == j then false else port.check_irq j w)
  pub check-schedule :
      (nsecs code j : ℕ) (e : Event) (w w' : W)
      → port.schedule_event nsecs code e w ≡ ok w'
      → port.check_irq j w' ≡ port.check_irq j w
