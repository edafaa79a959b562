-- ===== src/Machine.antt =====
-- The machine: the clock, the bus and the cpus' side in one state, and the interfaces of
-- Bus/State.antt and Devices/Port.antt filled by the code of sys161/main/clock.c and
-- sys161/bus/lamebus.c.
pub mod Laws
pub mod Disks
use sys.Base.{ℕ, ◌+◌, ◌*◌, ◌^◌, Bool, true, false, Outcome, ok, ◌>>=◌, ◌≡◌, ◌==◌, if◌then◌else◌}
use sys.Clock.State.{Clock, hang, main_poweroff}
use sys.Clock.Schedule.{schedule_event}
use sys.Clock.Time.{clock_time, clock_setsecs, clock_setnsecs}
use sys.Bus.State.{Bus, Port, controller_slot}
use sys.Bus.Irq.{raise_irq, lower_irq, check_irq}
use sys.Devices.Port.{Event, DevicePort}

-- The cpus and the console, of which no source stands in the model: the cpu's entry points of
-- sys161/include/cpu.h, the output of the console, and the statistics.
pub record Cpus (C : Type 0) : Type 0 where
  pub cpu_set_irqs : ℕ → Bool → Bool → C → C
  pub cpu_enable : ℕ → C → C
  pub cpu_disable : ℕ → C → C
  pub cpu_set_entrypoint : ℕ → ℕ → C → C
  pub cpu_set_stack : ℕ → ℕ → ℕ → C → C
  pub start_stack : ℕ → ℕ
  pub lines : C → ℕ → Bool × Bool
  pub console_beep : C → C
  pub console_putc : ℕ → C → C
  pub count_rchar : C → C
  pub count_wchar : C → C

-- `POWEROFF_NSECS`.
abbrev pub poweroff_nsecs : ℕ
poweroff_nsecs = 5_000_000

module _ {C : Type 0} (jitter : ℕ → ℕ → ℕ) (cpus : Cpus C) where
  -- What the bus controller calls.
  unfoldable pub bus_port : Port (Clock Event × C)
  bus_port = record {
    cpu_set_irqs = λ i lb ipi (c, x). (c, cpus.cpu_set_irqs i lb ipi x);
    cpu_enable = λ i (c, x). (c, cpus.cpu_enable i x);
    cpu_disable = λ i (c, x). (c, cpus.cpu_disable i x);
    cpu_set_entrypoint = λ i a (c, x). (c, cpus.cpu_set_entrypoint i a x);
    cpu_set_stack = λ i a arg (c, x). (c, cpus.cpu_set_stack i a arg x);
    start_stack = cpus.start_stack;
    hang = λ (c, x). (hang c, x);
    schedule_poweroff =
        λ (c, x). schedule_event jitter poweroff_nsecs 0 Event.dopoweroff c >>= λ c'. ok (c', x);
    lines = λ (c, x). cpus.lines x;
  }

  -- What the devices call.
  unfoldable pub device_port : DevicePort (Bus × (Clock Event × C))
  unfolding bus_port
  device_port = record {
    raise_irq = λ slot w. raise_irq bus_port slot w;
    lower_irq = λ slot w. lower_irq bus_port slot w;
    check_irq = λ slot w. check_irq slot w.0;
    schedule_event = λ nsecs code func (b, (c, x)).
        schedule_event jitter nsecs code func c >>= λ c'. ok (b, (c', x));
    clock_time = λ (b, (c, x)). clock_time c;
    clock_setsecs = λ secs (b, (c, x)). (b, (clock_setsecs secs c, x));
    clock_setnsecs = λ nsecs (b, (c, x)). (b, (clock_setnsecs nsecs c, x));
    hang = λ (b, (c, x)). (b, (hang c, x));
    console_beep = λ (b, (c, x)). (b, (c, cpus.console_beep x));
    console_putc = λ ch (b, (c, x)). (b, (c, cpus.console_putc ch x));
    count_rchar = λ (b, (c, x)). (b, (c, cpus.count_rchar x));
    count_wchar = λ (b, (c, x)). (b, (c, cpus.count_wchar x));
  }

  -- The handler of the poweroff event.
  unfoldable pub dopoweroff : Bus × (Clock Event × C) → Bus × (Clock Event × C)
  unfolding bus_port
  dopoweroff w = let (b, (c, x)) = raise_irq bus_port controller_slot w in (b, (main_poweroff c, x))
