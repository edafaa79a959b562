-- ===== src/Tests/Machine.antt =====
-- A small machine for the tests: two cpus, an empty event queue with room for two events.
use sys.Base.{ℕ, refl, Bool, true, false, [], ◌∷◌, ◌==◌, if◌then◌else◌, replicate}
use sys.Clock.State.{Clock}
use sys.Bus.State.{LamebusCpu, Bus, Port, PortLaws}
use sys.Devices.Port.{Event, DevicePort, DeviceLaws}
use sys.Machine.{Cpus, bus_port, device_port}
use sys.Machine.Laws.{CpuLaws, PortLaws-machine, DeviceLaws-machine}

-- Cpus of which only the interrupt lines are kept.
abbrev pub Lines : Type 0
Lines = ℕ → Bool × Bool

abbrev pub cpus : Cpus Lines
cpus = record {
  cpu_set_irqs = λ i lb ipi x j. if i == j then (lb, ipi) else x j;
  cpu_enable = λ i x. x;
  cpu_disable = λ i x. x;
  cpu_set_entrypoint = λ i a x. x;
  cpu_set_stack = λ i a arg x. x;
  start_stack = λ a. a;
  lines = λ x. x;
  console_beep = λ x. x;
  console_putc = λ ch x. x;
  count_rchar = λ x. x;
  count_wchar = λ x. x;
}

cpus-CpuLaws : CpuLaws cpus
cpus-CpuLaws = record {
  lines-set = λ i j lb ipi x. refl;
  lines-enable = λ i j x. refl;
  lines-disable = λ i j x. refl;
  lines-entrypoint = λ i j a x. refl;
  lines-stack = λ i j a arg x. refl;
}

abbrev pub jitter : ℕ → ℕ → ℕ
jitter draw nsecs = 0

abbrev pub port : Port (Clock Event × Lines)
port = bus_port jitter cpus

pub port-PortLaws : PortLaws port
port-PortLaws = PortLaws-machine jitter cpus cpus-CpuLaws

abbrev pub devices : DevicePort (Bus × (Clock Event × Lines))
devices = device_port jitter cpus

pub devices-DeviceLaws : DeviceLaws devices
devices-DeviceLaws = DeviceLaws-machine jitter cpus

abbrev pub clock : Clock Event
clock = record {
  virtual_now = 1000;
  start_secs = 5;
  start_nsecs = 0;
  progress = false;
  check_progress = false;
  progress_warned = false;
  progress_timeout = 0;
  progress_deadline = 0;
  freelist = 0 ∷ 1 ∷ [];
  queue = [];
  idleslop = 0;
  draws = 0;
  host = record {
    cpu_cycling = true;
    stopped_in_debugger = false;
    stop_is_lethal = false;
    shutoff_flag = false;
    cpu_cycles_count = 0;
    extra_selecttime = 0;
    tot_rcycles = 0;
    tot_icycles = 0;
  };
}

abbrev pub cpu : Bool → ℕ → LamebusCpu
cpu on irqs = record {
  enabled = on;
  enabled_interrupts = irqs;
  interrupting = false;
  ipi = false;
  cram = replicate 32 0;
}

-- Cpu 0 is on and takes every interrupt; cpu 1 is off.
abbrev pub bus : Bus
bus = record {
  ramsize = 0x100000;
  raised = 0;
  enabled_irqs = 0xffff_ffff;
  cpus = cpu true 0xffff_ffff ∷ cpu false 0 ∷ [];
}

abbrev pub quiet_lines : Lines
quiet_lines i = (false, false)

abbrev pub world : Clock Event × Lines
world = (clock, quiet_lines)
