-- ===== src/Machine/Laws.antt =====
-- The machine keeps the laws of the interfaces.
use sys.Base.{
  ℕ, ◌+◌, ◌^◌, ◌≡◌, refl, ap, ◌∙◌, Bool, true, false, ◌&&◌, ◌==◌, List, [], ◌∷◌, if◌then◌else◌,
  bit_and, bit_or, Returns->>=, ok_frame, arith,
}
use sys.Base.Bits.{bit_not}
use sys.Clock.State.{Clock, main_poweroff}
use sys.Clock.Schedule.{schedule_event}
use sys.Clock.Schedule.Count.{count, has_room, count-schedule_event}
use sys.Bus.State.{LamebusCpu, Bus, PortLaws, controller_slot}
use sys.Bus.Irq.{irqupdate_cpu, irqupdate_from, irqupdate, raise_irq, lower_irq, check_irq}
use sys.Bus.Irq.Lines.{
  IsConsistent, Agree-frame, raise_irq-IsConsistent, check_irq-raise_irq, check_irq-lower_irq,
}
use sys.Devices.Port.{Event, DeviceLaws}
use sys.Devices.Timer.Laws.{Pending}
use sys.Devices.Serial.Input.{InputEvents}
use sys.Machine.{Cpus, bus_port, device_port, poweroff_nsecs, dopoweroff}

-- What the machine relies on: `cpu_set_irqs` drives the two lines of its cpu and of no other, and
-- the other entry points move none.
pub record CpuLaws {C : Type 0} (cpus : Cpus C) : Type 0 where
  pub lines-set :
      (i j : ℕ) (lb ipi : Bool) (x : C)
      → cpus.lines (cpus.cpu_set_irqs i lb ipi x) j ≡ (if i == j then (lb, ipi) else cpus.lines x j)
  pub lines-enable : (i j : ℕ) (x : C) → cpus.lines (cpus.cpu_enable i x) j ≡ cpus.lines x j
  pub lines-disable : (i j : ℕ) (x : C) → cpus.lines (cpus.cpu_disable i x) j ≡ cpus.lines x j
  pub lines-entrypoint :
      (i j a : ℕ) (x : C) → cpus.lines (cpus.cpu_set_entrypoint i a x) j ≡ cpus.lines x j
  pub lines-stack :
      (i j a arg : ℕ) (x : C) → cpus.lines (cpus.cpu_set_stack i a arg x) j ≡ cpus.lines x j

-- The test for an event of the timer in a slot with a code; for a look at the buffer of the serial
-- port in a slot.
abbrev pub is_timer : ℕ → ℕ → Event → ℕ → Bool
is_timer slot g (Event.timer_interrupt s) code = (slot == s) && (code == g)
is_timer slot g _ code = false

abbrev pub is_input : ℕ → Event → ℕ → Bool
is_input slot (Event.serial_pushinput s) code = slot == s
is_input slot _ code = false

pub self_test : (n : ℕ) → (n == n) ≡ true
self_test n = ground arith

module _ {C : Type 0} (jitter : ℕ → ℕ → ℕ) (cpus : Cpus C) where
  -- Moving a line leaves the clock alone.
  irqupdate_from-clock :
      (mask i : ℕ) (l : List LamebusCpu) (w : Clock Event × C)
      → (irqupdate_from (bus_port jitter cpus) mask i l w).1.0 ≡ w.0
  unfolding irqupdate_from irqupdate_cpu bus_port
  irqupdate_from-clock mask i [] w = refl
  irqupdate_from-clock mask i (cpu ∷ rest) w =
      irqupdate_from-clock mask (i + 1) rest (irqupdate_cpu (bus_port jitter cpus) mask i cpu w).1
      ∙ ground arith

  pub raise_irq-clock :
      (slot : ℕ) (w : Bus × (Clock Event × C))
      → ((device_port jitter cpus).raise_irq slot w).1.0 ≡ w.1.0
  unfolding device_port raise_irq irqupdate
  raise_irq-clock slot (b, w) =
      irqupdate_from-clock (bit_and (bit_or b.raised (2 ^ slot)) b.enabled_irqs) 0 b.cpus w

  pub lower_irq-clock :
      (slot : ℕ) (w : Bus × (Clock Event × C))
      → ((device_port jitter cpus).lower_irq slot w).1.0 ≡ w.1.0
  unfolding device_port lower_irq irqupdate
  lower_irq-clock slot (b, w) =
      irqupdate_from-clock (bit_and (bit_and b.raised (bit_not (2 ^ slot))) b.enabled_irqs) 0 b.cpus
        w

  -- The interrupt lines and the events of the machine keep the laws that the devices rely on.
  pub DeviceLaws-machine : DeviceLaws (device_port jitter cpus)
  unfolding device_port
  DeviceLaws-machine = record {
    check-raise = λ i j w hi hj. check_irq-raise_irq (bus_port jitter cpus) i j w.0 w.1;
    check-lower = λ i j w hi hj. check_irq-lower_irq (bus_port jitter cpus) i j w.0 w.1 hi hj;
    check-schedule = λ nsecs code j e (b, (c, x)) w' h.
        ok_frame (schedule_event jitter nsecs code e c) (λ c'. (b, (c', x))) (λ s. check_irq j s.0)
          w' (check_irq j b) (λ c'. refl) h;
  }

  -- With cpus that keep their laws, what the bus controller calls keeps the laws that the
  -- controller's invariant relies on.
  pub PortLaws-machine : CpuLaws cpus → PortLaws (bus_port jitter cpus)
  unfolding bus_port
  PortLaws-machine laws = record {
    lines-set = λ i j lb ipi w. laws.lines-set i j lb ipi w.1;
    lines-enable = λ i j w. laws.lines-enable i j w.1;
    lines-disable = λ i j w. laws.lines-disable i j w.1;
    lines-entrypoint = λ i j a w. laws.lines-entrypoint i j a w.1;
    lines-stack = λ i j a arg w. laws.lines-stack i j a arg w.1;
    lines-hang = λ j w. refl;
    lines-poweroff = λ j (c, x) w' h.
        ok_frame (schedule_event jitter poweroff_nsecs 0 Event.dopoweroff c) (λ c'. (c', x))
          (λ s. cpus.lines s.1 j) w' (cpus.lines x j) (λ c'. refl) h;
  }

  -- The machine counts its pending events as the devices expect of the event queue.
  unfoldable pub timer_queue : (slot : ℕ) → Pending (device_port jitter cpus) slot
  unfolding device_port
  timer_queue slot = record {
    pending = λ g w. count (is_timer slot g) w.1.0.queue;
    room = λ w. has_room w.1.0;
    schedules = λ nsecs code (b, (c, x)) room.
        Returns->>= (schedule_event jitter nsecs code (Event.timer_interrupt slot) c) _ _ _
          (count-schedule_event jitter nsecs code (Event.timer_interrupt slot) c room)
          (λ c' e g. e (is_timer slot g) ∙ rw (self_test slot) refl);
    raising = λ w. (
      λ g. ap (λ c. count (is_timer slot g) c.queue) (raise_irq-clock slot w),
      ap has_room (raise_irq-clock slot w),
    );
  }

  unfoldable pub input_events : (slot : ℕ) → InputEvents (device_port jitter cpus) slot
  unfolding device_port
  input_events slot = record {
    pending = λ w. count (is_input slot) w.1.0.queue;
    room = λ w. has_room w.1.0;
    schedules = λ nsecs code (b, (c, x)) room.
        Returns->>= (schedule_event jitter nsecs code (Event.serial_pushinput slot) c) _ _ _
          (count-schedule_event jitter nsecs code (Event.serial_pushinput slot) c room)
          (λ c' e. e (is_input slot) ∙ rw (self_test slot) refl);
    raising = λ w. (
      ap (λ c. count (is_input slot) c.queue) (raise_irq-clock slot w),
      ap has_room (raise_irq-clock slot w),
    );
    lowering = λ w. (
      ap (λ c. count (is_input slot) c.queue) (lower_irq-clock slot w),
      ap has_room (lower_irq-clock slot w),
    );
  }

module _ {C : Type 0} (jitter : ℕ → ℕ → ℕ) (cpus : Cpus C) (laws : CpuLaws cpus) where
  -- From a state that satisfies the invariant of the interrupt lines, the poweroff event leaves one
  -- that does; the interrupt of the controller's slot is raised, the main loop is told to stop,
  -- and the event queue is as it was.
  pub dopoweroff_lem :
      (b : Bus) (c : Clock Event) (x : C)
      → IsConsistent (bus_port jitter cpus) (b, (c, x))
      → let (b', (c', x')) = dopoweroff jitter cpus (b, (c, x)) in
        IsConsistent (bus_port jitter cpus) (b', (c', x'))
        × (check_irq controller_slot b' ≡ true)
        × (c'.host.shutoff_flag ≡ true)
        × (c'.queue ≡ c.queue)
  unfolding dopoweroff main_poweroff bus_port raise_irq device_port
  dopoweroff_lem b c x h =
      let port = bus_port jitter cpus in
      let (b', (c', x')) = raise_irq port controller_slot (b, (c, x)) in
      let raised =
        raise_irq-IsConsistent port (PortLaws-machine jitter cpus laws) controller_slot
          controller_slot b (c, x) h in
      (
        (
          raised.0.0,
          Agree-frame port 0 b'.cpus (c', x') (main_poweroff c', x') (λ j le. refl) raised.0.1,
        ),
        raised.1,
        refl,
        ap (λ c''. c''.queue) (raise_irq-clock jitter cpus controller_slot (b, (c, x))),
      )
