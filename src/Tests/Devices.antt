-- ===== src/Tests/Devices.antt =====
-- The theorems on the devices, on the small machine.
use sys.Base.{
  ◌↔◌, ◌⊎◌, suc, ◌≡◌, ◌≢◌, ◌%◌, ◌⊎◌, ◌++◌, refl, true, false, [], ◌∷◌, some, replicate, ok, Returns,
  arith,
}
use sys.Clock.State.{Clock}
use sys.Bus.State.{Bus}
use sys.Devices.Port.{Event}
use sys.Devices.Timer.{Timer, timer_interrupt}
use sys.Devices.Timer.Laws.{Pending, timer_interrupt_lem}
use sys.Devices.Serial.{
  Serial, no_irq, serial_writedone, serial_input, serial_fetch, store_rirq, store_wirq,
}
use sys.Devices.Serial.Buffer.{waiting, contents, IsValid}
use sys.Devices.Serial.Input.{InputEvents, NoStall, serial_input_lem, serial_input_piles_up}
use sys.Devices.Serial.Interrupts.{Asks, serial_line}
use sys.Machine.Laws.{timer_queue, input_events}
use sys.Tests.Machine.{jitter, cpus, devices, devices-DeviceLaws, bus, world, Lines}

abbrev machine : Bus × (Clock Event × Lines)
machine = (bus, world)

-- A timer of slot 4 that restarts every 10 microseconds.
abbrev timer : Timer
timer = record { slot = 4; restartflag = 1; count_usecs = 10; generation = 6 }

abbrev timer_events : Pending devices 4
timer_events = timer_queue jitter cpus 4

timer_interrupt_lem_example :
    (timer.generation ≢ timer.generation
      → timer_interrupt devices 6 (timer, machine) ≡ ok (timer, machine))
    × (timer.generation ≡ timer.generation
        → timer.restartflag ≡ 0
        → timer_interrupt devices 6 (timer, machine) ≡ ok (timer, devices.raise_irq 4 machine))
    × (timer.generation ≡ timer.generation
        → timer.restartflag ≢ 0
        → Returns (timer_interrupt devices 6 (timer, machine)) (λ (td', w').
          (timer_events.pending td'.generation w' ≡ 1) × (devices.check_irq 4 w' ≡ true)))
unfolding timer_queue
timer_interrupt_lem_example =
    timer_interrupt_lem devices timer timer_events devices-DeviceLaws 6 machine (omega arith)
      (omega arith) (λ g later. refl) refl

-- A serial port of slot 5 in which two characters wait at the end of the buffer.
abbrev serial : Serial
serial = record {
  slot = 5;
  wbusy = false;
  rbusy = false;
  rirq = no_irq;
  wirq = no_irq;
  readch = 0;
  didread = true;
  droppedreads = 0;
  inbuf = replicate 512 65;
  inbufhead = 511;
  inbuftail = 1;
}

serial-IsValid : IsValid serial
serial-IsValid = record { size = refl; head_in = omega arith; tail_in = omega arith }

-- The same with an empty buffer.
abbrev idle_serial : Serial
idle_serial = record serial { inbufhead = 511; inbuftail = 511 }

idle_serial-IsValid : IsValid idle_serial
idle_serial-IsValid = record { size = refl; head_in = omega arith; tail_in = omega arith }

abbrev input : InputEvents devices 5
input = input_events jitter cpus 5

serial_input_lem_example : Returns (serial_input devices 66 (idle_serial, machine)) (λ s.
    IsValid s.0
    × (s.0.slot ≡ 5)
    × NoStall devices 5 input s
    × (((waiting idle_serial ≡ 511) × (s.0 ≡ idle_serial))
        ⊎ ((contents s.0 ≡ contents idle_serial ++ (66 % 256 ∷ [])) × (s.0.readch ≡ 0))
        ⊎ (s.0.readch ∷ contents s.0 ≡ contents idle_serial ++ (66 % 256 ∷ []))))
unfolding input_events
serial_input_lem_example =
    serial_input_lem devices 5 input 66 idle_serial machine refl idle_serial-IsValid
      (λ busy. cc, λ ne. absurd (ne refl)) refl

-- A character has been delivered and is not read yet.
abbrev unread : Serial
unread = record idle_serial {
  didread = false;
  rirq = record { is_on = true; is_ready = true; is_forced = false };
}

unread-IsValid : IsValid unread
unread-IsValid = record { size = refl; head_in = omega arith; tail_in = omega arith }

serial_input_piles_up_example : Returns (serial_input devices 66 (unread, machine)) (λ (sd', w').
    (input.pending w' ≡ suc (input.pending machine))
    × (sd'.rbusy ≡ false)
    × (sd'.didread ≡ false)
    × (sd'.rirq.is_ready ≡ true)
    × (waiting sd' ≡ suc (waiting unread)))
unfolding input_events
serial_input_piles_up_example =
    serial_input_piles_up devices 5 input 66 unread machine refl unread-IsValid refl refl refl
      (omega arith) refl

serial_line_example :
    let (done, w1) = serial_writedone devices (unread, machine) in
    let (read, w2) = store_rirq devices 5 (unread, machine) in
    let (write, w3) = store_wirq devices 5 (unread, machine) in
    ((((devices.check_irq 5 w1 ≡ true) ↔ (Asks unread.rirq ⊎ Asks done.wirq))
        × (done.wirq ≡ record unread.wirq { is_ready = true }))
      × (((devices.check_irq 5 w2 ≡ true) ↔ (Asks read.rirq ⊎ Asks unread.wirq))
          × ((serial_fetch devices 0x8 (read, w2)).0 ≡ some (5 % 8)))
      × (((devices.check_irq 5 w3 ≡ true) ↔ (Asks unread.rirq ⊎ Asks write.wirq))
          × ((serial_fetch devices 0x4 (write, w3)).0 ≡ some (5 % 8))))
serial_line_example = serial_line devices devices-DeviceLaws unread machine 5 (omega arith)
