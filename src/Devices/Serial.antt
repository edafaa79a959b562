-- ===== src/Devices/Serial.antt =====
-- The serial port, sys161/bus/dev_serial.c. The messages to the console are left out, and with them
-- the flag `overrun_in_progress`, which only keeps one of them from being repeated.
pub mod Buffer
pub mod Input
pub mod Interrupts
use sys.Base.{
  ℕ, ◌+◌, ◌*◌, ◌/◌, ◌%◌, ◌^◌, Bool, true, false, not, ◌&&◌, ◌||◌, List, Option, none, some, u32,
  bit_and, get_or, set, ◌==◌, if◌then◌else◌, Outcome, ok, ◌>>=◌,
}
use sys.Base.Bits.{nonzero}
use sys.Devices.Port.{Event, DevicePort}

abbrev pub inbuf_size : ℕ
inbuf_size = 512

-- `SERIAL_NSECS`.
abbrev pub serial_nsecs : ℕ
serial_nsecs = 1_000_000_000 / (19200 * 25 / 10)

-- `struct serirq`.
pub record SerIrq : Type 0 where
  pub is_on : Bool
  pub is_ready : Bool
  pub is_forced : Bool

-- `struct ser_data`.
pub record Serial : Type 0 where
  pub slot : ℕ
  pub wbusy : Bool
  pub rbusy : Bool
  pub rirq : SerIrq
  pub wirq : SerIrq
  pub readch : ℕ
  pub didread : Bool
  pub droppedreads : ℕ
  pub inbuf : List ℕ
  pub inbufhead : ℕ
  pub inbuftail : ℕ

abbrev pub no_irq : SerIrq
no_irq = record { is_on = false; is_ready = false; is_forced = false }

-- `serial_init`; the buffer holds whatever was in the memory that it was given.
unfoldable pub serial_init : ℕ → List ℕ → Serial
serial_init slot inbuf = record {
  slot = slot;
  wbusy = false;
  rbusy = false;
  rirq = no_irq;
  wirq = no_irq;
  readch = 0;
  didread = true;
  droppedreads = 0;
  inbuf = inbuf;
  inbufhead = 0;
  inbuftail = 0;
}

-- `fetchirq`: IRQF_ON, IRQF_READY and IRQF_FORCE are the bits 1, 2 and 4.
unfoldable pub fetchirq : SerIrq → ℕ
fetchirq si =
    (if si.is_on then 1 else 0) + (if si.is_ready then 2 else 0) + (if si.is_forced then 4 else 0)

unfoldable pub storeirq : ℕ → SerIrq
storeirq val = record {
  is_on = nonzero (bit_and val 1);
  is_ready = nonzero (bit_and val 2);
  is_forced = nonzero (bit_and val 4);
}

abbrev pub wants : SerIrq → Bool
wants si = si.is_on && (si.is_ready || si.is_forced)

-- The last branch of `serial_pushinput`: the next character goes to the register.
unfoldable pub deliver : Serial → Serial
deliver sd = record sd {
  inbufhead = (sd.inbufhead + 1) % inbuf_size;
  droppedreads = 0;
  readch = get_or sd.inbuf sd.inbufhead 0;
  didread = false;
  rirq = record sd.rirq { is_ready = true };
}

-- The insertion into the buffer in `serial_input`, where there is room.
unfoldable pub store_char : ℕ → Serial → Serial
store_char ch sd = record sd {
  inbuf = set sd.inbuf sd.inbuftail (ch % 256);
  inbuftail = (sd.inbuftail + 1) % inbuf_size;
}

module _ {W : Type 0} (port : DevicePort W) where
  open port use {raise_irq, lower_irq, schedule_event, console_putc, count_rchar, count_wchar}

  unfoldable pub setirq : Serial → W → W
  setirq sd w = if wants sd.rirq || wants sd.wirq then raise_irq sd.slot w else lower_irq sd.slot w

  unfoldable pub serial_writedone : Serial × W → Serial × W
  unfolding setirq
  serial_writedone (sd, w) =
      let sd' = record sd { wbusy = false; wirq = record sd.wirq { is_ready = true } } in
      (sd', setirq sd' w)

  unfoldable pub serial_pushinput : Serial × W → Outcome (Serial × W)
  unfolding deliver setirq
  serial_pushinput (sd, w) =
      if sd.inbufhead == sd.inbuftail
      then ok (record sd { rbusy = false }, w)
      else if not sd.didread && sd.rirq.is_ready
      then (schedule_event serial_nsecs 0 (Event.serial_pushinput sd.slot) w >>= λ w'.
          ok (record sd { droppedreads = u32 (sd.droppedreads + 1) }, w'))
      else let sd' = deliver sd in
        schedule_event serial_nsecs 0 (Event.serial_pushinput sd.slot) (setirq sd' w) >>= λ w'.
        ok (record sd' { rbusy = true }, w')

  -- `serial_input`, called with each character typed.
  unfoldable pub serial_input : ℕ → Serial × W → Outcome (Serial × W)
  unfolding store_char serial_pushinput
  serial_input ch (sd, w) =
      if (sd.inbuftail + 1) % inbuf_size == sd.inbufhead
      then ok (sd, w)
      else let sd' = store_char ch sd in if sd.rbusy then ok (sd', w) else serial_pushinput (sd', w)

  unfoldable pub serial_fetch : ℕ → Serial × W → Option ℕ × (Serial × W)
  unfolding fetchirq
  serial_fetch offset (sd, w) =
      if offset == 0x0
      then (some sd.readch, (record sd { didread = true }, count_rchar w))
      else if offset == 0x8
      then (some (fetchirq sd.rirq), (sd, w))
      else if offset == 0x4
      then (some (fetchirq sd.wirq), (sd, w))
      else (none, (sd, w))

  -- The character register of `serial_store`: a write while one is in progress is dropped.
  unfoldable pub write_char : ℕ → Serial × W → Outcome (Serial × W)
  write_char val (sd, w) =
      if sd.wbusy
      then ok (sd, w)
      else (schedule_event serial_nsecs 0 (Event.serial_writedone sd.slot)
            (console_putc val (count_wchar w))
          >>= λ w'. ok (record sd { wbusy = true }, w'))

  -- The interrupt registers of `serial_store`.
  unfoldable pub store_rirq : ℕ → Serial × W → Serial × W
  unfolding storeirq setirq
  store_rirq val (sd, w) = let sd' = record sd { rirq = storeirq val } in (sd', setirq sd' w)

  unfoldable pub store_wirq : ℕ → Serial × W → Serial × W
  unfolding storeirq setirq
  store_wirq val (sd, w) = let sd' = record sd { wirq = storeirq val } in (sd', setirq sd' w)

  unfoldable pub serial_store : ℕ → ℕ → Serial × W → Outcome (Option (Serial × W))
  unfolding write_char store_rirq store_wirq
  serial_store offset val s =
      if offset == 0x0
      then (write_char val s >>= λ s'. ok (some s'))
      else if offset == 0x8
      then ok (some (store_rirq val s))
      else if offset == 0x4
      then ok (some (store_wirq val s))
      else ok none
