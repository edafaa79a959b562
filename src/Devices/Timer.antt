-- ===== src/Devices/Timer.antt =====
-- The timer, sys161/bus/dev_timer.c.
pub mod Laws
use sys.Base.{
  ℕ, ◌+◌, ◌*◌, ◌%◌, Bool, ◌||◌, Option, none, some, u32, u64, ◌==◌, if◌then◌else◌, to_int, Outcome,
  ok, ◌>>=◌,
}
use sys.Devices.Port.{Event, DevicePort}

-- `struct timer_data`. The flag keeps the word that was stored; it counts as set unless 0.
pub record Timer : Type 0 where
  pub slot : ℕ
  pub restartflag : ℕ
  pub count_usecs : ℕ
  pub generation : ℕ

unfoldable pub timer_init : ℕ → Timer
timer_init slot = record { slot = slot; restartflag = 0; count_usecs = 0; generation = 0 }

-- The registers whose read hangs the machine: the speaker and the two reserved ones.
abbrev pub is_trap : ℕ → Bool
is_trap offset = offset == 0x14 || offset == 0x18 || offset == 0x1c

-- Those whose write does: the interrupt flag and the reserved ones.
abbrev pub is_store_trap : ℕ → Bool
is_store_trap offset = offset == 0x0c || offset == 0x18 || offset == 0x1c

module _ {W : Type 0} (port : DevicePort W) where
  open port use {
    raise_irq, lower_irq, check_irq, schedule_event, clock_time, clock_setsecs, clock_setnsecs,
    hang, console_beep,
  }

  unfoldable pub timer_start : Timer × W → Outcome (Timer × W)
  timer_start (td, w) =
      let gen = u32 (td.generation + 1) in
      schedule_event (u64 (td.count_usecs * 1000)) gen (Event.timer_interrupt td.slot) w >>= λ w'.
      ok (record td { generation = gen }, w')

  -- The event handler; `gen` is the code that the event was scheduled with.
  unfoldable pub timer_interrupt : ℕ → Timer × W → Outcome (Timer × W)
  unfolding timer_start
  timer_interrupt gen (td, w) =
      let w' = raise_irq td.slot w in
      if gen == td.generation
      then if td.restartflag == 0 then ok (td, w') else timer_start (td, w')
      else ok (td, w)

  -- `timer_fetch`: the value, or a `none` for the -1; a register that hangs leaves the value unset,
  -- here 0.
  unfoldable pub timer_fetch : ℕ → Timer × W → Option ℕ × W
  timer_fetch offset (td, w) =
      if offset == 0x00
      then (some (clock_time w).0, w)
      else if offset == 0x04
      then (some (clock_time w).1, w)
      else if offset == 0x08
      then (some td.restartflag, w)
      else if offset == 0x0c
      then (some (to_int (check_irq td.slot w)), lower_irq td.slot w)
      else if offset == 0x10
      then (some td.count_usecs, w)
      else if is_trap offset
      then (some 0, hang w)
      else (none, w)

  -- `timer_store`: a `none` for the -1.
  unfoldable pub timer_store : ℕ → ℕ → Timer × W → Outcome (Option (Timer × W))
  unfolding timer_start
  timer_store offset val (td, w) =
      if offset == 0x00
      then ok (some (td, clock_setsecs val w))
      else if offset == 0x04
      then ok (some (td, clock_setnsecs val w))
      else if offset == 0x08
      then ok (some (record td { restartflag = val }, w))
      else if offset == 0x10
      then (timer_start (record td { count_usecs = val }, w) >>= λ s. ok (some s))
      else if offset == 0x14
      then ok (some (td, console_beep w))
      else if is_store_trap offset
      then ok (some (td, hang w))
      else ok none
