-- ===== src/Devices/Timer/Laws.antt =====
-- Which of its events a timer heeds.
use sys.Base.{
  ℕ, suc, ◌+◌, ◌*◌, ◌<◌, ◌^◌, ◌≡◌, ◌≢◌, refl, ◌∙◌, Bool, true, false, some, u32, u64, ◌==◌,
  if◌then◌else◌, to_int, Outcome, ok, smoke, undefined, out_of_fuel, ◌>>=◌, Ensures, Returns,
  Returns->>=, Returns-mono, arith,
}
use sys.Devices.Port.{Event, DevicePort, DeviceLaws}
use sys.Devices.Timer.{Timer, timer_start, timer_interrupt, timer_fetch}

-- The event queue as a timer sees it: how many of its events are pending that were scheduled with
-- each code. Scheduling one adds one where the event queue has room.
pub record Pending {W : Type 0} (port : DevicePort W) (slot : ℕ) : Type 0 where
  pub pending : ℕ → W → ℕ
  pub room : W → Bool
  pub schedules :
      (nsecs code : ℕ) (w : W)
      → room w ≡ true
      → Returns
          (port.schedule_event nsecs code (Event.timer_interrupt slot) w)
          (λ w'. (g : ℕ) → pending g w' ≡ (if code == g then suc (pending g w) else pending g w))
  pub raising :
      (w : W)
      → ((g : ℕ) → pending g (port.raise_irq slot w) ≡ pending g w)
        × (room (port.raise_irq slot w) ≡ room w)

Returns-both :
    {A : Type 0} (m : Outcome A) (P Q : A → Type 0)
    → Returns m P
    → Ensures m Q
    → Returns m (λ a. P a × Q a)
Returns-both (ok a) P Q p q = (p, q)
Returns-both smoke P Q p q = p
Returns-both undefined P Q p q = p
Returns-both out_of_fuel P Q p q = p

self_test : (n : ℕ) → (n == n) ≡ true
self_test n = ground arith

module _ {W : Type 0} (port : DevicePort W) (td : Timer) (queue : Pending port td.slot) where
  -- No pending event was scheduled in a generation after this one.
  abbrev pub NotAfter : ℕ → W → Type 0
  NotAfter gen w = (g : ℕ) → gen < g → queue.pending g w ≡ 0

  -- With room in the event queue, and until the generation counter wraps, starting the timer
  -- returns, and leaves exactly one event that it will heed, the new one, however many were pending
  -- before.
  timer_start-live :
      (w : W)
      → td.generation + 1 < 2 ^ 32
      → NotAfter td.generation w
      → queue.room w ≡ true
      → Returns (timer_start port (td, w)) (λ (td', w').
        (queue.pending td'.generation w' ≡ 1)
        × NotAfter td'.generation w'
        × (td'.count_usecs ≡ td.count_usecs)
        × (td'.restartflag ≡ td.restartflag)
        × (td'.slot ≡ td.slot))
  unfolding timer_start
  timer_start-live w small h has =
      let gen = u32 (td.generation + 1) in
      let next : gen ≡ td.generation + 1 = omega arith in
      Returns->>=
        (port.schedule_event (u64 (td.count_usecs * 1000)) gen (Event.timer_interrupt td.slot) w) _
        _ _ (queue.schedules (u64 (td.count_usecs * 1000)) gen w has)
        (λ w' e. (
          ground (arith, e gen, h gen (omega arith)),
          λ g later. ground (arith, e g, h g (omega arith)),
          refl,
          refl,
          refl,
        ))

  -- The line of the slot stays up when the timer restarts.
  timer_start-line :
      (laws : DeviceLaws port) (w : W)
      → port.check_irq td.slot w ≡ true
      → Ensures (timer_start port (td, w)) (λ (td', w'). port.check_irq td.slot w' ≡ true)
  unfolding timer_start
  timer_start-line laws w up =
      let nsecs = u64 (td.count_usecs * 1000) in
      let gen = u32 (td.generation + 1) in
      kept (port.schedule_event nsecs gen (Event.timer_interrupt td.slot) w)
        (λ w' e. laws.check-schedule nsecs gen td.slot (Event.timer_interrupt td.slot) w w' e ∙ up)
    where
      kept :
          (m : Outcome W)
          → ((w' : W) → m ≡ ok w' → port.check_irq td.slot w' ≡ true)
          → Ensures
              (m >>= λ w'. ok (record td { generation = u32 (td.generation + 1) }, w'))
              (λ (td', w'). port.check_irq td.slot w' ≡ true)
      kept (ok w') h = h w' refl
      kept smoke h = tt
      kept undefined h = tt
      kept out_of_fuel h = tt

  -- With room in the event queue, for a slot below 32, and until the generation counter wraps: an
  -- event of another generation does nothing. An event of the current one raises the interrupt of
  -- the timer's slot; a timer that restarts is left with exactly one event that it will heed and
  -- with its interrupt up, and one that does not is left as it was.
  pub timer_interrupt_lem :
      (laws : DeviceLaws port) (gen : ℕ) (w : W)
      → td.slot < 32
      → td.generation + 1 < 2 ^ 32
      → NotAfter td.generation w
      → queue.room w ≡ true
      → (gen ≢ td.generation → timer_interrupt port gen (td, w) ≡ ok (td, w))
        × (gen ≡ td.generation
            → td.restartflag ≡ 0
            → timer_interrupt port gen (td, w) ≡ ok (td, port.raise_irq td.slot w))
        × (gen ≡ td.generation
            → td.restartflag ≢ 0
            → Returns (timer_interrupt port gen (td, w)) (λ (td', w').
              (queue.pending td'.generation w' ≡ 1) × (port.check_irq td.slot w' ≡ true)))
  unfolding timer_interrupt
  timer_interrupt_lem laws gen w in_slots small h has = (
    λ stale. ground arith,
    λ current stop. ground arith,
    λ current again.
        let this : gen == td.generation ≡ true = ground arith in
        let go : td.restartflag == 0 ≡ false = ground arith in
        let before = queue.raising w in
        rw (this, go)
          (Returns-both (timer_start port (td, port.raise_irq td.slot w)) _ _
            (Returns-mono (timer_start port (td, port.raise_irq td.slot w)) _ _
              (timer_start-live (port.raise_irq td.slot w) small (λ g later. before.0 g ∙ h g later)
                (before.1 ∙ has))
              (λ s l. l.0))
            (timer_start-line laws (port.raise_irq td.slot w) (
              laws.check-raise td.slot td.slot w in_slots in_slots ∙ rw (self_test td.slot) refl))),
  )

-- For a port that keeps its laws and a timer in one of the 32 slots, reading the interrupt register
-- gives the state of the line and clears it.
timer_fetch-irq :
    {W : Type 0} (port : DevicePort W) (laws : DeviceLaws port) (td : Timer) (w : W)
    → td.slot < 32
    → let (r, w') = timer_fetch port 0x0c (td, w) in
      (r ≡ some (to_int (port.check_irq td.slot w))) × (port.check_irq td.slot w' ≡ false)
unfolding timer_fetch
timer_fetch-irq port laws td w h = (refl, ground (arith, laws.check-lower td.slot td.slot w h h))
