-- ===== src/Machine/Disks.antt =====
-- The machine serves the requests of a disk.
use sys.Base.{
  ℕ, ◌+◌, ◌^◌, ◌<◌, ◌≤◌, ◌≡◌, refl, true, Outcome, ok, smoke, undefined, out_of_fuel, ◌>>=◌,
  Returns, arith,
}
use sys.Clock.State.{Clock, nsecs_per_sec}
use sys.Clock.Schedule.{schedule_event}
use sys.Clock.Schedule.Count.{has_room, count-schedule_event}
use sys.Clock.Time.{clock_time}
use sys.Bus.State.{Bus}
use sys.Devices.Port.{Event}
use sys.Devices.Disk.{sector_size}
use sys.Devices.Disk.File.Laws.{Image}
use sys.Devices.Disk.Work.Requests.{Serves}
use sys.Machine.{Cpus, device_port}

-- A call that returns, with more behind it.
then_ok :
    {A B : Type 0} (m : Outcome A) (P : A → Type 0) (k : A → B)
    → Returns m P
    → (b : B) × ((m >>= λ a. ok (k a)) ≡ ok b)
then_ok (ok a) P k h = (k a, refl)
then_ok smoke P k h = absurd h
then_ok undefined P k h = absurd h
then_ok out_of_fuel P k h = absurd h

nsecs_small : (c : Clock Event) → c.start_nsecs < nsecs_per_sec → (clock_time c).1 ≤ nsecs_per_sec
unfolding clock_time
nsecs_small c h = ground arith

-- In a state of the machine in which the pool of events has room and the nanosecond offset is below
-- a second, a request of a disk is served, up to the last seconds of the 32 bits.
pub Serves-machine :
    {C : Type 0} (jitter : ℕ → ℕ → ℕ) (cpus : Cpus C) (fuel : ℕ)
    (image : Image (Bus × (Clock Event × C))) (b : Bus) (c : Clock Event) (x : C)
    → has_room c ≡ true
    → c.start_nsecs < nsecs_per_sec
    → (clock_time c).0 + 5 < 2 ^ 32
    → image.patience (b, (c, x)) + sector_size < fuel
    → Serves fuel (device_port jitter cpus) image (b, (c, x))
unfolding device_port
Serves-machine jitter cpus fuel image b c x room small early patient = record {
  schedules = λ nsecs code e.
      then_ok (schedule_event jitter nsecs code e c) _ (λ c'. (b, (c', x)))
        (count-schedule_event jitter nsecs code e c room);
  nsecs_of = nsecs_small c small;
  secs_of = early;
  patient = patient;
}
