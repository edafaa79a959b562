-- ===== src/Clock/Time/Laws.antt =====
-- What the guest reads as the time, and how far virtual time is ahead of the host's.
use sys.Base.{
  ℕ, ◌+◌, ◌-◌, ◌*◌, ◌/◌, ◌%◌, ◌≤◌, ◌<◌, ◌^◌, ◌≡◌, ◌⊎◌, ◌↔◌, min, u32, ltb, if◌then◌else◌, arith,
}
use sys.Clock.State.{Clock, clock_vnow, nsecs_per_sec}
use sys.Clock.Time.{physical_nsecs, clock_vahead, clock_time, clock_setsecs, clock_setnsecs}

module _ {F : Type 0} where
  -- For a time `vnsecs` that is not before `vnow`, `clock_vahead` is 0 if the host's clock stands
  -- before the second in which the simulator started, and otherwise how far `vnsecs` is ahead of
  -- the physical time, but no more than it is ahead of `vnow`.
  clock_vahead_lem :
      (tv_sec tv_usec : ℕ) (c : Clock F) (vnow vnsecs : ℕ)
      → vnow ≤ vnsecs
      → vnsecs < 2 ^ 64
      → (tv_sec < c.start_secs → clock_vahead tv_sec tv_usec c vnow vnsecs ≡ 0)
        × (c.start_secs ≤ tv_sec
            → clock_vahead tv_sec tv_usec c vnow vnsecs
              ≡ min (vnsecs - physical_nsecs tv_sec tv_usec c) (vnsecs - vnow))
  unfolding clock_vahead
  clock_vahead_lem tv_sec tv_usec c vnow vnsecs h k = (λ p. ground arith, λ p. ground arith)

  pub clock_vahead-le :
      (tv_sec tv_usec : ℕ) (c : Clock F) (vnow vnsecs : ℕ)
      → vnow ≤ vnsecs
      → vnsecs < 2 ^ 64
      → clock_vahead tv_sec tv_usec c vnow vnsecs ≤ vnsecs - vnow
  unfolding clock_vahead
  clock_vahead-le tv_sec tv_usec c vnow vnsecs h k = ground arith

  -- As long as the nanosecond offset is below a second, the nanoseconds that `clock_time` gives
  -- are at most a whole second, the seconds and nanoseconds together are the start offset plus
  -- the virtual time (modulo the width of the seconds), and a whole second is given exactly when
  -- offset and virtual time add up to one.
  clock_time_lem :
      (c : Clock F)
      → c.start_nsecs < nsecs_per_sec
      → let (secs, nsecs) = clock_time c in
        let frac = c.start_nsecs + clock_vnow c % nsecs_per_sec in
        (nsecs ≤ nsecs_per_sec)
        × ((nsecs ≡ nsecs_per_sec) ↔ (frac ≡ nsecs_per_sec))
        × (((secs ≡ u32 (c.start_secs + clock_vnow c / nsecs_per_sec)) × (nsecs ≡ frac))
            ⊎ ((secs ≡ u32 (c.start_secs + clock_vnow c / nsecs_per_sec + 1))
                × (nsecs + nsecs_per_sec ≡ frac)))
  unfolding clock_time
  clock_time_lem c h = ground arith

  -- After `clock_setsecs` the guest reads the seconds that it set, or one more (modulo 2^32): one
  -- more exactly when the nanosecond offset and the nanoseconds of the virtual time within its
  -- second, added in 32 bits, are over a second.
  pub clock_setsecs-clock_time :
      (n : ℕ) (c : Clock F)
      → n < 2 ^ 32
      → (clock_time (clock_setsecs n c)).0 ≡ (
          if ltb nsecs_per_sec (u32 (c.start_nsecs + clock_vnow c % nsecs_per_sec))
          then u32 (n + 1)
          else n)
  unfolding clock_time clock_setsecs
  clock_setsecs-clock_time n c h = ground arith

  -- After `clock_setnsecs` with a number of nanoseconds up to a second the guest reads that number.
  clock_setnsecs-clock_time :
      (n : ℕ) (c : Clock F) → n ≤ nsecs_per_sec → (clock_time (clock_setnsecs n c)).1 ≡ n
  unfolding clock_time clock_setnsecs
  clock_setnsecs-clock_time n c h = ground arith

  -- But once the clock has run on into a new second, so that less of that second is gone than was
  -- taken off by `clock_setnsecs`, the guest reads more than two seconds of nanoseconds.
  clock_setnsecs_breaks :
      (n v : ℕ) (c : Clock F)
      → let later = record (clock_setnsecs n c) { virtual_now = v } in
        n + clock_vnow later % nsecs_per_sec < clock_vnow c % nsecs_per_sec
        → 2 * nsecs_per_sec < (clock_time later).1
  unfolding clock_time clock_setnsecs
  clock_setnsecs_breaks n v c h = ground arith
