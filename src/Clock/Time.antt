-- ===== src/Clock/Time.antt =====
-- Wall-clock time: `clock_coreinit`, `clock_vahead`, `clock_time`, `clock_setsecs`, `clock_setnsecs`.
pub mod Laws
use sys.Base.{
  ℕ, ◌+◌, ◌*◌, ◌/◌, ◌%◌, Bool, true, false, List, [], u32, u64, sub32, sub64, ltb, leb,
  if◌then◌else◌,
}
use sys.Clock.State.{Clock, clock_vnow, clock_vadvance, nsecs_per_sec}

module _ {F : Type 0} where
  -- `clock_coreinit`; `tv_sec` is what `gettimeofday` gave.
  unfoldable pub clock_coreinit : ℕ → Clock F → Clock F
  clock_coreinit tv_sec c = record c { start_secs = u32 tv_sec; start_nsecs = 0; virtual_now = 0 }

  -- `pnsecs`, the physical time since startup, where `gettimeofday` gives a time after it.
  abbrev pub physical_nsecs : ℕ → ℕ → Clock F → ℕ
  physical_nsecs tv_sec tv_usec c =
      sub64 (u64 (u64 (sub64 tv_sec c.start_secs * nsecs_per_sec) + tv_usec * 1000)) c.start_nsecs

  unfoldable pub clock_vahead : ℕ → ℕ → Clock F → ℕ → ℕ → ℕ
  clock_vahead tv_sec tv_usec c vnow vnsecs =
      if ltb tv_sec c.start_secs
      then 0
      else let pnsecs = physical_nsecs tv_sec tv_usec c in
        if leb vnsecs pnsecs
        then 0
        else if leb vnow pnsecs
        then sub64 vnsecs pnsecs
        else sub64 vnsecs vnow

  -- `clock_time`: the seconds and the nanoseconds that it stores.
  unfoldable pub clock_time : Clock F → ℕ × ℕ
  clock_time c =
      let now = clock_vnow c in
      let secs = u32 (c.start_secs + now / nsecs_per_sec) in
      let nsecs = u32 (c.start_nsecs + now % nsecs_per_sec) in
      if ltb nsecs_per_sec nsecs then (u32 (secs + 1), sub32 nsecs nsecs_per_sec) else (secs, nsecs)

  unfoldable pub clock_setsecs : ℕ → Clock F → Clock F
  clock_setsecs newsecs c =
      let oldsecs = u32 (c.start_secs + clock_vnow c / nsecs_per_sec) in
      record c { start_secs = u32 (c.start_secs + sub32 newsecs oldsecs) }

  unfoldable pub clock_setnsecs : ℕ → Clock F → Clock F
  clock_setnsecs newnsecs c =
      let oldnsecs = u32 (c.start_nsecs + clock_vnow c % nsecs_per_sec) in
      record c { start_nsecs = u32 (c.start_nsecs + sub32 newnsecs oldnsecs) }

  unfoldable pub clock_setprogresstimeout : ℕ → Clock F → Clock F
  clock_setprogresstimeout secs c =
      let timeout = u64 (secs * nsecs_per_sec) in
      record c {
        check_progress = true;
        progress_timeout = timeout;
        progress_deadline = u64 (clock_vnow c + timeout);
      }
