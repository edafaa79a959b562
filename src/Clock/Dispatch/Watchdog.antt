-- ===== src/Clock/Dispatch/Watchdog.antt =====
-- The check for progress in `clock_ticks`.
use sys.Base.{ℕ, ◌+◌, ◌≤◌, ◌≡◌, ◌⊎◌, true, false, u64, arith}
use sys.Clock.State.{Clock, clock_vnow}
use sys.Clock.Dispatch.{watchdog}

module _ {F : Type 0} where
  -- The machine is stopped for the debugger only at the second deadline that is missed: the check
  -- is on, nothing has made progress, the deadline has passed and the warning was given. In every
  -- other case the flags of the main loop are untouched.
  watchdog_stops :
      (c : Clock F)
      → ((watchdog c).host ≡ c.host)
        ⊎ ((c.check_progress ≡ true)
            × (c.progress ≡ false)
            × (c.progress_deadline ≤ clock_vnow c)
            × (c.progress_warned ≡ true)
            × ((watchdog c).host.stopped_in_debugger ≡ true)
            × ((watchdog c).progress_warned ≡ false))
  unfolding watchdog
  watchdog_stops c = ground arith

  -- Progress takes back a warning, and moves the deadline.
  watchdog-progress :
      (c : Clock F)
      → c.check_progress ≡ true
      → c.progress ≡ true
      → ((watchdog c).progress_warned ≡ false)
        × ((watchdog c).progress ≡ false)
        × ((watchdog c).progress_deadline ≡ u64 (clock_vnow c + c.progress_timeout))
        × ((watchdog c).host ≡ c.host)
  unfolding watchdog
  watchdog-progress c h p = ground arith

  -- A machine that makes no progress is warned at the first deadline, and stopped for good at
  -- the next one: `v` is the virtual time of the second check.
  watchdog_two_strikes :
      (c : Clock F) (v : ℕ)
      → c.check_progress ≡ true
      → c.progress ≡ false
      → c.progress_warned ≡ false
      → c.progress_deadline ≤ clock_vnow c
      → let warned = record (watchdog c) { virtual_now = v } in
        warned.progress_deadline ≤ clock_vnow warned
        → ((watchdog c).host ≡ c.host)
          × ((watchdog warned).host.stopped_in_debugger ≡ true)
          × ((watchdog warned).host.stop_is_lethal ≡ true)
  unfolding watchdog
  watchdog_two_strikes c v h p w d d' = ground arith
