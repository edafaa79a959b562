-- ===== src/Clock/Schedule/Ticks.antt =====
-- How long `clock_getrunticks` lets the cpu run.
use sys.Base.{◌+◌, ◌*◌, ◌≤◌, ◌<◌, ◌^◌, ◌≡◌, inl, inr, Bool-cases, List, ◌∷◌, ltb, leb, u64, arith}
use sys.Clock.State.{Action, Clock, clock_vnow, nsecs_per_clock}
use sys.Clock.Schedule.{max_run, run_ticks, clock_getrunticks}

module _ {F : Type 0} where
  -- The ticks given for an event at the head of the queue. While the clock is 5 ms or more below
  -- its wrap-around, the cpu gets no tick exactly when the event is due, never runs on a tick that
  -- starts at or after the event's time, and stops at that time or later where it gets fewer than
  -- the most ticks.
  pub clock_getrunticks_exact :
      (c : Clock F) (ta : Action F) (q : List (Action F))
      → c.queue ≡ ta ∷ q
      → clock_vnow c + max_run * nsecs_per_clock < 2 ^ 64
      → let n = (clock_getrunticks c).0 in
        (n ≤ max_run)
        × (ta.vtime ≤ clock_vnow c → n ≡ 0)
        × (clock_vnow c < ta.vtime
            → (clock_vnow c + n * nsecs_per_clock < ta.vtime + nsecs_per_clock) × (0 < n))
        × (n < max_run → ta.vtime ≤ clock_vnow c + n * nsecs_per_clock)
  unfolding clock_getrunticks run_ticks
  clock_getrunticks_exact c ta q e h = rw e (elim (Bool-cases (leb ta.vtime (clock_vnow c))) [
    | inl due ↦ rw due (ground arith)
    | inr later ↦
        elim (Bool-cases (ltb ta.vtime (u64 (clock_vnow c + max_run * nsecs_per_clock)))) [
          | inl near ↦ rw (later, near) (ground arith)
          | inr far ↦ rw (later, far) (ground arith)
        ]
  ])
