-- ===== src/Clock/Dispatch/Sleep.antt =====
-- Waiting with every cpu idle: `clock_waitirq`.
use sys.Base.{
  ℕ, ◌+◌, ◌-◌, ◌*◌, ◌≤◌, ◌<◌, ◌^◌, ◌≡◌, inl, inr, Bool, true, Bool-cases, List, ◌∷◌, ltb, Returns,
  Returns->>=, arith,
}
use sys.Clock.State.{Action, Clock, clock_vnow, nsecs_per_clock}
use sys.Clock.Time.{clock_vahead}
use sys.Clock.Time.Laws.{clock_vahead-le}
use sys.Clock.Dispatch.{Idle, idle_sleep, idle_account}

module _ {F W : Type 0} (io : Idle F W) where
  -- With an event queued that is not overdue, and a `tryselect` that returns, one wait returns, and
  -- counts at most the time that is left until that event.
  idle_sleep-le :
      (c : Clock F) (w : W) (ta : Action F) (q : List (Action F))
      → c.queue ≡ ta ∷ q
      → clock_vnow c ≤ ta.vtime
      → ta.vtime < 2 ^ 64
      → ((block : Bool) (n : ℕ) (s : Clock F × W) → Returns (io.tryselect block n s) (λ _. Unit))
      → Returns (idle_sleep io (c, w)) (λ r. r.0 ≤ ta.vtime - clock_vnow c)
  unfolding idle_sleep
  idle_sleep-le c w ta q e due small back =
      let ((tv_sec, tv_usec), w') = io.gettimeofday w in
      let wnsecs = clock_vahead tv_sec tv_usec c (clock_vnow c) ta.vtime in
      elim (Bool-cases (ltb 10_000_000 wnsecs)) [
        | inl long ↦
            rw (e, long)
              (Returns->>= (io.tryselect true wnsecs (c, w')) _ _ _ (back true wnsecs (c, w'))
                (λ r u. ground (arith, clock_vahead-le tv_sec tv_usec c (clock_vnow c) ta.vtime)))
        | inr short ↦
            rw (e, short)
              (Returns->>= (io.tryselect true 0 (c, w')) _ _ _ (back true 0 (c, w'))
                (λ r u. omega arith))
      ]

module _ {F : Type 0} where
  -- The slept time and the slop of the wait before are counted as idle cycles, but for less than
  -- a cycle that is kept as the new slop; and virtual time advances by the old slop too, which the
  -- wait before had counted already. Both counters are below their wrap-around.
  pub idle_account_lem :
      (slept : ℕ) (c : Clock F)
      → c.host.tot_icycles + slept + c.idleslop < 2 ^ 64
      → c.virtual_now + slept + c.idleslop < 2 ^ 64
      → let c' = idle_account slept c in
        (c'.host.tot_icycles * nsecs_per_clock + c'.idleslop
          ≡ c.host.tot_icycles * nsecs_per_clock + slept + c.idleslop)
        × (c'.idleslop < nsecs_per_clock)
        × (c'.virtual_now ≡ c.virtual_now + slept + c.idleslop)
  unfolding idle_account
  idle_account_lem slept c h k = ground arith
