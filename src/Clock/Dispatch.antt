-- ===== src/Clock/Dispatch.antt =====
-- Running the event queue: `check_queue`, `clock_ticks`, `clock_waitirq`.
pub mod Total
pub mod Watchdog
pub mod Sleep
use sys.Base.{
  ℕ, zero, suc, ◌+◌, ◌*◌, ◌/◌, ◌%◌, Bool, true, false, List, [], ◌∷◌, u32, u64, sub64, ltb, leb,
  ◌==◌, if◌then◌else◌, Outcome, ok, out_of_fuel, ◌>>=◌,
}
use sys.Clock.State.{
  Action, Clock, clock_vnow, clock_vadvance, clock_newprogressdeadline, main_enter_debugger,
  nsecs_per_clock, max_actions,
}
use sys.Clock.Schedule.{acfree, acalloc_init}
use sys.Clock.Time.{clock_coreinit, clock_vahead}

module _ {F : Type 0} where
  -- The check for progress at the end of `clock_ticks`.
  unfoldable pub watchdog : Clock F → Clock F
  unfolding clock_newprogressdeadline main_enter_debugger
  watchdog c =
      if c.check_progress
      then if c.progress
        then record (clock_newprogressdeadline (record c { progress = false })) {
          progress_warned = false;
        }
        else if ltb (clock_vnow c) c.progress_deadline
        then c
        else if c.progress_warned
        then record (clock_newprogressdeadline (main_enter_debugger true c)) {
          progress_warned = false;
        }
        else record (clock_newprogressdeadline c) { progress_warned = true }
      else c

  unfoldable pub count_rcycles : ℕ → Clock F → Clock F
  count_rcycles nticks c = record c {
    host = record c.host { tot_rcycles = u64 (c.host.tot_rcycles + nticks) };
  }

-- `W` is the state of everything else; `call f code` runs the handler that `f` stands for.
module _ {F W : Type 0} (call : F → ℕ → Clock F × W → Outcome (Clock F × W)) where
  -- The loop of `check_queue`, on fuel; `vnow` is the time at which it began.
  unfoldable pub check_queue_from : ℕ → ℕ → Clock F × W → Outcome (Clock F × W)
  unfolding acfree
  check_queue_from vnow zero s = out_of_fuel
  check_queue_from vnow (suc fuel) (c, w) = elim c.queue [
    | [] ↦ ok (c, w)
    | ta ∷ q ↦
        if ltb vnow ta.vtime
        then ok (c, w)
        else (call ta.func ta.code (record c { queue = q }, w) >>= λ (c', w').
            check_queue_from vnow fuel (acfree ta.slot c', w'))
  ]

  unfoldable pub check_queue : ℕ → Clock F × W → Outcome (Clock F × W)
  unfolding check_queue_from
  check_queue fuel (c, w) = check_queue_from (clock_vnow c) fuel (c, w)

  unfoldable pub clock_ticks : ℕ → ℕ → Clock F × W → Outcome (Clock F × W)
  unfolding check_queue watchdog count_rcycles clock_vadvance
  clock_ticks fuel nticks (c, w) =
      check_queue fuel (clock_vadvance (u64 (nticks * nsecs_per_clock)) (count_rcycles nticks c), w)
      >>= λ (c', w'). ok (watchdog c', w')

-- What `clock_waitirq` uses of the rest: `cpu_running_mask`, the host's clock, and `tryselect`
-- of onsel.c, which may run the handlers of input and tells how long it slept.
pub record Idle (F W : Type 0) : Type 0 where
  pub running_mask : W → ℕ
  pub gettimeofday : W → (ℕ × ℕ) × W
  pub tryselect : Bool → ℕ → Clock F × W → Outcome (ℕ × (Clock F × W))

module _ {F W : Type 0} (io : Idle F W) where
  -- One wait: how long the machine slept, before the slop is added.
  unfoldable pub idle_sleep : Clock F × W → Outcome (ℕ × (Clock F × W))
  unfolding clock_vahead
  idle_sleep (c, w) = elim c.queue [
    | [] ↦ io.tryselect false 0 (c, w)
    | ta ∷ q ↦
        let ((tv_sec, tv_usec), w') = io.gettimeofday w in
        let vnow = clock_vnow c in
        let wnsecs = clock_vahead tv_sec tv_usec c vnow ta.vtime in
        if ltb 10_000_000 wnsecs
        then (io.tryselect true wnsecs (c, w') >>= λ (slept, s).
            ok (if ltb wnsecs slept then wnsecs else slept, s))
        else (io.tryselect true 0 (c, w') >>= λ (slept, s). ok (sub64 ta.vtime vnow, s))
  ]

module _ {F : Type 0} where
  -- The accounting after a wait: idle cycles, slop and virtual time.
  unfoldable pub idle_account : ℕ → Clock F → Clock F
  unfolding clock_vadvance
  idle_account slept c =
      let tmp = u64 (slept + c.idleslop) in
      clock_vadvance tmp (record c {
        idleslop = tmp % nsecs_per_clock;
        host = record c.host { tot_icycles = u64 (c.host.tot_icycles + tmp / nsecs_per_clock) };
      })

module _ {F W : Type 0} (call : F → ℕ → Clock F × W → Outcome (Clock F × W)) (io : Idle F W) where
  -- `clock_waitirq`: the first fuel bounds its own loop, the second those of `check_queue`.
  unfoldable pub clock_waitirq : ℕ → ℕ → Clock F × W → Outcome (Clock F × W)
  unfolding check_queue idle_sleep idle_account
  clock_waitirq zero fuel s = out_of_fuel
  clock_waitirq (suc n) fuel (c, w) =
      if io.running_mask w == 0
      then (idle_sleep io (c, w) >>= λ (slept, (c', w')).
          check_queue call fuel (idle_account slept c', w') >>= λ s. clock_waitirq n fuel s)
      else ok (c, w)

module _ {F W : Type 0} (call : F → ℕ → Clock F × W → Outcome (Clock F × W)) where
  -- `clock_init`; `random k` is the k-th value of `random()`.
  unfoldable pub clock_init : (ℕ → ℕ) → ℕ → ℕ → Clock F × W → Outcome (Clock F × W)
  unfolding check_queue clock_coreinit acalloc_init clock_vadvance
  clock_init random tv_sec fuel (c, w) =
      let c₁ = acalloc_init max_actions 0 (clock_coreinit tv_sec c) in
      let offset = u32 (random c.draws % 10_000_000) in
      check_queue call fuel (clock_vadvance offset (record c₁ { draws = c.draws + 1 }), w)
