-- ===== src/Tests/Clock.antt =====
-- The theorems on the clock, at a clock with two events pending.
use mathlib.Core.List.{Perm}
use sys.Base.{
  Returns->>=, ◌>>=◌, ◌∙◌, ℕ, suc, ◌+◌, ◌*◌, ◌≤◌, ◌<◌, ◌≡◌, ◌⊎◌, refl, Bool, true, false, List, [],
  ◌∷◌, ◌++◌, length, Outcome, ok, smoke, Returns, arith,
}
use sys.Clock.State.{Action, Clock, Host, clock_vnow, nsecs_per_clock}
use sys.Clock.Schedule.{
  schedule_event, queue_before, queue_after, clear_runningto, max_run, clock_getrunticks,
}
use sys.Clock.Schedule.Order.{IsSorted, DueBy, DueAfter, new_action, schedule_event-IsSorted}
use sys.Clock.Schedule.Pool.{pool, schedule_event-pool}
use sys.Clock.Schedule.Ticks.{clock_getrunticks_exact}
use sys.Clock.Schedule.{acfree}
use sys.Clock.Time.{clock_time, clock_setsecs}
use sys.Clock.Time.Laws.{clock_setsecs-clock_time}
use sys.Clock.Dispatch.{check_queue, Idle, idle_account}
use sys.Clock.Dispatch.Total.{Handlers, check_queue-total, schedule_event-due_count}
use sys.Clock.Dispatch.Sleep.{idle_account_lem}

abbrev host : Host
host = record {
  cpu_cycling = true;
  stopped_in_debugger = false;
  stop_is_lethal = false;
  shutoff_flag = false;
  cpu_cycles_count = 0;
  extra_selecttime = 0;
  tot_rcycles = 0;
  tot_icycles = 0;
}

abbrev event : ℕ → ℕ → Bool → Action ℕ
event slot vtime marked = record {
  slot = slot;
  vtime = vtime;
  code = 0;
  func = 7;
  runningto = marked;
}

abbrev two_events : List (Action ℕ)
two_events = event 0 1500 true ∷ event 1 2500 false ∷ []

abbrev clock : Clock ℕ
clock = record {
  virtual_now = 1000;
  start_secs = 5;
  start_nsecs = 0;
  progress = false;
  check_progress = true;
  progress_warned = false;
  progress_timeout = 100;
  progress_deadline = 900;
  freelist = 2 ∷ 3 ∷ [];
  queue = two_events;
  idleslop = 10;
  draws = 0;
  host = host;
}

abbrev jitter : ℕ → ℕ → ℕ
jitter draw nsecs = 0

two_events-IsSorted : IsSorted two_events
two_events-IsSorted = ((omega arith, tt), (tt, tt))

schedule_event-IsSorted_example :
    let n = new_action jitter 700 3 8 2 clock in
    Returns (schedule_event jitter 700 3 8 clock) (λ c'.
      (c'.queue
        ≡ queue_before n.vtime two_events ++ (n ∷ clear_runningto (queue_after n.vtime two_events)))
      × (queue_before n.vtime two_events ++ queue_after n.vtime two_events ≡ two_events)
      × DueBy n.vtime (queue_before n.vtime two_events)
      × DueAfter n.vtime (queue_after n.vtime two_events)
      × IsSorted c'.queue)
schedule_event-IsSorted_example =
    schedule_event-IsSorted jitter 700 3 8 clock 2 (3 ∷ []) refl two_events-IsSorted

schedule_event-pool_example :
    ((clock.freelist ≡ []) × (schedule_event jitter 700 3 8 clock ≡ smoke))
    ⊎ ((c' : Clock ℕ) × (schedule_event jitter 700 3 8 clock ≡ ok c')
        × Perm (pool c') (pool clock)
        × (length clock.freelist ≡ suc (length c'.freelist)))
schedule_event-pool_example = schedule_event-pool jitter 700 3 8 clock

clock_getrunticks_exact_example :
    let n = (clock_getrunticks clock).0 in
    (n ≤ max_run)
    × (1500 ≤ clock_vnow clock → n ≡ 0)
    × (clock_vnow clock < 1500
        → (clock_vnow clock + n * nsecs_per_clock < 1500 + nsecs_per_clock) × (0 < n))
    × (n < max_run → 1500 ≤ clock_vnow clock + n * nsecs_per_clock)
clock_getrunticks_exact_example =
    clock_getrunticks_exact clock (event 0 1500 true) (event 1 2500 false ∷ []) refl (omega arith)

-- 0.7 seconds after the start of a second, with an offset of half a second.
abbrev half : Clock ℕ
half = record clock { start_nsecs = 500_000_000; virtual_now = 700_000_000 }

clock_setsecs-clock_time_example : (clock_time (clock_setsecs 77 half)).0 ≡ 78
clock_setsecs-clock_time_example = clock_setsecs-clock_time 77 half (omega arith)

-- A handler that schedules its event again, a microsecond later.
abbrev again : ℕ → ℕ → Clock ℕ × ℕ → Outcome (Clock ℕ × ℕ)
again func code (c, w) = schedule_event jitter 1000 code func c >>= λ c'. ok (c', w)

-- The time is 2000, and the pool has an entry left.
abbrev Runs : Clock ℕ × ℕ → Type 0
Runs (c, w) = (clock_vnow c ≡ 2000) × ((s : ℕ) × (free : List ℕ) × (c.freelist ≡ s ∷ free))

again-Handlers : Handlers again 2000 Runs
unfolding acfree
again-Handlers = record {
  keeps = λ ta q c w (now, (s, free, e)) is sorted.
      let taken : Clock ℕ = record c { queue = q } in
      Returns->>= (schedule_event jitter 1000 ta.code ta.func taken) _ _ _
        (schedule_event-due_count jitter 1000 ta.code ta.func taken s free 2000 e sorted
          (omega (arith, now)))
        (λ c' (pool, now', sorted', due).
          ((now' ∙ now, (ta.slot, c'.freelist, refl)), sorted', omega (arith, due)));
}

check_queue-total_example :
    Returns
      (check_queue again 2 (record clock { virtual_now = 2000 }, 0))
      (λ s. Runs s × IsSorted s.0.queue × DueAfter 2000 s.0.queue)
check_queue-total_example =
    check_queue-total again 2000 Runs again-Handlers 2 (record clock { virtual_now = 2000 }) 0 refl
      (refl, (2, 3 ∷ [], refl)) two_events-IsSorted (omega arith)

-- A host whose clock stands still and whose select sleeps as long as it is told to.
abbrev still : Idle ℕ ℕ
still = record {
  running_mask = λ w. 0;
  gettimeofday = λ w. ((5, 0), w);
  tryselect = λ block n s. ok (n, s);
}

idle_account_lem_example :
    let c' = idle_account 75 clock in
    (c'.host.tot_icycles * nsecs_per_clock + c'.idleslop
      ≡ clock.host.tot_icycles * nsecs_per_clock + 75 + clock.idleslop)
    × (c'.idleslop < nsecs_per_clock)
    × (c'.virtual_now ≡ clock.virtual_now + 75 + clock.idleslop)
idle_account_lem_example = idle_account_lem 75 clock (omega arith) (omega arith)
