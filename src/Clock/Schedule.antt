-- ===== src/Clock/Schedule.antt =====
-- Scheduling on the event queue: `acalloc`, `acfree`, `schedule_event`, `clock_getrunticks`.
pub mod Order
pub mod Pool
pub mod Marks
pub mod Ticks
pub mod Count
use sys.Base.{
  ℕ, zero, suc, ◌+◌, ◌-◌, ◌*◌, ◌/◌, Bool, true, false, List, [], ◌∷◌, ◌++◌, u32, u64, sub64, ltb,
  leb, if◌then◌else◌, Outcome, ok, smoke, ◌>>=◌,
}
use sys.Clock.State.{Action, Clock, clock_vnow, cpu_stopcycling, nsecs_per_clock}

abbrev pub max_run : ℕ
max_run = 125_000

module _ {F : Type 0} where
  -- `acalloc` on an empty pool is `smoke`.
  unfoldable pub acalloc : Clock F → Outcome (ℕ × Clock F)
  acalloc c = elim c.freelist [ [] ↦ smoke | s ∷ rest ↦ ok (s, record c { freelist = rest }) ]

  unfoldable pub acfree : ℕ → Clock F → Clock F
  acfree s c = record c { freelist = s ∷ c.freelist }

  -- `acalloc_init` frees the entries of `action_storage` in order.
  unfoldable pub acalloc_init : ℕ → ℕ → Clock F → Clock F
  unfolding acfree
  acalloc_init zero i c = c
  acalloc_init (suc n) i c = acalloc_init n (i + 1) (acfree i c)

  -- The actions that the insertion loop walks over, up to the first that is due later.
  unfoldable pub queue_before : ℕ → List (Action F) → List (Action F)
  queue_before t [] = []
  queue_before t (p ∷ q) = if ltb t p.vtime then [] else p ∷ queue_before t q

  -- The rest of the queue, from where the loop stops.
  unfoldable pub queue_after : ℕ → List (Action F) → List (Action F)
  queue_after t [] = []
  queue_after t (p ∷ q) = if ltb t p.vtime then p ∷ q else queue_after t q

  -- Is the cpu running towards the action that now follows the new one?
  unfoldable pub next_runningto : List (Action F) → Bool
  next_runningto [] = false
  next_runningto (p ∷ q) = p.runningto

  unfoldable pub clear_runningto : List (Action F) → List (Action F)
  clear_runningto [] = []
  clear_runningto (p ∷ q) = record p { runningto = false } ∷ q

  -- The sorted linked-list insert, and what follows it. Here `q` is the queue before.
  unfoldable pub enqueue : Action F → Clock F → Clock F
  unfolding queue_before queue_after next_runningto clear_runningto cpu_stopcycling
  enqueue n c =
      let after = queue_after n.vtime c.queue in
      let before = queue_before n.vtime c.queue in
      if next_runningto after
      then cpu_stopcycling (record c { queue = before ++ (n ∷ clear_runningto after) })
      else record c { queue = before ++ (n ∷ after) }

  -- `jitter k nsecs` is what the floating-point expression
  -- `(random() * (nsecs * 0.01)) / RANDOM_MAX` gives at the k-th draw.
  unfoldable pub schedule_event : (ℕ → ℕ → ℕ) → ℕ → ℕ → F → Clock F → Outcome (Clock F)
  unfolding acalloc enqueue
  schedule_event jitter nsecs code func c =
      acalloc (record c { draws = c.draws + 1 }) >>= λ (s, c'). ok (
        enqueue
          (record {
            slot = s;
            vtime = u64 (clock_vnow c' + u64 (nsecs + jitter c.draws nsecs));
            code = code;
            func = func;
            runningto = false;
          })
          c')

  -- How many ticks the cpu may run, and the mark on the event that it runs to.
  unfoldable pub run_ticks : List (Action F) → Clock F → ℕ × Clock F
  run_ticks [] c = (max_run, c)
  run_ticks (ta ∷ q) c =
      if leb ta.vtime (clock_vnow c)
      then (0, c)
      else if ltb ta.vtime (u64 (clock_vnow c + max_run * nsecs_per_clock))
      then (
        u32 (u32 (sub64 ta.vtime (clock_vnow c)) + (nsecs_per_clock - 1)) / nsecs_per_clock,
        record c { queue = record ta { runningto = true } ∷ q },
      )
      else (max_run, c)

  unfoldable pub clock_getrunticks : Clock F → ℕ × Clock F
  unfolding run_ticks
  clock_getrunticks c = run_ticks c.queue c
