-- ===== src/Clock/State.antt =====
-- The state of sys161/main/clock.c, with the globals of other files that it reads or sets.
use sys.Base.{ℕ, ◌+◌, ◌*◌, Bool, true, List, u64}

-- `struct timed_action`. `slot` is its index in `action_storage`; `func` stands for the pair of
-- `ta_func` and `ta_data`. The description `ta_desc` is only printed.
pub record Action (F : Type 0) : Type 0 where
  pub slot : ℕ
  pub vtime : ℕ
  pub code : ℕ
  pub func : F
  pub runningto : Bool

-- Globals that the clock shares with main.c, the cpu and onsel.c.
pub record Host : Type 0 where
  pub cpu_cycling : Bool
  pub stopped_in_debugger : Bool
  pub stop_is_lethal : Bool
  pub shutoff_flag : Bool
  pub cpu_cycles_count : ℕ
  pub extra_selecttime : ℕ
  pub tot_rcycles : ℕ
  pub tot_icycles : ℕ

-- The free list holds indices of `action_storage`, `ta_freelist` first; the queue starts at
-- `queuehead`. `draws` counts the calls of `random()` made so far.
pub record Clock (F : Type 0) : Type 0 where
  pub virtual_now : ℕ
  pub start_secs : ℕ
  pub start_nsecs : ℕ
  pub progress : Bool
  pub check_progress : Bool
  pub progress_warned : Bool
  pub progress_timeout : ℕ
  pub progress_deadline : ℕ
  pub freelist : List ℕ
  pub queue : List (Action F)
  pub idleslop : ℕ
  pub draws : ℕ
  pub host : Host

abbrev pub nsecs_per_clock : ℕ
nsecs_per_clock = 40

abbrev pub nsecs_per_sec : ℕ
nsecs_per_sec = 1_000_000_000

abbrev pub max_actions : ℕ
max_actions = 1024

module _ {F : Type 0} where
  -- The current virtual time, part-way through a cpu run or a select included.
  abbrev pub clock_vnow : Clock F → ℕ
  clock_vnow c =
      u64 (c.virtual_now + nsecs_per_clock * c.host.cpu_cycles_count + c.host.extra_selecttime)

  unfoldable pub clock_vadvance : ℕ → Clock F → Clock F
  clock_vadvance nsecs c = record c { virtual_now = u64 (c.virtual_now + nsecs) }

  unfoldable pub clock_newprogressdeadline : Clock F → Clock F
  clock_newprogressdeadline c = record c {
    progress_deadline = u64 (clock_vnow c + c.progress_timeout);
  }

  -- `cpu_stopcycling` of the cpu.
  unfoldable pub cpu_stopcycling : Clock F → Clock F
  cpu_stopcycling c = record c { host = record c.host { cpu_cycling = Bool.false } }

  -- `main_enter_debugger` of main.c.
  unfoldable pub main_enter_debugger : Bool → Clock F → Clock F
  main_enter_debugger lethal c = record c {
    host = record c.host { stopped_in_debugger = true; stop_is_lethal = lethal };
  }

  -- `main_leave_debugger` of main.c.
  unfoldable pub main_leave_debugger : Clock F → Clock F
  main_leave_debugger c = record c {
    host = record c.host { stopped_in_debugger = Bool.false; stop_is_lethal = Bool.false };
  }

  -- `main_poweroff` of main.c.
  unfoldable pub main_poweroff : Clock F → Clock F
  main_poweroff c = record c { host = record c.host { shutoff_flag = true } }

  -- `hang` of console.c: it prints, and stops the machine for a debugger.
  unfoldable pub hang : Clock F → Clock F
  unfolding cpu_stopcycling main_enter_debugger
  hang c = main_enter_debugger true (cpu_stopcycling c)
