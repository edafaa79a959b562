-- ===== src/Clock/Schedule/Marks.antt =====
-- The mark `ta_runningto`: which event the cpu was told that it can run to.
use sys.Base.{◌+◌, ◌*◌, ◌≡◌, inl, inr, refl, true, false, Bool-cases, List, [], ◌∷◌, ltb, leb, u64}
use sys.Clock.State.{Action, Clock, clock_vnow, nsecs_per_clock}
use sys.Clock.Schedule.{
  queue_before, queue_after, next_runningto, clear_runningto, enqueue, max_run, run_ticks,
  clock_getrunticks,
}
use sys.Clock.Schedule.Order.{queue-enqueue, inserted}

module _ {F : Type 0} where
  abbrev pub Unmarked : List (Action F) → Type 0
  Unmarked [] = Unit
  Unmarked (p ∷ q) = (p.runningto ≡ false) × Unmarked q

  -- Only the first event may be the one that the cpu runs to.
  abbrev pub OnlyHeadMarked : List (Action F) → Type 0
  OnlyHeadMarked [] = Unit
  OnlyHeadMarked (p ∷ q) = Unmarked q

  inserted-Unmarked :
      (n : Action F) (q : List (Action F))
      → n.runningto ≡ false
      → Unmarked q
      → Unmarked (inserted n q)
  unfolding queue_before queue_after clear_runningto
  inserted-Unmarked n [] e u = (e, tt)
  inserted-Unmarked n (p ∷ q) e u = elim (Bool-cases (ltb n.vtime p.vtime)) [
    | inl t ↦ rw t (e, (refl, u.1))
    | inr t ↦ rw t (u.0, inserted-Unmarked n q e u.1)
  ]

  inserted-OnlyHeadMarked :
      (n : Action F) (q : List (Action F))
      → n.runningto ≡ false
      → OnlyHeadMarked q
      → OnlyHeadMarked (inserted n q)
  unfolding queue_before queue_after clear_runningto
  inserted-OnlyHeadMarked n [] e u = tt
  inserted-OnlyHeadMarked n (p ∷ q) e u = elim (Bool-cases (ltb n.vtime p.vtime)) [
    | inl t ↦ rw t (refl, u)
    | inr t ↦ rw t (inserted-Unmarked n q e u)
  ]

  -- Putting an unmarked event into the queue leaves no mark behind its first event; and where
  -- the new event comes to stand in front of a marked one, the cpu is stopped.
  enqueue-OnlyHeadMarked :
      (n : Action F) (c : Clock F)
      → n.runningto ≡ false
      → OnlyHeadMarked c.queue
      → OnlyHeadMarked (enqueue n c).queue
        × (next_runningto (queue_after n.vtime c.queue) ≡ true
            → (enqueue n c).host.cpu_cycling ≡ false)
  unfolding enqueue
  enqueue-OnlyHeadMarked n c e u =
      (rw (queue-enqueue n c) (inserted-OnlyHeadMarked n c.queue e u), λ h. rw h)

  run_ticks-OnlyHeadMarked :
      (q : List (Action F)) (c : Clock F)
      → OnlyHeadMarked c.queue
      → OnlyHeadMarked q
      → OnlyHeadMarked (run_ticks q c).1.queue
  unfolding run_ticks
  run_ticks-OnlyHeadMarked [] c u v = u
  run_ticks-OnlyHeadMarked (p ∷ q) c u v = elim (Bool-cases (leb p.vtime (clock_vnow c))) [
    | inl due ↦ rw due u
    | inr later ↦ elim (Bool-cases (ltb p.vtime (u64 (clock_vnow c + max_run * nsecs_per_clock)))) [
      | inl near ↦ rw (later, near) v
      | inr far ↦ rw (later, far) u
    ]
  ]

  -- Telling the cpu how far it may run marks at most the first event.
  clock_getrunticks-OnlyHeadMarked :
      (c : Clock F) → OnlyHeadMarked c.queue → OnlyHeadMarked (clock_getrunticks c).1.queue
  unfolding clock_getrunticks
  clock_getrunticks-OnlyHeadMarked c u = run_ticks-OnlyHeadMarked c.queue c u u
