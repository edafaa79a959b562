-- ===== src/Clock/Schedule/Count.antt =====
-- Counting the pending events of a kind.
use sys.Base.{
  ℕ, suc, ◌+◌, ◌≡◌, inl, inr, refl, Bool, true, false, Bool-cases, List, [], ◌∷◌, ltb,
  if◌then◌else◌, List-cases, Returns, arith,
}
use sys.Clock.State.{Action, Clock}
use sys.Clock.Schedule.{acalloc, queue_before, queue_after, clear_runningto, schedule_event}
use sys.Clock.Schedule.Order.{inserted, queue-enqueue, new_action}

module _ {F : Type 0} where
  -- How many events have a handler and a code that the test accepts.
  abbrev pub count : (F → ℕ → Bool) → List (Action F) → ℕ
  count p [] = 0
  count p (a ∷ q) = if p a.func a.code then suc (count p q) else count p q

  count-inserted :
      (p : F → ℕ → Bool) (n : Action F) (q : List (Action F))
      → count p (inserted n q) ≡ count p (n ∷ q)
  unfolding queue_before queue_after clear_runningto
  count-inserted p n [] = refl
  count-inserted p n (a ∷ q) = elim (Bool-cases (ltb n.vtime a.vtime)) [
    | inl t ↦ rw t refl
    | inr t ↦ rw t (ground (arith, count-inserted p n q))
  ]

  -- Does the pool have an entry left?
  abbrev pub has_room : Clock F → Bool
  has_room c = elim c.freelist [ [] ↦ false | s ∷ free ↦ true ]

  -- With an entry left in the pool `schedule_event` returns, and each count of pending events grows
  -- by one if the new event is of its kind, and stays otherwise.
  pub count-schedule_event :
      (jitter : ℕ → ℕ → ℕ) (nsecs code : ℕ) (func : F) (c : Clock F)
      → has_room c ≡ true
      → Returns (schedule_event jitter nsecs code func c) (λ c'.
        (p : F → ℕ → Bool)
        → count p c'.queue ≡ (if p func code then suc (count p c.queue) else count p c.queue))
  unfolding schedule_event acalloc
  count-schedule_event jitter nsecs code func c room = elim (List-cases c.freelist) [
    | inl e ↦ absurd (let no : false ≡ true = rw e at room in cc)
    | inr (s, free, e) ↦
        let n = new_action jitter nsecs code func s c in
        let c' : Clock F = record c { freelist = free; draws = c.draws + 1 } in
        rw e (λ p. rw (queue-enqueue n c') (count-inserted p n c.queue))
  ]
