-- ===== src/Clock/Schedule/Pool.antt =====
-- The pool of timer actions: no entry of `action_storage` is lost or used twice.
use mathlib.Core.List.{Perm, perm_middle}
use mathlib.Core.List.Perm
use sys.Base.{
  ℕ, zero, suc, ◌+◌, ◌≡◌, ◌⊎◌, inl, inr, refl, Bool-cases, List, [], ◌∷◌, ◌++◌, ltb, ok, smoke,
  List-cases, length, arith,
}
use sys.Clock.State.{Action, Clock}
use sys.Clock.Schedule.{
  acalloc, acfree, acalloc_init, queue_before, queue_after, next_runningto, clear_runningto,
  enqueue, schedule_event,
}
use sys.Clock.Schedule.Order.{queue-enqueue, inserted, new_action}

module _ {F : Type 0} where
  abbrev pub slots : List (Action F) → List ℕ
  slots [] = []
  slots (p ∷ q) = p.slot ∷ slots q

  -- Every entry that the clock can name: those in the queue, then those on the free list.
  abbrev pub pool : Clock F → List ℕ
  pool c = slots c.queue ++ c.freelist

  slots-inserted :
      (n : Action F) (q : List (Action F)) → Perm (slots (inserted n q)) (n.slot ∷ slots q)
  unfolding queue_before queue_after clear_runningto
  slots-inserted n [] = Perm.refl (n.slot ∷ [])
  slots-inserted n (p ∷ q) = elim (Bool-cases (ltb n.vtime p.vtime)) [
    | inl t ↦ rw t (Perm.refl (n.slot ∷ p.slot ∷ slots q))
    | inr t ↦
        rw t
          (Perm.trans (Perm.cons p.slot (slots-inserted n q)) (Perm.swap n.slot p.slot (slots q)))
  ]

  freelist-enqueue : (n : Action F) (c : Clock F) → (enqueue n c).freelist ≡ c.freelist
  unfolding enqueue
  freelist-enqueue n c = elim (Bool-cases (next_runningto (queue_after n.vtime c.queue))) [
    | inl e ↦ rw e
    | inr e ↦ rw e
  ]

  -- An entry moves from the free list to the queue.
  enqueue-pool :
      (n : Action F) (free : List ℕ) (c : Clock F)
      → c.freelist ≡ free
      → Perm (pool (enqueue n c)) (slots c.queue ++ (n.slot ∷ free))
  enqueue-pool n free c e =
      rw (queue-enqueue n c, freelist-enqueue n c, e)
        (Perm.trans (Perm.append_right free (slots-inserted n c.queue))
          (Perm.symm (perm_middle (slots c.queue) free)))

  -- `schedule_event` aborts exactly when no entry is free, and otherwise moves one entry from the
  -- free list to the queue: the entries of the pool stay the same, each as often.
  pub schedule_event-pool :
      (jitter : ℕ → ℕ → ℕ) (nsecs code : ℕ) (func : F) (c : Clock F)
      → ((c.freelist ≡ []) × (schedule_event jitter nsecs code func c ≡ smoke))
        ⊎ ((c' : Clock F) × (schedule_event jitter nsecs code func c ≡ ok c')
            × Perm (pool c') (pool c)
            × (length c.freelist ≡ suc (length c'.freelist)))
  unfolding schedule_event acalloc
  schedule_event-pool jitter nsecs code func c = elim (List-cases c.freelist) [
    | inl e ↦ inl (e, rw e)
    | inr (s, free, e) ↦
        let n = new_action jitter nsecs code func s c in
        let c' : Clock F = record c { freelist = free; draws = c.draws + 1 } in
        inr (enqueue n c', rw e, rw e (enqueue-pool n free c' refl), rw (e, freelist-enqueue n c'))
  ]

  -- The pool of a fresh clock.
  freelist-acalloc_init :
      (n i : ℕ) (c : Clock F) → length (acalloc_init n i c).freelist ≡ n + length c.freelist
  unfolding acalloc_init
  freelist-acalloc_init zero i c = omega arith
  freelist-acalloc_init (suc n) i c = omega (arith, freelist-acalloc_init n (i + 1) (acfree i c))
