-- ===== src/Clock/Schedule/Order.antt =====
-- The order of the event queue under `schedule_event`.
use sys.Base.{
  ℕ, ◌+◌, ◌≤◌, ◌<◌, ◌≡◌, inl, inr, refl, ap, false, Bool-cases, List, [], ◌∷◌, ◌++◌, u64, ltb,
  Returns, arith,
}
use sys.Clock.State.{Action, Clock, clock_vnow}
use sys.Clock.Schedule.{
  acalloc, queue_before, queue_after, next_runningto, clear_runningto, enqueue, schedule_event,
}

module _ {F : Type 0} where
  -- Every action of the list is due at `t` or later; by `t`; after `t`.
  abbrev pub DueFrom : ℕ → List (Action F) → Type 0
  DueFrom t [] = Unit
  DueFrom t (p ∷ q) = (t ≤ p.vtime) × DueFrom t q

  abbrev pub DueBy : ℕ → List (Action F) → Type 0
  DueBy t [] = Unit
  DueBy t (p ∷ q) = (p.vtime ≤ t) × DueBy t q

  abbrev pub DueAfter : ℕ → List (Action F) → Type 0
  DueAfter t [] = Unit
  DueAfter t (p ∷ q) = (t < p.vtime) × DueAfter t q

  -- The invariant of the queue: earlier actions stand before later ones.
  abbrev pub IsSorted : List (Action F) → Type 0
  IsSorted [] = Unit
  IsSorted (p ∷ q) = DueFrom p.vtime q × IsSorted q

  DueFrom-mono : (s t : ℕ) (q : List (Action F)) → s ≤ t → DueFrom t q → DueFrom s q
  DueFrom-mono s t [] h d = tt
  DueFrom-mono s t (p ∷ q) h d = (omega arith, DueFrom-mono s t q h d.1)

  DueAfter-DueFrom : (s t : ℕ) (q : List (Action F)) → s ≤ t → DueFrom t q → s < t → DueAfter s q
  DueAfter-DueFrom s t [] h d l = tt
  DueAfter-DueFrom s t (p ∷ q) h d l = (omega arith, DueAfter-DueFrom s t q h d.1 l)

  DueAfter-weaken : (t : ℕ) (q : List (Action F)) → DueAfter t q → DueFrom t q
  DueAfter-weaken t [] d = tt
  DueAfter-weaken t (p ∷ q) d = (omega arith, DueAfter-weaken t q d.1)

  queue_before-append-queue_after :
      (t : ℕ) (q : List (Action F)) → queue_before t q ++ queue_after t q ≡ q
  unfolding queue_before queue_after
  queue_before-append-queue_after t [] = refl
  queue_before-append-queue_after t (p ∷ q) = elim (Bool-cases (ltb t p.vtime)) [
    | inl e ↦ rw e
    | inr e ↦ rw e (ap (λ r. p ∷ r) (queue_before-append-queue_after t q))
  ]

  queue_before-DueBy : (t : ℕ) (q : List (Action F)) → DueBy t (queue_before t q)
  unfolding queue_before
  queue_before-DueBy t [] = tt
  queue_before-DueBy t (p ∷ q) = elim (Bool-cases (ltb t p.vtime)) [
    | inl e ↦ rw e tt
    | inr e ↦ rw e (ground arith, queue_before-DueBy t q)
  ]

  queue_after-DueAfter : (t : ℕ) (q : List (Action F)) → IsSorted q → DueAfter t (queue_after t q)
  unfolding queue_after
  queue_after-DueAfter t [] s = tt
  queue_after-DueAfter t (p ∷ q) s = elim (Bool-cases (ltb t p.vtime)) [
    | inl e ↦ rw e (ground arith, DueAfter-DueFrom t p.vtime q (ground arith) s.0 (ground arith))
    | inr e ↦ rw e (queue_after-DueAfter t q s.1)
  ]

  DueFrom-append : (s : ℕ) (a b : List (Action F)) → DueFrom s a → DueFrom s b → DueFrom s (a ++ b)
  DueFrom-append s [] b ha hb = hb
  DueFrom-append s (p ∷ a) b ha hb = (ha.0, DueFrom-append s a b ha.1 hb)

  DueFrom-split : (s : ℕ) (a b : List (Action F)) → DueFrom s (a ++ b) → DueFrom s a × DueFrom s b
  DueFrom-split s [] b h = (tt, h)
  DueFrom-split s (p ∷ a) b h =
      let rest : DueFrom s a × DueFrom s b = DueFrom-split s a b h.1 in ((h.0, rest.0), rest.1)

  -- Two sorted halves, with an action between them in time, make a sorted queue.
  IsSorted-insert :
      (n : Action F) (a b : List (Action F))
      → DueBy n.vtime a
      → DueFrom n.vtime b
      → IsSorted (a ++ b)
      → IsSorted (a ++ (n ∷ b))
  IsSorted-insert n [] b ha hb s = (hb, s)
  IsSorted-insert n (p ∷ a) b ha hb s =
      let parts : DueFrom p.vtime a × DueFrom p.vtime b = DueFrom-split p.vtime a b s.0 in
      (DueFrom-append p.vtime a (n ∷ b) parts.0 (ha.0, parts.1), IsSorted-insert n a b ha.1 hb s.1)

  -- Clearing the mark of the first action moves nothing.
  clear-DueFrom : (t : ℕ) (q : List (Action F)) → DueFrom t q → DueFrom t (clear_runningto q)
  unfolding clear_runningto
  clear-DueFrom t [] h = tt
  clear-DueFrom t (p ∷ q) h = h

  clear-IsSorted : (a q : List (Action F)) → IsSorted (a ++ q) → IsSorted (a ++ clear_runningto q)
  unfolding clear_runningto
  clear-IsSorted [] [] s = s
  clear-IsSorted [] (p ∷ q) s = s
  clear-IsSorted (x ∷ a) q s =
      let parts : DueFrom x.vtime a × DueFrom x.vtime q = DueFrom-split x.vtime a q s.0 in
      (
        DueFrom-append x.vtime a (clear_runningto q) parts.0 (clear-DueFrom x.vtime q parts.1),
        clear-IsSorted a q s.1,
      )

  clear_runningto-unmarked :
      (q : List (Action F)) → next_runningto q ≡ false → clear_runningto q ≡ q
  unfolding clear_runningto next_runningto
  clear_runningto-unmarked [] e = refl
  clear_runningto-unmarked (p ∷ q) e = ground arith

  -- What `enqueue` makes of the queue, whichever way its last test goes.
  abbrev pub inserted : Action F → List (Action F) → List (Action F)
  inserted n q = queue_before n.vtime q ++ (n ∷ clear_runningto (queue_after n.vtime q))

  pub queue-enqueue : (n : Action F) (c : Clock F) → (enqueue n c).queue ≡ inserted n c.queue
  unfolding enqueue
  queue-enqueue n c = elim (Bool-cases (next_runningto (queue_after n.vtime c.queue))) [
    | inl e ↦ rw e
    | inr e ↦ rw (e, clear_runningto-unmarked (queue_after n.vtime c.queue) e)
  ]

  pub inserted-IsSorted :
      (n : Action F) (q : List (Action F)) → IsSorted q → IsSorted (inserted n q)
  inserted-IsSorted n q s =
      IsSorted-insert n (queue_before n.vtime q) (clear_runningto (queue_after n.vtime q))
        (queue_before-DueBy n.vtime q)
        (clear-DueFrom n.vtime (queue_after n.vtime q)
          (DueAfter-weaken n.vtime (queue_after n.vtime q) (queue_after-DueAfter n.vtime q s)))
        (clear-IsSorted (queue_before n.vtime q) (queue_after n.vtime q)
          (rw (queue_before-append-queue_after n.vtime q) s))

  -- The new action as `schedule_event` fills it in.
  abbrev pub new_action : (ℕ → ℕ → ℕ) → ℕ → ℕ → F → ℕ → Clock F → Action F
  new_action jitter nsecs code func slot c = record {
    slot = slot;
    vtime = u64 (clock_vnow c + u64 (nsecs + jitter c.draws nsecs));
    code = code;
    func = func;
    runningto = false;
  }

  -- With an entry left in the pool `schedule_event` returns; the queue that it leaves is the one
  -- before with the new action put behind every action that is due by its time and in front of
  -- every one that is due later, all in their order, and it is sorted.
  pub schedule_event-IsSorted :
      (jitter : ℕ → ℕ → ℕ) (nsecs code : ℕ) (func : F) (c : Clock F) (s : ℕ) (free : List ℕ)
      → c.freelist ≡ s ∷ free
      → IsSorted c.queue
      → let n = new_action jitter nsecs code func s c in
        Returns (schedule_event jitter nsecs code func c) (λ c'.
          (c'.queue
            ≡ queue_before n.vtime c.queue ++ (n ∷ clear_runningto (queue_after n.vtime c.queue)))
          × (queue_before n.vtime c.queue ++ queue_after n.vtime c.queue ≡ c.queue)
          × DueBy n.vtime (queue_before n.vtime c.queue)
          × DueAfter n.vtime (queue_after n.vtime c.queue)
          × IsSorted c'.queue)
  unfolding schedule_event
  schedule_event-IsSorted jitter nsecs code func c s free e sorted =
      let n = new_action jitter nsecs code func s c in
      let c' : Clock F = record c { freelist = free; draws = c.draws + 1 } in
      rw (e, acalloc)
        (
          queue-enqueue n c',
          queue_before-append-queue_after n.vtime c.queue,
          queue_before-DueBy n.vtime c.queue,
          queue_after-DueAfter n.vtime c.queue sorted,
          rw (queue-enqueue n c') (inserted-IsSorted n c.queue sorted),
        )
