-- ===== src/Clock/Dispatch/Total.antt =====
-- `check_queue` returns, and leaves nothing due behind, for handlers that keep to a contract.
use sys.Base.{
  ◌+◌, refl, ℕ, zero, suc, ◌≤◌, ◌<◌, ◌≡◌, inl, inr, Bool-cases, List-cases, List, [], ◌∷◌, ltb,
  if◌then◌else◌, Outcome, Returns, Returns->>=, arith,
}
use sys.Clock.State.{Action, Clock, clock_vnow, cpu_stopcycling}
use sys.Clock.Schedule.{
  acalloc, acfree, queue_before, queue_after, next_runningto, clear_runningto, enqueue,
  schedule_event,
}
use sys.Clock.Schedule.Order.{
  DueFrom, DueAfter, IsSorted, inserted, inserted-IsSorted, queue-enqueue, new_action,
}
use sys.Clock.Dispatch.{check_queue_from, check_queue}

module _ {F : Type 0} where
  -- How many events of the queue are due at `t`.
  abbrev pub due_count : ℕ → List (Action F) → ℕ
  due_count t [] = 0
  due_count t (p ∷ q) = if ltb t p.vtime then due_count t q else suc (due_count t q)

  -- The contract of the handlers during one `check_queue` at the time `vnow`: from a state that
  -- satisfies `P` with a sorted queue, the handler of the first event, called with that event taken
  -- off the queue, returns; when the entry of the event is then freed, `P` holds again, the queue is
  -- sorted, and no more events are due at `vnow` than were left.
  pub record Handlers {W : Type 0} (call : F → ℕ → Clock F × W → Outcome (Clock F × W)) (vnow : ℕ)
      (P : Clock F × W → Type 0) : Type 0 where
    pub keeps :
        (ta : Action F) (q : List (Action F)) (c : Clock F) (w : W)
        → P (c, w)
        → c.queue ≡ ta ∷ q
        → IsSorted q
        → Returns (call ta.func ta.code (record c { queue = q }, w)) (λ (c', w').
          P (acfree ta.slot c', w')
          × IsSorted c'.queue
          × (due_count vnow c'.queue ≤ due_count vnow q))

  -- Putting an event into the queue leaves the pool and the time as they are.
  enqueue-rest :
      (n : Action F) (c : Clock F)
      → ((enqueue n c).freelist ≡ c.freelist) × (clock_vnow (enqueue n c) ≡ clock_vnow c)
  unfolding enqueue cpu_stopcycling
  enqueue-rest n c = elim (Bool-cases (next_runningto (queue_after n.vtime c.queue))) [
    | inl e ↦ rw e (refl, refl)
    | inr e ↦ rw e (refl, refl)
  ]

  due_count-inserted :
      (t : ℕ) (n : Action F) (q : List (Action F))
      → t < n.vtime
      → due_count t (inserted n q) ≡ due_count t q
  unfolding queue_before queue_after clear_runningto
  due_count-inserted t n [] later = ground (arith, later)
  due_count-inserted t n (a ∷ q) later = elim (Bool-cases (ltb n.vtime a.vtime)) [
    | inl e ↦ rw e (ground (arith, later))
    | inr e ↦ rw e (ground (arith, due_count-inserted t n q later))
  ]

  -- An event that is scheduled for a time after `t` leaves as many events due at `t` as before, and
  -- takes one entry from the pool.
  pub schedule_event-due_count :
      (jitter : ℕ → ℕ → ℕ) (nsecs code : ℕ) (func : F) (c : Clock F) (s : ℕ) (free : List ℕ) (t : ℕ)
      → c.freelist ≡ s ∷ free
      → IsSorted c.queue
      → t < (new_action jitter nsecs code func s c).vtime
      → Returns (schedule_event jitter nsecs code func c) (λ c'.
        (c'.freelist ≡ free)
        × (clock_vnow c' ≡ clock_vnow c)
        × IsSorted c'.queue
        × (due_count t c'.queue ≡ due_count t c.queue))
  unfolding schedule_event acalloc
  schedule_event-due_count jitter nsecs code func c s free t e sorted later =
      let n = new_action jitter nsecs code func s c in
      let c' : Clock F = record c { freelist = free; draws = c.draws + 1 } in
      let (pool, now) = enqueue-rest n c' in
      rw e (
        pool,
        now,
        rw (queue-enqueue n c') (inserted-IsSorted n c.queue sorted),
        rw (queue-enqueue n c') (due_count-inserted t n c.queue later),
      )

  DueFrom-DueAfter : (s t : ℕ) (q : List (Action F)) → t < s → DueFrom s q → DueAfter t q
  DueFrom-DueAfter s t [] h d = tt
  DueFrom-DueAfter s t (p ∷ q) h d = (omega arith, DueFrom-DueAfter s t q h d.1)

module _ {F W : Type 0} (call : F → ℕ → Clock F × W → Outcome (Clock F × W)) (vnow : ℕ)
    (P : Clock F × W → Type 0) (h : Handlers call vnow P) where
  check_queue_from-total :
      (fuel : ℕ) (c : Clock F) (w : W)
      → P (c, w)
      → IsSorted c.queue
      → due_count vnow c.queue < fuel
      → Returns
          (check_queue_from call vnow fuel (c, w))
          (λ s. P s × IsSorted s.0.queue × DueAfter vnow s.0.queue)
  unfolding check_queue_from acfree
  check_queue_from-total zero c w p sorted enough = absurd (omega arith)
  check_queue_from-total (suc fuel) c w p sorted enough = elim (List-cases c.queue) [
    | inl e ↦ rw e (p, rw e tt, rw e tt)
    | inr (ta, q, e) ↦
        let sorted' : IsSorted (ta ∷ q) = rw e at sorted in
        let enough' : due_count vnow (ta ∷ q) < suc fuel = rw e at enough in
        elim (Bool-cases (ltb vnow ta.vtime)) [
          | inl later ↦
              rw (e, later)
                (
                  p,
                  rw e sorted',
                  rw e (ground arith, DueFrom-DueAfter ta.vtime vnow q (ground arith) sorted'.0),
                )
          | inr due ↦
              rw (e, due)
                (Returns->>= (call ta.func ta.code (record c { queue = q }, w)) _ _ _
                  (h.keeps ta q c w p e sorted'.1)
                  (λ (c', w') (p', s', fewer).
                    check_queue_from-total fuel (acfree ta.slot c') w' p' s' (
                      let below : suc (due_count vnow q) < suc fuel = rw due at enough' in
                      omega arith)))
        ]
  ]

  -- For handlers that keep to the contract, from a sorted queue and with more fuel than there are
  -- events due, `check_queue` returns, with a sorted queue in which every event is due later than
  -- the time at which it began.
  pub check_queue-total :
      (fuel : ℕ) (c : Clock F) (w : W)
      → clock_vnow c ≡ vnow
      → P (c, w)
      → IsSorted c.queue
      → due_count vnow c.queue < fuel
      → Returns
          (check_queue call fuel (c, w))
          (λ s. P s × IsSorted s.0.queue × DueAfter vnow s.0.queue)
  unfolding check_queue
  check_queue-total fuel c w e p sorted enough =
      rw e (check_queue_from-total fuel c w p sorted enough)
