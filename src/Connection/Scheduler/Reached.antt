-- ===== src/Connection/Scheduler/Reached.antt =====
-- The histories of the scheduler (crates/openwire/src/connection/scheduler.rs), with the permits that
-- the requests hold, and what they keep.
use openwire.Base.{
  sym, Bool, if◌then◌else◌, ℕ, ◌+◌, ◌≤◌, ◌≡◌, refl, true, false, List, [], ◌∷◌, ◌++◌, Option, none,
  some, arith, Bool-cases, Option-cases, inl, inr, ltb, leb, ◌&&◌, not,
}
use openwire.Connection.Queue.{
  KeyEq, Waiter, GlobalState, Limits, new_state, slab_get, slab_remove, enqueue_waiter,
  dequeue_waiter,
}
use openwire.Connection.Scheduler.{
  select_waiter, try_promote, promote, promote_selected, bump_address_running, drop_address_running,
  has_address_capacity, has_global_capacity, poll_acquire, poll_first, poll_waiting, take_admitted,
  after_promotion, enqueue, insert_waiter, queue_blocks_priority, poll_ready, wake_ready_waiters,
  release, cancel_waiter,
}
use openwire.Connection.Scheduler.Choice.{select_waiter-eligible, eligible-waiter}
use openwire.Connection.Scheduler.Bounds.{
  WithinLimits, poll_waiting-WithinLimits, poll_first-WithinLimits, release-WithinLimits,
  cancel_waiter-WithinLimits,
}
use openwire.Connection.Scheduler.Permits.{
  count, count-append_one, is_admitted, running, with_permit, count-slab_set, count-slab_remove,
  count-slab_same, IsCounted, Counted, keeps, counts_up, counts_down,
}

module _ {A : Type 0} (keys : KeyEq A) (limits : Limits) where
  promote-Counted :
      (held : List A) (id : ℕ) (v : Waiter A) (g : GlobalState A)
      → Counted keys limits held g
      → Counted keys limits held (promote keys limits id v g)
  unfolding promote dequeue_waiter bump_address_running
  promote-Counted held id v g k =
      counts_up keys limits held held g.waiters _ g v.address
        (λ p. omega (
          arith,
          count-slab_set p id (record v { admitted = true; waker = none }) v g.waiters refl,
        ))
        k

  try_promote-Counted :
      (held : List A) (now : ℕ) (g : GlobalState A)
      → Counted keys limits held g
      → Counted keys limits held (try_promote keys limits now g).0
  unfolding try_promote promote_selected
  try_promote-Counted held now g k = elim (Bool-cases (ltb g.global_running limits.max_total)) [
    | inr e ↦ rw e k
    | inl e ↦ elim (Option-cases (select_waiter keys limits now g)) [
      | inl f ↦ rw (e, f, promote_selected) k
      | inr (id, f) ↦
          let (v, hv, ha) =
            eligible-waiter keys limits g id (select_waiter-eligible keys limits now g id f) in
          rw (e, f, promote_selected, hv) (promote-Counted held id v g k)
    ]
  ]

  -- The permit goes from the slab to the caller.
  take_admitted-Counted :
      (held : List A) (id : ℕ) (g : GlobalState A) (v : Waiter A) (o : Option ℕ)
      → slab_get id g.waiters ≡ some v
      → v.admitted ≡ true
      → Counted keys limits held g
      → let p = take_admitted keys limits id g v o in
        Counted keys limits (with_permit p.result held) p.state
  unfolding take_admitted count
  take_admitted-Counted held id g v o e m k =
      keeps keys limits held (v.address ∷ held) g.waiters (slab_remove id g.waiters)
        g.global_running g.address_running
        (λ p. ground (arith, count-slab_remove p id v g.waiters e)) k

  poll_waiting-Counted :
      (held : List A) (waker id : ℕ) (g : GlobalState A)
      → Counted keys limits held g
      → let p = poll_waiting keys limits waker id g in
        Counted keys limits (with_permit p.result held) p.state
  unfolding poll_waiting
  poll_waiting-Counted held waker id g k = elim (Option-cases (slab_get id g.waiters)) [
    | inl e ↦ rw (e, poll_waiting) k
    | inr (v, e) ↦ elim (Bool-cases v.admitted) [
      | inl f ↦ rw (e, f, poll_waiting) (take_admitted-Counted held id g v none e f k)
      | inr f ↦
          rw (e, f, poll_waiting)
            (keeps keys limits held held g.waiters _ g.global_running g.address_running
              (λ p. omega (
                arith,
                count-slab_same p id (record v { waker = some waker; admitted = false }) v g.waiters
                    e refl (sym f),
              ))
              k)
    ]
  ]

  after_promotion-Counted :
      (held : List A) (id : ℕ) (g : GlobalState A) (o : Option ℕ)
      → Counted keys limits held g
      → let p = after_promotion keys limits id (g, o) in
        Counted keys limits (with_permit p.result held) p.state
  unfolding after_promotion
  after_promotion-Counted held id g o k = elim (Option-cases (slab_get id g.waiters)) [
    | inl e ↦ rw (e, after_promotion) k
    | inr (v, e) ↦ elim (Bool-cases v.admitted) [
      | inl f ↦ rw (e, f, after_promotion) (take_admitted-Counted held id g v none e f k)
      | inr f ↦ rw (e, f, after_promotion) k
    ]
  ]

  enqueue-Counted :
      (held : List A) (waker now key : ℕ) (a : A) (urgency : ℕ) (g : GlobalState A)
      → Counted keys limits held g
      → let p = enqueue keys limits waker now key a urgency g in
        Counted keys limits (with_permit p.result held) p.state
  unfolding enqueue insert_waiter enqueue_waiter count
  enqueue-Counted held waker now key a urgency g k =
      let q = insert_waiter keys limits waker now key a urgency g in
      let p = try_promote keys limits now q in
      after_promotion-Counted held key p.0 p.1 (
        try_promote-Counted held now q (
          keeps keys limits held held g.waiters q.waiters g.global_running g.address_running
            (λ p. omega arith) k))

  poll_first-Counted :
      (held : List A) (waker now key : ℕ) (a : A) (urgency : ℕ) (g : GlobalState A)
      → Counted keys limits held g
      → let p = poll_first keys limits waker now key a urgency g in
        Counted keys limits (with_permit p.result held) p.state
  unfolding poll_first bump_address_running count
  poll_first-Counted held waker now key a urgency g k =
      elim (Bool-cases (
        (has_global_capacity keys limits g && has_address_capacity keys limits a g)
        && not (queue_blocks_priority keys limits g urgency))) [
          | inl e ↦
              rw e
                (counts_up keys limits held (a ∷ held) g.waiters g.waiters g a (λ p. omega arith) k)
          | inr e ↦ elim (Bool-cases (leb limits.max_queued g.queued)) [
            | inl f ↦ rw (e, f) k
            | inr f ↦ rw (e, f) (enqueue-Counted held waker now key a urgency g k)
          ]
        ]

  wake-Counted :
      (held : List A) (g : GlobalState A)
      → Counted keys limits held g
      → Counted keys limits held (wake_ready_waiters keys limits g).0
  unfolding wake_ready_waiters
  wake-Counted held g k = ground (arith, k.in_all, k.at_each)

  release-Counted :
      (held fewer : List A) (waiters : List (ℕ × Waiter A)) (now : ℕ) (a : A) (g : GlobalState A)
      → ((p : A → Bool)
          → count p held + count (is_admitted p) waiters
            ≡ (if p a then 1 else 0) + (count p fewer + count (is_admitted p) g.waiters))
      → IsCounted keys limits held waiters g.global_running g.address_running
      → Counted keys limits fewer (release keys limits now a g).0
  unfolding release drop_address_running
  release-Counted held fewer waiters now a g h k =
      try_promote-Counted fewer now _
        (wake-Counted fewer _ (counts_down keys limits held fewer waiters g.waiters g a h k))

  cancel_waiter-Counted :
      (held : List A) (now id : ℕ) (g : GlobalState A)
      → Counted keys limits held g
      → Counted keys limits held (cancel_waiter keys limits now id g).0
  unfolding cancel_waiter dequeue_waiter
  cancel_waiter-Counted held now id g k = elim (Option-cases (slab_get id g.waiters)) [
    | inl e ↦ rw (e, cancel_waiter) k
    | inr (v, e) ↦ elim (Bool-cases v.admitted) [
      | inl f ↦
          rw (e, f, cancel_waiter)
            (release-Counted held held g.waiters now v.address
              (record g { waiters = slab_remove id g.waiters })
              (λ p. ground (arith, count-slab_remove p id v g.waiters e)) k)
      | inr f ↦
          rw (e, f, cancel_waiter)
            (keeps keys limits held held g.waiters (slab_remove id g.waiters) g.global_running
              g.address_running (λ p. omega (arith, count-slab_remove p id v g.waiters e)) k)
    ]
  ]

  -- The states that the scheduler reaches with the permits that are then held: one step for each
  -- entry point that takes the lock. A poll may give the caller a permit, and a permit is released by
  -- its holder, once.
  pub data Reachable : List A → GlobalState A → Type 0 where
    starts : Reachable [] new_state
    polls :
        {held : List A} {g : GlobalState A} (waker now key : ℕ) (a : A) (urgency : ℕ)
        (waiter : Option ℕ)
        → Reachable held g
        → Reachable
            (with_permit (poll_acquire keys limits waker now key a urgency waiter g).result held)
            (poll_acquire keys limits waker now key a urgency waiter g).state
    asks :
        {held : List A} {g : GlobalState A} (waker : ℕ)
        → Reachable held g
        → Reachable held (poll_ready keys limits waker g).0
    releases :
        {g : GlobalState A} (now : ℕ) (a : A) (before after : List A)
        → Reachable (before ++ (a ∷ after)) g
        → Reachable (before ++ after) (release keys limits now a g).0
    cancels :
        {held : List A} {g : GlobalState A} (now id : ℕ)
        → Reachable held g
        → Reachable held (cancel_waiter keys limits now id g).0

  Reachable-kept :
      {held : List A} {g : GlobalState A}
      → Reachable held g
      → WithinLimits keys limits g × Counted keys limits held g
  unfolding poll_acquire poll_ready count
  Reachable-kept starts = (
    record { total = omega arith; each = λ a. omega arith; queue = omega arith },
    record { in_all = omega arith; at_each = λ a. omega arith },
  )
  Reachable-kept (polls {held} {g} waker now key a urgency (some id) r) =
      let (w, k) = Reachable-kept r in
      (poll_waiting-WithinLimits keys limits waker id g w, poll_waiting-Counted held waker id g k)
  Reachable-kept (polls {held} {g} waker now key a urgency none r) =
      let (w, k) = Reachable-kept r in
      (
        poll_first-WithinLimits keys limits waker now key a urgency g w,
        poll_first-Counted held waker now key a urgency g k,
      )
  Reachable-kept (asks waker r) =
      let (w, k) = Reachable-kept r in
      (ground (arith, w.total, w.each, w.queue), ground (arith, k.in_all, k.at_each))
  Reachable-kept (releases {g} now a before after r) =
      let (w, k) = Reachable-kept r in
      (
        release-WithinLimits keys limits now a g w,
        release-Counted (before ++ (a ∷ after)) (before ++ after) g.waiters now a g
            (λ p. omega (arith, count-append_one p before after a)) k,
      )
  Reachable-kept (cancels {held} {g} now id r) =
      let (w, k) = Reachable-kept r in
      (cancel_waiter-WithinLimits keys limits now id g w, cancel_waiter-Counted held now id g k)

  -- Whatever the requests do, in any order, from the empty scheduler, if a permit is released only by
  -- its holder and once: the requests that hold a permit and those that were admitted and have not
  -- fetched theirs are together no more than the limit, in all and for each address; the counters are
  -- within the same limits, and the count of the queue is within its own.
  pub Reachable-WithinLimits :
      {held : List A} {g : GlobalState A}
      → Reachable held g
      → (running (λ _. true) held g ≤ limits.max_total)
        × ((a : A) → running (keys.same a) held g ≤ limits.max_per_address)
        × WithinLimits keys limits g
  Reachable-WithinLimits r =
      let (w, k) = Reachable-kept r in
      (omega (arith, k.in_all, w.total), λ a. omega (arith, k.at_each a, w.each a), w)
