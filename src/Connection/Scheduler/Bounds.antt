-- ===== src/Connection/Scheduler/Bounds.antt =====
-- The limits that every operation of the scheduler keeps.
use openwire.Base.{
  ℕ, ◌≤◌, ◌<◌, inl, inr, Option, none, arith, Bool-cases, Option-cases, leb, ltb, ltb→lt, leb→lt,
  ◌&&◌, not,
}
use openwire.Connection.Queue.{
  KeyEq, Waiter, GlobalState, Limits, slab_get, enqueue_waiter, dequeue_waiter,
}
use openwire.Connection.Scheduler.{
  select_waiter, try_promote, promote, promote_selected, bump_address_running, drop_address_running,
  has_address_capacity, has_global_capacity, poll_first, poll_waiting, take_admitted,
  after_promotion, enqueue, insert_waiter, queue_blocks_priority, wake_ready_waiters, release,
  cancel_waiter,
}
use openwire.Connection.Scheduler.Choice.{select_waiter-eligible, eligible-waiter}

module _ {A : Type 0} (keys : KeyEq A) (limits : Limits) where
  -- No more requests run than the limits allow, in all and for each address, and no more wait.
  pub record WithinLimits (g : GlobalState A) : Type 0 where
    pub total : g.global_running ≤ limits.max_total
    pub each : (a : A) → g.address_running a ≤ limits.max_per_address
    pub queue : g.queued ≤ limits.max_queued

  bump-WithinLimits :
      (a : A) (g : GlobalState A)
      → g.global_running < limits.max_total
      → g.address_running a < limits.max_per_address
      → WithinLimits g
      → WithinLimits (bump_address_running keys limits a g)
  unfolding bump_address_running
  bump-WithinLimits a g ht ha w = record {
    total = omega arith;
    each = λ b. ground (arith, w.each b);
    queue = w.queue;
  }

  drop-WithinLimits :
      (a : A) (g : GlobalState A)
      → WithinLimits g
      → WithinLimits (drop_address_running keys limits a g)
  unfolding drop_address_running
  drop-WithinLimits a g w = record {
    total = ground (arith, w.total);
    each = λ b. ground (arith, w.each b, w.each a);
    queue = w.queue;
  }

  promote-WithinLimits :
      (id : ℕ) (v : Waiter A) (g : GlobalState A)
      → g.global_running < limits.max_total
      → g.address_running v.address < limits.max_per_address
      → WithinLimits g
      → WithinLimits (promote keys limits id v g)
  unfolding promote dequeue_waiter bump_address_running
  promote-WithinLimits id v g ht ha w = record {
    total = omega arith;
    each = λ b. ground (arith, w.each b);
    queue = ground (arith, w.queue);
  }

  try_promote-WithinLimits :
      (now : ℕ) (g : GlobalState A)
      → WithinLimits g
      → WithinLimits (try_promote keys limits now g).0
  unfolding try_promote promote_selected
  try_promote-WithinLimits now g w = elim (Bool-cases (ltb g.global_running limits.max_total)) [
    | inr e ↦ rw e w
    | inl e ↦ elim (Option-cases (select_waiter keys limits now g)) [
      | inl f ↦ rw (e, f, promote_selected) w
      | inr (id, f) ↦
          let (v, hv, ha) =
            eligible-waiter keys limits g id (select_waiter-eligible keys limits now g id f) in
          rw (e, f, promote_selected, hv)
            (promote-WithinLimits id v g (ltb→lt g.global_running limits.max_total e) ha w)
    ]
  ]

  take_admitted-WithinLimits :
      (id : ℕ) (g : GlobalState A) (v : Waiter A) (o : Option ℕ)
      → WithinLimits g
      → WithinLimits (take_admitted keys limits id g v o).state
  unfolding take_admitted
  take_admitted-WithinLimits id g v o w = record { total = w.total; each = w.each; queue = w.queue }

  pub poll_waiting-WithinLimits :
      (waker id : ℕ) (g : GlobalState A)
      → WithinLimits g
      → WithinLimits (poll_waiting keys limits waker id g).state
  unfolding poll_waiting
  poll_waiting-WithinLimits waker id g w = elim (Option-cases (slab_get id g.waiters)) [
    | inl e ↦ rw (e, poll_waiting) w
    | inr (v, e) ↦ elim (Bool-cases v.admitted) [
      | inl f ↦ rw (e, f, poll_waiting) (take_admitted-WithinLimits id g v none w)
      | inr f ↦ rw (e, f, poll_waiting) (record { total = w.total; each = w.each; queue = w.queue })
    ]
  ]

  after_promotion-WithinLimits :
      (id : ℕ) (g : GlobalState A) (o : Option ℕ)
      → WithinLimits g
      → WithinLimits (after_promotion keys limits id (g, o)).state
  unfolding after_promotion
  after_promotion-WithinLimits id g o w = elim (Option-cases (slab_get id g.waiters)) [
    | inl e ↦ rw (e, after_promotion) w
    | inr (v, e) ↦ elim (Bool-cases v.admitted) [
      | inl f ↦ rw (e, f, after_promotion) (take_admitted-WithinLimits id g v none w)
      | inr f ↦ rw (e, f, after_promotion) w
    ]
  ]

  insert_waiter-WithinLimits :
      (waker now key : ℕ) (a : A) (urgency : ℕ) (g : GlobalState A)
      → g.queued < limits.max_queued
      → WithinLimits g
      → WithinLimits (insert_waiter keys limits waker now key a urgency g)
  unfolding insert_waiter enqueue_waiter
  insert_waiter-WithinLimits waker now key a urgency g h w = record {
    total = w.total;
    each = w.each;
    queue = omega arith;
  }

  enqueue-WithinLimits :
      (waker now key : ℕ) (a : A) (urgency : ℕ) (g : GlobalState A)
      → g.queued < limits.max_queued
      → WithinLimits g
      → WithinLimits (enqueue keys limits waker now key a urgency g).state
  unfolding enqueue
  enqueue-WithinLimits waker now key a urgency g h w =
      let q = insert_waiter keys limits waker now key a urgency g in
      let p = try_promote keys limits now q in
      after_promotion-WithinLimits key p.0 p.1
        (try_promote-WithinLimits now q (insert_waiter-WithinLimits waker now key a urgency g h w))

  pub poll_first-WithinLimits :
      (waker now key : ℕ) (a : A) (urgency : ℕ) (g : GlobalState A)
      → WithinLimits g
      → WithinLimits (poll_first keys limits waker now key a urgency g).state
  unfolding poll_first
  poll_first-WithinLimits waker now key a urgency g w =
      elim (Bool-cases (
        (has_global_capacity keys limits g && has_address_capacity keys limits a g)
        && not (queue_blocks_priority keys limits g urgency))) [
          | inl e ↦ rw e (bump-WithinLimits a g (ground arith) (ground arith) w)
          | inr e ↦ elim (Bool-cases (leb limits.max_queued g.queued)) [
            | inl f ↦ rw (e, f) w
            | inr f ↦
                rw (e, f)
                  (enqueue-WithinLimits waker now key a urgency g
                    (leb→lt limits.max_queued g.queued f) w)
          ]
        ]

  wake-WithinLimits :
      (g : GlobalState A) → WithinLimits g → WithinLimits (wake_ready_waiters keys limits g).0
  unfolding wake_ready_waiters
  wake-WithinLimits g w = ground (arith, w.total, w.each, w.queue)

  pub release-WithinLimits :
      (now : ℕ) (a : A) (g : GlobalState A)
      → WithinLimits g
      → WithinLimits (release keys limits now a g).0
  unfolding release
  release-WithinLimits now a g w =
      try_promote-WithinLimits now _ (wake-WithinLimits _ (drop-WithinLimits a g w))

  pub cancel_waiter-WithinLimits :
      (now id : ℕ) (g : GlobalState A)
      → WithinLimits g
      → WithinLimits (cancel_waiter keys limits now id g).0
  unfolding cancel_waiter dequeue_waiter
  cancel_waiter-WithinLimits now id g w = elim (Option-cases (slab_get id g.waiters)) [
    | inl e ↦ rw (e, cancel_waiter) w
    | inr (v, e) ↦ elim (Bool-cases v.admitted) [
      | inl f ↦
          rw (e, f, cancel_waiter)
            (release-WithinLimits now v.address _
              (record { total = w.total; each = w.each; queue = w.queue }))
      | inr f ↦
          rw (e, f, cancel_waiter)
            (record { total = w.total; each = w.each; queue = omega (arith, w.queue) })
    ]
  ]
