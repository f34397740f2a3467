-- ===== src/Connection/Scheduler/Choice.antt =====
-- crates/openwire/src/connection/scheduler.rs: which waiter `select_waiter` takes.
use openwire.Base.{
  ℕ, ◌-◌, ◌≤◌, ◌<◌, ◌≡◌, inl, inr, true, some, find, find-holds, Option-cases, arith,
}
use openwire.Connection.Queue.{KeyEq, Waiter, GlobalState, Limits, slab_get, aging_wait}
use openwire.Connection.Scheduler.{
  waiter_is_eligible, first_ordered, first_queued, select_waiter, choose, is_aged,
}

module _ {A : Type 0} (keys : KeyEq A) (limits : Limits) where
  first_ordered-eligible :
      (g : GlobalState A) (id : ℕ)
      → first_ordered keys limits g ≡ some id
      → waiter_is_eligible keys limits g id ≡ true
  unfolding first_ordered
  first_ordered-eligible g id h =
      elim (Option-cases (find (λ e. waiter_is_eligible keys limits g e.id) g.ordered)) [
        | inl e ↦ ground arith
        | inr (x, e) ↦
            ground (arith, find-holds (λ y. waiter_is_eligible keys limits g y.id) g.ordered x e)
      ]

  first_queued-eligible :
      (g : GlobalState A) (id : ℕ)
      → first_queued keys limits g ≡ some id
      → waiter_is_eligible keys limits g id ≡ true
  unfolding first_queued
  first_queued-eligible g id h = find-holds (waiter_is_eligible keys limits g) g.fifo id h

  -- An eligible key names a waiter, whose address has a slot.
  pub eligible-waiter :
      (g : GlobalState A) (id : ℕ)
      → waiter_is_eligible keys limits g id ≡ true
      → (w : Waiter A) × (slab_get id g.waiters ≡ some w)
        × (g.address_running w.address < limits.max_per_address)
  unfolding waiter_is_eligible
  eligible-waiter g id h = elim (Option-cases (slab_get id g.waiters)) [
    | inl e ↦ ground arith
    | inr (w, e) ↦ (w, e, ground arith)
  ]

  choose-eligible :
      (now : ℕ) (g : GlobalState A) (best oldest id : ℕ)
      → waiter_is_eligible keys limits g best ≡ true
      → waiter_is_eligible keys limits g oldest ≡ true
      → choose keys limits now g best oldest ≡ some id
      → waiter_is_eligible keys limits g id ≡ true
  unfolding choose
  choose-eligible now g best oldest id hb ho h = ground arith

  pub select_waiter-eligible :
      (now : ℕ) (g : GlobalState A) (id : ℕ)
      → select_waiter keys limits now g ≡ some id
      → waiter_is_eligible keys limits g id ≡ true
  unfolding select_waiter
  select_waiter-eligible now g id h = elim (Option-cases (first_ordered keys limits g)) [
    | inl e ↦ ground arith
    | inr (best, e) ↦ elim (Option-cases (first_queued keys limits g)) [
      | inl f ↦ ground arith
      | inr (oldest, f) ↦
          choose-eligible now g best oldest id (first_ordered-eligible g best e)
            (first_queued-eligible g oldest f) ground arith
    ]
  ]

  -- Where the set has an eligible waiter, the oldest eligible one in the queue, once it has waited for
  -- the aging time, is the one selected, whatever the urgency of the others.
  pub select_waiter-aged :
      (now : ℕ) (g : GlobalState A) (best oldest : ℕ) (o : Waiter A)
      → first_ordered keys limits g ≡ some best
      → first_queued keys limits g ≡ some oldest
      → slab_get oldest g.waiters ≡ some o
      → aging_wait ≤ now - o.enqueued_at
      → select_waiter keys limits now g ≡ some oldest
  unfolding select_waiter choose is_aged
  select_waiter-aged now g best oldest o hb ho hw ha =
      ground (arith, eligible-waiter g best (first_ordered-eligible g best hb))
