-- ===== src/Connection/Scheduler.antt =====
-- crates/openwire/src/connection/scheduler.rs: the operations of the scheduler. Each function that
-- takes the lock is one step on `GlobalState`. The slab's choice of a key for a new waiter is an
-- argument, and so is the current time.
pub mod Permits
pub mod Bounds
pub mod Reached
pub mod Choice
use openwire.Base.{
  ℕ, ◌+◌, ◌-◌, ◌%◌, ◌^◌, Bool, true, false, not, ◌&&◌, ◌||◌, List, [], ◌∷◌, ◌++◌, Option, none,
  some, leb, ltb, ◌==◌, if◌then◌else◌, any, find, min,
}
use openwire.Connection.Queue.{
  KeyEq, high_urgency_promotions_before_aging, aging_wait, is_high_urgency, Waiter, Entry,
  GlobalState, Limits, slab_get, slab_set, slab_remove, enqueue_waiter, dequeue_waiter, Poll,
  pending, ready, Admission, permit, queue_full, Polled,
}

module _ {A : Type 0} (keys : KeyEq A) (limits : Limits) where
  open keys use {same}
  open limits use {max_total, max_per_address, max_queued}

  abbrev pub set_running : A → ℕ → (A → ℕ) → A → ℕ
  set_running a n f b = if same a b then n else f b

  unfoldable pub bump_address_running : A → GlobalState A → GlobalState A
  bump_address_running a g = record g {
    address_running = set_running a (g.address_running a + 1) g.address_running;
    global_running = g.global_running + 1;
  }

  -- A missing key changes the global count alone; `saturating_sub` stops at 0, as `-` does.
  unfoldable pub drop_address_running : A → GlobalState A → GlobalState A
  drop_address_running a g = record g {
    address_running = set_running a (g.address_running a - 1) g.address_running;
    global_running = g.global_running - 1;
  }

  abbrev pub has_global_capacity : GlobalState A → Bool
  has_global_capacity g = ltb g.global_running max_total

  abbrev pub has_address_capacity : A → GlobalState A → Bool
  has_address_capacity a g = ltb (g.address_running a) max_per_address

  unfoldable pub waiter_is_eligible : GlobalState A → ℕ → Bool
  unfolding slab_get
  waiter_is_eligible g id = elim (slab_get id g.waiters) [
    | none ↦ false
    | some w ↦ has_address_capacity w.address g
  ]

  unfoldable pub queue_blocks_priority : GlobalState A → ℕ → Bool
  unfolding waiter_is_eligible
  queue_blocks_priority g urgency =
      any (λ e. leb e.urgency urgency && waiter_is_eligible g e.id) g.ordered

  unfoldable pub first_ordered : GlobalState A → Option ℕ
  unfolding waiter_is_eligible
  first_ordered g = elim (find (λ e. waiter_is_eligible g e.id) g.ordered) [
    | none ↦ none
    | some e ↦ some e.id
  ]

  unfoldable pub first_queued : GlobalState A → Option ℕ
  unfolding waiter_is_eligible
  first_queued g = find (waiter_is_eligible g) g.fifo

  -- The oldest goes before the best if it has waited long, or if enough urgent ones went first.
  unfoldable pub is_aged : ℕ → GlobalState A → Waiter A → Waiter A → Bool
  is_aged now g oldest best =
      leb aging_wait (now - oldest.enqueued_at)
      || (leb high_urgency_promotions_before_aging g.high_urgency_promotions
          && ltb best.urgency oldest.urgency)

  -- The indexing `waiters[id]` would panic on a missing key: `none`.
  unfoldable pub choose : ℕ → GlobalState A → ℕ → ℕ → Option ℕ
  unfolding slab_get is_aged
  choose now g best oldest =
      if oldest == best then some best else elim (slab_get oldest g.waiters) [
        | none ↦ none
        | some o ↦ elim (slab_get best g.waiters) [
          | none ↦ none
          | some b ↦ if is_aged now g o b then some oldest else some best
        ]
      ]

  unfoldable pub select_waiter : ℕ → GlobalState A → Option ℕ
  unfolding choose first_ordered first_queued
  select_waiter now g = elim (first_ordered g) [
    | none ↦ none
    | some best ↦ elim (first_queued g) [ none ↦ none | some oldest ↦ choose now g best oldest ]
  ]

  -- The waiter leaves the queue, is marked, and takes a slot.
  unfoldable pub promote : ℕ → Waiter A → GlobalState A → GlobalState A
  unfolding dequeue_waiter slab_set bump_address_running
  promote id w g =
      let e : Entry = record { urgency = w.urgency; seq = w.seq; id = id } in
      let q = dequeue_waiter e g in
      let r = record q {
        waiters = slab_set id (record w { admitted = true; waker = none }) q.waiters;
        high_urgency_promotions =
            if is_high_urgency w.urgency
            then min (q.high_urgency_promotions + 1) (2 ^ 32 - 1)
            else 0;
      } in
      bump_address_running w.address r

  unfoldable pub promote_selected : GlobalState A → Option ℕ → GlobalState A × Option ℕ
  unfolding promote slab_get
  promote_selected g none = (g, none)
  promote_selected g (some id) = elim (slab_get id g.waiters) [
    | none ↦ (g, none)
    | some w ↦ (promote id w g, w.waker)
  ]

  unfoldable pub try_promote : ℕ → GlobalState A → GlobalState A × Option ℕ
  unfolding promote_selected select_waiter
  try_promote now g =
      if has_global_capacity g then promote_selected g (select_waiter now g) else (g, none)

  unfoldable pub wake_ready_waiters : GlobalState A → GlobalState A × Option ℕ
  wake_ready_waiters g =
      if has_global_capacity g
      then elim g.ready_waiters [
        | [] ↦ (g, none)
        | w ∷ ws ↦ (record g { ready_waiters = ws }, some w)
      ]
      else (g, none)

  -- A waiter that was admitted is taken out and its permit handed over.
  unfoldable pub take_admitted : ℕ → GlobalState A → Waiter A → Option ℕ → Polled A
  unfolding slab_remove
  take_admitted id g w promoted = record {
    state = record g { waiters = slab_remove id g.waiters };
    waiter_id = none;
    result = ready (permit w.address);
    promoted = promoted;
  }

  unfoldable pub poll_waiting : ℕ → ℕ → GlobalState A → Polled A
  unfolding take_admitted slab_get slab_set
  poll_waiting waker id g = elim (slab_get id g.waiters) [
    | none ↦ record { state = g; waiter_id = some id; result = pending; promoted = none }
    | some w ↦ if w.admitted then take_admitted id g w none else record {
      state = record g { waiters = slab_set id (record w { waker = some waker }) g.waiters };
      waiter_id = some id;
      result = pending;
      promoted = none;
    }
  ]

  unfoldable pub new_waiter : ℕ → ℕ → A → ℕ → ℕ → Waiter A
  new_waiter waker now a urgency seq = record {
    waker = some waker;
    address = a;
    urgency = urgency;
    seq = seq;
    enqueued_at = now;
    admitted = false;
  }

  -- A promotion may have admitted the waiter that has just been queued; its waker is then dropped.
  unfoldable pub after_promotion : ℕ → GlobalState A × Option ℕ → Polled A
  unfolding take_admitted slab_get
  after_promotion id (g, promoted) = elim (slab_get id g.waiters) [
    | none ↦ record { state = g; waiter_id = some id; result = pending; promoted = promoted }
    | some w ↦
        if w.admitted
        then take_admitted id g w none
        else record { state = g; waiter_id = some id; result = pending; promoted = promoted }
  ]

  -- The new waiter goes into the slab and into the queue.
  unfoldable pub insert_waiter : ℕ → ℕ → ℕ → A → ℕ → GlobalState A → GlobalState A
  unfolding enqueue_waiter new_waiter
  insert_waiter waker now key a urgency g =
      let seq = g.next_seq in
      let h = record g {
        next_seq = (seq + 1) % 2 ^ 64;
        waiters = (key, new_waiter waker now a urgency seq) ∷ g.waiters;
      } in
      enqueue_waiter (record { urgency = urgency; seq = seq; id = key }) h

  unfoldable pub enqueue : ℕ → ℕ → ℕ → A → ℕ → GlobalState A → Polled A
  unfolding insert_waiter try_promote after_promotion
  enqueue waker now key a urgency g =
      after_promotion key (try_promote now (insert_waiter waker now key a urgency g))

  -- A first poll: a slot at once, a refusal, or a place in the queue.
  unfoldable pub poll_first : ℕ → ℕ → ℕ → A → ℕ → GlobalState A → Polled A
  unfolding enqueue bump_address_running queue_blocks_priority
  poll_first waker now key a urgency g =
      if (has_global_capacity g && has_address_capacity a g)
        && not (queue_blocks_priority g urgency)
      then record {
        state = bump_address_running a g;
        waiter_id = none;
        result = ready (permit a);
        promoted = none;
      }
      else if leb max_queued g.queued
      then record { state = g; waiter_id = none; result = ready queue_full; promoted = none }
      else enqueue waker now key a urgency g

  unfoldable pub poll_acquire : ℕ → ℕ → ℕ → A → ℕ → Option ℕ → GlobalState A → Polled A
  unfolding poll_first poll_waiting
  poll_acquire waker now key a urgency (some id) g = poll_waiting waker id g
  poll_acquire waker now key a urgency none g = poll_first waker now key a urgency g

  unfoldable pub poll_ready : ℕ → GlobalState A → GlobalState A × Poll (Unit {0})
  poll_ready waker g =
      if has_global_capacity g
      then (g, ready tt)
      else if any (λ w. w == waker) g.ready_waiters
      then (g, pending)
      else (record g { ready_waiters = g.ready_waiters ++ (waker ∷ []) }, pending)

  -- The slot is given back, one caller of `poll_ready` is woken, and a waiter promoted.
  unfoldable pub release : ℕ → A → GlobalState A → GlobalState A × Option ℕ × Option ℕ
  unfolding drop_address_running wake_ready_waiters try_promote
  release now a g =
      let (h, woken) = wake_ready_waiters (drop_address_running a g) in
      let (k, promoted) = try_promote now h in (k, woken, promoted)

  unfoldable pub cancel_waiter : ℕ → ℕ → GlobalState A → GlobalState A × Option ℕ × Option ℕ
  unfolding release slab_get slab_remove dequeue_waiter
  cancel_waiter now id g = elim (slab_get id g.waiters) [
    | none ↦ (g, none, none)
    | some w ↦
        let h = record g { waiters = slab_remove id g.waiters } in
        if w.admitted
        then release now w.address h
        else (dequeue_waiter (record { urgency = w.urgency; seq = w.seq; id = id }) h, none, none)
  ]
