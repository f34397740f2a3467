-- ===== src/Connection/Queue.antt =====
-- crates/openwire/src/connection/scheduler.rs: the data of the admission of requests, and its queue.
-- Addresses are any type with an equality test. The map of running requests is a function, 0 standing
-- for a missing key, as the source removes a key at 0. Wakers are numbers, and so are instants.
use openwire.Base.{
  ℕ, ◌+◌, ◌-◌, ◌≡◌, ◌↔◌, Bool, true, ◌&&◌, ◌||◌, List, [], ◌∷◌, ◌++◌, Option, none, some, leb, ltb,
  ◌==◌, if◌then◌else◌,
}

-- The equality of addresses.
pub record KeyEq (A : Type 0) : Type 0 where
  pub same : A → A → Bool
  pub same_iff : (a b : A) → (same a b ≡ true) ↔ (a ≡ b)

abbrev pub high_urgency_promotions_before_aging : ℕ
high_urgency_promotions_before_aging = 8

-- In milliseconds.
abbrev pub aging_wait : ℕ
aging_wait = 250

abbrev pub high_urgency_max : ℕ
high_urgency_max = 2

unfoldable pub from_urgency : ℕ → ℕ
from_urgency urgency = if ltb 7 urgency then 7 else urgency

abbrev pub is_high_urgency : ℕ → Bool
is_high_urgency urgency = leb urgency high_urgency_max

pub record Waiter (A : Type 0) : Type 0 where
  pub waker : Option ℕ
  pub address : A
  pub urgency : ℕ
  pub seq : ℕ
  pub enqueued_at : ℕ
  pub admitted : Bool

-- An entry of the ordered set: urgency, sequence number, key.
pub record Entry : Type 0 where
  pub urgency : ℕ
  pub seq : ℕ
  pub id : ℕ

pub record GlobalState (A : Type 0) : Type 0 where
  pub global_running : ℕ
  pub queued : ℕ
  pub next_seq : ℕ
  pub high_urgency_promotions : ℕ
  pub waiters : List (ℕ × Waiter A)
  pub ordered : List Entry
  pub fifo : List ℕ
  pub address_running : A → ℕ
  pub ready_waiters : List ℕ

pub record Limits : Type 0 where
  pub max_total : ℕ
  pub max_per_address : ℕ
  pub max_queued : ℕ

abbrev pub new_state : {A : Type 0} → GlobalState A
new_state = record {
  global_running = 0;
  queued = 0;
  next_seq = 0;
  high_urgency_promotions = 0;
  waiters = [];
  ordered = [];
  fifo = [];
  address_running = λ a. 0;
  ready_waiters = [];
}

-- The slab, by its keys.
module _ {V : Type 0} where
  unfoldable pub slab_get : ℕ → List (ℕ × V) → Option V
  slab_get id [] = none
  slab_get id ((k, v) ∷ slab) = let rest = slab_get id slab in if k == id then some v else rest

  unfoldable pub slab_set : ℕ → V → List (ℕ × V) → List (ℕ × V)
  slab_set id v [] = []
  slab_set id v ((k, w) ∷ slab) =
      let rest = slab_set id v slab in if k == id then (k, v) ∷ slab else (k, w) ∷ rest

  unfoldable pub slab_remove : ℕ → List (ℕ × V) → List (ℕ × V)
  slab_remove id [] = []
  slab_remove id ((k, v) ∷ slab) =
      let rest = slab_remove id slab in if k == id then slab else (k, v) ∷ rest

-- The order of the set: urgency, then sequence number, then key.
unfoldable pub entry_lt : Entry → Entry → Bool
entry_lt a b =
    ltb a.urgency b.urgency
    || (a.urgency == b.urgency && (ltb a.seq b.seq || (a.seq == b.seq && ltb a.id b.id)))

unfoldable pub entry_eq : Entry → Entry → Bool
entry_eq a b = a.urgency == b.urgency && (a.seq == b.seq && a.id == b.id)

unfoldable pub set_insert : Entry → List Entry → List Entry
unfolding entry_lt entry_eq
set_insert e [] = e ∷ []
set_insert e (x ∷ xs) =
    let rest = set_insert e xs in
    if entry_lt e x then e ∷ x ∷ xs else if entry_eq e x then x ∷ xs else x ∷ rest

unfoldable pub set_remove : Entry → List Entry → List Entry
unfolding entry_eq
set_remove e [] = []
set_remove e (x ∷ xs) = let rest = set_remove e xs in if entry_eq e x then xs else x ∷ rest

-- `position` and `remove`.
unfoldable pub remove_first : ℕ → List ℕ → List ℕ
remove_first id [] = []
remove_first id (x ∷ xs) = let rest = remove_first id xs in if x == id then xs else x ∷ rest

unfoldable pub enqueue_waiter : {A : Type 0} → Entry → GlobalState A → GlobalState A
unfolding set_insert
enqueue_waiter e g = record g {
  ordered = set_insert e g.ordered;
  fifo = g.fifo ++ (e.id ∷ []);
  queued = g.queued + 1;
}

unfoldable pub dequeue_waiter : {A : Type 0} → Entry → GlobalState A → GlobalState A
unfolding set_remove remove_first
dequeue_waiter e g = record g {
  ordered = set_remove e g.ordered;
  fifo = remove_first e.id g.fifo;
  queued = g.queued - 1;
}

pub data Poll (R : Type 0) : Type 0 where
  pending : Poll R
  ready : R → Poll R

-- The permit is the address that it was given for; a full queue refuses.
pub data Admission (A : Type 0) : Type 0 where
  permit : A → Admission A
  queue_full : Admission A

-- What a poll leaves: the state, the caller's waiter, the result, and the waker to wake.
pub record Polled (A : Type 0) : Type 0 where
  pub state : GlobalState A
  pub waiter_id : Option ℕ
  pub result : Poll (Admission A)
  pub promoted : Option ℕ
