-- ===== src/Connection/Limits.antt =====
-- crates/openwire/src/connection/limits.rs: the permits for new connections, and which listeners a
-- release wakes. A semaphore is the number of its free permits and of the permits that hold it; the map
-- of semaphores is a function, whatever shard an address falls in. An attempt and the drop of a permit
-- are each one step.
pub mod Sets
pub mod Accounts
pub mod Examples
use openwire.Base.{
  ℕ, ◌+◌, ◌-◌, ◌^◌, Bool, true, false, not, ◌&&◌, ◌||◌, List, [], ◌∷◌, ◌++◌, Option, none, some,
  any, leb, ltb, ◌==◌, if◌then◌else◌, retain,
}
use openwire.Connection.Planning.{UriScheme, ProtocolPolicy, Address}
use openwire.Connection.Equality.{address_eq}
use openwire.Connection.Pool.Coalescing.{verified_server_name_matches}
use openwire.Connection.Queue.{KeyEq, Limits}

-- `usize::MAX` stands for no limit. A limit above the greatest number of permits of tokio's semaphore, at
-- which its constructor panics, is not modelled.
abbrev pub usize_max : ℕ
usize_max = 2 ^ 64 - 1

unfoldable pub limit_semaphore : ℕ → Option ℕ
limit_semaphore limit = if limit == usize_max then none else some limit

-- `RequestAdmissionLimiter::new`: the limits of its scheduler, if it has one.
unfoldable pub admission_limits : ℕ → ℕ → ℕ → Option Limits
admission_limits max_total max_per_address max_queued =
    if (max_total == usize_max) && ((max_per_address == usize_max) && (max_queued == usize_max))
    then none
    else some
        record { max_total = max_total; max_per_address = max_per_address; max_queued = max_queued }

pub record AddressSemaphore : Type 0 where
  pub available : ℕ
  pub holders : ℕ

pub record AddressSemaphoreSet (A : Type 0) : Type 0 where
  pub limit : ℕ
  pub semaphores : A → Option AddressSemaphore

pub record ConnectionLimiter (A : Type 0) : Type 0 where
  pub global : Option ℕ
  pub per_address : Option (AddressSemaphoreSet A)

unfoldable pub address_semaphore_set : {A : Type 0} → ℕ → Option (AddressSemaphoreSet A)
address_semaphore_set limit =
    if limit == usize_max then none else some record { limit = limit; semaphores = λ a. none }

-- `ConnectionLimiter::new`.
unfoldable pub connection_limiter : {A : Type 0} → ℕ → ℕ → ConnectionLimiter A
unfolding limit_semaphore address_semaphore_set
connection_limiter max_total max_per_address = record {
  global = limit_semaphore max_total;
  per_address = address_semaphore_set max_per_address;
}

abbrev pub is_free : Option ℕ → Bool
is_free none = true
is_free (some available) = ltb 0 available

abbrev pub take_one : Option ℕ → Option ℕ
take_one none = none
take_one (some available) = some (available - 1)

abbrev pub give_one : Option ℕ → Option ℕ
give_one none = none
give_one (some available) = some (available + 1)

abbrev pub or_new : ℕ → Option AddressSemaphore → AddressSemaphore
or_new limit none = record { available = limit; holders = 0 }
or_new limit (some s) = s

module _ {A : Type 0} (keys : KeyEq A) where
  open keys use {same}

  abbrev pub set_semaphore :
      A → Option AddressSemaphore → AddressSemaphoreSet A → AddressSemaphoreSet A
  set_semaphore a s set = record set { semaphores = λ b. if same a b then s else set.semaphores b }

  -- The semaphore that `semaphore_for` finds or inserts.
  abbrev pub semaphore_for : A → AddressSemaphoreSet A → AddressSemaphore
  semaphore_for a set = or_new set.limit (set.semaphores a)

  -- `AddressSemaphoreSet::try_acquire`: the semaphore stays in the map when it has no permit.
  unfoldable pub try_acquire_address : A → AddressSemaphoreSet A → AddressSemaphoreSet A × Bool
  try_acquire_address a set =
      let s = semaphore_for a set in
      if ltb 0 s.available
      then (
        set_semaphore a (some record { available = s.available - 1; holders = s.holders + 1 }) set,
        true,
      )
      else (set_semaphore a (some s) set, false)

  -- The drop of an `AddressSemaphorePermit`: the entry goes with the last permit that holds it.
  unfoldable pub drop_address_permit : A → AddressSemaphoreSet A → AddressSemaphoreSet A
  drop_address_permit a set =
      let s = semaphore_for a set in
      if (s.available + 1 == set.limit) && (s.holders == 1)
      then set_semaphore a none set
      else set_semaphore a (some record { available = s.available + 1; holders = s.holders - 1 })
          set

  unfoldable pub can_acquire_address : A → AddressSemaphoreSet A → Bool
  can_acquire_address a set = elim (set.semaphores a) [ none ↦ true | some s ↦ ltb 0 s.available ]

  -- The global permit, once the address has its own; without one the address' permit is dropped.
  abbrev pub then_global :
      A → ConnectionLimiter A → AddressSemaphoreSet A × Bool → ConnectionLimiter A × Bool
  then_global a limiter (set, false) = (record limiter { per_address = some set }, false)
  then_global a limiter (set, true) =
      if is_free limiter.global
      then (record { global = take_one limiter.global; per_address = some set }, true)
      else (record limiter { per_address = some (drop_address_permit a set) }, false)

  -- `ConnectionLimiter::try_acquire`.
  unfoldable pub try_acquire_connection : A → ConnectionLimiter A → ConnectionLimiter A × Bool
  unfolding try_acquire_address drop_address_permit
  try_acquire_connection a limiter = elim limiter.per_address [
    | none ↦
        if is_free limiter.global
        then (record limiter { global = take_one limiter.global }, true)
        else (limiter, false)
    | some set ↦ then_global a limiter (try_acquire_address a set)
  ]

  -- `ConnectionLimiter::can_acquire`.
  unfoldable pub can_acquire_connection : A → ConnectionLimiter A → Bool
  unfolding can_acquire_address
  can_acquire_connection a limiter =
      is_free limiter.global
      && (elim limiter.per_address [ none ↦ true | some set ↦ can_acquire_address a set ])

  -- The drop of a `ConnectionPermit`.
  unfoldable pub drop_connection_permit : A → ConnectionLimiter A → ConnectionLimiter A
  unfolding drop_address_permit
  drop_connection_permit a limiter = record {
    global = give_one limiter.global;
    per_address = elim limiter.per_address [
      | none ↦ none
      | some set ↦ some (drop_address_permit a set)
    ];
  }

-- `ConnectionAvailability`: the addresses that someone listens for, and which of them are notified.
abbrev is_https : UriScheme → Bool
is_https UriScheme.http = false
is_https UriScheme.https = true

abbrev allows_http2 : ProtocolPolicy → Bool
allows_http2 ProtocolPolicy.http1_only = false
allows_http2 ProtocolPolicy.http2_only = true
allows_http2 ProtocolPolicy.http1_or_http2 = true

abbrev is_direct : {P : Type 0} → Option P → Bool
is_direct none = true
is_direct (some proxy) = false

unfoldable pub coalescing_wait_eligible : Address → Address → List (List ℕ) → Bool
unfolding verified_server_name_matches
coalescing_wait_eligible origin waiting names =
    is_https origin.scheme
    && (is_https waiting.scheme
        && (is_direct origin.proxy
            && (is_direct waiting.proxy
                && ((origin.authority.port == waiting.authority.port)
                    && (allows_http2 waiting.protocol_policy
                        && any (λ name. verified_server_name_matches name waiting.authority.host)
                            names)))))

-- The listened addresses that get a token.
unfoldable pub notify : Address → List Address → List Address
unfolding retain address_eq
notify address listened = retain (address_eq address) listened

unfoldable pub notify_http2 : Address → List (List ℕ) → List Address → List Address
unfolding notify coalescing_wait_eligible
notify_http2 address names listened =
    notify address listened
    ++ retain
        (λ waiting.
          not (address_eq waiting address) && coalescing_wait_eligible address waiting names)
        listened
