-- ===== src/Connection/RealConnection.antt =====
-- crates/openwire/src/connection/real_connection.rs: the state of one connection. The clones of a
-- connection share it behind a mutex: each operation here is one critical section, on the value
-- that the holders share. Instants are numbers.
pub mod Invariant
use openwire.Base.{
  ℕ, ◌+◌, ◌-◌, Bool, true, false, not, ◌&&◌, ◌||◌, Option, none, some, leb, ltb, ◌==◌,
  if◌then◌else◌, max, List,
}
use openwire.Connection.Planning.{Address, Route}

pub data ConnectionProtocol : Type 0 where
  http1 http2 : ConnectionProtocol

pub data ConnectionHealth : Type 0 where
  healthy unhealthy closed : ConnectionHealth

pub data ConnectionAllocationState : Type 0 where
  idle closed : ConnectionAllocationState
  in_use : ℕ → ConnectionAllocationState

abbrev pub default_http2_max_local_streams : ℕ
default_http2_max_local_streams = 100

-- The immutable part and the part behind the mutex, in one record. The permit is a token that the
-- connection holds until it is dropped; `verified_server_names` is the `CoalescingInfo`.
pub record RealConnection : Type 0 where
  pub id : ℕ
  pub route : Route
  pub protocol : ConnectionProtocol
  pub verified_server_names : List (List ℕ)
  pub max_http2_streams : ℕ
  pub created_at : ℕ
  pub health : ConnectionHealth
  pub allocations : ℕ
  pub idle_since : Option ℕ
  pub completed_exchanges : ℕ

-- `with_id_permit_coalescing_and_stream_cap`.
unfoldable pub with_id : ℕ → Route → ConnectionProtocol → List (List ℕ) → ℕ → ℕ → RealConnection
with_id id route protocol names max_http2_streams now = record {
  id = id;
  route = route;
  protocol = protocol;
  verified_server_names = names;
  max_http2_streams = max max_http2_streams 1;
  created_at = now;
  health = healthy;
  allocations = 0;
  idle_since = some now;
  completed_exchanges = 0;
}

abbrev pub address : RealConnection → Address
address c = c.route.address

abbrev pub health_is_healthy : ConnectionHealth → Bool
health_is_healthy healthy = true
health_is_healthy _ = false

abbrev pub health_is_closed : ConnectionHealth → Bool
health_is_closed closed = true
health_is_closed _ = false

unfoldable pub allocation_state : RealConnection → ConnectionAllocationState
allocation_state c =
    if health_is_closed c.health
    then closed
    else if c.allocations == 0
    then idle
    else in_use c.allocations

-- The protocol gates: one exchange on HTTP/1, the stream budget on HTTP/2.
abbrev protocol_gate : ConnectionProtocol → ℕ → ℕ → Bool
protocol_gate http1 allocations max_http2_streams = not (ltb 0 allocations)
protocol_gate http2 allocations max_http2_streams = not (leb max_http2_streams allocations)

unfoldable pub can_acquire : RealConnection → Bool
can_acquire c =
    health_is_healthy c.health && protocol_gate c.protocol c.allocations c.max_http2_streams

unfoldable pub try_acquire : RealConnection → RealConnection × Bool
unfolding can_acquire
try_acquire c =
    if can_acquire c
    then (record c { allocations = c.allocations + 1; idle_since = none }, true)
    else (c, false)

-- The subtraction is behind a test that the count is not 0.
unfoldable pub release : ℕ → RealConnection → RealConnection × Bool
release now c = if health_is_closed c.health || c.allocations == 0 then (c, false) else (
  record c {
    allocations = c.allocations - 1;
    completed_exchanges = c.completed_exchanges + 1;
    idle_since = if c.allocations - 1 == 0 then some now else c.idle_since;
  },
  true,
)

unfoldable pub mark_unhealthy : RealConnection → RealConnection
mark_unhealthy c = if health_is_closed c.health then c else record c { health = unhealthy }

unfoldable pub close : RealConnection → RealConnection
close c = record c { health = closed; allocations = 0; idle_since = none }

abbrev pub is_healthy : RealConnection → Bool
is_healthy c = health_is_healthy c.health

abbrev pub is_closed : RealConnection → Bool
is_closed c = health_is_closed c.health
