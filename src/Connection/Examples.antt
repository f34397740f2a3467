-- ===== src/Connection/Examples.antt =====
-- Connections, the pool and the scheduler at concrete inputs.
use openwire.Base.{
  ℕ, ◌≤◌, ◌≡◌, ◌⊎◌, refl, true, false, List, [], ◌∷◌, ◌++◌, Option, none, some, length, arith,
  ==_iff, ◌==◌, if◌then◌else◌, find,
}
use mathlib.Core.Option
use openwire.Connection.Planning.{
  UriScheme, AuthorityKey, ProtocolPolicy, DnsPolicy, Address, SocketAddr, v4, v6, Route, RoutePlan,
  direct_route, order_for_fast_fallback, from_socket_addr,
}
use openwire.Connection.ConnectPlan.{ConnectPlan, ConnectAttemptState, promote_winner}
use openwire.Connection.Planning.Order.{
  ipv4_addrs, ipv6_addrs, interleave, order_for_fast_fallback-interleave,
}
use openwire.Connection.ConnectPlan.Attempts.{state_at, outcome, promote_winner-outcome}
use openwire.Connection.RealConnection.{
  RealConnection, ConnectionProtocol, http2, with_id, is_closed, close, try_acquire, can_acquire,
}
use openwire.Connection.RealConnection.Invariant.{
  all_exchanges, Op, acquires, marks, IsConsistent, apply_all, apply_all-with_id-IsConsistent,
  apply_all-closed,
}
use openwire.Connection.Pool.Prune.{PoolSettings, Heap, idle_since, prune_connections}
use openwire.Connection.Pool.InUse.{IsSparing, prune_connections-IsSparing}
use openwire.Connection.Pool.{Pool, new_pool, acquire}
use openwire.Connection.Pool.ServerNames.{HasNoDot, verified_server_name_matches-wildcard}
use openwire.Connection.Pool.Coalescing.{verified_server_name_matches}
use openwire.Connection.Queue.{KeyEq, Limits, GlobalState, new_state}
use openwire.Connection.Scheduler.{poll_acquire, release}
use openwire.Connection.Scheduler.Bounds.{WithinLimits}
use openwire.Connection.Scheduler.Permits.{running}
use openwire.Connection.Scheduler.Reached.{
  Reachable, polls, starts, releases, Reachable-WithinLimits,
}

abbrev host_text : List ℕ
host_text = b'a' ∷ b'.' ∷ b'b' ∷ []

abbrev wildcard_text : List ℕ
wildcard_text = b'*' ∷ b'.' ∷ b'b' ∷ []

abbrev pub example_address : Address
example_address = record {
  scheme = UriScheme.https;
  authority = record { host = host_text; port = 443 };
  proxy = none;
  tls_identity = some host_text;
  protocol_policy = ProtocolPolicy.http1_or_http2;
  dns_policy = DnsPolicy.system;
}

abbrev pub example_route : Route
example_route = record {
  address = example_address;
  family = from_socket_addr (v4 1 443);
  kind = openwire.Connection.Planning.RouteKind.direct (v4 1 443);
  target_dns = openwire.Connection.Planning.DnsResolution.local (v4 1 443);
  proxy_dns = none;
}

abbrev example_connection : ℕ → ℕ → Option ℕ → RealConnection
example_connection id allocations idle_since = record {
  id = id;
  route = example_route;
  protocol = http2;
  verified_server_names = host_text ∷ [];
  max_http2_streams = 100;
  created_at = 0;
  health = openwire.Connection.RealConnection.ConnectionHealth.healthy;
  allocations = allocations;
  idle_since = idle_since;
  completed_exchanges = 0;
}

-- Three connections: 1 in use, 2 and 3 idle, 2 for longer.
abbrev example_heap : Heap
example_heap id =
    if id == 1
    then example_connection 1 4 none
    else if id == 2
    then example_connection 2 0 (some 10)
    else example_connection id 0 (some 20)

abbrev one_idle : PoolSettings
one_idle = record { idle_timeout = some 300000; max_idle_per_address = 1; max_lifetime = none }

abbrev example_pool : Pool
example_pool = record (new_pool one_idle example_heap) {
  by_address = (example_address, 1 ∷ 2 ∷ 3 ∷ []) ∷ [];
  by_id = (1, example_address) ∷ (2, example_address) ∷ (3, example_address) ∷ [];
}

-- The bucket keeps the one in use and the one that has been idle for less.
pruned_test : (prune_connections one_idle 30 example_heap (1 ∷ 2 ∷ 3 ∷ [])).kept ≡ 1 ∷ 3 ∷ []
unfolding prune_connections
pruned_test = refl

acquired_test : (acquire 30 example_address example_pool).1 ≡ some 1
unfolding acquire find
acquired_test = refl

order_for_fast_fallback-interleave_example :
    order_for_fast_fallback (v4 1 80 ∷ v4 2 80 ∷ v6 3 80 ∷ [])
    ≡ interleave
        (ipv6_addrs (v4 1 80 ∷ v4 2 80 ∷ v6 3 80 ∷ []))
        (ipv4_addrs (v4 1 80 ∷ v4 2 80 ∷ v6 3 80 ∷ []))
order_for_fast_fallback-interleave_example =
    order_for_fast_fallback-interleave (v4 1 80 ∷ v4 2 80 ∷ v6 3 80 ∷ [])

abbrev example_plan : ConnectPlan
example_plan = record {
  attempts =
      record { route = example_route; scheduled_after = 0; state = ConnectAttemptState.running }
      ∷ record { route = example_route; scheduled_after = 200; state = ConnectAttemptState.pending }
      ∷ [];
  fast_fallback_stagger = 200;
}

promote_winner-outcome_example :
    (state_at (promote_winner example_plan 0).0.attempts 1
      ≡ Option.map (outcome 0 1) (state_at example_plan.attempts 1))
    × ((promote_winner example_plan 0).1 ≡ true)
promote_winner-outcome_example = promote_winner-outcome example_plan 0 1

abbrev example_ops : List Op
example_ops = acquires ∷ acquires ∷ Op.releases 5 ∷ marks ∷ []

apply_all-with_id-IsConsistent_example :
    IsConsistent (apply_all (with_id 7 example_route http2 [] 100 0) example_ops)
    × ((apply_all (with_id 7 example_route http2 [] 100 0) example_ops).allocations
        ≡ all_exchanges (with_id 7 example_route http2 [] 100 0) 0 example_ops)
    × (all_exchanges (with_id 7 example_route http2 [] 100 0) 0 example_ops ≤ 100)
apply_all-with_id-IsConsistent_example =
    apply_all-with_id-IsConsistent 7 example_route http2 [] 100 0 example_ops

apply_all-closed_example :
    (is_closed (apply_all (close (example_connection 1 4 none)) (acquires ∷ marks ∷ [])) ≡ true)
    × ((try_acquire (apply_all (close (example_connection 1 4 none)) (acquires ∷ marks ∷ []))).1
        ≡ false)
unfolding close
apply_all-closed_example =
    apply_all-closed (close (example_connection 1 4 none)) (acquires ∷ marks ∷ []) refl

prune_connections-IsSparing_example :
    let p = prune_connections one_idle 30 example_heap (1 ∷ 2 ∷ 3 ∷ []) in
    IsSparing example_heap (1 ∷ 2 ∷ 3 ∷ []) p × (length (idle_since p.heap p.kept) ≤ 1)
prune_connections-IsSparing_example =
    prune_connections-IsSparing one_idle 30 example_heap (1 ∷ 2 ∷ 3 ∷ [])
      (λ e. absurd (omega arith))

verified_server_name_matches-wildcard_example :
    (host_text ≡ wildcard_text)
    ⊎ ((label : List ℕ) × (host_text ≡ label ++ (b'.' ∷ b'b' ∷ [])) × HasNoDot label)
unfolding verified_server_name_matches
verified_server_name_matches-wildcard_example =
    verified_server_name_matches-wildcard (b'b' ∷ []) host_text refl

abbrev number_keys : KeyEq ℕ
number_keys = record { same = ◌==◌; same_iff = ==_iff }

abbrev one_each : Limits
one_each = record { max_total = 2; max_per_address = 1; max_queued = 4 }

-- Two requests for one address: the second is queued, and the release of the first promotes it.
abbrev after_first : GlobalState ℕ
after_first = (poll_acquire number_keys one_each 1 0 0 9 3 none new_state).state

abbrev after_second : GlobalState ℕ
after_second = (poll_acquire number_keys one_each 2 0 0 9 3 none after_first).state

queued_test : after_second.queued ≡ 1
unfolding poll_acquire find
queued_test = refl

promoted_test : (release number_keys one_each 5 9 after_second).0.queued ≡ 0
unfolding poll_acquire release find
promoted_test = refl

-- The permit of the first is released; the second has been admitted.
first_released : Reachable number_keys one_each [] (release number_keys one_each 5 9 after_second).0
unfolding poll_acquire find
first_released = releases 5 9 [] [] (polls 2 0 0 9 3 none (polls 1 0 0 9 3 none starts))

Reachable-WithinLimits_example :
    (running (λ _. true) [] (release number_keys one_each 5 9 after_second).0 ≤ 2)
    × ((a : ℕ) → running (λ b. a == b) [] (release number_keys one_each 5 9 after_second).0 ≤ 1)
    × WithinLimits number_keys one_each (release number_keys one_each 5 9 after_second).0
Reachable-WithinLimits_example = Reachable-WithinLimits number_keys one_each first_released

-- Waiter 4 is urgent, waiter 3 came first.
abbrev two_waiters : GlobalState ℕ
two_waiters = record new_state {
  queued = 2;
  waiters =
      (
        3,
        record {
          waker = none;
          address = 9;
          urgency = 7;
          seq = 0;
          enqueued_at = 0;
          admitted = false;
        },
      )
      ∷ (
        4,
        record {
          waker = none;
          address = 9;
          urgency = 0;
          seq = 1;
          enqueued_at = 240;
          admitted = false;
        },
      )
      ∷ [];
  ordered = record { urgency = 0; seq = 1; id = 4 } ∷ record { urgency = 7; seq = 0; id = 3 } ∷ [];
  fifo = 3 ∷ 4 ∷ [];
}
