-- ===== src/Connection/Pool.antt =====
-- crates/openwire/src/connection/pool.rs: the operations of the connection pool. The shards are one
-- map from addresses to buckets; each operation runs to its end. The order in which the hash tables
-- are walked is that of the association lists. The eviction hook is a log of its calls.
pub mod Prune
pub mod Coalescing
pub mod Bounds
pub mod Idle
pub mod InUse
pub mod Acquire
pub mod Lookup
pub mod ServerNames
use openwire.Base.{
  ℕ, ◌+◌, Bool, true, false, not, ◌&&◌, ◌||◌, List, [], ◌∷◌, ◌++◌, map, Option, none, some, ◌==◌,
  if◌then◌else◌, any, find, retain, is_some, map_get, map_insert, map_remove,
}
use openwire.Connection.Planning.{Address, SocketAddr, RoutePlan}
use openwire.Connection.Equality.{address_eq, socket_addr_eq}
use openwire.Connection.RealConnection.{
  RealConnection, ConnectionAllocationState, address, allocation_state, can_acquire, try_acquire,
  close,
}
use openwire.Connection.RealConnection
use openwire.Connection.Pool.Prune.{
  PoolSettings, Heap, set_connection, is_in_use, is_idle, Pruned, prune_connections,
}
use openwire.Connection.Pool.Coalescing.{
  CoalescingIndex, request_allows_h2_coalescing, can_coalesce, direct_route_targets, bucket_of,
  index_coalescing, remove_index_connection, prune_coalescing_bucket,
}

pub record Pool : Type 0 where
  pub settings : PoolSettings
  pub heap : Heap
  pub by_address : List (Address × List ℕ)
  pub coalesced_by_target : CoalescingIndex
  pub by_id : List (ℕ × Address)
  pub has_eviction_hook : Bool
  pub evictions : List ℕ

pub record PoolStats : Type 0 where
  pub total : ℕ
  pub idle : ℕ
  pub in_use : ℕ

abbrev pub new_pool : PoolSettings → Heap → Pool
new_pool settings heap = record {
  settings = settings;
  heap = heap;
  by_address = [];
  coalesced_by_target = [];
  by_id = [];
  has_eviction_hook = false;
  evictions = [];
}

unfoldable pub bucket : Address → Pool → List ℕ
unfolding map_get address_eq
bucket a p = elim (map_get address_eq a p.by_address) [ none ↦ [] | some ids ↦ ids ]

abbrev pub put_address : Address → List ℕ → List (Address × List ℕ) → List (Address × List ℕ)
put_address a [] m = map_remove address_eq a m
put_address a (id ∷ ids) m = map_insert address_eq a (id ∷ ids) m

abbrev set_pruned : Address → Pruned → Pool → Pool
set_pruned a r p = record p { heap = r.heap; by_address = put_address a r.kept p.by_address }

unfoldable pub prune_address : ℕ → Address → Pool → Pool × List ℕ
unfolding map_get map_insert map_remove address_eq prune_connections
prune_address now a p = elim (map_get address_eq a p.by_address) [
  | none ↦ (p, [])
  | some ids ↦ let r = prune_connections p.settings now p.heap ids in (set_pruned a r p, r.removed)
]

unfoldable pub notify_evictions : List ℕ → Pool → Pool
notify_evictions ids p =
    if p.has_eviction_hook then record p { evictions = p.evictions ++ ids } else p

unfoldable pub remove_from_index : Heap → List ℕ → CoalescingIndex → CoalescingIndex
unfolding remove_index_connection
remove_from_index heap [] index = index
remove_from_index heap (id ∷ ids) index =
    remove_from_index heap ids (remove_index_connection (heap id) index)

abbrev remove_ids : List ℕ → List (ℕ × Address) → List (ℕ × Address)
remove_ids [] m = m
remove_ids (id ∷ ids) m = remove_ids ids (map_remove ◌==◌ id m)

unfoldable pub finish_removals : List ℕ → Pool → Pool
unfolding map_remove remove_from_index notify_evictions
finish_removals [] p = p
finish_removals (id ∷ ids) p =
    let q = record p {
      by_id = remove_ids (id ∷ ids) p.by_id;
      coalesced_by_target = remove_from_index p.heap (id ∷ ids) p.coalesced_by_target;
    } in
    notify_evictions (id ∷ ids) q

-- A clone of the connection goes to the end of its bucket.
unfoldable pub insert : ℕ → RealConnection → Pool → Pool
unfolding bucket map_insert address_eq prune_address index_coalescing finish_removals
insert now c p =
    let a = address c in
    let q = record p {
      heap = set_connection c.id c p.heap;
      by_address = map_insert address_eq a (bucket a p ++ (c.id ∷ [])) p.by_address;
    } in
    let (r, evicted) = prune_address now a q in
    let s = record r {
      by_id = map_insert ◌==◌ c.id a r.by_id;
      coalesced_by_target = index_coalescing c r.coalesced_by_target;
    } in
    finish_removals evicted s

-- The first connection whose `try_acquire` succeeds; the failed attempts change nothing.
unfoldable pub acquired_at : Pool → Option ℕ → Pool × Option ℕ
unfolding try_acquire
acquired_at p none = (p, none)
acquired_at p (some id) =
    (record p { heap = set_connection id (try_acquire (p.heap id)).0 p.heap }, some id)

unfoldable pub first_acquired : List ℕ → Pool → Pool × Option ℕ
unfolding find try_acquire acquired_at
first_acquired ids p = acquired_at p (find (λ id. (try_acquire (p.heap id)).1) ids)

unfoldable pub acquire : ℕ → Address → Pool → Pool × Option ℕ
unfolding prune_address bucket first_acquired finish_removals
acquire now a p =
    let (q, removed) = prune_address now a p in
    let (r, result) = first_acquired (bucket a q) q in (finish_removals removed r, result)

abbrev is_excluded : Option ℕ → ℕ → Bool
is_excluded none id = false
is_excluded (some excluded) id = excluded == id

unfoldable pub has_in_use_connection_unpruned : Heap → List ℕ → Option ℕ → Bool
unfolding is_in_use
has_in_use_connection_unpruned heap ids excluded_id =
    any (λ id. not (is_excluded excluded_id id) && is_in_use (heap id)) ids

unfoldable pub acquire_with_in_use_hint : ℕ → Address → Pool → Pool × Option ℕ × Bool
unfolding prune_address bucket first_acquired finish_removals has_in_use_connection_unpruned
acquire_with_in_use_hint now a p =
    let (q, removed) = prune_address now a p in
    let (r, result) = first_acquired (bucket a q) q in
    (finish_removals removed r, result, has_in_use_connection_unpruned r.heap (bucket a r) result)

unfoldable pub has_in_use_connection : ℕ → Address → Pool → Pool × Bool
unfolding prune_address bucket finish_removals has_in_use_connection_unpruned
has_in_use_connection now a p =
    let (q, removed) = prune_address now a p in
    (finish_removals removed q, has_in_use_connection_unpruned q.heap (bucket a q) none)

unfoldable pub has_acquirable_connection : Address → Pool → Bool
unfolding bucket can_acquire
has_acquirable_connection a p = any (λ id. can_acquire (p.heap id)) (bucket a p)

-- The connection gives a slot back, and its address's bucket is pruned.
unfoldable pub release : ℕ → ℕ → Pool → Pool × Bool
unfolding RealConnection.release prune_address finish_removals
release now id p =
    let (c, released) = RealConnection.release now (p.heap id) in
    if released
    then (let (q, removed) =
          prune_address now (address c) (record p { heap = set_connection id c p.heap }) in
        (finish_removals removed q, true))
    else (p, false)
