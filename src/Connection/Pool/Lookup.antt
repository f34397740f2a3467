-- ===== src/Connection/Pool/Lookup.antt =====
-- crates/openwire/src/connection/pool.rs: the operations by identifier, on the whole pool and by
-- coalescing, and the reaper's settings.
use openwire.Base.{
  ℕ, ◌+◌, Bool, not, ◌||◌, List, [], ◌∷◌, ◌++◌, map, Option, none, some, ◌==◌, if◌then◌else◌, any,
  find, retain, is_some, map_get, map_insert, map_remove, min,
}
use openwire.Connection.Planning.{Address, SocketAddr, RoutePlan}
use openwire.Connection.Equality.{address_eq, socket_addr_eq, option_eq}
use openwire.Connection.RealConnection.{ConnectionAllocationState, address, allocation_state, close}
use openwire.Connection.Pool.Prune.{PoolSettings, Heap, set_connection}
use openwire.Connection.Pool.Coalescing.{
  CoalescingIndex, request_allows_h2_coalescing, can_coalesce, direct_route_targets, bucket_of,
  remove_index_connection, prune_coalescing_bucket,
}
use openwire.Connection.Pool.{
  Pool, PoolStats, bucket, put_address, prune_address, notify_evictions, finish_removals,
  first_acquired,
}

abbrev pub needs_reaper : PoolSettings → Bool
needs_reaper s = is_some s.idle_timeout || is_some s.max_lifetime

abbrev interval : Option ℕ → Option ℕ → ℕ
interval (some idle) (some lifetime) = min idle lifetime
interval (some idle) none = idle
interval none (some lifetime) = lifetime
interval none none = 60000

abbrev pub reaper_interval_hint : PoolSettings → ℕ
reaper_interval_hint s = interval s.idle_timeout s.max_lifetime

-- Whether the identifier is registered for the address.
unfoldable pub is_registered : ℕ → Address → Pool → Bool
unfolding option_eq address_eq map_get
is_registered id a p = option_eq address_eq (map_get ◌==◌ id p.by_id) (some a)

unfoldable pub get_by_id : ℕ → Address → ℕ → Pool → Pool × Option ℕ
unfolding prune_address is_registered bucket finish_removals
get_by_id now a id p =
    let (q, removed) = prune_address now a p in
    let result = if is_registered id a q then find (λ j. j == id) (bucket a q) else none in
    (finish_removals removed q, result)

unfoldable pub acquire_by_id : ℕ → Address → ℕ → Pool → Pool × Option ℕ
unfolding prune_address is_registered bucket finish_removals first_acquired retain
acquire_by_id now a id p =
    let (q, removed) = prune_address now a p in
    let (r, result) =
      if is_registered id a q
      then first_acquired (retain (λ j. j == id) (bucket a q)) q
      else (q, none) in
    (finish_removals removed r, result)

abbrev remove_first : ℕ → List ℕ → List ℕ
remove_first id [] = []
remove_first id (j ∷ ids) = let rest = remove_first id ids in if j == id then ids else j ∷ rest

-- The bucket without the connection, which is closed if it was there.
unfoldable pub remove_from_bucket : Address → ℕ → Pool → Pool × Option ℕ
unfolding map_get map_insert map_remove address_eq close remove_index_connection
remove_from_bucket a id p = elim (map_get address_eq a p.by_address) [
  | none ↦ (p, none)
  | some ids ↦
      if any (λ j. j == id) ids
      then (
        record p {
          heap = set_connection id (close (p.heap id)) p.heap;
          by_address = put_address a (remove_first id ids) p.by_address;
          coalesced_by_target = remove_index_connection (close (p.heap id)) p.coalesced_by_target;
        },
        some id,
      )
      else (record p { by_address = put_address a ids p.by_address }, none)
]

unfoldable pub remove_without_hook : ℕ → Pool → Pool × Option ℕ
unfolding map_get map_remove remove_from_bucket
remove_without_hook id p = elim (map_get ◌==◌ id p.by_id) [
  | none ↦ (p, none)
  | some a ↦ remove_from_bucket a id (record p { by_id = map_remove ◌==◌ id p.by_id })
]

unfoldable pub remove : ℕ → Pool → Pool × Option ℕ
unfolding remove_without_hook notify_evictions
remove id p =
    let (q, removed) = remove_without_hook id p in
    (if is_some removed then notify_evictions (id ∷ []) q else q, removed)

abbrev count_state : ConnectionAllocationState → PoolStats → PoolStats
count_state ConnectionAllocationState.idle s = record s { total = s.total + 1; idle = s.idle + 1 }
count_state (ConnectionAllocationState.in_use n) s = record s {
  total = s.total + 1;
  in_use = s.in_use + 1;
}
count_state ConnectionAllocationState.closed s = record s { total = s.total + 1 }

unfoldable pub count_states : Heap → List ℕ → PoolStats → PoolStats
unfolding allocation_state
count_states heap [] s = s
count_states heap (id ∷ ids) s = count_states heap ids (count_state (allocation_state (heap id)) s)

unfoldable pub stats : ℕ → Address → Pool → Pool × PoolStats
unfolding prune_address finish_removals bucket count_states
stats now a p =
    let (q, removed) = prune_address now a p in
    (
      finish_removals removed q,
      count_states q.heap (bucket a q) (record { total = 0; idle = 0; in_use = 0 }),
    )

unfoldable pub prune_addresses : ℕ → List Address → Pool → Pool × List ℕ
unfolding prune_address
prune_addresses now [] p = (p, [])
prune_addresses now (a ∷ addresses) p =
    let (q, removed) = prune_address now a p in
    let (r, rest) = prune_addresses now addresses q in (r, removed ++ rest)

unfoldable pub prune_all : ℕ → Pool → Pool
unfolding prune_addresses finish_removals
prune_all now p =
    let (q, removed) = prune_addresses now (map (λ e. e.0) p.by_address) p in
    finish_removals removed q

-- The addresses of the connections indexed by the targets, each once.
unfoldable pub distinct : List Address → List Address
unfolding address_eq
distinct [] = []
distinct (a ∷ addresses) =
    let rest = distinct addresses in if any (address_eq a) rest then rest else a ∷ rest

unfoldable pub addresses_of : Pool → List SocketAddr → List Address
unfolding map_get socket_addr_eq
addresses_of p [] = []
addresses_of p (t ∷ targets) =
    map (λ id. address (p.heap id)) (bucket_of t p.coalesced_by_target) ++ addresses_of p targets

unfoldable pub prune_targets : Heap → List SocketAddr → CoalescingIndex → CoalescingIndex
unfolding prune_coalescing_bucket
prune_targets heap [] index = index
prune_targets heap (t ∷ targets) index =
    prune_targets heap targets (prune_coalescing_bucket heap t index)

unfoldable pub candidates : Heap → CoalescingIndex → Address → RoutePlan → List SocketAddr → List ℕ
unfolding map_get socket_addr_eq can_coalesce retain
candidates heap index a plan [] = []
candidates heap index a plan (t ∷ targets) =
    retain (λ id. can_coalesce (heap id) a plan) (bucket_of t index)
    ++ candidates heap index a plan targets

-- A repeated identifier is a candidate that has already failed to be acquired.
unfoldable pub acquire_from_targets :
    ℕ → Address → RoutePlan → List SocketAddr → Pool → Pool × Option ℕ
unfolding distinct addresses_of prune_addresses finish_removals prune_targets candidates
    first_acquired
acquire_from_targets now a plan targets p =
    let (q, removed) = prune_addresses now (distinct (addresses_of p targets)) p in
    let r = finish_removals removed q in
    let index = prune_targets r.heap targets r.coalesced_by_target in
    first_acquired (candidates r.heap index a plan targets)
      (record r { coalesced_by_target = index })

unfoldable pub acquire_coalesced : ℕ → Address → RoutePlan → Pool → Pool × Option ℕ
unfolding request_allows_h2_coalescing direct_route_targets acquire_from_targets
acquire_coalesced now a plan p =
    if not (request_allows_h2_coalescing a) then (p, none) else elim (direct_route_targets plan) [
      | [] ↦ (p, none)
      | t ∷ targets ↦ acquire_from_targets now a plan (t ∷ targets) p
    ]
