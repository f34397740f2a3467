-- ===== src/Connection/Pool/Coalescing.antt =====
-- crates/openwire/src/connection/pool.rs and mod.rs: which connections a request for another
-- authority may share, and the index by socket address.
use openwire.Base.{
  ℕ, Bool, true, false, not, ◌&&◌, ◌||◌, List, [], ◌∷◌, Option, none, some, ◌==◌, if◌then◌else◌,
  ◌++◌, any, retain, is_some, map_get, map_insert, map_remove,
}
use openwire.Text.{text_eq, strip_suffix}
use openwire.Connection.Planning.{
  https, http1_only, Address, SocketAddr, RouteKind, direct, Route, RoutePlan,
}
use openwire.Connection.Equality.{scheme_eq, authority_eq, policy_eq, socket_addr_eq}
use openwire.Connection.RealConnection.{
  RealConnection, ConnectionProtocol, http1, http2, address, is_closed,
}

unfoldable pub strip_wildcard : List ℕ → Option (List ℕ)
strip_wildcard (a ∷ b ∷ suffix) = if a == b'*' && b == b'.' then some suffix else none
strip_wildcard _ = none

-- `ends_with('.')`, and no other dot.
unfoldable pub is_label : List ℕ → Bool
is_label [] = false
is_label (c ∷ []) = c == b'.'
is_label (c ∷ d ∷ cs) = let rest = is_label (d ∷ cs) in not (c == b'.') && rest

unfoldable pub wildcard_matches : List ℕ → Option (List ℕ) → Bool
unfolding strip_suffix is_label
wildcard_matches host none = false
wildcard_matches host (some suffix) = elim (strip_suffix suffix host) [
  | none ↦ false
  | some prefix ↦ is_label prefix
]

unfoldable pub verified_server_name_matches : List ℕ → List ℕ → Bool
unfolding text_eq strip_wildcard wildcard_matches
verified_server_name_matches pattern host =
    text_eq pattern host || wildcard_matches host (strip_wildcard pattern)

unfoldable pub request_allows_h2_coalescing : Address → Bool
unfolding scheme_eq policy_eq
request_allows_h2_coalescing a =
    scheme_eq a.scheme https
    && (not (is_some a.proxy) && not (policy_eq a.protocol_policy http1_only))

unfoldable pub connection_allows_h2_coalescing : RealConnection → Bool
unfolding scheme_eq
connection_allows_h2_coalescing c =
    scheme_eq (address c).scheme https && not (is_some (address c).proxy)

abbrev is_http2 : ConnectionProtocol → Bool
is_http2 http2 = true
is_http2 http1 = false

abbrev direct_target : RouteKind → Option SocketAddr
direct_target (direct target) = some target
direct_target _ = none

abbrev targets : RouteKind → SocketAddr → Bool
targets (direct target) existing = socket_addr_eq target existing
targets _ existing = false

unfoldable pub route_overlap : Route → RoutePlan → Bool
unfolding socket_addr_eq
route_overlap route plan = elim (direct_target route.kind) [
  | none ↦ false
  | some existing ↦ any (λ (r : Route). targets r.kind existing) plan.routes
]

unfoldable pub can_coalesce : RealConnection → Address → RoutePlan → Bool
unfolding request_allows_h2_coalescing connection_allows_h2_coalescing authority_eq
    verified_server_name_matches route_overlap
can_coalesce c request plan =
    if not (is_http2 c.protocol)
      || (not (request_allows_h2_coalescing request) || not (connection_allows_h2_coalescing c))
    then false
    else if not ((address c).authority.port == request.authority.port)
    then false
    else if authority_eq (address c).authority request.authority
    then false
    else if not (
        any (λ name. verified_server_name_matches name request.authority.host)
          c.verified_server_names)
    then false
    else route_overlap c.route plan

unfoldable pub coalescing_index_target : RealConnection → Option SocketAddr
unfolding connection_allows_h2_coalescing
coalescing_index_target c =
    if not (is_http2 c.protocol) || not (connection_allows_h2_coalescing c)
    then none
    else direct_target c.route.kind

abbrev push_target : Option SocketAddr → List SocketAddr → List SocketAddr
push_target none seen = seen
push_target (some t) seen = if any (socket_addr_eq t) seen then seen else seen ++ (t ∷ [])

-- The targets of the direct routes, each once, in order.
unfoldable pub direct_targets_from : List Route → List SocketAddr → List SocketAddr
unfolding socket_addr_eq
direct_targets_from [] seen = seen
direct_targets_from (r ∷ routes) seen =
    direct_targets_from routes (push_target (direct_target r.kind) seen)

unfoldable pub direct_route_targets : RoutePlan → List SocketAddr
unfolding direct_targets_from
direct_route_targets plan = direct_targets_from plan.routes []

-- The index: buckets of identifiers by socket address; an empty bucket is taken out.
abbrev pub CoalescingIndex : Type 0
CoalescingIndex = List (SocketAddr × List ℕ)

abbrev put_bucket : SocketAddr → List ℕ → CoalescingIndex → CoalescingIndex
put_bucket target [] index = map_remove socket_addr_eq target index
put_bucket target (id ∷ ids) index = map_insert socket_addr_eq target (id ∷ ids) index

abbrev pub bucket_of : SocketAddr → CoalescingIndex → List ℕ
bucket_of target index = elim (map_get socket_addr_eq target index) [ none ↦ [] | some ids ↦ ids ]

unfoldable pub index_coalescing : RealConnection → CoalescingIndex → CoalescingIndex
unfolding coalescing_index_target map_get map_insert socket_addr_eq
index_coalescing c index = elim (coalescing_index_target c) [
  | none ↦ index
  | some target ↦ map_insert socket_addr_eq target (bucket_of target index ++ (c.id ∷ [])) index
]

unfoldable pub remove_index_connection : RealConnection → CoalescingIndex → CoalescingIndex
unfolding coalescing_index_target map_get map_insert map_remove retain socket_addr_eq
remove_index_connection c index = elim (coalescing_index_target c) [
  | none ↦ index
  | some target ↦ put_bucket target (retain (λ id. not (id == c.id)) (bucket_of target index)) index
]

abbrev indexes : Option SocketAddr → SocketAddr → Bool
indexes none target = false
indexes (some t) target = socket_addr_eq t target

unfoldable pub prune_coalescing_bucket :
    (ℕ → RealConnection) → SocketAddr → CoalescingIndex → CoalescingIndex
unfolding coalescing_index_target map_get map_insert map_remove retain socket_addr_eq
prune_coalescing_bucket heap target index =
    put_bucket target
      (retain
        (λ id. indexes (coalescing_index_target (heap id)) target && not (is_closed (heap id)))
        (bucket_of target index))
      index
