-- ===== src/Connection/Planning.antt =====
-- crates/openwire/src/connection/planning.rs: addresses, routes and their order, and the plan of
-- connection attempts. Hosts are byte lists; a socket address is a family, an IP number and a port.
pub mod Order
use native.Mathlib.Decide.{ℕ_discrete}
use openwire.Base.{
  ℕ, zero, suc, ◌+◌, ◌-◌, ◌*◌, ◌%◌, ◌^◌, Bool, true, false, ◌&&◌, List, [], ◌∷◌, map, Option, none,
  some, between, ltb, ◌==◌, if◌then◌else◌, length,
}
use openwire.Text.{to_ascii_lowercase}

pub data UriScheme : Type 0 where
  http https : UriScheme

unfoldable pub normalize_host : List ℕ → List ℕ
unfolding to_ascii_lowercase
normalize_host host = to_ascii_lowercase host

pub record AuthorityKey : Type 0 where
  pub host : List ℕ
  pub port : ℕ

-- `AuthorityKey::new`.
unfoldable pub authority_key : List ℕ → ℕ → AuthorityKey
unfolding normalize_host
authority_key host port = record { host = normalize_host host; port = port }

pub data ProtocolPolicy : Type 0 where
  http1_only http2_only http1_or_http2 : ProtocolPolicy

pub data DnsPolicy : Type 0 where
  system deferred : DnsPolicy
  custom : List ℕ → DnsPolicy

pub data ProxyScheme : Type 0 where
  http socks5 : ProxyScheme

pub data ProxyMode : Type 0 where
  forward connect socks_tunnel : ProxyMode

pub record ProxyCredentials : Type 0 where
  pub username : List ℕ
  pub password : List ℕ

pub record ProxyEndpoint : Type 0 where
  pub scheme : ProxyScheme
  pub authority : AuthorityKey
  pub credentials : Option ProxyCredentials

pub record ProxyConfig : Type 0 where
  pub mode : ProxyMode
  pub endpoint : ProxyEndpoint

pub record Address : Type 0 where
  pub scheme : UriScheme
  pub authority : AuthorityKey
  pub proxy : Option ProxyConfig
  pub tls_identity : Option (List ℕ)
  pub protocol_policy : ProtocolPolicy
  pub dns_policy : DnsPolicy

pub data SocketAddr : Type 0 where
  v4 v6 : ℕ → ℕ → SocketAddr

pub data RouteFamily : Type 0 where
  ipv4 ipv6 : RouteFamily

unfoldable pub from_socket_addr : SocketAddr → RouteFamily
from_socket_addr (v4 ip port) = ipv4
from_socket_addr (v6 ip port) = ipv6

pub data DnsResolution : Type 0 where
  local : SocketAddr → DnsResolution
  deferred : List ℕ → ℕ → DnsResolution

pub data RouteKind : Type 0 where
  direct : SocketAddr → RouteKind
  http_forward_proxy connect_proxy socks_proxy : SocketAddr → Option ProxyCredentials → RouteKind

pub record Route : Type 0 where
  pub address : Address
  pub family : RouteFamily
  pub kind : RouteKind
  pub target_dns : DnsResolution
  pub proxy_dns : Option DnsResolution

pub record RoutePlan : Type 0 where
  pub routes : List Route
  pub fast_fallback_stagger : ℕ

unfoldable pub direct_route : Address → SocketAddr → Route
unfolding from_socket_addr
direct_route address target = record {
  address = address;
  family = from_socket_addr target;
  kind = direct target;
  target_dns = DnsResolution.local target;
  proxy_dns = none;
}

unfoldable pub proxy_route_shared : Address → SocketAddr → RouteKind → Route
unfolding from_socket_addr
proxy_route_shared address proxy kind = record {
  address = address;
  family = from_socket_addr proxy;
  kind = kind;
  target_dns = DnsResolution.deferred address.authority.host address.authority.port;
  proxy_dns = some (DnsResolution.local proxy);
}

abbrev credentials_of : Address → Option ProxyCredentials
credentials_of address = elim address.proxy [ none ↦ none | some p ↦ p.endpoint.credentials ]

unfoldable pub proxy_route : ProxyMode → Address → SocketAddr → Route
unfolding proxy_route_shared
proxy_route forward address proxy =
    proxy_route_shared address proxy (http_forward_proxy proxy (credentials_of address))
proxy_route connect address proxy =
    proxy_route_shared address proxy (connect_proxy proxy (credentials_of address))
proxy_route socks_tunnel address proxy =
    proxy_route_shared address proxy (socks_proxy proxy (credentials_of address))

-- The two queues of the map by family. A family without an address is an empty queue.
pub record ByFamily : Type 0 where
  pub ipv6_queue : List SocketAddr
  pub ipv4_queue : List SocketAddr

group : List SocketAddr → ByFamily
group [] = record { ipv6_queue = []; ipv4_queue = [] }
group (v4 ip port ∷ addrs) =
    let q = group addrs in record q { ipv4_queue = v4 ip port ∷ q.ipv4_queue }
group (v6 ip port ∷ addrs) =
    let q = group addrs in record q { ipv6_queue = v6 ip port ∷ q.ipv6_queue }

abbrev other_family : RouteFamily → RouteFamily
other_family ipv4 = ipv6
other_family ipv6 = ipv4

pop_family : RouteFamily → List SocketAddr → List SocketAddr → Option (SocketAddr × ByFamily)
pop_family ipv6 (a ∷ xs) ys = some (a, record { ipv6_queue = xs; ipv4_queue = ys })
pop_family ipv6 [] ys = none
pop_family ipv4 xs (b ∷ ys) = some (b, record { ipv6_queue = xs; ipv4_queue = ys })
pop_family ipv4 xs [] = none

-- The family's own queue first, then the other's.
candidate : RouteFamily → ByFamily → Option (SocketAddr × ByFamily)
unfolding pop_family
candidate family q = elim (pop_family family q.ipv6_queue q.ipv4_queue) [
  | some r ↦ some r
  | none ↦ pop_family (other_family family) q.ipv6_queue q.ipv4_queue
]

-- The loop, on fuel: each round takes one address.
order_loop : ℕ → RouteFamily → ByFamily → List SocketAddr
unfolding candidate
order_loop zero family q = []
order_loop (suc fuel) family q = elim (candidate family q) [
  | none ↦ []
  | some (addr, rest) ↦ addr ∷ order_loop fuel (other_family family) rest
]

first_family : List SocketAddr → RouteFamily
first_family [] = ipv4
first_family (a ∷ xs) = ipv6

unfoldable pub order_for_fast_fallback : List SocketAddr → List SocketAddr
unfolding order_loop group first_family
order_for_fast_fallback addrs =
    let q = group addrs in order_loop (length addrs) (first_family q.ipv6_queue) q

unfoldable pub plan_routes : (SocketAddr → Route) → ℕ → List SocketAddr → RoutePlan
unfolding order_for_fast_fallback
plan_routes route stagger addrs = record {
  routes = map route (order_for_fast_fallback addrs);
  fast_fallback_stagger = stagger;
}

-- `DefaultRoutePlanner::plan`.
unfoldable pub plan : ℕ → Address → List SocketAddr → RoutePlan
unfolding plan_routes
plan stagger address addrs = elim address.proxy [
  | none ↦ plan_routes (direct_route address) stagger addrs
  | some p ↦ plan_routes (proxy_route p.mode address) stagger addrs
]

unfoldable pub dns_target : Address → List ℕ × ℕ
dns_target address = elim address.proxy [
  | none ↦ (address.authority.host, address.authority.port)
  | some p ↦ (p.endpoint.authority.host, p.endpoint.authority.port)
]
