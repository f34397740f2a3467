-- ===== src/Connection/Equality.antt =====
-- The derived equality tests of crates/openwire/src/connection/planning.rs: of addresses, by which the
-- pool finds its buckets, and of socket addresses.
use openwire.Base.{Bool, true, false, ◌&&◌, Option, none, some, ◌==◌}
use openwire.Text.{text_eq}
use openwire.Connection.Planning.{
  UriScheme, AuthorityKey, ProtocolPolicy, DnsPolicy, ProxyScheme, ProxyMode, ProxyCredentials,
  ProxyEndpoint, ProxyConfig, Address, SocketAddr,
}

unfoldable pub option_eq : {A : Type 0} → (A → A → Bool) → Option A → Option A → Bool
option_eq eq none none = true
option_eq eq none (some y) = false
option_eq eq (some x) none = false
option_eq eq (some x) (some y) = eq x y

unfoldable pub scheme_eq : UriScheme → UriScheme → Bool
scheme_eq UriScheme.http UriScheme.http = true
scheme_eq UriScheme.https UriScheme.https = true
scheme_eq _ _ = false

unfoldable pub authority_eq : AuthorityKey → AuthorityKey → Bool
unfolding text_eq
authority_eq a b = text_eq a.host b.host && a.port == b.port

unfoldable pub policy_eq : ProtocolPolicy → ProtocolPolicy → Bool
policy_eq ProtocolPolicy.http1_only ProtocolPolicy.http1_only = true
policy_eq ProtocolPolicy.http2_only ProtocolPolicy.http2_only = true
policy_eq ProtocolPolicy.http1_or_http2 ProtocolPolicy.http1_or_http2 = true
policy_eq _ _ = false

unfoldable pub dns_eq : DnsPolicy → DnsPolicy → Bool
unfolding text_eq
dns_eq DnsPolicy.system DnsPolicy.system = true
dns_eq DnsPolicy.deferred DnsPolicy.deferred = true
dns_eq (DnsPolicy.custom a) (DnsPolicy.custom b) = text_eq a b
dns_eq _ _ = false

unfoldable pub proxy_scheme_eq : ProxyScheme → ProxyScheme → Bool
proxy_scheme_eq ProxyScheme.http ProxyScheme.http = true
proxy_scheme_eq ProxyScheme.socks5 ProxyScheme.socks5 = true
proxy_scheme_eq _ _ = false

unfoldable pub proxy_mode_eq : ProxyMode → ProxyMode → Bool
proxy_mode_eq ProxyMode.forward ProxyMode.forward = true
proxy_mode_eq ProxyMode.connect ProxyMode.connect = true
proxy_mode_eq ProxyMode.socks_tunnel ProxyMode.socks_tunnel = true
proxy_mode_eq _ _ = false

unfoldable pub credentials_eq : ProxyCredentials → ProxyCredentials → Bool
unfolding text_eq
credentials_eq a b = text_eq a.username b.username && text_eq a.password b.password

unfoldable pub endpoint_eq : ProxyEndpoint → ProxyEndpoint → Bool
unfolding proxy_scheme_eq authority_eq option_eq credentials_eq
endpoint_eq a b =
    proxy_scheme_eq a.scheme b.scheme
    && (authority_eq a.authority b.authority
        && option_eq credentials_eq a.credentials b.credentials)

unfoldable pub proxy_eq : ProxyConfig → ProxyConfig → Bool
unfolding proxy_mode_eq endpoint_eq
proxy_eq a b = proxy_mode_eq a.mode b.mode && endpoint_eq a.endpoint b.endpoint

unfoldable pub address_eq : Address → Address → Bool
unfolding scheme_eq authority_eq option_eq proxy_eq text_eq policy_eq dns_eq
address_eq a b =
    scheme_eq a.scheme b.scheme
    && (authority_eq a.authority b.authority
        && (option_eq proxy_eq a.proxy b.proxy
            && (option_eq text_eq a.tls_identity b.tls_identity
                && (policy_eq a.protocol_policy b.protocol_policy
                    && dns_eq a.dns_policy b.dns_policy))))

unfoldable pub socket_addr_eq : SocketAddr → SocketAddr → Bool
socket_addr_eq (SocketAddr.v4 a p) (SocketAddr.v4 b q) = a == b && p == q
socket_addr_eq (SocketAddr.v6 a p) (SocketAddr.v6 b q) = a == b && p == q
socket_addr_eq _ _ = false
