-- ===== src/Proxy/Rules.antt =====
-- crates/openwire/src/proxy.rs: proxy rules and the selection for a request. The crate url is a
-- parameter.
use openwire.Base.{
  ℕ, Bool, true, false, not, ◌&&◌, ◌||◌, List, [], ◌∷◌, ◌++◌, map, Option, none, some, is_some,
  if◌then◌else◌, retain, Result, ok, err, ◌>>=◌,
}
use openwire.Text.{text_eq, codes, to_ascii_lowercase}
use openwire.Policy.Types.{WireError}
use openwire.Connection.Planning.{ProxyCredentials}
use openwire.Proxy.Exclusions.{IpAddr, NoProxy, invalid, no_proxy_matches, parse_no_proxy}

-- A `Uri` by what is read of it, and a `Url` that is parsed and may lose its credentials.
pub record ProxyUrls (R : Type 0) : Type 0 where
  pub parse : List ℕ → Option R
  pub scheme : R → List ℕ
  pub host_str : R → Option (List ℕ)
  pub username : R → List ℕ
  pub password : R → Option (List ℕ)
  pub clear_credentials : R → R
  pub same_url : R → R → Bool
  pub parse_ip : List ℕ → Option IpAddr

pub record RequestUri : Type 0 where
  pub scheme_str : Option (List ℕ)
  pub host : Option (List ℕ)

pub data ProxyIntercept : Type 0 where
  http https all_schemes : ProxyIntercept

pub record Proxy (R : Type 0) : Type 0 where
  pub target : R
  pub intercept : ProxyIntercept
  pub no_proxy : Option NoProxy
  pub credentials : Option ProxyCredentials

pub record SelectedProxy (R : Type 0) : Type 0 where
  pub target : R
  pub intercept : ProxyIntercept
  pub credentials : Option ProxyCredentials

pub data ProxyChoice (R : Type 0) : Type 0 where
  connect_directly : ProxyChoice R
  through : Proxy R → ProxyChoice R

-- The last binding of a name that is not empty.
unfoldable pub variable : List ℕ → List (List ℕ × List ℕ) → Option (List ℕ)
unfolding text_eq
variable name [] = none
variable name ((key, value) ∷ vars) = elim (variable name vars) [
  | some found ↦ some found
  | none ↦ elim value [ [] ↦ none | c ∷ cs ↦ if text_eq key name then some (c ∷ cs) else none ]
]

-- The first of two names that is bound.
abbrev pub lookup_proxy_var : List (List ℕ × List ℕ) → List ℕ → List ℕ → Option (List ℕ)
lookup_proxy_var vars name other = elim (variable name vars) [
  | some value ↦ some value
  | none ↦ variable other vars
]

module _ {R : Type 0} (urls : ProxyUrls R) where
  open urls use {parse, scheme, host_str, username, password, clear_credentials, same_url, parse_ip}

  -- `ProxyCredentials::from_url`.
  unfoldable pub credentials_from_url : R → Result WireError (Option ProxyCredentials)
  credentials_from_url url = elim (username url) [
    | [] ↦ elim (password url) [ none ↦ ok none | some word ↦ invalid ]
    | c ∷ name ↦ elim (password url) [
      | none ↦ ok (some record { username = c ∷ name; password = [] })
      | some word ↦ ok (some record { username = c ∷ name; password = word })
    ]
  ]

  abbrev without_credentials : Option ProxyCredentials → R → R
  without_credentials none url = url
  without_credentials (some credentials) url = clear_credentials url

  unfoldable pub from_target : R → ProxyIntercept → Result WireError (Proxy R)
  unfolding credentials_from_url
  from_target target intercept = do
    credentials ← credentials_from_url target
    ok record {
      target = without_credentials credentials target;
      intercept = intercept;
      no_proxy = none;
      credentials = credentials;
    }

  unfoldable pub parse_proxy_target : List ℕ → List ℕ → Result WireError R
  unfolding text_eq to_ascii_lowercase
  parse_proxy_target target allowed = elim (parse target) [
    | none ↦ invalid
    | some url ↦
        if not (text_eq (to_ascii_lowercase (scheme url)) allowed)
        then invalid
        else if is_some (host_str url)
        then ok url
        else invalid
  ]

  -- The constructors of a rule: for http, https or all requests, and for a SOCKS endpoint.
  abbrev pub http_proxy : ProxyIntercept → List ℕ → Result WireError (Proxy R)
  http_proxy intercept target =
      parse_proxy_target target (codes "http") >>= λ url. from_target url intercept

  abbrev pub socks5_proxy : List ℕ → Result WireError (Proxy R)
  socks5_proxy target =
      parse_proxy_target target (codes "socks5") >>= λ url. from_target url all_schemes

  abbrev covers : ProxyIntercept → List ℕ → Bool
  covers http scheme_str = text_eq scheme_str (codes "http")
  covers https scheme_str = text_eq scheme_str (codes "https")
  covers all_schemes scheme_str =
      text_eq scheme_str (codes "http") || text_eq scheme_str (codes "https")

  abbrev covers_some : ProxyIntercept → Option (List ℕ) → Bool
  covers_some intercept none = false
  covers_some intercept (some scheme_str) = covers intercept scheme_str

  -- Whether the rules let a host pass; a URI without a host does not, where there are rules.
  abbrev lets_pass : Option NoProxy → Option (List ℕ) → Bool
  lets_pass none host = true
  lets_pass (some rules) none = false
  lets_pass (some rules) (some host) = not (no_proxy_matches parse_ip rules host)

  -- `Proxy::matches`.
  unfoldable pub proxy_matches : RequestUri → Proxy R → Bool
  unfolding no_proxy_matches text_eq
  proxy_matches uri proxy =
      lets_pass proxy.no_proxy uri.host && covers_some proxy.intercept uri.scheme_str

  unfoldable pub matching_proxies : List (Proxy R) → RequestUri → List (Proxy R)
  unfolding retain proxy_matches
  matching_proxies proxies uri = retain (proxy_matches uri) proxies

  unfoldable pub proxy_from_env : List ℕ → ProxyIntercept → Result WireError (Proxy R)
  unfolding text_eq from_target
  proxy_from_env target intercept = elim (parse target) [
    | none ↦ invalid
    | some url ↦
        if not (is_some (host_str url))
        then invalid
        else if text_eq (scheme url) (codes "http") || text_eq (scheme url) (codes "socks5")
        then from_target url intercept
        else invalid
  ]

  abbrev rule_from :
      Option (List ℕ) → ProxyIntercept → Option NoProxy → Result WireError (List (Proxy R))
  rule_from none intercept rules = ok []
  rule_from (some target) intercept none =
      proxy_from_env target intercept >>= λ proxy. ok (proxy ∷ [])
  rule_from (some target) intercept (some rules) =
      proxy_from_env target intercept >>= λ proxy. ok (record proxy { no_proxy = some rules } ∷ [])

  abbrev no_proxy_from : Option (List ℕ) → Result WireError (Option NoProxy)
  no_proxy_from none = ok none
  no_proxy_from (some value) = parse_no_proxy parse_ip value >>= λ rules. ok (some rules)

  unfoldable pub system_proxies : List (List ℕ × List ℕ) → Result WireError (List (Proxy R))
  unfolding variable parse_no_proxy proxy_from_env
  system_proxies vars = do
    rules ← no_proxy_from (lookup_proxy_var vars (codes "NO_PROXY") (codes "no_proxy"))
    first ← rule_from (lookup_proxy_var vars (codes "http_proxy") (codes "HTTP_PROXY")) http rules
    second ←
        rule_from (lookup_proxy_var vars (codes "https_proxy") (codes "HTTPS_PROXY")) https rules
    third ←
        rule_from (lookup_proxy_var vars (codes "all_proxy") (codes "ALL_PROXY")) all_schemes rules
    ok (first ++ (second ++ third))

  abbrev pub from_proxies : List (Proxy R) → List (ProxyChoice R)
  from_proxies proxies = map through proxies

  abbrev or_direct : List (Proxy R) → List (ProxyChoice R)
  or_direct [] = connect_directly ∷ []
  or_direct (p ∷ ps) = from_proxies (p ∷ ps)

  -- `ProxyRules::select`, with the variables of the environment.
  unfoldable pub select :
      List (Proxy R)
      → Bool
      → List (List ℕ × List ℕ)
      → RequestUri
      → Result WireError (List (ProxyChoice R))
  unfolding matching_proxies system_proxies
  select proxies use_system_proxy vars uri = elim (matching_proxies proxies uri) [
    | p ∷ ps ↦ ok (from_proxies (p ∷ ps))
    | [] ↦
        if use_system_proxy
        then (elim (system_proxies vars) [
          | err e ↦ err e
          | ok found ↦ ok (or_direct (matching_proxies found uri))
        ])
        else ok (connect_directly ∷ [])
  ]
