-- ===== src/Policy/Redirect.antt =====
-- crates/openwire/src/policy/defaults.rs and follow_up.rs: the default redirect policy, the checks of
-- a request's URI and the comparison of origins. A URI is what the code reads of it.
use openwire.Base.{
  ℕ, Bool, true, false, not, ◌&&◌, ◌||◌, List, [], ◌∷◌, Option, none, some, leb, ◌==◌,
  if◌then◌else◌, any, Result, ok, err, ◌>>=◌,
}
use openwire.Text.{text_eq, to_ascii_lowercase}
use openwire.Policy.Types.{
  WireErrorKind, WireError, wire_error, with_response_status, RedirectDecision, follow, stop, fails,
}

abbrev pub http_scheme : List ℕ
http_scheme = b'h' ∷ b't' ∷ b't' ∷ b'p' ∷ []

abbrev pub https_scheme : List ℕ
https_scheme = b'h' ∷ b't' ∷ b't' ∷ b'p' ∷ b's' ∷ []

pub record Uri : Type 0 where
  pub scheme_str : Option (List ℕ)
  pub authority : Option (List ℕ)
  pub host : Option (List ℕ)
  pub port_u16 : Option ℕ

pub record DefaultRedirectPolicy : Type 0 where
  pub follow_redirects : Bool
  pub max_redirects : ℕ
  pub allow_insecure_redirects : Bool

abbrev pub default_redirect_policy : DefaultRedirectPolicy
default_redirect_policy = record {
  follow_redirects = true;
  max_redirects = 10;
  allow_insecure_redirects = false;
}

pub record RedirectContext : Type 0 where
  pub request_uri : Uri
  pub response_status : ℕ
  pub location : Uri
  pub redirect_count : ℕ

unfoldable pub is_redirect_status : ℕ → Bool
is_redirect_status status = any (λ s. s == status) (301 ∷ 302 ∷ 303 ∷ 307 ∷ 308 ∷ [])

unfoldable pub has_scheme : List ℕ → Uri → Bool
unfolding text_eq
has_scheme scheme uri = elim uri.scheme_str [ none ↦ false | some s ↦ text_eq s scheme ]

-- A redirect from https to http.
unfoldable pub is_insecure : RedirectContext → Bool
unfolding has_scheme
is_insecure ctx = has_scheme https_scheme ctx.request_uri && has_scheme http_scheme ctx.location

unfoldable pub should_redirect : DefaultRedirectPolicy → RedirectContext → RedirectDecision
unfolding is_redirect_status is_insecure wire_error with_response_status
should_redirect p ctx =
    let error = with_response_status ctx.response_status (wire_error WireErrorKind.redirect) in
    if not p.follow_redirects || not (is_redirect_status ctx.response_status)
    then stop
    else if leb p.max_redirects ctx.redirect_count
    then fails error
    else if not p.allow_insecure_redirects && is_insecure ctx
    then fails error
    else follow

abbrev pub invalid_request : {A : Type 0} → Result WireError A
invalid_request = err (wire_error WireErrorKind.invalid_request)

unfoldable pub check_host : Option (List ℕ) → Result WireError (Unit {0})
unfolding wire_error
check_host none = invalid_request
check_host (some host) = ok tt

unfoldable pub check_authority : Option (List ℕ) → Option (List ℕ) → Result WireError (Unit {0})
unfolding wire_error check_host
check_authority none host = invalid_request
check_authority (some authority) host =
    if any (λ c. c == b'@') authority then invalid_request else check_host host

unfoldable pub check_scheme : Option (List ℕ) → Uri → Result WireError (Unit {0})
unfolding wire_error check_authority text_eq
check_scheme none uri = invalid_request
check_scheme (some scheme) uri =
    if text_eq scheme http_scheme || text_eq scheme https_scheme
    then check_authority uri.authority uri.host
    else invalid_request

unfoldable pub validate_request_uri : Uri → Result WireError (Unit {0})
unfolding check_scheme
validate_request_uri uri = check_scheme uri.scheme_str uri

pub record OriginKey : Type 0 where
  pub scheme : List ℕ
  pub host : List ℕ
  pub port : ℕ

abbrev pub port_or : Option ℕ → ℕ → ℕ
port_or none n = n
port_or (some port) n = port

unfoldable pub origin_with_host : List ℕ → ℕ → Uri → Option (List ℕ) → Result WireError OriginKey
unfolding wire_error to_ascii_lowercase
origin_with_host scheme default_port uri none = invalid_request
origin_with_host scheme default_port uri (some host) = ok (record {
  scheme = scheme;
  host = to_ascii_lowercase host;
  port = port_or uri.port_u16 default_port;
})

unfoldable pub origin_with_scheme : Option (List ℕ) → Uri → Result WireError OriginKey
unfolding wire_error origin_with_host text_eq
origin_with_scheme none uri = invalid_request
origin_with_scheme (some scheme) uri =
    if text_eq scheme http_scheme
    then origin_with_host http_scheme 80 uri uri.host
    else if text_eq scheme https_scheme
    then origin_with_host https_scheme 443 uri uri.host
    else invalid_request

-- `OriginKey::from_uri`.
unfoldable pub from_uri : Uri → Result WireError OriginKey
unfolding origin_with_scheme
from_uri uri = origin_with_scheme uri.scheme_str uri

abbrev pub origin_eq : OriginKey → OriginKey → Bool
origin_eq a b = text_eq a.scheme b.scheme && (text_eq a.host b.host && a.port == b.port)

unfoldable pub same_origin : Uri → Uri → Result WireError Bool
unfolding from_uri text_eq
same_origin left right = do l ← from_uri left; r ← from_uri right; ok (origin_eq l r)
