-- ===== src/Policy/Examples.antt =====
-- The policies and the loop of a call at concrete inputs.
use openwire.Base.{
  ◌↔◌, ◌⊎◌, inr, ℕ, ◌<◌, ◌≡◌, refl, Bool, true, false, List, [], ◌∷◌, none, some, is_some, retain,
  ok, arith, if◌then◌else◌,
}
use openwire.Policy.Types.{
  WireErrorKind, wire_error, RetryAfter, RetryContext, ResponseRetryContext, follow,
}
use openwire.Policy.Retry.{default_retry_policy}
use openwire.Policy.Redirect.{
  Uri, https_scheme, default_redirect_policy, RedirectContext, should_redirect, same_origin,
}
use openwire.Policy.Request.{
  HeaderName, HeaderMap, RequestBody, absent, PolicyTraceContext, Extensions, Request,
  RequestSnapshot, into_redirect_request, get_method, switches_to_get,
}
use openwire.Policy.Config.{Response, PolicyConfig, Authenticator}
use openwire.Policy.FollowUp.{LoopState, Surroundings, run}
use openwire.Policy.FollowUp.Bounds.{IsRedirect, Downgrades, should_redirect-follow}
use openwire.Text.{codes, to_ascii_lowercase}
use openwire.Policy.FollowUp.Origins.{SameOrigin}
use openwire.Policy.FollowUp.Redirects.{
  Stripped, Bodiless, into_redirect_request-cross, into_redirect_request-get,
}
use openwire.Policy.FollowUp.Progress.{IsDefault, remaining}
use openwire.Policy.FollowUp.Termination.{run-enough}

-- A header map that knows only whether there are credentials: everything else is dropped.
abbrev is_authorization : HeaderName → Bool
is_authorization HeaderName.authorization = true
is_authorization _ = false

abbrev keeps : HeaderName → Bool → Bool
keeps n h = if is_authorization n then h else false

abbrev without : HeaderName → Bool → Bool
without n h = if is_authorization n then false else h

abbrev with : HeaderName → List ℕ → Bool → Bool
with n v h = if is_authorization n then true else h

keeps-without : (n : HeaderName) (h : Bool) → keeps n (without n h) ≡ false
keeps-without n h = ground arith

keeps-without_other :
    (m n : HeaderName) (h : Bool) → keeps m h ≡ false → keeps m (without n h) ≡ false
keeps-without_other m n h e = ground arith

abbrev credentials_map : HeaderMap Bool
credentials_map = record {
  contains_key = keeps;
  remove = without;
  insert = with;
  contains_key-remove = keeps-without;
  contains_key-remove_other = keeps-without_other;
}

abbrev uri_of : List ℕ → List ℕ → Uri
uri_of scheme host = record {
  scheme_str = some scheme;
  authority = some host;
  host = some host;
  port_u16 = none;
}

abbrev here : Uri
here = uri_of https_scheme (b'a' ∷ [])

abbrev there : Uri
there = uri_of https_scheme (b'b' ∷ [])

abbrev plain_extensions : Extensions
plain_extensions = record {
  request_config = none;
  has_retry_overrides = false;
  has_redirect_overrides = false;
  policy_trace = none;
  cached_addresses = none;
  selected_proxy = none;
  dispatcher_queued = false;
  no_coalesced_connections = false;
}

abbrev post_method : List ℕ
post_method = b'P' ∷ b'O' ∷ b'S' ∷ b'T' ∷ []

abbrev post_request : Request Bool
post_request = record {
  method = post_method;
  uri = here;
  version = 11;
  headers = true;
  extensions = plain_extensions;
  body = RequestBody.replayable (1 ∷ []);
}

abbrev post_snapshot : RequestSnapshot Bool
post_snapshot = record {
  method = post_method;
  uri = here;
  version = 11;
  headers = some true;
  extensions = some plain_extensions;
  body = some (RequestBody.replayable (1 ∷ []));
}

abbrev no_counts : PolicyTraceContext
no_counts = record { retry_count = 0; redirect_count = 0; auth_count = 0 }

abbrev redirected_post : Request Bool
redirected_post = record {
  method = get_method;
  uri = there;
  version = 11;
  headers = false;
  extensions = record plain_extensions { policy_trace = some no_counts };
  body = absent;
}

different_hosts : ¬ SameOrigin here there
unfolding to_ascii_lowercase
different_hosts o = absurd (ground (arith, o.hosts))

into_redirect_request-cross_example : Stripped credentials_map false
unfolding into_redirect_request same_origin
into_redirect_request-cross_example =
    into_redirect_request-cross credentials_map post_snapshot 303 there no_counts none
      redirected_post refl different_hosts

into_redirect_request-get_example :
    (redirected_post.method ≡ codes "GET")
    × (redirected_post.body ≡ absent)
    × Bodiless credentials_map false
unfolding into_redirect_request switches_to_get
into_redirect_request-get_example =
    into_redirect_request-get credentials_map post_snapshot 303 there no_counts none redirected_post
      refl (inr (inr refl)) (λ e. absurd (ground arith)) (λ e. absurd (ground arith))

abbrev dns_failure : RetryContext
dns_failure = record {
  error = wire_error WireErrorKind.dns;
  attempt = 0;
  body_replayable = true;
  is_idempotent = false;
}

abbrev unavailable : ResponseRetryContext
unavailable = record {
  response_status = 503;
  retry_count = 0;
  body_replayable = true;
  is_idempotent = true;
  retry_after = some RetryAfter.immediate;
}

abbrev moved : RedirectContext
moved = record { request_uri = here; response_status = 301; location = there; redirect_count = 9 }

should_redirect-follow_example :
    (should_redirect default_redirect_policy moved ≡ follow)
    ↔ ((true ≡ true) × IsRedirect 301 × (9 < 10) × ((false ≡ true) ⊎ (¬ Downgrades moved)))
should_redirect-follow_example = should_redirect-follow default_redirect_policy moved

abbrev challenge : Response
challenge = record {
  status = 401;
  location = none;
  retry_after = [];
  set_cookie = [];
  selected_proxy = none;
  coalesced_connection_retryable = false;
}

-- The authenticator sends the same request again.
abbrev answers : Authenticator Bool
answers snapshot response attempt trace = ok (some post_request)

abbrev call_config : PolicyConfig Bool (Unit {0})
call_config = record {
  cookie_jar = none;
  authenticator = some answers;
  proxy_authenticator = none;
  max_auth_attempts = 3;
  retry = record { default = default_retry_policy; custom = none };
  redirect = record { default = default_redirect_policy; custom = none };
}

-- A network that always asks for credentials.
abbrev challenging : Surroundings Bool
challenging = record {
  headers = credentials_map;
  is_idempotent = λ m. false;
  resolve_redirect_uri = λ uri location. ok there;
  parse_http_date = λ value. none;
  network_ready = λ attempt. true;
  network = λ attempt request. ok challenge;
}

abbrev first_turn : LoopState Bool (Unit {0})
first_turn = record {
  request = post_request;
  attempt = 0;
  retries = 0;
  redirects = 0;
  auths = 0;
  first_network_attempt = true;
  jar = tt;
}

call_config-IsDefault : IsDefault challenging call_config none
call_config-IsDefault = record {
  retry = refl;
  redirect = refl;
  retries_fit = omega arith;
  redirects_fit = omega arith;
  auths_fit = omega arith;
}

-- Three answers to the challenge, and then the response is returned.
three_answers_test : run challenging call_config none 4 first_turn ≡ some (ok challenge)
unfolding run retain
three_answers_test = refl

run-enough_example : is_some (run challenging call_config none 15 first_turn) ≡ true
unfolding remaining
run-enough_example =
    run-enough challenging call_config none 15 first_turn call_config-IsDefault (omega arith)
