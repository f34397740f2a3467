-- ===== src/Policy/FollowUp.antt =====
-- crates/openwire/src/policy/follow_up.rs: the loop of a call. A turn of the loop is `turn`; the loop is
-- `run`, on fuel. The network is a function of the attempt's number and the request, so that each
-- attempt may end in any way; it and the URL parser are parameters. Listeners and logs are left out,
-- and so is the draining of a response that is followed up, whose result the loop drops.
pub mod Origins
pub mod Redirects
pub mod Bounds
pub mod Progress
pub mod Termination
use openwire.Base.{
  ℕ, zero, suc, ◌+◌, ◌%◌, ◌^◌, Bool, true, false, not, ◌&&◌, ◌||◌, List, [], ◌∷◌, Option, none,
  some, ◌==◌, if◌then◌else◌, is_some, Result, ok, err, ◌>>=◌, ◌>>◌,
}
use openwire.Policy.Types.{
  WireErrorKind, WireError, wire_error, RetryReason, RetryContext, ResponseRetryContext,
  RedirectDecision, follow, stop, fails,
}
use openwire.Policy.Redirect.{Uri, is_redirect_status, validate_request_uri, RedirectContext}
use openwire.Policy.Request.{
  HeaderMap, HeaderName, PolicyTraceContext, Extensions, Request, RequestSnapshot, capture,
  is_replayable, to_retry_request, into_redirect_request,
}
use openwire.Policy.Config.{
  Response, CookieJar, PolicyConfig, decide_retry, decide_retry_response, decide_redirect,
  retry_after, apply_request_overrides, for_policy, authenticate_response,
  should_retry_misdirected_request,
}

pub record LoopState (H J : Type 0) : Type 0 where
  pub request : Request H
  pub attempt : ℕ
  pub retries : ℕ
  pub redirects : ℕ
  pub auths : ℕ
  pub first_network_attempt : Bool
  pub jar : J

-- The end of a turn: the call returns, or the loop goes on.
pub data Turn (H J : Type 0) : Type 0 where
  returns : Response → Turn H J
  continues : LoopState H J → Turn H J

abbrev pub incr : ℕ → ℕ
incr n = (n + 1) % 2 ^ 32

-- What the loop is given.
pub record Surroundings (H : Type 0) : Type 0 where
  pub headers : HeaderMap H
  pub is_idempotent : List ℕ → Bool
  pub resolve_redirect_uri : Uri → List ℕ → Result WireError Uri
  pub parse_http_date : List ℕ → Option Bool
  pub network_ready : ℕ → Bool
  pub network : ℕ → Request H → Result WireError Response

module _ {H J : Type 0} (env : Surroundings H) (config : PolicyConfig H J)
    (request_max_retries : Option ℕ) where
  open env use {
    headers, is_idempotent, resolve_redirect_uri, parse_http_date, network_ready, network,
  }

  abbrev pub trace_of : LoopState H J → PolicyTraceContext
  trace_of s = record {
    retry_count = s.retries;
    redirect_count = s.redirects;
    auth_count = s.auths;
  }

  -- The next turn sends the request as the next attempt.
  abbrev pub next_turn : LoopState H J → Request H → LoopState H J
  next_turn s request = record s {
    request = request;
    attempt = incr s.attempt;
    first_network_attempt = false;
  }

  abbrev pub max_retries : ℕ
  max_retries = elim request_max_retries [ none ↦ config.retry.default.max_retries | some n ↦ n ]

  -- With a request to send, the redirect is followed; with none, the response is returned.
  unfoldable pub redirected : LoopState H J → Response → Option (Request H) → Turn H J
  redirected s response none = returns response
  redirected s response (some request) =
      continues (record (next_turn s request) { redirects = incr s.redirects })

  unfoldable pub redirect_trace : LoopState H J → PolicyTraceContext
  redirect_trace s = record (trace_of s) { redirect_count = incr s.redirects }

  unfoldable pub on_decision :
      LoopState H J
      → RequestSnapshot H
      → Response
      → Uri
      → RedirectDecision
      → Result WireError (Turn H J)
  unfolding redirected into_redirect_request redirect_trace
  on_decision s snapshot response next_uri (fails error) = err error
  on_decision s snapshot response next_uri stop = ok (returns response)
  on_decision s snapshot response next_uri follow =
      into_redirect_request headers snapshot response.status next_uri (redirect_trace s)
        response.selected_proxy
      >>= λ request. ok (redirected s response request)

  abbrev pub stops_redirects : Bool
  stops_redirects =
      not (is_some config.redirect.custom) && not config.redirect.default.follow_redirects

  unfoldable pub redirect_context :
      LoopState H J → RequestSnapshot H → Response → Uri → RedirectContext
  redirect_context s snapshot response next_uri = record {
    request_uri = snapshot.uri;
    response_status = response.status;
    location = next_uri;
    redirect_count = s.redirects;
  }

  unfoldable pub on_location :
      LoopState H J → RequestSnapshot H → Response → Uri → Result WireError (Turn H J)
  unfolding on_decision decide_redirect validate_request_uri redirect_context
  on_location s snapshot response next_uri =
      validate_request_uri next_uri
      >> on_decision s snapshot response next_uri
          (decide_redirect config.redirect (redirect_context s snapshot response next_uri))

  unfoldable pub redirect_to :
      LoopState H J → RequestSnapshot H → Response → Option (List ℕ) → Result WireError (Turn H J)
  unfolding on_location
  redirect_to s snapshot response none = ok (returns response)
  redirect_to s snapshot response (some location) =
      resolve_redirect_uri snapshot.uri location >>= on_location s snapshot response

  unfoldable pub on_redirect :
      LoopState H J → RequestSnapshot H → Response → Result WireError (Turn H J)
  unfolding redirect_to is_redirect_status
  on_redirect s snapshot response =
      if stops_redirects || not (is_redirect_status response.status)
      then ok (returns response)
      else redirect_to s snapshot response response.location

  unfoldable pub resent : LoopState H J → (Extensions → Extensions) → Request H → Turn H J
  resent s mark request =
      continues (next_turn s (record request { extensions = mark request.extensions }))

  -- A retry of the snapshot; it may be kept off coalesced connections.
  unfoldable pub retried :
      LoopState H J → RequestSnapshot H → (Extensions → Extensions) → Result WireError (Turn H J)
  unfolding to_retry_request resent
  retried s snapshot mark =
      let t = record s { retries = incr s.retries } in
      to_retry_request snapshot (trace_of t) >>= λ request. ok (resent t mark request)

  unfoldable pub on_retry :
      LoopState H J
      → RequestSnapshot H
      → Response
      → Option RetryReason
      → Result WireError (Turn H J)
  unfolding retried on_redirect
  on_retry s snapshot response none = on_redirect s snapshot response
  on_retry s snapshot response (some reason) = retried s snapshot (λ e. e)

  unfoldable pub response_context :
      LoopState H J → RequestSnapshot H → Response → ResponseRetryContext
  unfolding retry_after
  response_context s snapshot response = record {
    response_status = response.status;
    retry_count = s.retries;
    body_replayable = is_replayable snapshot;
    is_idempotent = is_idempotent snapshot.method;
    retry_after = retry_after parse_http_date response.retry_after;
  }

  unfoldable pub retry_response_reason :
      LoopState H J → RequestSnapshot H → Response → Option RetryReason
  unfolding decide_retry_response response_context
  retry_response_reason s snapshot response =
      decide_retry_response config.retry (response_context s snapshot response)

  unfoldable pub on_answer :
      LoopState H J
      → RequestSnapshot H
      → Response
      → Option (Request H × ℕ)
      → Result WireError (Turn H J)
  unfolding should_retry_misdirected_request retried on_retry retry_response_reason
  on_answer s snapshot response (some (request, auths)) =
      ok (continues (record (next_turn s request) { auths = auths }))
  on_answer s snapshot response none =
      if should_retry_misdirected_request snapshot response s.retries max_retries
      then retried s snapshot (λ e. record e { no_coalesced_connections = true })
      else on_retry s snapshot response (retry_response_reason s snapshot response)

  unfoldable pub store_response_cookies :
      Option (CookieJar J) → Response → Uri → J → Result WireError J
  unfolding wire_error
  store_response_cookies none response uri jar = ok jar
  store_response_cookies (some ops) response uri jar = elim response.set_cookie [
    | [] ↦ ok jar
    | c ∷ cs ↦
        if ops.is_url uri
        then ok (ops.set_cookies (c ∷ cs) uri jar)
        else err (wire_error WireErrorKind.invalid_request)
  ]

  unfoldable pub apply_request_cookies :
      Option (CookieJar J) → J → Request H → Result WireError (Request H)
  unfolding wire_error
  apply_request_cookies none jar request = ok request
  apply_request_cookies (some ops) jar request =
      if headers.contains_key HeaderName.cookie request.headers
      then ok request
      else if ops.is_url request.uri
      then elim (ops.cookies request.uri jar) [
        | none ↦ ok request
        | some value ↦
            ok (record request { headers = headers.insert HeaderName.cookie value request.headers })
      ]
      else err (wire_error WireErrorKind.invalid_request)

  unfoldable pub on_stored :
      LoopState H J → RequestSnapshot H → Response → J → Result WireError (Turn H J)
  unfolding authenticate_response on_answer
  on_stored s snapshot response jar =
      authenticate_response config snapshot response s.attempt (trace_of s)
      >>= on_answer (record s { jar = jar }) snapshot response

  unfoldable pub on_response :
      LoopState H J → RequestSnapshot H → Response → Result WireError (Turn H J)
  unfolding store_response_cookies on_stored
  on_response s snapshot response =
      store_response_cookies config.cookie_jar response snapshot.uri s.jar
      >>= on_stored s snapshot response

  unfoldable pub on_reason :
      LoopState H J
      → RequestSnapshot H
      → WireError
      → Option RetryReason
      → Result WireError (Turn H J)
  unfolding retried
  on_reason s snapshot error none = err error
  on_reason s snapshot error (some reason) = retried s snapshot (λ e. e)

  unfoldable pub error_context : LoopState H J → RequestSnapshot H → WireError → RetryContext
  error_context s snapshot error = record {
    error = error;
    attempt = s.retries;
    body_replayable = is_replayable snapshot;
    is_idempotent = is_idempotent snapshot.method;
  }

  unfoldable pub on_error :
      LoopState H J → RequestSnapshot H → WireError → Result WireError (Turn H J)
  unfolding on_reason decide_retry error_context
  on_error s snapshot error =
      on_reason s snapshot error (decide_retry config.retry (error_context s snapshot error))

  unfoldable pub on_result :
      LoopState H J → RequestSnapshot H → Result WireError Response → Result WireError (Turn H J)
  unfolding on_response on_error
  on_result s snapshot (ok response) = on_response s snapshot response
  on_result s snapshot (err error) = on_error s snapshot error

  -- The network must be ready again before any attempt but the first.
  unfoldable pub send : LoopState H J → RequestSnapshot H → Request H → Result WireError (Turn H J)
  unfolding on_result wire_error
  send s snapshot request =
      if s.first_network_attempt || network_ready s.attempt
      then on_result s snapshot (network s.attempt request)
      else err (wire_error WireErrorKind.internal)

  unfoldable pub traced : LoopState H J → Request H
  traced s = record (s.request) {
    extensions = record (s.request.extensions) { policy_trace = some (trace_of s) };
  }

  unfoldable pub turn : LoopState H J → Result WireError (Turn H J)
  unfolding validate_request_uri for_policy capture apply_request_cookies send traced
  turn s =
      validate_request_uri s.request.uri
      >> (apply_request_cookies config.cookie_jar s.jar (traced s)
          >>= send s (capture (traced s) (for_policy config)))

  -- The loop, with at most `fuel` turns; `none` where they are not enough.
  unfoldable pub go_on :
      Result WireError (Turn H J)
      → (LoopState H J → Option (Result WireError Response))
      → Option (Result WireError Response)
  go_on (err error) rest = some (err error)
  go_on (ok (returns response)) rest = some (ok response)
  go_on (ok (continues s)) rest = rest s

  unfoldable pub run : ℕ → LoopState H J → Option (Result WireError Response)
  unfolding go_on turn
  run zero s = none
  run (suc fuel) s = go_on (turn s) (run fuel)

-- `call`: the loop starts at the counts that the request brings along.
unfoldable pub call :
    {H J : Type 0}
    → Surroundings H
    → PolicyConfig H J
    → ℕ
    → Request H
    → ℕ
    → J
    → Option (Result WireError Response)
unfolding run apply_request_overrides
call env config fuel request attempt jar =
    let e = request.extensions in
    let trace : PolicyTraceContext = elim e.policy_trace [
      | none ↦ record { retry_count = 0; redirect_count = 0; auth_count = 0 }
      | some t ↦ t
    ] in
    run env (apply_request_overrides config e)
      (elim e.request_config [ none ↦ none | some c ↦ some c.max_retries ]) fuel
      (record {
        request = request;
        attempt = attempt;
        retries = trace.retry_count;
        redirects = trace.redirect_count;
        auths = trace.auth_count;
        first_network_attempt = true;
        jar = jar;
      })
