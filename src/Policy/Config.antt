-- ===== src/Policy/Config.antt =====
-- crates/openwire/src/policy/follow_up.rs: the configuration of a call, and what the loop asks of a
-- response. The cookie jar, the authenticators, custom policies and the date parser are parameters.
use openwire.Base.{
  ℕ, ◌+◌, ◌*◌, ◌%◌, ◌^◌, Bool, true, false, not, ◌&&◌, ◌||◌, List, [], ◌∷◌, Option, none, some, ltb,
  leb, ◌==◌, if◌then◌else◌, is_some, Result, ok, err, ◌>>=◌,
}
use openwire.Text.{parse_unsigned}
use openwire.Policy.Types.{
  WireError, wire_error, with_response_status, RetryReason, RetryAfter, RetryContext,
  ResponseRetryContext, RedirectDecision,
}
use openwire.Policy.Retry.{DefaultRetryPolicy, should_retry, should_retry_response}
use openwire.Policy.Redirect.{Uri, DefaultRedirectPolicy, RedirectContext, should_redirect}
use openwire.Policy.Request.{
  PolicyTraceContext, EffectiveRequestConfig, Extensions, Request, SnapshotCaptureMode,
  RequestSnapshot, reset_network_attempt_extensions, internal_or, is_replayable,
}

-- What the policies read of a response: `retry_after` has the values of that header, `none` where one
-- is no text; `location` the text of that header.
pub record Response : Type 0 where
  pub status : ℕ
  pub location : Option (List ℕ)
  pub retry_after : List (Option (List ℕ))
  pub set_cookie : List (List ℕ)
  pub selected_proxy : Option ℕ
  pub coalesced_connection_retryable : Bool

-- A custom retry policy: its two methods.
pub record RetryPolicy : Type 0 where
  pub on_error : RetryContext → Option RetryReason
  pub on_response : ResponseRetryContext → Option RetryReason

pub record RetryPolicyConfig : Type 0 where
  pub default : DefaultRetryPolicy
  pub custom : Option RetryPolicy

pub record RedirectPolicyConfig : Type 0 where
  pub default : DefaultRedirectPolicy
  pub custom : Option (RedirectContext → RedirectDecision)

-- The jar's two methods, on its state; and whether the URI is a URL for it.
pub record CookieJar (J : Type 0) : Type 0 where
  pub cookies : Uri → J → Option (List ℕ)
  pub set_cookies : List (List ℕ) → Uri → J → J
  pub is_url : Uri → Bool

abbrev pub Authenticator : Type 0 → Type 0
Authenticator H =
    RequestSnapshot H → Response → ℕ → PolicyTraceContext → Result WireError (Option (Request H))

pub record PolicyConfig (H J : Type 0) : Type 0 where
  pub cookie_jar : Option (CookieJar J)
  pub authenticator : Option (Authenticator H)
  pub proxy_authenticator : Option (Authenticator H)
  pub max_auth_attempts : ℕ
  pub retry : RetryPolicyConfig
  pub redirect : RedirectPolicyConfig

unfoldable pub decide_retry : RetryPolicyConfig → RetryContext → Option RetryReason
unfolding should_retry
decide_retry config ctx = elim config.custom [
  | none ↦ should_retry config.default ctx
  | some p ↦ p.on_error ctx
]

unfoldable pub decide_retry_response : RetryPolicyConfig → ResponseRetryContext → Option RetryReason
unfolding should_retry_response
decide_retry_response config ctx = elim config.custom [
  | none ↦ should_retry_response config.default ctx
  | some p ↦ p.on_response ctx
]

unfoldable pub decide_redirect : RedirectPolicyConfig → RedirectContext → RedirectDecision
unfolding should_redirect
decide_redirect config ctx = elim config.custom [
  | none ↦ should_redirect config.default ctx
  | some p ↦ p ctx
]

unfoldable pub override_retry : EffectiveRequestConfig → RetryPolicyConfig → RetryPolicyConfig
override_retry c r = record {
  default = record (r.default) {
    retry_on_connection_failure = c.retry_on_connection_failure;
    max_retries = c.max_retries;
    retry_canceled_requests = c.retry_canceled_requests;
  };
  custom = none;
}

unfoldable pub override_redirect :
    EffectiveRequestConfig → RedirectPolicyConfig → RedirectPolicyConfig
override_redirect c r = record {
  default = record {
    follow_redirects = c.follow_redirects;
    max_redirects = c.max_redirects;
    allow_insecure_redirects = c.allow_insecure_redirects;
  };
  custom = none;
}

abbrev of_seconds : ℕ → RetryAfter
of_seconds seconds = if seconds == 0 then RetryAfter.immediate else RetryAfter.delayed

-- The date parser's answer: whether the instant is not after now.
abbrev of_date : Option Bool → RetryAfter
of_date none = RetryAfter.invalid
of_date (some true) = RetryAfter.immediate
of_date (some false) = RetryAfter.delayed

unfoldable pub retry_after : (List ℕ → Option Bool) → List (Option (List ℕ)) → Option RetryAfter
unfolding parse_unsigned
retry_after parse_http_date [] = none
retry_after parse_http_date (none ∷ []) = some RetryAfter.invalid
retry_after parse_http_date (some value ∷ []) = elim (parse_unsigned (2 ^ 64) value) [
  | some seconds ↦ some (of_seconds seconds)
  | none ↦ some (of_date (parse_http_date value))
]
retry_after parse_http_date (_ ∷ _ ∷ _) = some RetryAfter.invalid

-- `INTERMEDIATE_BODY_DRAIN_LIMIT`.
abbrev pub drain_limit : ℕ
drain_limit = 256 * 1024

-- The frames of a body: an error, or the length of its data. What is left undrained comes back.
unfoldable pub drain_intermediate_response : ℕ → List (Option ℕ) → List (Option ℕ)
drain_intermediate_response read [] = []
drain_intermediate_response read (none ∷ frames) = frames
drain_intermediate_response read (some n ∷ frames) =
    let rest = drain_intermediate_response (read + n) frames in
    if ltb drain_limit (read + n) then frames else rest

abbrev pub failed_with : {A : Type 0} → ℕ → Result WireError A → Result WireError A
failed_with status (err e) = err (with_response_status status e)
failed_with status (ok a) = ok a

module _ {H : Type 0} where
  unfoldable pub authenticated :
      PolicyTraceContext → Option ℕ → Option (Request H) → Option (Request H × ℕ)
  unfolding reset_network_attempt_extensions
  authenticated trace selected_proxy none = none
  authenticated trace selected_proxy (some request) =
      let next = (trace.auth_count + 1) % 2 ^ 32 in
      some (
        record request {
          extensions = record (reset_network_attempt_extensions request.extensions selected_proxy) {
            policy_trace = some (record trace { auth_count = next });
          };
        },
        next,
      )

  unfoldable pub ask_authenticator :
      RequestSnapshot H
      → Response
      → ℕ
      → PolicyTraceContext
      → Authenticator H
      → Result WireError (Option (Request H × ℕ))
  unfolding authenticated wire_error with_response_status
  ask_authenticator snapshot response attempt trace authenticate = do
    headers ← internal_or snapshot.headers
    extensions ← internal_or snapshot.extensions
    answer ← failed_with response.status (authenticate snapshot response attempt trace)
    ok (authenticated trace response.selected_proxy answer)

  -- The cast `max_retries as u32` is written out.
  unfoldable pub should_retry_misdirected_request : RequestSnapshot H → Response → ℕ → ℕ → Bool
  should_retry_misdirected_request snapshot response retry_count max_retries =
      (response.status == 421 && is_replayable snapshot)
      && (ltb retry_count (max_retries % 2 ^ 32) && response.coalesced_connection_retryable)

module _ {H J : Type 0} where
  unfoldable pub apply_request_overrides : PolicyConfig H J → Extensions → PolicyConfig H J
  unfolding override_retry override_redirect
  apply_request_overrides config e = elim e.request_config [
    | none ↦ config
    | some c ↦ record config {
      retry =
          if e.has_retry_overrides && not (is_some config.retry.custom)
          then override_retry c config.retry
          else config.retry;
      redirect =
          if e.has_redirect_overrides && not (is_some config.redirect.custom)
          then override_redirect c config.redirect
          else config.redirect;
    }
  ]

  -- `SnapshotCaptureMode::for_policy`.
  unfoldable pub for_policy : PolicyConfig H J → SnapshotCaptureMode
  for_policy config =
      let may_redirect =
        if is_some config.redirect.custom then true else config.redirect.default.follow_redirects in
      let may_retry = ltb 0 config.retry.default.max_retries || is_some config.retry.custom in
      let may_auth = is_some config.authenticator || is_some config.proxy_authenticator in
      if may_redirect || (may_retry || may_auth)
      then SnapshotCaptureMode.rebuildable
      else SnapshotCaptureMode.light

  abbrev pub challenged : PolicyConfig H J → Response → Option (Authenticator H)
  challenged config response =
      if response.status == 401
      then config.authenticator
      else if response.status == 407 && is_some response.selected_proxy
      then config.proxy_authenticator
      else none

  unfoldable pub authenticate_response :
      PolicyConfig H J
      → RequestSnapshot H
      → Response
      → ℕ
      → PolicyTraceContext
      → Result WireError (Option (Request H × ℕ))
  unfolding ask_authenticator
  authenticate_response config snapshot response attempt trace = elim (challenged config response) [
    | none ↦ ok none
    | some authenticate ↦
        if leb config.max_auth_attempts trace.auth_count || not (is_replayable snapshot)
        then ok none
        else ask_authenticator snapshot response attempt trace authenticate
  ]
