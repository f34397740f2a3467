-- ===== src/Policy/FollowUp/Bounds.antt =====
-- The default policies and the authentication keep the counts below their limits.
use openwire.Base.{
  ◌↔◌, ◌⊎◌, inl, inr, ap, false, ◌&&◌, Bool, List, Option-cases, Bool-cases, ℕ, ◌+◌, ◌<◌, ◌%◌, ◌^◌,
  ◌≡◌, true, not, ◌||◌, some, arith, ok,
}
use openwire.Text.{codes, text_eq_sound, text_eq_self}
use openwire.Policy.Types.{RetryReason, RetryContext, ResponseRetryContext, follow}
use openwire.Policy.Retry.{DefaultRetryPolicy, should_retry, should_retry_response}
use openwire.Policy.Redirect.{
  Uri, DefaultRedirectPolicy, RedirectContext, should_redirect, is_redirect_status, is_insecure,
  has_scheme, http_scheme, https_scheme,
}
use openwire.Policy.Request.{PolicyTraceContext, Request, RequestSnapshot, is_replayable}
use openwire.Policy.Config.{
  Response, PolicyConfig, authenticate_response, ask_authenticator, authenticated, Authenticator,
}

-- An error is retried only with a body that can be sent again, below the limit, and if the request has
-- been sent already only when its method is idempotent.
pub should_retry-safe :
    (p : DefaultRetryPolicy) (ctx : RetryContext) (reason : RetryReason)
    → should_retry p ctx ≡ some reason
    → (ctx.body_replayable ≡ true)
      × (ctx.attempt < p.max_retries)
      × (not ctx.error.request_committed || ctx.is_idempotent ≡ true)
unfolding should_retry
should_retry-safe p ctx reason h = ground arith

-- A response is retried only with a body that can be sent again, below the limit, and only for an
-- idempotent method unless the policy allows any.
pub should_retry_response-safe :
    (p : DefaultRetryPolicy) (ctx : ResponseRetryContext) (reason : RetryReason)
    → should_retry_response p ctx ≡ some reason
    → (ctx.body_replayable ≡ true)
      × (ctx.retry_count < p.max_retries)
      × (ctx.is_idempotent || p.retry_non_idempotent ≡ true)
unfolding should_retry_response
should_retry_response-safe p ctx reason h = ground arith

-- The statuses that redirect.
abbrev pub IsRedirect : ℕ → Type 0
IsRedirect status =
    (status ≡ 301) ⊎ ((status ≡ 302) ⊎ ((status ≡ 303) ⊎ ((status ≡ 307) ⊎ (status ≡ 308))))

-- A redirect from https to http.
abbrev pub Downgrades : RedirectContext → Type 0
Downgrades ctx =
    (ctx.request_uri.scheme_str ≡ some (codes "https"))
    × (ctx.location.scheme_str ≡ some (codes "http"))

has_scheme_iff :
    (scheme : List ℕ) (uri : Uri) → (has_scheme scheme uri ≡ true) ↔ (uri.scheme_str ≡ some scheme)
unfolding has_scheme
has_scheme_iff scheme uri = elim (Option-cases uri.scheme_str) [
  | inl e ↦ rw e (λ h. absurd (ground arith), λ h. absurd (ground arith))
  | inr (s, e) ↦ rw e (
    λ h. ap some (text_eq_sound s scheme h),
    λ h. let k : s ≡ scheme = ground arith in rw k (text_eq_self scheme),
  )
]

is_insecure_iff : (ctx : RedirectContext) → (is_insecure ctx ≡ true) ↔ Downgrades ctx
unfolding is_insecure
is_insecure_iff ctx =
    let (a, b) = has_scheme_iff https_scheme ctx.request_uri in
    let (c, d) = has_scheme_iff http_scheme ctx.location in
    (λ h. (a (ground arith), c (ground arith)), λ h. ground (arith, b h.0, d h.1))

is_redirect_status_iff : (status : ℕ) → (is_redirect_status status ≡ true) ↔ IsRedirect status
unfolding is_redirect_status
is_redirect_status_iff status = (λ h. ground arith, λ h. ground arith)

secure_iff :
    (allow : Bool) (ctx : RedirectContext)
    → (not allow && is_insecure ctx ≡ false) ↔ ((allow ≡ true) ⊎ (¬ Downgrades ctx))
secure_iff allow ctx =
    let (a, b) = is_insecure_iff ctx in
    elim (Bool-cases (is_insecure ctx)) [
      | inl e ↦
          (λ h. inl (ground arith), λ h. elim h [ inl k ↦ ground arith | inr k ↦ absurd (k (a e)) ])
      | inr e ↦ (λ h. inr (λ d. absurd (ground (arith, b d))), λ h. ground arith)
    ]

-- The default policy follows a redirect exactly if redirects are on, the status is 301, 302, 303, 307
-- or 308, the count is below the limit, and the redirect does not go from https to http unless that
-- is allowed.
pub should_redirect-follow :
    (p : DefaultRedirectPolicy) (ctx : RedirectContext)
    → (should_redirect p ctx ≡ follow) ↔ (
        (p.follow_redirects ≡ true)
        × IsRedirect ctx.response_status
        × (ctx.redirect_count < p.max_redirects)
        × ((p.allow_insecure_redirects ≡ true) ⊎ (¬ Downgrades ctx)))
unfolding should_redirect
should_redirect-follow p ctx =
    let (a, b) = is_redirect_status_iff ctx.response_status in
    let (c, d) = secure_iff p.allow_insecure_redirects ctx in
    (
      λ h. (ground arith, a (ground arith), ground arith, c (ground arith)),
      λ (on, status, few, safe). let s = b status in let t = d safe in ground arith,
    )

module _ {H : Type 0} where
  ask_authenticator-count :
      (snapshot : RequestSnapshot H) (response : Response) (attempt : ℕ)
      (trace : PolicyTraceContext) (a : Authenticator H) (request : Request H) (auths : ℕ)
      → ask_authenticator snapshot response attempt trace a ≡ ok (some (request, auths))
      → auths ≡ (trace.auth_count + 1) % 2 ^ 32
  unfolding ask_authenticator authenticated
  ask_authenticator-count snapshot response attempt trace a request auths h = ground arith

-- An authenticated request is sent only below the limit of attempts, and is counted.
pub authenticate_response-count :
    {H J : Type 0} (config : PolicyConfig H J) (snapshot : RequestSnapshot H) (response : Response)
    (attempt : ℕ) (trace : PolicyTraceContext) (request : Request H) (auths : ℕ)
    → authenticate_response config snapshot response attempt trace ≡ ok (some (request, auths))
    → (trace.auth_count < config.max_auth_attempts)
      × (is_replayable snapshot ≡ true)
      × (auths ≡ (trace.auth_count + 1) % 2 ^ 32)
unfolding authenticate_response
authenticate_response-count config snapshot response attempt trace request auths h =
    ground (arith, ask_authenticator-count snapshot response attempt trace)
