-- ===== src/Policy/FollowUp/Progress.antt =====
-- How a turn of the loop uses up the limits of the default policies, up to the redirects.
use openwire.Base.{
  ℕ, ◌+◌, ◌-◌, ◌<◌, ◌^◌, ◌≡◌, inl, inr, refl, not, ◌||◌, List, Option, none, some, arith,
  Bool-cases, Result, ok, err, ◌>>=◌, max,
}
use openwire.Policy.Types.{
  WireError, RetryReason, RetryContext, ResponseRetryContext, RedirectDecision, follow, stop, fails,
}
use openwire.Policy.Redirect.{Uri, RedirectContext, validate_request_uri, is_redirect_status}
use openwire.Policy.Request.{
  Extensions, Request, RequestSnapshot, to_retry_request, into_redirect_request,
}
use openwire.Policy.Config.{
  Response, PolicyConfig, decide_retry, decide_retry_response, decide_redirect,
}
use openwire.Policy.Redirect.{should_redirect}
use openwire.Policy.FollowUp.{
  LoopState, Turn, returns, continues, incr, Surroundings, trace_of, max_retries, resent,
  redirect_trace, redirect_context, on_location, redirected, on_decision, redirect_to,
  stops_redirects, on_redirect, retried,
}
use openwire.Policy.FollowUp.Bounds.{
  should_retry-safe, should_retry_response-safe, should_redirect-follow,
}

module _ {H J : Type 0} (env : Surroundings H) (config : PolicyConfig H J)
    (request_max_retries : Option ℕ) where
  abbrev pub retry_limit : ℕ
  retry_limit = max (max_retries env config request_max_retries) config.retry.default.max_retries

  -- The policies are the default ones, and the limits fit the counters, which have 32 bits.
  pub record IsDefault : Type 0 where
    pub retry : config.retry.custom ≡ none
    pub redirect : config.redirect.custom ≡ none
    pub retries_fit : retry_limit < 2 ^ 32
    pub redirects_fit : config.redirect.default.max_redirects < 2 ^ 32
    pub auths_fit : config.max_auth_attempts < 2 ^ 32

  -- How many times the loop may still go on.
  unfoldable pub remaining : LoopState H J → ℕ
  remaining s =
      (retry_limit - s.retries)
      + ((config.redirect.default.max_redirects - s.redirects)
          + (config.max_auth_attempts - s.auths))

  -- If the turn goes on, fewer times than `n` are left.
  unfoldable pub Decreases : ℕ → Result WireError (Turn H J) → Type 0
  Decreases n (err e) = Unit
  Decreases n (ok (returns r)) = Unit
  Decreases n (ok (continues t)) = remaining t < n

  pub bind-Decreases :
      {A : Type 0} (n : ℕ) (r : Result WireError A) (f : A → Result WireError (Turn H J))
      → ((a : A) → r ≡ ok a → Decreases n (f a))
      → Decreases n (r >>= f)
  unfolding Decreases
  bind-Decreases n (ok a) f h = h a refl
  bind-Decreases n (err e) f h = tt

  goes_on : (n : ℕ) (t : LoopState H J) → remaining t < n → Decreases n (ok (continues t))
  unfolding Decreases
  goes_on n t h = h

  ends : (n : ℕ) (r : Response) → Decreases n (ok (returns r))
  unfolding Decreases
  ends n r = tt

  pub fails_with : (n : ℕ) (e : WireError) → Decreases n (err e)
  unfolding Decreases
  fails_with n e = tt

  resent-Decreases :
      (s : LoopState H J) (mark : Extensions → Extensions) (request : Request H)
      → IsDefault
      → s.retries < retry_limit
      → Decreases (remaining s) (
          ok (
            resent env config request_max_retries
              (record s { retries = incr s.retries })
              mark
              request))
  unfolding resent Decreases remaining
  resent-Decreases s mark request d h = omega (arith, d.retries_fit)

  pub retried-Decreases :
      (s : LoopState H J) (snapshot : RequestSnapshot H) (mark : Extensions → Extensions)
      → IsDefault
      → s.retries < retry_limit
      → Decreases (remaining s) (retried env config request_max_retries s snapshot mark)
  unfolding retried
  retried-Decreases s snapshot mark d h =
      let t = record s { retries = incr s.retries } in
      bind-Decreases (remaining s)
        (to_retry_request snapshot (trace_of env config request_max_retries t))
        (λ request. ok (resent env config request_max_retries t mark request))
        (λ request e. resent-Decreases s mark request d h)

  redirected-Decreases :
      (s : LoopState H J) (response : Response) (request : Option (Request H))
      → IsDefault
      → s.redirects < config.redirect.default.max_redirects
      → Decreases (remaining s) (ok (redirected env config request_max_retries s response request))
  unfolding redirected Decreases remaining
  redirected-Decreases s response none d h = tt
  redirected-Decreases s response (some request) d h = omega (arith, d.redirects_fit)

  on_decision-Decreases :
      (s : LoopState H J) (snapshot : RequestSnapshot H) (response : Response) (next_uri : Uri)
      (decision : RedirectDecision)
      → IsDefault
      → (decision ≡ follow → s.redirects < config.redirect.default.max_redirects)
      → Decreases
          (remaining s)
          (on_decision env config request_max_retries s snapshot response next_uri decision)
  unfolding on_decision
  on_decision-Decreases s snapshot response next_uri (fails error) d h =
      fails_with (remaining s) error
  on_decision-Decreases s snapshot response next_uri stop d h = ends (remaining s) response
  on_decision-Decreases s snapshot response next_uri follow d h =
      bind-Decreases (remaining s)
        (into_redirect_request env.headers snapshot response.status next_uri
          (redirect_trace env config request_max_retries s) response.selected_proxy)
        (λ request. ok (redirected env config request_max_retries s response request))
        (λ request e. redirected-Decreases s response request d (h refl))

  decide_redirect-limit :
      (ctx : RedirectContext)
      → IsDefault
      → decide_redirect config.redirect ctx ≡ follow
      → ctx.redirect_count < config.redirect.default.max_redirects
  unfolding decide_redirect
  decide_redirect-limit ctx d h =
      let e : should_redirect config.redirect.default ctx ≡ follow = ground (arith, d.redirect) in
      let (on, status, few, safe) = (should_redirect-follow config.redirect.default ctx).0 e in few

  pub decide_retry-limit :
      (ctx : RetryContext) (reason : RetryReason)
      → IsDefault
      → decide_retry config.retry ctx ≡ some reason
      → ctx.attempt < retry_limit
  unfolding decide_retry
  decide_retry-limit ctx reason d h =
      ground (arith, should_retry-safe config.retry.default ctx reason, d.retry)

  pub decide_retry_response-limit :
      (ctx : ResponseRetryContext) (reason : RetryReason)
      → IsDefault
      → decide_retry_response config.retry ctx ≡ some reason
      → ctx.retry_count < retry_limit
  unfolding decide_retry_response
  decide_retry_response-limit ctx reason d h =
      ground (arith, should_retry_response-safe config.retry.default ctx reason, d.retry)

  on_location-Decreases :
      (s : LoopState H J) (snapshot : RequestSnapshot H) (response : Response) (next_uri : Uri)
      → IsDefault
      → Decreases
          (remaining s)
          (on_location env config request_max_retries s snapshot response next_uri)
  unfolding on_location redirect_context
  on_location-Decreases s snapshot response next_uri d =
      let ctx = redirect_context env config request_max_retries s snapshot response next_uri in
      let decision = decide_redirect config.redirect ctx in
      bind-Decreases (remaining s) (validate_request_uri next_uri)
        (λ _. on_decision env config request_max_retries s snapshot response next_uri decision)
        (λ _ e.
          on_decision-Decreases s snapshot response next_uri decision d
            (decide_redirect-limit ctx d))

  redirect_to-Decreases :
      (s : LoopState H J) (snapshot : RequestSnapshot H) (response : Response)
      (location : Option (List ℕ))
      → IsDefault
      → Decreases
          (remaining s)
          (redirect_to env config request_max_retries s snapshot response location)
  unfolding redirect_to
  redirect_to-Decreases s snapshot response none d = ends (remaining s) response
  redirect_to-Decreases s snapshot response (some location) d =
      bind-Decreases (remaining s) (env.resolve_redirect_uri snapshot.uri location)
        (on_location env config request_max_retries s snapshot response)
        (λ next_uri e. on_location-Decreases s snapshot response next_uri d)

  pub on_redirect-Decreases :
      (s : LoopState H J) (snapshot : RequestSnapshot H) (response : Response)
      → IsDefault
      → Decreases (remaining s) (on_redirect env config request_max_retries s snapshot response)
  unfolding on_redirect
  on_redirect-Decreases s snapshot response d =
      elim (Bool-cases (
        stops_redirects env config request_max_retries
        || not (is_redirect_status response.status))) [
          | inl e ↦ rw e (ends (remaining s) response)
          | inr e ↦ rw e (redirect_to-Decreases s snapshot response response.location d)
        ]
