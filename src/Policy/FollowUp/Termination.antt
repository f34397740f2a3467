-- ===== src/Policy/FollowUp/Termination.antt =====
-- With the default policies the loop of a call ends, within the limits that the policies set.
use openwire.Base.{
  ℕ, zero, suc, ◌<◌, ◌≡◌, inl, inr, refl, ap, ◌∙◌, true, ◌||◌, Option, none, some, arith,
  Bool-cases, Result, ok, err, ◌>>=◌, is_some,
}
use openwire.Policy.Types.{WireError, RetryReason}
use openwire.Policy.Redirect.{validate_request_uri}
use openwire.Policy.Request.{Request, RequestSnapshot, capture}
use openwire.Policy.Config.{
  Response, PolicyConfig, decide_retry, authenticate_response, should_retry_misdirected_request,
  for_policy,
}
use openwire.Policy.FollowUp.{
  LoopState, Turn, returns, continues, incr, Surroundings, trace_of, next_turn, max_retries,
  response_context, error_context, on_stored, traced, on_retry, retry_response_reason, on_answer,
  store_response_cookies, apply_request_cookies, on_response, on_reason, on_error, on_result, send,
  turn, go_on, run,
}
use openwire.Policy.FollowUp.Bounds.{authenticate_response-count}
use openwire.Policy.FollowUp.Progress.{
  retry_limit, IsDefault, remaining, Decreases, bind-Decreases, retried-Decreases,
  on_redirect-Decreases, fails_with, decide_retry-limit, decide_retry_response-limit,
}

module _ {H J : Type 0} (env : Surroundings H) (config : PolicyConfig H J)
    (request_max_retries : Option ℕ) where
  on_retry-Decreases :
      (s : LoopState H J) (snapshot : RequestSnapshot H) (response : Response)
      (o : Option RetryReason)
      → IsDefault env config request_max_retries
      → ((r : RetryReason) → o ≡ some r → s.retries < retry_limit env config request_max_retries)
      → Decreases env config request_max_retries
          (remaining env config request_max_retries s)
          (on_retry env config request_max_retries s snapshot response o)
  unfolding on_retry
  on_retry-Decreases s snapshot response none d h =
      on_redirect-Decreases env config request_max_retries s snapshot response d
  on_retry-Decreases s snapshot response (some r) d h =
      retried-Decreases env config request_max_retries s snapshot (λ e. e) d (h r refl)

  authenticated-Decreases :
      (s : LoopState H J) (request : Request H) (auths : ℕ)
      → IsDefault env config request_max_retries
      → s.auths < config.max_auth_attempts
      → auths ≡ incr s.auths
      → Decreases env config request_max_retries (remaining env config request_max_retries s) (
          ok (
            continues
              (record (next_turn env config request_max_retries s request) { auths = auths })))
  unfolding Decreases remaining
  authenticated-Decreases s request auths d h e = omega (arith, d.auths_fit)

  misdirected-limit :
      (snapshot : RequestSnapshot H) (response : Response) (retries n : ℕ)
      → should_retry_misdirected_request snapshot response retries n ≡ true
      → retries < n
  unfolding should_retry_misdirected_request
  misdirected-limit snapshot response retries n h = ground arith

  on_answer-Decreases :
      (s : LoopState H J) (snapshot : RequestSnapshot H) (response : Response)
      (answer : Option (Request H × ℕ))
      → IsDefault env config request_max_retries
      → ((request : Request H) (auths : ℕ)
          → answer ≡ some (request, auths)
          → (s.auths < config.max_auth_attempts) × (auths ≡ incr s.auths))
      → Decreases env config request_max_retries
          (remaining env config request_max_retries s)
          (on_answer env config request_max_retries s snapshot response answer)
  unfolding on_answer retry_response_reason response_context
  on_answer-Decreases s snapshot response (some (request, auths)) d h =
      let (a, b) = h request auths refl in authenticated-Decreases s request auths d a b
  on_answer-Decreases s snapshot response none d h =
      elim (Bool-cases (
        should_retry_misdirected_request snapshot response s.retries
          (max_retries env config request_max_retries))) [
            | inl e ↦ rw e (
                retried-Decreases env config request_max_retries s snapshot
                  (λ x. record x { no_coalesced_connections = true }) d
                  (omega (
                    arith,
                    misdirected-limit snapshot response s.retries
                        (max_retries env config request_max_retries) e,
                  )))
            | inr e ↦ rw e (
                on_retry-Decreases s snapshot response
                  (retry_response_reason env config request_max_retries s snapshot response) d
                  (λ r f.
                    decide_retry_response-limit env config request_max_retries
                      (response_context env config request_max_retries s snapshot response) r d f))
          ]

  on_stored-Decreases :
      (s : LoopState H J) (snapshot : RequestSnapshot H) (response : Response) (jar : J)
      → IsDefault env config request_max_retries
      → Decreases env config request_max_retries
          (remaining env config request_max_retries s)
          (on_stored env config request_max_retries s snapshot response jar)
  unfolding on_stored remaining
  on_stored-Decreases s snapshot response jar d =
      let t = record s { jar = jar } in
      bind-Decreases env config request_max_retries (remaining env config request_max_retries t)
        (authenticate_response config snapshot response s.attempt
          (trace_of env config request_max_retries s))
        (on_answer env config request_max_retries t snapshot response)
        (λ answer e. on_answer-Decreases t snapshot response answer d (λ request auths f.
          let (a, b, c) =
            authenticate_response-count config snapshot response s.attempt
              (trace_of env config request_max_retries s) request auths (e ∙ ap ok f) in
          (a, c)))

  on_reason-Decreases :
      (s : LoopState H J) (snapshot : RequestSnapshot H) (error : WireError)
      (o : Option RetryReason)
      → IsDefault env config request_max_retries
      → ((r : RetryReason) → o ≡ some r → s.retries < retry_limit env config request_max_retries)
      → Decreases env config request_max_retries
          (remaining env config request_max_retries s)
          (on_reason env config request_max_retries s snapshot error o)
  unfolding on_reason
  on_reason-Decreases s snapshot error none d h =
      fails_with env config request_max_retries (remaining env config request_max_retries s) error
  on_reason-Decreases s snapshot error (some r) d h =
      retried-Decreases env config request_max_retries s snapshot (λ e. e) d (h r refl)

  on_result-Decreases :
      (s : LoopState H J) (snapshot : RequestSnapshot H) (result : Result WireError Response)
      → IsDefault env config request_max_retries
      → Decreases env config request_max_retries
          (remaining env config request_max_retries s)
          (on_result env config request_max_retries s snapshot result)
  unfolding on_result on_response on_error error_context
  on_result-Decreases s snapshot (ok response) d =
      bind-Decreases env config request_max_retries (remaining env config request_max_retries s)
        (store_response_cookies env config request_max_retries config.cookie_jar response
          snapshot.uri s.jar)
        (on_stored env config request_max_retries s snapshot response)
        (λ jar e. on_stored-Decreases s snapshot response jar d)
  on_result-Decreases s snapshot (err error) d =
      on_reason-Decreases s snapshot error
        (decide_retry config.retry (error_context env config request_max_retries s snapshot error))
        d
        (λ r f.
          decide_retry-limit env config request_max_retries
            (error_context env config request_max_retries s snapshot error) r d f)

  send-Decreases :
      (s : LoopState H J) (snapshot : RequestSnapshot H) (request : Request H)
      → IsDefault env config request_max_retries
      → Decreases env config request_max_retries
          (remaining env config request_max_retries s)
          (send env config request_max_retries s snapshot request)
  unfolding send
  send-Decreases s snapshot request d =
      elim (Bool-cases (s.first_network_attempt || env.network_ready s.attempt)) [
        | inl e ↦ rw e (on_result-Decreases s snapshot (env.network s.attempt request) d)
        | inr e ↦ rw e (
            fails_with env config request_max_retries (remaining env config request_max_retries s)
              _)
      ]

  turn-Decreases :
      (s : LoopState H J)
      → IsDefault env config request_max_retries
      → Decreases env config request_max_retries
          (remaining env config request_max_retries s)
          (turn env config request_max_retries s)
  unfolding turn send
  turn-Decreases s d =
      let r = traced env config request_max_retries s in
      let snapshot = capture r (for_policy config) in
      bind-Decreases env config request_max_retries (remaining env config request_max_retries s)
        (validate_request_uri s.request.uri)
        (λ _.
          apply_request_cookies env config request_max_retries config.cookie_jar s.jar r
          >>= send env config request_max_retries s snapshot)
        (λ _ e.
          bind-Decreases env config request_max_retries (remaining env config request_max_retries s)
            (apply_request_cookies env config request_max_retries config.cookie_jar s.jar r)
            (send env config request_max_retries s snapshot)
            (λ request f. send-Decreases s snapshot request d))

  go_on-some :
      (n : ℕ) (r : Result WireError (Turn H J))
      (rest : LoopState H J → Option (Result WireError Response))
      → Decreases env config request_max_retries n r
      → ((t : LoopState H J)
          → remaining env config request_max_retries t < n
          → is_some (rest t) ≡ true)
      → is_some (go_on env config request_max_retries r rest) ≡ true
  unfolding go_on Decreases
  go_on-some n (err e) rest d h = refl
  go_on-some n (ok (returns response)) rest d h = refl
  go_on-some n (ok (continues t)) rest d h = h t d

  -- The loop ends: whatever the network, the jar and the authenticators answer, more turns than the
  -- retries, redirects and authentications that are left give a response or an error, where the
  -- policies are the default ones and their limits fit the 32-bit counters.
  pub run-enough :
      (fuel : ℕ) (s : LoopState H J)
      → IsDefault env config request_max_retries
      → remaining env config request_max_retries s < fuel
      → is_some (run env config request_max_retries fuel s) ≡ true
  unfolding run
  run-enough zero s d h = absurd (omega arith)
  run-enough (suc fuel) s d h =
      go_on-some (remaining env config request_max_retries s)
        (turn env config request_max_retries s) (run env config request_max_retries fuel)
        (turn-Decreases s d) (λ t l. run-enough fuel t d (omega arith))
