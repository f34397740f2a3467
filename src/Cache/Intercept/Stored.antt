-- ===== src/Cache/Intercept/Stored.antt =====
-- crates/openwire-cache/src/lib.rs: what the interceptor lets into the store.
use openwire.Base.{
  ℕ, ◌≡◌, refl, inl, inr, Bool, true, false, not, ◌&&◌, List, [], ◌∷◌, Option, none, some, is_some,
  ◌==◌, if_either, Result, ok, err, Result-cases, arith,
}
use openwire.Cache.Http.{contains_key, or_else, authorization_name}
use openwire.Cache.Directives.{
  CacheDirectives, from_headers, RequestCachePolicy, request_cache_policy,
}
use openwire.Cache.Vary.{
  CapturedVary, capture, tracks_request_header, Captured, include_request_header-Captured,
}
use openwire.Cache.Freshness.{response_freshness_lifetime}
use openwire.Cache.Entry.{
  CachedResponse, Clock, validators_of, response_is_storable, matches_request, new_with_vary,
  merge_304_headers, keep_authorization, freshen_from_not_modified,
}
use openwire.Cache.Keys.{normalize_cache_uri, invalidation_keys}
use openwire.Cache.Intercept.{
  CacheChain, CacheRequest, Reply, Lookup, serve, unsatisfiable, forward, prepared,
  request_method_invalidates_cache, response_status_invalidates_cache, with_authorization, look_up,
  policy_of, remove_matching, remove_unusable_candidate, remove_keys, invalidate, store_body,
  store_captured, store_response, revalidated, complete, returned, act, intercept,
}
use openwire.Cache.Intercept.Served.{look_up-forward}
use openwire.Text.{codes}

and_split : (a b : Bool) → (a && b) ≡ true → (a ≡ true) × (b ≡ true)
and_split true b h = (refl, h)
and_split false b h = absurd (ground arith)

module _ {E U R S H : Type 0} (chain : CacheChain E U R S H) where
  open chain use {header_map, parsers, urls, calls, next, meanwhile}
  open calls use {get_candidates, put_candidate, remove, remove_candidate}

  -- What is true of a response that the call for a request may store: a 200 that sets no cookie, and
  -- that only requests with the same credentials match, if the request has any.
  abbrev pub Storable : CacheRequest U H → CachedResponse H → Type 0
  Storable request entry =
      (entry.status ≡ 200)
      × (contains_key header_map (codes "set-cookie") entry.headers ≡ false)
      × ((policy_of chain request).has_authorization ≡ true
          → Captured header_map authorization_name request.headers entry.vary)

  response_is_storable_lem :
      (headers : H) (status : ℕ) (directives : CacheDirectives) (lifetime : ℕ) (authorized : Bool)
      → response_is_storable header_map headers status directives
          (validators_of header_map headers)
          lifetime
          authorized
        ≡ true
      → (status ≡ 200) × (contains_key header_map (codes "set-cookie") headers ≡ false)
  unfolding response_is_storable
  response_is_storable_lem headers status directives lifetime authorized h =
      (ground arith, ground arith)

  with_authorization-Captured :
      (policy : RequestCachePolicy) (headers : H) (vary : CapturedVary)
      → policy.has_authorization ≡ true
      → Captured header_map authorization_name headers
          (with_authorization chain policy headers vary)
  with_authorization-Captured policy headers vary e =
      rw e (include_request_header-Captured header_map authorization_name headers vary)

  matches_request_tracks :
      (entry : CachedResponse H) (policy : RequestCachePolicy) (headers : H)
      → matches_request header_map entry policy headers ≡ true
      → policy.has_authorization ≡ true
      → tracks_request_header authorization_name entry.vary ≡ true
  unfolding matches_request
  matches_request_tracks entry policy headers m e = ground arith

  keep_authorization-Captured :
      (tracked : Bool) (headers : H) (vary : Option CapturedVary)
      → tracked ≡ true
      → is_some (keep_authorization header_map parsers tracked headers vary) ≡ true
      → Captured header_map authorization_name headers
          (or_else (keep_authorization header_map parsers tracked headers vary) [])
  keep_authorization-Captured tracked headers none t h = absurd (ground arith)
  keep_authorization-Captured true headers (some vary) t h =
      include_request_header-Captured header_map authorization_name headers vary
  keep_authorization-Captured false headers (some vary) t h = absurd (ground arith)

  freshen-Storable :
      (clock : Clock) (request : CacheRequest U H) (entry : CachedResponse H) (validation : H)
      → matches_request header_map entry (policy_of chain request) request.headers ≡ true
      → (freshen_from_not_modified header_map parsers clock entry validation request.headers).1
        ≡ true
      → Storable request
          (freshen_from_not_modified header_map parsers clock entry validation request.headers).0
  unfolding freshen_from_not_modified new_with_vary matches_request request_cache_policy
  freshen-Storable clock request entry validation m h =
      let headers = merge_304_headers header_map entry.headers validation in
      let directives = from_headers header_map parsers headers in
      let lifetime =
        or_else
          (response_freshness_lifetime header_map parsers clock.system_time headers directives) 0 in
      let authorized = contains_key header_map authorization_name request.headers in
      let parts = and_split _ _ h in
      let (status, cookie) =
        response_is_storable_lem headers entry.status directives lifetime authorized parts.1 in
      (
        status,
        cookie,
        λ e.
            keep_authorization-Captured _ request.headers _
              (matches_request_tracks entry (policy_of chain request) request.headers m e) parts.0,
      )

  module _ (Good : S → Type 0) (good_remove : (k : List ℕ) (s : S) → Good s → Good (remove k s))
      (good_meanwhile : (s : S) → Good s → Good (meanwhile s))
      (good_remove_candidate : (k : List ℕ) (v : CachedResponse H) (s : S)
        → Good s
        → Good (remove_candidate k v s)) where
    remove_keys-Good : (ks : List (List ℕ)) (s : S) → Good s → Good (remove_keys chain ks s)
    unfolding remove_keys
    remove_keys-Good [] s g = g
    remove_keys-Good (k ∷ ks) s g = remove_keys-Good ks (remove k s) (good_remove k s g)

    invalidate-Good :
        (request : CacheRequest U H) (response : Reply E H) (s : S)
        → Good s
        → Good (invalidate chain request response s)
    unfolding invalidate
    invalidate-Good request response s g =
        if_either Good
          (request_method_invalidates_cache request.method
            && response_status_invalidates_cache response.status)
          (remove_keys chain
            (invalidation_keys urls header_map parsers request.uri response.headers) s)
          s
          (λ e.
            remove_keys-Good
              (invalidation_keys urls header_map parsers request.uri response.headers) s g)
          (λ e. g)

    remove_matching-Good :
        (k : List ℕ) (policy : RequestCachePolicy) (headers : H) (es : List (CachedResponse H))
        (s : S)
        → Good s
        → Good (remove_matching chain k policy headers es s)
    unfolding remove_matching
    remove_matching-Good k policy headers [] s g = g
    remove_matching-Good k policy headers (e ∷ es) s g =
        remove_matching-Good k policy headers es _ (
          if_either Good (matches_request header_map e policy headers) (remove_candidate k e s) s
            (λ m. good_remove_candidate k e s g) (λ m. g))

    remove_unusable_candidate-Good :
        (k : List ℕ) (entry : Option (CachedResponse H)) (policy : RequestCachePolicy) (headers : H)
        (s : S)
        → Good s
        → Good (remove_unusable_candidate chain k entry policy headers s)
    unfolding remove_unusable_candidate
    remove_unusable_candidate-Good k none policy headers s g =
        if_either Good policy.has_authorization
          (remove_matching chain k policy headers (get_candidates k s) s) (remove k s)
          (λ e. remove_matching-Good k policy headers (get_candidates k s) s g)
          (λ e. good_remove k s g)
    remove_unusable_candidate-Good k (some entry) policy headers s g =
        if_either Good policy.has_authorization (remove_candidate k entry s) (remove k s)
          (λ e. good_remove_candidate k entry s g) (λ e. good_remove k s g)

    module _ (clock : Clock) (request : CacheRequest U H)
        (good_put : (k : List ℕ) (v : CachedResponse H) (s : S)
          → Storable request v
          → Good s
          → Good (put_candidate k v s)) where
      abbrev GoodPair : Result E (Reply E H) × S → Type 0
      GoodPair pair = Good pair.1

      abbrev Matching : Option (CachedResponse H) → Type 0
      Matching none = Unit
      Matching (some entry) =
          matches_request header_map entry (policy_of chain request) request.headers ≡ true

      store_body-Good :
          (vary : CapturedVary) (lifetime : ℕ) (directives : CacheDirectives) (response : Reply E H)
          (s : S)
          → response.status ≡ 200
          → contains_key header_map (codes "set-cookie") response.headers ≡ false
          → Good s
          → Good (store_body chain clock request vary lifetime directives response s).1
      unfolding store_body new_with_vary
      store_body-Good vary lifetime directives response s status cookie g =
          elim (Result-cases response.body) [
            | inr (e, p) ↦ rw p (good_meanwhile s g)
            | inl (bytes, p) ↦ rw p (
                good_put _ _ (meanwhile s)
                  (
                    status,
                    cookie,
                    with_authorization-Captured (policy_of chain request) request.headers vary,
                  )
                  (good_meanwhile s g))
          ]

      revalidated-Good :
          (entry : CachedResponse H) (response : Reply E H) (s : S)
          → matches_request header_map entry (policy_of chain request) request.headers ≡ true
          → Good s
          → Good (revalidated chain clock request entry response s).1
      unfolding revalidated
      revalidated-Good entry response s m g = elim (Result-cases response.body) [
        | inr (e, p) ↦ rw p (good_meanwhile s g)
        | inl (bytes, p) ↦ rw p (
            if_either Good
              (freshen_from_not_modified header_map parsers clock entry response.headers
                request.headers).1
              _ _
              (λ h.
                good_put _ _ (meanwhile s)
                  (freshen-Storable clock request entry response.headers m h) (good_meanwhile s g))
              (λ h.
                good_remove_candidate (normalize_cache_uri urls request.uri) entry (meanwhile s)
                  (good_meanwhile s g)))
      ]

      captured-Good :
          (vary : Option CapturedVary) (lifetime : ℕ) (directives : CacheDirectives)
          (response : Reply E H) (s unusable : S)
          → response.status ≡ 200
          → contains_key header_map (codes "set-cookie") response.headers ≡ false
          → Good s
          → Good unusable
          → Good (store_captured chain clock request vary lifetime directives response s unusable).1
      captured-Good none lifetime directives response s unusable status cookie g u = u
      captured-Good (some v) lifetime directives response s unusable status cookie g u =
          store_body-Good v lifetime directives response s status cookie g

      store_response-Good :
          (entry : Option (CachedResponse H)) (response : Reply E H) (s : S)
          → Good s
          → Good (store_response chain clock request entry response s).1
      unfolding store_response
      store_response-Good entry response s g =
          let policy = policy_of chain request in
          let directives = from_headers header_map parsers response.headers in
          let lifetime =
            or_else
              (response_freshness_lifetime header_map parsers clock.system_time response.headers
                directives)
              0 in
          let key = normalize_cache_uri urls request.uri in
          let unusable = remove_unusable_candidate chain key entry policy request.headers s in
          let u = remove_unusable_candidate-Good key entry policy request.headers s g in
          let storable =
            response_is_storable header_map response.headers response.status directives
              (validators_of header_map response.headers) lifetime policy.has_authorization in
          if_either GoodPair (not policy.store_response) (ok response, s) _ (λ e. g)
            (λ e.
              if_either GoodPair directives.no_store (ok response, unusable) _ (λ f. u)
                (λ f.
                  if_either GoodPair (not storable) _ _
                    (λ n. if_either Good (response.status == 200) unusable s (λ t. u) (λ t. g))
                    (λ n.
                      let (status, cookie) =
                        response_is_storable_lem response.headers response.status directives
                          lifetime policy.has_authorization (ground arith) in
                      captured-Good (capture header_map parsers response.headers request.headers)
                        lifetime directives response s unusable status cookie g u)))

      complete-Good :
          (entry : Option (CachedResponse H)) (response : Reply E H) (s : S)
          → Matching entry
          → Good s
          → Good (complete chain clock request entry response s).1
      unfolding complete
      complete-Good none response s m g =
          if_either GoodPair (not (policy_of chain request).is_cacheable) (ok response, s)
            (store_response chain clock request none response s) (λ e. g)
            (λ e. store_response-Good none response s g)
      complete-Good (some entry) response s m g =
          if_either GoodPair (not (policy_of chain request).is_cacheable) (ok response, s) _
            (λ e. g)
            (λ e.
              if_either GoodPair (response.status == 304)
                (revalidated chain clock request entry response s)
                (store_response chain clock request (some entry) response s)
                (λ f. revalidated-Good entry response s m g)
                (λ f. store_response-Good (some entry) response s g))

      returned-Good :
          (entry : Option (CachedResponse H)) (pair : Result E (Reply E H) × S)
          → Matching entry
          → Good pair.1
          → Good (returned chain clock request entry pair).1
      returned-Good entry (err e, s) m g = g
      returned-Good entry (ok response, s) m g =
          complete-Good entry response (invalidate chain request response s) m
            (invalidate-Good request response s g)

      act-Good :
          (before : Clock) (found : Lookup H) (s : S)
          → ((entry : CachedResponse H) → found ≡ forward (some entry) → Matching (some entry))
          → Good s
          → ((r : CacheRequest U H) (s : S) → Good s → Good (next r s).1)
          → Good (act chain before clock request s found).store
      unfolding act
      act-Good before (serve entry) s m g n = g
      act-Good before unsatisfiable s m g n = g
      act-Good before (forward none) s m g n =
          returned-Good none (next request s) tt (n request s g)
      act-Good before (forward (some entry)) s m g n =
          returned-Good (some entry) (next (prepared chain request (some entry)) s) (m entry refl)
            (n (prepared chain request (some entry)) s g)

      -- Let a property of stores be kept by the removals, by what other requests do while the call waits,
      -- and by storing a 200 that sets no cookie and, where the request has credentials, is matched only by
      -- requests with the same Authorization values. Then a call of the interceptor keeps it: it stores
      -- nothing else, fresh from the server or freshened by a 304.
      pub intercept-Good :
          (before : Clock) (s : S)
          → Good s
          → ((r : CacheRequest U H) (t : S) → Good t → Good (next r t).1)
          → Good (intercept chain before clock request s).store
      unfolding intercept
      intercept-Good before s g n =
          act-Good before (look_up chain before.instant request s) s
            (λ entry h. look_up-forward chain before.instant request s entry h) g n
