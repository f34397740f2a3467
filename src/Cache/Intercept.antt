-- ===== src/Cache/Intercept.antt =====
-- crates/openwire-cache/src/lib.rs: the interceptor of the cache. The store is any that has the four
-- calls; the rest of the chain is a function of the request and the store, since other requests may
-- change the store while this one waits. There is a reading of the clocks before that wait and one after. The
-- listener that is told of hits and misses is left out.
pub mod Served
pub mod Stored
use openwire.Base.{
  ℕ, ◌≡◌, Bool, true, false, not, ◌&&◌, ◌||◌, List, [], ◌∷◌, ◌++◌, Option, none, some, is_some, any,
  leb, ltb, ◌==◌, if◌then◌else◌, Result, ok, err,
}
use openwire.Text.{text_eq, codes}
use openwire.Cache.Http.{
  HeaderMap, HeaderName, HeaderValue, Parsers, contains_key, or_else, authorization_name,
}
use openwire.Cache.Directives.{
  CacheDirectives, RequestCachePolicy, from_headers, request_cache_policy,
}
use openwire.Cache.Vary.{CapturedVary, capture, include_request_header}
use openwire.Cache.Freshness.{response_freshness_lifetime}
use openwire.Cache.Entry.{
  CachedResponse, Clock, validators_of, is_servable_for, matches_request, can_revalidate,
  apply_revalidation_headers, response_is_storable, into_response, new_with_vary,
  freshen_from_not_modified,
}
use openwire.Cache.Keys.{Urls, normalize_cache_uri, invalidation_keys}

-- The trait `CacheStore`, without `get` and `put`, which the interceptor does not call.
pub record CacheStore (S H : Type 0) : Type 0 where
  pub get_candidates : List ℕ → S → List (CachedResponse H)
  pub put_candidate : List ℕ → CachedResponse H → S → S
  pub remove : List ℕ → S → S
  pub remove_candidate : List ℕ → CachedResponse H → S → S

pub record CacheRequest (U H : Type 0) : Type 0 where
  pub method : List ℕ
  pub uri : U
  pub headers : H
  pub replayable_len : Option ℕ

-- A response with a body that is still to be read, which can fail.
pub record Reply (E H : Type 0) : Type 0 where
  pub status : ℕ
  pub version : ℕ
  pub headers : H
  pub body : Result E (List ℕ)

-- What a call gives, the store after it, and the request it sent on, if any.
pub record Outcome (S U E H : Type 0) : Type 0 where
  pub result : Result E (Reply E H)
  pub store : S
  pub sent : Option (CacheRequest U H)

-- What the lookup decides.
pub data Lookup (H : Type 0) : Type 0 where
  serve : CachedResponse H → Lookup H
  unsatisfiable : Lookup H
  forward : Option (CachedResponse H) → Lookup H

abbrev safe_methods : List (List ℕ)
safe_methods = codes "GET" ∷ codes "HEAD" ∷ codes "OPTIONS" ∷ codes "TRACE" ∷ []

unfoldable pub request_method_invalidates_cache : List ℕ → Bool
unfolding text_eq
request_method_invalidates_cache method = not (any (text_eq method) safe_methods)

abbrev pub response_status_invalidates_cache : ℕ → Bool
response_status_invalidates_cache status =
    (leb 200 status && ltb status 300) || (leb 300 status && ltb status 400)

abbrev pub reversed : {A : Type 0} → List A → List A
reversed [] = []
reversed (x ∷ xs) = reversed xs ++ (x ∷ [])

-- The interceptor's surroundings. Other requests may change the store while the call waits: `next` says
-- how while it waits for the response, `meanwhile` while it then reads the body.
pub record CacheChain (E U R S H : Type 0) : Type 0 where
  pub header_map : HeaderMap H
  pub empty_headers : H
  pub parsers : Parsers
  pub urls : Urls U R
  pub calls : CacheStore S H
  pub next : CacheRequest U H → S → Result E (Reply E H) × S
  pub meanwhile : S → S

module _ {E U R S H : Type 0} (chain : CacheChain E U R S H) where
  open chain use {header_map, empty_headers, parsers, urls, calls, next, meanwhile}
  open calls use {get_candidates, put_candidate, remove, remove_candidate}

  -- `gateway_timeout_response`.
  abbrev pub gateway_timeout_response : Reply E H
  gateway_timeout_response = record {
    status = 504;
    version = 11;
    headers = empty_headers;
    body = ok [];
  }

  abbrev pub reply_from : ℕ → CachedResponse H → Reply E H
  reply_from instant entry =
      let response = into_response header_map instant entry in
      record {
        status = response.status;
        version = response.version;
        headers = response.headers;
        body = ok response.body;
      }

  abbrev pub policy_of : CacheRequest U H → RequestCachePolicy
  policy_of request =
      request_cache_policy header_map parsers request.method request.headers request.replayable_len

  -- The first candidate that matches decides.
  unfoldable pub scan_candidates : ℕ → RequestCachePolicy → H → List (CachedResponse H) → Lookup H
  unfolding matches_request is_servable_for can_revalidate
  scan_candidates instant policy headers [] = forward none
  scan_candidates instant policy headers (entry ∷ entries) =
      let rest = scan_candidates instant policy headers entries in
      if matches_request header_map entry policy headers
      then (if policy.lookup && is_servable_for instant entry policy
          then serve entry
          else if not policy.only_if_cached && can_revalidate header_map entry headers
          then forward (some entry)
          else forward none)
      else rest

  abbrev pub unless_only_if_cached : RequestCachePolicy → Lookup H → Lookup H
  unless_only_if_cached policy (serve entry) = serve entry
  unless_only_if_cached policy unsatisfiable = unsatisfiable
  unless_only_if_cached policy (forward entry) =
      if policy.only_if_cached then unsatisfiable else forward entry

  unfoldable pub look_up : ℕ → CacheRequest U H → S → Lookup H
  unfolding scan_candidates request_cache_policy normalize_cache_uri
  look_up instant request store =
      let policy = policy_of request in
      if policy.is_cacheable
      then unless_only_if_cached policy (
          scan_candidates instant policy request.headers
            (reversed (get_candidates (normalize_cache_uri urls request.uri) store)))
      else forward none

  unfoldable pub remove_matching : List ℕ → RequestCachePolicy → H → List (CachedResponse H) → S → S
  unfolding matches_request
  remove_matching key policy headers [] store = store
  remove_matching key policy headers (entry ∷ entries) store =
      remove_matching key policy headers entries (
        if matches_request header_map entry policy headers
        then remove_candidate key entry store
        else store)

  unfoldable pub remove_unusable_candidate :
      List ℕ → Option (CachedResponse H) → RequestCachePolicy → H → S → S
  unfolding remove_matching
  remove_unusable_candidate key validation_entry policy headers store =
      if policy.has_authorization
      then elim validation_entry [
        | some entry ↦ remove_candidate key entry store
        | none ↦ remove_matching key policy headers (get_candidates key store) store
      ]
      else remove key store

  unfoldable pub remove_keys : List (List ℕ) → S → S
  remove_keys [] store = store
  remove_keys (key ∷ keys) store = remove_keys keys (remove key store)

  unfoldable pub invalidate : CacheRequest U H → Reply E H → S → S
  unfolding request_method_invalidates_cache remove_keys invalidation_keys
  invalidate request response store =
      if request_method_invalidates_cache request.method
        && response_status_invalidates_cache response.status
      then remove_keys (invalidation_keys urls header_map parsers request.uri response.headers)
          store
      else store

  abbrev pub with_authorization : RequestCachePolicy → H → CapturedVary → CapturedVary
  with_authorization policy headers vary =
      if policy.has_authorization
      then include_request_header header_map authorization_name headers vary
      else vary

  -- The reply and the store once a storable response is read.
  unfoldable pub store_body :
      Clock
      → CacheRequest U H
      → CapturedVary
      → ℕ
      → CacheDirectives
      → Reply E H
      → S
      → Result E (Reply E H) × S
  unfolding new_with_vary include_request_header normalize_cache_uri request_cache_policy
  store_body clock request vary lifetime directives response store = elim response.body [
    | err e ↦ (err e, meanwhile store)
    | ok bytes ↦ (
      ok record response { body = ok bytes },
      put_candidate (normalize_cache_uri urls request.uri)
          (new_with_vary header_map parsers clock response.status response.version response.headers
            bytes lifetime (with_authorization (policy_of request) request.headers vary)
            directives.no_cache directives.must_revalidate)
          (meanwhile store),
    )
  ]

  -- Without what the response varies by, it is not stored.
  abbrev pub store_captured :
      Clock
      → CacheRequest U H
      → Option CapturedVary
      → ℕ
      → CacheDirectives
      → Reply E H
      → S
      → S
      → Result E (Reply E H) × S
  store_captured clock request none lifetime directives response store unusable =
      (ok response, unusable)
  store_captured clock request (some vary) lifetime directives response store unusable =
      store_body clock request vary lifetime directives response store

  -- A response that is not that of a validation.
  unfoldable pub store_response :
      Clock
      → CacheRequest U H
      → Option (CachedResponse H)
      → Reply E H
      → S
      → Result E (Reply E H) × S
  unfolding request_cache_policy from_headers validators_of response_freshness_lifetime
      response_is_storable capture remove_unusable_candidate store_body normalize_cache_uri
  store_response clock request validation_entry response store =
      let policy = policy_of request in
      let directives = from_headers header_map parsers response.headers in
      let lifetime =
        or_else
          (response_freshness_lifetime header_map parsers clock.system_time response.headers
            directives)
          0 in
      let unusable =
        remove_unusable_candidate (normalize_cache_uri urls request.uri) validation_entry policy
          request.headers store in
      if not policy.store_response
      then (ok response, store)
      else if directives.no_store
      then (ok response, unusable)
      else if not (
          response_is_storable header_map response.headers response.status directives
            (validators_of header_map response.headers) lifetime policy.has_authorization)
      then (ok response, if response.status == 200 then unusable else store)
      else store_captured clock request
          (capture header_map parsers response.headers request.headers) lifetime directives response
          store unusable

  -- A 304 to a validation.
  unfoldable pub revalidated :
      Clock → CacheRequest U H → CachedResponse H → Reply E H → S → Result E (Reply E H) × S
  unfolding freshen_from_not_modified normalize_cache_uri
  revalidated clock request entry response store = elim response.body [
    | err e ↦ (err e, meanwhile store)
    | ok bytes ↦
        let key = normalize_cache_uri urls request.uri in
        let (freshened, stored) =
          freshen_from_not_modified header_map parsers clock entry response.headers
            request.headers in
        (
          ok (reply_from clock.instant freshened),
          if stored
              then put_candidate key freshened (meanwhile store)
              else remove_candidate key entry (meanwhile store),
        )
  ]

  unfoldable pub complete :
      Clock
      → CacheRequest U H
      → Option (CachedResponse H)
      → Reply E H
      → S
      → Result E (Reply E H) × S
  unfolding request_cache_policy revalidated store_response
  complete clock request validation_entry response store =
      if not (policy_of request).is_cacheable then (ok response, store) else elim validation_entry [
        | none ↦ store_response clock request none response store
        | some entry ↦
            if response.status == 304
            then revalidated clock request entry response store
            else store_response clock request (some entry) response store
      ]

  abbrev prepared : CacheRequest U H → Option (CachedResponse H) → CacheRequest U H
  prepared request none = request
  prepared request (some entry) = record request {
    headers = apply_revalidation_headers header_map entry request.headers;
  }

  abbrev pub returned :
      Clock
      → CacheRequest U H
      → Option (CachedResponse H)
      → Result E (Reply E H) × S
      → Result E (Reply E H) × S
  returned clock request entry (err e, store) = (err e, store)
  returned clock request entry (ok response, store) =
      complete clock request entry response (invalidate request response store)

  -- What is done with each result of the lookup.
  unfoldable pub act : Clock → Clock → CacheRequest U H → S → Lookup H → Outcome S U E H
  unfolding apply_revalidation_headers invalidate complete into_response
  act before after request store (serve entry) = record {
    result = ok (reply_from before.instant entry);
    store = store;
    sent = none;
  }
  act before after request store unsatisfiable = record {
    result = ok gateway_timeout_response;
    store = store;
    sent = none;
  }
  act before after request store (forward entry) =
      let (result, kept) = returned after request entry (next (prepared request entry) store) in
      record { result = result; store = kept; sent = some (prepared request entry) }

  unfoldable pub intercept : Clock → Clock → CacheRequest U H → S → Outcome S U E H
  unfolding look_up act
  intercept before after request store =
      act before after request store (look_up before.instant request store)
