-- ===== src/Cache/Entry.antt =====
-- crates/openwire-cache/src/lib.rs: a stored response: when it may be served, and how a 304 freshens it.
-- The clock of the store and the wall clock are arguments.
pub mod Servable
pub mod Merge
use openwire.Base.{
  ℕ, ◌+◌, ◌*◌, ◌-◌, ◌/◌, ◌^◌, ◌≤◌, ◌<◌, ◌≡◌, refl, Bool, true, false, not, ◌&&◌, ◌||◌, List, [],
  ◌∷◌, ◌++◌, Option, none, some, any, is_some, min, max, leb, ltb, ◌==◌, if◌then◌else◌,
}
use openwire.Text.{text_eq, codes, decimal}
use openwire.Cache.Http.{
  HeaderMap, HeaderName, HeaderValue, Parsers, get, contains_key, insert, and_then, or_else,
  from_secs, as_secs, second, duration_max, saturating_add, age_name, authorization_name,
}
use openwire.Cache.Directives.{
  CacheDirectives, MaxStale, any_stale, limit, RequestCachePolicy, from_headers, max_delta_seconds,
}
use openwire.Cache.Vary.{
  CapturedVary, VaryField, capture, include_request_header, tracks_request_header, matches, vary_eq,
}
use openwire.Cache.Freshness.{response_freshness_lifetime, response_current_age}

pub record CachedResponse (H : Type 0) : Type 0 where
  pub status : ℕ
  pub version : ℕ
  pub headers : H
  pub body : List ℕ
  pub stored_at : ℕ
  pub initial_age : ℕ
  pub freshness_lifetime : ℕ
  pub vary : CapturedVary
  pub must_validate : Bool
  pub must_revalidate : Bool

-- A response as the caller sees it.
pub record Response (H : Type 0) : Type 0 where
  pub status : ℕ
  pub version : ℕ
  pub headers : H
  pub body : List ℕ

-- The two clocks.
pub record Clock : Type 0 where
  pub instant : ℕ
  pub system_time : ℕ

pub record CacheValidators : Type 0 where
  pub etag : Option HeaderValue
  pub last_modified : Option HeaderValue

abbrev pub has_any : CacheValidators → Bool
has_any v = is_some v.etag || is_some v.last_modified

unfoldable pub response_allows_authorized_storage : CacheDirectives → Bool
response_allows_authorized_storage directives =
    directives.public || (is_some directives.s_maxage || directives.must_revalidate)

unfoldable pub should_update_from_304 : HeaderName → Bool
unfolding text_eq
should_update_from_304 name =
    not (text_eq name (codes "content-length"))
    && (not (text_eq name (codes "content-encoding"))
        && not (text_eq name (codes "transfer-encoding")))

-- `checked_add`: no sum past the greatest duration.
unfoldable pub is_fresh_for : ℕ → ℕ → RequestCachePolicy → Bool
is_fresh_for age lifetime policy = if leb lifetime age then false else elim policy.min_fresh [
  | none ↦ true
  | some min_fresh ↦
      if ltb duration_max (age + min_fresh) then false else leb (age + min_fresh) lifetime
]

abbrev pub allows_staleness : Option MaxStale → ℕ → Bool
allows_staleness none staleness = false
allows_staleness (some any_stale) staleness = true
allows_staleness (some (limit n)) staleness = leb staleness n

module _ {H : Type 0} where
  unfoldable pub current_age : ℕ → CachedResponse H → ℕ
  current_age instant entry = saturating_add entry.initial_age (instant - entry.stored_at)

  unfoldable pub effective_freshness_lifetime : CachedResponse H → RequestCachePolicy → ℕ
  effective_freshness_lifetime entry policy = elim policy.max_age [
    | none ↦ entry.freshness_lifetime
    | some max_age ↦ min entry.freshness_lifetime max_age
  ]

  unfoldable pub is_stale_acceptable_for : CachedResponse H → ℕ → ℕ → RequestCachePolicy → Bool
  is_stale_acceptable_for entry age lifetime policy =
      if entry.must_revalidate || is_some policy.min_fresh
      then false
      else allows_staleness policy.max_stale (age - lifetime)

  unfoldable pub is_servable_for : ℕ → CachedResponse H → RequestCachePolicy → Bool
  unfolding current_age effective_freshness_lifetime is_fresh_for is_stale_acceptable_for
  is_servable_for instant entry policy =
      let age = current_age instant entry in
      let lifetime = effective_freshness_lifetime entry policy in
      if entry.must_validate
      then false
      else if is_fresh_for age lifetime policy
      then true
      else is_stale_acceptable_for entry age lifetime policy

  unfoldable pub same_variant_as : CachedResponse H → CachedResponse H → Bool
  unfolding vary_eq
  same_variant_as a b = vary_eq a.vary b.vary

module _ {H : Type 0} (map : HeaderMap H) where
  open map use {get_all, keys, remove, append}

  -- `CacheValidators::from_headers`.
  unfoldable pub validators_of : H → CacheValidators
  validators_of headers = record {
    etag = get map (codes "etag") headers;
    last_modified = get map (codes "last-modified") headers;
  }

  unfoldable pub matches_request : CachedResponse H → RequestCachePolicy → H → Bool
  unfolding tracks_request_header matches
  matches_request entry policy request_headers =
      if policy.has_authorization && not (tracks_request_header authorization_name entry.vary)
      then false
      else matches map request_headers entry.vary

  unfoldable pub can_revalidate : CachedResponse H → H → Bool
  unfolding validators_of
  can_revalidate entry request_headers =
      not (contains_key map (codes "if-none-match") request_headers)
      && (not (contains_key map (codes "if-modified-since") request_headers)
          && has_any (validators_of entry.headers))

  abbrev insert_some : HeaderName → Option HeaderValue → H → H
  insert_some name none headers = headers
  insert_some name (some value) headers = insert map name value headers

  unfoldable pub apply_revalidation_headers : CachedResponse H → H → H
  unfolding validators_of
  apply_revalidation_headers entry request_headers =
      let v = validators_of entry.headers in
      insert_some (codes "if-modified-since") v.last_modified
        (insert_some (codes "if-none-match") v.etag request_headers)

  unfoldable pub response_is_storable : H → ℕ → CacheDirectives → CacheValidators → ℕ → Bool → Bool
  unfolding response_allows_authorized_storage
  response_is_storable headers status directives validators lifetime request_has_authorization =
      status == 200
      && (not (contains_key map (codes "set-cookie") headers)
          && (not directives.no_store
              && ((not request_has_authorization || response_allows_authorized_storage directives)
                  && ((not directives.no_cache || has_any validators)
                      && (not (lifetime == 0) || has_any validators)))))

  unfoldable pub append_all : HeaderName → List HeaderValue → H → H
  append_all name [] headers = headers
  append_all name (v ∷ vs) headers = append_all name vs (append name v headers)

  unfoldable pub update_all : List HeaderName → H → H → H
  unfolding should_update_from_304 append_all
  update_all [] validation headers = headers
  update_all (name ∷ names) validation headers = update_all names validation (
      if should_update_from_304 name
      then append_all name (get_all name validation) (remove name headers)
      else headers)

  unfoldable pub merge_304_headers : H → H → H
  unfolding update_all
  merge_304_headers stored validation =
      update_all (keys validation) validation (remove age_name stored)

  unfoldable pub into_response : ℕ → CachedResponse H → Response H
  unfolding current_age decimal
  into_response instant entry = record {
    status = entry.status;
    version = entry.version;
    headers =
        insert map age_name (decimal (min (as_secs (current_age instant entry)) max_delta_seconds))
          entry.headers;
    body = entry.body;
  }

module _ {H : Type 0} (map : HeaderMap H) (parsers : Parsers) where
  unfoldable pub new_with_vary :
      Clock → ℕ → ℕ → H → List ℕ → ℕ → CapturedVary → Bool → Bool → CachedResponse H
  unfolding response_current_age
  new_with_vary clock status version headers body lifetime vary must_validate must_revalidate =
      record {
        status = status;
        version = version;
        headers = headers;
        body = body;
        stored_at = clock.instant;
        initial_age = response_current_age map parsers clock.system_time headers;
        freshness_lifetime = lifetime;
        vary = vary;
        must_validate = must_validate;
        must_revalidate = must_revalidate;
      }

  abbrev pub keep_authorization : Bool → H → Option CapturedVary → Option CapturedVary
  keep_authorization tracked request_headers none = none
  keep_authorization tracked request_headers (some vary) =
      if tracked
      then some (include_request_header map authorization_name request_headers vary)
      else some vary

  -- The freshened response, and whether it is to be stored.
  unfoldable pub freshen_from_not_modified :
      Clock → CachedResponse H → H → H → CachedResponse H × Bool
  unfolding merge_304_headers from_headers validators_of response_freshness_lifetime capture
      include_request_header tracks_request_header response_is_storable new_with_vary
  freshen_from_not_modified clock entry validation_headers request_headers =
      let headers = merge_304_headers map entry.headers validation_headers in
      let directives = from_headers map parsers headers in
      let validators = validators_of map headers in
      let lifetime =
        or_else (response_freshness_lifetime map parsers clock.system_time headers directives) 0 in
      let vary =
        keep_authorization (tracks_request_header authorization_name entry.vary) request_headers
          (capture map parsers headers request_headers) in
      let stored =
        is_some vary
        && response_is_storable map headers entry.status directives validators lifetime
            (contains_key map authorization_name request_headers) in
      (
        new_with_vary clock entry.status entry.version headers entry.body lifetime (or_else vary [])
            directives.no_cache directives.must_revalidate,
        stored,
      )
