-- ===== src/Cache/Directives.antt =====
-- crates/openwire-cache/src/lib.rs: the directives of Cache-Control, and what a request asks of the
-- cache.
use openwire.Base.{
  ℕ, ◌^◌, ◌≤◌, ◌≡◌, Bool, true, false, not, ◌&&◌, ◌||◌, List, [], ◌∷◌, ◌++◌, Option, none, some,
  any, is_some, min, ◌==◌, if◌then◌else◌, arith, Option-cases, inl, inr,
}
use openwire.Text.{
  text_eq, codes, to_ascii_lowercase, strip_prefix, strip_suffix, trim, split_on, split_once,
  parse_unsigned,
}
use openwire.Cache.Http.{
  HeaderMap, HeaderValue, Parsers, contains_key, and_then, or_else, from_secs, authorization_name,
}

-- `MAX_DELTA_SECONDS`.
abbrev pub max_delta_seconds : ℕ
max_delta_seconds = 2147483648

pub record CacheDirective : Type 0 where
  pub name : List ℕ
  pub value : Option (List ℕ)

pub data MaxStale : Type 0 where
  any_stale : MaxStale
  limit : ℕ → MaxStale

pub record CacheDirectives : Type 0 where
  pub public : Bool
  pub no_cache : Bool
  pub no_store : Bool
  pub only_if_cached : Bool
  pub max_age : Option ℕ
  pub s_maxage : Option ℕ
  pub max_stale : Option MaxStale
  pub min_fresh : Option ℕ
  pub must_revalidate : Bool

abbrev pub default_directives : CacheDirectives
default_directives = record {
  public = false;
  no_cache = false;
  no_store = false;
  only_if_cached = false;
  max_age = none;
  s_maxage = none;
  max_stale = none;
  min_fresh = none;
  must_revalidate = false;
}

abbrev quote : List ℕ
quote = b'"' ∷ []

unfoldable pub unquote : List ℕ → List ℕ
unfolding strip_prefix strip_suffix
unquote value = or_else (and_then (strip_prefix quote value) (strip_suffix quote)) value

unfoldable pub parse_delta_seconds : List ℕ → Option ℕ
unfolding parse_unsigned
parse_delta_seconds value = elim (parse_unsigned (2 ^ 128) value) [
  | none ↦ none
  | some seconds ↦ some (from_secs (min seconds max_delta_seconds))
]

-- One piece between commas.
unfoldable pub directive_of : List ℕ → Option (List ℕ × List ℕ) → CacheDirective
unfolding to_ascii_lowercase trim unquote
directive_of raw none = record { name = to_ascii_lowercase raw; value = none }
directive_of raw (some (name, value)) = record {
  name = to_ascii_lowercase (trim name);
  value = some (unquote (trim value));
}

unfoldable pub directives_of : List (List ℕ) → List CacheDirective
unfolding directive_of trim split_once
directives_of [] = []
directives_of (piece ∷ pieces) =
    let rest = directives_of pieces in
    elim (trim piece) [
      | [] ↦ rest
      | c ∷ raw ↦ directive_of (c ∷ raw) (split_once b'=' (c ∷ raw)) ∷ rest
    ]

unfoldable pub cache_control_directives : List ℕ → List CacheDirective
unfolding directives_of split_on
cache_control_directives value = directives_of (split_on b',' value)

abbrev delta : CacheDirective → Option ℕ
delta d = and_then d.value parse_delta_seconds

-- A value that does not parse leaves what is there.
abbrev set_some : {A : Type 0} → Option A → Option A → Option A
set_some none old = old
set_some (some a) old = some a

abbrev stale_limit : Option (List ℕ) → Option MaxStale
stale_limit none = some any_stale
stale_limit (some value) = elim (parse_delta_seconds value) [
  | none ↦ none
  | some n ↦ some (limit n)
]

-- The arms of the match on a directive's name.
unfoldable pub apply_directive : CacheDirective → CacheDirectives → CacheDirectives
unfolding text_eq parse_delta_seconds
apply_directive d out =
    if text_eq d.name (codes "public")
    then record out { public = true }
    else if text_eq d.name (codes "no-cache")
    then record out { no_cache = true }
    else if text_eq d.name (codes "no-store")
    then record out { no_store = true }
    else if text_eq d.name (codes "only-if-cached")
    then record out { only_if_cached = true }
    else if text_eq d.name (codes "must-revalidate")
    then record out { must_revalidate = true }
    else if text_eq d.name (codes "max-age")
    then record out { max_age = set_some (delta d) out.max_age }
    else if text_eq d.name (codes "s-maxage")
    then record out { s_maxage = set_some (delta d) out.s_maxage }
    else if text_eq d.name (codes "max-stale")
    then record out { max_stale = set_some (stale_limit d.value) out.max_stale }
    else if text_eq d.name (codes "min-fresh")
    then record out { min_fresh = set_some (delta d) out.min_fresh }
    else out

unfoldable pub apply_directives : List CacheDirective → CacheDirectives → CacheDirectives
unfolding apply_directive
apply_directives [] out = out
apply_directives (d ∷ ds) out = apply_directives ds (apply_directive d out)

-- The directives of the values that are text.
unfoldable pub all_directives : Parsers → List HeaderValue → List CacheDirective
unfolding cache_control_directives
all_directives p [] = []
all_directives p (value ∷ values) = elim (p.to_str value) [
  | none ↦ all_directives p values
  | some text ↦ cache_control_directives text ++ all_directives p values
]

pub record RequestCachePolicy : Type 0 where
  pub is_cacheable : Bool
  pub has_authorization : Bool
  pub lookup : Bool
  pub store_response : Bool
  pub only_if_cached : Bool
  pub max_age : Option ℕ
  pub max_stale : Option MaxStale
  pub min_fresh : Option ℕ

abbrev is_zero : Option ℕ → Bool
is_zero none = false
is_zero (some n) = n == 0

module _ {H : Type 0} (map : HeaderMap H) (parsers : Parsers) where
  open map use {get_all}
  open parsers use {to_str}

  -- `CacheDirectives::from_headers`.
  unfoldable pub from_headers : H → CacheDirectives
  unfolding all_directives apply_directives
  from_headers headers =
      apply_directives (all_directives parsers (get_all (codes "cache-control") headers))
        default_directives

  abbrev names_no_cache : HeaderValue → Bool
  names_no_cache value = elim (to_str value) [
    | none ↦ false
    | some text ↦
        any (λ (d : CacheDirective). text_eq d.name (codes "no-cache"))
          (cache_control_directives text)
  ]

  unfoldable pub request_pragma_no_cache : H → Bool
  unfolding text_eq cache_control_directives
  request_pragma_no_cache headers = any names_no_cache (get_all (codes "pragma") headers)

  unfoldable pub request_cache_directives : H → CacheDirectives
  unfolding from_headers request_pragma_no_cache
  request_cache_directives headers =
      let directives = from_headers headers in
      if not (contains_key map (codes "cache-control") headers) && request_pragma_no_cache headers
      then record directives { no_cache = true }
      else directives

  -- The method, the headers, and the length of a replayable body.
  unfoldable pub request_cache_policy : List ℕ → H → Option ℕ → RequestCachePolicy
  unfolding request_cache_directives text_eq
  request_cache_policy method headers replayable_len =
      let directives = request_cache_directives headers in
      let is_cacheable = text_eq method (codes "GET") && is_zero replayable_len in
      record {
        is_cacheable = is_cacheable;
        has_authorization = contains_key map authorization_name headers;
        lookup =
            is_cacheable
            && (not directives.no_cache
                && (not (is_zero directives.max_age) || is_some directives.max_stale));
        store_response = is_cacheable && not directives.no_store;
        only_if_cached = is_cacheable && directives.only_if_cached;
        max_age = directives.max_age;
        max_stale = directives.max_stale;
        min_fresh = directives.min_fresh;
      }

-- A number of seconds is clamped.
pub parse_delta_seconds-le :
    (value : List ℕ) (n : ℕ) → parse_delta_seconds value ≡ some n → n ≤ from_secs max_delta_seconds
unfolding parse_delta_seconds
parse_delta_seconds-le value n h = elim (Option-cases (parse_unsigned (2 ^ 128) value)) [
  | inl e ↦ absurd (ground arith)
  | inr (s, e) ↦ ground arith
]
