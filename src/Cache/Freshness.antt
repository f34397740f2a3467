-- ===== src/Cache/Freshness.antt =====
-- crates/openwire-cache/src/lib.rs: how long a response stays fresh and how old it is. Dates are
-- nanoseconds from the epoch, which no date of HTTP precedes.
use openwire.Base.{
  ℕ, ◌-◌, ◌/◌, ◌^◌, Bool, false, List, [], ◌∷◌, Option, none, some, length, retain, max, leb, ltb,
  if◌then◌else◌,
}
use openwire.Text.{text_eq, codes, trim, split_on, parse_unsigned}
use openwire.Cache.Http.{
  HeaderMap, HeaderName, Parsers, get, and_then, or_else, from_secs, as_secs, age_name,
}
use openwire.Cache.Directives.{CacheDirective, CacheDirectives, all_directives}

-- `duration_since`: an error where the other instant is later.
abbrev pub duration_since : ℕ → ℕ → Option ℕ
duration_since later earlier = if leb earlier later then some (later - earlier) else none

-- The first piece of a list that `split` gives.
abbrev first_piece : List (List ℕ) → List ℕ
first_piece [] = []
first_piece (piece ∷ pieces) = piece

abbrev is_positive : Option ℕ → Bool
is_positive none = false
is_positive (some n) = ltb 0 n

module _ {H : Type 0} (map : HeaderMap H) (parsers : Parsers) where
  open map use {get_all}
  open parsers use {to_str, parse_http_date}

  unfoldable pub parse_http_date_header : HeaderName → H → Option ℕ
  parse_http_date_header name headers =
      and_then (and_then (get map name headers) to_str) parse_http_date

  unfoldable pub cache_control_directive_count : List ℕ → H → ℕ
  unfolding all_directives retain text_eq
  cache_control_directive_count name headers = length (
      retain (λ (d : CacheDirective). text_eq d.name name)
        (all_directives parsers (get_all (codes "cache-control") headers)))

  -- A value that is no date counts as the epoch.
  unfoldable pub explicit_expires_lifetime : ℕ → H → Option ℕ
  unfolding parse_http_date_header
  explicit_expires_lifetime now headers = elim (get map (codes "expires") headers) [
    | none ↦ none
    | some value ↦
        let expires = or_else (and_then (to_str value) parse_http_date) 0 in
        let date = or_else (parse_http_date_header (codes "date") headers) now in
        some (or_else (duration_since expires date) 0)
  ]

  -- A tenth of the time since the last modification, in whole seconds.
  unfoldable pub heuristic_freshness_lifetime : ℕ → H → Option ℕ
  unfolding parse_http_date_header
  heuristic_freshness_lifetime now headers =
      elim (parse_http_date_header (codes "last-modified") headers) [
        | none ↦ none
        | some last_modified ↦
            elim (duration_since (or_else (parse_http_date_header (codes "date") headers) now)
              last_modified) [
                | none ↦ none
                | some since ↦
                    let seconds = as_secs since / 10 in
                    if ltb 0 seconds then some (from_secs seconds) else none
              ]
      ]

  explicit_or_heuristic : ℕ → H → Option ℕ
  unfolding explicit_expires_lifetime heuristic_freshness_lifetime
  explicit_or_heuristic now headers = elim (explicit_expires_lifetime now headers) [
    | some lifetime ↦ some lifetime
    | none ↦
        let heuristic = heuristic_freshness_lifetime now headers in
        if is_positive heuristic then heuristic else none
  ]

  unfoldable pub response_freshness_lifetime : ℕ → H → CacheDirectives → Option ℕ
  unfolding cache_control_directive_count explicit_or_heuristic
  response_freshness_lifetime now headers directives =
      if ltb 1 (cache_control_directive_count (codes "max-age") headers)
      then some 0
      else elim directives.max_age [
        | some max_age ↦ some max_age
        | none ↦
            if ltb 1 (length (get_all (codes "expires") headers))
            then some 0
            else explicit_or_heuristic now headers
      ]

  -- The seconds of the Age header; what does not parse counts as 0.
  unfoldable pub response_age : H → ℕ
  unfolding trim split_on parse_unsigned
  response_age headers =
      or_else
        (and_then (and_then (get map age_name headers) to_str) (λ text.
          elim (parse_unsigned (2 ^ 64) (trim (first_piece (split_on b',' text)))) [
            | none ↦ none
            | some seconds ↦ some (from_secs seconds)
          ]))
        0

  unfoldable pub response_current_age : ℕ → H → ℕ
  unfolding parse_http_date_header response_age
  response_current_age now headers =
      max
        (or_else (and_then (parse_http_date_header (codes "date") headers) (duration_since now)) 0)
        (response_age headers)
