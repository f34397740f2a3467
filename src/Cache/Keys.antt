-- ===== src/Cache/Keys.antt =====
-- crates/openwire-cache/src/lib.rs: the keys of the store and the keys that an unsafe request
-- invalidates. The crates http and url are parameters.
use openwire.Base.{
  ℕ, Bool, false, ◌&&◌, List, [], ◌∷◌, ◌++◌, Option, none, some, any, ◌==◌, if◌then◌else◌,
}
use openwire.Text.{text_eq, codes, to_ascii_lowercase}
use openwire.Cache.Http.{HeaderMap, HeaderValue, Parsers, and_then}

-- A `Uri` as text, and a parsed `Url` with the parts that are read and set.
pub record Urls (U R : Type 0) : Type 0 where
  pub uri_to_string : U → List ℕ
  pub parse : List ℕ → Option R
  pub join : R → List ℕ → Option R
  pub as_str : R → List ℕ
  pub parse_uri : List ℕ → Option U
  pub host_str : R → Option (List ℕ)
  pub set_host : List ℕ → R → R
  pub scheme : R → List ℕ
  pub port : R → Option ℕ
  pub clear_port : R → R
  pub path : R → List ℕ
  pub set_path : List ℕ → R → R

abbrev pub is_port : ℕ → Option ℕ → Bool
is_port n none = false
is_port n (some m) = m == n

module _ {U R : Type 0} (urls : Urls U R) where
  open urls use {
    uri_to_string, parse, join, as_str, parse_uri, host_str, set_host, scheme, port, clear_port,
    path, set_path,
  }

  abbrev lowercase_host : Option (List ℕ) → R → R
  lowercase_host none url = url
  lowercase_host (some host) url = set_host (to_ascii_lowercase host) url

  abbrev drop_default_port : R → R
  drop_default_port url =
      if text_eq (scheme url) (codes "http") && is_port 80 (port url)
      then clear_port url
      else if text_eq (scheme url) (codes "https") && is_port 443 (port url)
      then clear_port url
      else url

  abbrev root_path : R → R
  root_path url = elim (path url) [ [] ↦ set_path (codes "/") url | c ∷ rest ↦ url ]

  unfoldable pub normalize_cache_uri : U → List ℕ
  unfolding text_eq to_ascii_lowercase
  normalize_cache_uri uri = elim (parse (uri_to_string uri)) [
    | none ↦ uri_to_string uri
    | some url ↦ as_str (root_path (drop_default_port (lowercase_host (host_str url) url)))
  ]

  unfoldable pub same_host : R → R → Bool
  unfolding text_eq to_ascii_lowercase
  same_host left right = elim (host_str left) [
    | none ↦ false
    | some a ↦ elim (host_str right) [
      | none ↦ false
      | some b ↦ text_eq (to_ascii_lowercase a) (to_ascii_lowercase b)
    ]
  ]

  unfoldable pub same_host_invalidation_uri : Parsers → U → HeaderValue → Option U
  unfolding same_host
  same_host_invalidation_uri parsers target_uri value =
      and_then (parse (uri_to_string target_uri)) (λ target.
        and_then (parsers.to_str value) (λ text.
          and_then (join target text)
            (λ uri. if same_host target uri then parse_uri (as_str uri) else none)))

  unfoldable pub push_keys : Parsers → U → List HeaderValue → List (List ℕ) → List (List ℕ)
  unfolding same_host_invalidation_uri normalize_cache_uri text_eq
  push_keys parsers target_uri [] keys = keys
  push_keys parsers target_uri (value ∷ values) keys =
      push_keys parsers target_uri values
        (elim (same_host_invalidation_uri parsers target_uri value) [
          | none ↦ keys
          | some uri ↦
              if any (text_eq (normalize_cache_uri uri)) keys
              then keys
              else keys ++ (normalize_cache_uri uri ∷ [])
        ])

  unfoldable pub invalidation_keys : {H : Type 0} → HeaderMap H → Parsers → U → H → List (List ℕ)
  unfolding push_keys normalize_cache_uri
  invalidation_keys map parsers target_uri headers =
      push_keys parsers target_uri (map.get_all (codes "content-location") headers) (
        push_keys parsers target_uri (map.get_all (codes "location") headers)
          (normalize_cache_uri target_uri ∷ []))
