-- ===== src/Cache/Examples.antt =====
-- The cache at concrete inputs: a header map as a list, a store with limits, and the witnesses.
use openwire.Base.{
  not, ℕ, ◌≤◌, ◌≡◌, refl, ◌⊎◌, inl, inr, ◌↔◌, true, false, ◌&&◌, List, [], ◌∷◌, ◌++◌, none, some,
  any, length, if◌then◌else◌, ok, Bool-cases, arith,
}
use openwire.Text.{text_eq, text_eq_sound, codes}
use openwire.Cache.Http.{
  HeaderMap, HeaderName, HeaderValue, Parsers, from_secs, contains_key, age_name,
}
use openwire.Cache.Directives.{
  any_stale, limit, default_directives, apply_directives, cache_control_directives,
  RequestCachePolicy,
}
use openwire.Cache.Entry.{CachedResponse, Clock, is_servable_for, merge_304_headers}
use openwire.Cache.Entry.Servable.{
  Fresh, AcceptablyStale, age_at, lifetime_for, is_servable_for_lem,
}
use openwire.Cache.Entry.Merge.{body_form_names, get_all-merge_304_headers}
use openwire.Cache.Store.{
  Slot, MemoryCacheStore, StoreCall, put_call, remove_call, remove_candidate_call, with_limits,
  total_body_bytes, run_calls, put_candidate, get_candidates, remove, remove_candidate,
}
use openwire.Cache.Store.Distinct.{distinct_slots}
use openwire.Cache.Store.Limits.{with_limits-WithinLimits}
use openwire.Cache.Store.Lookup.{Stored, fits, get_candidates-put_candidate}
use openwire.Cache.Store.Contents.{
  EachStored, remove-EachStored, remove_candidate-EachStored, put_candidate-EachStored,
}
use openwire.Cache.Keys.{Urls}
use openwire.Cache.Intercept.{CacheStore, CacheRequest, CacheChain, intercept}
use openwire.Cache.Intercept.Served.{ServesStored, GivesUp, Sends, intercept_lem}
use openwire.Cache.Intercept.Stored.{intercept-Good}

abbrev example_value : List ℕ
example_value = codes "private, Max-Age=\"60\" ,, max-stale , s-maxage = 5"

directives_test :
    apply_directives (cache_control_directives example_value) default_directives
    ≡ record default_directives {
      max_age = some (from_secs 60);
      s_maxage = some (from_secs 5);
      max_stale = some any_stale;
    }
unfolding apply_directives cache_control_directives
directives_test = refl

-- A header map as a list of names and values.
abbrev Headers : Type 0
Headers = List (HeaderName × HeaderValue)

abbrev values_of : HeaderName → Headers → List HeaderValue
values_of n [] = []
values_of n ((m, v) ∷ h) = let rest = values_of n h in if text_eq n m then v ∷ rest else rest

abbrev names_of : Headers → List HeaderName
names_of [] = []
names_of ((m, v) ∷ h) = m ∷ names_of h

abbrev remove_name : HeaderName → Headers → Headers
remove_name n [] = []
remove_name n ((m, v) ∷ h) =
    let rest = remove_name n h in if text_eq n m then rest else (m, v) ∷ rest

values_of-remove_name :
    (m n : HeaderName) (h : Headers)
    → values_of m (remove_name n h) ≡ (elim (text_eq m n) [ true ↦ [] | false ↦ values_of m h ])
values_of-remove_name m n [] = elim (Bool-cases (text_eq m n)) [ inl e ↦ rw e | inr e ↦ rw e ]
values_of-remove_name m n ((k, v) ∷ h) = elim (Bool-cases (text_eq m n)) [
  | inl e ↦ elim (Bool-cases (text_eq n k)) [
    | inl f ↦ ground (arith, values_of-remove_name m n h)
    | inr f ↦ ground (arith, text_eq_sound m n e, values_of-remove_name m n h)
  ]
  | inr e ↦ elim (Bool-cases (text_eq n k)) [
    | inl f ↦ ground (arith, text_eq_sound n k f, values_of-remove_name m n h)
    | inr f ↦ ground (arith, values_of-remove_name m n h)
  ]
]

values_of-append :
    (m n : HeaderName) (v : HeaderValue) (h : Headers)
    → values_of m (h ++ ((n, v) ∷ []))
      ≡ (elim (text_eq m n) [ true ↦ values_of m h ++ (v ∷ []) | false ↦ values_of m h ])
values_of-append m n v [] = elim (Bool-cases (text_eq m n)) [ inl e ↦ rw e | inr e ↦ rw e ]
values_of-append m n v ((k, w) ∷ h) = elim (Bool-cases (text_eq m n)) [
  | inl e ↦ ground (arith, values_of-append m n v h)
  | inr e ↦ ground (arith, values_of-append m n v h)
]

names_of_lem :
    (m : HeaderName) (h : Headers)
    → any (text_eq m) (names_of h) ≡ (elim (values_of m h) [ [] ↦ false | v ∷ vs ↦ true ])
names_of_lem m [] = refl
names_of_lem m ((k, v) ∷ h) = elim (Bool-cases (text_eq m k)) [
  | inl e ↦ rw e
  | inr e ↦ rw e (names_of_lem m h)
]

abbrev header_list : HeaderMap Headers
header_list = record {
  get_all = values_of;
  keys = names_of;
  remove = remove_name;
  append = λ n v h. h ++ ((n, v) ∷ []);
  get_all-remove = values_of-remove_name;
  get_all-append = values_of-append;
  keys_lem = names_of_lem;
}

abbrev no_dates : Parsers
no_dates = record { to_str = some; from_bytes = some; parse_http_date = λ text. none }

-- A 200 stored at 0, fresh for a minute.
abbrev stored_page : CachedResponse Headers
stored_page = record {
  status = 200;
  version = 11;
  headers =
      (age_name, codes "3") ∷ (codes "etag", codes "v1") ∷ (codes "content-length", codes "2") ∷ [];
  body = codes "ok";
  stored_at = 0;
  initial_age = from_secs 3;
  freshness_lifetime = from_secs 60;
  vary = [];
  must_validate = false;
  must_revalidate = false;
}

abbrev get_request : CacheRequest (List ℕ) Headers
get_request = record {
  method = codes "GET";
  uri = codes "/";
  headers = [];
  replayable_len = some 0;
}

abbrev plain_policy : RequestCachePolicy
plain_policy = record {
  is_cacheable = true;
  has_authorization = false;
  lookup = true;
  store_response = true;
  only_if_cached = false;
  max_age = none;
  max_stale = some (limit (from_secs 10));
  min_fresh = none;
}

-- Served while stale by no more than ten seconds.
is_servable_for_lem_example : (is_servable_for (from_secs 65) stored_page plain_policy ≡ true) ↔ (
    (stored_page.must_validate ≡ false)
    × (Fresh
          (age_at (from_secs 65) stored_page)
          (lifetime_for stored_page plain_policy)
          plain_policy.min_fresh
        ⊎ ((stored_page.must_revalidate ≡ false)
            × AcceptablyStale
                (age_at (from_secs 65) stored_page)
                (lifetime_for stored_page plain_policy)
                plain_policy.min_fresh
                plain_policy.max_stale)))
is_servable_for_lem_example = is_servable_for_lem (from_secs 65) stored_page plain_policy

servable_test : is_servable_for (from_secs 65) stored_page plain_policy ≡ true
unfolding is_servable_for
servable_test = refl

not_servable_test : is_servable_for (from_secs 68) stored_page plain_policy ≡ false
unfolding is_servable_for
not_servable_test = refl

abbrev not_modified_headers : Headers
not_modified_headers = (codes "etag", codes "v2") ∷ (codes "content-length", codes "0") ∷ []

get_all-merge_304_headers_example :
    values_of
      (codes "etag")
      (merge_304_headers header_list stored_page.headers not_modified_headers)
    ≡ (if contains_key header_list (codes "etag") not_modified_headers
          && not (any (text_eq (codes "etag")) body_form_names)
        then values_of (codes "etag") not_modified_headers
        else if text_eq (codes "etag") (codes "age")
        then []
        else values_of (codes "etag") stored_page.headers)
get_all-merge_304_headers_example =
    get_all-merge_304_headers header_list (codes "etag") stored_page.headers not_modified_headers

merge_test :
    values_of
      (codes "content-length")
      (merge_304_headers header_list stored_page.headers not_modified_headers)
    ≡ codes "2" ∷ []
unfolding merge_304_headers
merge_test = refl

abbrev first_slot : List (Slot Headers) → ℕ
first_slot slots = 0

abbrev some_calls : List (StoreCall first_slot)
some_calls =
    put_call (codes "/a") stored_page
    ∷ put_call (codes "/b") stored_page
    ∷ remove_candidate_call (codes "/b") stored_page
    ∷ put_call (codes "/c") stored_page
    ∷ remove_call (codes "/d")
    ∷ []

with_limits-WithinLimits_example :
    (length (run_calls first_slot some_calls (with_limits 1 3)).entries ≤ 1)
    × (total_body_bytes (run_calls first_slot some_calls (with_limits 1 3)).entries ≤ 3)
    × (distinct_slots (run_calls first_slot some_calls (with_limits 1 3)).entries ≡ true)
with_limits-WithinLimits_example = with_limits-WithinLimits first_slot 1 3 some_calls

abbrev small_store : MemoryCacheStore Headers
small_store = with_limits 2 100

get_candidates-put_candidate_example :
    Stored first_slot
      (codes "/a")
      (codes "/a")
      stored_page
      (get_candidates (codes "/a") small_store)
      (get_candidates (codes "/a") (put_candidate first_slot (codes "/a") stored_page small_store))
    ⊎ ((get_candidates (codes "/a") (put_candidate first_slot (codes "/a") stored_page small_store)
          ≡ [])
        × (fits first_slot (codes "/a") stored_page small_store ≡ false))
unfolding distinct_slots
get_candidates-put_candidate_example =
    get_candidates-put_candidate first_slot (codes "/a") (codes "/a") stored_page small_store
      (omega arith) refl

-- URLs as text that is kept as it is.
abbrev plain_urls : Urls (List ℕ) (List ℕ)
plain_urls = record {
  uri_to_string = λ uri. uri;
  parse = some;
  join = λ base text. some text;
  as_str = λ url. url;
  parse_uri = some;
  host_str = λ url. some (codes "a.b");
  set_host = λ host url. url;
  scheme = λ url. codes "http";
  port = λ url. none;
  clear_port = λ url. url;
  path = λ url. url;
  set_path = λ path url. path;
}

abbrev memory_calls : CacheStore (MemoryCacheStore Headers) Headers
memory_calls = record {
  get_candidates = get_candidates;
  put_candidate = put_candidate first_slot;
  remove = remove;
  remove_candidate = remove_candidate;
}

-- A server that answers every request with a page to keep for a minute.
abbrev page_chain : CacheChain (List ℕ) (List ℕ) (List ℕ) (MemoryCacheStore Headers) Headers
page_chain = record {
  header_map = header_list;
  empty_headers = [];
  parsers = no_dates;
  urls = plain_urls;
  calls = memory_calls;
  next = λ request store. (
    ok record {
      status = 200;
      version = 11;
      headers = (codes "cache-control", codes "max-age=60") ∷ [];
      body = ok (codes "page");
    },
    store,
  );
  meanwhile = λ store. store;
}

abbrev at_start : Clock
at_start = record { instant = 0; system_time = 0 }

abbrev a_second_later : Clock
a_second_later = record { instant = from_secs 1; system_time = from_secs 1 }

abbrev after_one : MemoryCacheStore Headers
after_one = (intercept page_chain at_start a_second_later get_request small_store).store

intercept_lem_example :
    ServesStored page_chain a_second_later.instant get_request after_one
      (intercept page_chain a_second_later a_second_later get_request after_one)
    ⊎ (GivesUp page_chain get_request after_one
          (intercept page_chain a_second_later a_second_later get_request after_one)
        ⊎ Sends page_chain get_request
            (intercept page_chain a_second_later a_second_later get_request after_one))
intercept_lem_example = intercept_lem page_chain a_second_later a_second_later get_request after_one

-- The second request for the page is not sent.
hit_test : (intercept page_chain a_second_later a_second_later get_request after_one).sent ≡ none
unfolding intercept get_candidates put_candidate
hit_test = refl

abbrev Ok200 : CachedResponse Headers → Type 0
Ok200 entry = entry.status ≡ 200

intercept-Good_example :
    EachStored Ok200 (intercept page_chain at_start a_second_later get_request small_store).store
intercept-Good_example =
    intercept-Good page_chain (EachStored Ok200) (remove-EachStored Ok200) (λ t g. g)
      (remove_candidate-EachStored Ok200) a_second_later get_request
      (λ k v s p g. put_candidate-EachStored Ok200 first_slot k v s p.0 g) at_start small_store tt
      (λ r t g. g)
