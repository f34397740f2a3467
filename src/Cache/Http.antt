-- ===== src/Cache/Http.antt =====
-- What the cache takes from other crates: the header map, header values as text, dates, and URLs. A
-- name is a byte string in lower case and a value is a byte string; the laws are those that the
-- documentation of http::HeaderMap gives. Instants and durations are numbers of nanoseconds, from the
-- epoch for the wall clock.
use openwire.Base.{
  ℕ, ◌*◌, ◌+◌, ◌-◌, ◌/◌, ◌^◌, ◌≡◌, Bool, true, false, List, [], ◌∷◌, ◌++◌, Option, none, some, any,
  min,
}
use openwire.Text.{text_eq, codes}

abbrev pub HeaderName : Type 0
HeaderName = List ℕ

abbrev pub HeaderValue : Type 0
HeaderValue = List ℕ

-- A name has its values in order; `keys` gives each name that has any.
pub record HeaderMap (H : Type 0) : Type 0 where
  pub get_all : HeaderName → H → List HeaderValue
  pub keys : H → List HeaderName
  pub remove : HeaderName → H → H
  pub append : HeaderName → HeaderValue → H → H
  pub get_all-remove :
      (m n : HeaderName) (h : H)
      → get_all m (remove n h) ≡ (elim (text_eq m n) [ true ↦ [] | false ↦ get_all m h ])
  pub get_all-append :
      (m n : HeaderName) (v : HeaderValue) (h : H)
      → get_all m (append n v h)
        ≡ (elim (text_eq m n) [ true ↦ get_all m h ++ (v ∷ []) | false ↦ get_all m h ])
  pub keys_lem :
      (m : HeaderName) (h : H)
      → any (text_eq m) (keys h) ≡ (elim (get_all m h) [ [] ↦ false | v ∷ vs ↦ true ])

-- `to_str` of a value, `from_bytes` of a name, the date parser, and the wall clock.
pub record Parsers : Type 0 where
  pub to_str : HeaderValue → Option (List ℕ)
  pub from_bytes : List ℕ → Option HeaderName
  pub parse_http_date : List ℕ → Option ℕ

module _ {H : Type 0} (map : HeaderMap H) where
  open map use {get_all, remove, append}

  abbrev pub get : HeaderName → H → Option HeaderValue
  get n h = elim (get_all n h) [ [] ↦ none | v ∷ vs ↦ some v ]

  abbrev pub contains_key : HeaderName → H → Bool
  contains_key n h = elim (get_all n h) [ [] ↦ false | v ∷ vs ↦ true ]

  -- `insert` leaves the one value.
  abbrev pub insert : HeaderName → HeaderValue → H → H
  insert n v h = append n v (remove n h)

-- `and_then`.
abbrev pub and_then : {A B : Type 0} → Option A → (A → Option B) → Option B
and_then none f = none
and_then (some a) f = f a

abbrev pub or_else : {A : Type 0} → Option A → A → A
or_else none a = a
or_else (some b) a = b

-- Durations.
abbrev pub second : ℕ
second = 1000000000

abbrev pub from_secs : ℕ → ℕ
from_secs n = n * second

abbrev pub as_secs : ℕ → ℕ
as_secs d = d / second

-- `Duration::MAX`.
abbrev pub duration_max : ℕ
duration_max = 2 ^ 64 * second - 1

abbrev pub saturating_add : ℕ → ℕ → ℕ
saturating_add a b = min (a + b) duration_max

abbrev pub age_name : HeaderName
age_name = codes "age"

abbrev pub authorization_name : HeaderName
authorization_name = codes "authorization"
