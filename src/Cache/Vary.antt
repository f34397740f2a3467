-- ===== src/Cache/Vary.antt =====
-- crates/openwire-cache/src/lib.rs: the request headers that a stored response depends on.
use openwire.Base.{
  ℕ, ◌≡◌, refl, sym, ap, ap₂, ◌∙◌, Bool, true, false, ◌&&◌, List, [], ◌∷◌, ◌++◌, Option, none, some,
  any, if◌then◌else◌, Bool-cases, inl, inr, arith,
}
use openwire.Text.{text_eq, text_eq_sound, text_eq_self, codes, trim, split_on}
use openwire.Cache.Http.{HeaderMap, HeaderName, HeaderValue, Parsers}

pub record VaryField : Type 0 where
  pub name : HeaderName
  pub values : List HeaderValue

-- `fields` of `CapturedVary`.
abbrev pub CapturedVary : Type 0
CapturedVary = List VaryField

unfoldable pub values_eq : List HeaderValue → List HeaderValue → Bool
unfolding text_eq
values_eq [] [] = true
values_eq [] (y ∷ ys) = false
values_eq (x ∷ xs) [] = false
values_eq (x ∷ xs) (y ∷ ys) = text_eq x y && values_eq xs ys

unfoldable pub vary_eq : CapturedVary → CapturedVary → Bool
unfolding values_eq text_eq
vary_eq [] [] = true
vary_eq [] (g ∷ gs) = false
vary_eq (f ∷ fs) [] = false
vary_eq (f ∷ fs) (g ∷ gs) = (text_eq f.name g.name && values_eq f.values g.values) && vary_eq fs gs

abbrev is_star : List ℕ → Bool
is_star name = text_eq name (codes "*")

-- `tracks_request_header`.
unfoldable pub tracks_request_header : HeaderName → CapturedVary → Bool
unfolding text_eq
tracks_request_header name fields = any (λ (f : VaryField). text_eq f.name name) fields

module _ {H : Type 0} (map : HeaderMap H) where
  open map use {get_all}

  abbrev field_of : HeaderName → H → VaryField
  field_of name request_headers = record { name = name; values = get_all name request_headers }

  unfoldable pub include_request_header : HeaderName → H → CapturedVary → CapturedVary
  unfolding text_eq
  include_request_header name request_headers [] = field_of name request_headers ∷ []
  include_request_header name request_headers (f ∷ fields) =
      let rest = include_request_header name request_headers fields in
      if text_eq f.name name
      then record f { values = get_all name request_headers } ∷ fields
      else f ∷ rest

  -- `CapturedVary::matches`.
  unfoldable pub matches : H → CapturedVary → Bool
  unfolding values_eq
  matches request_headers [] = true
  matches request_headers (f ∷ fields) =
      values_eq (get_all f.name request_headers) f.values && matches request_headers fields

module _ {H : Type 0} (map : HeaderMap H) (parsers : Parsers) where
  open map use {get_all}
  open parsers use {to_str, from_bytes}

  abbrev push_field : HeaderName → H → CapturedVary → CapturedVary
  push_field name request_headers fields =
      if tracks_request_header name fields
      then fields
      else fields ++ (field_of map name request_headers ∷ [])

  -- The names of one value; `none` at a star or at what is no name.
  unfoldable pub capture_names : H → List (List ℕ) → CapturedVary → Option CapturedVary
  unfolding text_eq trim tracks_request_header
  capture_names request_headers [] fields = some fields
  capture_names request_headers (piece ∷ pieces) fields = elim (trim piece) [
    | [] ↦ capture_names request_headers pieces fields
    | c ∷ name ↦ if is_star (c ∷ name) then none else elim (from_bytes (c ∷ name)) [
      | none ↦ none
      | some n ↦ capture_names request_headers pieces (push_field n request_headers fields)
    ]
  ]

  unfoldable pub capture_values : H → List HeaderValue → CapturedVary → Option CapturedVary
  unfolding capture_names split_on
  capture_values request_headers [] fields = some fields
  capture_values request_headers (value ∷ values) fields = elim (to_str value) [
    | none ↦ none
    | some text ↦ elim (capture_names request_headers (split_on b',' text) fields) [
      | none ↦ none
      | some more ↦ capture_values request_headers values more
    ]
  ]

  -- `CapturedVary::capture`.
  unfoldable pub capture : H → H → Option CapturedVary
  unfolding capture_values
  capture response_headers request_headers =
      capture_values request_headers (get_all (codes "vary") response_headers) []

pub values_eq_sound : (xs ys : List HeaderValue) → values_eq xs ys ≡ true → xs ≡ ys
unfolding values_eq
values_eq_sound [] [] h = refl
values_eq_sound [] (y ∷ ys) h = absurd (ground arith)
values_eq_sound (x ∷ xs) [] h = absurd (ground arith)
values_eq_sound (x ∷ xs) (y ∷ ys) h =
    ground (arith, text_eq_sound x y, values_eq_sound xs ys (ground arith))

pub vary_eq_sound : (fs gs : CapturedVary) → vary_eq fs gs ≡ true → fs ≡ gs
unfolding vary_eq
vary_eq_sound [] [] h = refl
vary_eq_sound [] (g ∷ gs) h = absurd (ground arith)
vary_eq_sound (f ∷ fs) [] h = absurd (ground arith)
vary_eq_sound (f ∷ fs) (g ∷ gs) h =
    ap₂ (◌∷◌)
      (ap₂ (λ n v. record { name = n; values = v }) (text_eq_sound f.name g.name (ground arith))
        (values_eq_sound f.values g.values (ground arith)))
      (vary_eq_sound fs gs (ground arith))

pub values_eq_self : (xs : List HeaderValue) → values_eq xs xs ≡ true
unfolding values_eq
values_eq_self [] = refl
values_eq_self (x ∷ xs) = rw (text_eq_self x, values_eq_self xs)

pub vary_eq_self : (fs : CapturedVary) → vary_eq fs fs ≡ true
unfolding vary_eq
vary_eq_self [] = refl
vary_eq_self (f ∷ fs) = rw (text_eq_self f.name, values_eq_self f.values, vary_eq_self fs)

module _ {H : Type 0} (map : HeaderMap H) where
  open map use {get_all}

  -- A field that was captured from one request, for a name.
  abbrev pub Captured : HeaderName → H → CapturedVary → Type 0
  Captured name stored fields =
      (r : H) → matches map r fields ≡ true → get_all name r ≡ get_all name stored

  pub include_request_header-Captured :
      (name : HeaderName) (stored : H) (fields : CapturedVary)
      → Captured name stored (include_request_header map name stored fields)
  unfolding include_request_header matches
  include_request_header-Captured name stored [] r h =
      values_eq_sound (get_all name r) (get_all name stored) (ground arith)
  include_request_header-Captured name stored (f ∷ fields) r h =
      elim (Bool-cases (text_eq f.name name)) [
        | inl e ↦
            ap (λ n. get_all n r) (sym (text_eq_sound f.name name e))
            ∙ values_eq_sound (get_all f.name r) (get_all name stored) (ground arith)
        | inr e ↦ include_request_header-Captured name stored fields r (ground arith)
      ]
