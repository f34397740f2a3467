-- ===== src/Cache/Entry/Merge.antt =====
-- crates/openwire-cache/src/lib.rs: the header of a stored response after a 304.
use openwire.Base.{
  not, arith, ◌≡◌, refl, ap, ap₂, ◌∙◌, Bool, true, false, ◌&&◌, ◌||◌, List, [], ◌∷◌, ◌++◌,
  append-nil, append_assoc, any, if◌then◌else◌, Bool-cases, inl, inr,
}
use openwire.Text.{codes, text_eq, text_eq_sound}
use openwire.Cache.Http.{HeaderMap, HeaderName, HeaderValue, contains_key, age_name}
use openwire.Cache.Entry.{should_update_from_304, append_all, update_all, merge_304_headers}

elim_if :
    (b : Bool) (h : List HeaderValue) → (elim b [ true ↦ [] | false ↦ h ]) ≡ (if b then [] else h)
elim_if true h = refl
elim_if false h = refl

-- The names that describe how the body is sent.
abbrev pub body_form_names : List HeaderName
body_form_names = codes "content-length" ∷ codes "content-encoding" ∷ codes "transfer-encoding" ∷ []

should_update_from_304_lem :
    (m : HeaderName) → should_update_from_304 m ≡ not (any (text_eq m) body_form_names)
unfolding should_update_from_304
should_update_from_304_lem m = ground arith

module _ {H : Type 0} (map : HeaderMap H) where
  open map use {get_all, keys, remove, append, get_all-remove, get_all-append, keys_lem}

  get_all-append_all :
      (m n : HeaderName) (vs : List HeaderValue) (h : H)
      → get_all m (append_all map n vs h) ≡ (if text_eq m n then get_all m h ++ vs else get_all m h)
  unfolding append_all
  get_all-append_all m n [] h = elim (Bool-cases (text_eq m n)) [
    | inl e ↦ rw (e, append-nil (get_all m h))
    | inr e ↦ rw e
  ]
  get_all-append_all m n (v ∷ vs) h = elim (Bool-cases (text_eq m n)) [
    | inl e ↦ rw (
      get_all-append_all m n vs (append n v h),
      get_all-append m n v h,
      e,
      append_assoc (get_all m h) (v ∷ []) vs,
    )
    | inr e ↦ rw (get_all-append_all m n vs (append n v h), get_all-append m n v h, e)
  ]

  -- One name of the 304.
  abbrev update_one : HeaderName → H → H → H
  update_one name validation headers =
      if should_update_from_304 name
      then append_all map name (get_all name validation) (remove name headers)
      else headers

  get_all-update_one :
      (m n : HeaderName) (validation headers : H)
      → get_all m (update_one n validation headers) ≡ (
          if text_eq m n && should_update_from_304 m
          then get_all m validation
          else get_all m headers)
  get_all-update_one m n validation headers = elim (Bool-cases (should_update_from_304 n)) [
    | inr u ↦ elim (Bool-cases (text_eq m n)) [
      | inl e ↦ rw (e, ap should_update_from_304 (text_eq_sound m n e), u)
      | inr e ↦ rw (u, e)
    ]
    | inl u ↦ elim (Bool-cases (text_eq m n)) [
      | inl e ↦ rw (
        u,
        get_all-append_all m n (get_all n validation) (remove n headers),
        get_all-remove m n headers,
        e,
        ap should_update_from_304 (text_eq_sound m n e),
        u,
        text_eq_sound m n e,
      )
      | inr e ↦ rw (
        u,
        get_all-append_all m n (get_all n validation) (remove n headers),
        get_all-remove m n headers,
        e,
      )
    ]
  ]

  if_or :
      (v h u : List HeaderValue) (a b c : Bool)
      → u ≡ (if a && c then v else h)
      → (if b && c then v else u) ≡ (if (a || b) && c then v else h)
  if_or v h u true true true e = refl
  if_or v h u true true false e = e
  if_or v h u true false true e = e
  if_or v h u true false false e = e
  if_or v h u false true true e = refl
  if_or v h u false true false e = e
  if_or v h u false false true e = e
  if_or v h u false false false e = e

  get_all-update_all :
      (m : HeaderName) (names : List HeaderName) (validation headers : H)
      → get_all m (update_all map names validation headers) ≡ (
          if any (text_eq m) names && should_update_from_304 m
          then get_all m validation
          else get_all m headers)
  unfolding update_all
  get_all-update_all m [] validation headers = refl
  get_all-update_all m (n ∷ names) validation headers =
      get_all-update_all m names validation (update_one n validation headers)
      ∙ if_or (get_all m validation) (get_all m headers) _ (text_eq m n) (any (text_eq m) names)
          (should_update_from_304 m) (get_all-update_one m n validation headers)

  merged :
      (m : HeaderName) (stored validation : H)
      → get_all m (merge_304_headers map stored validation) ≡ (
          if contains_key map m validation && should_update_from_304 m
          then get_all m validation
          else if text_eq m age_name
          then []
          else get_all m stored)
  unfolding merge_304_headers
  merged m stored validation =
      get_all-update_all m (keys validation) validation (remove age_name stored)
      ∙ ap₂ (λ b h. if b && should_update_from_304 m then get_all m validation else h)
          (keys_lem m validation)
          (get_all-remove m age_name stored ∙ elim_if (text_eq m age_name) (get_all m stored))

  -- The merged header of a stored response has, for each name, the values of the 304 where the 304 has
  -- the name and it is neither Content-Length nor Content-Encoding nor Transfer-Encoding; otherwise the
  -- stored values, except that the stored Age is gone.
  pub get_all-merge_304_headers :
      (m : HeaderName) (stored validation : H)
      → get_all m (merge_304_headers map stored validation) ≡ (
          if contains_key map m validation && not (any (text_eq m) body_form_names)
          then get_all m validation
          else if text_eq m (codes "age")
          then []
          else get_all m stored)
  get_all-merge_304_headers m stored validation =
      rw (← should_update_from_304_lem m) (merged m stored validation)
