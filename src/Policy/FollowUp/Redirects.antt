-- ===== src/Policy/FollowUp/Redirects.antt =====
-- What the request that follows a redirect carries.
use openwire.Base.{
  Bool-cases, ◌≢◌, ◌⊎◌, ℕ, ◌≡◌, inl, inr, refl, ◌∙◌, Bool, true, false, List, [], ◌∷◌, Option, none,
  some, All, arith, Option-cases, ok, Result-cases,
}
use openwire.Text.{codes, text_eq, text_eq_sound}
use openwire.Policy.Redirect.{Uri, same_origin}
use openwire.Policy.FollowUp.Origins.{SameOrigin, same_origin-SameOrigin}
use openwire.Policy.Request.{
  HeaderName, HeaderMap, RequestBody, absent, head_method, PolicyTraceContext, Request,
  RequestSnapshot, get_method, sensitive_headers, body_headers, redirect_body, redirect_method,
  switches_to_get, preserves_body, remove_all, strip_sensitive_cross_origin_headers,
  redirect_headers, rebuild, into_redirect_request,
}

-- A status that rewrites the method does not keep the body.
switches-preserves :
    (status : ℕ) (method : List ℕ)
    → switches_to_get status method ≡ true
    → preserves_body status ≡ false
unfolding switches_to_get
switches-preserves status method s = ground arith

method-get :
    (status : ℕ) (method : List ℕ)
    → switches_to_get status method ≡ true
    → redirect_method status method ≡ get_method
unfolding redirect_method
method-get status method s = rw (switches-preserves status method s, s) refl

body-get :
    (status : ℕ) (method : List ℕ) (body : Option RequestBody)
    → switches_to_get status method ≡ true
    → redirect_body status method body ≡ some absent
unfolding redirect_body
body-get status method body s = rw (switches-preserves status method s, s) refl

text_eq-false : (xs ys : List ℕ) → xs ≢ ys → text_eq xs ys ≡ false
text_eq-false xs ys n = elim (Bool-cases (text_eq xs ys)) [
  | inl e ↦ absurd (n (text_eq_sound xs ys e))
  | inr e ↦ e
]

switches_to_get_if :
    (status : ℕ) (method : List ℕ)
    → (status ≡ 301) ⊎ ((status ≡ 302) ⊎ (status ≡ 303))
    → method ≢ codes "GET"
    → method ≢ codes "HEAD"
    → switches_to_get status method ≡ true
unfolding switches_to_get
switches_to_get_if status method code get head =
    let g : text_eq method get_method ≡ false = text_eq-false method get_method get in
    let h : text_eq method head_method ≡ false = text_eq-false method head_method head in
    rw (g, h) (ground arith)

module _ {H : Type 0} (map : HeaderMap H) where
  open map use {contains_key, remove, contains_key-remove, contains_key-remove_other}

  remove_all-absent :
      (names : List HeaderName) (m : HeaderName) (h : H)
      → contains_key m h ≡ false
      → contains_key m (remove_all map names h) ≡ false
  unfolding remove_all
  remove_all-absent [] m h e = e
  remove_all-absent (n ∷ names) m h e =
      remove_all-absent names m (remove n h) (contains_key-remove_other m n h e)

  remove_all-removed :
      (names : List HeaderName) (h : H)
      → All (λ n. contains_key n (remove_all map names h) ≡ false) names
  unfolding remove_all
  remove_all-removed [] h = tt
  remove_all-removed (n ∷ names) h = (
    remove_all-absent names n (remove n h) (contains_key-remove n h),
    remove_all-removed names (remove n h),
  )

  remove_all-All :
      (names ms : List HeaderName) (h : H)
      → All (λ n. contains_key n h ≡ false) ms
      → All (λ n. contains_key n (remove_all map names h) ≡ false) ms
  remove_all-All names [] h a = tt
  remove_all-All names (m ∷ ms) h a =
      (remove_all-absent names m h a.0, remove_all-All names ms h a.1)

  redirect_headers-host :
      (same switch : Bool) (h : H)
      → contains_key HeaderName.host (redirect_headers map same switch h) ≡ false
  unfolding redirect_headers strip_sensitive_cross_origin_headers
  redirect_headers-host true true h = remove_all-absent body_headers _ _ (contains_key-remove _ h)
  redirect_headers-host true false h = contains_key-remove _ h
  redirect_headers-host false true h =
      remove_all-absent body_headers _ _
        (remove_all-absent sensitive_headers _ _ (contains_key-remove _ h))
  redirect_headers-host false false h =
      remove_all-absent sensitive_headers _ _ (contains_key-remove _ h)

  redirect_headers-cross :
      (switch : Bool) (h : H)
      → All (λ n. contains_key n (redirect_headers map false switch h) ≡ false) sensitive_headers
  unfolding redirect_headers strip_sensitive_cross_origin_headers
  redirect_headers-cross true h =
      remove_all-All body_headers sensitive_headers _
        (remove_all-removed sensitive_headers (remove HeaderName.host h))
  redirect_headers-cross false h = remove_all-removed sensitive_headers (remove HeaderName.host h)

  redirect_headers-get :
      (same : Bool) (h : H)
      → All (λ n. contains_key n (redirect_headers map same true h) ≡ false) body_headers
  unfolding redirect_headers
  redirect_headers-get same h = remove_all-removed body_headers _

  headers-get :
      (same switch : Bool) (h k : H)
      → k ≡ redirect_headers map same switch h
      → switch ≡ true
      → All (λ n. contains_key n k ≡ false) body_headers
  headers-get same switch h k g s = rw (g, s) (redirect_headers-get same h)

  -- What the rebuilt request takes from the snapshot.
  rebuilt :
      (snapshot : RequestSnapshot H) (status : ℕ) (next_uri : Uri) (trace : PolicyTraceContext)
      (proxy : Option ℕ) (same : Bool) (o : Option RequestBody) (r : Request H)
      → rebuild map snapshot status next_uri trace proxy same o ≡ ok (some r)
      → (h : H) × (r.headers ≡ redirect_headers map same (switches_to_get status snapshot.method) h)
        × (r.method ≡ redirect_method status snapshot.method)
        × (o ≡ some r.body)
        × (r.uri ≡ next_uri)
  unfolding rebuild
  rebuilt snapshot status next_uri trace proxy same none r e = absurd (ground arith)
  rebuilt snapshot status next_uri trace proxy same (some body) r e =
      elim (Option-cases snapshot.headers) [
        | inl f ↦ absurd (ground arith)
        | inr (h, f) ↦ elim (Option-cases snapshot.extensions) [
          | inl g ↦ absurd (ground arith)
          | inr (x, g) ↦ (h, ground arith, ground arith, ground arith, ground arith)
        ]
      ]

  -- The names that a redirect takes out of the header, written out.
  abbrev pub Stripped : H → Type 0
  Stripped h =
      (contains_key HeaderName.authorization h ≡ false)
      × (contains_key HeaderName.cookie h ≡ false)
      × (contains_key HeaderName.x_api_key h ≡ false)
      × (contains_key HeaderName.x_auth_token h ≡ false)
      × (contains_key HeaderName.x_csrf_token h ≡ false)
      × (contains_key HeaderName.x_access_token h ≡ false)
      × (contains_key HeaderName.x_session_token h ≡ false)
      × (contains_key HeaderName.host h ≡ false)

  abbrev pub Bodiless : H → Type 0
  Bodiless h =
      (contains_key HeaderName.content_length h ≡ false)
      × (contains_key HeaderName.content_type h ≡ false)
      × (contains_key HeaderName.content_encoding h ≡ false)
      × (contains_key HeaderName.transfer_encoding h ≡ false)
      × (contains_key HeaderName.expect h ≡ false)

  cross_headers : (switch : Bool) (h k : H) → k ≡ redirect_headers map false switch h → Stripped k
  cross_headers switch h k e =
      let p = redirect_headers-cross switch h in
      rw e (
        p.0,
        p.1.0,
        p.1.1.0,
        p.1.1.1.0,
        p.1.1.1.1.0,
        p.1.1.1.1.1.0,
        p.1.1.1.1.1.1.0,
        redirect_headers-host false switch h,
      )

  get_headers :
      (same switch : Bool) (h k : H)
      → k ≡ redirect_headers map same switch h
      → switch ≡ true
      → Bodiless k
  get_headers same switch h k g s =
      let p = headers-get same switch h k g s in (p.0, p.1.0, p.1.1.0, p.1.1.1.0, p.1.1.1.1.0)

  -- The request that follows a redirect to a URI of another scheme, of another host, letter case
  -- aside, or of another port, a missing one being the scheme's, carries none of Authorization, Cookie,
  -- X-Api-Key, X-Auth-Token, X-Csrf-Token, X-Access-Token, X-Session-Token and Host.
  pub into_redirect_request-cross :
      (snapshot : RequestSnapshot H) (status : ℕ) (next_uri : Uri) (trace : PolicyTraceContext)
      (proxy : Option ℕ) (r : Request H)
      → into_redirect_request map snapshot status next_uri trace proxy ≡ ok (some r)
      → ¬ SameOrigin snapshot.uri next_uri
      → Stripped r.headers
  unfolding into_redirect_request
  into_redirect_request-cross snapshot status next_uri trace proxy r e n =
      elim (Result-cases (same_origin snapshot.uri next_uri)) [
        | inr (x, f) ↦ absurd (ground arith)
        | inl (true, f) ↦ absurd (n (same_origin-SameOrigin snapshot.uri next_uri f))
        | inl (false, f) ↦
            let (h, g, m, b, u) =
              rebuilt snapshot status next_uri trace proxy false
                (redirect_body status snapshot.method snapshot.body) r (ground arith) in
            cross_headers (switches_to_get status snapshot.method) h r.headers g
      ]

  -- A redirect with status 301, 302 or 303 of a request that is neither a GET nor a HEAD sends a GET
  -- without a body, and without Content-Length, Content-Type, Content-Encoding, Transfer-Encoding and
  -- Expect.
  pub into_redirect_request-get :
      (snapshot : RequestSnapshot H) (status : ℕ) (next_uri : Uri) (trace : PolicyTraceContext)
      (proxy : Option ℕ) (r : Request H)
      → into_redirect_request map snapshot status next_uri trace proxy ≡ ok (some r)
      → (status ≡ 301) ⊎ ((status ≡ 302) ⊎ (status ≡ 303))
      → snapshot.method ≢ codes "GET"
      → snapshot.method ≢ codes "HEAD"
      → (r.method ≡ codes "GET") × (r.body ≡ absent) × Bodiless r.headers
  unfolding into_redirect_request
  into_redirect_request-get snapshot status next_uri trace proxy r e code get head =
      let s = switches_to_get_if status snapshot.method code get head in
      elim (Result-cases (same_origin snapshot.uri next_uri)) [
        | inr (x, f) ↦ absurd (ground arith)
        | inl (same, f) ↦
            let (h, g, m, b, u) =
              rebuilt snapshot status next_uri trace proxy same
                (redirect_body status snapshot.method snapshot.body) r (ground arith) in
            (
              m ∙ method-get status snapshot.method s,
              ground (arith, body-get status snapshot.method snapshot.body s),
              get_headers same (switches_to_get status snapshot.method) h r.headers g s,
            )
      ]
