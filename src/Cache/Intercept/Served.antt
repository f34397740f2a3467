-- ===== src/Cache/Intercept/Served.antt =====
-- crates/openwire-cache/src/lib.rs: what the interceptor answers without sending anything.
use openwire.Base.{
  ℕ, ◌≡◌, ◌≢◌, refl, ◌∙◌, ap, ◌⊎◌, inl, inr, Bool, true, false, List, [], ◌∷◌, ◌++◌, Option, none,
  some, if◌then◌else◌, if_either, ok, Bool-cases, arith,
}
use openwire.Cache.Directives.{RequestCachePolicy, request_cache_policy}
use openwire.Cache.Entry.{CachedResponse, Clock, is_servable_for, matches_request}
use openwire.Cache.Keys.{normalize_cache_uri}
use openwire.Cache.Intercept.{
  CacheChain, CacheRequest, Lookup, serve, unsatisfiable, forward, Outcome, prepared,
  scan_candidates, unless_only_if_cached, look_up, policy_of, reversed, reply_from,
  gateway_timeout_response, act, intercept,
}

-- A member of a list.
abbrev pub In : {A : Type 0} → A → List A → Type 0
In x [] = ⊥
In x (y ∷ ys) = (x ≡ y) ⊎ In x ys

In-append : {A : Type 0} (x : A) (ys zs : List A) → In x (ys ++ zs) → In x ys ⊎ In x zs
In-append x [] zs h = inr h
In-append x (y ∷ ys) zs (inl e) = inl (inl e)
In-append x (y ∷ ys) zs (inr h) = elim (In-append x ys zs h) [ inl p ↦ inl (inr p) | inr p ↦ inr p ]

In-reversed : {A : Type 0} (x : A) (ys : List A) → In x (reversed ys) → In x ys
In-reversed x [] h = h
In-reversed x (y ∷ ys) h = elim (In-append x (reversed ys) (y ∷ []) h) [
  | inl p ↦ inr (In-reversed x ys p)
  | inr (inl e) ↦ inl e
  | inr (inr p) ↦ absurd p
]

-- What a scan that serves has found at its head, or further on.
scan_step :
    {H : Type 0} (m s r : Bool) (c entry : CachedResponse H) (rest : Lookup H)
    → (if m then (if s then serve c else if r then forward (some c) else forward none) else rest)
      ≡ serve entry
    → ((m ≡ true) × (s ≡ true) × (entry ≡ c)) ⊎ (rest ≡ serve entry)
scan_step true true r c entry rest h = inl (refl, refl, ground arith)
scan_step true false true c entry rest h = absurd (ground arith)
scan_step true false false c entry rest h = absurd (ground arith)
scan_step false s r c entry rest h = inr h

scan_step_forward :
    {H : Type 0} (m s r : Bool) (c entry : CachedResponse H) (rest : Lookup H)
    → (if m then (if s then serve c else if r then forward (some c) else forward none) else rest)
      ≡ forward (some entry)
    → ((m ≡ true) × (entry ≡ c)) ⊎ (rest ≡ forward (some entry))
scan_step_forward true true r c entry rest h = absurd (ground arith)
scan_step_forward true false true c entry rest h = inl (refl, ground arith)
scan_step_forward true false false c entry rest h = absurd (ground arith)
scan_step_forward false s r c entry rest h = inr h

module _ {E U R S H : Type 0} (chain : CacheChain E U R S H) where
  open chain use {header_map, urls, calls}

  -- A stored candidate that the request may be served with.
  abbrev pub Servable : ℕ → CacheRequest U H → List (CachedResponse H) → CachedResponse H → Type 0
  Servable instant request candidates entry =
      In entry candidates
      × ((policy_of chain request).lookup ≡ true)
      × (matches_request header_map entry (policy_of chain request) request.headers ≡ true)
      × (is_servable_for instant entry (policy_of chain request) ≡ true)

  scan_candidates-serve :
      (instant : ℕ) (request : CacheRequest U H) (candidates : List (CachedResponse H))
      (entry : CachedResponse H)
      → scan_candidates chain instant (policy_of chain request) request.headers candidates
        ≡ serve entry
      → Servable instant request candidates entry
  unfolding scan_candidates
  scan_candidates-serve instant request [] entry h = absurd (ground arith)
  scan_candidates-serve instant request (c ∷ cs) entry h =
      elim (scan_step _ _ _ c entry
        (scan_candidates chain instant (policy_of chain request) request.headers cs) h) [
          | inl (m, s, e) ↦ (
            inl e,
            ground arith,
            ap (λ x. matches_request header_map x (policy_of chain request) request.headers) e ∙ m,
            ap (λ x. is_servable_for instant x (policy_of chain request)) e ∙ ground arith,
          )
          | inr p ↦
              let (i, l, m, s) = scan_candidates-serve instant request cs entry p in
              (inr i, l, m, s)
        ]

  scan_candidates-forward :
      (instant : ℕ) (policy : RequestCachePolicy) (headers : H)
      (candidates : List (CachedResponse H)) (entry : CachedResponse H)
      → scan_candidates chain instant policy headers candidates ≡ forward (some entry)
      → matches_request header_map entry policy headers ≡ true
  unfolding scan_candidates
  scan_candidates-forward instant policy headers [] entry h = absurd (ground arith)
  scan_candidates-forward instant policy headers (c ∷ cs) entry h =
      elim (scan_step_forward _ _ _ c entry (scan_candidates chain instant policy headers cs) h) [
        | inl (m, e) ↦ ap (λ x. matches_request header_map x policy headers) e ∙ m
        | inr p ↦ scan_candidates-forward instant policy headers cs entry p
      ]

  look_up_step :
      (policy : RequestCachePolicy) (b : Bool) (found : Lookup H) (entry : CachedResponse H)
      → (if b then unless_only_if_cached chain policy found else forward none)
        ≡ forward (some entry)
      → found ≡ forward (some entry)
  look_up_step policy false found entry h = absurd (ground arith)
  look_up_step policy true (serve e) entry h = h
  look_up_step policy true unsatisfiable entry h = h
  look_up_step policy true (forward e) entry h = elim (Bool-cases policy.only_if_cached) [
    | inl c ↦ absurd (ground arith)
    | inr c ↦ ground arith
  ]

  -- A candidate that is to be validated matches the request.
  pub look_up-forward :
      (instant : ℕ) (request : CacheRequest U H) (store : S) (entry : CachedResponse H)
      → look_up chain instant request store ≡ forward (some entry)
      → matches_request header_map entry (policy_of chain request) request.headers ≡ true
  unfolding look_up
  look_up-forward instant request store entry h =
      let candidates =
        reversed (calls.get_candidates (normalize_cache_uri urls request.uri) store) in
      scan_candidates-forward instant (policy_of chain request) request.headers candidates entry
        (look_up_step (policy_of chain request) (policy_of chain request).is_cacheable _ entry h)

  unless_only_if_cached-serve :
      (policy : RequestCachePolicy) (found : Lookup H) (entry : CachedResponse H)
      → unless_only_if_cached chain policy found ≡ serve entry
      → found ≡ serve entry
  unless_only_if_cached-serve policy (serve e) entry h = h
  unless_only_if_cached-serve policy unsatisfiable entry h = h
  unless_only_if_cached-serve policy (forward e) entry h = elim (Bool-cases policy.only_if_cached) [
    | inl c ↦ absurd (ground arith)
    | inr c ↦ absurd (ground arith)
  ]

  scan_candidates_decides :
      (instant : ℕ) (policy : RequestCachePolicy) (headers : H)
      (candidates : List (CachedResponse H))
      → scan_candidates chain instant policy headers candidates ≢ unsatisfiable
  unfolding scan_candidates
  scan_candidates_decides instant policy headers [] h = ground arith
  scan_candidates_decides instant policy headers (c ∷ cs) h =
      ground (arith, scan_candidates_decides instant policy headers cs)

  -- What the lookup has found, by its result.
  abbrev LookedUp : ℕ → CacheRequest U H → S → Lookup H → Type 0
  LookedUp instant request store (serve entry) =
      Servable instant request (calls.get_candidates (normalize_cache_uri urls request.uri) store)
        entry
  LookedUp instant request store unsatisfiable = (policy_of chain request).only_if_cached ≡ true
  LookedUp instant request store (forward entry) = (policy_of chain request).only_if_cached ≡ false

  unless_only_if_cached-LookedUp :
      (instant : ℕ) (request : CacheRequest U H) (store : S) (found : Lookup H)
      → found ≢ unsatisfiable
      → ((entry : CachedResponse H)
          → found ≡ serve entry
          → LookedUp instant request store (serve entry))
      → LookedUp instant request store (unless_only_if_cached chain (policy_of chain request) found)
  unless_only_if_cached-LookedUp instant request store (serve entry) n f = f entry refl
  unless_only_if_cached-LookedUp instant request store unsatisfiable n f = absurd (n refl)
  unless_only_if_cached-LookedUp instant request store (forward entry) n f =
      elim (Bool-cases (policy_of chain request).only_if_cached) [ inl c ↦ rw c c | inr c ↦ rw c c ]

  uncacheable :
      (request : CacheRequest U H)
      → (policy_of chain request).is_cacheable ≡ false
      → (policy_of chain request).only_if_cached ≡ false
  unfolding request_cache_policy
  uncacheable request h = ground arith

  look_up-LookedUp :
      (instant : ℕ) (request : CacheRequest U H) (store : S)
      → LookedUp instant request store (look_up chain instant request store)
  unfolding look_up
  look_up-LookedUp instant request store =
      let candidates = calls.get_candidates (normalize_cache_uri urls request.uri) store in
      if_either (LookedUp instant request store) (policy_of chain request).is_cacheable _ _
        (λ c.
          unless_only_if_cached-LookedUp instant request store _
            (scan_candidates_decides instant (policy_of chain request) request.headers
              (reversed candidates))
            (λ entry h.
              let (i, l, m, s) =
                scan_candidates-serve instant request (reversed candidates) entry h in
              (In-reversed entry candidates i, l, m, s)))
        (uncacheable request)

  -- Each of the three things that a call does.
  abbrev pub ServesStored : ℕ → CacheRequest U H → S → Outcome S U E H → Type 0
  ServesStored instant request store outcome =
      (entry : CachedResponse H) × Servable instant request
        (calls.get_candidates (normalize_cache_uri urls request.uri) store) entry
      × (outcome
          ≡ record { result = ok (reply_from chain instant entry); store = store; sent = none })

  abbrev pub GivesUp : CacheRequest U H → S → Outcome S U E H → Type 0
  GivesUp request store outcome =
      ((policy_of chain request).only_if_cached ≡ true)
      × (outcome
          ≡ record { result = ok (gateway_timeout_response chain); store = store; sent = none })

  abbrev pub Sends : CacheRequest U H → Outcome S U E H → Type 0
  Sends request outcome =
      ((policy_of chain request).only_if_cached ≡ false)
      × ((entry : Option (CachedResponse H)) × (outcome.sent ≡ some (prepared chain request entry)))

  intercept_of :
      (before after : Clock) (request : CacheRequest U H) (store : S) (found : Lookup H)
      → look_up chain before.instant request store ≡ found
      → LookedUp before.instant request store found
      → ServesStored before.instant request store (intercept chain before after request store)
        ⊎ (GivesUp request store (intercept chain before after request store)
            ⊎ Sends request (intercept chain before after request store))
  unfolding intercept act
  intercept_of before after request store (serve entry) e f =
      inl (entry, f, ap (act chain before after request store) e)
  intercept_of before after request store unsatisfiable e f =
      inr (inl (f, ap (act chain before after request store) e))
  intercept_of before after request store (forward entry) e f =
      inr (inr (f, (entry, ap (λ x. (act chain before after request store x).sent) e)))

  -- A call either answers with a stored response, which stands under the request's key, matches the
  -- request and may be served at that instant, and sends nothing and leaves the store alone; or, only if
  -- the request is to be answered from the cache alone, answers 504, likewise; or sends the request, with
  -- or without validators, which it does not for a request to be answered from the cache alone.
  pub intercept_lem :
      (before after : Clock) (request : CacheRequest U H) (store : S)
      → ServesStored before.instant request store (intercept chain before after request store)
        ⊎ (GivesUp request store (intercept chain before after request store)
            ⊎ Sends request (intercept chain before after request store))
  intercept_lem before after request store =
      intercept_of before after request store _ refl (look_up-LookedUp before.instant request store)
