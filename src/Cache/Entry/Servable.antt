-- ===== src/Cache/Entry/Servable.antt =====
-- crates/openwire-cache/src/lib.rs: when a stored response may be served without asking the server.
use openwire.Base.{
  ℕ, ◌+◌, ◌-◌, ◌≤◌, ◌<◌, ◌≡◌, refl, ap, ◌⊎◌, inl, inr, ◌↔◌, Bool, true, false, Option, none, some,
  min, if◌then◌else◌, Option-cases, arith,
}
use openwire.Cache.Http.{duration_max, or_else}
use openwire.Cache.Directives.{MaxStale, any_stale, limit, RequestCachePolicy}
use openwire.Cache.Entry.{
  CachedResponse, current_age, effective_freshness_lifetime, is_fresh_for, is_stale_acceptable_for,
  is_servable_for,
}

-- Fresh, with the margin the request asks for.
abbrev pub Fresh : ℕ → ℕ → Option ℕ → Type 0
Fresh age lifetime none = age < lifetime
Fresh age lifetime (some margin) = (age < lifetime) × (age + margin ≤ min lifetime duration_max)

-- Stale by no more than the request accepts; a request that asks for a margin accepts none.
abbrev pub AcceptablyStale : ℕ → ℕ → Option ℕ → Option MaxStale → Type 0
AcceptablyStale age lifetime (some margin) max_stale = ⊥
AcceptablyStale age lifetime none none = ⊥
AcceptablyStale age lifetime none (some any_stale) = Unit
AcceptablyStale age lifetime none (some (limit n)) = age ≤ lifetime + n

fresh_lem :
    (age lifetime : ℕ) (policy : RequestCachePolicy) (min_fresh : Option ℕ)
    → policy.min_fresh ≡ min_fresh
    → (is_fresh_for age lifetime policy ≡ true) ↔ Fresh age lifetime min_fresh
unfolding is_fresh_for
fresh_lem age lifetime policy none e = (λ h. ground arith, λ h. ground arith)
fresh_lem age lifetime policy (some m) e = (λ h. (ground arith, ground arith), λ h. ground arith)

serve_if :
    {F S : Type 0} (v f s : Bool)
    → ((f ≡ true) ↔ F)
    → ((s ≡ true) ↔ S)
    → ((if v then false else if f then true else s) ≡ true) ↔ ((v ≡ false) × (F ⊎ S))
serve_if true f s p q = (λ h. absurd (ground arith), λ h. absurd (ground arith))
serve_if false true s p q = (λ h. (refl, inl (p.0 refl)), λ h. refl)
serve_if false false s p q = (
  λ h. (refl, inr (q.0 h)),
  λ h. elim h.1 [ inl x ↦ absurd (ground (arith, p.1 x)) | inr y ↦ q.1 y ],
)

module _ {H : Type 0} where
  -- The age when stored and the time since.
  abbrev pub age_at : ℕ → CachedResponse H → ℕ
  age_at instant entry = min (entry.initial_age + (instant - entry.stored_at)) duration_max

  -- The response's own lifetime, or the request's max-age where that is shorter.
  abbrev pub lifetime_for : CachedResponse H → RequestCachePolicy → ℕ
  lifetime_for entry policy =
      min entry.freshness_lifetime (or_else policy.max_age entry.freshness_lifetime)

  stale_lem :
      (entry : CachedResponse H) (age lifetime : ℕ) (policy : RequestCachePolicy)
      (min_fresh : Option ℕ) (max_stale : Option MaxStale)
      → policy.min_fresh ≡ min_fresh
      → policy.max_stale ≡ max_stale
      → (is_stale_acceptable_for entry age lifetime policy ≡ true)
        ↔ ((entry.must_revalidate ≡ false) × AcceptablyStale age lifetime min_fresh max_stale)
  unfolding is_stale_acceptable_for
  stale_lem entry age lifetime policy (some m) max_stale e f =
      (λ h. absurd (ground arith), λ h. absurd h.1)
  stale_lem entry age lifetime policy none none e f = (λ h. absurd (ground arith), λ h. absurd h.1)
  stale_lem entry age lifetime policy none (some any_stale) e f =
      (λ h. (ground arith, tt), λ h. ground arith)
  stale_lem entry age lifetime policy none (some (limit n)) e f =
      (λ h. (ground arith, ground arith), λ h. ground arith)

  lifetime_lem :
      (entry : CachedResponse H) (policy : RequestCachePolicy)
      → effective_freshness_lifetime entry policy ≡ lifetime_for entry policy
  unfolding effective_freshness_lifetime
  lifetime_lem entry policy = elim (Option-cases policy.max_age) [
    | inl e ↦ ground arith
    | inr e ↦ ground arith
  ]

  servable_split :
      (instant : ℕ) (entry : CachedResponse H) (policy : RequestCachePolicy)
      → is_servable_for instant entry policy ≡ (
          if entry.must_validate
          then false
          else if is_fresh_for (age_at instant entry) (lifetime_for entry policy) policy
          then true
          else is_stale_acceptable_for entry
              (age_at instant entry)
              (lifetime_for entry policy)
              policy)
  unfolding is_servable_for current_age
  servable_split instant entry policy =
      ap
        (λ lifetime.
          if entry.must_validate
          then false
          else if is_fresh_for (age_at instant entry) lifetime policy
          then true
          else is_stale_acceptable_for entry (age_at instant entry) lifetime policy)
        (lifetime_lem entry policy)

  -- A stored response may be served without asking the server exactly if it need not always be
  -- validated and either its age is below its lifetime, with at least the margin of min-fresh left, or
  -- it need not be revalidated once stale, the request asks for no margin, and the request accepts
  -- stale responses, without a limit or to a limit that the age does not pass.
  pub is_servable_for_lem :
      (instant : ℕ) (entry : CachedResponse H) (policy : RequestCachePolicy)
      → (is_servable_for instant entry policy ≡ true) ↔ (
          (entry.must_validate ≡ false)
          × (Fresh (age_at instant entry) (lifetime_for entry policy) policy.min_fresh
              ⊎ ((entry.must_revalidate ≡ false)
                  × AcceptablyStale
                      (age_at instant entry)
                      (lifetime_for entry policy)
                      policy.min_fresh
                      policy.max_stale)))
  is_servable_for_lem instant entry policy = rw (servable_split instant entry policy) (
      serve_if entry.must_validate _ _
        (fresh_lem (age_at instant entry) (lifetime_for entry policy) policy policy.min_fresh refl)
        (stale_lem entry (age_at instant entry) (lifetime_for entry policy) policy policy.min_fresh
          policy.max_stale refl refl))
