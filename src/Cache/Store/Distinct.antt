-- ===== src/Cache/Store/Distinct.antt =====
-- crates/openwire-cache/src/lib.rs: no two slots of the store have one key, and no two candidates of a
-- slot are the same variant.
use openwire.Base.{
  ℕ, zero, suc, ◌≡◌, refl, Bool, true, false, not, ◌&&◌, List, [], ◌∷◌, any, Bool-cases, inl, inr,
  arith,
}
use openwire.Text.{text_eq, text_eq_sound, text_eq_self}
use openwire.Cache.Vary.{vary_eq, vary_eq_sound, vary_eq_self}
use openwire.Cache.Entry.{CachedResponse, same_variant_as}
use openwire.Cache.Store.{
  Slot, remove_at, remove_key, put_variant, put_entry, drop_variant, drop_candidate, drop_excess,
  drop_bytes, enforce_limits, set_candidates,
}

pub text_eq_flip : (x y : List ℕ) → text_eq x y ≡ false → text_eq y x ≡ false
text_eq_flip x y h = elim (Bool-cases (text_eq y x)) [
  | inr e ↦ e
  | inl e ↦ absurd (ground (arith, text_eq_self x, text_eq_sound y x e))
]

module _ {H : Type 0} where
  same_variant_as_sound : (a b : CachedResponse H) → same_variant_as a b ≡ true → a.vary ≡ b.vary
  unfolding same_variant_as
  same_variant_as_sound a b h = vary_eq_sound a.vary b.vary h

  same_variant_as_flip :
      (a b : CachedResponse H) → same_variant_as a b ≡ false → same_variant_as b a ≡ false
  unfolding same_variant_as
  same_variant_as_flip a b h = elim (Bool-cases (vary_eq b.vary a.vary)) [
    | inr e ↦ e
    | inl e ↦ absurd (ground (arith, vary_eq_self a.vary, vary_eq_sound b.vary a.vary e))
  ]

  unfoldable pub variant_in : CachedResponse H → List (CachedResponse H) → Bool
  variant_in value cs = any (λ c. same_variant_as c value) cs

  unfoldable pub distinct_variants : List (CachedResponse H) → Bool
  unfolding variant_in
  distinct_variants [] = true
  distinct_variants (c ∷ cs) = not (variant_in c cs) && distinct_variants cs

  unfoldable pub key_in : List ℕ → List (Slot H) → Bool
  unfolding text_eq
  key_in key ss = any (λ (s : Slot H). text_eq s.key key) ss

  abbrev has_candidates : List (CachedResponse H) → Bool
  has_candidates [] = false
  has_candidates (c ∷ cs) = true

  -- A store without a key twice, an empty slot, or a variant twice.
  unfoldable pub distinct_slots : List (Slot H) → Bool
  unfolding key_in distinct_variants
  distinct_slots [] = true
  distinct_slots (s ∷ ss) =
      not (key_in s.key ss)
      && ((has_candidates s.candidates && distinct_variants s.candidates) && distinct_slots ss)

  pub key_in-remove_at :
      (key : List ℕ) (n : ℕ) (ss : List (Slot H))
      → key_in key ss ≡ false
      → key_in key (remove_at n ss) ≡ false
  unfolding key_in remove_at
  key_in-remove_at key n [] h = h
  key_in-remove_at key zero (s ∷ ss) h = ground arith
  key_in-remove_at key (suc n) (s ∷ []) h = refl
  key_in-remove_at key (suc n) (s ∷ t ∷ ss) h = ground (arith, key_in-remove_at key n (t ∷ ss))

  pub distinct_slots-remove_at :
      (n : ℕ) (ss : List (Slot H))
      → distinct_slots ss ≡ true
      → distinct_slots (remove_at n ss) ≡ true
  unfolding distinct_slots remove_at
  distinct_slots-remove_at n [] h = h
  distinct_slots-remove_at zero (s ∷ ss) h = ground arith
  distinct_slots-remove_at (suc n) (s ∷ []) h = refl
  distinct_slots-remove_at (suc n) (s ∷ t ∷ ss) h =
      ground (arith, distinct_slots-remove_at n (t ∷ ss), key_in-remove_at s.key n (t ∷ ss))

  key_in-remove_key :
      (k key : List ℕ) (ss : List (Slot H))
      → key_in k ss ≡ false
      → key_in k (remove_key key ss) ≡ false
  unfolding key_in remove_key
  key_in-remove_key k key [] h = h
  key_in-remove_key k key (s ∷ ss) h = ground (arith, key_in-remove_key k key ss)

  pub distinct_slots-remove_key :
      (key : List ℕ) (ss : List (Slot H))
      → distinct_slots ss ≡ true
      → distinct_slots (remove_key key ss) ≡ true
  unfolding distinct_slots remove_key
  distinct_slots-remove_key key [] h = h
  distinct_slots-remove_key key (s ∷ ss) h =
      ground (arith, distinct_slots-remove_key key ss, key_in-remove_key s.key key ss)

  variant_in-put_variant :
      (w v : CachedResponse H) (cs : List (CachedResponse H))
      → same_variant_as v w ≡ false
      → variant_in w cs ≡ false
      → variant_in w (put_variant v cs) ≡ false
  unfolding variant_in put_variant
  variant_in-put_variant w v [] e h = ground arith
  variant_in-put_variant w v (c ∷ cs) e h = ground (arith, variant_in-put_variant w v cs e)

  variant_in_same :
      (v c : CachedResponse H) (cs : List (CachedResponse H))
      → c.vary ≡ v.vary
      → variant_in c cs ≡ false
      → variant_in v cs ≡ false
  unfolding variant_in same_variant_as
  variant_in_same v c [] e h = refl
  variant_in_same v c (d ∷ cs) e h = ground (arith, variant_in_same v c cs e)

  distinct_variants-put_variant :
      (v : CachedResponse H) (cs : List (CachedResponse H))
      → distinct_variants cs ≡ true
      → distinct_variants (put_variant v cs) ≡ true
  unfolding distinct_variants variant_in put_variant
  distinct_variants-put_variant v [] h = refl
  distinct_variants-put_variant v (c ∷ cs) h = elim (Bool-cases (same_variant_as c v)) [
    | inl e ↦ ground (arith, variant_in_same v c cs (same_variant_as_sound c v e))
    | inr e ↦ ground (
      arith,
      distinct_variants-put_variant v cs,
      variant_in-put_variant c v cs (same_variant_as_flip c v e),
    )
  ]

  has_candidates-put_variant :
      (v : CachedResponse H) (cs : List (CachedResponse H))
      → has_candidates (put_variant v cs) ≡ true
  unfolding put_variant
  has_candidates-put_variant v [] = refl
  has_candidates-put_variant v (c ∷ cs) = ground arith

  pub key_in-put_entry :
      (k key : List ℕ) (v : CachedResponse H) (ss : List (Slot H))
      → text_eq key k ≡ false
      → key_in k ss ≡ false
      → key_in k (put_entry key v ss) ≡ false
  unfolding key_in put_entry
  key_in-put_entry k key v [] e h = ground arith
  key_in-put_entry k key v (s ∷ ss) e h = ground (arith, key_in-put_entry k key v ss e)

  pub distinct_slots-put_entry :
      (key : List ℕ) (v : CachedResponse H) (ss : List (Slot H))
      → distinct_slots ss ≡ true
      → distinct_slots (put_entry key v ss) ≡ true
  unfolding distinct_slots put_entry key_in
  distinct_slots-put_entry key v [] h = ground (arith, distinct_variants-put_variant v [])
  distinct_slots-put_entry key v (s ∷ ss) h = elim (Bool-cases (text_eq s.key key)) [
    | inl e ↦ ground (
      arith,
      has_candidates-put_variant v s.candidates,
      distinct_variants-put_variant v s.candidates,
    )
    | inr e ↦ ground (
      arith,
      distinct_slots-put_entry key v ss,
      key_in-put_entry s.key key v ss (text_eq_flip s.key key e),
    )
  ]

  variant_in-drop_variant :
      (w v : CachedResponse H) (cs : List (CachedResponse H))
      → variant_in w cs ≡ false
      → variant_in w (drop_variant v cs) ≡ false
  unfolding variant_in drop_variant
  variant_in-drop_variant w v [] h = h
  variant_in-drop_variant w v (c ∷ cs) h = ground (arith, variant_in-drop_variant w v cs)

  distinct_variants-drop_variant :
      (v : CachedResponse H) (cs : List (CachedResponse H))
      → distinct_variants cs ≡ true
      → distinct_variants (drop_variant v cs) ≡ true
  unfolding distinct_variants drop_variant
  distinct_variants-drop_variant v [] h = h
  distinct_variants-drop_variant v (c ∷ cs) h =
      ground (arith, distinct_variants-drop_variant v cs, variant_in-drop_variant c v cs)

  distinct_slots-set_candidates :
      (s : Slot H) (cs : List (CachedResponse H)) (ss : List (Slot H))
      → distinct_variants cs ≡ true
      → key_in s.key ss ≡ false
      → distinct_slots ss ≡ true
      → distinct_slots (set_candidates s cs ss) ≡ true
  unfolding distinct_slots
  distinct_slots-set_candidates s [] ss d k h = h
  distinct_slots-set_candidates s (c ∷ cs) ss d k h = ground arith

  key_in-set_candidates :
      (k : List ℕ) (s : Slot H) (cs : List (CachedResponse H)) (ss : List (Slot H))
      → key_in k (s ∷ ss) ≡ false
      → key_in k (set_candidates s cs ss) ≡ false
  unfolding key_in
  key_in-set_candidates k s [] ss h = ground arith
  key_in-set_candidates k s (c ∷ cs) ss h = h

  key_in-drop_candidate :
      (k key : List ℕ) (v : CachedResponse H) (ss : List (Slot H))
      → key_in k ss ≡ false
      → key_in k (drop_candidate key v ss) ≡ false
  unfolding key_in drop_candidate
  key_in-drop_candidate k key v [] h = h
  key_in-drop_candidate k key v (s ∷ ss) h = elim (Bool-cases (text_eq s.key key)) [
    | inl e ↦ rw (e, key_in-set_candidates k s (drop_variant v s.candidates) ss h)
    | inr e ↦ ground (arith, key_in-drop_candidate k key v ss)
  ]

  pub distinct_slots-drop_candidate :
      (key : List ℕ) (v : CachedResponse H) (ss : List (Slot H))
      → distinct_slots ss ≡ true
      → distinct_slots (drop_candidate key v ss) ≡ true
  unfolding distinct_slots drop_candidate
  distinct_slots-drop_candidate key v [] h = h
  distinct_slots-drop_candidate key v (s ∷ ss) h = elim (Bool-cases (text_eq s.key key)) [
    | inl e ↦ rw (
      e,
      distinct_slots-set_candidates s (drop_variant v s.candidates) ss
          (distinct_variants-drop_variant v s.candidates (ground arith)) (ground arith)
          (ground arith),
    )
    | inr e ↦
        ground (arith, distinct_slots-drop_candidate key v ss, key_in-drop_candidate s.key key v ss)
  ]

module _ {H : Type 0} (first : List (Slot H) → ℕ) where
  distinct_slots-drop_excess :
      (fuel n : ℕ) (ss : List (Slot H))
      → distinct_slots ss ≡ true
      → distinct_slots (drop_excess first fuel n ss) ≡ true
  unfolding drop_excess
  distinct_slots-drop_excess zero n ss h = h
  distinct_slots-drop_excess (suc fuel) n ss h = ground (
    arith,
    distinct_slots-drop_excess fuel n (remove_at (first ss) ss),
    distinct_slots-remove_at (first ss) ss,
  )

  distinct_slots-drop_bytes :
      (fuel n : ℕ) (ss : List (Slot H))
      → distinct_slots ss ≡ true
      → distinct_slots (drop_bytes first fuel n ss) ≡ true
  unfolding drop_bytes
  distinct_slots-drop_bytes zero n ss h = h
  distinct_slots-drop_bytes (suc fuel) n ss h = ground (
    arith,
    distinct_slots-drop_bytes fuel n (remove_at (first ss) ss),
    distinct_slots-remove_at (first ss) ss,
  )

  pub distinct_slots-enforce_limits :
      (m n : ℕ) (ss : List (Slot H))
      → distinct_slots ss ≡ true
      → distinct_slots (enforce_limits first m n ss) ≡ true
  unfolding enforce_limits
  distinct_slots-enforce_limits m n ss h =
      distinct_slots-drop_bytes _ n (drop_excess first _ m ss) (distinct_slots-drop_excess _ m ss h)
