-- ===== src/Cache/Store/Lookup.antt =====
-- crates/openwire-cache/src/lib.rs: what a lookup finds after a response was stored.
use openwire.Base.{
  ◌++◌, ◌≢◌, subst, sym, All, ℕ, zero, suc, ◌≤◌, ◌≡◌, refl, ◌∙◌, ap, ◌⊎◌, Bool, true, false, ◌&&◌,
  List, [], ◌∷◌, length, leb, ltb, if◌then◌else◌, Bool-cases, inl, inr, arith,
}
use openwire.Text.{text_eq, text_eq_sound, text_eq_self}
use openwire.Cache.Entry.{CachedResponse, same_variant_as}
use openwire.Cache.Store.{
  Slot, MemoryCacheStore, total_body_bytes, remove_at, candidates_at, put_variant, put_entry,
  drop_excess, drop_bytes, enforce_limits, put_candidate, get_candidates,
}
use openwire.Cache.Store.Distinct.{
  distinct_slots, distinct_slots-remove_at, distinct_slots-put_entry, key_in,
}

module _ {H : Type 0} where
  candidates_at_absent :
      (k : List ℕ) (ss : List (Slot H)) → key_in k ss ≡ false → candidates_at k ss ≡ []
  unfolding key_in candidates_at
  candidates_at_absent k [] h = refl
  candidates_at_absent k (s ∷ ss) h = ground (arith, candidates_at_absent k ss)

  -- A lookup after some slots went: as before, or nothing.
  abbrev pub KeepsOrLoses : List ℕ → List (Slot H) → List (Slot H) → Type 0
  KeepsOrLoses k ss kept = (candidates_at k kept ≡ candidates_at k ss) ⊎ (candidates_at k kept ≡ [])

  candidates_at-remove_at :
      (k : List ℕ) (n : ℕ) (ss : List (Slot H))
      → distinct_slots ss ≡ true
      → KeepsOrLoses k ss (remove_at n ss)
  unfolding distinct_slots candidates_at remove_at
  candidates_at-remove_at k n [] h = inl refl
  candidates_at-remove_at k zero (s ∷ ss) h = elim (Bool-cases (text_eq s.key k)) [
    | inl e ↦ inr (ground (arith, candidates_at_absent k ss, text_eq_sound s.key k e))
    | inr e ↦ inl (ground arith)
  ]
  candidates_at-remove_at k (suc n) (s ∷ []) h = inr refl
  candidates_at-remove_at k (suc n) (s ∷ t ∷ ss) h =
      ground (arith, candidates_at-remove_at k n (t ∷ ss))

  KeepsOrLoses-trans :
      (k : List ℕ) (xs ys zs : List (Slot H))
      → KeepsOrLoses k xs ys
      → KeepsOrLoses k ys zs
      → KeepsOrLoses k xs zs
  KeepsOrLoses-trans k xs ys zs p (inr q) = inr q
  KeepsOrLoses-trans k xs ys zs (inl p) (inl q) = inl (q ∙ p)
  KeepsOrLoses-trans k xs ys zs (inr p) (inl q) = inr (q ∙ p)

  KeepsOrLoses-if :
      (k : List ℕ) (b : Bool) (ss kept : List (Slot H))
      → KeepsOrLoses k ss kept
      → KeepsOrLoses k ss (if b then kept else ss)
  KeepsOrLoses-if k true ss kept p = p
  KeepsOrLoses-if k false ss kept p = inl refl

  candidates_at-put_entry :
      (k key : List ℕ) (v : CachedResponse H) (ss : List (Slot H))
      → candidates_at k (put_entry key v ss)
        ≡ (if text_eq key k then put_variant v (candidates_at key ss) else candidates_at k ss)
  unfolding candidates_at put_entry put_variant
  candidates_at-put_entry k key v [] = refl
  candidates_at-put_entry k key v (s ∷ ss) = elim (Bool-cases (text_eq s.key key)) [
    | inl e ↦ ground (arith, text_eq_sound s.key key e)
    | inr e ↦ elim (Bool-cases (text_eq key k)) [
      | inl f ↦ ground (arith, candidates_at-put_entry k key v ss, text_eq_sound key k f)
      | inr f ↦ ground (arith, candidates_at-put_entry k key v ss)
    ]
  ]

module _ {H : Type 0} (first : List (Slot H) → ℕ) where
  drop_excess-KeepsOrLoses :
      (k : List ℕ) (fuel n : ℕ) (ss : List (Slot H))
      → distinct_slots ss ≡ true
      → KeepsOrLoses k ss (drop_excess first fuel n ss)
        × (distinct_slots (drop_excess first fuel n ss) ≡ true)
  unfolding drop_excess
  drop_excess-KeepsOrLoses k zero n ss h = (inl refl, h)
  drop_excess-KeepsOrLoses k (suc fuel) n ss h =
      let rest =
        drop_excess-KeepsOrLoses k fuel n (remove_at (first ss) ss)
          (distinct_slots-remove_at (first ss) ss h) in
      (
        KeepsOrLoses-if k (ltb n (length ss)) ss _ (
            KeepsOrLoses-trans k ss (remove_at (first ss) ss) _
              (candidates_at-remove_at k (first ss) ss h) rest.0),
        ground arith,
      )

  drop_bytes-KeepsOrLoses :
      (k : List ℕ) (fuel n : ℕ) (ss : List (Slot H))
      → distinct_slots ss ≡ true
      → KeepsOrLoses k ss (drop_bytes first fuel n ss)
  unfolding drop_bytes
  drop_bytes-KeepsOrLoses k zero n ss h = inl refl
  drop_bytes-KeepsOrLoses k (suc fuel) n ss h =
      KeepsOrLoses-if k (ltb n (total_body_bytes ss) && ltb 0 (length ss)) ss _ (
        KeepsOrLoses-trans k ss (remove_at (first ss) ss) _
          (candidates_at-remove_at k (first ss) ss h)
          (drop_bytes-KeepsOrLoses k fuel n (remove_at (first ss) ss)
            (distinct_slots-remove_at (first ss) ss h)))

  enforce_limits-KeepsOrLoses :
      (k : List ℕ) (m n : ℕ) (ss : List (Slot H))
      → distinct_slots ss ≡ true
      → KeepsOrLoses k ss (enforce_limits first m n ss)
  unfolding enforce_limits
  enforce_limits-KeepsOrLoses k m n ss h =
      let kept = drop_excess-KeepsOrLoses k (length ss) m ss h in
      KeepsOrLoses-trans k ss (drop_excess first (length ss) m ss) _ kept.0
        (drop_bytes-KeepsOrLoses k _ n (drop_excess first (length ss) m ss) kept.1)

  drop_excess_idle :
      (fuel n : ℕ) (ss : List (Slot H)) → length ss ≤ n → drop_excess first fuel n ss ≡ ss
  unfolding drop_excess
  drop_excess_idle zero n ss h = refl
  drop_excess_idle (suc fuel) n ss h = ground arith

  drop_bytes_idle :
      (fuel n : ℕ) (ss : List (Slot H)) → total_body_bytes ss ≤ n → drop_bytes first fuel n ss ≡ ss
  unfolding drop_bytes
  drop_bytes_idle zero n ss h = refl
  drop_bytes_idle (suc fuel) n ss h = ground arith

  enforce_limits_idle :
      (m n : ℕ) (ss : List (Slot H))
      → length ss ≤ m
      → total_body_bytes ss ≤ n
      → enforce_limits first m n ss ≡ ss
  unfolding enforce_limits
  enforce_limits_idle m n ss h t =
      rw (drop_excess_idle (length ss) m ss h, drop_bytes_idle (length ss) n ss t)

  -- The list a key has once a response is stored, when nothing is evicted.
  abbrev pub stored_at_key :
      List ℕ → List ℕ → CachedResponse H → MemoryCacheStore H → List (CachedResponse H)
  stored_at_key k key v store =
      if text_eq key k then put_variant v (get_candidates key store) else get_candidates k store

  put_candidate_fits :
      (key : List ℕ) (v : CachedResponse H) (store : MemoryCacheStore H)
      → length v.body ≤ store.max_body_bytes
      → (put_candidate first key v store).entries
        ≡ enforce_limits first store.max_entries store.max_body_bytes
            (put_entry key v store.entries)
  unfolding put_candidate
  put_candidate_fits key v store h = ground arith

  -- Whether the store with the response in it is within its limits.
  abbrev pub fits : List ℕ → CachedResponse H → MemoryCacheStore H → Bool
  fits key v store =
      leb (length (put_entry key v store.entries)) store.max_entries
      && leb (total_body_bytes (put_entry key v store.entries)) store.max_body_bytes

  -- A candidate of its variant is there: the first one is replaced.
  pub record Replaced (v : CachedResponse H) (before after : List (CachedResponse H)) : Type 0 where
    pub front : List (CachedResponse H)
    pub old : CachedResponse H
    pub back : List (CachedResponse H)
    pub was : before ≡ front ++ (old ∷ back)
    pub becomes : after ≡ front ++ (v ∷ back)
    pub variant : same_variant_as old v ≡ true
    pub others : All (λ c. same_variant_as c v ≡ false) front

  -- Or none is: the response comes last.
  abbrev pub Put : CachedResponse H → List (CachedResponse H) → List (CachedResponse H) → Type 0
  Put v before after =
      Replaced v before after
      ⊎ ((after ≡ before ++ (v ∷ [])) × All (λ c. same_variant_as c v ≡ false) before)

  put_variant-Put :
      (v : CachedResponse H) (cs : List (CachedResponse H)) → Put v cs (put_variant v cs)
  unfolding put_variant
  put_variant-Put v [] = inr (refl, tt)
  put_variant-Put v (c ∷ cs) = elim (Bool-cases (same_variant_as c v)) [
    | inl e ↦ inl (record {
      front = [];
      old = c;
      back = cs;
      was = refl;
      becomes = rw e;
      variant = e;
      others = tt;
    })
    | inr e ↦ elim (put_variant-Put v cs) [
      | inl r ↦ inl (record {
        front = c ∷ r.front;
        old = r.old;
        back = r.back;
        was = ap (◌∷◌ c) r.was;
        becomes = rw e (ap (◌∷◌ c) r.becomes);
        variant = r.variant;
        others = (e, r.others);
      })
      | inr (p, a) ↦ inr (rw e (ap (◌∷◌ c) p), (e, a))
    ]
  ]

  -- What a lookup of `k` gives behind a response stored under `key`.
  abbrev pub Stored :
      List ℕ
      → List ℕ
      → CachedResponse H
      → List (CachedResponse H)
      → List (CachedResponse H)
      → Type 0
  Stored k key v before after = ((key ≡ k) × Put v before after) ⊎ ((key ≢ k) × (after ≡ before))

  stored_at_key-Stored :
      (k key : List ℕ) (v : CachedResponse H) (store : MemoryCacheStore H)
      (after : List (CachedResponse H))
      → after ≡ stored_at_key k key v store
      → Stored k key v (get_candidates k store) after
  stored_at_key-Stored k key v store after a = elim (Bool-cases (text_eq key k)) [
    | inl e ↦
        let i = text_eq_sound key k e in
        let p : after ≡ put_variant v (get_candidates k store) =
          a ∙ rw (e, ap (λ j. put_variant v (get_candidates j store)) i) in
        inl (
          i,
          subst (Put v (get_candidates k store)) (sym p)
              (put_variant-Put v (get_candidates k store)),
        )
    | inr e ↦ inr (λ i. absurd (cc (ap (text_eq key) i, text_eq_self key, e)), a ∙ rw e)
  ]

  looked_up :
      (k key : List ℕ) (v : CachedResponse H) (store : MemoryCacheStore H)
      → length v.body ≤ store.max_body_bytes
      → distinct_slots store.entries ≡ true
      → (get_candidates k (put_candidate first key v store) ≡ stored_at_key k key v store)
        ⊎ ((get_candidates k (put_candidate first key v store) ≡ []) × (fits key v store ≡ false))
  unfolding get_candidates
  looked_up k key v store h d =
      let es = put_entry key v store.entries in
      elim (Bool-cases (fits key v store)) [
        | inl e ↦ inl (
            ap (candidates_at k) (
              put_candidate_fits key v store h
              ∙ enforce_limits_idle _ _ es (ground arith) (ground arith))
            ∙ candidates_at-put_entry k key v store.entries)
        | inr e ↦
            elim (enforce_limits-KeepsOrLoses k store.max_entries store.max_body_bytes es
              (distinct_slots-put_entry key v store.entries d)) [
                | inl p ↦ inl (
                    ap (candidates_at k) (put_candidate_fits key v store h)
                    ∙ p
                    ∙ candidates_at-put_entry k key v store.entries)
                | inr p ↦ inr (ap (candidates_at k) (put_candidate_fits key v store h) ∙ p, e)
              ]
      ]

  -- After a response with a body that fits is put under `key` in a store whose slots are distinct, a
  -- lookup of another key gives what it gave before, and a lookup of `key` gives that with the response
  -- in place of the first candidate of its variant, or last if there is none; only where the store with
  -- the response is past one of its limits may either give nothing instead, since the key was evicted.
  pub get_candidates-put_candidate :
      (k key : List ℕ) (v : CachedResponse H) (store : MemoryCacheStore H)
      → length v.body ≤ store.max_body_bytes
      → distinct_slots store.entries ≡ true
      → Stored k key v (get_candidates k store) (get_candidates k (put_candidate first key v store))
        ⊎ ((get_candidates k (put_candidate first key v store) ≡ []) × (fits key v store ≡ false))
  get_candidates-put_candidate k key v store h d = elim (looked_up k key v store h d) [
    | inl e ↦ inl (stored_at_key-Stored k key v store _ e)
    | inr p ↦ inr p
  ]
