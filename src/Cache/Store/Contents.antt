-- ===== src/Cache/Store/Contents.antt =====
-- crates/openwire-cache/src/lib.rs: a property of each stored response is kept by the calls of the store.
use openwire.Base.{ℕ, zero, suc, ◌&&◌, List, [], ◌∷◌, All, length, ltb, if_either}
use openwire.Text.{text_eq}
use openwire.Cache.Entry.{CachedResponse, same_variant_as}
use openwire.Cache.Store.{
  Slot, MemoryCacheStore, total_body_bytes, remove_at, remove_key, put_variant, put_entry,
  drop_variant, set_candidates, drop_candidate, drop_excess, drop_bytes, enforce_limits,
  put_candidate, remove, remove_candidate,
}

module _ {H : Type 0} (P : CachedResponse H → Type 0) where
  abbrev pub Each : List (Slot H) → Type 0
  Each ss = All (λ (s : Slot H). All P s.candidates) ss

  Each-remove_at : (n : ℕ) (ss : List (Slot H)) → Each ss → Each (remove_at n ss)
  unfolding remove_at
  Each-remove_at n [] h = h
  Each-remove_at zero (s ∷ ss) h = h.1
  Each-remove_at (suc n) (s ∷ []) h = tt
  Each-remove_at (suc n) (s ∷ t ∷ ss) h = (h.0, Each-remove_at n (t ∷ ss) h.1)

  Each-remove_key : (k : List ℕ) (ss : List (Slot H)) → Each ss → Each (remove_key k ss)
  unfolding remove_key
  Each-remove_key k [] h = h
  Each-remove_key k (s ∷ ss) h =
      if_either Each (text_eq s.key k) ss (s ∷ remove_key k ss) (λ e. h.1)
        (λ e. (h.0, Each-remove_key k ss h.1))

  put_variant-All :
      (v : CachedResponse H) (cs : List (CachedResponse H))
      → P v
      → All P cs
      → All P (put_variant v cs)
  unfolding put_variant
  put_variant-All v [] p h = (p, tt)
  put_variant-All v (c ∷ cs) p h =
      if_either (All P) (same_variant_as c v) (v ∷ cs) (c ∷ put_variant v cs) (λ e. (p, h.1))
        (λ e. (h.0, put_variant-All v cs p h.1))

  Each-put_entry :
      (k : List ℕ) (v : CachedResponse H) (ss : List (Slot H))
      → P v
      → Each ss
      → Each (put_entry k v ss)
  unfolding put_entry
  Each-put_entry k v [] p h = ((p, tt), tt)
  Each-put_entry k v (s ∷ ss) p h =
      if_either Each (text_eq s.key k) (record s { candidates = put_variant v s.candidates } ∷ ss)
        (s ∷ put_entry k v ss) (λ e. (put_variant-All v s.candidates p h.0, h.1))
        (λ e. (h.0, Each-put_entry k v ss p h.1))

  drop_variant-All :
      (v : CachedResponse H) (cs : List (CachedResponse H)) → All P cs → All P (drop_variant v cs)
  unfolding drop_variant
  drop_variant-All v [] h = h
  drop_variant-All v (c ∷ cs) h =
      if_either (All P) (same_variant_as c v) (drop_variant v cs) (c ∷ drop_variant v cs)
        (λ e. drop_variant-All v cs h.1) (λ e. (h.0, drop_variant-All v cs h.1))

  Each-set_candidates :
      (s : Slot H) (cs : List (CachedResponse H)) (ss : List (Slot H))
      → All P cs
      → Each ss
      → Each (set_candidates s cs ss)
  Each-set_candidates s [] ss p h = h
  Each-set_candidates s (c ∷ cs) ss p h = (p, h)

  Each-drop_candidate :
      (k : List ℕ) (v : CachedResponse H) (ss : List (Slot H))
      → Each ss
      → Each (drop_candidate k v ss)
  unfolding drop_candidate
  Each-drop_candidate k v [] h = h
  Each-drop_candidate k v (s ∷ ss) h =
      if_either Each (text_eq s.key k) (set_candidates s (drop_variant v s.candidates) ss)
        (s ∷ drop_candidate k v ss)
        (λ e.
          Each-set_candidates s (drop_variant v s.candidates) ss
            (drop_variant-All v s.candidates h.0) h.1)
        (λ e. (h.0, Each-drop_candidate k v ss h.1))

  abbrev pub EachStored : MemoryCacheStore H → Type 0
  EachStored store = Each store.entries

  pub remove-EachStored :
      (k : List ℕ) (store : MemoryCacheStore H) → EachStored store → EachStored (remove k store)
  unfolding remove
  remove-EachStored k store h = Each-remove_key k store.entries h

  pub remove_candidate-EachStored :
      (k : List ℕ) (v : CachedResponse H) (store : MemoryCacheStore H)
      → EachStored store
      → EachStored (remove_candidate k v store)
  unfolding remove_candidate
  remove_candidate-EachStored k v store h = Each-drop_candidate k v store.entries h

  module _ (first : List (Slot H) → ℕ) where
    Each-drop_excess :
        (fuel n : ℕ) (ss : List (Slot H)) → Each ss → Each (drop_excess first fuel n ss)
    unfolding drop_excess
    Each-drop_excess zero n ss h = h
    Each-drop_excess (suc fuel) n ss h =
        if_either Each (ltb n (length ss)) (drop_excess first fuel n (remove_at (first ss) ss)) ss
          (λ e. Each-drop_excess fuel n _ (Each-remove_at (first ss) ss h)) (λ e. h)

    Each-drop_bytes :
        (fuel n : ℕ) (ss : List (Slot H)) → Each ss → Each (drop_bytes first fuel n ss)
    unfolding drop_bytes
    Each-drop_bytes zero n ss h = h
    Each-drop_bytes (suc fuel) n ss h =
        if_either Each (ltb n (total_body_bytes ss) && ltb 0 (length ss))
          (drop_bytes first fuel n (remove_at (first ss) ss)) ss
          (λ e. Each-drop_bytes fuel n _ (Each-remove_at (first ss) ss h)) (λ e. h)

    pub put_candidate-EachStored :
        (k : List ℕ) (v : CachedResponse H) (store : MemoryCacheStore H)
        → P v
        → EachStored store
        → EachStored (put_candidate first k v store)
    unfolding put_candidate enforce_limits
    put_candidate-EachStored k v store p h =
        let es = put_entry k v store.entries in
        let kept = drop_excess first (length es) store.max_entries es in
        if_either EachStored (ltb store.max_body_bytes (length v.body)) store _ (λ e. h)
          (λ e. Each-drop_bytes (length kept) store.max_body_bytes kept (
            Each-drop_excess (length es) store.max_entries es
              (Each-put_entry k v store.entries p h)))
