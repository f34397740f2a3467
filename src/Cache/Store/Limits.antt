-- ===== src/Cache/Store/Limits.antt =====
-- crates/openwire-cache/src/lib.rs: the limits of the store in memory, over any sequence of calls.
use openwire.Base.{
  ℕ, zero, suc, ◌+◌, ◌-◌, ◌≤◌, ◌≡◌, refl, Bool, true, false, List, [], ◌∷◌, length, max, ltb,
  if◌then◌else◌, arith,
}
use openwire.Cache.Entry.{CachedResponse}
use openwire.Cache.Store.{
  Slot, MemoryCacheStore, StoreCall, put_call, remove_call, remove_candidate_call, with_limits,
  candidates_bytes, total_body_bytes, remove_at, remove_key, put_entry, drop_variant,
  set_candidates, drop_candidate, drop_excess, drop_bytes, enforce_limits, put_candidate, remove,
  remove_candidate, call_store, run_calls,
}
use openwire.Cache.Store.Distinct.{
  distinct_slots, distinct_slots-remove_key, distinct_slots-put_entry,
  distinct_slots-drop_candidate, distinct_slots-enforce_limits,
}

length-remove_at : {A : Type 0} (n : ℕ) (xs : List A) → length (remove_at n xs) ≡ length xs - 1
unfolding remove_at
length-remove_at n [] = omega arith
length-remove_at zero (x ∷ xs) = omega arith
length-remove_at (suc n) (x ∷ []) = omega arith
length-remove_at (suc n) (x ∷ y ∷ xs) = omega (arith, length-remove_at n (y ∷ xs))

module _ {H : Type 0} where
  length-remove_key_le :
      (key : List ℕ) (ss : List (Slot H)) → length (remove_key key ss) ≤ length ss
  unfolding remove_key
  length-remove_key_le key [] = omega arith
  length-remove_key_le key (s ∷ ss) = ground (arith, length-remove_key_le key ss)

  total-remove_key_le :
      (key : List ℕ) (ss : List (Slot H))
      → total_body_bytes (remove_key key ss) ≤ total_body_bytes ss
  unfolding remove_key total_body_bytes
  total-remove_key_le key [] = omega arith
  total-remove_key_le key (s ∷ ss) = ground (arith, total-remove_key_le key ss)

  bytes-drop_variant_le :
      (v : CachedResponse H) (cs : List (CachedResponse H))
      → candidates_bytes (drop_variant v cs) ≤ candidates_bytes cs
  unfolding drop_variant candidates_bytes
  bytes-drop_variant_le v [] = omega arith
  bytes-drop_variant_le v (c ∷ cs) = ground (arith, bytes-drop_variant_le v cs)

  length-set_candidates_le :
      (s : Slot H) (cs : List (CachedResponse H)) (ss : List (Slot H))
      → length (set_candidates s cs ss) ≤ suc (length ss)
  length-set_candidates_le s [] ss = omega arith
  length-set_candidates_le s (c ∷ cs) ss = omega arith

  total-set_candidates :
      (s : Slot H) (cs : List (CachedResponse H)) (ss : List (Slot H))
      → total_body_bytes (set_candidates s cs ss) ≡ candidates_bytes cs + total_body_bytes ss
  unfolding total_body_bytes candidates_bytes
  total-set_candidates s [] ss = omega arith
  total-set_candidates s (c ∷ cs) ss = refl

  length-drop_candidate_le :
      (key : List ℕ) (v : CachedResponse H) (ss : List (Slot H))
      → length (drop_candidate key v ss) ≤ length ss
  unfolding drop_candidate
  length-drop_candidate_le key v [] = omega arith
  length-drop_candidate_le key v (s ∷ ss) = ground (
    arith,
    length-drop_candidate_le key v ss,
    length-set_candidates_le s (drop_variant v s.candidates) ss,
  )

  total-drop_candidate_le :
      (key : List ℕ) (v : CachedResponse H) (ss : List (Slot H))
      → total_body_bytes (drop_candidate key v ss) ≤ total_body_bytes ss
  unfolding drop_candidate total_body_bytes
  total-drop_candidate_le key v [] = omega arith
  total-drop_candidate_le key v (s ∷ ss) = ground (
    arith,
    total-drop_candidate_le key v ss,
    bytes-drop_variant_le v s.candidates,
    total-set_candidates s (drop_variant v s.candidates) ss,
  )

module _ {H : Type 0} (first : List (Slot H) → ℕ) where
  drop_excess_le :
      (fuel m : ℕ) (ss : List (Slot H))
      → length ss ≤ fuel + m
      → length (drop_excess first fuel m ss) ≤ m
  unfolding drop_excess
  drop_excess_le zero m ss h = omega arith
  drop_excess_le (suc fuel) m ss h =
      ground
        (arith, drop_excess_le fuel m (remove_at (first ss) ss), length-remove_at (first ss) ss)

  length-drop_bytes_le :
      (fuel n : ℕ) (ss : List (Slot H)) → length (drop_bytes first fuel n ss) ≤ length ss
  unfolding drop_bytes
  length-drop_bytes_le zero n ss = omega arith
  length-drop_bytes_le (suc fuel) n ss =
      ground (
        arith,
        length-drop_bytes_le fuel n (remove_at (first ss) ss),
        length-remove_at (first ss) ss,
      )

  total_empty : (ss : List (Slot H)) → length ss ≤ 0 → total_body_bytes ss ≡ 0
  unfolding total_body_bytes
  total_empty [] h = refl
  total_empty (s ∷ ss) h = absurd (omega arith)

  drop_bytes_le :
      (fuel n : ℕ) (ss : List (Slot H))
      → length ss ≤ fuel
      → total_body_bytes (drop_bytes first fuel n ss) ≤ n
  unfolding drop_bytes
  drop_bytes_le zero n ss h = omega (arith, total_empty ss h)
  drop_bytes_le (suc fuel) n ss h = ground (
    arith,
    drop_bytes_le fuel n (remove_at (first ss) ss),
    length-remove_at (first ss) ss,
    total_empty ss,
  )

  -- What every store keeps.
  abbrev pub WithinLimits : MemoryCacheStore H → Type 0
  WithinLimits store =
      (length store.entries ≤ store.max_entries)
      × (total_body_bytes store.entries ≤ store.max_body_bytes)
      × (distinct_slots store.entries ≡ true)

  enforce_limits-length : (m n : ℕ) (ss : List (Slot H)) → length (enforce_limits first m n ss) ≤ m
  unfolding enforce_limits
  enforce_limits-length m n ss = omega (
    arith,
    drop_excess_le (length ss) m ss (omega arith),
    length-drop_bytes_le (length (drop_excess first (length ss) m ss)) n
        (drop_excess first (length ss) m ss),
  )

  enforce_limits-total :
      (m n : ℕ) (ss : List (Slot H)) → total_body_bytes (enforce_limits first m n ss) ≤ n
  unfolding enforce_limits
  enforce_limits-total m n ss = drop_bytes_le _ n (drop_excess first (length ss) m ss) (omega arith)

  if-WithinLimits :
      (b : Bool) (x y : MemoryCacheStore H)
      → WithinLimits x
      → WithinLimits y
      → WithinLimits (if b then x else y)
  if-WithinLimits true x y p q = p
  if-WithinLimits false x y p q = q

  put_candidate-WithinLimits :
      (key : List ℕ) (v : CachedResponse H) (store : MemoryCacheStore H)
      → WithinLimits store
      → WithinLimits (put_candidate first key v store)
  unfolding put_candidate
  put_candidate-WithinLimits key v store (l, t, d) =
      if-WithinLimits (ltb store.max_body_bytes (length v.body)) store _ (l, t, d)
        (
          enforce_limits-length _ _ (put_entry key v store.entries),
          enforce_limits-total _ _ (put_entry key v store.entries),
          distinct_slots-enforce_limits first _ _ (put_entry key v store.entries)
              (distinct_slots-put_entry key v store.entries d),
        )

  call_store-WithinLimits :
      (c : StoreCall first) (store : MemoryCacheStore H)
      → WithinLimits store
      → WithinLimits (call_store first c store)
  unfolding call_store remove remove_candidate
  call_store-WithinLimits (put_call key v) store w = put_candidate-WithinLimits key v store w
  call_store-WithinLimits (remove_call key) store (l, t, d) = (
    omega (arith, length-remove_key_le key store.entries, l),
    omega (arith, total-remove_key_le key store.entries, t),
    distinct_slots-remove_key key store.entries d,
  )
  call_store-WithinLimits (remove_candidate_call key v) store (l, t, d) = (
    omega (arith, length-drop_candidate_le key v store.entries, l),
    omega (arith, total-drop_candidate_le key v store.entries, t),
    distinct_slots-drop_candidate key v store.entries d,
  )

  call_store-limits :
      (c : StoreCall first) (store : MemoryCacheStore H)
      → ((call_store first c store).max_entries ≡ store.max_entries)
        × ((call_store first c store).max_body_bytes ≡ store.max_body_bytes)
  unfolding call_store put_candidate remove remove_candidate
  call_store-limits (put_call key v) store = ground arith
  call_store-limits (remove_call key) store = (refl, refl)
  call_store-limits (remove_candidate_call key v) store = (refl, refl)

  run_calls-WithinLimits :
      (cs : List (StoreCall first)) (store : MemoryCacheStore H)
      → WithinLimits store
      → WithinLimits (run_calls first cs store)
  unfolding run_calls
  run_calls-WithinLimits [] store w = w
  run_calls-WithinLimits (c ∷ cs) store w =
      run_calls-WithinLimits cs (call_store first c store) (call_store-WithinLimits c store w)

  run_calls-limits :
      (cs : List (StoreCall first)) (store : MemoryCacheStore H)
      → ((run_calls first cs store).max_entries ≡ store.max_entries)
        × ((run_calls first cs store).max_body_bytes ≡ store.max_body_bytes)
  unfolding run_calls
  run_calls-limits [] store = (refl, refl)
  run_calls-limits (c ∷ cs) store =
      ground (arith, run_calls-limits cs (call_store first c store), call_store-limits c store)

  with_limits_start : (m n : ℕ) → WithinLimits (with_limits m n)
  unfolding distinct_slots total_body_bytes
  with_limits_start m n = (omega arith, omega arith, refl)

  kept_limits :
      (store : MemoryCacheStore H) (m n : ℕ)
      → (store.max_entries ≡ m) × (store.max_body_bytes ≡ n)
      → WithinLimits store
      → (length store.entries ≤ m)
        × (total_body_bytes store.entries ≤ n)
        × (distinct_slots store.entries ≡ true)
  kept_limits store m n (e, f) (l, t, d) = (omega arith, omega arith, d)

  -- Whatever calls are made of a new store, in any order, it never holds more keys than its limit (at
  -- least 1) nor more body bytes than its limit, no key stands twice, no slot is empty, and no two
  -- candidates of a slot are the same variant, whichever key the map's iterator gives first.
  pub with_limits-WithinLimits :
      (m n : ℕ) (cs : List (StoreCall first))
      → (length (run_calls first cs (with_limits m n)).entries ≤ max m 1)
        × (total_body_bytes (run_calls first cs (with_limits m n)).entries ≤ n)
        × (distinct_slots (run_calls first cs (with_limits m n)).entries ≡ true)
  with_limits-WithinLimits m n cs =
      kept_limits _ (max m 1) n (run_calls-limits cs (with_limits m n))
        (run_calls-WithinLimits cs (with_limits m n) (with_limits_start m n))
