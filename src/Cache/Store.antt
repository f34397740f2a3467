-- ===== src/Cache/Store.antt =====
-- crates/openwire-cache/src/lib.rs: the store in memory. A hash map is a list of slots with distinct
-- keys; which key its iterator gives first is a parameter. Each call holds the lock throughout, so
-- concurrent calls are a sequence.
pub mod Distinct
pub mod Limits
pub mod Lookup
pub mod Contents
use openwire.Base.{
  ℕ, zero, suc, ◌+◌, ◌≡◌, Bool, true, false, not, ◌&&◌, List, [], ◌∷◌, Option, none, some, length,
  max, leb, ltb, if◌then◌else◌,
}
use openwire.Text.{text_eq}
use openwire.Cache.Http.{HeaderMap}
use openwire.Cache.Entry.{CachedResponse, same_variant_as}

pub record Slot (H : Type 0) : Type 0 where
  pub key : List ℕ
  pub candidates : List (CachedResponse H)

pub record MemoryCacheStore (H : Type 0) : Type 0 where
  pub entries : List (Slot H)
  pub max_entries : ℕ
  pub max_body_bytes : ℕ

-- The slot at a place goes; past the end, the last one.
unfoldable pub remove_at : {A : Type 0} → ℕ → List A → List A
remove_at n [] = []
remove_at zero (x ∷ xs) = xs
remove_at (suc n) (x ∷ []) = []
remove_at (suc n) (x ∷ y ∷ xs) = x ∷ remove_at n (y ∷ xs)

module _ {H : Type 0} where
  abbrev pub with_limits : ℕ → ℕ → MemoryCacheStore H
  with_limits max_entries max_body_bytes = record {
    entries = [];
    max_entries = max max_entries 1;
    max_body_bytes = max_body_bytes;
  }

  unfoldable pub candidates_bytes : List (CachedResponse H) → ℕ
  candidates_bytes [] = 0
  candidates_bytes (c ∷ cs) = length c.body + candidates_bytes cs

  unfoldable pub total_body_bytes : List (Slot H) → ℕ
  unfolding candidates_bytes
  total_body_bytes [] = 0
  total_body_bytes (s ∷ ss) = candidates_bytes s.candidates + total_body_bytes ss

  unfoldable pub candidates_at : List ℕ → List (Slot H) → List (CachedResponse H)
  unfolding text_eq
  candidates_at key [] = []
  candidates_at key (s ∷ ss) =
      let rest = candidates_at key ss in if text_eq s.key key then s.candidates else rest

  unfoldable pub remove_key : List ℕ → List (Slot H) → List (Slot H)
  unfolding text_eq
  remove_key key [] = []
  remove_key key (s ∷ ss) =
      let rest = remove_key key ss in if text_eq s.key key then ss else s ∷ rest

  -- The first candidate of the same variant is replaced; without one, the value goes to the end.
  unfoldable pub put_variant : CachedResponse H → List (CachedResponse H) → List (CachedResponse H)
  unfolding same_variant_as
  put_variant value [] = value ∷ []
  put_variant value (c ∷ cs) =
      let rest = put_variant value cs in if same_variant_as c value then value ∷ cs else c ∷ rest

  unfoldable pub put_entry : List ℕ → CachedResponse H → List (Slot H) → List (Slot H)
  unfolding text_eq put_variant
  put_entry key value [] = record { key = key; candidates = value ∷ [] } ∷ []
  put_entry key value (s ∷ ss) =
      let rest = put_entry key value ss in
      if text_eq s.key key
      then record s { candidates = put_variant value s.candidates } ∷ ss
      else s ∷ rest

  -- `retain` of `remove_candidate`.
  unfoldable pub drop_variant : CachedResponse H → List (CachedResponse H) → List (CachedResponse H)
  unfolding same_variant_as
  drop_variant value [] = []
  drop_variant value (c ∷ cs) =
      let rest = drop_variant value cs in if same_variant_as c value then rest else c ∷ rest

  abbrev pub set_candidates : Slot H → List (CachedResponse H) → List (Slot H) → List (Slot H)
  set_candidates s [] ss = ss
  set_candidates s (c ∷ cs) ss = record s { candidates = c ∷ cs } ∷ ss

  unfoldable pub drop_candidate : List ℕ → CachedResponse H → List (Slot H) → List (Slot H)
  unfolding text_eq drop_variant
  drop_candidate key value [] = []
  drop_candidate key value (s ∷ ss) =
      let rest = drop_candidate key value ss in
      if text_eq s.key key then set_candidates s (drop_variant value s.candidates) ss else s ∷ rest

  abbrev last_candidate : List (CachedResponse H) → Option (CachedResponse H)
  last_candidate [] = none
  last_candidate (c ∷ []) = some c
  last_candidate (c ∷ d ∷ cs) = last_candidate (d ∷ cs)

  unfoldable pub get : List ℕ → MemoryCacheStore H → Option (CachedResponse H)
  unfolding candidates_at
  get key store = last_candidate (candidates_at key store.entries)

  unfoldable pub get_candidates : List ℕ → MemoryCacheStore H → List (CachedResponse H)
  unfolding candidates_at
  get_candidates key store = candidates_at key store.entries

  unfoldable pub remove : List ℕ → MemoryCacheStore H → MemoryCacheStore H
  unfolding remove_key
  remove key store = record store { entries = remove_key key store.entries }

  unfoldable pub remove_candidate :
      List ℕ → CachedResponse H → MemoryCacheStore H → MemoryCacheStore H
  unfolding drop_candidate
  remove_candidate key value store = record store {
    entries = drop_candidate key value store.entries;
  }

module _ {H : Type 0} (first : List (Slot H) → ℕ) where
  -- The two loops, each on fuel.
  unfoldable pub drop_excess : ℕ → ℕ → List (Slot H) → List (Slot H)
  unfolding remove_at
  drop_excess zero max_entries ss = ss
  drop_excess (suc fuel) max_entries ss =
      let rest = drop_excess fuel max_entries (remove_at (first ss) ss) in
      if ltb max_entries (length ss) then rest else ss

  unfoldable pub drop_bytes : ℕ → ℕ → List (Slot H) → List (Slot H)
  unfolding remove_at total_body_bytes
  drop_bytes zero max_body_bytes ss = ss
  drop_bytes (suc fuel) max_body_bytes ss =
      let rest = drop_bytes fuel max_body_bytes (remove_at (first ss) ss) in
      if ltb max_body_bytes (total_body_bytes ss) && ltb 0 (length ss) then rest else ss

  unfoldable pub enforce_limits : ℕ → ℕ → List (Slot H) → List (Slot H)
  unfolding drop_excess drop_bytes
  enforce_limits max_entries max_body_bytes ss =
      let kept = drop_excess (length ss) max_entries ss in
      drop_bytes (length kept) max_body_bytes kept

  unfoldable pub put_candidate : List ℕ → CachedResponse H → MemoryCacheStore H → MemoryCacheStore H
  unfolding put_entry enforce_limits
  put_candidate key value store =
      if ltb store.max_body_bytes (length value.body) then store else record store {
        entries =
            enforce_limits store.max_entries store.max_body_bytes
              (put_entry key value store.entries);
      }

  -- The calls that change the store.
  pub data StoreCall : Type 0 where
    put_call : List ℕ → CachedResponse H → StoreCall
    remove_call : List ℕ → StoreCall
    remove_candidate_call : List ℕ → CachedResponse H → StoreCall

  unfoldable pub call_store : StoreCall → MemoryCacheStore H → MemoryCacheStore H
  unfolding put_candidate remove remove_candidate
  call_store (put_call key value) store = put_candidate key value store
  call_store (remove_call key) store = remove key store
  call_store (remove_candidate_call key value) store = remove_candidate key value store

  unfoldable pub run_calls : List StoreCall → MemoryCacheStore H → MemoryCacheStore H
  unfolding call_store
  run_calls [] store = store
  run_calls (c ∷ cs) store = run_calls cs (call_store c store)
