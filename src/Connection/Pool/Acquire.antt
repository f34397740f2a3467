-- ===== src/Connection/Pool/Acquire.antt =====
-- What the pool's operations do to the connections.
use openwire.Base.{
  ℕ, ◌≡◌, refl, sym, ap, ◌∙◌, inl, inr, Bool, true, false, List, [], ◌∷◌, Option, none, some, map,
  subst, All, find, find-holds, any, ◌==◌, ==_self, Bool-cases, Option-cases, arith, map_get,
}
use openwire.Connection.Planning.{Address}
use openwire.Connection.Equality.{address_eq}
use openwire.Connection.RealConnection.{try_acquire}
use openwire.Connection.Pool.Prune.{Heap, set_connection, is_in_use}
use openwire.Connection.Pool.InUse.{prune-IsSparing}
use openwire.Connection.Pool.{
  Pool, bucket, prune_address, notify_evictions, finish_removals, first_acquired, acquired_at,
  acquire,
}
use openwire.Connection.Pool.Lookup.{prune_addresses, prune_all}

find-none : (f : ℕ → Bool) (xs : List ℕ) → find f xs ≡ none → All (λ x. f x ≡ false) xs
unfolding find
find-none f [] h = tt
find-none f (x ∷ xs) h = elim (Bool-cases (f x)) [
  | inl e ↦ absurd (ground arith)
  | inr e ↦ (e, find-none f xs (ground arith))
]

-- The identifier found, of a connection that could be acquired and was; or none found, where no
-- connection could be, and nothing changed.
pub Outcome : Heap → List ℕ → Heap → Option ℕ → Type 0
Outcome h ids k none = (k ≡ h) × All (λ j. (try_acquire (h j)).1 ≡ false) ids
Outcome h ids k (some id) =
    (k ≡ set_connection id (try_acquire (h id)).0 h)
    × ((try_acquire (h id)).1 ≡ true)
    × (any (λ j. j == id) ids ≡ true)

find-any : (f : ℕ → Bool) (xs : List ℕ) (x : ℕ) → find f xs ≡ some x → any (λ y. y == x) xs ≡ true
unfolding find
find-any f [] x h = absurd (ground arith)
find-any f (y ∷ ys) x h = elim (Bool-cases (f y)) [
  | inl e ↦ ground (arith, ==_self y)
  | inr e ↦ ground (arith, find-any f ys x (ground arith))
]

finish_removals-heap : (ids : List ℕ) (p : Pool) → (finish_removals ids p).heap ≡ p.heap
unfolding finish_removals notify_evictions
finish_removals-heap [] p = refl
finish_removals-heap (id ∷ ids) p = ground arith

acquired_at-Outcome :
    (ids : List ℕ) (p : Pool) (o : Option ℕ)
    → find (λ id. (try_acquire (p.heap id)).1) ids ≡ o
    → let (q, result) = acquired_at p o in Outcome p.heap ids q.heap result
unfolding acquired_at Outcome
acquired_at-Outcome ids p none e = (refl, find-none (λ id. (try_acquire (p.heap id)).1) ids e)
acquired_at-Outcome ids p (some id) e = (
  refl,
  find-holds (λ j. (try_acquire (p.heap j)).1) ids id e,
  find-any (λ j. (try_acquire (p.heap j)).1) ids id e,
)

first_acquired-Outcome :
    (ids : List ℕ) (p : Pool)
    → let (q, result) = first_acquired ids p in Outcome p.heap ids q.heap result
unfolding first_acquired
first_acquired-Outcome ids p =
    acquired_at-Outcome ids p (find (λ id. (try_acquire (p.heap id)).1) ids) refl

-- An acquisition, on a pruned bucket: the connection found is one of the bucket, could be acquired, and
-- alone is changed, by its own acquisition; when none is found, none of the bucket could be.
pub acquire-Outcome :
    (now : ℕ) (a : Address) (p : Pool)
    → let q = (prune_address now a p).0 in
      let (r, result) = acquire now a p in Outcome q.heap (bucket a q) r.heap result
unfolding acquire
acquire-Outcome now a p =
    let (q, removed) = prune_address now a p in
    let (r, result) = first_acquired (bucket a q) q in
    subst (λ k. Outcome q.heap (bucket a q) k result) (sym (finish_removals-heap removed r))
      (first_acquired-Outcome (bucket a q) q)

prune_address-same :
    (now : ℕ) (a : Address) (p : Pool) (j : ℕ)
    → is_in_use (p.heap j) ≡ true
    → (prune_address now a p).0.heap j ≡ p.heap j
unfolding prune_address
prune_address-same now a p j u = elim (Option-cases (map_get address_eq a p.by_address)) [
  | inl e ↦ rw (e, prune_address) refl
  | inr (ids, e) ↦ rw (e, prune_address) ((prune-IsSparing p.settings now p.heap ids).same j u)
]

prune_addresses-same :
    (now : ℕ) (addresses : List Address) (p : Pool) (j : ℕ)
    → is_in_use (p.heap j) ≡ true
    → (prune_addresses now addresses p).0.heap j ≡ p.heap j
unfolding prune_addresses
prune_addresses-same now [] p j u = refl
prune_addresses-same now (a ∷ addresses) p j u =
    let q = (prune_address now a p).0 in
    let s = prune_address-same now a p j u in
    prune_addresses-same now addresses q j (ap is_in_use s ∙ u) ∙ s

-- The reaper's pass over the whole pool leaves every connection that carries an exchange as it was.
pub prune_all-same :
    (now : ℕ) (p : Pool) (j : ℕ) → is_in_use (p.heap j) ≡ true → (prune_all now p).heap j ≡ p.heap j
unfolding prune_all
prune_all-same now p j u =
    let addresses = map (λ e. e.0) p.by_address in
    let (q, removed) = prune_addresses now addresses p in
    ap (λ k. k j) (finish_removals-heap removed q) ∙ prune_addresses-same now addresses p j u
