-- ===== src/Connection/Pool/InUse.antt =====
-- Pruning leaves the connections that carry an exchange alone.
use openwire.Base.{
  ℕ, ◌≤◌, ◌≡◌, ◌≢◌, refl, sym, ap, ◌∙◌, inl, inr, Bool, true, false, ◌||◌, List, [], ◌∷◌, All,
  All-append, length, leb, take, ◌-◌, retain, ◌==◌, ==_iff, Bool-cases, arith,
}
use openwire.Connection.RealConnection.{RealConnection, close, is_closed}
use openwire.Connection.Pool.Prune.{
  PoolSettings, usize_max, Heap, set_connection, is_in_use, is_expired, retain_open, idle_since,
  enforce_max_idle_connections, prune_connections, Pruned, contains, sort_by_since,
}
use openwire.Connection.Pool.Bounds.{
  Closes, set_connection-other, expired-free, close-states, retain_open-closed, retain_open-Closes,
  Closes-trans, All-map,
}
use openwire.Connection.Pool.Idle.{enforce-idle, evicted-free}

retain-ext : (p q : ℕ → Bool) (xs : List ℕ) → ((x : ℕ) → p x ≡ q x) → retain p xs ≡ retain q xs
unfolding retain
retain-ext p q [] f = refl
retain-ext p q (x ∷ xs) f = ground (arith, f x, retain-ext p q xs f)

-- Closing a connection that is not in use changes none that is.
close-in_use :
    (id : ℕ) (h : Heap)
    → is_in_use (h id) ≡ false
    → (j : ℕ) → is_in_use (set_connection id (close (h id)) h j) ≡ is_in_use (h j)
close-in_use id h e j = elim (Bool-cases (j == id)) [
  | inr f ↦ ap is_in_use (set_connection-other id j (close (h id)) h f)
  | inl f ↦ rw (f, (==_iff j id).0 f) ((close-states (h id)).0 ∙ sym e)
]

close-same :
    (id : ℕ) (h : Heap)
    → is_in_use (h id) ≡ false
    → (j : ℕ) → is_in_use (h j) ≡ true
    → set_connection id (close (h id)) h j ≡ h j
close-same id h e j u = elim (Bool-cases (j == id)) [
  | inr f ↦ set_connection-other id j (close (h id)) h f
  | inl f ↦ absurd (ground (arith, ap (λ i. is_in_use (h i)) ((==_iff j id).0 f)))
]

-- The test drops no connection that is in use.
abbrev Spares : (ℕ → RealConnection → Bool) → Heap → Type 0
Spares d h = (i : ℕ) → is_in_use (h i) ≡ true → d i (h i) ≡ false

spared :
    (d : ℕ → RealConnection → Bool) (h : Heap)
    → Spares d h
    → (i : ℕ) → d i (h i) ≡ true
    → is_in_use (h i) ≡ false
spared d h s i e = elim (Bool-cases (is_in_use (h i))) [
  | inl f ↦ absurd (ground (arith, s i f))
  | inr f ↦ f
]

close-Spares :
    (d : ℕ → RealConnection → Bool) (id : ℕ) (h : Heap)
    → is_in_use (h id) ≡ false
    → Spares d h
    → Spares d (set_connection id (close (h id)) h)
close-Spares d id h e s i u =
    let v = sym (close-in_use id h e i) ∙ u in ap (d i) (close-same id h e i v) ∙ s i v

retain_open-same :
    (d : ℕ → RealConnection → Bool) (h : Heap) (ids : List ℕ)
    → Spares d h
    → (j : ℕ) → is_in_use (h j) ≡ true
    → (retain_open d h ids).heap j ≡ h j
unfolding retain_open
retain_open-same d h [] s j u = refl
retain_open-same d h (id ∷ ids) s j u = elim (Bool-cases (d id (h id))) [
  | inr e ↦ rw e (retain_open-same d h ids s j u)
  | inl e ↦
      let k = set_connection id (close (h id)) h in
      let f = spared d h s id e in
      rw e (
        retain_open-same d k ids (close-Spares d id h f s) j (close-in_use id h f j ∙ u)
        ∙ close-same id h f j u)
]

retain_open-stays :
    (d : ℕ → RealConnection → Bool) (h : Heap) (ids : List ℕ)
    → Spares d h
    → retain (λ i. is_in_use (h i)) (retain_open d h ids).kept ≡ retain (λ i. is_in_use (h i)) ids
unfolding retain_open retain
retain_open-stays d h [] s = refl
retain_open-stays d h (id ∷ ids) s = elim (Bool-cases (d id (h id))) [
  | inr e ↦ rw e (ground (arith, retain_open-stays d h ids s))
  | inl e ↦
      let k = set_connection id (close (h id)) h in
      let f = spared d h s id e in
      let ext = λ (xs : List ℕ).
        retain-ext (λ i. is_in_use (k i)) (λ i. is_in_use (h i)) xs (close-in_use id h f) in
      rw (e, f, retain)
        (sym (ext (retain_open d k ids).kept)
          ∙ retain_open-stays d k ids (close-Spares d id h f s)
          ∙ ext ids)
]

-- What a pass leaves: connections in use as they were and in place, and the dropped ones closed.
pub record IsSparing (h : Heap) (ids : List ℕ) (p : Pruned) : Type 0 where
  pub same : (j : ℕ) → is_in_use (h j) ≡ true → p.heap j ≡ h j
  pub stays : retain (λ i. is_in_use (h i)) p.kept ≡ retain (λ i. is_in_use (h i)) ids
  pub closes : Closes h p.heap
  pub dropped : All (λ j. is_closed (p.heap j) ≡ true) p.removed

retain_open-IsSparing :
    (d : ℕ → RealConnection → Bool) (h : Heap) (ids : List ℕ)
    → Spares d h
    → IsSparing h ids (retain_open d h ids)
retain_open-IsSparing d h ids s = record {
  same = retain_open-same d h ids s;
  stays = retain_open-stays d h ids s;
  closes = retain_open-Closes d h ids;
  dropped = retain_open-closed d h ids;
}

expired-Spares :
    (settings : PoolSettings) (now : ℕ) (h : Heap) → Spares (λ i c. is_expired settings now c) h
expired-Spares settings now h i u = elim (Bool-cases (is_expired settings now (h i))) [
  | inl e ↦ absurd (ground (arith, expired-free settings now (h i) e))
  | inr e ↦ e
]

enforce-IsSparing :
    (max_idle : ℕ) (h : Heap) (ids : List ℕ)
    → IsSparing h ids (enforce_max_idle_connections max_idle h ids)
unfolding enforce_max_idle_connections Closes
enforce-IsSparing max_idle h ids =
    let idle = idle_since h ids in
    let n = length idle - max_idle in
    let d = contains (take n (sort_by_since idle)) in
    elim (Bool-cases (max_idle == usize_max || leb (length idle) max_idle)) [
      | inl e ↦
          rw e (record { same = λ j u. refl; stays = refl; closes = λ j. inl refl; dropped = tt })
      | inr e ↦ rw e (
          retain_open-IsSparing (λ i c. d i) h ids
            (λ i u. elim (Bool-cases (d i)) [
              | inl f ↦ absurd (ground (arith, evicted-free n h ids i f))
              | inr f ↦ f
            ]))
    ]

-- A closed connection stays closed.
closed-Closes : (h k : Heap) (j : ℕ) → Closes h k → is_closed (h j) ≡ true → is_closed (k j) ≡ true
unfolding Closes
closed-Closes h k j c e = elim (c j) [
  | inl f ↦ rw f e
  | inr f ↦ rw f (let (a, b, c) = close-states (h j) in c)
]

-- A pass changes whether a connection is in use for none.
IsSparing-in_use :
    (h : Heap) (ids : List ℕ) (p : Pruned)
    → IsSparing h ids p
    → (i : ℕ) → is_in_use (p.heap i) ≡ is_in_use (h i)
unfolding Closes
IsSparing-in_use h ids p a i = elim (Bool-cases (is_in_use (h i))) [
  | inl e ↦ ap is_in_use (a.same i e)
  | inr e ↦ elim (a.closes i) [
    | inl f ↦ ap is_in_use f
    | inr f ↦ ap is_in_use f ∙ (close-states (h i)).0 ∙ sym e
  ]
]

-- Both passes together.
pub prune-IsSparing :
    (settings : PoolSettings) (now : ℕ) (h : Heap) (ids : List ℕ)
    → IsSparing h ids (prune_connections settings now h ids)
unfolding prune_connections
prune-IsSparing settings now h ids =
    let first = retain_open (λ i c. is_expired settings now c) h ids in
    let a =
      retain_open-IsSparing (λ i c. is_expired settings now c) h ids
        (expired-Spares settings now h) in
    let b = enforce-IsSparing settings.max_idle_per_address first.heap first.kept in
    let second = enforce_max_idle_connections settings.max_idle_per_address first.heap first.kept in
    record {
      same = λ j u. b.same j (ap is_in_use (a.same j u) ∙ u) ∙ a.same j u;
      stays =
          sym (
            retain-ext (λ i. is_in_use (first.heap i)) (λ i. is_in_use (h i)) second.kept
              (IsSparing-in_use h ids first a))
          ∙ b.stays
          ∙ retain-ext (λ i. is_in_use (first.heap i)) (λ i. is_in_use (h i)) first.kept
              (IsSparing-in_use h ids first a)
          ∙ a.stays;
      closes = Closes-trans h first.heap second.heap a.closes b.closes;
      dropped =
          All-append _ first.removed second.removed
            (All-map _ _ first.removed (λ j. closed-Closes first.heap second.heap j b.closes)
              a.dropped)
            b.dropped;
    }

-- With a limit that is not `usize::MAX`, pruning a bucket leaves every connection that carries an
-- exchange exactly as it was and in its place, what it takes out is closed, and no more connections
-- are left idle than `max_idle_per_address`.
pub prune_connections-IsSparing :
    (settings : PoolSettings) (now : ℕ) (h : Heap) (ids : List ℕ)
    → settings.max_idle_per_address ≢ usize_max
    → let p = prune_connections settings now h ids in
      IsSparing h ids p × (length (idle_since p.heap p.kept) ≤ settings.max_idle_per_address)
unfolding prune_connections
prune_connections-IsSparing settings now h ids ne =
    let first = retain_open (λ i c. is_expired settings now c) h ids in
    (
      prune-IsSparing settings now h ids,
      enforce-idle settings.max_idle_per_address first.heap first.kept ne,
    )
