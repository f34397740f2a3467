-- ===== src/Connection/Pool/Bounds.antt =====
-- What pruning an address's bucket promises: what it may close, and how much idle it leaves.
use openwire.Base.{
  ℕ, ◌≡◌, refl, sym, ap, ◌⊎◌, inl, inr, Bool, true, false, not, List, [], ◌∷◌, ◌==◌, ==_iff,
  ==_self, All, retain, Bool-cases, arith,
}
use openwire.Connection.RealConnection.{RealConnection, close, is_closed}
use openwire.Connection.Pool.Prune.{
  PoolSettings, Heap, set_connection, is_in_use, is_idle, is_expired, idle_connection_expired,
  connection_lifetime_expired, retain_open,
}

-- Some of the connections have been closed, and nothing else has happened.
unfoldable pub Closes : Heap → Heap → Type 0
Closes h k = (j : ℕ) → (k j ≡ h j) ⊎ (k j ≡ close (h j))

pub close-close : (c : RealConnection) → close (close c) ≡ close c
unfolding close
close-close c = refl

pub Closes-trans : (h k l : Heap) → Closes h k → Closes k l → Closes h l
unfolding Closes
Closes-trans h k l a b j = ground (arith, a j, b j, close-close (h j))

set-Closes : (id : ℕ) (h : Heap) → Closes h (set_connection id (close (h id)) h)
unfolding Closes
set-Closes id h j = elim (Bool-cases (j == id)) [
  | inl e ↦ rw e (inr (ap (λ i. close (h i)) (sym ((==_iff j id).0 e))))
  | inr e ↦ rw e (inl refl)
]

pub retain_open-Closes :
    (d : ℕ → RealConnection → Bool) (h : Heap) (ids : List ℕ) → Closes h (retain_open d h ids).heap
unfolding retain_open Closes
retain_open-Closes d h [] = λ j. inl refl
retain_open-Closes d h (id ∷ ids) = elim (Bool-cases (d id (h id))) [
  | inl e ↦
      let k = set_connection id (close (h id)) h in
      rw e (Closes-trans h k _ (set-Closes id h) (retain_open-Closes d k ids))
  | inr e ↦ rw e (retain_open-Closes d h ids)
]

-- A closed connection is neither idle nor in use.
pub close-states :
    (c : RealConnection)
    → (is_in_use (close c) ≡ false) × (is_idle (close c) ≡ false) × (is_closed (close c) ≡ true)
unfolding close is_in_use is_idle
close-states c = (refl, refl, refl)

pub All-map :
    {A : Type 0} (P Q : A → Type 0) (xs : List A) → ((x : A) → P x → Q x) → All P xs → All Q xs
All-map P Q [] f h = tt
All-map P Q (x ∷ xs) f h = (f x h.0, All-map P Q xs f h.1)

-- What is dropped is closed.
pub retain_open-closed :
    (d : ℕ → RealConnection → Bool) (h : Heap) (ids : List ℕ)
    → let p = retain_open d h ids in All (λ j. is_closed (p.heap j) ≡ true) p.removed
unfolding retain_open Closes close
retain_open-closed d h [] = tt
retain_open-closed d h (id ∷ ids) = elim (Bool-cases (d id (h id))) [
  | inl e ↦
      let k = set_connection id (close (h id)) h in
      rw e (
        elim (retain_open-Closes d k ids id) [
          | inl f ↦ rw (f, ==_self id) refl
          | inr f ↦ rw f refl
        ],
        retain_open-closed d k ids,
      )
  | inr e ↦ rw e (retain_open-closed d h ids)
]

pub set_connection-other :
    (id j : ℕ) (c : RealConnection) (h : Heap) → (j == id) ≡ false → set_connection id c h j ≡ h j
set_connection-other id j c h e = rw e refl

-- An expired connection carries no exchange.
pub expired-free :
    (settings : PoolSettings) (now : ℕ) (c : RealConnection)
    → is_expired settings now c ≡ true
    → is_in_use c ≡ false
unfolding is_expired connection_lifetime_expired idle_connection_expired is_in_use is_idle
expired-free settings now c h = ground arith

-- By a test of the identifier alone, what is dropped passes it, and what is kept is the rest.
pub retain_open-drops :
    (d : ℕ → Bool) (h : Heap) (ids : List ℕ)
    → All (λ j. d j ≡ true) (retain_open (λ i c. d i) h ids).removed
unfolding retain_open
retain_open-drops d h [] = tt
retain_open-drops d h (id ∷ ids) = elim (Bool-cases (d id)) [
  | inl e ↦ rw e (e, retain_open-drops d (set_connection id (close (h id)) h) ids)
  | inr e ↦ rw e (retain_open-drops d h ids)
]

pub retain_open-kept :
    (d : ℕ → Bool) (h : Heap) (ids : List ℕ)
    → (retain_open (λ i c. d i) h ids).kept ≡ retain (λ i. not (d i)) ids
unfolding retain_open retain
retain_open-kept d h [] = refl
retain_open-kept d h (id ∷ ids) = elim (Bool-cases (d id)) [
  | inl e ↦ rw (e, retain) (retain_open-kept d (set_connection id (close (h id)) h) ids)
  | inr e ↦ rw (e, retain) (ap (λ l. id ∷ l) (retain_open-kept d h ids))
]
