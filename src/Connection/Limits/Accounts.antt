-- ===== src/Connection/Limits/Accounts.antt =====
-- crates/openwire/src/connection/limits.rs: the limiter as an account of the permits that are held.
use openwire.Base.{
  ℕ, ◌<◌, ◌≡◌, refl, sym, ◌∙◌, inl, inr, Bool, true, false, List, [], ◌∷◌, Option, none, some, ltb,
  ◌==◌, length, Bool-cases, arith,
}
use openwire.Connection.Queue.{KeyEq}
use openwire.Connection.Limits.{
  usize_max, AddressSemaphoreSet, ConnectionLimiter, connection_limiter, limit_semaphore,
  address_semaphore_set, is_free, semaphore_for, try_acquire_address, then_global,
  try_acquire_connection, drop_connection_permit,
}
use openwire.Connection.Limits.Sets.{
  held_by, give_back, under, allowed, Counts, Entries, Represents, is_free_lem, take_one-Counts,
  give_one-Counts, semaphore_of, acquire-Entries, refuse-Entries, LessOne, drop-Entries,
  cons-LessOne, give_back-LessOne,
}

module _ {A : Type 0} (keys : KeyEq A) where
  open keys use {same, same_iff}

  -- A limiter that has come about by attempts and drops, with the permits that are held.
  pub data Reachable (max_total max_per_address : ℕ) : ConnectionLimiter A → List A → Type 0 where
    starts : Reachable max_total max_per_address (connection_limiter max_total max_per_address) []
    acquires :
        {l : ConnectionLimiter A} {held : List A} (a : A)
        → Reachable max_total max_per_address l held
        → (try_acquire_connection keys a l).1 ≡ true
        → Reachable max_total max_per_address (try_acquire_connection keys a l).0 (a ∷ held)
    is_refused :
        {l : ConnectionLimiter A} {held : List A} (a : A)
        → Reachable max_total max_per_address l held
        → (try_acquire_connection keys a l).1 ≡ false
        → Reachable max_total max_per_address (try_acquire_connection keys a l).0 held
    drops :
        {l : ConnectionLimiter A} {held : List A} (a : A)
        → Reachable max_total max_per_address l held
        → 0 < held_by keys a held
        → Reachable max_total max_per_address
            (drop_connection_permit keys a l)
            (give_back keys a held)

  -- What an attempt leaves, by its result.
  abbrev After : ℕ → ℕ → A → List A → ConnectionLimiter A × Bool → Type 0
  After max_total max_per_address a held (l, true) =
      Represents keys max_total max_per_address l (a ∷ held)
  After max_total max_per_address a held (l, false) =
      Represents keys max_total max_per_address l held

  granted-After :
      (t m : ℕ) (a : A) (l : ConnectionLimiter A) (result : AddressSemaphoreSet A × Bool)
      (held : List A)
      → result.1 ≡ true
      → Counts keys t l.global (length held)
      → Entries keys m (some result.0) (a ∷ held)
      → After t m a held (then_global keys a l result)
        × ((then_global keys a l result).1 ≡ under keys t (length held))
  granted-After t m a l (set, false) held r c e = absurd (ground arith)
  granted-After t m a l (set, true) held r c e = elim (Bool-cases (is_free l.global)) [
    | inl f ↦ rw f (
      (take_one-Counts keys t (length held) l.global c f, e),
      sym f ∙ is_free_lem keys t (length held) l.global c,
    )
    | inr f ↦ rw f (
      (c, drop-Entries keys a m set (a ∷ held) held e (cons-LessOne keys a held)),
      sym f ∙ is_free_lem keys t (length held) l.global c,
    )
  ]

  refused-After :
      (t m : ℕ) (a : A) (l : ConnectionLimiter A) (result : AddressSemaphoreSet A × Bool)
      (held : List A)
      → result.1 ≡ false
      → Counts keys t l.global (length held)
      → Entries keys m (some result.0) held
      → After t m a held (then_global keys a l result) × ((then_global keys a l result).1 ≡ false)
  refused-After t m a l (set, true) held r c e = absurd (ground arith)
  refused-After t m a l (set, false) held r c e = ((c, e), refl)

  under_entry :
      (a : A) (m : ℕ) (set : AddressSemaphoreSet A) (held : List A)
      → Entries keys m (some set) held
      → ltb 0 (semaphore_for keys a set).available ≡ under keys m (held_by keys a held)
  under_entry a m set held e =
      let (n, h) = semaphore_of keys a m set held e in rw e.0 (ground arith)

  acquire-After :
      (t m : ℕ) (a : A) (l : ConnectionLimiter A) (p : Option (AddressSemaphoreSet A))
      (held : List A)
      → l.per_address ≡ p
      → Counts keys t l.global (length held)
      → Entries keys m p held
      → After t m a held (try_acquire_connection keys a l)
        × ((try_acquire_connection keys a l).1 ≡ allowed keys t m a held)
  unfolding try_acquire_connection
  acquire-After t m a l none held q c e =
      let u : under keys m (held_by keys a held) ≡ true = ground arith in
      let w = is_free_lem keys t (length held) l.global c in
      elim (Bool-cases (is_free l.global)) [
        | inl f ↦ rw (q, f, u) ((take_one-Counts keys t (length held) l.global c f, e), sym f ∙ w)
        | inr f ↦ rw (q, f, u) ((c, e), sym f ∙ w)
      ]
  acquire-After t m a l (some set) held q c e =
      elim (Bool-cases (ltb 0 (semaphore_for keys a set).available)) [
        | inl f ↦
            let (r, e2) = acquire-Entries keys a m set held e f in
            let u : under keys m (held_by keys a held) ≡ true =
              sym (under_entry a m set held e) ∙ f in
            rw (q, u) (granted-After t m a l (try_acquire_address keys a set) held r c e2)
        | inr f ↦
            let (r, e2) = refuse-Entries keys a m set held e f in
            let u : under keys m (held_by keys a held) ≡ false =
              sym (under_entry a m set held e) ∙ f in
            rw (q, u) (refused-After t m a l (try_acquire_address keys a set) held r c e2)
      ]

  After-true :
      (t m : ℕ) (a : A) (held : List A) (result : ConnectionLimiter A × Bool)
      → result.1 ≡ true
      → After t m a held result
      → Represents keys t m result.0 (a ∷ held)
  After-true t m a held (l, true) h r = r
  After-true t m a held (l, false) h r = absurd (ground arith)

  After-false :
      (t m : ℕ) (a : A) (held : List A) (result : ConnectionLimiter A × Bool)
      → result.1 ≡ false
      → After t m a held result
      → Represents keys t m result.0 held
  After-false t m a held (l, true) h r = absurd (ground arith)
  After-false t m a held (l, false) h r = r

  limit_semaphore-Counts : (max : ℕ) → Counts keys max (limit_semaphore max) 0
  unfolding limit_semaphore
  limit_semaphore-Counts max = elim (Bool-cases (max == usize_max)) [
    | inl e ↦ rw e (ground arith)
    | inr e ↦ rw e (e, omega arith)
  ]

  address_semaphore_set-Entries : (max : ℕ) → Entries keys max (address_semaphore_set max) []
  unfolding address_semaphore_set
  address_semaphore_set-Entries max = elim (Bool-cases (max == usize_max)) [
    | inl e ↦ rw e (ground arith)
    | inr e ↦ rw e (e, refl, λ a. refl)
  ]

  drop-Represents :
      (t m : ℕ) (a : A) (g : Option ℕ) (p : Option (AddressSemaphoreSet A)) (held kept : List A)
      → LessOne keys a held kept
      → Counts keys t g (length held)
      → Entries keys m p held
      → Represents keys t m
          (drop_connection_permit keys a (record { global = g; per_address = p }))
          kept
  unfolding drop_connection_permit
  drop-Represents t m a g none held kept less c e =
      (give_one-Counts keys t (length held) (length kept) g c less.2, e)
  drop-Represents t m a g (some set) held kept less c e = (
    give_one-Counts keys t (length held) (length kept) g c less.2,
    drop-Entries keys a m set held kept e less,
  )

  Reachable-Represents :
      (t m : ℕ) {l : ConnectionLimiter A} {held : List A}
      → Reachable t m l held
      → Represents keys t m l held
  unfolding connection_limiter
  Reachable-Represents t m starts = (limit_semaphore-Counts t, address_semaphore_set-Entries m)
  Reachable-Represents t m (acquires {l} {held} a r h) =
      let (c, e) = Reachable-Represents t m r in
      After-true t m a held (try_acquire_connection keys a l) h
        (acquire-After t m a l l.per_address held refl c e).0
  Reachable-Represents t m (is_refused {l} {held} a r h) =
      let (c, e) = Reachable-Represents t m r in
      After-false t m a held (try_acquire_connection keys a l) h
        (acquire-After t m a l l.per_address held refl c e).0
  Reachable-Represents t m (drops {l} {held} a r h) =
      let (c, e) = Reachable-Represents t m r in
      drop-Represents t m a l.global l.per_address held (give_back keys a held)
        (give_back-LessOne keys a held h) c e

  -- However attempts and drops come, an attempt for an address succeeds exactly while the address holds
  -- fewer permits than its limit and all addresses together hold fewer than the total, where these
  -- limits are set: a permit that is dropped, or taken in vain, is given back in full.
  pub try_acquire_connection-allowed :
      (max_total max_per_address : ℕ) (l : ConnectionLimiter A) (held : List A) (a : A)
      → Reachable max_total max_per_address l held
      → (try_acquire_connection keys a l).1 ≡ allowed keys max_total max_per_address a held
  try_acquire_connection-allowed t m l held a r =
      let (c, e) = Reachable-Represents t m r in
      (acquire-After t m a l l.per_address held refl c e).1
