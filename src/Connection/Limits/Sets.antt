-- ===== src/Connection/Limits/Sets.antt =====
-- crates/openwire/src/connection/limits.rs: the semaphores against the permits that are held.
use openwire.Base.{
  ℕ, suc, ◌+◌, ◌<◌, ◌≡◌, refl, sym, ◌∙◌, ap, subst, inl, inr, Bool, true, false, ◌&&◌, ◌||◌, List,
  [], ◌∷◌, Option, none, some, ltb, ◌==◌, if◌then◌else◌, length, Bool-cases, arith,
}
use openwire.Connection.Queue.{KeyEq}
use openwire.Connection.Limits.{
  usize_max, AddressSemaphore, AddressSemaphoreSet, ConnectionLimiter, is_free, take_one, give_one,
  set_semaphore, or_new, semaphore_for, try_acquire_address, drop_address_permit,
}

module _ {A : Type 0} (keys : KeyEq A) where
  open keys use {same, same_iff}

  -- The permits that an address holds, of a list of all that are held.
  abbrev pub held_by : A → List A → ℕ
  held_by a [] = 0
  held_by a (b ∷ held) = (if same b a then 1 else 0) + held_by a held

  -- One permit of an address is given back.
  unfoldable pub give_back : A → List A → List A
  give_back a [] = []
  give_back a (b ∷ held) = let rest = give_back a held in if same b a then held else b ∷ rest

  abbrev pub under : ℕ → ℕ → Bool
  under max n = (max == usize_max) || ltb n max

  -- The rule: fewer permits than either limit, where there is one.
  abbrev pub allowed : ℕ → ℕ → A → List A → Bool
  allowed max_total max_per_address a held =
      under max_per_address (held_by a held) && under max_total (length held)

  -- One counter against what is held of it.
  abbrev pub Counts : ℕ → Option ℕ → ℕ → Type 0
  Counts max none n = max ≡ usize_max
  Counts max (some available) n = ((max == usize_max) ≡ false) × (available + n ≡ max)

  abbrev Entry : ℕ → Option AddressSemaphore → ℕ → Type 0
  Entry limit none n = n ≡ 0
  Entry limit (some s) n = (s.available + n ≡ limit) × (s.holders ≡ n)

  abbrev pub Entries : ℕ → Option (AddressSemaphoreSet A) → List A → Type 0
  Entries max none held = max ≡ usize_max
  Entries max (some set) held =
      ((max == usize_max) ≡ false)
      × (set.limit ≡ max)
      × ((a : A) → Entry max (set.semaphores a) (held_by a held))

  abbrev pub Represents : ℕ → ℕ → ConnectionLimiter A → List A → Type 0
  Represents max_total max_per_address l held =
      Counts max_total l.global (length held) × Entries max_per_address l.per_address held

  same_self : (a : A) → same a a ≡ true
  same_self a = (same_iff a a).1 refl

  pub is_free_lem : (max n : ℕ) (g : Option ℕ) → Counts max g n → is_free g ≡ under max n
  is_free_lem max n none c = ground arith
  is_free_lem max n (some g) (e, c) = ground arith

  pub take_one-Counts :
      (max n : ℕ) (g : Option ℕ)
      → Counts max g n
      → is_free g ≡ true
      → Counts max (take_one g) (suc n)
  take_one-Counts max n none c f = c
  take_one-Counts max n (some g) (e, c) f = (e, ground arith)

  pub give_one-Counts :
      (max n m : ℕ) (g : Option ℕ) → Counts max g n → n ≡ 1 + m → Counts max (give_one g) m
  give_one-Counts max n m none c f = c
  give_one-Counts max n m (some g) (e, c) f = (e, omega arith)

  -- The semaphore of an address, in the map or new.
  or_new_lem :
      (max : ℕ) (o : Option AddressSemaphore) (n : ℕ)
      → Entry max o n
      → ((or_new max o).available + n ≡ max) × ((or_new max o).holders ≡ n)
  or_new_lem max none n e = (omega arith, sym e)
  or_new_lem max (some s) n e = e

  entry_at :
      (a b : A) (o : Option AddressSemaphore) (max : ℕ) (set : AddressSemaphoreSet A)
      (held kept : List A)
      → Entry max (set.semaphores b) (held_by b held)
      → (same a b ≡ false → held_by b kept ≡ held_by b held)
      → Entry max o (held_by a kept)
      → Entry max (if same a b then o else set.semaphores b) (held_by b kept)
  entry_at a b o max set held kept e f h = elim (Bool-cases (same a b)) [
    | inl q ↦ rw q (subst (λ x. Entry max o (held_by x kept)) ((same_iff a b).0 q) h)
    | inr q ↦ rw q (subst (λ n. Entry max (set.semaphores b) n) (sym (f q)) e)
  ]

  -- A set whose entry for one address has changed, against a list that has changed for that address.
  set_semaphore-Entries :
      (a : A) (o : Option AddressSemaphore) (max : ℕ) (set : AddressSemaphoreSet A)
      (held kept : List A)
      → Entries max (some set) held
      → ((b : A) → same a b ≡ false → held_by b kept ≡ held_by b held)
      → Entry max o (held_by a kept)
      → Entries max (some (set_semaphore keys a o set)) kept
  set_semaphore-Entries a o max set held kept (u, l, e) f h =
      (u, l, λ b. entry_at a b o max set held kept (e b) (f b) h)

  pub semaphore_of :
      (a : A) (max : ℕ) (set : AddressSemaphoreSet A) (held : List A)
      → Entries max (some set) held
      → ((semaphore_for keys a set).available + held_by a held ≡ max)
        × ((semaphore_for keys a set).holders ≡ held_by a held)
  semaphore_of a max set held (u, l, e) =
      rw l (or_new_lem max (set.semaphores a) (held_by a held) (e a))

  held_by_self : (a : A) (held : List A) → held_by a (a ∷ held) ≡ 1 + held_by a held
  held_by_self a held = rw (same_self a)

  held_by_other :
      (a b : A) (held : List A) → same a b ≡ false → held_by b (a ∷ held) ≡ held_by b held
  held_by_other a b held q = rw q (omega arith)

  pub acquire-Entries :
      (a : A) (max : ℕ) (set : AddressSemaphoreSet A) (held : List A)
      → Entries max (some set) held
      → ltb 0 (semaphore_for keys a set).available ≡ true
      → ((try_acquire_address keys a set).1 ≡ true)
        × Entries max (some (try_acquire_address keys a set).0) (a ∷ held)
  unfolding try_acquire_address
  acquire-Entries a max set held e f =
      let (n, h) = semaphore_of a max set held e in
      rw f (
        refl,
        set_semaphore-Entries a _ max set held (a ∷ held) e (λ b q. held_by_other a b held q)
            (rw (held_by_self a held) (ground arith, ground arith)),
      )

  pub refuse-Entries :
      (a : A) (max : ℕ) (set : AddressSemaphoreSet A) (held : List A)
      → Entries max (some set) held
      → ltb 0 (semaphore_for keys a set).available ≡ false
      → ((try_acquire_address keys a set).1 ≡ false)
        × Entries max (some (try_acquire_address keys a set).0) held
  unfolding try_acquire_address
  refuse-Entries a max set held e f = rw f (
    refl,
    set_semaphore-Entries a (some (semaphore_for keys a set)) max set held held e (λ b q. refl)
        (semaphore_of a max set held e),
  )

  -- `kept` is `held` without one permit of an address.
  abbrev pub LessOne : A → List A → List A → Type 0
  LessOne a held kept =
      (held_by a held ≡ 1 + held_by a kept)
      × ((b : A) → same a b ≡ false → held_by b kept ≡ held_by b held)
      × (length held ≡ 1 + length kept)

  pub drop-Entries :
      (a : A) (max : ℕ) (set : AddressSemaphoreSet A) (held kept : List A)
      → Entries max (some set) held
      → LessOne a held kept
      → Entries max (some (drop_address_permit keys a set)) kept
  unfolding drop_address_permit
  drop-Entries a max set held kept e (n, f, l) =
      let (s, h) = semaphore_of a max set held e in
      elim (Bool-cases (
        ((semaphore_for keys a set).available + 1 == set.limit)
        && ((semaphore_for keys a set).holders == 1))) [
          | inl q ↦ rw q (set_semaphore-Entries a none max set held kept e f (ground arith))
          | inr q ↦ rw q (
              set_semaphore-Entries a _ max set held kept e f
                (omega (arith, s, n), omega (arith, h, n)))
        ]

  pub cons-LessOne : (a : A) (held : List A) → LessOne a (a ∷ held) held
  cons-LessOne a held = (held_by_self a held, λ b q. sym (held_by_other a b held q), omega arith)

  positive_rest : {b : Bool} {n : ℕ} → b ≡ false → 0 < (if b then 1 else 0) + n → 0 < n
  positive_rest q h = ground (arith, q, h)

  pub give_back-LessOne :
      (a : A) (held : List A) → 0 < held_by a held → LessOne a held (give_back a held)
  unfolding give_back
  give_back-LessOne a [] h = absurd (omega arith)
  give_back-LessOne a (b ∷ held) h = elim (Bool-cases (same b a)) [
    | inl q ↦
        let e : b ≡ a = (same_iff b a).0 q in
        rw q (refl, λ c f. sym (rw (ap (λ x. same x c) e ∙ f) (omega arith)), omega arith)
    | inr q ↦
        let (n, f, l) = give_back-LessOne a held (positive_rest q h) in
        rw q (
          omega (arith, n, held_by_other b a (give_back a held) q),
          λ c g. ap (λ n. (if same b c then 1 else 0) + n) (f c g),
          omega (arith, l),
        )
  ]
