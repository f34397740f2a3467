-- ===== src/Connection/Scheduler/Permits.antt =====
-- The requests that run: those that hold a permit of the scheduler, and the waiters that have been
-- admitted and have not yet fetched theirs. Neither is more than the counters of the scheduler say.
use openwire.Base.{
  ℕ, ◌+◌, ◌≤◌, ◌≡◌, refl, sym, ap, ◌∙◌, Bool, true, false, List, [], ◌∷◌, ◌++◌, some, arith,
  Bool-cases, inl, inr, if◌then◌else◌, ◌==◌, ◌&&◌,
}
use openwire.Connection.Queue.{
  KeyEq, Waiter, GlobalState, Limits, slab_get, slab_set, slab_remove, Poll, pending, ready,
  Admission, permit, queue_full,
}
use openwire.Connection.Scheduler.{bump_address_running, drop_address_running}

-- How many of a list satisfy a test.
unfoldable pub count : {B : Type 0} → (B → Bool) → List B → ℕ
count p [] = 0
count p (x ∷ xs) = (if p x then 1 else 0) + count p xs

pub count-append_one :
    {B : Type 0} (p : B → Bool) (xs ys : List B) (x : B)
    → count p (xs ++ (x ∷ ys)) ≡ (if p x then 1 else 0) + count p (xs ++ ys)
unfolding count
count-append_one p [] ys x = refl
count-append_one p (z ∷ xs) ys x = omega (arith, count-append_one p xs ys x)

module _ {A : Type 0} where
  -- An admitted waiter of the slab whose address passes a test.
  abbrev pub is_admitted : (A → Bool) → ℕ × Waiter A → Bool
  is_admitted p (id, w) = w.admitted && p w.address

  -- The requests that run, of those whose address passes a test.
  abbrev pub running : (A → Bool) → List A → GlobalState A → ℕ
  running p held g = count p held + count (is_admitted p) g.waiters

  -- What the outcome of a poll adds to the permits held.
  abbrev pub with_permit : Poll (Admission A) → List A → List A
  with_permit pending held = held
  with_permit (ready (permit a)) held = a ∷ held
  with_permit (ready queue_full) held = held

  pub count-slab_set :
      (p : A → Bool) (id : ℕ) (v w : Waiter A) (slab : List (ℕ × Waiter A))
      → v.address ≡ w.address
      → count (is_admitted p) (slab_set id v slab)
        ≤ count (is_admitted p) slab + (if p w.address then 1 else 0)
  unfolding count slab_set
  count-slab_set p id v w [] e = omega arith
  count-slab_set p id v w ((k, u) ∷ slab) e =
      let rest = count-slab_set p id v w slab e in ground (arith, rest)

  pub count-slab_remove :
      (p : A → Bool) (id : ℕ) (w : Waiter A) (slab : List (ℕ × Waiter A))
      → slab_get id slab ≡ some w
      → count (is_admitted p) slab
        ≡ (if w.admitted && p w.address then 1 else 0) + count (is_admitted p) (slab_remove id slab)
  unfolding count slab_get slab_remove
  count-slab_remove p id w [] e = absurd (ground arith)
  count-slab_remove p id w ((k, u) ∷ slab) e = elim (Bool-cases (k == id)) [
    | inl f ↦ let g : u ≡ w = ground arith in rw (f, g) refl
    | inr f ↦
        let g : slab_get id slab ≡ some w = ground arith in
        rw f (omega (arith, count-slab_remove p id w slab g))
  ]

  -- A waiter set in its place with the same mark.
  pub count-slab_same :
      (p : A → Bool) (id : ℕ) (v w : Waiter A) (slab : List (ℕ × Waiter A))
      → slab_get id slab ≡ some w
      → v.address ≡ w.address
      → v.admitted ≡ w.admitted
      → count (is_admitted p) (slab_set id v slab) ≡ count (is_admitted p) slab
  unfolding count slab_get slab_set
  count-slab_same p id v w [] e a m = refl
  count-slab_same p id v w ((k, u) ∷ slab) e a m = elim (Bool-cases (k == id)) [
    | inl f ↦ let g : u ≡ w = ground arith in rw (f, g, a, m) refl
    | inr f ↦
        let g : slab_get id slab ≡ some w = ground arith in
        rw f (omega (arith, count-slab_same p id v w slab g a m))
  ]

module _ {A : Type 0} (keys : KeyEq A) (limits : Limits) where
  open keys use {same, same_iff}

  abbrev one_if : Bool → ℕ
  one_if b = if b then 1 else 0

  same_sym : (a b : A) → same a b ≡ same b a
  same_sym a b =
      let (c, d) = same_iff a b in
      let (e, f) = same_iff b a in
      elim (Bool-cases (same a b)) [
        | inl g ↦ g ∙ sym (f (sym (c g)))
        | inr g ↦ elim (Bool-cases (same b a)) [
          | inl h ↦ absurd (cc (g, d (sym (e h))))
          | inr h ↦ g ∙ sym h
        ]
      ]

  -- The counters are not below the requests that run, in all and for each address.
  pub record IsCounted (held : List A) (waiters : List (ℕ × Waiter A)) (total : ℕ) (each : A → ℕ)
      : Type 0 where
    pub in_all : count (λ _. true) held + count (is_admitted (λ _. true)) waiters ≤ total
    pub at_each : (a : A) → count (same a) held + count (is_admitted (same a)) waiters ≤ each a

  abbrev pub Counted : List A → GlobalState A → Type 0
  Counted held g = IsCounted held g.waiters g.global_running g.address_running

  -- As many requests run as before.
  pub keeps :
      (held more : List A) (waiters others : List (ℕ × Waiter A)) (n : ℕ) (f : A → ℕ)
      → ((p : A → Bool)
          → count p more + count (is_admitted p) others
            ≤ count p held + count (is_admitted p) waiters)
      → IsCounted held waiters n f
      → IsCounted more others n f
  keeps held more waiters others n f h k = record {
    in_all = omega (arith, h (λ _. true), k.in_all);
    at_each = λ a. omega (arith, h (same a), k.at_each a);
  }

  -- One more runs, and is counted.
  pub counts_up :
      (held more : List A) (waiters others : List (ℕ × Waiter A)) (g : GlobalState A) (a : A)
      → ((p : A → Bool)
          → count p more + count (is_admitted p) others
            ≤ count p held + count (is_admitted p) waiters + one_if (p a))
      → IsCounted held waiters g.global_running g.address_running
      → let c = bump_address_running keys limits a g in
        IsCounted more others c.global_running c.address_running
  unfolding bump_address_running
  counts_up held more waiters others g a h k = record {
    in_all = omega (arith, h (λ _. true), k.in_all);
    at_each = λ b. elim (Bool-cases (same a b)) [
      | inl e ↦
          let i : a ≡ b = (same_iff a b).0 e in
          let j : same b a ≡ true = sym (same_sym a b) ∙ e in
          rw (e, ap g.address_running i) (omega (arith, h (same b), k.at_each b, ap one_if j))
      | inr e ↦
          let j : same b a ≡ false = sym (same_sym a b) ∙ e in
          rw e (omega (arith, h (same b), k.at_each b, ap one_if j))
    ];
  }

  -- One fewer runs, and is counted off.
  pub counts_down :
      (held fewer : List A) (waiters others : List (ℕ × Waiter A)) (g : GlobalState A) (a : A)
      → ((p : A → Bool)
          → count p held + count (is_admitted p) waiters
            ≡ one_if (p a) + (count p fewer + count (is_admitted p) others))
      → IsCounted held waiters g.global_running g.address_running
      → let c = drop_address_running keys limits a g in
        IsCounted fewer others c.global_running c.address_running
  unfolding drop_address_running
  counts_down held fewer waiters others g a h k = record {
    in_all = omega (arith, h (λ _. true), k.in_all);
    at_each = λ b. elim (Bool-cases (same a b)) [
      | inl e ↦
          let i : a ≡ b = (same_iff a b).0 e in
          let j : same b a ≡ true = sym (same_sym a b) ∙ e in
          rw (e, ap g.address_running i) (omega (arith, h (same b), k.at_each b, ap one_if j))
      | inr e ↦
          let j : same b a ≡ false = sym (same_sym a b) ∙ e in
          rw e (omega (arith, h (same b), k.at_each b, ap one_if j))
    ];
  }
