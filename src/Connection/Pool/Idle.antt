-- ===== src/Connection/Pool/Idle.antt =====
-- How many idle connections `enforce_max_idle_connections` leaves, and which it evicts.
use openwire.Base.{
  ℕ, zero, suc, ◌+◌, ◌-◌, ◌≤◌, ◌≡◌, refl, ap, inl, inr, Bool, true, false, not, List, [], ◌∷◌, ◌++◌,
  leb, leb→le, leb→lt, ◌==◌, ==_iff, ==_self, All, length, take, drop, retain, length-retain-le,
  take-append-drop, length-drop, Bool-cases, arith, ◌≢◌, subst,
}
use openwire.Connection.RealConnection.{close}
use openwire.Connection.Pool.Prune.{
  usize_max, Heap, is_in_use, is_idle, retain_open, idle_since, insert_by_since, sort_by_since,
  contains, enforce_max_idle_connections,
}
use openwire.Connection.Pool.Bounds.{Closes, retain_open-Closes, retain_open-kept}

insert-retain :
    (p : ℕ × ℕ → Bool) (x : ℕ × ℕ) (xs : List (ℕ × ℕ))
    → length (retain p (insert_by_since x xs)) ≡ length (retain p (x ∷ xs))
unfolding insert_by_since retain
insert-retain p (i, t) [] = refl
insert-retain p (i, t) ((j, u) ∷ xs) = ground (arith, insert-retain p (i, t) xs)

sort-retain :
    (p : ℕ × ℕ → Bool) (xs : List (ℕ × ℕ))
    → length (retain p (sort_by_since xs)) ≡ length (retain p xs)
unfolding sort_by_since retain
sort-retain p [] = refl
sort-retain p (x ∷ xs) = ground (arith, insert-retain p x (sort_by_since xs), sort-retain p xs)

length-insert : (x : ℕ × ℕ) (xs : List (ℕ × ℕ)) → length (insert_by_since x xs) ≡ length xs + 1
unfolding insert_by_since
length-insert (i, t) [] = refl
length-insert (i, t) ((j, u) ∷ xs) = ground (arith, length-insert (i, t) xs)

length-sort : (xs : List (ℕ × ℕ)) → length (sort_by_since xs) ≡ length xs
unfolding sort_by_since
length-sort [] = refl
length-sort (x ∷ xs) = ground (arith, length-insert x (sort_by_since xs), length-sort xs)

retain-append :
    (p : ℕ × ℕ → Bool) (xs ys : List (ℕ × ℕ))
    → length (retain p (xs ++ ys)) ≡ length (retain p xs) + length (retain p ys)
unfolding retain
retain-append p [] ys = omega arith
retain-append p (x ∷ xs) ys = ground (arith, retain-append p xs ys)

-- None of the evicted is retained.
retain-evicted :
    (all xs : List (ℕ × ℕ))
    → ((i : ℕ) → contains xs i ≡ true → contains all i ≡ true)
    → length (retain (λ e. not (contains all e.0)) xs) ≡ 0
unfolding retain
retain-evicted all [] f = refl
retain-evicted all ((i, t) ∷ xs) f =
    rw (f i (ground (arith, ==_self i)), retain) (retain-evicted all xs (λ j h. f j (ground arith)))

-- The eviction of the `n` that have been idle for longest leaves the others.
evict-length :
    (n : ℕ) (xs : List (ℕ × ℕ))
    → length (retain (λ e. not (contains (take n (sort_by_since xs)) e.0)) xs) ≤ length xs - n
evict-length n xs =
    let s = sort_by_since xs in
    let p : ℕ × ℕ → Bool = λ e. not (contains (take n s) e.0) in
    omega (
      arith,
      sort-retain p xs,
      ap (λ l. length (retain p l)) (take-append-drop n s),
      retain-append p (take n s) (drop n s),
      retain-evicted (take n s) (take n s) (λ i h. h),
      length-retain-le p (drop n s),
      length-drop n s,
      length-sort xs,
    )

idle_since-Closes :
    (h k : Heap) (ids : List ℕ) → Closes h k → length (idle_since k ids) ≤ length (idle_since h ids)
unfolding idle_since Closes is_idle close
idle_since-Closes h k [] c = omega arith
idle_since-Closes h k (id ∷ ids) c = elim (c id) [
  | inl e ↦ ground (arith, idle_since-Closes h k ids c)
  | inr e ↦ ground (arith, idle_since-Closes h k ids c)
]

idle_since-retain :
    (d : ℕ → Bool) (h : Heap) (ids : List ℕ)
    → idle_since h (retain (λ i. not (d i)) ids) ≡ retain (λ e. not (d e.0)) (idle_since h ids)
unfolding idle_since retain
idle_since-retain d h [] = refl
idle_since-retain d h (id ∷ ids) = ground (arith, idle_since-retain d h ids)

-- What is evicted was idle.
insert-All :
    (P : ℕ × ℕ → Type 0) (x : ℕ × ℕ) (xs : List (ℕ × ℕ))
    → P x
    → All P xs
    → All P (insert_by_since x xs)
unfolding insert_by_since
insert-All P (i, t) [] hx h = (hx, tt)
insert-All P (i, t) ((j, u) ∷ xs) hx h = elim (Bool-cases (leb t u)) [
  | inl e ↦ rw e (hx, h)
  | inr e ↦ rw e (h.0, insert-All P (i, t) xs hx h.1)
]

sort-All : (P : ℕ × ℕ → Type 0) (xs : List (ℕ × ℕ)) → All P xs → All P (sort_by_since xs)
unfolding sort_by_since
sort-All P [] h = tt
sort-All P (x ∷ xs) h = insert-All P x (sort_by_since xs) h.0 (sort-All P xs h.1)

take-All : (P : ℕ × ℕ → Type 0) (n : ℕ) (xs : List (ℕ × ℕ)) → All P xs → All P (take n xs)
take-All P zero xs h = tt
take-All P (suc n) [] h = tt
take-All P (suc n) (x ∷ xs) h = (h.0, take-All P n xs h.1)

idle_since-All : (h : Heap) (ids : List ℕ) → All (λ e. is_in_use (h e.0) ≡ false) (idle_since h ids)
unfolding idle_since is_idle is_in_use
idle_since-All h [] = tt
idle_since-All h (id ∷ ids) = ground (arith, idle_since-All h ids)

contains-All :
    (P : ℕ → Type 0) (xs : List (ℕ × ℕ)) (i : ℕ) → All (λ e. P e.0) xs → contains xs i ≡ true → P i
contains-All P [] i h c = absurd (ground arith)
contains-All P ((j, t) ∷ xs) i h c = elim (Bool-cases (j == i)) [
  | inl e ↦ subst P ((==_iff j i).0 e) h.0
  | inr e ↦ contains-All P xs i h.1 (ground arith)
]

-- Whatever is evicted was idle, so it carried no exchange.
pub evicted-free :
    (n : ℕ) (h : Heap) (ids : List ℕ) (i : ℕ)
    → contains (take n (sort_by_since (idle_since h ids))) i ≡ true
    → is_in_use (h i) ≡ false
evicted-free n h ids i =
    contains-All (λ j. is_in_use (h j) ≡ false) (take n (sort_by_since (idle_since h ids))) i
      (take-All _ n _ (sort-All _ _ (idle_since-All h ids)))

limited : (max_idle : ℕ) → max_idle ≢ usize_max → (max_idle == usize_max) ≡ false
limited max_idle ne = elim (Bool-cases (max_idle == usize_max)) [
  | inl e ↦ absurd (ne ((==_iff max_idle usize_max).0 e))
  | inr e ↦ e
]

pub enforce-idle :
    (max_idle : ℕ) (h : Heap) (ids : List ℕ)
    → max_idle ≢ usize_max
    → let p = enforce_max_idle_connections max_idle h ids in
      length (idle_since p.heap p.kept) ≤ max_idle
unfolding enforce_max_idle_connections
enforce-idle max_idle h ids ne =
    let idle = idle_since h ids in
    let evicted = take (length idle - max_idle) (sort_by_since idle) in
    let d = contains evicted in
    let p = retain_open (λ i c. d i) h ids in
    elim (Bool-cases (leb (length idle) max_idle)) [
      | inl e ↦ rw (limited max_idle ne, e) (leb→le (length idle) max_idle e)
      | inr e ↦
          rw (limited max_idle ne, e)
            (omega (
              arith,
              idle_since-Closes h p.heap p.kept (retain_open-Closes (λ i c. d i) h ids),
              ap (λ l. length (idle_since h l)) (retain_open-kept d h ids),
              ap length (idle_since-retain d h ids),
              evict-length (length idle - max_idle) idle,
              leb→lt (length idle) max_idle e,
            ))
    ]
