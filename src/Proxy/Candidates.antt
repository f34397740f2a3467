-- ===== src/Proxy/Candidates.antt =====
-- crates/openwire/src/proxy.rs: the candidates of a selection, each once, with the one of the last
-- attempt in front.
use mathlib.Core.List.Perm
use mathlib.Core.List.{Perm}
use openwire.Base.{
  ◌≡◌, refl, sym, ◌∙◌, inl, inr, Bool, true, false, not, ◌&&◌, ◌||◌, List, [], ◌∷◌, ◌++◌, Option,
  none, some, any, if◌then◌else◌, Bool-cases, arith,
}
use openwire.Connection.Equality.{option_eq, credentials_eq}
use openwire.Proxy.Rules.{
  ProxyUrls, ProxyIntercept, http, https, all_schemes, Proxy, SelectedProxy, ProxyChoice,
  connect_directly, through,
}

unfoldable pub intercept_eq : ProxyIntercept → ProxyIntercept → Bool
intercept_eq http http = true
intercept_eq https https = true
intercept_eq all_schemes all_schemes = true
intercept_eq _ _ = false

abbrev pub selected_of : {R : Type 0} → Proxy R → SelectedProxy R
selected_of proxy = record {
  target = proxy.target;
  intercept = proxy.intercept;
  credentials = proxy.credentials;
}

abbrev pub candidate_of : {R : Type 0} → ProxyChoice R → Option (SelectedProxy R)
candidate_of connect_directly = none
candidate_of (through proxy) = some (selected_of proxy)

abbrev keep_front : {A : Type 0} → A → Option (A × List A) → Option (A × List A)
keep_front x none = none
keep_front x (some (y, ys)) = some (y, x ∷ ys)

-- The first element that passes a test, and the others in their order.
unfoldable pub take_first : {A : Type 0} → (A → Bool) → List A → Option (A × List A)
take_first p [] = none
take_first p (x ∷ xs) =
    let rest = take_first p xs in if p x then some (x, xs) else keep_front x rest

any-append :
    {A : Type 0} (p : A → Bool) (xs : List A) (y : A) → any p (xs ++ (y ∷ [])) ≡ any p xs || p y
any-append p [] y = ground arith
any-append p (x ∷ xs) y = ground (arith, any-append p xs y)

-- What `take_first` gives: the elements are the same, and the one in front passes.
abbrev Removed : {A : Type 0} → (A → Bool) → List A → Option (A × List A) → Type 0
Removed p xs none = any p xs ≡ false
Removed p xs (some (y, ys)) = Perm (y ∷ ys) xs × (p y ≡ true) × (any p xs ≡ true)

keep_front-Removed :
    {A : Type 0} (p : A → Bool) (x : A) (xs : List A) (o : Option (A × List A))
    → p x ≡ false
    → Removed p xs o
    → Removed p (x ∷ xs) (keep_front x o)
keep_front-Removed p x xs none e r = ground arith
keep_front-Removed p x xs (some (y, ys)) e (r, h, t) =
    (Perm.trans (Perm.swap x y ys) (Perm.cons x r), h, ground arith)

take_first-Removed : {A : Type 0} (p : A → Bool) (xs : List A) → Removed p xs (take_first p xs)
unfolding take_first
take_first-Removed p [] = refl
take_first-Removed p (x ∷ xs) = elim (Bool-cases (p x)) [
  | inl e ↦ rw e (Perm.refl (x ∷ xs), e, ground arith)
  | inr e ↦ rw e (keep_front-Removed p x xs (take_first p xs) e (take_first-Removed p xs))
]

-- Whether a list begins with what passes a test.
abbrev pub begins_with : {A : Type 0} → (A → Bool) → List A → Bool
begins_with p [] = false
begins_with p (x ∷ xs) = p x

not_in_front :
    {A : Type 0} (p : A → Bool) (xs : List A) → any p xs ≡ false → begins_with p xs ≡ false
not_in_front p [] h = refl
not_in_front p (x ∷ xs) h = ground arith

abbrev in_front : {A : Type 0} → List A → Option (A × List A) → List A
in_front xs none = xs
in_front xs (some (y, ys)) = y ∷ ys

front_first :
    {A : Type 0} (p : A → Bool) (xs : List A) (o : Option (A × List A))
    → Removed p xs o
    → Perm (in_front xs o) xs × (begins_with p (in_front xs o) ≡ any p xs)
front_first p xs none r = (Perm.refl xs, not_in_front p xs r ∙ sym r)
front_first p xs (some (y, ys)) (r, h, t) = (r, h ∙ sym t)

module _ {R : Type 0} (urls : ProxyUrls R) where
  open urls use {same_url}

  -- `same_endpoint`.
  unfoldable pub same_endpoint : SelectedProxy R → SelectedProxy R → Bool
  unfolding option_eq credentials_eq
  same_endpoint a b =
      same_url a.target b.target && option_eq credentials_eq a.credentials b.credentials

  unfoldable pub candidate_eq : Option (SelectedProxy R) → Option (SelectedProxy R) → Bool
  unfolding same_endpoint intercept_eq
  candidate_eq none none = true
  candidate_eq none (some b) = false
  candidate_eq (some a) none = false
  candidate_eq (some a) (some b) = intercept_eq a.intercept b.intercept && same_endpoint a b

  unfoldable pub unique_candidates :
      List (ProxyChoice R) → List (Option (SelectedProxy R)) → List (Option (SelectedProxy R))
  unfolding candidate_eq
  unique_candidates [] candidates = candidates
  unique_candidates (choice ∷ choices) candidates = unique_candidates choices (
      if any (λ c. candidate_eq c (candidate_of choice)) candidates
      then candidates
      else candidates ++ (candidate_of choice ∷ []))

  abbrev pub or_none : List (Option (SelectedProxy R)) → List (Option (SelectedProxy R))
  or_none [] = none ∷ []
  or_none (c ∷ cs) = c ∷ cs

  abbrev pub has_endpoint : SelectedProxy R → Option (SelectedProxy R) → Bool
  has_endpoint sticky none = false
  has_endpoint sticky (some candidate) = same_endpoint candidate sticky

  unfoldable pub sticky_first :
      Option (SelectedProxy R) → List (Option (SelectedProxy R)) → List (Option (SelectedProxy R))
  unfolding take_first same_endpoint
  sticky_first none candidates = candidates
  sticky_first (some sticky) candidates =
      in_front candidates (take_first (has_endpoint sticky) candidates)

  -- `resolved_proxy_candidates_with_sticky`.
  unfoldable pub resolved_proxy_candidates :
      List (ProxyChoice R) → Option (SelectedProxy R) → List (Option (SelectedProxy R))
  unfolding unique_candidates sticky_first
  resolved_proxy_candidates selection sticky =
      sticky_first sticky (or_none (unique_candidates selection []))

  -- No candidate stands twice.
  unfoldable pub distinct : List (Option (SelectedProxy R)) → Bool
  unfolding candidate_eq
  distinct [] = true
  distinct (c ∷ cs) = not (any (candidate_eq c) cs) && distinct cs

  distinct-append :
      (cs : List (Option (SelectedProxy R))) (c : Option (SelectedProxy R))
      → distinct cs ≡ true
      → any (λ x. candidate_eq x c) cs ≡ false
      → distinct (cs ++ (c ∷ [])) ≡ true
  unfolding distinct
  distinct-append [] c d h = refl
  distinct-append (x ∷ cs) c d h =
      ground (arith, distinct-append cs c, any-append (candidate_eq x) cs c)

  unique_candidates-distinct :
      (choices : List (ProxyChoice R)) (candidates : List (Option (SelectedProxy R)))
      → distinct candidates ≡ true
      → distinct (unique_candidates choices candidates) ≡ true
  unfolding unique_candidates
  unique_candidates-distinct [] candidates d = d
  unique_candidates-distinct (choice ∷ choices) candidates d =
      unique_candidates-distinct choices _
        (elim (Bool-cases (any (λ c. candidate_eq c (candidate_of choice)) candidates)) [
          | inl e ↦ rw e d
          | inr e ↦ rw e (distinct-append candidates (candidate_of choice) d e)
        ])

  distinct_none : distinct [] ≡ true
  unfolding distinct
  distinct_none = refl

  or_none-distinct :
      (cs : List (Option (SelectedProxy R))) → distinct cs ≡ true → distinct (or_none cs) ≡ true
  unfolding distinct
  or_none-distinct [] d = refl
  or_none-distinct (c ∷ cs) d = d

  -- The candidates for an attempt are those of the selection, each once, or a direct connection where
  -- the selection has none; if any of them has the endpoint of the last attempt, the first one has it.
  pub resolved_proxy_candidates-perm :
      (selection : List (ProxyChoice R)) (sticky : SelectedProxy R)
      → let candidates = or_none (unique_candidates selection []) in
        Perm (resolved_proxy_candidates selection (some sticky)) candidates
        × (distinct candidates ≡ true)
        × (begins_with (has_endpoint sticky) (resolved_proxy_candidates selection (some sticky))
            ≡ any (has_endpoint sticky) candidates)
  unfolding resolved_proxy_candidates sticky_first
  resolved_proxy_candidates-perm selection sticky =
      let candidates = or_none (unique_candidates selection []) in
      let (perm, front) =
        front_first (has_endpoint sticky) candidates (take_first (has_endpoint sticky) candidates)
          (take_first-Removed (has_endpoint sticky) candidates) in
      (
        perm,
        or_none-distinct (unique_candidates selection [])
            (unique_candidates-distinct selection [] distinct_none),
        front,
      )
