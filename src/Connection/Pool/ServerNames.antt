-- ===== src/Connection/Pool/ServerNames.antt =====
-- crates/openwire/src/connection/mod.rs: the hosts that a verified name lets a connection serve.
use openwire.Base.{
  ℕ, ◌-◌, ◌≡◌, refl, sym, ap, ap₂, subst, ◌∙◌, ◌⊎◌, inl, inr, true, false, ◌&&◌, List, [], ◌∷◌,
  ◌++◌, some, any, length, take, drop, take-append-drop, length-append, take-append_length,
  drop-append_length, leb, ◌==◌, ==_iff, Bool-cases, Option-cases, le→leb, arith, append_assoc,
}
use openwire.Text.{text_eq, text_eq_sound, text_eq_self, strip_suffix}
use openwire.Connection.Pool.Coalescing.{
  strip_wildcard, is_label, wildcard_matches, verified_server_name_matches,
}

-- One label: no dot, before the dot that ends it.
abbrev pub HasNoDot : List ℕ → Type 0
HasNoDot label = any (λ c. c == b'.') label ≡ false

is_label_sound :
    (p : List ℕ)
    → is_label p ≡ true
    → (label : List ℕ) × (p ≡ label ++ (b'.' ∷ [])) × HasNoDot label
unfolding is_label
is_label_sound [] h = absurd (ground arith)
is_label_sound (c ∷ []) h = ([], ap (λ d. d ∷ []) ((==_iff c b'.').0 h), refl)
is_label_sound (c ∷ d ∷ cs) h =
    let (label, e, f) = is_label_sound (d ∷ cs) (ground arith) in
    (c ∷ label, ap (λ l. c ∷ l) e, ground arith)

is_label_complete : (label : List ℕ) → HasNoDot label → is_label (label ++ (b'.' ∷ [])) ≡ true
unfolding is_label
is_label_complete [] h = refl
is_label_complete (c ∷ []) h = ground arith
is_label_complete (c ∷ d ∷ label) h = ground (arith, is_label_complete (d ∷ label) (ground arith))

strip_suffix_sound :
    (suffix host prefix : List ℕ) → strip_suffix suffix host ≡ some prefix → host ≡ prefix ++ suffix
unfolding strip_suffix
strip_suffix_sound suffix host prefix h =
    let n = length host - length suffix in
    elim (Bool-cases (leb (length suffix) (length host) && text_eq (drop n host) suffix)) [
      | inl e ↦
          let t : take n host ≡ prefix = ground arith in
          sym (take-append-drop n host)
          ∙ ap₂ (λ a b. a ++ b) t (text_eq_sound (drop n host) suffix (ground arith))
      | inr e ↦ absurd (ground arith)
    ]

strip_suffix-append :
    (prefix suffix : List ℕ) → strip_suffix suffix (prefix ++ suffix) ≡ some prefix
unfolding strip_suffix
strip_suffix-append prefix suffix =
    let n : length (prefix ++ suffix) - length suffix ≡ length prefix =
      omega (arith, length-append prefix suffix) in
    let t = take-append_length _ prefix suffix n in
    let d = drop-append_length _ prefix suffix n in
    rw
      (
        le→leb (length suffix) (length (prefix ++ suffix))
            (omega (arith, length-append prefix suffix)),
        d,
        text_eq_self suffix,
        t,
      )
      refl

-- A host that a wildcard name matches is the name itself, or puts one label without a dot, and a dot,
-- before the name's suffix.
pub verified_server_name_matches-wildcard :
    (suffix host : List ℕ)
    → verified_server_name_matches (b'*' ∷ b'.' ∷ suffix) host ≡ true
    → (host ≡ b'*' ∷ b'.' ∷ suffix)
      ⊎ ((label : List ℕ) × (host ≡ label ++ b'.' ∷ suffix) × HasNoDot label)
unfolding verified_server_name_matches strip_wildcard wildcard_matches
verified_server_name_matches-wildcard suffix host h =
    elim (Bool-cases (text_eq (b'*' ∷ b'.' ∷ suffix) host)) [
      | inl e ↦ inl (sym (text_eq_sound (b'*' ∷ b'.' ∷ suffix) host e))
      | inr e ↦ elim (Option-cases (strip_suffix suffix host)) [
        | inl f ↦ absurd (ground arith)
        | inr (prefix, f) ↦
            let (label, g, d) = is_label_sound prefix (ground arith) in
            inr (
              label,
              strip_suffix_sound suffix host prefix f
                  ∙ ap (λ p. p ++ suffix) g
                  ∙ append_assoc label (b'.' ∷ []) suffix,
              d,
            )
      ]
    ]

-- A wildcard name matches every host that puts a label without a dot, which may be empty, and a dot
-- before the name's suffix.
pub verified_server_name_matches-label :
    (suffix label : List ℕ)
    → HasNoDot label
    → verified_server_name_matches (b'*' ∷ b'.' ∷ suffix) (label ++ (b'.' ∷ suffix)) ≡ true
unfolding verified_server_name_matches strip_wildcard wildcard_matches
verified_server_name_matches-label suffix label h =
    let e = append_assoc label (b'.' ∷ []) suffix in
    let f : strip_suffix suffix (label ++ (b'.' ∷ suffix)) ≡ some (label ++ (b'.' ∷ [])) =
      subst (λ l. strip_suffix suffix l ≡ some (label ++ (b'.' ∷ []))) e
        (strip_suffix-append (label ++ (b'.' ∷ [])) suffix) in
    ground (arith, is_label_complete label h)
