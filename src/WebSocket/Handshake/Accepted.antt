-- ===== src/WebSocket/Handshake/Accepted.antt =====
-- crates/openwire/src/websocket/handshake.rs: what holds of a response that is accepted.
use openwire.Base.{
  ℕ, ◌≡◌, refl, sym, ap, subst, inl, inr, Bool, true, false, not, List, [], ◌∷◌, All, Option, none,
  some, any, ◌==◌, ==_iff, if◌then◌else◌, Result, ok, err, ◌>>=◌, Bool-cases, arith,
}
use openwire.Text.{text_eq, text_eq_sound, codes, split_on}
use openwire.WebSocket.Handshake.{
  HandshakeFailure, unexpected_status, missing_upgrade, missing_connection, HandshakeResponse,
  ValidatedHandshake, upgrade_has_websocket, connection_has_upgrade, accepts, accept_values,
  validate_accept_header, select_from, reject_from, selected_subprotocol, if_offered,
  validate_selected_subprotocol, first_extension, no_extension, reject_extensions,
  validate_handshake_response,
}

bind_ok :
    {E A B : Type 0} (r : Result E A) (f : A → Result E B) (b : B)
    → (r >>= f) ≡ ok b
    → (a : A) × (r ≡ ok a) × (f a ≡ ok b)
bind_ok (ok a) f b h = (a, refl, h)
bind_ok (err e) f b h = absurd (ground arith)

guard_ok :
    {E A : Type 0} (b : Bool) (e : E) (r : Result E A) (a : A)
    → (if not b then err e else r) ≡ ok a
    → (b ≡ true) × (r ≡ ok a)
guard_ok true e r a h = (refl, h)
guard_ok false e r a h = absurd (ground arith)

module _ (to_str : List ℕ → Option (List ℕ)) where
  -- One value, that reads as a text.
  abbrev pub Single : List ℕ → List (List ℕ) → Type 0
  Single text values = (value : List ℕ) × (values ≡ value ∷ []) × (to_str value ≡ some text)

  accepts_lem :
      (expected : List ℕ) (o : Option (List ℕ))
      → accepts to_str expected o ≡ ok tt
      → o ≡ some expected
  accepts_lem expected none h = absurd (ground arith)
  accepts_lem expected (some a) h = elim (Bool-cases (text_eq a expected)) [
    | inl e ↦ ap some (text_eq_sound a expected e)
    | inr e ↦ absurd (ground arith)
  ]

  accept_values-Single :
      (expected : List ℕ) (values : List (List ℕ))
      → accept_values to_str expected values ≡ ok tt
      → Single expected values
  accept_values-Single expected [] h = absurd (ground arith)
  accept_values-Single expected (v ∷ []) h = (v, refl, accepts_lem expected (to_str v) h)
  accept_values-Single expected (v ∷ w ∷ values) h = absurd (ground arith)

  -- No value, or one with a token.
  abbrev Selected : List (List ℕ) → Option (List ℕ) → Type 0
  Selected values none = values ≡ []
  Selected values (some token) = Single token values × (any (λ c. c == b',') token ≡ false)

  select_from-some : (o : Option (List ℕ)) (t c : List ℕ) → select_from to_str o (some t) ≡ ok c → ⊥
  select_from-some none t c h = ground arith
  select_from-some (some token) t c h = ground arith

  select_from-none :
      (o : Option (List ℕ)) (t : List ℕ)
      → select_from to_str o none ≡ ok t
      → (o ≡ some t) × (any (λ c. c == b',') t ≡ false)
  select_from-none none t h = absurd (ground arith)
  select_from-none (some token) t h = elim (Bool-cases (any (λ c. c == b',') token)) [
    | inl e ↦ absurd (ground arith)
    | inr e ↦
        let same : token ≡ t = ground arith in
        (ap some same, subst (λ x. any (λ c. c == b',') x ≡ false) same e)
  ]

  second_refused :
      (values : List (List ℕ)) (token : List ℕ) (s : Option (List ℕ))
      → selected_subprotocol to_str values (some token) ≡ ok s
      → (values ≡ []) × (s ≡ some token)
  unfolding selected_subprotocol
  second_refused [] token s h = (refl, ground arith)
  second_refused (v ∷ values) token s h =
      let (c, e, rest) =
        bind_ok (select_from to_str (to_str v) (some token))
          (λ chosen. selected_subprotocol to_str values (some chosen)) s h in
      absurd (select_from-some (to_str v) token c e)

  selected_subprotocol-Selected :
      (values : List (List ℕ)) (s : Option (List ℕ))
      → selected_subprotocol to_str values none ≡ ok s
      → Selected values s
  unfolding selected_subprotocol
  selected_subprotocol-Selected [] none h = refl
  selected_subprotocol-Selected [] (some t) h = absurd (ground arith)
  selected_subprotocol-Selected (v ∷ values) s h =
      let (t, e, rest) =
        bind_ok (select_from to_str (to_str v) none)
          (λ chosen. selected_subprotocol to_str values (some chosen)) s h in
      let (text, comma) = select_from-none (to_str v) t e in
      let (none_left, is) = second_refused values t s rest in
      subst (Selected (v ∷ values)) (sym is) ((v, ap (◌∷◌ v) none_left, text), comma)

  -- A value reads as pieces that are all empty.
  abbrev pub NoExtension : List ℕ → Type 0
  NoExtension value =
      (raw : List ℕ) × (to_str value ≡ some raw)
      × (first_extension to_str (split_on b',' raw) ≡ none)

  no_extension_lem : (o : Option (List ℕ)) → no_extension to_str o ≡ ok tt → o ≡ none
  no_extension_lem none h = refl
  no_extension_lem (some e) h = absurd (ground arith)

  reject_from_lem :
      (o : Option (List ℕ))
      → reject_from to_str o ≡ ok tt
      → (raw : List ℕ) × (o ≡ some raw) × (first_extension to_str (split_on b',' raw) ≡ none)
  reject_from_lem none h = absurd (ground arith)
  reject_from_lem (some raw) h =
      (raw, refl, no_extension_lem (first_extension to_str (split_on b',' raw)) h)

  reject_extensions-All :
      (values : List (List ℕ)) → reject_extensions to_str values ≡ ok tt → All NoExtension values
  unfolding reject_extensions
  reject_extensions-All [] h = tt
  reject_extensions-All (v ∷ values) h =
      let (done, e, rest) =
        bind_ok (reject_from to_str (to_str v)) (λ done. reject_extensions to_str values) tt h in
      (reject_from_lem (to_str v) e, reject_extensions-All values rest)

  -- What the client may rely on.
  abbrev pub Chosen : List (List ℕ) → List (List ℕ) → Option (List ℕ) → Type 0
  Chosen offered values none = values ≡ []
  Chosen offered values (some token) =
      Single token values × (any (λ o. text_eq o token) offered ≡ true)

  if_offered-Chosen :
      (offered values : List (List ℕ)) (selected s : Option (List ℕ))
      → Selected values selected
      → if_offered to_str offered selected ≡ ok s
      → Chosen offered values s
  if_offered-Chosen offered values none s w h =
      let is : s ≡ none = ground arith in subst (Chosen offered values) (sym is) w
  if_offered-Chosen offered values (some token) s (w, c) h =
      elim (Bool-cases (any (λ o. text_eq o token) offered)) [
        | inl e ↦
            let is : s ≡ some token = ground arith in subst (Chosen offered values) (sym is) (w, e)
        | inr e ↦ absurd (ground arith)
      ]

  abbrev after_subprotocol :
      HandshakeResponse → Option (List ℕ) → Result HandshakeFailure ValidatedHandshake
  after_subprotocol response subprotocol =
      reject_extensions to_str (response.get_all (codes "sec-websocket-extensions")) >>= λ done.
      ok record { subprotocol = subprotocol; extensions = [] }

  abbrev after_accept :
      HandshakeResponse → List (List ℕ) → Unit {0} → Result HandshakeFailure ValidatedHandshake
  after_accept response offered accepted =
      validate_selected_subprotocol to_str response offered >>= after_subprotocol response

  -- A response that is accepted has status 101, names the websocket protocol and the upgrade, has one
  -- accept value and it is the expected one, selects no subprotocol or exactly one of those that were
  -- offered, which is the one reported, and names no extension.
  pub validate_handshake_response-accepted :
      (response : HandshakeResponse) (expected : List ℕ) (offered : List (List ℕ))
      (h : ValidatedHandshake)
      → validate_handshake_response to_str response expected offered ≡ ok h
      → (response.status ≡ 101)
        × (upgrade_has_websocket to_str response ≡ true)
        × (connection_has_upgrade to_str response ≡ true)
        × Single expected (response.get_all (codes "sec-websocket-accept"))
        × Chosen offered (response.get_all (codes "sec-websocket-protocol")) h.subprotocol
        × All NoExtension (response.get_all (codes "sec-websocket-extensions"))
  unfolding validate_handshake_response validate_accept_header validate_selected_subprotocol
  validate_handshake_response-accepted response expected offered h q =
      let (a, q1) = guard_ok (response.status == 101) unexpected_status _ h q in
      let (b, q2) = guard_ok (upgrade_has_websocket to_str response) missing_upgrade _ h q1 in
      let (c, q3) = guard_ok (connection_has_upgrade to_str response) missing_connection _ h q2 in
      let (t1, d, q4) =
        bind_ok (validate_accept_header to_str response expected) (after_accept response offered) h
          q3 in
      let (s, e, q5) =
        bind_ok (validate_selected_subprotocol to_str response offered) (after_subprotocol response)
          h q4 in
      let (t2, f, q6) =
        bind_ok (reject_extensions to_str (response.get_all (codes "sec-websocket-extensions")))
          (λ done. ok record { subprotocol = s; extensions = [] }) h q5 in
      let (chosen, g, o) =
        bind_ok
          (selected_subprotocol to_str (response.get_all (codes "sec-websocket-protocol")) none)
          (if_offered to_str offered) s e in
      let is : s ≡ h.subprotocol = ground arith in
      (
        (==_iff response.status 101).0 a,
        b,
        c,
        accept_values-Single expected (response.get_all (codes "sec-websocket-accept")) d,
        subst (Chosen offered (response.get_all (codes "sec-websocket-protocol"))) is (
            if_offered-Chosen offered (response.get_all (codes "sec-websocket-protocol")) chosen s
              (selected_subprotocol-Selected (response.get_all (codes "sec-websocket-protocol"))
                chosen g)
              o),
        reject_extensions-All (response.get_all (codes "sec-websocket-extensions")) f,
      )
