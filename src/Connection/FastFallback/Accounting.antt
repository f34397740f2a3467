-- ===== src/Connection/FastFallback/Accounting.antt =====
-- crates/openwire/src/connection/fast_fallback.rs: what a message of a task does to the endings of the
-- routes, before there is a winner.
use openwire.Base.{
  ℕ, ◌+◌, ◌<◌, ◌≡◌, refl, sym, ◌∙◌, ap, inl, inr, true, false, List, [], ◌∷◌, ◌==◌, if◌then◌else◌,
  length, Bool-cases, arith,
}
use openwire.Policy.Types.{WireError}
use openwire.Connection.ConnectPlan.{ConnectAttemptState, ConnectAttempt, mark_running, mark_failed}
use openwire.Connection.ConnectPlan.Attempts.{state_at, failures, is_open, state_at-transition}
use openwire.Connection.FastFallback.{
  RaceEvent, race_start, race_won, race_lost, Race, fail, start_attempt,
}

-- How often the listener is told that a route has won or lost.
unfoldable pub endings : ℕ → List RaceEvent → ℕ
endings j [] = 0
endings j (race_start i ∷ events) = endings j events
endings j (race_won i ∷ events) = (if i == j then 1 else 0) + endings j events
endings j (race_lost i reason ∷ events) = (if i == j then 1 else 0) + endings j events

-- Before a winner: a route has one ending if it has failed, and none otherwise.
abbrev pub Accounted : ℕ → Race → Type 0
Accounted j race =
    (is_open (state_at race.connect_plan.attempts j) ≡ true)
    × (endings j race.events ≡ failures (state_at race.connect_plan.attempts j))

abbrev pub attempts_of : Race → List ConnectAttempt
attempts_of race = race.connect_plan.attempts

-- What a message does to the attempt of its route, and to no other.
pub start_attempt-attempts :
    (i j : ℕ) (race : Race)
    → i < length (attempts_of race)
    → (failures (state_at (attempts_of (start_attempt i race)) j)
        ≡ (if j == i then 0 else failures (state_at (attempts_of race) j)))
      × (is_open (state_at (attempts_of (start_attempt i race)) j)
          ≡ (if j == i then true else is_open (state_at (attempts_of race) j)))
      × (length (attempts_of (start_attempt i race)) ≡ length (attempts_of race))
      × (endings j (start_attempt i race).events ≡ endings j race.events)
unfolding start_attempt mark_running endings
start_attempt-attempts i j race h =
    let (s, l) = state_at-transition race.connect_plan i j ConnectAttemptState.running h in
    elim (Bool-cases (j == i)) [
      | inl e ↦ (ap failures s ∙ rw e, ap is_open s ∙ rw e, l, refl)
      | inr e ↦ (ap failures s ∙ rw e, ap is_open s ∙ rw e, l, refl)
    ]

pub fail-attempts :
    (i j : ℕ) (error : WireError) (message : List ℕ) (race : Race)
    → i < length (attempts_of race)
    → (failures (state_at (attempts_of (fail i error message race)) j)
        ≡ (if j == i then 1 else failures (state_at (attempts_of race) j)))
      × (is_open (state_at (attempts_of (fail i error message race)) j)
          ≡ (if j == i then true else is_open (state_at (attempts_of race) j)))
      × (length (attempts_of (fail i error message race)) ≡ length (attempts_of race))
      × (endings j (fail i error message race).events
          ≡ (if i == j then 1 else 0) + endings j race.events)
unfolding fail mark_failed endings
fail-attempts i j error message race h =
    let (s, l) = state_at-transition race.connect_plan i j _ h in
    elim (Bool-cases (j == i)) [
      | inl e ↦ (ap failures s ∙ rw e, ap is_open s ∙ rw e, l, refl)
      | inr e ↦ (ap failures s ∙ rw e, ap is_open s ∙ rw e, l, refl)
    ]

pub start_attempt-Accounted :
    (i j : ℕ) (race : Race)
    → i < length (attempts_of race)
    → failures (state_at (attempts_of race) i) ≡ 0
    → Accounted j race
    → Accounted j (start_attempt i race)
start_attempt-Accounted i j race h z (o, e) =
    let (f, p, l, n) = start_attempt-attempts i j race h in
    elim (Bool-cases (j == i)) [
      | inl q ↦
          let same : j ≡ i = ground arith in
          (
            p ∙ rw q,
            n ∙ e ∙ ap (λ k. failures (state_at (attempts_of race) k)) same ∙ z ∙ sym (f ∙ rw q),
          )
      | inr q ↦ (p ∙ rw q o, n ∙ e ∙ sym (f ∙ rw q))
    ]

pub fail-Accounted :
    (i j : ℕ) (error : WireError) (message : List ℕ) (race : Race)
    → i < length (attempts_of race)
    → failures (state_at (attempts_of race) i) ≡ 0
    → Accounted j race
    → Accounted j (fail i error message race)
fail-Accounted i j error message race h z (o, e) =
    let (f, p, l, n) = fail-attempts i j error message race h in
    elim (Bool-cases (j == i)) [
      | inl q ↦
          let same : j ≡ i = ground arith in
          let r : (i == j) ≡ true = ground arith in
          let none_yet : endings j race.events ≡ 0 =
            e ∙ ap (λ k. failures (state_at (attempts_of race) k)) same ∙ z in
          let m : endings j (fail i error message race).events ≡ 1 + endings j race.events =
            n ∙ rw r in
          let g : failures (state_at (attempts_of (fail i error message race)) j) ≡ 1 = f ∙ rw q in
          (p ∙ rw q, omega (arith, m, none_yet, g))
      | inr q ↦
          let r : (i == j) ≡ false = ground arith in
          let m : endings j (fail i error message race).events ≡ 0 + endings j race.events =
            n ∙ rw r in
          let g : failures (state_at (attempts_of (fail i error message race)) j)
              ≡ failures (state_at (attempts_of race) j) =
            f ∙ rw q in
          (p ∙ rw q o, omega (arith, m, e, g))
    ]
