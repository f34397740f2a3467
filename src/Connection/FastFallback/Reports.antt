-- ===== src/Connection/FastFallback/Reports.antt =====
-- crates/openwire/src/connection/fast_fallback.rs: what the listener is told of each route of a race.
use openwire.Base.{
  ℕ, ◌≤◌, ◌<◌, ◌≡◌, sym, ◌∙◌, ap, inl, inr, Bool, false, List, [], ◌∷◌, All, Option, none, some,
  ◌==◌, if_either, length, Result, ok, err, Bool-cases, arith,
}
use openwire.Policy.Types.{WireError, is_retryable_establishment}
use openwire.Connection.Planning.{RoutePlan}
use openwire.Connection.ConnectPlan.{ConnectAttemptState}
use openwire.Connection.ConnectPlan.Attempts.{state_at, failures, is_open, from_route_plan-pending}
use openwire.Connection.FastFallback.{
  FastFallbackMessage, started, connected, failed_with, Race, fail, start_attempt, receive,
  spawn_tasks, start_race, conclude, run_race, FastFallbackOutcome, dial_route_plan,
}
use openwire.Connection.FastFallback.Accounting.{
  endings, Accounted, attempts_of, start_attempt-attempts, fail-attempts, start_attempt-Accounted,
  fail-Accounted,
}
use openwire.Connection.FastFallback.Endings.{win-endings}

abbrev pub index_of : {I : Type 0} → FastFallbackMessage I → ℕ
index_of (started i) = i
index_of (connected i stream) = i
index_of (failed_with i error message) = i

-- Each task sends its end last: no message of a route comes after its end.
abbrev pub InOrder : {I : Type 0} → List (FastFallbackMessage I) → Type 0
InOrder [] = Unit
InOrder (started i ∷ messages) = InOrder messages
InOrder (connected i stream ∷ messages) =
    All (λ m. (index_of m == i) ≡ false) messages × InOrder messages
InOrder (failed_with i error message ∷ messages) =
    All (λ m. (index_of m == i) ≡ false) messages × InOrder messages

-- The messages are of routes of the plan.
abbrev pub Within : {I : Type 0} → ℕ → List (FastFallbackMessage I) → Type 0
Within n messages = All (λ m. index_of m < n) messages

-- A message to come is of a route that has not failed.
abbrev Awaits : {I : Type 0} → Race → List (FastFallbackMessage I) → Type 0
Awaits race messages = All (λ m. failures (state_at (attempts_of race) (index_of m)) ≡ 0) messages

start_attempt-Awaits :
    {I : Type 0} (i : ℕ) (race : Race) (messages : List (FastFallbackMessage I))
    → i < length (attempts_of race)
    → Awaits race messages
    → Awaits (start_attempt i race) messages
start_attempt-Awaits i race [] h w = tt
start_attempt-Awaits i race (m ∷ messages) h w =
    let (f, p, l, n) = start_attempt-attempts i (index_of m) race h in
    (
      elim (Bool-cases (index_of m == i)) [ inl q ↦ f ∙ rw q | inr q ↦ f ∙ rw q (w.0) ],
      start_attempt-Awaits i race messages h w.1,
    )

fail-Awaits :
    {I : Type 0} (i : ℕ) (error : WireError) (message : List ℕ) (race : Race)
    (messages : List (FastFallbackMessage I))
    → i < length (attempts_of race)
    → All (λ m. (index_of m == i) ≡ false) messages
    → Awaits race messages
    → Awaits (fail i error message race) messages
fail-Awaits i error message race [] h d w = tt
fail-Awaits i error message race (m ∷ messages) h d w =
    let (f, p, l, n) = fail-attempts i (index_of m) error message race h in
    (f ∙ rw (d.0) (w.0), fail-Awaits i error message race messages h d.1 w.1)

-- One ending once there is a winner, and at most one if the race has failed.
abbrev pub Told : {A : Type 0} → Result WireError A → ℕ → Type 0
Told (ok pair) n = n ≡ 1
Told (err error) n = n ≤ 1

failures-le : (s : Option ConnectAttemptState) → failures s ≤ 1
failures-le none = omega arith
failures-le (some ConnectAttemptState.pending) = omega arith
failures-le (some ConnectAttemptState.running) = omega arith
failures-le (some ConnectAttemptState.won) = omega arith
failures-le (some (ConnectAttemptState.lost w)) = omega arith
failures-le (some (ConnectAttemptState.failed f)) = omega arith

at_most_one : (j : ℕ) (race : Race) → Accounted j race → endings j race.events ≤ 1
at_most_one j race (o, e) = omega (arith, e, failures-le (state_at (attempts_of race) j))

untold : (j : ℕ) → endings j [] ≤ 1
unfolding endings
untold j = omega arith

start_race-Accounted :
    (plan : RoutePlan) (tasks : List Bool) (j : ℕ)
    → j < length plan.routes
    → Accounted j (start_race plan tasks)
unfolding endings
start_race-Accounted plan tasks j h =
    let p = (from_route_plan-pending plan j).0 h in (ap is_open p, sym (ap failures p))

module _ {I : Type 0} (exhausted : WireError) where
  receive-Told :
      (n : ℕ) (messages : List (FastFallbackMessage I)) (race : Race)
      → n ≡ length (attempts_of race)
      → Within n messages
      → InOrder messages
      → Awaits race messages
      → ((j : ℕ) → j < n → Accounted j race)
      → (j : ℕ) → j < n
      → Told
          (receive exhausted n messages race).1
          (endings j (receive exhausted n messages race).0.events)
  unfolding receive
  receive-Told n [] race l w o a acc j h = at_most_one j race (acc j h)
  receive-Told n (started i ∷ messages) race l w o a acc j h =
      let g : i < length (attempts_of race) = omega (arith, w.0, l) in
      receive-Told n messages (start_attempt i race) (l ∙ sym (start_attempt-attempts i i race g).2)
        w.1 o (start_attempt-Awaits i race messages g a.1)
        (λ k b. start_attempt-Accounted i k race g a.0 (acc k b)) j h
  receive-Told n (connected i stream ∷ messages) race l w o a acc j h =
      let g : i < length (attempts_of race) = omega (arith, w.0, l) in
      rw l (win-endings i j race g a.0 (omega (arith, h, l)) (acc j h))
  receive-Told n (failed_with i error message ∷ messages) race l w o a acc j h =
      let g : i < length (attempts_of race) = omega (arith, w.0, l) in
      let lost = fail i error message race in
      let kept = record lost { last_error = some error } in
      let now : (k : ℕ) → k < n → Accounted k lost =
        λ k b. fail-Accounted i k error message race g a.0 (acc k b) in
      if_either (λ (pair : Race × Result WireError (ℕ × I)). Told pair.1 (endings j pair.0.events))
        (is_retryable_establishment error) (receive exhausted n messages kept) _
        (λ r.
          receive-Told n messages kept (l ∙ sym (fail-attempts i i error message race g).2) w.1 o.1
            (fail-Awaits i error message race messages g o.0 a.1) now j h)
        (λ r. at_most_one j lost (now j h))

  conclude-Told :
      (race_id n j : ℕ) (pair : Race × Result WireError (ℕ × I))
      → Told pair.1 (endings j pair.0.events)
      → Told
          (conclude exhausted race_id n pair).1
          (endings j (conclude exhausted race_id n pair).0.events)
  conclude-Told race_id n j (race, err error) t = t
  conclude-Told race_id n j (race, ok (index, stream)) t = t

  start_race-Awaits :
      (plan : RoutePlan) (tasks : List Bool) (messages : List (FastFallbackMessage I))
      → Within (length plan.routes) messages
      → Awaits (start_race plan tasks) messages
  start_race-Awaits plan tasks [] w = tt
  start_race-Awaits plan tasks (m ∷ messages) w = (
    ap failures ((from_route_plan-pending plan (index_of m)).0 (w.0)),
    start_race-Awaits plan tasks messages w.1,
  )

  run_race-Told :
      (race_id : ℕ) (plan : RoutePlan) (messages : List (FastFallbackMessage I))
      (spawned : List Bool × Option WireError)
      → Within (length plan.routes) messages
      → InOrder messages
      → (j : ℕ) → j < length plan.routes
      → Told
          (run_race exhausted race_id plan messages spawned).1
          (endings j (run_race exhausted race_id plan messages spawned).0.events)
  run_race-Told race_id plan messages (tasks, some error) w o j h = untold j
  run_race-Told race_id plan messages (tasks, none) w o j h =
      conclude-Told race_id (length plan.routes) j
        (receive exhausted (length plan.routes) messages (start_race plan tasks))
        (receive-Told (length plan.routes) messages (start_race plan tasks)
          (sym (from_route_plan-pending plan 0).1) w o (start_race-Awaits plan tasks messages w)
          (start_race-Accounted plan tasks) j h)

  -- A race of a plan tells the listener of each route's end: once the race has a winner, every route of
  -- the plan is reported exactly once, as won or as lost; a race that ends with an error reports no route
  -- twice. The messages are of routes of the plan, and none of a route comes after its end.
  pub dial_route_plan-Told :
      (race_id : ℕ) (spawn : ℕ → Option WireError) (plan : RoutePlan)
      (messages : List (FastFallbackMessage I))
      → Within (length plan.routes) messages
      → InOrder messages
      → (j : ℕ) → j < length plan.routes
      → Told
          (dial_route_plan exhausted race_id spawn plan messages).1
          (endings j (dial_route_plan exhausted race_id spawn plan messages).0.events)
  unfolding dial_route_plan
  dial_route_plan-Told race_id spawn plan messages w o j h =
      if_either
        (λ (pair : Race × Result WireError (I × FastFallbackOutcome)).
          Told pair.1 (endings j pair.0.events))
        (length plan.routes == 0) _ _ (λ e. untold j)
        (λ e.
          run_race-Told race_id plan messages (spawn_tasks spawn 0 (length plan.routes) []) w o j h)
