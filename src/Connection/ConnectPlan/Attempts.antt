-- ===== src/Connection/ConnectPlan/Attempts.antt =====
-- What promoting a winner leaves of every attempt of the plan.
use mathlib.Core.Option
use native.Mathlib.Nat.{add-zero, zero-add}
use openwire.Base.{
  ℕ, zero, suc, ◌+◌, ◌<◌, ◌≡◌, refl, ap, ◌∙◌, Bool, true, false, inl, inr, List, [], ◌∷◌, Option,
  none, some, arith, ltb, ◌==◌, if◌then◌else◌, length, Bool-cases, Option-cases,
}
use openwire.Connection.Planning.{Route, RoutePlan}
use openwire.Connection.ConnectPlan.{
  ConnectAttemptState, ConnectAttempt, ConnectPlan, won, set_state, settle, settle_others,
  promote_winner, transition, attempts_from, from_route_plan,
}

-- The state of the attempt at an index, where there is one.
abbrev pub state_at : List ConnectAttempt → ℕ → Option ConnectAttemptState
state_at [] j = none
state_at (a ∷ attempts) zero = some a.state
state_at (a ∷ attempts) (suc j) = state_at attempts j

-- What an attempt's state becomes when the attempt at `winner` has won.
pub outcome : ℕ → ℕ → ConnectAttemptState → ConnectAttemptState
outcome winner j ConnectAttemptState.pending =
    if j == winner then won else ConnectAttemptState.lost winner
outcome winner j ConnectAttemptState.running =
    if j == winner then won else ConnectAttemptState.lost winner
outcome winner j ConnectAttemptState.won = won
outcome winner j (ConnectAttemptState.lost w) =
    if j == winner then won else ConnectAttemptState.lost w
outcome winner j (ConnectAttemptState.failed f) =
    if j == winner then won else ConnectAttemptState.failed f

outcome_lem :
    (winner j : ℕ) (s : ConnectAttemptState)
    → outcome winner j s ≡ (if j == winner then won else settle winner s)
unfolding outcome settle
outcome_lem winner j ConnectAttemptState.pending = refl
outcome_lem winner j ConnectAttemptState.running = refl
outcome_lem winner j ConnectAttemptState.won = ground arith
outcome_lem winner j (ConnectAttemptState.lost w) = refl
outcome_lem winner j (ConnectAttemptState.failed f) = refl

abbrev settled_at : ℕ → ℕ → ConnectAttemptState → ConnectAttemptState
settled_at winner j state = if j == winner then state else settle winner state

state_at-settle_others :
    (winner index j : ℕ) (attempts : List ConnectAttempt)
    → state_at (settle_others winner index attempts) j
      ≡ Option.map (settled_at winner (index + j)) (state_at attempts j)
unfolding settle_others
state_at-settle_others winner index j [] = refl
state_at-settle_others winner index zero (a ∷ attempts) =
    rw add-zero (elim (Bool-cases (index == winner)) [ inl e ↦ rw e | inr e ↦ rw e ])
state_at-settle_others winner index (suc j) (a ∷ attempts) =
    let e : index + suc j ≡ (index + 1) + j = omega arith in
    rw e (state_at-settle_others winner (index + 1) j attempts)

state_at-set_state :
    (winner j : ℕ) (attempts : List ConnectAttempt) (state : ConnectAttemptState)
    → state_at (set_state attempts winner state) j
      ≡ Option.map (λ s. if j == winner then state else s) (state_at attempts j)
unfolding set_state
state_at-set_state winner j [] state = refl
state_at-set_state zero zero (a ∷ attempts) state = refl
state_at-set_state zero (suc j) (a ∷ attempts) state = elim (Option-cases (state_at attempts j)) [
  | inl e ↦ rw e
  | inr (s, e) ↦ rw e (ground arith)
]
state_at-set_state (suc winner) zero (a ∷ attempts) state = ground arith
state_at-set_state (suc winner) (suc j) (a ∷ attempts) state =
    rw (state_at-set_state winner j attempts state) (elim (Option-cases (state_at attempts j)) [
      | inl e ↦ rw e
      | inr (s, e) ↦ rw e (ground arith)
    ])

-- Both writes of `promote_winner`, on the state of one attempt.
state_at-promoted :
    (winner j : ℕ) (attempts : List ConnectAttempt)
    → state_at (settle_others winner 0 (set_state attempts winner won)) j
      ≡ Option.map (outcome winner j) (state_at attempts j)
state_at-promoted winner j attempts =
    rw
      (
        state_at-settle_others winner 0 j (set_state attempts winner won),
        state_at-set_state winner j attempts won,
        zero-add,
      )
      (elim (Option-cases (state_at attempts j)) [
        | inl e ↦ rw e
        | inr (s, e) ↦ rw (e, outcome_lem winner j s) (ground arith)
      ])

-- Promoting an attempt of the plan makes it the winner, makes every other attempt that was waiting
-- or running lose to it, and leaves the others as they ended; outside the plan nothing changes.
pub promote_winner-outcome :
    (p : ConnectPlan) (winner j : ℕ)
    → (state_at (promote_winner p winner).0.attempts j ≡ (
        if ltb winner (length p.attempts)
        then Option.map (outcome winner j) (state_at p.attempts j)
        else state_at p.attempts j))
      × ((promote_winner p winner).1 ≡ ltb winner (length p.attempts))
unfolding promote_winner
promote_winner-outcome p winner j = elim (Bool-cases (ltb winner (length p.attempts))) [
  | inl e ↦ rw e (state_at-promoted winner j p.attempts, refl)
  | inr e ↦ rw e (refl, refl)
]

state_at-set_state_in :
    (attempts : List ConnectAttempt) (i j : ℕ) (s : ConnectAttemptState)
    → i < length attempts
    → state_at (set_state attempts i s) j ≡ (if j == i then some s else state_at attempts j)
unfolding set_state
state_at-set_state_in [] i j s h = absurd (omega arith)
state_at-set_state_in (a ∷ attempts) zero zero s h = refl
state_at-set_state_in (a ∷ attempts) zero (suc j) s h = ground arith
state_at-set_state_in (a ∷ attempts) (suc i) zero s h = ground arith
state_at-set_state_in (a ∷ attempts) (suc i) (suc j) s h =
    state_at-set_state_in attempts i j s (omega arith) ∙ ground arith

length-set_state :
    (attempts : List ConnectAttempt) (i : ℕ) (s : ConnectAttemptState)
    → length (set_state attempts i s) ≡ length attempts
unfolding set_state
length-set_state [] i s = refl
length-set_state (a ∷ attempts) zero s = refl
length-set_state (a ∷ attempts) (suc i) s = omega (arith, length-set_state attempts i s)

-- The one write of a plan.
pub state_at-transition :
    (p : ConnectPlan) (i j : ℕ) (s : ConnectAttemptState)
    → i < length p.attempts
    → (state_at (transition p i s).0.attempts j
        ≡ (if j == i then some s else state_at p.attempts j))
      × (length (transition p i s).0.attempts ≡ length p.attempts)
unfolding transition
state_at-transition p i j s h =
    let e : ltb i (length p.attempts) ≡ true = ground arith in
    rw e (state_at-set_state_in p.attempts i j s h, length-set_state p.attempts i s)

-- An attempt that has failed, and one that has not ended otherwise.
abbrev pub failures : Option ConnectAttemptState → ℕ
failures (some (ConnectAttemptState.failed f)) = 1
failures _ = 0

abbrev pub is_open : Option ConnectAttemptState → Bool
is_open none = false
is_open (some ConnectAttemptState.pending) = true
is_open (some ConnectAttemptState.running) = true
is_open (some ConnectAttemptState.won) = false
is_open (some (ConnectAttemptState.lost w)) = false
is_open (some (ConnectAttemptState.failed f)) = true

-- What a winner leaves of an attempt: won, lost to it, or failed.
abbrev pub lost_to : ℕ → Option ConnectAttemptState → Bool
lost_to winner (some (ConnectAttemptState.lost w)) = w == winner
lost_to winner _ = false

abbrev pub has_ended : Option ConnectAttemptState → Bool
has_ended (some ConnectAttemptState.pending) = false
has_ended (some ConnectAttemptState.running) = false
has_ended _ = true

settle-closed : (winner : ℕ) (s : ConnectAttemptState) → has_ended (some (settle winner s)) ≡ true
unfolding settle
settle-closed winner ConnectAttemptState.pending = refl
settle-closed winner ConnectAttemptState.running = refl
settle-closed winner ConnectAttemptState.won = refl
settle-closed winner (ConnectAttemptState.lost w) = refl
settle-closed winner (ConnectAttemptState.failed f) = refl

outcome-closed :
    (winner j : ℕ) (s : Option ConnectAttemptState)
    → has_ended (Option.map (outcome winner j) s) ≡ true
outcome-closed winner j none = refl
outcome-closed winner j (some s) =
    rw (outcome_lem winner j s)
      (elim (Bool-cases (j == winner)) [ inl e ↦ rw e | inr e ↦ rw e (settle-closed winner s) ])

-- After a winner is promoted, no attempt waits or runs.
pub promote_winner-closed :
    (p : ConnectPlan) (winner j : ℕ)
    → winner < length p.attempts
    → has_ended (state_at (promote_winner p winner).0.attempts j) ≡ true
promote_winner-closed p winner j h =
    let e : ltb winner (length p.attempts) ≡ true = ground arith in
    ap has_ended ((promote_winner-outcome p winner j).0 ∙ rw e)
    ∙ outcome-closed winner j (state_at p.attempts j)

outcome-count :
    (winner j : ℕ) (s : Option ConnectAttemptState)
    → is_open s ≡ true
    → (j == winner) ≡ false
    → (if lost_to winner (Option.map (outcome winner j) s) then 1 else 0) + failures s ≡ 1
unfolding outcome
outcome-count winner j none o e = absurd (ground arith)
outcome-count winner j (some ConnectAttemptState.pending) o e = rw e (ground arith)
outcome-count winner j (some ConnectAttemptState.running) o e = rw e (ground arith)
outcome-count winner j (some ConnectAttemptState.won) o e = absurd (ground arith)
outcome-count winner j (some (ConnectAttemptState.lost w)) o e = absurd (ground arith)
outcome-count winner j (some (ConnectAttemptState.failed f)) o e = rw e (ground arith)

-- An attempt other than the winner's that had not ended has now either lost or had failed before.
pub promote_winner-count :
    (p : ConnectPlan) (winner j : ℕ)
    → winner < length p.attempts
    → is_open (state_at p.attempts j) ≡ true
    → (j == winner) ≡ false
    → (if lost_to winner (state_at (promote_winner p winner).0.attempts j) then 1 else 0)
        + failures (state_at p.attempts j)
      ≡ 1
promote_winner-count p winner j h o n =
    let e : ltb winner (length p.attempts) ≡ true = ground arith in
    ap (λ s. (if lost_to winner s then 1 else 0) + failures (state_at p.attempts j))
      ((promote_winner-outcome p winner j).0 ∙ rw e)
    ∙ outcome-count winner j (state_at p.attempts j) o n

attempts_from-pending :
    (stagger index : ℕ) (routes : List Route) (j : ℕ)
    → (j < length routes
        → state_at (attempts_from stagger index routes) j ≡ some ConnectAttemptState.pending)
      × (length (attempts_from stagger index routes) ≡ length routes)
unfolding attempts_from
attempts_from-pending stagger index [] j = (λ h. absurd (omega arith), refl)
attempts_from-pending stagger index (r ∷ routes) zero =
    (λ h. refl, omega (arith, (attempts_from-pending stagger (index + 1) routes zero).1))
attempts_from-pending stagger index (r ∷ routes) (suc j) = (
  λ h. (attempts_from-pending stagger (index + 1) routes j).0 (omega arith),
  omega (arith, (attempts_from-pending stagger (index + 1) routes zero).1),
)

-- A new plan has one waiting attempt for each route.
pub from_route_plan-pending :
    (p : RoutePlan) (j : ℕ)
    → (j < length p.routes
        → state_at (from_route_plan p).attempts j ≡ some ConnectAttemptState.pending)
      × (length (from_route_plan p).attempts ≡ length p.routes)
unfolding from_route_plan
from_route_plan-pending p j = attempts_from-pending p.fast_fallback_stagger 0 p.routes j
