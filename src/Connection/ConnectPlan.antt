-- ===== src/Connection/ConnectPlan.antt =====
-- crates/openwire/src/connection/planning.rs: the attempts of a connect plan and how they end. Indices
-- and delays are numbers.
pub mod Attempts
use openwire.Base.{
  ℕ, zero, suc, ◌+◌, ◌-◌, ◌*◌, ◌%◌, ◌^◌, Bool, true, false, ◌&&◌, List, [], ◌∷◌, map, Option, none,
  some, between, ltb, ◌==◌, if◌then◌else◌, length,
}
use openwire.Connection.Planning.{Route, RoutePlan}

pub data ConnectFailureStage : Type 0 where
  tcp tls protocol_binding proxy_tunnel : ConnectFailureStage

pub record ConnectFailure : Type 0 where
  pub stage : ConnectFailureStage
  pub message : List ℕ

pub data ConnectAttemptState : Type 0 where
  pending running won : ConnectAttemptState
  lost : ℕ → ConnectAttemptState
  failed : ConnectFailure → ConnectAttemptState

pub record ConnectAttempt : Type 0 where
  pub route : Route
  pub scheduled_after : ℕ
  pub state : ConnectAttemptState

pub record ConnectPlan : Type 0 where
  pub attempts : List ConnectAttempt
  pub fast_fallback_stagger : ℕ

attempts_from : ℕ → ℕ → List Route → List ConnectAttempt
attempts_from stagger index [] = []
attempts_from stagger index (route ∷ routes) =
    record { route = route; scheduled_after = stagger * (index % 2 ^ 32); state = pending }
    ∷ attempts_from stagger (index + 1) routes

unfoldable pub from_route_plan : RoutePlan → ConnectPlan
unfolding attempts_from
from_route_plan p = record {
  attempts = attempts_from p.fast_fallback_stagger 0 p.routes;
  fast_fallback_stagger = p.fast_fallback_stagger;
}

set_state : List ConnectAttempt → ℕ → ConnectAttemptState → List ConnectAttempt
set_state [] index state = []
set_state (a ∷ xs) zero state = record a { state = state } ∷ xs
set_state (a ∷ xs) (suc index) state = a ∷ set_state xs index state

unfoldable pub transition : ConnectPlan → ℕ → ConnectAttemptState → ConnectPlan × Bool
unfolding set_state
transition p index state =
    if ltb index (length p.attempts)
    then (record p { attempts = set_state p.attempts index state }, true)
    else (p, false)

unfoldable pub mark_running : ConnectPlan → ℕ → ConnectPlan × Bool
unfolding transition
mark_running p index = transition p index running

unfoldable pub mark_failed : ConnectPlan → ℕ → ConnectFailure → ConnectPlan × Bool
unfolding transition
mark_failed p index failure = transition p index (failed failure)

unfoldable pub mark_lost : ConnectPlan → ℕ → ℕ → ConnectPlan × Bool
unfolding transition
mark_lost p index winner_index = transition p index (lost winner_index)

settle : ℕ → ConnectAttemptState → ConnectAttemptState
settle winner_index pending = lost winner_index
settle winner_index running = lost winner_index
settle winner_index state = state

settle_others : ℕ → ℕ → List ConnectAttempt → List ConnectAttempt
unfolding settle
settle_others winner_index index [] = []
settle_others winner_index index (a ∷ xs) =
    (if index == winner_index then a else record a { state = settle winner_index a.state })
    ∷ settle_others winner_index (index + 1) xs

unfoldable pub promote_winner : ConnectPlan → ℕ → ConnectPlan × Bool
unfolding transition settle_others
promote_winner p winner_index =
    let (q, done) = transition p winner_index won in
    if done
    then (record q { attempts = settle_others winner_index 0 q.attempts }, true)
    else (q, false)
