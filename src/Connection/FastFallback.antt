-- ===== src/Connection/FastFallback.antt =====
-- crates/openwire/src/connection/fast_fallback.rs: the race of the connect attempts of a plan. The
-- dialer is a function of the messages that its tasks send, in the order they arrive; what it tells the
-- listener is kept, the latest first. An abort handle is a Boolean, and a spawn may fail.
pub mod Accounting
pub mod Endings
pub mod Reports
pub mod Examples
use openwire.Base.{
  ℕ, zero, suc, ◌+◌, ◌%◌, ◌^◌, ◌≡◌, Bool, true, false, not, ◌&&◌, ◌||◌, List, [], ◌∷◌, ◌++◌, Option,
  none, some, any, ltb, ◌==◌, if◌then◌else◌, length, Result, ok, err,
}
use openwire.Policy.Types.{
  WireError, EstablishmentStage, establishment_stage, is_retryable_establishment,
}
use openwire.Connection.Planning.{RoutePlan}
use openwire.Connection.ConnectPlan.{
  ConnectFailureStage, ConnectFailure, ConnectAttemptState, ConnectAttempt, ConnectPlan,
  from_route_plan, mark_running, mark_failed, mark_lost, promote_winner,
}
use openwire.Connection.ConnectPlan.Attempts.{state_at}

pub record FastFallbackOutcome : Type 0 where
  pub race_id : ℕ
  pub route_count : ℕ
  pub winner_index : ℕ
  pub fast_fallback_enabled : Bool

pub data FastFallbackMessage (I : Type 0) : Type 0 where
  started : ℕ → FastFallbackMessage I
  connected : ℕ → I → FastFallbackMessage I
  failed_with : ℕ → WireError → List ℕ → FastFallbackMessage I

pub data LossReason : Type 0 where
  connect_failed tls_failed protocol_failed proxy_failed canceled : LossReason

pub data RaceEvent : Type 0 where
  race_start race_won : ℕ → RaceEvent
  race_lost : ℕ → LossReason → RaceEvent

pub record Race : Type 0 where
  pub connect_plan : ConnectPlan
  pub last_error : Option WireError
  pub events : List RaceEvent
  pub aborted : List Bool

unfoldable pub failure_stage : WireError → ConnectFailureStage
failure_stage error = elim (establishment_stage error) [
  | none ↦ ConnectFailureStage.tcp
  | some stage ↦ elim stage [
    | EstablishmentStage.dns ↦ ConnectFailureStage.tcp
    | EstablishmentStage.tcp ↦ ConnectFailureStage.tcp
    | EstablishmentStage.tls ↦ ConnectFailureStage.tls
    | EstablishmentStage.protocol_binding ↦ ConnectFailureStage.protocol_binding
    | EstablishmentStage.proxy_tunnel ↦ ConnectFailureStage.proxy_tunnel
    | EstablishmentStage.route_exhausted ↦ ConnectFailureStage.tcp
  ]
]

unfoldable pub loss_reason : ConnectFailureStage → LossReason
loss_reason ConnectFailureStage.tcp = connect_failed
loss_reason ConnectFailureStage.tls = tls_failed
loss_reason ConnectFailureStage.protocol_binding = protocol_failed
loss_reason ConnectFailureStage.proxy_tunnel = proxy_failed

-- The counter of race ids, before and after.
abbrev pub next_connect_race_id : ℕ → ℕ × ℕ
next_connect_race_id counter = (counter, (counter + 1) % 2 ^ 64)

unfoldable pub abort_all : List Bool → List Bool
abort_all [] = []
abort_all (task ∷ tasks) = true ∷ abort_all tasks

unfoldable pub abort_others : ℕ → ℕ → List Bool → List Bool
abort_others winner index [] = []
abort_others winner index (task ∷ tasks) =
    (if index == winner then task else true) ∷ abort_others winner (index + 1) tasks

abbrev pub emit_lost : ℕ → Race → Race
emit_lost index race = record race { events = race_lost index canceled ∷ race.events }

-- A route that is waiting or running loses now; one that has lost to the winner is reported too.
unfoldable pub emit_for : ℕ → ℕ → Option ConnectAttemptState → List ℕ × Race → List ℕ × Race
unfolding mark_lost
emit_for winner index (some ConnectAttemptState.pending) (canceled_routes, race) = (
  index ∷ canceled_routes,
  emit_lost index (record race { connect_plan = (mark_lost race.connect_plan index winner).0 }),
)
emit_for winner index (some ConnectAttemptState.running) (canceled_routes, race) = (
  index ∷ canceled_routes,
  emit_lost index (record race { connect_plan = (mark_lost race.connect_plan index winner).0 }),
)
emit_for winner index (some (ConnectAttemptState.lost current)) (canceled_routes, race) =
    if current == winner
    then (index ∷ canceled_routes, emit_lost index race)
    else (canceled_routes, race)
emit_for winner index _ pair = pair

-- `emit_canceled_loss_if_needed`, with the routes already reported.
unfoldable pub emit_canceled_loss : ℕ → ℕ → List ℕ × Race → List ℕ × Race
unfolding emit_for
emit_canceled_loss winner index (canceled_routes, race) =
    if (index == winner) || any (λ i. i == index) canceled_routes
    then (canceled_routes, race)
    else emit_for winner index (state_at race.connect_plan.attempts index) (canceled_routes, race)

-- The loop over the routes from `index` on.
unfoldable pub emit_losses : ℕ → ℕ → ℕ → List ℕ × Race → Race
unfolding emit_canceled_loss
emit_losses winner index zero (canceled_routes, race) = race
emit_losses winner index (suc count) pair =
    emit_losses winner (index + 1) count (emit_canceled_loss winner index pair)

unfoldable pub cleanup_losers : ℕ → ℕ → Race → Race
unfolding abort_others emit_losses
cleanup_losers winner route_count race =
    emit_losses winner 0 route_count
      ([], record race { aborted = abort_others winner 0 race.aborted })

unfoldable pub win : ℕ → ℕ → Race → Race
unfolding promote_winner cleanup_losers
win route_count index race = cleanup_losers index route_count (record race {
  connect_plan = (promote_winner race.connect_plan index).0;
  events = race_won index ∷ race.events;
})

unfoldable pub fail : ℕ → WireError → List ℕ → Race → Race
unfolding mark_failed failure_stage loss_reason
fail index error message race = record race {
  connect_plan =
      (mark_failed race.connect_plan index
        (record { stage = failure_stage error; message = message })).0;
  events = race_lost index (loss_reason (failure_stage error)) ∷ race.events;
}

unfoldable pub start_attempt : ℕ → Race → Race
unfolding mark_running
start_attempt index race = record race {
  connect_plan = (mark_running race.connect_plan index).0;
  events = race_start index ∷ race.events;
}

abbrev last_or : WireError → Option WireError → WireError
last_or exhausted none = exhausted
last_or exhausted (some error) = error

-- The tasks are spawned in order; `spawn` says which fails.
unfoldable pub spawn_tasks :
    (ℕ → Option WireError) → ℕ → ℕ → List Bool → List Bool × Option WireError
unfolding abort_all
spawn_tasks spawn index zero tasks = (tasks, none)
spawn_tasks spawn index (suc count) tasks = elim (spawn index) [
  | some error ↦ (abort_all tasks, some error)
  | none ↦ spawn_tasks spawn (index + 1) count (tasks ++ (false ∷ []))
]

abbrev pub start_race : RoutePlan → List Bool → Race
start_race plan tasks = record {
  connect_plan = from_route_plan plan;
  last_error = none;
  events = [];
  aborted = tasks;
}

module _ {I : Type 0} (exhausted : WireError) where
  -- The loop over the messages; the winner comes with its stream.
  unfoldable pub receive : ℕ → List (FastFallbackMessage I) → Race → Race × Result WireError (ℕ × I)
  unfolding win fail start_attempt abort_all
  receive route_count [] race =
      (record race { aborted = abort_all race.aborted }, err (last_or exhausted race.last_error))
  receive route_count (started index ∷ messages) race =
      receive route_count messages (start_attempt index race)
  receive route_count (connected index stream ∷ messages) race =
      (win route_count index race, ok (index, stream))
  receive route_count (failed_with index error message ∷ messages) race =
      let lost = fail index error message race in
      let rest = receive route_count messages (record lost { last_error = some error }) in
      if is_retryable_establishment error
      then rest
      else (record lost { aborted = abort_all lost.aborted }, err error)

  abbrev pub conclude :
      ℕ → ℕ → Race × Result WireError (ℕ × I) → Race × Result WireError (I × FastFallbackOutcome)
  conclude race_id route_count (race, err error) = (race, err error)
  conclude race_id route_count (race, ok (index, stream)) = (
    race,
    ok (
      stream,
      record {
        race_id = race_id;
        route_count = route_count;
        winner_index = index;
        fast_fallback_enabled = ltb 1 route_count;
      },
    ),
  )

  abbrev pub run_race :
      ℕ
      → RoutePlan
      → List (FastFallbackMessage I)
      → List Bool × Option WireError
      → Race × Result WireError (I × FastFallbackOutcome)
  run_race race_id plan messages (tasks, some error) = (start_race plan tasks, err error)
  run_race race_id plan messages (tasks, none) =
      conclude race_id (length plan.routes)
        (receive (length plan.routes) messages (start_race plan tasks))

  -- `dial_route_plan`, with the id that the race has drawn.
  unfoldable pub dial_route_plan :
      ℕ
      → (ℕ → Option WireError)
      → RoutePlan
      → List (FastFallbackMessage I)
      → Race × Result WireError (I × FastFallbackOutcome)
  unfolding from_route_plan receive spawn_tasks
  dial_route_plan race_id spawn plan messages =
      let route_count = length plan.routes in
      if route_count == 0
      then (start_race plan [], err exhausted)
      else run_race race_id plan messages (spawn_tasks spawn 0 route_count [])
